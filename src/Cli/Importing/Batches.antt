-- ===== src/Cli/Importing/Batches.antt =====
-- crates/cli/src/main.rs: the batches in which an archive is taken in.
use chatcommons.Prelude.{
  ℕ, zero, suc, ◌+◌, ◌≤◌, ◌≡◌, ◌==◌, ◌||◌, refl, true, false, ◌&&◌, some, List, [], ◌∷◌, length,
  length-append, take, drop, take-append-drop, any, is_empty, Result, ok, err, arith, sym, ◌∙◌,
  subst, ap, inl, inr, Bool-cases, Option-cases,
}
use chatcommons.Prelude.Sets
use chatcommons.Prelude.Sets.{Set, contains-insert}
use chatcommons.Prelude.Maps
use chatcommons.Prelude.Maps.{Map, Every, Every-insert, Every-remove, lookup-insert, lookup-remove}
use chatcommons.Crypto.{Primitives}
use chatcommons.Protocol.{EventId, SignedEvent, Codec}
use chatcommons.Storage.{Sqlite}
use chatcommons.Node.{CoreNode, NodeError, IngestReport, ids_of, ingest}
use chatcommons.Node.Ingestion.{ingest_returns, ingest-Reports}
use chatcommons.Sync.{chunks}
use chatcommons.Network.{Synchronizer}
use chatcommons.Cli.Importing.{pending_of, take_batch, ingest_batches}
use chatcommons.Cli.Importing.Completeness.{contains-append}

-- Each event stands under its own identifier.
abbrev pub Keyed : Map SignedEvent → Type 0
Keyed = Every (λ id e. e.event_id ≡ id)

pub pending_of-Keyed :
    (known : Set) (pending : Map SignedEvent) (events : List SignedEvent)
    → Keyed pending
    → Keyed (pending_of known pending events)
unfolding pending_of
pending_of-Keyed known pending [] k = k
pending_of-Keyed known pending (e ∷ events) k = elim (Bool-cases (Sets.contains e.event_id known)) [
  | inl t ↦ rw (pending_of, t) (pending_of-Keyed known pending events k)
  | inr f ↦
      rw (pending_of, f)
        (pending_of-Keyed known (Maps.insert e.event_id e pending) events
          (Every-insert (λ id e. e.event_id ≡ id) e.event_id e pending refl k))
]

-- What is given is known or pending.
pub pending_of_covers :
    (known : Set) (pending : Map SignedEvent) (events : List SignedEvent) (id : EventId)
    → (Maps.contains_key id pending || Sets.contains id (ids_of events)) ≡ true
    → (Sets.contains id known || Maps.contains_key id (pending_of known pending events)) ≡ true
unfolding pending_of Sets.contains
pending_of_covers known pending [] id h = ground (arith, h)
pending_of_covers known pending (e ∷ events) id h =
    elim (Bool-cases (Sets.contains e.event_id known)) [
      | inl t ↦ elim (Bool-cases (id == e.event_id)) [
        | inl same ↦ ground (arith, same, t)
        | inr another ↦
            rw (pending_of, t)
              (pending_of_covers known pending events id (ground (arith, h, another)))
      ]
      | inr f ↦
          rw (pending_of, f)
            (pending_of_covers known (Maps.insert e.event_id e pending) events id
              (ground (arith, h, lookup-insert id e.event_id e pending)))
    ]

take_batch_covers :
    (ids : List EventId) (pending : Map SignedEvent) (id : EventId)
    → Keyed pending
    → Maps.contains_key id pending ≡ true
    → Sets.contains id ids ≡ true
    → Sets.contains id (ids_of ((take_batch ids pending).0)) ≡ true
unfolding take_batch Sets.contains
take_batch_covers [] pending id k c i = absurd cc
take_batch_covers (x ∷ ids) pending id k c i = elim (Bool-cases (id == x)) [
  | inl same ↦ elim (Option-cases (Maps.lookup x pending)) [
    | inl missing ↦ absurd (ground (arith, missing, c, same))
    | inr (e, found) ↦
        let named : e.event_id ≡ x = k x e found in
        rw (take_batch, found) (ground (arith, named, same))
  ]
  | inr another ↦
      let rest =
        take_batch_covers ids (Maps.remove x pending) id
          (Every-remove (λ id e. e.event_id ≡ id) x pending k)
          (ground (arith, c, another, lookup-remove id x pending)) (ground (arith, i, another)) in
      elim (Option-cases (Maps.lookup x pending)) [
        | inl missing ↦ rw (take_batch, missing) rest
        | inr (e, found) ↦ rw (take_batch, found) (ground (arith, rest))
      ]
]

take_batch_left :
    (ids : List EventId) (pending : Map SignedEvent) (id : EventId)
    → Sets.contains id ids ≡ false
    → Maps.lookup id ((take_batch ids pending).1) ≡ Maps.lookup id pending
unfolding take_batch Sets.contains
take_batch_left [] pending id n = refl
take_batch_left (x ∷ ids) pending id n =
    let rest = take_batch_left ids (Maps.remove x pending) id (ground (arith, n)) in
    elim (Option-cases (Maps.lookup x pending)) [
      | inl missing ↦ rw (take_batch, missing) (ground (arith, rest, n, lookup-remove id x pending))
      | inr (e, found) ↦
          rw (take_batch, found) (ground (arith, rest, n, lookup-remove id x pending))
    ]

take_batch-Keyed :
    (ids : List EventId) (pending : Map SignedEvent)
    → Keyed pending
    → Keyed ((take_batch ids pending).1)
unfolding take_batch
take_batch-Keyed [] pending k = k
take_batch-Keyed (x ∷ ids) pending k =
    let rest =
      take_batch-Keyed ids (Maps.remove x pending)
        (Every-remove (λ id e. e.event_id ≡ id) x pending k) in
    elim (Option-cases (Maps.lookup x pending)) [
      | inl missing ↦ rw (take_batch, missing) rest
      | inr (e, found) ↦ rw (take_batch, found) rest
    ]

-- The chunks have all that is split.
pub chunks_cover :
    (fuel size : ℕ) (ids : List EventId) (id : EventId)
    → length ids ≤ fuel
    → Sets.contains id ids ≡ true
    → any (λ chunk. Sets.contains id chunk) (chunks fuel (suc size) ids) ≡ true
unfolding chunks Sets.contains
chunks_cover zero size [] id b c = absurd cc
chunks_cover zero size (x ∷ ids) id b c = absurd (omega (arith, b))
chunks_cover (suc fuel) size [] id b c = absurd cc
chunks_cover (suc fuel) size (x ∷ ids) id b c =
    let split : Sets.contains id ids
        ≡ (Sets.contains id (take size ids) || Sets.contains id (drop size ids)) =
      sym (ap (Sets.contains id) (take-append-drop size ids))
      ∙ contains-append id (take size ids) (drop size ids) in
    elim (Bool-cases (Sets.contains id (drop size ids))) [
      | inl t ↦ ground (
        arith,
        chunks_cover fuel size (drop size ids) id
            (omega (
              arith,
              b,
              length-append (take size ids) (drop size ids),
              ap length (take-append-drop size ids),
            ))
            t,
      )
      | inr f ↦ ground (arith, split, f, c)
    ]

nothing_in :
    (id : EventId) (ids : List EventId) → is_empty ids ≡ true → Sets.contains id ids ≡ false
unfolding Sets.contains
nothing_in id [] h = refl
nothing_in id (x ∷ ids) h = absurd cc

module _ (q : Sqlite) (z : Synchronizer) (p : Primitives) (event_codec : Codec SignedEvent) where
  -- Known, or about to be taken in.
  abbrev pub IsComing : CoreNode q → List (List EventId) → Map SignedEvent → EventId → Type 0
  IsComing core batches pending id =
      (Sets.contains id core.known
        || (any (λ ids. Sets.contains id ids) batches && Maps.contains_key id pending))
      ≡ true

  -- A batch that leaves nothing unresolved makes its identifiers known.
  IsComing-next :
      (core after : CoreNode q) (ids : List EventId) (batches : List (List EventId))
      (pending : Map SignedEvent) (report : IngestReport) (id : EventId)
      → ingest q p event_codec core ((take_batch ids pending).0) ≡ some (ok report, after)
      → is_empty report.unresolved ≡ true
      → Keyed pending
      → IsComing core (ids ∷ batches) pending id
      → IsComing after batches ((take_batch ids pending).1) id
  IsComing-next core after ids batches pending report id i u k c =
      let batch = (take_batch ids pending).0 in
      let accounted = (ingest-Reports q p event_codec core after batch report i).accounted id in
      let none_left = nothing_in id report.unresolved u in
      elim (Bool-cases (Sets.contains id core.known)) [
        | inl t ↦ ground (arith, accounted, none_left, t)
        | inr f ↦
            let key : Maps.contains_key id pending ≡ true = ground (arith, c, f) in
            elim (Bool-cases (Sets.contains id ids)) [
              | inl here ↦
                  ground (arith, accounted, none_left, take_batch_covers ids pending id k key here)
              | inr later ↦ ground (arith, c, f, later, key, take_batch_left ids pending id later)
            ]
      ]

  ingest_batches_next :
      (core : CoreNode q) (ids : List EventId) (batches : List (List EventId))
      (pending : Map SignedEvent) (inserted present : ℕ) (counts : ℕ × ℕ) (after : CoreNode q)
      (id : EventId) (result : Result (NodeError q) IngestReport × CoreNode q)
      → ingest q p event_codec core ((take_batch ids pending).0) ≡ some result
      → ingest_batches q z p event_codec core (ids ∷ batches) pending inserted present
        ≡ some (ok counts, after)
      → Keyed pending
      → IsComing core (ids ∷ batches) pending id
      → ((next : CoreNode q) (more : ℕ)
          → ingest_batches q z p event_codec next batches ((take_batch ids pending).1) more present
            ≡ some (ok counts, after)
          → IsComing next batches ((take_batch ids pending).1) id
          → Sets.contains id after.known ≡ true)
      → Sets.contains id after.known ≡ true
  unfolding ingest_batches
  ingest_batches_next core ids batches pending inserted present counts after id (err e, next) i h k
        c rest =
      absurd (ground (arith, rw (ingest_batches, i) at h))
  ingest_batches_next core ids batches pending inserted present counts after id (ok report, next) i
        h k c rest =
      elim (Bool-cases (is_empty report.unresolved)) [
        | inl t ↦
            rest next (inserted + report.inserted) (rw (ingest_batches, i, t) at h)
              (IsComing-next core next ids batches pending report id i t k c)
        | inr f ↦ absurd (ground (arith, rw (ingest_batches, i, f) at h))
      ]

  pub ingest_batches_covers :
      (core : CoreNode q) (batches : List (List EventId)) (pending : Map SignedEvent)
      (inserted present : ℕ) (counts : ℕ × ℕ) (after : CoreNode q) (id : EventId)
      → ingest_batches q z p event_codec core batches pending inserted present
        ≡ some (ok counts, after)
      → Keyed pending
      → IsComing core batches pending id
      → Sets.contains id after.known ≡ true
  unfolding ingest_batches
  ingest_batches_covers core [] pending inserted present counts after id h k c =
      let same : core ≡ after = ground (arith, h) in
      subst (λ n. Sets.contains id n.known ≡ true) same (ground (arith, c))
  ingest_batches_covers core (ids ∷ batches) pending inserted present counts after id h k c =
      let (batch, left) = take_batch ids pending in
      let (result, i) = ingest_returns q p event_codec core batch in
      ingest_batches_next core ids batches pending inserted present counts after id result i h k c
        (λ next more h c.
          ingest_batches_covers next batches left more present counts after id h
            (take_batch-Keyed ids pending k) c)
