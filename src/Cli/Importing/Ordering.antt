-- ===== src/Cli/Importing/Ordering.antt =====
-- crates/cli/src/main.rs: the loops of `ingest_archive` end.
use chatcommons.Prelude.{
  ℕ, zero, suc, ◌+◌, ◌-◌, ◌<◌, ◌≤◌, ◌≡◌, ◌==◌, refl, true, false, Option, none, some, List, [], ◌∷◌,
  ◌++◌, length, is_empty, filter, Result, ok, err, arith, inl, inr, Bool-cases, Result-cases,
  Option-cases,
}
use chatcommons.Prelude.Sets
use chatcommons.Prelude.Sets.{Set}
use chatcommons.Prelude.Maps
use chatcommons.Prelude.Maps.{Map}
use chatcommons.Crypto.{Primitives}
use chatcommons.Protocol.{EventId, SignedEvent, Codec}
use chatcommons.Storage.{Sqlite}
use chatcommons.Node.{CoreNode, NodeError, IngestReport, ingest, max_pending_events}
use chatcommons.Node.Ingestion.{ingest_returns}
use chatcommons.Sync.{chunks}
use chatcommons.Network.{Synchronizer}
use chatcommons.Cli.{node, incomplete_archive}
use chatcommons.Cli.Importing.{
  set_count, listed, none_left, pending_of, take_batch, Ordered, count_parents, count_all, release,
  order, complete, order_counted, topological, ingest_batches, ingest_ordered, ingest_archive,
}

-- How many identifiers wait for a parent.
abbrev pub waiting : Map ℕ → ℕ
waiting [] = 0
waiting ((id, count) ∷ m) = elim (count == 0) [ true ↦ waiting m | false ↦ suc (waiting m) ]

-- One that is ready is none that waits.
pub waiting-none_left : (m : Map ℕ) → waiting m + length (none_left m) ≡ length m
unfolding none_left
waiting-none_left [] = refl
waiting-none_left ((id, count) ∷ m) = ground (arith, waiting-none_left m)

length-insert-le : (k : ℕ) (s : Set) → length (Sets.insert k s) ≤ suc (length s)
unfolding Sets.insert
length-insert-le k [] = omega arith
length-insert-le k (x ∷ s) = ground (arith, length-insert-le k s)

-- A count that comes down to zero is one less that waits.
waiting-set_count :
    (id count : ℕ) (m : Map ℕ)
    → Maps.lookup id m ≡ some count
    → (count == 0) ≡ false
    → waiting (set_count id (count - 1) m) + (elim (count - 1 == 0) [ true ↦ 1 | false ↦ 0 ])
      ≡ waiting m
unfolding Maps.lookup set_count
waiting-set_count id count [] l p = absurd cc
waiting-set_count id count ((key, value) ∷ m) l p = elim (Bool-cases (id == key)) [
  | inl t ↦ ground (arith, t, l, p)
  | inr f ↦ ground (arith, f, waiting-set_count id count m (ground (arith, l, f)) p)
]

module _ (q : Sqlite) (z : Synchronizer) where
  -- What is released waited before.
  pub release_bounded :
      (ids : List EventId) (counts after : Map ℕ) (ready next : Set)
      → release q z ids counts ready ≡ ok (after, next)
      → waiting after + length next ≤ waiting counts + length ready
  unfolding release
  release_bounded [] counts after ready next h = ground (arith, h)
  release_bounded (id ∷ ids) counts after ready next h =
      elim (Option-cases (Maps.lookup id counts)) [
        | inl missing ↦ absurd (ground (arith, h, missing))
        | inr (count, l) ↦ elim (Bool-cases (count == 0)) [
          | inl t ↦ absurd (ground (arith, h, l, t))
          | inr f ↦
              let fewer = set_count id (count - 1) counts in
              elim (Bool-cases (count - 1 == 0)) [
                | inl g ↦ ground (
                  arith,
                  release_bounded ids fewer after (Sets.insert id ready) next
                      (ground (arith, h, l, f, g)),
                  waiting-set_count id count counts l f,
                  length-insert-le id ready,
                  g,
                )
                | inr g ↦ ground (
                  arith,
                  release_bounded ids fewer after ready next (ground (arith, h, l, f, g)),
                  waiting-set_count id count counts l f,
                  g,
                )
              ]
        ]
      ]

  order_returns :
      (fuel : ℕ) (children : Map (List EventId)) (counts : Map ℕ) (ready : Set) (ids : List EventId)
      → waiting counts + length ready < fuel
      → (out : Ordered q z (List EventId)) × (order q z fuel children counts ready ids ≡ some out)
  unfolding order
  order_returns zero children counts ready ids h = absurd (omega arith)
  order_returns (suc fuel) children counts [] ids h = (ok ids, refl)
  order_returns (suc fuel) children counts (id ∷ ready) ids h =
      elim (Result-cases (release q z (listed (Maps.lookup id children)) counts ready)) [
        | inl (e, r) ↦ (err e, rw (order, r) refl)
        | inr ((after, next), r) ↦
            let (out, o) =
              order_returns fuel (Maps.remove id children) after next (ids ++ id ∷ []) (
                ground (
                  arith,
                  h,
                  release_bounded (listed (Maps.lookup id children)) counts after ready next r,
                )) in
            (out, rw (order, r) o)
      ]

  -- There is a count for each pending event.
  pub length-count_all :
      (known : Set) (pending rest : Map SignedEvent) (children grown : Map (List EventId))
      (counts : Map ℕ)
      → count_all q z known pending rest children ≡ ok (counts, grown)
      → length counts ≡ length rest
  unfolding count_all
  length-count_all known pending [] children grown counts h = ground (arith, h)
  length-count_all known pending ((id, e) ∷ rest) children grown counts h =
      elim (Result-cases (count_parents q z known pending id e.parents 0 children)) [
        | inl (f, c) ↦ absurd (ground (arith, h, c))
        | inr ((remaining, next), c) ↦ elim (Result-cases (count_all q z known pending rest next)) [
          | inl (f, d) ↦ absurd (ground (arith, h, c, d))
          | inr ((tail, last), d) ↦
              ground (arith, h, c, d, length-count_all known pending rest next last tail d)
        ]
      ]

  completed :
      (expected : ℕ) (found : Option (Ordered q z (List EventId)))
      (out : Ordered q z (List EventId))
      → found ≡ some out
      → (final : Ordered q z (List EventId)) × (complete q z expected found ≡ some final)
  completed expected none out o = absurd cc
  completed expected (some (err e)) out o = (err e, refl)
  completed expected (some (ok ids)) out o = elim (Bool-cases (length ids == expected)) [
    | inl t ↦ (ok ids, rw (complete, t) refl)
    | inr f ↦ (err incomplete_archive, rw (complete, f) refl)
  ]

  -- The search for an order ends, with every result.
  topological_returns :
      (known : Set) (pending : Map SignedEvent)
      → (out : Ordered q z (List EventId)) × (topological q z known pending ≡ some out)
  unfolding topological
  topological_returns known pending = through (count_all q z known pending pending []) refl
    where
      through :
          (counted : Ordered q z (Map ℕ × Map (List EventId)))
          → count_all q z known pending pending [] ≡ counted
          → (out : Ordered q z (List EventId)) × (order_counted q z (length pending) counted
              ≡ some out)
      through (err e) c = (err e, refl)
      through (ok (counts, children)) c =
          let (out, o) =
            order_returns (suc (length pending)) children counts (none_left counts) [] (
              ground (
                arith,
                waiting-none_left counts,
                length-count_all known pending pending [] children counts c,
              )) in
          completed (length pending)
            (order q z (suc (length pending)) children counts (none_left counts) []) out o

  module _ (p : Primitives) (event_codec : Codec SignedEvent) where
    -- After one batch, where the others return.
    ingest_next :
        (core : CoreNode q) (ids : List EventId) (batches : List (List EventId))
        (pending : Map SignedEvent) (inserted present : ℕ)
        (result : Result (NodeError q) IngestReport × CoreNode q)
        → ingest q p event_codec core ((take_batch ids pending).0) ≡ some result
        → ((after : CoreNode q) (more : ℕ)
            → (out : Ordered q z (ℕ × ℕ) × CoreNode q) × (ingest_batches q z p event_codec after
                  batches
                  ((take_batch ids pending).1)
                  more
                  present
                ≡ some out))
        → (out : Ordered q z (ℕ × ℕ) × CoreNode q) × (ingest_batches q z p event_codec core
              (ids ∷ batches)
              pending
              inserted
              present
            ≡ some out)
    unfolding ingest_batches
    ingest_next core ids batches pending inserted present (err e, after) i rest =
        ((err (node e), after), rw (ingest_batches, i) refl)
    ingest_next core ids batches pending inserted present (ok report, after) i rest =
        elim (Bool-cases (is_empty report.unresolved)) [
          | inl t ↦
              let (out, o) = rest after (inserted + report.inserted) in
              (out, rw (ingest_batches, i, t) o)
          | inr f ↦ ((err incomplete_archive, after), rw (ingest_batches, i, f) refl)
        ]

    ingest_batches_returns :
        (core : CoreNode q) (batches : List (List EventId)) (pending : Map SignedEvent)
        (inserted present : ℕ)
        → (out : Ordered q z (ℕ × ℕ) × CoreNode q) × (ingest_batches q z p event_codec core batches
              pending inserted present
            ≡ some out)
    unfolding ingest_batches
    ingest_batches_returns core [] pending inserted present = ((ok (inserted, present), core), refl)
    ingest_batches_returns core (ids ∷ batches) pending inserted present =
        let (batch, left) = take_batch ids pending in
        let (out, i) = ingest_returns q p event_codec core batch in
        ingest_next core ids batches pending inserted present out i
          (λ after more. ingest_batches_returns after batches left more present)

    -- The archive is taken in or refused: all loops end, on any node and any events.
    pub ingest_archive_returns :
        (core : CoreNode q) (events : List SignedEvent)
        → (out : Ordered q z (ℕ × ℕ) × CoreNode q) × (ingest_archive q z p event_codec core events
            ≡ some out)
    unfolding ingest_archive
    ingest_archive_returns core events =
        let pending = pending_of core.known [] events in
        through (topological q z core.known pending) (topological_returns core.known pending)
      where
        present : ℕ
        present = length (filter (λ e. Sets.contains e.event_id core.known) events)

        through :
            (found : Option (Ordered q z (List EventId)))
            → ((out : Ordered q z (List EventId)) × (found ≡ some out))
            → (out : Ordered q z (ℕ × ℕ) × CoreNode q) × (ingest_ordered q z p event_codec core
                  (pending_of core.known [] events)
                  present
                  found
                ≡ some out)
        through none (out, o) = absurd cc
        through (some (err e)) found = ((err e, core), refl)
        through (some (ok ids)) found =
            ingest_batches_returns core (chunks (length ids) max_pending_events ids)
              (pending_of core.known [] events) 0 present
