-- ===== src/Node/Steps.antt =====
-- One round of `ingest` in crates/node-core/src/lib.rs.
use chatcommons.Prelude.{
  suc, ◌+◌, ◌≡◌, ◌⊎◌, refl, inl, inr, true, false, not, some, List, [], ◌∷◌, ◌||◌, ◌&&◌, All,
  all_mono, arith, Bool-cases, ◌==◌, subst, sym, ap, ok, err, Result, length,
}
use chatcommons.Prelude.Sets
use chatcommons.Prelude.Sets.{
  Set, contains, contains-insert, Distinct, IsAscending, Distinct-of_IsAscending,
}
use chatcommons.Prelude.Maps
use chatcommons.Prelude.Maps.{
  Map, lookup, lookup-remove, keys, keys-remove, length-keys, contains_key, contains-lookup,
}
use chatcommons.Crypto.{Primitives}
use chatcommons.Protocol.{SignedEvent, EventId, CommunityId, Codec}
use chatcommons.Storage
use chatcommons.Storage.{Sqlite, StorageError, EventStore, InsertOutcome, inserted, already_present}
use chatcommons.Node.{
  all_known, Ingest, Out, storage, unless_error, record_insert, admit, admit_all,
}
use chatcommons.Node.Pending.{IsReady}

-- What is known was known before, or is an event of the batch whose parents are all known; and
-- nothing is forgotten.
pub record IsKnowledge (before : Set) (batch : Map SignedEvent) (known : Set) : Type 0 where
  pub kept : (id : EventId) → contains id before ≡ true → contains id known ≡ true
  pub caused :
      (id : EventId)
      → contains id known ≡ true
      → (contains id before ≡ true)
        ⊎ ((e : SignedEvent) × (lookup id batch ≡ some e) × (all_known known e ≡ true))

all_known-insert :
    (known : Set) (id : EventId) (e : SignedEvent)
    → all_known known e ≡ true
    → all_known (Sets.insert id known) e ≡ true
all_known-insert known id e h =
    all_mono (λ parent. contains parent known) (λ parent. contains parent (Sets.insert id known))
      e.parents (λ x k. ground (arith, contains-insert x id known)) h

module _ (before : Set) (batch : Map SignedEvent) where
  IsKnowledge-insert :
      (known : Set) (id : EventId) (e : SignedEvent)
      → lookup id batch ≡ some e
      → all_known known e ≡ true
      → IsKnowledge before batch known
      → IsKnowledge before batch (Sets.insert id known)
  IsKnowledge-insert known id e l k h = record {
    kept = λ j c. ground (arith, contains-insert j id known, h.kept j);
    caused = λ j c. elim (Bool-cases (j == id)) [
      | inl same ↦ inr (e, ground arith, all_known-insert known id e k)
      | inr other ↦ elim (h.caused j (ground (arith, contains-insert j id known))) [
        | inl old ↦ inl old
        | inr (d, m, kd) ↦ inr (d, m, all_known-insert known id d kd)
      ]
    ];
  }

IsReady-insert :
    (known : Set) (m : Map SignedEvent) (id : EventId) (ids : List EventId)
    → contains id ids ≡ false
    → All (IsReady known m) ids
    → All (IsReady (Sets.insert id known) (Maps.remove id m)) ids
unfolding contains
IsReady-insert known m id [] d r = tt
IsReady-insert known m id (j ∷ ids) d ((e, l, k), r) = (
  (e, ground (arith, lookup-remove j id m, l), all_known-insert known id e k),
  IsReady-insert known m id ids (ground arith) r,
)

module _ {q : Sqlite} where
  -- The state of `ingest` between two insertions.
  pub record Holds (before : Set) (batch : Map SignedEvent) (g : Ingest q) : Type 0 where
    pub unique : IsAscending (keys g.pending)
    pub within :
        (id : EventId) (e : SignedEvent) → lookup id g.pending ≡ some e → lookup id batch ≡ some e
    pub accounted :
        (id : EventId)
        → contains id g.node.known
          ≡ (contains id before || (contains_key id batch && not (contains_key id g.pending)))
    pub knowledge : IsKnowledge before batch g.node.known
    pub counted : g.inserted + g.already_present + length g.pending ≡ length batch

  -- An error comes from the store alone.
  abbrev pub After : Set → Map SignedEvent → Out q → Type 0
  After before batch (err e, g) =
      ((s : StorageError q) × (e ≡ storage s)) × IsKnowledge before batch g.node.known
  After before batch (ok done, g) = Holds before batch g

  pub length-remove_pending :
      (g : Ingest q) (id : EventId) (e : SignedEvent)
      → IsAscending (keys g.pending)
      → lookup id g.pending ≡ some e
      → suc (length (Maps.remove id g.pending)) ≡ length g.pending
  length-remove_pending g id e a l = omega (
    arith,
    length-keys g.pending,
    length-keys (Maps.remove id g.pending),
    ap length (keys-remove id g.pending),
    Sets.length-remove id (keys g.pending) (Distinct-of_IsAscending (keys g.pending) a)
        (contains-lookup id g.pending l),
  )

  module _ (p : Primitives) (event_codec : Codec SignedEvent) (community : CommunityId)
      (before : Set) (batch : Map SignedEvent) where
    record_insert-After :
        (g : Ingest q) (id : EventId) (e : SignedEvent)
        (r : Result (StorageError q) InsertOutcome × EventStore q)
        → Holds before batch g
        → lookup id g.pending ≡ some e
        → all_known g.node.known e ≡ true
        → After before batch
            (record_insert q community (record g { pending = Maps.remove id g.pending }) id e r)
    record_insert-After g id e (err s, store) h l k = ((s, refl), h.knowledge)
    record_insert-After g id e (ok outcome, store) h l k = record {
      unique =
          subst IsAscending (sym (keys-remove id g.pending))
            (Sets.IsAscending-remove id (keys g.pending) h.unique);
      within = λ j d m. ground (arith, lookup-remove j id g.pending, h.within j d);
      accounted = λ j. ground (
        arith,
        contains-insert j id g.node.known,
        lookup-remove j id g.pending,
        h.accounted j,
        h.within id e l,
      );
      knowledge = IsKnowledge-insert before batch g.node.known id e (h.within id e l) k h.knowledge;
      counted =
          counted_by outcome (omega (arith, h.counted, length-remove_pending g id e h.unique l));
    }
      where
        counted_by :
            (o : InsertOutcome)
            → suc (g.inserted + g.already_present + length (Maps.remove id g.pending))
              ≡ length batch
            → elim o [ inserted ↦ suc g.inserted | already_present ↦ g.inserted ]
                + elim o [ inserted ↦ g.already_present | already_present ↦ suc g.already_present ]
                + length (Maps.remove id g.pending)
              ≡ length batch
        counted_by inserted n = omega arith
        counted_by already_present n = omega arith

    admit-After :
        (g : Ingest q) (id : EventId)
        → Holds before batch g
        → IsReady g.node.known g.pending id
        → After before batch (admit q p event_codec community g id)
    unfolding admit
    admit-After g id h (e, l, k) = rw l (record_insert-After g id e _ h l k)

    -- What a successful insertion leaves.
    admit_ok :
        (g h : Ingest q) (id : EventId) (e : SignedEvent)
        → lookup id g.pending ≡ some e
        → admit q p event_codec community g id ≡ (ok tt, h)
        → (h.node.known ≡ Sets.insert id g.node.known) × (h.pending ≡ Maps.remove id g.pending)
    unfolding admit
    admit_ok g h id e l a = through (Storage.insert q p event_codec g.node.store e) (rw l at a)
      where
        through :
            (r : Result (StorageError q) InsertOutcome × EventStore q)
            → record_insert q community (record g { pending = Maps.remove id g.pending }) id e r
              ≡ (ok tt, h)
            → (h.node.known ≡ Sets.insert id g.node.known) × (h.pending ≡ Maps.remove id g.pending)
        through (err s, store) a = absurd (ground arith)
        through (ok outcome, store) a =
            (ap (λ o. o.1.node.known) (sym a), ap (λ o. o.1.pending) (sym a))

    pub admit_all-After :
        (g : Ingest q) (ids : List EventId)
        → Holds before batch g
        → All (IsReady g.node.known g.pending) ids
        → Distinct ids
        → After before batch (admit_all q p event_codec community g ids)
    unfolding admit_all
    admit_all-After g [] h r d = h
    admit_all-After g (id ∷ ids) h ((e, l, k), r) d =
        through (λ h'. admit_all-After h' ids) (admit q p event_codec community g id) refl
          (admit-After g id h (e, l, k))
      where
        through :
            ((h' : Ingest q)
              → Holds before batch h'
              → All (IsReady h'.node.known h'.pending) ids
              → Distinct ids
              → After before batch (admit_all q p event_codec community h' ids))
            → (out : Out q) → admit q p event_codec community g id ≡ out
            → After before batch out
            → After before batch
                (unless_error q (λ h. admit_all q p event_codec community h ids) (λ out. out) out)
        through later (err x, h') a after = after
        through later (ok _, h') a after =
            let (known, pending) = admit_ok g h' id e l a in
            later h' after
              (subst (λ m. All (IsReady h'.node.known m) ids) (sym pending)
                (subst (λ n. All (IsReady n (Maps.remove id g.pending)) ids) (sym known)
                  (IsReady-insert g.node.known g.pending id ids d.0 r)))
              d.1
