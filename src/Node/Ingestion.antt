-- ===== src/Node/Ingestion.antt =====
-- What `ingest` in crates/node-core/src/lib.rs does to the node, with every result.
use chatcommons.Prelude.{
  suc, ◌+◌, ◌≡◌, ◌≢◌, ◌⊎◌, refl, inl, inr, true, false, not, some, List, [], ◌||◌, ◌&&◌, arith,
  subst, sym, ap, ◌∙◌, ok, err, Result, Option, length, In,
}
use chatcommons.Prelude.Sets.{Set, contains}
use chatcommons.Prelude.Maps.{lookup, keys, contains-keys, lookup-some, length-keys}
use chatcommons.Prelude.Options.{some_inj}
use chatcommons.Crypto.{Primitives}
use chatcommons.Protocol.{SignedEvent, EventId, CommunityId, Codec, validate_event}
use chatcommons.Storage.{Sqlite, StorageError}
use chatcommons.Node.{
  all_known, ready, collect_into, ids_of, IngestReport, NodeError, CoreNode, Ingest, Out, storage,
  missing_parent, check_batch, report, reported, ingest, ingest_checked,
}
use chatcommons.Node.Pending.{ready_nil, batch-IsAscending}
use chatcommons.Node.Batch.{
  lookup-collect_into, contains-collect_into, check_batch_sound, check_batch_never_missing,
}
use chatcommons.Node.Steps.{IsKnowledge, Holds}
use chatcommons.Node.Loop.{Ended, rounds_end}

-- The identifier of a valid event of the input with all its parents known.
abbrev pub IsAttested : Primitives → List SignedEvent → Set → EventId → Type 0
IsAttested p events known id =
    (e : SignedEvent) × In e events
    × (e.event_id ≡ id)
    × (validate_event p e ≡ ok tt)
    × (all_known known e ≡ true)

-- The identifier of an event of the input with a parent that is not known.
abbrev pub IsStuck : List SignedEvent → Set → EventId → Type 0
IsStuck events known id =
    (e : SignedEvent) × In e events × (e.event_id ≡ id) × (all_known known e ≡ false)

module _ (q : Sqlite) (p : Primitives) (event_codec : Codec SignedEvent) where
  -- Nothing is forgotten, and what is learned is attested.
  pub record Learns (events : List SignedEvent) (node after : CoreNode q) : Type 0 where
    pub kept : (id : EventId) → contains id node.known ≡ true → contains id after.known ≡ true
    pub learned :
        (id : EventId)
        → contains id after.known ≡ true
        → (contains id node.known ≡ true) ⊎ IsAttested p events after.known id

  -- A report is right: known is what was known or given, less what is unresolved; the unresolved are
  -- stuck; and the counts add up to the number of different identifiers given.
  pub record Reports (events : List SignedEvent) (node after : CoreNode q) (r : IngestReport)
      : Type 0 where
    pub accounted :
        (id : EventId)
        → contains id after.known ≡ (
            contains id node.known
            || (contains id (ids_of events) && not (contains id r.unresolved)))
    pub stuck : (id : EventId) → contains id r.unresolved ≡ true → IsStuck events after.known id
    pub counted :
        r.inserted + r.already_present + length r.unresolved ≡ length (collect_into [] events)

  -- All that a result of `ingest` says.
  abbrev Described :
      List SignedEvent → CoreNode q → Result (NodeError q) IngestReport × CoreNode q → Type 0
  Described events node (err e, after) =
      (((s : StorageError q) × (e ≡ storage s))
        ⊎ ((after ≡ node) × (check_batch q p node events ≡ err e)))
      × Learns events node after
  Described events node (ok r, after) = Reports events node after r × Learns events node after

  learns :
      (events : List SignedEvent) (node after : CoreNode q) (community : CommunityId)
      → check_batch q p node events ≡ ok community
      → IsKnowledge node.known (collect_into [] events) after.known
      → Learns events node after
  unfolding lookup
  learns events node after community c k = record {
    kept = k.kept;
    learned = λ id h. elim (k.caused id h) [
      | inl old ↦ inl old
      | inr (e, l, a) ↦ elim (lookup-collect_into [] events id e l) [
        | inl none_yet ↦ absurd (cc)
        | inr (i, n) ↦ inr (e, i, n, (check_batch_sound q p node events community e c i).0, a)
      ]
    ];
  }

  reports :
      (events : List SignedEvent) (node : CoreNode q) (g : Ingest q)
      → Holds node.known (collect_into [] events) g
      → ready g.node.known g.pending ≡ []
      → Reports events node g.node (record {
        inserted = g.inserted;
        already_present = g.already_present;
        unresolved = keys g.pending;
      })
  unfolding lookup
  reports events node g h done = record {
    accounted = λ id.
        ground
          (arith, h.accounted id, contains-collect_into [] events id, contains-keys id g.pending);
    stuck = λ id u.
        let (e, l) = lookup-some id g.pending (sym (contains-keys id g.pending) ∙ u) in
        elim (lookup-collect_into [] events id e (h.within id e l)) [
          | inl none_yet ↦ absurd (cc)
          | inr (i, n) ↦ (e, i, n, ready_nil g.node.known g.pending id e done l)
        ];
    counted = omega (arith, h.counted, length-keys g.pending);
  }

  start-Holds :
      (events : List SignedEvent) (node : CoreNode q)
      → Holds node.known (collect_into [] events) (record {
        node = node;
        pending = collect_into [] events;
        inserted = 0;
        already_present = 0;
      })
  start-Holds events node = record {
    unique = batch-IsAscending events;
    within = λ id e l. l;
    accounted = λ id. ground arith;
    knowledge = record { kept = λ id h. h; caused = λ id h. inl h };
    counted = omega arith;
  }

  ingest-Described :
      (node : CoreNode q) (events : List SignedEvent)
      → (out : Result (NodeError q) IngestReport × CoreNode q) × (ingest q p event_codec node events
          ≡ some out)
        × Described events node out
  unfolding ingest
  ingest-Described node events = through (check_batch q p node events) refl
    where
      Reaches : Option (Result (NodeError q) IngestReport × CoreNode q) → Type 0
      Reaches o =
          (out : Result (NodeError q) IngestReport × CoreNode q) × (o ≡ some out)
          × Described events node out

      finished :
          (community : CommunityId) (out : Out q)
          → check_batch q p node events ≡ ok community
          → Ended node.known (collect_into [] events) out
          → Described events node (report q out)
      finished community (err e, g) c (s, k) = (inl s, learns events node g.node community c k)
      finished community (ok _, g) c (h, done) =
          (reports events node g h done, learns events node g.node community c h.knowledge)

      through :
          (checked : Result (NodeError q) CommunityId)
          → check_batch q p node events ≡ checked
          → Reaches (ingest_checked q p event_codec node events checked)
      through (err e) c = (
        (err e, node),
        refl,
        (inr (refl, c), record { kept = λ id h. h; learned = λ id h. inl h }),
      )
      through (ok community) c =
          let (out, e, ended) =
            rounds_end p event_codec community node.known (collect_into [] events)
              (suc (length (collect_into [] events))) _ (start-Holds events node) (omega arith) in
          (report q out, ap (reported q) e, finished community out c ended)

  -- `ingest` returns, whatever the node and the events.
  pub ingest_returns :
      (node : CoreNode q) (events : List SignedEvent)
      → (out : Result (NodeError q) IngestReport × CoreNode q) × (ingest q p event_codec node events
          ≡ some out)
  ingest_returns node events = let (out, e, _) = ingest-Described node events in (out, e)

  -- With every result of `ingest`, the node forgets nothing that it knew, and whatever it knows anew is
  -- the identifier of a valid event of the input whose parents it knows all.
  pub ingest-Learns :
      (node after : CoreNode q) (events : List SignedEvent)
      (result : Result (NodeError q) IngestReport)
      → ingest q p event_codec node events ≡ some (result, after)
      → Learns events node after
  ingest-Learns node after events result h =
      let (out, e, d) = ingest-Described node events in
      learned_of (result, after)
        (subst (Described events node) (some_inj out (result, after) (sym e ∙ h)) d)
    where
      learned_of :
          (out : Result (NodeError q) IngestReport × CoreNode q)
          → Described events node out
          → Learns events node out.1
      learned_of (err x, g) d = d.1
      learned_of (ok r, g) d = d.1

  -- If `ingest` returns a report, then the node knows exactly what it knew before and the identifiers of
  -- the input that are not reported as unresolved; each unresolved identifier belongs to an event of
  -- the input with a parent that is still unknown; and the reported counts of inserted and present
  -- events and of unresolved ones add up to the number of different identifiers of the input.
  pub ingest-Reports :
      (node after : CoreNode q) (events : List SignedEvent) (r : IngestReport)
      → ingest q p event_codec node events ≡ some (ok r, after)
      → Reports events node after r
  ingest-Reports node after events r h =
      let (out, e, d) = ingest-Described node events in
      (subst (Described events node) (some_inj out (ok r, after) (sym e ∙ h)) d).0

  -- If `ingest` returns an error, then it is the store's, or it is the error of the checks on the batch
  -- and the node is as it was. It is never that of a missing parent.
  pub ingest_fails :
      (node after : CoreNode q) (events : List SignedEvent) (x : NodeError q)
      → ingest q p event_codec node events ≡ some (err x, after)
      → (((s : StorageError q) × (x ≡ storage s))
          ⊎ ((after ≡ node) × (check_batch q p node events ≡ err x)))
        × (x ≢ missing_parent)
  ingest_fails node after events x h =
      let (out, e, d) = ingest-Described node events in
      let why = (subst (Described events node) (some_inj out (err x, after) (sym e ∙ h)) d).0 in
      (
        why,
        λ m. elim why [
          | inl (s, from_store) ↦ cc
          | inr (same, c) ↦ check_batch_never_missing q p node events (c ∙ ap err m)
        ],
      )
