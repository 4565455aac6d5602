-- ===== src/Cli/Importing.antt =====
-- crates/cli/src/main.rs: `ingest_archive`, which takes in an archive in batches, parents first.
pub mod Ordering
pub mod Completeness
pub mod Batches
pub mod Success
use chatcommons.Prelude.{
  ℕ, suc, zero, ◌+◌, ◌-◌, ◌==◌, not, true, false, Option, none, some, List, [], ◌∷◌, ◌++◌, length,
  is_empty, filter, Result, ok, err, ◌>>=◌, ◌>>◌, ok_or, fail_if,
}
use chatcommons.Prelude.Sets
use chatcommons.Prelude.Sets.{Set}
use chatcommons.Prelude.Maps
use chatcommons.Prelude.Maps.{Map}
use chatcommons.Crypto.{Primitives}
use chatcommons.Protocol.{EventId, SignedEvent, Codec}
use chatcommons.Storage.{Sqlite}
use chatcommons.Node.{CoreNode, NodeError, IngestReport, ingest, max_pending_events}
use chatcommons.Sync.{chunks}
use chatcommons.Network.{Synchronizer}
use chatcommons.Cli.{CliError, node, incomplete_archive}

-- `get_mut` of a count, and the assignment to it.
unfoldable pub set_count : EventId → ℕ → Map ℕ → Map ℕ
set_count id count [] = []
set_count id count ((key, value) ∷ m) = elim (id == key) [
  | true ↦ (key, count) ∷ m
  | false ↦ (key, value) ∷ set_count id count m
]

abbrev pub listed : Option (List EventId) → List EventId
listed none = []
listed (some ids) = ids

-- `children.entry(*parent).or_default().push(*id)`
abbrev pub add_child : EventId → EventId → Map (List EventId) → Map (List EventId)
add_child parent id children =
    Maps.insert parent (listed (Maps.lookup parent children) ++ id ∷ []) children

-- The events that the node does not know yet, by identifier.
unfoldable pub pending_of : Set → Map SignedEvent → List SignedEvent → Map SignedEvent
pending_of known pending [] = pending
pending_of known pending (e ∷ events) = elim (Sets.contains e.event_id known) [
  | true ↦ pending_of known pending events
  | false ↦ pending_of known (Maps.insert e.event_id e pending) events
]

-- The identifiers without a parent to wait for.
unfoldable pub none_left : Map ℕ → Set
none_left [] = []
none_left ((id, count) ∷ m) = elim (count == 0) [ true ↦ id ∷ none_left m | false ↦ none_left m ]

-- The events of a batch, and what is still pending.
unfoldable pub take_batch : List EventId → Map SignedEvent → List SignedEvent × Map SignedEvent
take_batch [] pending = ([], pending)
take_batch (id ∷ ids) pending =
    let (batch, left) = take_batch ids (Maps.remove id pending) in
    elim (Maps.lookup id pending) [ some e ↦ (e ∷ batch, left) | none ↦ (batch, left) ]

module _ (q : Sqlite) (z : Synchronizer) where
  abbrev pub Ordered : Type 0 → Type 0
  Ordered A = Result (CliError q z) A

  -- The loop over the parents of one event.
  unfoldable pub count_parents :
      Set
      → Map SignedEvent
      → EventId
      → List EventId
      → ℕ
      → Map (List EventId)
      → Ordered (ℕ × Map (List EventId))
  count_parents known pending id [] remaining children = ok (remaining, children)
  count_parents known pending id (parent ∷ parents) remaining children =
      elim (Maps.contains_key parent pending) [
        | true ↦
            count_parents known pending id parents (remaining + 1) (add_child parent id children)
        | false ↦ elim (Sets.contains parent known) [
          | true ↦ count_parents known pending id parents remaining children
          | false ↦ err incomplete_archive
        ]
      ]

  -- The loop over the pending events: the number of parents to wait for, and the children of each.
  unfoldable pub count_all :
      Set
      → Map SignedEvent
      → Map SignedEvent
      → Map (List EventId)
      → Ordered (Map ℕ × Map (List EventId))
  count_all known pending [] children = ok ([], children)
  count_all known pending ((id, e) ∷ rest) children = do
    (remaining, children) ← count_parents known pending id e.parents 0 children
    (counts, children) ← count_all known pending rest children
    ok ((id, remaining) ∷ counts, children)

  -- The loop over the children of an event: with one parent less to wait for, each may be ready.
  unfoldable pub release : List EventId → Map ℕ → Set → Ordered (Map ℕ × Set)
  release [] counts ready = ok (counts, ready)
  release (child ∷ children) counts ready = do
    count ← ok_or (Maps.lookup child counts) incomplete_archive
    fail_if (count == 0) incomplete_archive
    release children (set_count child (count - 1) counts)
        (elim (count - 1 == 0) [ true ↦ Sets.insert child ready | false ↦ ready ])

  -- `while let Some(id) = ready.pop_first()`
  unfoldable pub order :
      ℕ → Map (List EventId) → Map ℕ → Set → List EventId → Option (Ordered (List EventId))
  order zero children counts ready topological = none
  order (suc fuel) children counts [] topological = some (ok topological)
  order (suc fuel) children counts (id ∷ ready) topological =
      elim (release (listed (Maps.lookup id children)) counts ready) [
        | err e ↦ some (err e)
        | ok (counts, ready) ↦
            order fuel (Maps.remove id children) counts ready (topological ++ id ∷ [])
      ]

  abbrev pub Imported : Type 0
  Imported = Option (Ordered (ℕ × ℕ) × CoreNode q)

  -- The topological order, which has to hold every pending event.
  abbrev pub complete : ℕ → Option (Ordered (List EventId)) → Option (Ordered (List EventId))
  complete expected none = none
  complete expected (some (err e)) = some (err e)
  complete expected (some (ok topological)) = elim (length topological == expected) [
    | true ↦ some (ok topological)
    | false ↦ some (err incomplete_archive)
  ]

  abbrev pub order_counted :
      ℕ → Ordered (Map ℕ × Map (List EventId)) → Option (Ordered (List EventId))
  order_counted expected (err e) = some (err e)
  order_counted expected (ok (counts, children)) =
      complete expected (order (suc expected) children counts (none_left counts) [])

  unfoldable pub topological : Set → Map SignedEvent → Option (Ordered (List EventId))
  topological known pending = order_counted (length pending) (count_all known pending pending [])

  module _ (p : Primitives) (event_codec : Codec SignedEvent) where
    -- The loop over the batches, with the number of events inserted.
    unfoldable pub ingest_batches :
        CoreNode q → List (List EventId) → Map SignedEvent → ℕ → ℕ → Imported
    ingest_batches core [] pending inserted present = some (ok (inserted, present), core)
    ingest_batches core (ids ∷ batches) pending inserted present =
        let (batch, left) = take_batch ids pending in
        elim (ingest q p event_codec core batch) [
          | none ↦ none
          | some (err e, core) ↦ some (err (node e), core)
          | some (ok report, core) ↦ elim (is_empty report.unresolved) [
            | true ↦ ingest_batches core batches left (inserted + report.inserted) present
            | false ↦ some (err incomplete_archive, core)
          ]
        ]

    abbrev pub ingest_ordered :
        CoreNode q → Map SignedEvent → ℕ → Option (Ordered (List EventId)) → Imported
    ingest_ordered core pending present none = none
    ingest_ordered core pending present (some (err e)) = some (err e, core)
    ingest_ordered core pending present (some (ok ids)) =
        ingest_batches core (chunks (length ids) max_pending_events ids) pending 0 present

    unfoldable pub ingest_archive : CoreNode q → List SignedEvent → Imported
    ingest_archive core events =
        let pending = pending_of core.known [] events in
        ingest_ordered core pending
          (length (filter (λ e. Sets.contains e.event_id core.known) events))
          (topological core.known pending)
