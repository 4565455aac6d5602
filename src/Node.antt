-- ===== src/Node.antt =====
-- crates/node-core/src/lib.rs: the node that takes in events in causal order.
pub mod Pending
pub mod Batch
pub mod Steps
pub mod Progress
pub mod Loop
pub mod Ingestion
pub mod Counting
pub mod Reading
pub mod Climbing
pub mod Ancestry
use chatcommons.Prelude.{
  ℕ, zero, suc, ◌+◌, ◌==◌, Bool, true, false, not, Option, none, some, List, [], ◌∷◌, length,
  is_empty, is_none, all, any, ltb, Result, ok, err, ◌>>=◌, ◌>>◌, fail_if, ok_or, map_err,
  if◌then◌else◌,
}
use chatcommons.Prelude.Sets
use chatcommons.Prelude.Sets.{Set}
use chatcommons.Prelude.Maps
use chatcommons.Prelude.Maps.{Map}
use chatcommons.Crypto.{Primitives}
use chatcommons.Protocol.{EventId, CommunityId, SignedEvent, Codec, ProtocolError, validate_event}
use chatcommons.Protocol
use chatcommons.Storage
use chatcommons.Storage.{Sqlite, EventStore, StorageError, InsertOutcome, inserted, already_present}

abbrev pub max_pending_events : ℕ
max_pending_events = 1024

pub record IngestReport : Type 0 where
  pub inserted : ℕ
  pub already_present : ℕ
  pub unresolved : List EventId

abbrev pub ids_of : List SignedEvent → List EventId
ids_of [] = []
ids_of (e ∷ events) = e.event_id ∷ ids_of events

-- `find` of an event without a community.
abbrev pub find_genesis : List SignedEvent → Option SignedEvent
find_genesis [] = none
find_genesis (e ∷ events) = if is_none e.community_id then some e else find_genesis events

-- Whether an event belongs to another community.
abbrev pub is_foreign : CommunityId → SignedEvent → Bool
is_foreign community event = elim event.community_id [
  | none ↦ not (event.event_id == community)
  | some id ↦ not (id == community)
]

-- `collect` into a map, where a later event replaces an earlier one of its identifier.
unfoldable pub collect_into : Map SignedEvent → List SignedEvent → Map SignedEvent
collect_into m [] = m
collect_into m (e ∷ events) = collect_into (Maps.insert e.event_id e m) events

abbrev pub all_known : Set → SignedEvent → Bool
all_known known event = all (λ parent. Sets.contains parent known) event.parents

-- The filter of a round.
unfoldable pub ready : Set → Map SignedEvent → List EventId
ready known [] = []
ready known ((id, event) ∷ m) =
    let rest = ready known m in if all_known known event then id ∷ rest else rest

module _ (q : Sqlite) where
  pub data NodeError : Type 0 where
    protocol : ProtocolError → NodeError
    storage : StorageError q → NodeError
    unknown_community wrong_community missing_parent pending_limit_exceeded : NodeError
    unknown_event ancestry_limit_exceeded : NodeError

  pub record CoreNode : Type 0 where
    pub store : EventStore q
    pub community : Option CommunityId
    pub known : Set

  -- What the loop of `ingest` changes.
  pub record Ingest : Type 0 where
    pub node : CoreNode
    pub pending : Map SignedEvent
    pub inserted : ℕ
    pub already_present : ℕ

  abbrev pub Out : Type 0
  Out = Result NodeError (Unit {0}) × Ingest

  -- `?` on a step of `ingest`: an error ends it, with the state so far.
  abbrev pub unless_error : {A : Type 0} → (Ingest → A) → (Out → A) → Out → A
  unless_error next stop (err e, g) = stop (err e, g)
  unless_error next stop (ok done, g) = next g

  -- After `insert`: the `match` on its outcome and the rest of the loop's body.
  abbrev pub record_insert :
      CommunityId
      → Ingest
      → EventId
      → SignedEvent
      → Result (StorageError q) InsertOutcome × EventStore q
      → Out
  record_insert community g id event (err e, store) =
      (err (storage e), record g { node = record g.node { store = store } })
  record_insert community g id event (ok outcome, store) = (
    ok tt,
    record g {
      node = record {
        store = store;
        community = if is_none event.community_id then some community else g.node.community;
        known = Sets.insert id g.node.known;
      };
      inserted = elim outcome [ inserted ↦ suc g.inserted | already_present ↦ g.inserted ];
      already_present = elim outcome [
        | inserted ↦ g.already_present
        | already_present ↦ suc g.already_present
      ];
    },
  )

  abbrev pub report : Out → Result NodeError IngestReport × CoreNode
  report (err e, g) = (err e, g.node)
  report (ok done, g) = (
    ok (record {
      inserted = g.inserted;
      already_present = g.already_present;
      unresolved = Maps.keys g.pending;
    }),
    g.node,
  )

  abbrev pub reported : Option Out → Option (Result NodeError IngestReport × CoreNode)
  reported none = none
  reported (some out) = some (report out)

  module _ (p : Primitives) where
    unfoldable pub validate_all : List SignedEvent → Result NodeError (Unit {0})
    validate_all [] = ok tt
    validate_all (e ∷ events) = do map_err protocol (validate_event p e); validate_all events

    -- The community of the node, or that of the first genesis.
    unfoldable pub choose_community :
        Option CommunityId → List SignedEvent → Result NodeError CommunityId
    choose_community (some id) events = ok id
    choose_community none events = do
      genesis ← ok_or (find_genesis events) unknown_community
      map_err protocol (Protocol.community_id p genesis)

    -- The checks before the loop.
    unfoldable pub check_batch : CoreNode → List SignedEvent → Result NodeError CommunityId
    check_batch node events = do
      fail_if (ltb max_pending_events (length events)) pending_limit_exceeded
      validate_all events
      community ← choose_community node.community events
      fail_if (any (is_foreign community) events) wrong_community
      ok community

  module _ (p : Primitives) (event_codec : Codec SignedEvent) where
    unfoldable pub open_node : EventStore q → Option CommunityId → Result NodeError CoreNode
    open_node store none = ok (record { store = store; community = none; known = [] })
    open_node store (some id) = do
      events ← map_err storage (Storage.events q p event_codec store id)
      fail_if (is_empty events) unknown_community
      ok (record { store = store; community = some id; known = Sets.extend (ids_of events) [] })

    -- The body of the inner loop, for an identifier with what the map holds under it.
    abbrev pub admit_event : CommunityId → Ingest → EventId → Option SignedEvent → Out
    admit_event community g id none = (err missing_parent, g)
    admit_event community g id (some event) =
        record_insert community (record g { pending = Maps.remove id g.pending }) id event
          (Storage.insert q p event_codec g.node.store event)

    unfoldable pub admit : CommunityId → Ingest → EventId → Out
    admit community g id = admit_event community g id (Maps.lookup id g.pending)

    unfoldable pub admit_all : CommunityId → Ingest → List EventId → Out
    admit_all community g [] = (ok tt, g)
    admit_all community g (id ∷ ids) =
        unless_error (λ h. admit_all community h ids) (λ out. out) (admit community g id)

    -- The outer loop; `none` if the fuel does not suffice.
    unfoldable pub rounds : ℕ → CommunityId → Ingest → Option Out
    rounds zero community g = none
    rounds (suc fuel) community g = elim (ready g.node.known g.pending) [
      | [] ↦ some (ok tt, g)
      | id ∷ ids ↦ unless_error (rounds fuel community) some (admit_all community g (id ∷ ids))
    ]

    abbrev pub ingest_checked :
        CoreNode
        → List SignedEvent
        → Result NodeError CommunityId
        → Option (Result NodeError IngestReport × CoreNode)
    ingest_checked node events (err e) = some (err e, node)
    ingest_checked node events (ok community) =
        let pending = collect_into [] events in
        reported (
          rounds (suc (length pending)) community
            (record { node = node; pending = pending; inserted = 0; already_present = 0 }))

    unfoldable pub ingest :
        CoreNode → List SignedEvent → Option (Result NodeError IngestReport × CoreNode)
    ingest node events = ingest_checked node events (check_batch p node events)
