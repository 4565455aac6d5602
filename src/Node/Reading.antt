-- ===== src/Node/Reading.antt =====
-- What crates/node-core/src/lib.rs reads of the node's events: some, all, the ancestry of one, heads.
use chatcommons.Prelude.{
  ℕ, zero, suc, ◌==◌, true, false, not, Option, none, some, List, [], ◌∷◌, Result, ok, err, ◌>>=◌,
  ◌>>◌, fail_if, ok_or, map_err, filter,
}
use chatcommons.Prelude.Sets
use chatcommons.Prelude.Sets.{Set}
use chatcommons.Prelude.Maps
use chatcommons.Prelude.Maps.{Map}
use chatcommons.Crypto.{Primitives}
use chatcommons.Protocol.{EventId, SignedEvent, Codec}
use chatcommons.Storage
use chatcommons.Storage.{Sqlite, EventStore}
use chatcommons.Node.{CoreNode, NodeError, storage, unknown_event, ancestry_limit_exceeded}

-- `if let Some(event)`: the event in front of the others.
abbrev pub keep : Option SignedEvent → List SignedEvent → List SignedEvent
keep none events = events
keep (some event) events = event ∷ events

abbrev pub parents_of : Option SignedEvent → List EventId
parents_of none = []
parents_of (some event) = event.parents

-- `extend` of the stack: the last one pushed is the first one popped.
abbrev pub push_all : List EventId → List EventId → List EventId
push_all [] stack = stack
push_all (id ∷ ids) stack = push_all ids (id ∷ stack)

module _ (q : Sqlite) (p : Primitives) (event_codec : Codec SignedEvent) where
  unfoldable pub event : CoreNode q → EventId → Result (NodeError q) (Option SignedEvent)
  event node id = map_err storage (Storage.get q p event_codec node.store id)

  unfoldable pub events : CoreNode q → List EventId → Result (NodeError q) (List SignedEvent)
  events node [] = ok []
  events node (id ∷ ids) = do
    found ← map_err storage (Storage.get q p event_codec node.store id)
    rest ← events node ids
    ok (keep found rest)

  unfoldable pub all_events : CoreNode q → Result (NodeError q) (List SignedEvent)
  all_events node = events node node.known

  unfoldable pub stored_event_bytes : CoreNode q → Result (NodeError q) ℕ
  stored_event_bytes node = map_err storage (Storage.stored_event_bytes q node.store)

  -- The loop of `ancestry` over its stack, with what is discovered and collected; `left` is how many
  -- identifiers the limit still allows.
  unfoldable pub climb :
      CoreNode q
      → ℕ
      → List EventId
      → Set
      → Map SignedEvent
      → Result (NodeError q) (List SignedEvent)
  climb node left [] discovered collected = ok (Maps.values collected)
  climb node zero (id ∷ stack) discovered collected = elim (Sets.contains id discovered) [
    | true ↦ climb node zero stack discovered collected
    | false ↦ err ancestry_limit_exceeded
  ]
  climb node (suc left) (id ∷ stack) discovered collected = elim (Sets.contains id discovered) [
    | true ↦ climb node (suc left) stack discovered collected
    | false ↦ do
      found ← event node id
      e ← ok_or found unknown_event
      climb node left (push_all e.parents stack) (Sets.insert id discovered)
          (Maps.insert id e collected)
  ]

  unfoldable pub ancestry : CoreNode q → EventId → ℕ → Result (NodeError q) (List SignedEvent)
  ancestry node id limit = do
    fail_if (limit == 0) ancestry_limit_exceeded
    climb node limit (id ∷ []) [] []

  -- The loop of `heads`.
  unfoldable pub referenced : EventStore q → List EventId → Set → Result (NodeError q) Set
  referenced store [] ids = ok ids
  referenced store (id ∷ known) ids = do
    found ← map_err storage (Storage.get q p event_codec store id)
    referenced store known (Sets.extend (parents_of found) ids)

  unfoldable pub heads : CoreNode q → Result (NodeError q) (List EventId)
  heads node = do
    ids ← referenced node.store node.known []
    ok (filter (λ id. not (Sets.contains id ids)) node.known)
