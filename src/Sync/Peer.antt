-- ===== src/Sync/Peer.antt =====
-- `SyncPeer` of crates/sync/src/lib.rs: a node with the events that wait for their parents.
pub mod Waiting
pub mod Receiving
pub mod Missing
use chatcommons.Prelude.{
  ℕ, ◌+◌, ◌^◌, ◌==◌, Bool, true, false, not, ◌&&◌, ◌||◌, Option, none, some, List, [], ◌∷◌, length,
  is_empty, is_none, any, filter, map, ltb, Result, ok, err, ◌>>=◌, ◌>>◌, fail_if, ok_or, map_err,
  if◌then◌else◌,
}
use chatcommons.Prelude.Sets
use chatcommons.Prelude.Sets.{Set}
use chatcommons.Prelude.Maps
use chatcommons.Prelude.Maps.{Map}
use chatcommons.Crypto.{Primitives}
use chatcommons.Protocol.{EventId, CommunityId, SignedEvent, Codec, protocol_version}
use chatcommons.Storage.{Sqlite}
use chatcommons.Node.{CoreNode, NodeError, IngestReport, ids_of, is_foreign, ingest}
use chatcommons.Node.Reading
use chatcommons.Sync.{
  SyncMessage, SyncError, hello, heads, want, events, too_large, json, item_limit_exceeded,
  max_ids_per_message, sync_version, chunks, want_messages, pack_events, validate_message,
  message_community,
}

abbrev pub max_pending_sync_events : ℕ
max_pending_sync_events = 1024

-- `checked_add` of `u64`.
unfoldable pub checked_add : ℕ → ℕ → Option ℕ
checked_add a b = if ltb (a + b) (2 ^ 64) then some (a + b) else none

abbrev pub bounded_sum : Option ℕ → ℕ → Option ℕ
bounded_sum none b = none
bounded_sum (some a) b = checked_add a b

-- `entry(id).or_insert(event)` of the events with a new identifier.
unfoldable pub insert_new : Set → Map SignedEvent → List SignedEvent → Map SignedEvent
insert_new new_ids m [] = m
insert_new new_ids m (e ∷ given) = elim (Sets.contains e.event_id new_ids) [
  | true ↦ insert_new new_ids (Maps.or_insert e.event_id e m) given
  | false ↦ insert_new new_ids m given
]

-- `retain` of the keys that are not known.
unfoldable pub retain_unknown : Set → Map SignedEvent → Map SignedEvent
retain_unknown known [] = []
retain_unknown known ((id, e) ∷ m) = elim (Sets.contains id known) [
  | true ↦ retain_unknown known m
  | false ↦ (id, e) ∷ retain_unknown known m
]

-- Neither known nor pending.
abbrev pub is_unknown : Set → Map SignedEvent → EventId → Bool
is_unknown known pending id = not (Sets.contains id known) && not (Maps.contains_key id pending)

-- The loop over the pending events that collects their missing parents.
unfoldable pub missing_of : Set → Map SignedEvent → List SignedEvent → Set → Set
missing_of known pending [] missing = missing
missing_of known pending (e ∷ rest) missing =
    missing_of known pending rest
      (Sets.extend (filter (is_unknown known pending) e.parents) missing)

-- The genesis of a community.
abbrev pub is_genesis : CommunityId → SignedEvent → Bool
is_genesis community e = is_none e.community_id && e.event_id == community

module _ (q : Sqlite) where
  pub data PeerError : Type 0 where
    sync : SyncError → PeerError
    node : NodeError q → PeerError
    wrong_community invalid_storage_quota : PeerError
    storage_quota_exceeded : ℕ → PeerError

  pub record SyncPeer : Type 0 where
    pub node : CoreNode q
    pub community : CommunityId
    pub pending : Map SignedEvent
    pub max_stored_event_bytes : Option ℕ

  -- `is_some_and(|known| known != community)`
  abbrev pub differs : Option CommunityId → CommunityId → Bool
  differs none community = false
  differs (some known) community = not (known == community)

  unfoldable pub new : CoreNode q → CommunityId → Result PeerError SyncPeer
  new core community = do
    fail_if (differs core.community community) wrong_community
    ok (record { node = core; community = community; pending = []; max_stored_event_bytes = none })

  abbrev pub hello_message : SyncPeer → SyncMessage
  hello_message peer = hello sync_version (protocol_version ∷ []) peer.community

  abbrev pub want_unknown : SyncPeer → List EventId → List SyncMessage
  want_unknown peer ids =
      want_messages peer.community (filter (is_unknown peer.node.known peer.pending) ids)

  -- The identifiers of a batch that `accept` takes for new.
  abbrev pub new_ids_of : SyncPeer → List SignedEvent → Set
  new_ids_of peer given =
      Sets.collect (filter (is_unknown peer.node.known peer.pending) (ids_of given))

  abbrev pub can_ingest : SyncPeer → List SignedEvent → Bool
  can_ingest peer candidates =
      not (is_none peer.node.community) || any (is_genesis peer.community) candidates

  -- The end of `accept`: what is still missing is asked for.
  abbrev pub ask_missing : SyncPeer → Result PeerError (List SyncMessage) × SyncPeer
  ask_missing peer = (
    ok (
        want_messages peer.community
          (missing_of peer.node.known peer.pending (Maps.values peer.pending) [])),
    peer,
  )

  -- After `ingest`.
  abbrev pub after_ingest :
      SyncPeer
      → Result (NodeError q) IngestReport × CoreNode q
      → Result PeerError (List SyncMessage) × SyncPeer
  after_ingest peer (err e, n) = (err (node e), record peer { node = n })
  after_ingest peer (ok r, n) =
      ask_missing (record peer { node = n; pending = retain_unknown n.known peer.pending })

  abbrev pub ingested :
      SyncPeer
      → Option (Result (NodeError q) IngestReport × CoreNode q)
      → Option (Result PeerError (List SyncMessage) × SyncPeer)
  ingested peer none = none
  ingested peer (some out) = some (after_ingest peer out)

  module _ (p : Primitives) (event_codec : Codec SignedEvent) where
    unfoldable pub with_storage_quota : SyncPeer → ℕ → Result PeerError SyncPeer
    with_storage_quota peer max_bytes = do
      fail_if (max_bytes == 0) invalid_storage_quota
      stored ← map_err node (Reading.stored_event_bytes q p event_codec peer.node)
      fail_if (ltb max_bytes stored) (storage_quota_exceeded max_bytes)
      ok (record peer { max_stored_event_bytes = some max_bytes })

    unfoldable pub head_messages : SyncPeer → Result PeerError (List SyncMessage)
    head_messages peer = do
      ids ← map_err node (Reading.heads q p event_codec peer.node)
      ok (
          if is_empty ids
          then heads peer.community [] ∷ []
          else map (λ chunk. heads peer.community chunk)
              (chunks (length ids) max_ids_per_message ids))

    -- The `try_fold`, from a total on.
    unfoldable pub encoded_event_bytes : ℕ → List SignedEvent → Result PeerError ℕ
    encoded_event_bytes total [] = ok total
    encoded_event_bytes total (e ∷ rest) = do
      bytes ← ok_or (event_codec.to_vec e) (sync json)
      sum ← ok_or (checked_add total (length bytes)) (sync too_large)
      encoded_event_bytes sum rest

    -- The storage quota in `accept`.
    unfoldable pub check_quota :
        SyncPeer → Set → List SignedEvent → Option ℕ → Result PeerError (Unit {0})
    check_quota peer new_ids given none = ok tt
    check_quota peer new_ids given (some limit) = do
      stored ← map_err node (Reading.stored_event_bytes q p event_codec peer.node)
      pending ← encoded_event_bytes 0 (Maps.values peer.pending)
      incoming ← encoded_event_bytes 0 (filter (λ e. Sets.contains e.event_id new_ids) given)
      projected ←
          ok_or (bounded_sum (checked_add stored pending) incoming) (storage_quota_exceeded limit)
      fail_if (ltb limit projected) (storage_quota_exceeded limit)

    -- The checks of `accept`, before it changes anything.
    unfoldable pub check_accept : SyncPeer → List SignedEvent → Result PeerError (Unit {0})
    check_accept peer given = do
      fail_if (any (is_foreign peer.community) given) wrong_community
      let new_ids = new_ids_of peer given
      fail_if (ltb max_pending_sync_events (length peer.pending + length new_ids))
          (sync item_limit_exceeded)
      check_quota peer new_ids given peer.max_stored_event_bytes

    -- `accept` from where the new events are pending.
    unfoldable pub ingest_pending :
        SyncPeer → Option (Result PeerError (List SyncMessage) × SyncPeer)
    ingest_pending peer =
        let candidates = Maps.values peer.pending in
        elim (can_ingest peer candidates && not (is_empty candidates)) [
          | true ↦ ingested peer (ingest q p event_codec peer.node candidates)
          | false ↦ some (ask_missing peer)
        ]

    abbrev pub accept_checked :
        SyncPeer
        → List SignedEvent
        → Result PeerError (Unit {0})
        → Option (Result PeerError (List SyncMessage) × SyncPeer)
    accept_checked peer given (err e) = some (err e, peer)
    accept_checked peer given (ok _) =
        ingest_pending
          (record peer { pending = insert_new (new_ids_of peer given) peer.pending given })

    unfoldable pub accept :
        SyncPeer → List SignedEvent → Option (Result PeerError (List SyncMessage) × SyncPeer)
    accept peer given = accept_checked peer given (check_accept peer given)

    module _ (message_codec : Codec SyncMessage) where
      unfoldable pub serve : SyncPeer → List EventId → Result PeerError (List SyncMessage)
      serve peer ids = do
        found ← map_err node (Reading.events q p event_codec peer.node ids)
        elim (is_empty found) [
          | true ↦ ok []
          | false ↦ map_err sync (pack_events p message_codec peer.community found)
        ]

      -- The `match` of `receive`.
      unfoldable pub dispatch :
          SyncPeer → SyncMessage → Option (Result PeerError (List SyncMessage) × SyncPeer)
      dispatch peer (hello version versions community) = some (head_messages peer, peer)
      dispatch peer (heads community ids) = some (ok (want_unknown peer ids), peer)
      dispatch peer (want community ids) = some (serve peer ids, peer)
      dispatch peer (events community given) = accept peer given

      -- The checks of `receive`.
      unfoldable pub check_message : SyncPeer → SyncMessage → Result PeerError (Unit {0})
      check_message peer message = do
        map_err sync (validate_message p message_codec message)
        fail_if (not (message_community message == peer.community)) wrong_community

      abbrev pub receive_checked :
          SyncPeer
          → SyncMessage
          → Result PeerError (Unit {0})
          → Option (Result PeerError (List SyncMessage) × SyncPeer)
      receive_checked peer message (err e) = some (err e, peer)
      receive_checked peer message (ok _) = dispatch peer message

      unfoldable pub receive :
          SyncPeer → SyncMessage → Option (Result PeerError (List SyncMessage) × SyncPeer)
      receive peer message = receive_checked peer message (check_message peer message)
