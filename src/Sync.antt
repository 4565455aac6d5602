-- ===== src/Sync.antt =====
-- crates/sync/src/lib.rs: the messages of the sync protocol, their limits and their batching.
pub mod Limits
pub mod Batching
pub mod Requests
pub mod Packing
pub mod Peer
use chatcommons.Prelude.{
  ℕ, zero, suc, ◌*◌, ◌==◌, Bool, true, false, not, ◌&&◌, ◌||◌, Option, none, some, List, [], ◌∷◌,
  ◌++◌, length, is_empty, any, take, drop, ltb, map, Result, ok, err, ◌>>=◌, ◌>>◌, fail_if, ok_or,
  map_err, if◌then◌else◌,
}
use chatcommons.Prelude.Bytes.{Bytes}
use chatcommons.Crypto.{Primitives}
use chatcommons.Protocol.{
  EventId, CommunityId, SignedEvent, Codec, ProtocolError, protocol_version, strictly_sorted,
  validate_event,
}
use chatcommons.Archive.{in_order}

abbrev pub sync_version : ℕ
sync_version = 1

abbrev pub max_sync_json_bytes : ℕ
max_sync_json_bytes = 512 * 1024

abbrev pub max_versions : ℕ
max_versions = 8

abbrev pub max_ids_per_message : ℕ
max_ids_per_message = 64

abbrev pub max_events_per_message : ℕ
max_events_per_message = 64

pub data SyncMessage : Type 0 where
  -- sync version, protocol versions and community
  hello : ℕ → List ℕ → CommunityId → SyncMessage
  heads : CommunityId → List EventId → SyncMessage
  want : CommunityId → List EventId → SyncMessage
  events : CommunityId → List SignedEvent → SyncMessage

-- The variants of the messages; `SyncPeer` in Sync/Peer.antt has those of its node besides.
pub data SyncError : Type 0 where
  too_large json unsupported_version item_limit_exceeded invalid_event_ids : SyncError
  protocol : ProtocolError → SyncError

unfoldable pub validate_ids : List EventId → Result SyncError (Unit {0})
validate_ids ids = do
  fail_if (ltb max_ids_per_message (length ids)) item_limit_exceeded
  fail_if (not (strictly_sorted ids)) invalid_event_ids

abbrev pub message_community : SyncMessage → CommunityId
message_community (hello version versions community) = community
message_community (heads community ids) = community
message_community (want community ids) = community
message_community (events community batch) = community

-- `chunks`, of a positive size, on fuel that the length of the list bounds.
unfoldable pub chunks : {A : Type 0} → ℕ → ℕ → List A → List (List A)
chunks zero size xs = []
chunks (suc fuel) size [] = []
chunks (suc fuel) size (x ∷ xs) = take size (x ∷ xs) ∷ chunks fuel size (drop size (x ∷ xs))

unfoldable pub want_messages : CommunityId → List EventId → List SyncMessage
want_messages community ids =
    map (λ chunk. want community chunk) (chunks (length ids) max_ids_per_message ids)

-- `matches!(&candidate_result, Err(SyncError::TooLarge))`
abbrev pub is_too_large : Result SyncError (Unit {0}) → Bool
is_too_large (err too_large) = true
is_too_large _ = false

-- Where `pack_events` closes a batch: with the results for the candidate, for the next event alone and
-- for what follows.
abbrev pub flush :
    CommunityId
    → List SignedEvent
    → Result SyncError (Unit {0})
    → Result SyncError (Unit {0})
    → Result SyncError (List SyncMessage)
    → Result SyncError (List SyncMessage)
flush community batch candidate_result next_alone later = do
  if is_empty batch then candidate_result else ok tt
  next_alone
  messages ← later
  ok (events community batch ∷ messages)

module _ (p : Primitives) where
  unfoldable pub validate_events : List SignedEvent → Result SyncError (Unit {0})
  validate_events [] = ok tt
  validate_events (e ∷ batch) = do map_err protocol (validate_event p e); validate_events batch

  -- The `match` of `validate_message`.
  unfoldable pub validate_items : SyncMessage → Result SyncError (Unit {0})
  validate_items (hello version versions community) =
      fail_if
        (not (version == sync_version)
          || is_empty versions
          || ltb max_versions (length versions)
          || not (any (λ v. v == protocol_version) versions))
        unsupported_version
  validate_items (heads community ids) = validate_ids ids
  validate_items (want community ids) = validate_ids ids
  validate_items (events community batch) = do
    fail_if (is_empty batch || ltb max_events_per_message (length batch)) item_limit_exceeded
    fail_if (not (in_order batch)) invalid_event_ids
    validate_events batch

  module _ (message_codec : Codec SyncMessage) where
    unfoldable pub validate_message : SyncMessage → Result SyncError (Unit {0})
    validate_message message = do
      validate_items message
      bytes ← ok_or (message_codec.to_vec message) json
      fail_if (ltb max_sync_json_bytes (length bytes)) too_large

    -- `parse_json`, then `validate`.
    unfoldable pub parse_json : Bytes → Result SyncError SyncMessage
    parse_json bytes = do
      fail_if (ltb max_sync_json_bytes (length bytes)) too_large
      ok_or (message_codec.from_slice bytes) json

    unfoldable pub validate : SyncMessage → Result SyncError SyncMessage
    validate message = do validate_message message; ok message

    unfoldable pub to_json : SyncMessage → Result SyncError Bytes
    to_json message = do
      validate_message message
      bytes ← ok_or (message_codec.to_vec message) json
      fail_if (ltb max_sync_json_bytes (length bytes)) too_large
      ok bytes

    -- The loop of `pack_events`, with the batch so far; the messages come out in front.
    unfoldable pub pack :
        CommunityId → List SignedEvent → List SignedEvent → Result SyncError (List SyncMessage)
    pack community batch [] = ok (if is_empty batch then [] else events community batch ∷ [])
    pack community batch (event ∷ rest) =
        let candidate_result = validate_message (events community (batch ++ event ∷ [])) in
        elim (length batch == max_events_per_message || is_too_large candidate_result) [
          | true ↦
              flush community batch candidate_result
                (validate_message (events community (event ∷ [])))
                (pack community (event ∷ []) rest)
          | false ↦ candidate_result >> pack community (batch ++ event ∷ []) rest
        ]

    unfoldable pub pack_events :
        CommunityId → List SignedEvent → Result SyncError (List SyncMessage)
    pack_events community batch = pack community [] batch
