-- ===== src/Network/Normalizing.antt =====
-- What `normalize_messages` of crates/sync/src/network.rs puts into a frame.
use chatcommons.Prelude.{
  ◌≤◌, ◌≡◌, refl, false, some, List, [], ◌∷◌, ◌++◌, length, All, map, arith, ap, ◌∙◌, ok,
  Option-cases, inl, inr,
}
use chatcommons.Prelude.Bytes.{Bytes}
use chatcommons.Protocol.{CommunityId, EventId, Codec}
use chatcommons.Sync.{SyncMessage, hello, heads, want, events}
use chatcommons.Sync.Batching.{wanted, carried}
use chatcommons.Network.{
  NetworkResponse, sync_messages, max_messages_per_frame, max_network_frame_bytes,
}
use chatcommons.Network.Frames.{normalized, normalize_messages}
use chatcommons.Network.Requests.{asks_several}

-- What the requests of one message ask for and carry, in front of others.
wanted-map :
    (community : CommunityId) (ids : List EventId) (rest : List SyncMessage)
    → wanted (map (λ id. want community (id ∷ [])) ids ++ rest) ≡ ids ++ wanted rest
wanted-map community [] rest = refl
wanted-map community (id ∷ ids) rest = ap (λ r. id ∷ r) (wanted-map community ids rest)

carried-map :
    (community : CommunityId) (ids : List EventId) (rest : List SyncMessage)
    → carried (map (λ id. want community (id ∷ [])) ids ++ rest) ≡ carried rest
carried-map community [] rest = refl
carried-map community (id ∷ ids) rest = carried-map community ids rest

singles :
    (community : CommunityId) (ids : List EventId) (rest : List SyncMessage)
    → All (λ m. asks_several m ≡ false) rest
    → All (λ m. asks_several m ≡ false) (map (λ id. want community (id ∷ [])) ids ++ rest)
singles community [] rest all = all
singles community (id ∷ ids) rest all = (refl, singles community ids rest all)

wanted-normalized : (messages : List SyncMessage) → wanted (normalized messages) ≡ wanted messages
unfolding normalized
wanted-normalized [] = refl
wanted-normalized (want community ids ∷ messages) =
    wanted-map community ids (normalized messages) ∙ ap (λ r. ids ++ r) (wanted-normalized messages)
wanted-normalized (hello version versions community ∷ messages) = wanted-normalized messages
wanted-normalized (heads community ids ∷ messages) = wanted-normalized messages
wanted-normalized (events community batch ∷ messages) = wanted-normalized messages

carried-normalized :
    (messages : List SyncMessage) → carried (normalized messages) ≡ carried messages
unfolding normalized
carried-normalized [] = refl
carried-normalized (want community ids ∷ messages) =
    carried-map community ids (normalized messages) ∙ carried-normalized messages
carried-normalized (hello version versions community ∷ messages) = carried-normalized messages
carried-normalized (heads community ids ∷ messages) = carried-normalized messages
carried-normalized (events community batch ∷ messages) =
    ap (λ r. batch ++ r) (carried-normalized messages)

normalized-asks_one :
    (messages : List SyncMessage) → All (λ m. asks_several m ≡ false) (normalized messages)
unfolding normalized
normalized-asks_one [] = tt
normalized-asks_one (want community ids ∷ messages) =
    singles community ids (normalized messages) (normalized-asks_one messages)
normalized-asks_one (hello version versions community ∷ messages) =
    (refl, normalized-asks_one messages)
normalized-asks_one (heads community ids ∷ messages) = (refl, normalized-asks_one messages)
normalized-asks_one (events community batch ∷ messages) = (refl, normalized-asks_one messages)

-- If `normalize_messages` succeeds, then its messages are at most 64 and their JSON as a response has at
-- most 1 MiB; each request among them is for one event, as the peer demands it; and together they ask
-- for the same events as before and carry the same events, in the same order.
pub normalize_messages-bounded :
    (response_codec : Codec NetworkResponse) (messages out : List SyncMessage)
    → normalize_messages response_codec messages ≡ ok out
    → (length out ≤ max_messages_per_frame)
      × ((bytes : Bytes) × (response_codec.to_vec (sync_messages out) ≡ some bytes)
          × (length bytes ≤ max_network_frame_bytes))
      × All (λ m. asks_several m ≡ false) out
      × (wanted out ≡ wanted messages)
      × (carried out ≡ carried messages)
unfolding normalize_messages
normalize_messages-bounded response_codec messages out h =
    let same : normalized messages ≡ out = ground arith in
    let short : length (normalized messages) ≤ max_messages_per_frame = ground arith in
    elim (Option-cases (response_codec.to_vec (sync_messages (normalized messages)))) [
      | inl e ↦ absurd (ground arith)
      | inr (bytes, e) ↦
          let fits : length bytes ≤ max_network_frame_bytes = ground arith in
          rw (← same) (
            short,
            (bytes, e, fits),
            normalized-asks_one messages,
            wanted-normalized messages,
            carried-normalized messages,
          )
    ]
