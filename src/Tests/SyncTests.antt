-- ===== src/Tests/SyncTests.antt =====
-- Messages about the small community.
use chatcommons.Prelude.{
  ◌≡◌, ◌↔◌, refl, ok, true, none, some, Option, List, [], ◌∷◌, ◌≤◌, length, All, ap, ◌∙◌, zero, suc,
}
use chatcommons.Prelude.Bytes.{Bytes, be_bytes, eq_bytes, i64_bytes}
use chatcommons.Crypto.{verify}
use chatcommons.Protocol.{
  SignedEvent, Codec, RoundTrips, create_genesis, create_signed, canonical_content,
  calculate_event_id, validate_event, validate_content, validate_proof, strictly_sorted, sort,
  dedup,
}
use chatcommons.Archive.{in_order, sort_by_id, place}
use chatcommons.Sync.{
  hello, heads, SyncMessage, want, events, max_sync_json_bytes, validate_ids, validate_events,
  validate_items, validate_message, to_json, pack, pack_events,
}
use chatcommons.Sync.Limits.{IsAllowed, validate_message_iff}
use chatcommons.Sync.Batching.{carried, pack_events_carries}
use chatcommons.Sync.Packing.{pack_events_succeeds}
use chatcommons.Tests.Toy.{toy, digest, genesis, channel_event}
use chatcommons.Tests.ToyJson
use chatcommons.Tests.ToyJson.{codec, codec-RoundTrips}

-- A tag, the community, and the rest.
abbrev pub write : SyncMessage → Bytes
write (want community ids) = 0 ∷ community ∷ (ToyJson.many ToyJson.number).write ids
write (events community batch) = 1 ∷ community ∷ (ToyJson.many ToyJson.event).write batch
write (heads community ids) = 2 ∷ community ∷ (ToyJson.many ToyJson.number).write ids
write (hello version versions community) =
    3 ∷ community ∷ version ∷ (ToyJson.many ToyJson.number).write versions

abbrev pub made : {A : Type 0} → (A → SyncMessage) → Option A → Option SyncMessage
made f none = none
made f (some a) = some (f a)

abbrev pub read : Bytes → Option SyncMessage
read (zero ∷ c ∷ rest) = made (want c) ((codec (ToyJson.many ToyJson.number)).from_slice rest)
read (suc zero ∷ c ∷ rest) = made (events c) ((codec (ToyJson.many ToyJson.event)).from_slice rest)
read (suc (suc zero) ∷ c ∷ rest) =
    made (heads c) ((codec (ToyJson.many ToyJson.number)).from_slice rest)
read (suc (suc (suc _)) ∷ c ∷ v ∷ rest) =
    made (λ vs. hello v vs c) ((codec (ToyJson.many ToyJson.number)).from_slice rest)
read _ = none

abbrev pub message_codec : Codec SyncMessage
message_codec = record { to_vec = λ m. some (write m); from_slice = read }

read-write : (m : SyncMessage) → read (write m) ≡ some m
read-write (want c ids) =
    ap (made (want c)) (codec-RoundTrips (ToyJson.many ToyJson.number) ids _ refl)
read-write (events c batch) =
    ap (made (events c)) (codec-RoundTrips (ToyJson.many ToyJson.event) batch _ refl)
read-write (heads c ids) =
    ap (made (heads c)) (codec-RoundTrips (ToyJson.many ToyJson.number) ids _ refl)
read-write (hello v vs c) =
    ap (made (λ vs. hello v vs c)) (codec-RoundTrips (ToyJson.many ToyJson.number) vs _ refl)

bytes_eq : (a b : Bytes) → some a ≡ some b → b ≡ a
bytes_eq a b h = cc

message_codec-RoundTrips : RoundTrips message_codec
message_codec-RoundTrips m bytes h = ap read (bytes_eq (write m) bytes h) ∙ read-write m

abbrev request : SyncMessage
request = want 5 (3 ∷ 8 ∷ [])

validate_message_iff_example : (validate_message toy message_codec request ≡ ok tt) ↔ (
    IsAllowed toy request
    × ((bytes : Bytes) × (message_codec.to_vec request ≡ some bytes)
        × (length bytes ≤ max_sync_json_bytes)))
validate_message_iff_example = validate_message_iff toy message_codec request

request_written : to_json toy message_codec request ≡ ok (0 ∷ 5 ∷ 2 ∷ 3 ∷ 8 ∷ [])
unfolding to_json validate_message validate_items validate_ids strictly_sorted
request_written = refl

ids_ascend : strictly_sorted (3 ∷ 8 ∷ 21 ∷ []) ≡ true
unfolding strictly_sorted
ids_ascend = refl

abbrev answer : List SignedEvent
answer = sort_by_id (channel_event ∷ genesis ∷ [])

answer_packed : pack_events toy message_codec 5 answer ≡ ok (events 5 answer ∷ [])
unfolding validate_event validate_content validate_proof strictly_sorted verify calculate_event_id
    canonical_content create_genesis create_signed sort dedup digest be_bytes i64_bytes eq_bytes
    sort_by_id place in_order pack_events pack validate_message validate_items validate_events
answer_packed = refl

pack_events_carries_example :
    All (λ m. validate_message toy message_codec m ≡ ok tt) (events 5 answer ∷ [])
    × (carried (events 5 answer ∷ []) ≡ answer)
pack_events_carries_example =
    pack_events_carries toy message_codec 5 answer (events 5 answer ∷ []) answer_packed

answer_ascends : in_order answer ≡ true
unfolding calculate_event_id canonical_content create_genesis create_signed sort dedup digest
    be_bytes i64_bytes sort_by_id place in_order
answer_ascends = refl

answer_validates : All (λ e. validate_event toy e ≡ ok tt) answer
unfolding validate_event validate_content validate_proof strictly_sorted verify calculate_event_id
    canonical_content create_genesis create_signed sort dedup digest be_bytes i64_bytes eq_bytes
    sort_by_id place
answer_validates = (refl, (refl, tt))

answer_fits : All (λ e. validate_message toy message_codec (events 5 (e ∷ [])) ≡ ok tt) answer
unfolding validate_event validate_content validate_proof strictly_sorted verify calculate_event_id
    canonical_content create_genesis create_signed sort dedup digest be_bytes i64_bytes eq_bytes
    sort_by_id place in_order validate_message validate_items validate_events
answer_fits = (refl, (refl, tt))

pack_events_succeeds_example :
    (messages : List SyncMessage) × (pack_events toy message_codec 5 answer ≡ ok messages)
pack_events_succeeds_example =
    pack_events_succeeds toy message_codec 5 (λ m. (write m, refl)) answer answer_ascends
      answer_validates answer_fits
