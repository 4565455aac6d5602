-- ===== src/Protocol.antt =====
-- crates/protocol/src/lib.rs: events, their canonical bytes, signing and validation.
-- A `String` is the list of its UTF-8 bytes. JSON is the third-party crate serde_json: a `Codec`.
pub mod Validation
pub mod Encoding
pub mod Signing
pub mod Binding
use chatcommons.Prelude.{
  ◌≡◌, ℕ, ◌+◌, ◌*◌, ◌%◌, ◌^◌, ◌<◌, ◌≡◌, Bool, true, false, not, ◌&&◌, ◌||◌, Option, none, some,
  List, [], ◌∷◌, ◌++◌, length, is_empty, is_none, ◌==◌, ltb, if◌then◌else◌, Result, ok, err, ◌>>=◌,
  ◌>>◌, fail_if, ok_or, map_err,
}
use chatcommons.Prelude.Bytes.{Bytes, ℤ, codes, be_bytes, i64_bytes, to_array}
use chatcommons.Crypto.{
  Primitives, Identity, UserId, public_key_len, signature_len, public_key, sign, verify,
  from_public_key,
}

abbrev pub protocol_version : ℕ
protocol_version = 2

abbrev pub max_event_json_bytes : ℕ
max_event_json_bytes = 256 * 1024

abbrev pub max_parents : ℕ
max_parents = 32

abbrev pub max_event_type_bytes : ℕ
max_event_type_bytes = 64

abbrev pub max_payload_bytes : ℕ
max_payload_bytes = 64 * 1024

abbrev pub EventId : Type 0
EventId = ℕ

abbrev pub CommunityId : Type 0
CommunityId = ℕ

pub record EventContent : Type 0 where
  pub protocol_version : ℕ
  pub community_id : Option CommunityId
  pub parents : List EventId
  pub timestamp_ms : ℤ
  pub event_type : Bytes
  pub payload : Bytes

pub record SignedEvent : Type 0 where
  pub content : EventContent
  pub open content use {community_id, parents}
  pub public_key : Bytes
  pub signature : Bytes
  pub event_id : EventId

pub record ParsedEvent : Type 0 where
  pub event : SignedEvent

-- serde_json at one type: `to_vec` and `from_slice`, `none` for an error.
pub record Codec (A : Type 0) : Type 0 where
  pub to_vec : A → Option Bytes
  pub from_slice : Bytes → Option A

-- What is written is read back.
abbrev pub RoundTrips : {A : Type 0} → Codec A → Type 0
RoundTrips {A} c = (a : A) (bytes : Bytes) → c.to_vec a ≡ some bytes → c.from_slice bytes ≡ some a

pub data ParseError : Type 0 where
  too_large json : ParseError

pub data ProtocolError : Type 0 where
  unsupported_version invalid_event_type payload_too_large too_many_parents invalid_parents :
      ProtocolError
  invalid_genesis invalid_community_reference invalid_public_key_length invalid_signature_length :
      ProtocolError
  invalid_signature event_id_mismatch : ProtocolError

unfoldable pub parse_json : Codec SignedEvent → Bytes → Result ParseError ParsedEvent
parse_json json_codec bytes = do
  fail_if (ltb max_event_json_bytes (length bytes)) too_large
  event ← ok_or (json_codec.from_slice bytes) json
  ok (record { event = event })

unfoldable pub to_json : Codec SignedEvent → SignedEvent → Option Bytes
to_json json_codec event = json_codec.to_vec event

-- `windows(2).all(|pair| pair[0] < pair[1])`
unfoldable pub strictly_sorted : List EventId → Bool
strictly_sorted [] = true
strictly_sorted (x ∷ []) = true
strictly_sorted (x ∷ y ∷ rest) = ltb x y && strictly_sorted (y ∷ rest)

-- `sort` and `dedup` of the standard library.
unfoldable pub place : ℕ → List ℕ → List ℕ
place x [] = x ∷ []
place x (y ∷ ys) = let rest = place x ys in if ltb y x then y ∷ rest else x ∷ y ∷ ys

unfoldable pub sort : List ℕ → List ℕ
unfolding place
sort [] = []
sort (x ∷ xs) = place x (sort xs)

unfoldable pub dedup : List ℕ → List ℕ
dedup [] = []
dedup (x ∷ []) = x ∷ []
dedup (x ∷ y ∷ rest) = let kept = dedup (y ∷ rest) in if x == y then kept else x ∷ kept

abbrev pub put_bytes : Bytes → Bytes
put_bytes value = be_bytes 4 (length value % 2 ^ 32) ++ value

abbrev pub content_domain : Bytes
content_domain = codes "chatcommons:content:v2" ++ 0 ∷ []

abbrev pub event_domain : Bytes
event_domain = codes "chatcommons:event:v2" ++ 0 ∷ []

abbrev pub put_community : Option CommunityId → Bytes
put_community (some id) = 1 ∷ be_bytes 32 id
put_community none = 0 ∷ []

abbrev pub put_parents : List EventId → Bytes
put_parents [] = []
put_parents (parent ∷ rest) = be_bytes 32 parent ++ put_parents rest

unfoldable pub canonical_content : EventContent → Bytes
canonical_content content =
    content_domain
    ++ (be_bytes 2 content.protocol_version
        ++ (put_community content.community_id
            ++ (be_bytes 4 (length content.parents % 2 ^ 32)
                ++ (put_parents content.parents
                    ++ (i64_bytes content.timestamp_ms
                        ++ (put_bytes content.event_type ++ put_bytes content.payload))))))

-- The `match` on the community reference in `validate_event`.
abbrev pub check_reference : Option CommunityId → List EventId → Result ProtocolError (Unit {0})
check_reference none parents = fail_if (not (is_empty parents)) invalid_genesis
check_reference (some id) parents = fail_if (is_empty parents) invalid_community_reference

-- The first half of `validate_event`, on the content alone.
unfoldable pub validate_content : EventContent → Result ProtocolError (Unit {0})
validate_content content = do
  fail_if (not (content.protocol_version == protocol_version)) unsupported_version
  fail_if (is_empty content.event_type || ltb max_event_type_bytes (length content.event_type))
      invalid_event_type
  fail_if (ltb max_payload_bytes (length content.payload)) payload_too_large
  fail_if (ltb max_parents (length content.parents)) too_many_parents
  fail_if (not (strictly_sorted content.parents)) invalid_parents
  check_reference content.community_id content.parents

module _ (p : Primitives) where
  unfoldable pub calculate_event_id : Bytes → Bytes → Bytes → EventId
  calculate_event_id canonical key signature =
      p.blake3 (event_domain ++ (canonical ++ (key ++ signature)))

  unfoldable pub create_signed : EventContent → Identity → SignedEvent
  unfolding calculate_event_id
  create_signed draft identity =
      let content = record draft { parents = dedup (sort draft.parents) } in
      let canonical = canonical_content content in
      let key = public_key p identity in
      let signature = sign p identity canonical in
      record {
        content = content;
        public_key = key;
        signature = signature;
        event_id = calculate_event_id canonical key signature;
      }

  unfoldable pub create_genesis : Identity → Bytes → Bytes → ℤ → SignedEvent
  create_genesis identity event_type payload timestamp_ms =
      create_signed
        (record {
          protocol_version = protocol_version;
          community_id = none;
          parents = [];
          timestamp_ms = timestamp_ms;
          event_type = event_type;
          payload = payload;
        })
        identity

  -- The second half: key, signature and identifier.
  unfoldable pub validate_proof : SignedEvent → Result ProtocolError (Unit {0})
  validate_proof event = do
    key ← ok_or (to_array public_key_len event.public_key) invalid_public_key_length
    signature ← ok_or (to_array signature_len event.signature) invalid_signature_length
    let canonical = canonical_content event.content
    map_err (λ _. invalid_signature) (verify p key canonical signature)
    fail_if (not (calculate_event_id canonical key signature == event.event_id)) event_id_mismatch

  unfoldable pub validate_event : SignedEvent → Result ProtocolError (Unit {0})
  validate_event event = do validate_content event.content; validate_proof event

  unfoldable pub validate : ParsedEvent → Result ProtocolError SignedEvent
  validate parsed = do validate_event parsed.event; ok parsed.event

  unfoldable pub community_id : SignedEvent → Result ProtocolError CommunityId
  community_id genesis = do
    validate_event genesis
    fail_if (not (is_none genesis.community_id)) invalid_genesis
    ok genesis.event_id

  unfoldable pub author_id : SignedEvent → Result ProtocolError UserId
  author_id event = do
    key ← ok_or (to_array public_key_len event.public_key) invalid_public_key_length
    ok (from_public_key p key)
