-- ===== src/Tests/Toy.antt =====
-- Small stand-ins for the third-party crates, which meet what is assumed of them: a polynomial digest,
-- a signature that is a digest of key and message, and a payload format with one tag byte.
use chatcommons.Prelude.{
  ℕ, ◌+◌, ◌*◌, ◌%◌, ◌^◌, ◌<◌, refl, true, none, some, Option, [], ◌∷◌, ◌++◌, ◌==◌, arith,
  if◌then◌else◌,
}
use chatcommons.Prelude.Bytes.{Bytes, be_bytes, length-be_bytes, eq_bytes, eq_bytes_iff, codes, pos}
use chatcommons.Crypto.{Primitives, Documented, Identity}
use chatcommons.Protocol.{SignedEvent, Codec, create_genesis, create_signed}
use chatcommons.Chat.{
  ChatPayload, community_create, channel_create, member_invite, message_create, profile_id,
  genesis_type,
}

unfoldable pub digest : ℕ → Bytes → ℕ
digest acc [] = acc
digest acc (b ∷ bs) = digest ((acc * 263 + b + 1) % 256 ^ 32) bs

digest-lt : (acc : ℕ) (bs : Bytes) → acc < 256 ^ 32 → digest acc bs < 256 ^ 32
unfolding digest
digest-lt acc [] h = h
digest-lt acc (b ∷ bs) h = digest-lt ((acc * 263 + b + 1) % 256 ^ 32) bs (omega arith)

abbrev pub toy_signature : Bytes → Bytes → Bytes
toy_signature key message = be_bytes 64 (digest 1 (key ++ message))

abbrev pub toy : Primitives
toy = record {
  blake3 = λ b. digest 0 b;
  accepts_key = λ key. true;
  accepts_signature = λ key message signature. eq_bytes signature (toy_signature key message);
  verifying_key = λ seed. be_bytes 32 seed;
  signature_of = λ seed message. toy_signature (be_bytes 32 seed) message;
}

pub toy-Documented : Documented toy
toy-Documented = record {
  digest_bound = λ b. digest-lt 0 b (omega arith);
  key_length = λ seed. length-be_bytes 32 seed;
  signature_length = λ seed b. length-be_bytes 64 _;
  key_accepted = λ seed. refl;
  signature_accepted = λ seed b. (eq_bytes_iff _ _).1 refl;
}

-- The first byte is the tag.
abbrev tagged : ℕ → Bytes → Option ChatPayload
tagged tag rest =
    if tag == 0
    then some (community_create profile_id rest)
    else if tag == 1
    then some (member_invite rest)
    else none

abbrev numbered : ℕ → ℕ → Bytes → Option ChatPayload
numbered tag channel rest =
    if tag == 2
    then some (channel_create channel rest)
    else if tag == 3
    then some (message_create channel rest)
    else tagged tag (channel ∷ rest)

abbrev read : Bytes → Option ChatPayload
read [] = none
read (tag ∷ []) = tagged tag []
read (tag ∷ channel ∷ rest) = numbered tag channel rest

abbrev write : ChatPayload → Option Bytes
write (community_create profile name) =
    if eq_bytes profile profile_id then some (0 ∷ name) else none
write (member_invite key) = some (1 ∷ key)
write (channel_create channel name) = some (2 ∷ channel ∷ name)
write (message_create channel text) = some (3 ∷ channel ∷ text)
write _ = none

abbrev pub toy_codec : Codec ChatPayload
toy_codec = record { to_vec = write; from_slice = read }

abbrev pub alice : Identity
alice = record { seed = 7 }

abbrev pub bob : Identity
bob = record { seed = 9 }

-- The genesis of a community, a channel in it, and a message to that channel.
abbrev pub genesis : SignedEvent
genesis = create_genesis toy alice genesis_type (0 ∷ codes "books") (pos 1000)

abbrev pub channel_event : SignedEvent
channel_event =
    create_signed toy
      (record {
        protocol_version = 2;
        community_id = some genesis.event_id;
        parents = genesis.event_id ∷ [];
        timestamp_ms = pos 2000;
        event_type = codes "chat.channel.create";
        payload = 2 ∷ 5 ∷ codes "sf";
      })
      alice

-- Bob is no member.
abbrev pub intrusion : SignedEvent
intrusion =
    create_signed toy
      (record {
        protocol_version = 2;
        community_id = some genesis.event_id;
        parents = genesis.event_id ∷ [];
        timestamp_ms = pos 1500;
        event_type = codes "chat.message.create";
        payload = 3 ∷ 5 ∷ codes "hi";
      })
      bob
