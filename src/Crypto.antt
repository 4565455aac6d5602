-- ===== src/Crypto.antt =====
-- crates/crypto/src/lib.rs. Ed25519 and BLAKE3 are third-party crates: they are the record
-- `Primitives`, with what their documentation promises in `Documented`. A 32-byte array that the
-- code only compares, orders and copies (an identifier or a seed) is the number that it writes in
-- big endian, below 256 ^ 32: comparing such numbers is comparing the arrays byte by byte.
use chatcommons.Prelude.{
  ℕ, ◌^◌, ◌<◌, ◌≡◌, Bool, true, not, length, Result, ◌>>=◌, ◌>>◌, fail_if, ok_or,
}
use chatcommons.Prelude.Bytes.{Bytes, to_array}

abbrev pub public_key_len : ℕ
public_key_len = 32

abbrev pub signature_len : ℕ
signature_len = 64

abbrev pub UserId : Type 0
UserId = ℕ

-- The operations of the crates `blake3` and `ed25519_dalek` that the source calls.
pub record Primitives : Type 0 where
  -- the digest of a byte sequence
  pub blake3 : Bytes → ℕ
  -- whether `VerifyingKey::from_bytes` takes the 32 bytes
  pub accepts_key : Bytes → Bool
  -- whether `verify` takes key, message and signature
  pub accepts_signature : Bytes → Bytes → Bytes → Bool
  -- the public key of the signing key with a seed
  pub verifying_key : ℕ → Bytes
  -- the signature under a seed of a message
  pub signature_of : ℕ → Bytes → Bytes

pub record Documented (p : Primitives) : Type 0 where
  pub digest_bound : (b : Bytes) → p.blake3 b < 256 ^ 32
  pub key_length : (seed : ℕ) → length (p.verifying_key seed) ≡ public_key_len
  pub signature_length : (seed : ℕ) (b : Bytes) → length (p.signature_of seed b) ≡ signature_len
  pub key_accepted : (seed : ℕ) → p.accepts_key (p.verifying_key seed) ≡ true
  pub signature_accepted :
      (seed : ℕ) (b : Bytes)
      → p.accepts_signature (p.verifying_key seed) b (p.signature_of seed b) ≡ true

pub data CryptoError : Type 0 where
  invalid_public_key_length invalid_signature_length invalid_public_key invalid_signature :
      CryptoError

pub record Identity : Type 0 where
  pub seed : ℕ

module _ (p : Primitives) where
  abbrev pub from_public_key : Bytes → UserId
  from_public_key key = p.blake3 key

  abbrev pub from_seed : ℕ → Identity
  from_seed seed = record { seed = seed }

  abbrev pub public_key : Identity → Bytes
  public_key i = p.verifying_key i.seed

  abbrev pub user_id : Identity → UserId
  user_id i = from_public_key (public_key i)

  abbrev pub sign : Identity → Bytes → Bytes
  sign i bytes = p.signature_of i.seed bytes

  unfoldable pub verify : Bytes → Bytes → Bytes → Result CryptoError (Unit {0})
  verify key bytes signature = do
    key ← ok_or (to_array public_key_len key) invalid_public_key_length
    signature ← ok_or (to_array signature_len signature) invalid_signature_length
    fail_if (not (p.accepts_key key)) invalid_public_key
    fail_if (not (p.accepts_signature key bytes signature)) invalid_signature
