-- ===== src/Device.antt =====
-- crates/sync/src/auth.rs: device certificates and revocations. A libp2p key pair is represented by
-- its Ed25519 public key; peer identifiers of libp2p are left out.
pub mod Certificates
pub mod Domains
use chatcommons.Prelude.{
  ℕ, ◌≡◌, Bool, true, false, not, ◌||◌, ◌&&◌, Option, none, some, List, [], ◌∷◌, ◌++◌, length, ◌==◌,
  if◌then◌else◌, Result, ok, err, ◌>>=◌, ◌>>◌, fail_if, ok_or, map_err,
}
use chatcommons.Prelude.Bytes.{Bytes, ℤ, codes, be_bytes, i64_bytes, to_array}
use chatcommons.Crypto.{
  Primitives, Identity, UserId, public_key_len, signature_len, public_key, sign, verify,
  from_public_key,
}

abbrev pub device_auth_version : ℕ
device_auth_version = 1

abbrev pub DeviceId : Type 0
DeviceId = ℕ

pub record DeviceIdentity : Type 0 where
  pub public_key : Bytes

pub record DeviceCertificate : Type 0 where
  pub version : ℕ
  pub user_public_key : Bytes
  pub device_public_key : Bytes
  pub issued_at_ms : ℤ
  pub signature : Bytes

pub record DeviceRevocation : Type 0 where
  pub version : ℕ
  pub user_public_key : Bytes
  pub device_id : DeviceId
  pub issued_at_ms : ℤ
  pub signature : Bytes

pub record AuthenticatedDevice : Type 0 where
  pub user_id : UserId
  pub device_id : DeviceId

pub data AuthError : Type 0 where
  unsupported_version invalid_device_key invalid_public_key_length : AuthError
  invalid_signature_length invalid_signature revoked : AuthError

abbrev pub device_domain : Bytes
device_domain = codes "chatcommons:device-id:v1" ++ 0 ∷ []

abbrev pub certificate_domain : Bytes
certificate_domain = codes "chatcommons:device-certificate:v1" ++ 0 ∷ []

abbrev pub revocation_domain : Bytes
revocation_domain = codes "chatcommons:device-revocation:v1" ++ 0 ∷ []

unfoldable pub certificate_bytes : DeviceCertificate → Bytes
certificate_bytes c =
    certificate_domain
    ++ (be_bytes 2 c.version
        ++ (c.user_public_key ++ (c.device_public_key ++ i64_bytes c.issued_at_ms)))

unfoldable pub revocation_bytes : DeviceRevocation → Bytes
revocation_bytes r =
    revocation_domain
    ++ (be_bytes 2 r.version
        ++ (r.user_public_key ++ (be_bytes 32 r.device_id ++ i64_bytes r.issued_at_ms)))

-- `is_some_and(|key| key.len() != PUBLIC_KEY_LEN)`
abbrev pub is_bad_key : Option Bytes → Bool
is_bad_key none = false
is_bad_key (some key) = not (length key == public_key_len)

unfoldable pub validate_version_and_lengths :
    ℕ → Bytes → Option Bytes → Bytes → Result AuthError (Unit {0})
validate_version_and_lengths version user_key device_key signature = do
  fail_if (not (version == device_auth_version)) unsupported_version
  fail_if (not (length user_key == public_key_len) || is_bad_key device_key)
      invalid_public_key_length
  fail_if (not (length signature == signature_len)) invalid_signature_length

module _ (p : Primitives) where
  abbrev pub device_id_of : Bytes → DeviceId
  device_id_of key = p.blake3 (device_domain ++ key)

  abbrev pub device_id : DeviceIdentity → DeviceId
  device_id device = device_id_of device.public_key

  unfoldable pub create_device_certificate : Identity → DeviceIdentity → ℤ → DeviceCertificate
  create_device_certificate user device issued_at_ms =
      let certificate : DeviceCertificate = record {
        version = device_auth_version;
        user_public_key = public_key p user;
        device_public_key = device.public_key;
        issued_at_ms = issued_at_ms;
        signature = [];
      } in
      record certificate { signature = sign p user (certificate_bytes certificate) }

  unfoldable pub validate_device_certificate :
      DeviceCertificate → Result AuthError AuthenticatedDevice
  unfolding validate_version_and_lengths
  validate_device_certificate c = do
    validate_version_and_lengths c.version c.user_public_key (some c.device_public_key) c.signature
    map_err (λ _. invalid_signature) (verify p c.user_public_key (certificate_bytes c) c.signature)
    user_key ← ok_or (to_array public_key_len c.user_public_key) invalid_public_key_length
    device_key ← ok_or (to_array public_key_len c.device_public_key) invalid_public_key_length
    ok (record { user_id = from_public_key p user_key; device_id = device_id_of device_key })

  unfoldable pub create_device_revocation : Identity → DeviceId → ℤ → DeviceRevocation
  create_device_revocation user device issued_at_ms =
      let revocation : DeviceRevocation = record {
        version = device_auth_version;
        user_public_key = public_key p user;
        device_id = device;
        issued_at_ms = issued_at_ms;
        signature = [];
      } in
      record revocation { signature = sign p user (revocation_bytes revocation) }

  unfoldable pub validate_device_revocation : DeviceRevocation → Result AuthError UserId
  unfolding validate_version_and_lengths
  validate_device_revocation r = do
    validate_version_and_lengths r.version r.user_public_key none r.signature
    map_err (λ _. invalid_signature) (verify p r.user_public_key (revocation_bytes r) r.signature)
    user_key ← ok_or (to_array public_key_len r.user_public_key) invalid_public_key_length
    ok (from_public_key p user_key)

-- `BTreeSet<(UserId, DeviceId)>`, of which only membership is observed.
pub record RevocationSet : Type 0 where
  pub entries : List (UserId × DeviceId)

abbrev holds : UserId → DeviceId → List (UserId × DeviceId) → Bool
holds user device [] = false
holds user device ((u, d) ∷ rest) = (user == u && device == d) || holds user device rest

unfoldable pub contains : RevocationSet → UserId → DeviceId → Bool
contains set user device = holds user device set.entries

-- On an error the set stays as it was.
unfoldable pub apply :
    Primitives → RevocationSet → DeviceRevocation → Result AuthError (Unit {0}) × RevocationSet
apply p set r = elim (validate_device_revocation p r) [
  | err error ↦ (err error, set)
  | ok user ↦ (ok tt, record { entries = (user, r.device_id) ∷ set.entries })
]
