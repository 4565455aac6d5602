-- ===== src/Device/Certificates.antt =====
-- What the certificates and revocations of crates/sync/src/auth.rs achieve.
use chatcommons.Prelude.{◌≡◌, ◌↔◌, ◌⊎◌, inl, inr, Result-cases, refl, true, length, ok, arith}
use chatcommons.Prelude.Bytes.{Bytes, ℤ}
use chatcommons.Crypto.{
  Primitives, Documented, Identity, UserId, public_key_len, signature_len, user_id, from_public_key,
  verify, sign, public_key,
}
use chatcommons.Device.{
  DeviceIdentity, DeviceId, DeviceCertificate, DeviceRevocation, AuthenticatedDevice, RevocationSet,
  device_id, device_id_of, certificate_bytes, revocation_bytes, create_device_certificate,
  validate_device_certificate, create_device_revocation, validate_device_revocation,
  validate_version_and_lengths, contains, apply, device_auth_version,
}

module _ (p : Primitives) where
  -- A key signs for a message.
  pub record Signs (key message signature : Bytes) : Type 0 where
    pub key_length : length key ≡ public_key_len
    pub signature_length : length signature ≡ signature_len
    pub key_accepted : p.accepts_key key ≡ true
    pub signature_accepted : p.accepts_signature key message signature ≡ true

  pub record IsCertificate (c : DeviceCertificate) : Type 0 where
    pub version : c.version ≡ device_auth_version
    pub device_key_length : length c.device_public_key ≡ public_key_len
    pub signed : Signs c.user_public_key (certificate_bytes c) c.signature

  pub record IsRevocation (r : DeviceRevocation) : Type 0 where
    pub version : r.version ≡ device_auth_version
    pub signed : Signs r.user_public_key (revocation_bytes r) r.signature

  -- A certificate is accepted exactly if its version is 1, its device key has 32 bytes, and its user key
  -- signs its bytes; it then authenticates the device of that device key for the user of that user key.
  pub validate_device_certificate_iff :
      (c : DeviceCertificate) (d : AuthenticatedDevice)
      → (validate_device_certificate p c ≡ ok d) ↔ (
          IsCertificate c
          × (d.user_id ≡ from_public_key p c.user_public_key)
          × (d.device_id ≡ device_id_of p c.device_public_key))
  unfolding validate_device_certificate validate_version_and_lengths verify
  validate_device_certificate_iff c d = (
    λ h. (
      record {
        version = ground arith;
        device_key_length = ground arith;
        signed = record {
          key_length = ground arith;
          signature_length = ground arith;
          key_accepted = ground arith;
          signature_accepted = ground arith;
        };
      },
      ground arith,
      ground arith,
    ),
    λ (i, u, v). ground (
      arith, i.version, i.device_key_length, i.signed.key_length, i.signed.signature_length,
      i.signed.key_accepted, i.signed.signature_accepted, u, v,
    ),
  )

  -- A revocation is accepted exactly if its version is 1 and its user key signs its bytes; it then
  -- speaks for the user of that key.
  pub validate_device_revocation_iff :
      (r : DeviceRevocation) (u : UserId)
      → (validate_device_revocation p r ≡ ok u)
        ↔ (IsRevocation r × (u ≡ from_public_key p r.user_public_key))
  unfolding validate_device_revocation validate_version_and_lengths verify
  validate_device_revocation_iff r u = (
    λ h. (
      record {
        version = ground arith;
        signed = record {
          key_length = ground arith;
          signature_length = ground arith;
          key_accepted = ground arith;
          signature_accepted = ground arith;
        };
      },
      ground arith,
    ),
    λ (i, e). ground (
      arith, i.version, i.signed.key_length, i.signed.signature_length, i.signed.key_accepted,
      i.signed.signature_accepted, e,
    ),
  )

  module _ (documented : Documented p) where
    sign-Signs :
        (user : Identity) (message : Bytes)
        → Signs (public_key p user) message (sign p user message)
    sign-Signs user message = record {
      key_length = documented.key_length user.seed;
      signature_length = documented.signature_length user.seed message;
      key_accepted = documented.key_accepted user.seed;
      signature_accepted = documented.signature_accepted user.seed message;
    }

    -- If the cryptography works as documented and the device key has 32 bytes, then a certificate
    -- that a user makes for a device is accepted, and names this user and this device.
    pub certificate-validates :
        (user : Identity) (device : DeviceIdentity) (issued_at_ms : ℤ)
        → length device.public_key ≡ public_key_len
        → validate_device_certificate p (create_device_certificate p user device issued_at_ms)
          ≡ ok (record { user_id = user_id p user; device_id = device_id p device })
    unfolding create_device_certificate certificate_bytes
    certificate-validates user device issued_at_ms h =
        (validate_device_certificate_iff (create_device_certificate p user device issued_at_ms) _).1
          (record { version = refl; device_key_length = h; signed = sign-Signs user _ }, refl, refl)

    revocation-validates :
        (user : Identity) (device : DeviceId) (issued_at_ms : ℤ)
        → validate_device_revocation p (create_device_revocation p user device issued_at_ms)
          ≡ ok (user_id p user)
    unfolding create_device_revocation revocation_bytes
    revocation-validates user device issued_at_ms =
        (validate_device_revocation_iff (create_device_revocation p user device issued_at_ms) _).1
          (record { version = refl; signed = sign-Signs user _ }, refl)

  -- After a revocation is applied, a device of a user is revoked exactly if it was before, or the
  -- revocation is valid, by this user, for this device. So a refused revocation changes nothing.
  pub contains-apply :
      (set : RevocationSet) (r : DeviceRevocation) (u : UserId) (d : DeviceId)
      → (contains ((apply p set r).1) u d ≡ true) ↔ (
          (contains set u d ≡ true) ⊎ ((validate_device_revocation p r ≡ ok u) × (r.device_id ≡ d)))
  unfolding contains apply
  contains-apply set r u d = elim (Result-cases (validate_device_revocation p r)) [
    | inl (e, h) ↦ rw h (ground arith)
    | inr (v, h) ↦ rw h (ground arith)
  ]
