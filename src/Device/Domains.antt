-- ===== src/Device/Domains.antt =====
-- The byte strings that are signed for different purposes never coincide: crates/protocol/src/lib.rs,
-- crates/profile-chat/src/lib.rs and crates/sync/src/auth.rs.
use chatcommons.Prelude.{
  ◌≢◌, ◌≡◌, ◌<◌, ◌^◌, ap, arith, append_cancel, take, false, ◌∙◌, sym, refl, length,
}
use chatcommons.Prelude.Bytes.{Bytes, IsI64, i64_bytes-injective, eq_bytes, eq_bytes_iff}
use chatcommons.Protocol.{EventContent, CommunityId, EventId, canonical_content}
use chatcommons.Crypto.{UserId, public_key_len}
use chatcommons.Protocol.Encoding.{be_bytes_cancel}
use chatcommons.Chat.Rules.{acceptance_bytes}
use chatcommons.Device.{
  DeviceCertificate, DeviceRevocation, certificate_bytes, revocation_bytes, certificate_domain,
}

-- The byte strings to sign for the content of an event, the acceptance of an invitation, a device
-- certificate and a device revocation are different, whatever is in them.
pub signed_domains_apart :
    (content : EventContent) (community : CommunityId) (invitation : EventId) (invitee : UserId)
    (c : DeviceCertificate) (r : DeviceRevocation)
    → (canonical_content content ≢ acceptance_bytes community invitation invitee)
      × (canonical_content content ≢ certificate_bytes c)
      × (canonical_content content ≢ revocation_bytes r)
      × (acceptance_bytes community invitation invitee ≢ certificate_bytes c)
      × (acceptance_bytes community invitation invitee ≢ revocation_bytes r)
      × (certificate_bytes c ≢ revocation_bytes r)
unfolding canonical_content acceptance_bytes certificate_bytes revocation_bytes eq_bytes
signed_domains_apart content community invitation invitee c r =
    (apart refl, apart refl, apart refl, apart refl, apart refl, apart refl)
  where
    apart : {a b : Bytes} → eq_bytes (take 20 a) (take 20 b) ≡ false → a ≢ b
    apart differ same = ground (arith, (eq_bytes_iff _ _).1 (ap (take 20) same))

-- Two certificates with keys of 32 bytes and fields in the ranges of their types that sign the same
-- bytes agree in version, user key, device key and time of issue.
pub certificate_bytes_determine :
    (c d : DeviceCertificate)
    → (c.version < 256 ^ 2) × (d.version < 256 ^ 2)
    → (length c.user_public_key ≡ public_key_len) × (length d.user_public_key ≡ public_key_len)
    → (length c.device_public_key ≡ public_key_len) × (length d.device_public_key ≡ public_key_len)
    → IsI64 c.issued_at_ms × IsI64 d.issued_at_ms
    → certificate_bytes c ≡ certificate_bytes d
    → (c.version ≡ d.version)
      × (c.user_public_key ≡ d.user_public_key)
      × (c.device_public_key ≡ d.device_public_key)
      × (c.issued_at_ms ≡ d.issued_at_ms)
unfolding certificate_bytes
certificate_bytes_determine c d v u k t e =
    let (_, e1) = append_cancel certificate_domain certificate_domain _ _ refl e in
    let (version, e2) = be_bytes_cancel 2 c.version d.version _ _ v.0 v.1 e1 in
    let (user, e3) = append_cancel c.user_public_key d.user_public_key _ _ (u.0 ∙ sym u.1) e2 in
    let (device, e4) =
      append_cancel c.device_public_key d.device_public_key _ _ (k.0 ∙ sym k.1) e3 in
    (version, user, device, i64_bytes-injective c.issued_at_ms d.issued_at_ms t.0 t.1 e4)
