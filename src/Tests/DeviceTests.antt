-- ===== src/Tests/DeviceTests.antt =====
-- A device of Alice, certified and revoked.
use chatcommons.Prelude.{◌≡◌, ◌↔◌, ◌⊎◌, ok, true, []}
use chatcommons.Prelude.Bytes.{pos, negsuc, be_bytes, length-be_bytes}
use chatcommons.Crypto.{user_id}
use chatcommons.Device.{
  DeviceIdentity, DeviceCertificate, DeviceRevocation, AuthenticatedDevice, RevocationSet,
  device_id, device_id_of, create_device_certificate, validate_device_certificate,
  create_device_revocation, validate_device_revocation, contains, apply,
}
use chatcommons.Crypto.{from_public_key}
use chatcommons.Device.Certificates.{
  IsCertificate, validate_device_certificate_iff, certificate-validates, contains-apply,
}
use chatcommons.Tests.Toy.{toy, toy-Documented, alice}

abbrev phone : DeviceIdentity
phone = record { public_key = be_bytes 32 1234 }

abbrev certificate : DeviceCertificate
certificate = create_device_certificate toy alice phone (pos 5)

abbrev authenticated : AuthenticatedDevice
authenticated = record { user_id = user_id toy alice; device_id = device_id toy phone }

abbrev revocation : DeviceRevocation
revocation = create_device_revocation toy alice (device_id toy phone) (negsuc 4)

abbrev nothing_revoked : RevocationSet
nothing_revoked = record { entries = [] }

certificate-validates_example : validate_device_certificate toy certificate ≡ ok authenticated
certificate-validates_example =
    certificate-validates toy toy-Documented alice phone (pos 5) (length-be_bytes 32 1234)

validate_device_certificate_iff_example :
    (validate_device_certificate toy certificate ≡ ok authenticated) ↔ (
      IsCertificate toy certificate
      × (user_id toy alice ≡ from_public_key toy certificate.user_public_key)
      × (device_id toy phone ≡ device_id_of toy certificate.device_public_key))
validate_device_certificate_iff_example =
    validate_device_certificate_iff toy certificate authenticated

contains-apply_example :
    (contains ((apply toy nothing_revoked revocation).1) (user_id toy alice) (device_id toy phone)
      ≡ true)
    ↔ ((contains nothing_revoked (user_id toy alice) (device_id toy phone) ≡ true)
        ⊎ ((validate_device_revocation toy revocation ≡ ok (user_id toy alice))
            × (revocation.device_id ≡ device_id toy phone)))
contains-apply_example =
    contains-apply toy nothing_revoked revocation (user_id toy alice) (device_id toy phone)

-- The same statement under another signature.
abbrev plain : DeviceCertificate
plain = record {
  version = 1;
  user_public_key = be_bytes 32 7;
  device_public_key = be_bytes 32 1234;
  issued_at_ms = pos 5;
  signature = [];
}
