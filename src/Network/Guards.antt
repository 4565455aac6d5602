-- ===== src/Network/Guards.antt =====
-- crates/sync/src/network.rs: whom a node lets in.
use chatcommons.Prelude.{
  ◌≡◌, ◌≢◌, ◌↔◌, ◌⊎◌, inl, inr, refl, true, false, ◌||◌, some, arith, ap, sym, ◌∙◌, subst, ok,
  Result, Result-cases, Bool-cases, Option-cases,
}
use chatcommons.Prelude.Sets
use chatcommons.Prelude.Maps
use chatcommons.Crypto.{Primitives, from_public_key}
use chatcommons.Device.{
  DeviceCertificate, AuthenticatedDevice, validate_device_certificate, device_id_of, contains,
}
use chatcommons.Device.Certificates.{IsCertificate, validate_device_certificate_iff}
use chatcommons.Network.{Libp2p, Synchronizer, NetworkNode, RejectionCode, PeerId, full}
use chatcommons.Network.Authentication.{
  is_admitted, targets, peer_id_from_certificate, validate_peer_certificate, decide, authenticate,
}

module _ (n : Libp2p) (z : Synchronizer) (p : Primitives) where
  -- A certificate is accepted for a peer exactly if it is valid, for the peer's key, and not revoked.
  pub validate_peer_certificate_iff :
      (s : NetworkNode n z) (peer : PeerId) (c : DeviceCertificate) (d : AuthenticatedDevice)
      → (validate_peer_certificate n z p s peer c ≡ ok d) ↔ (
          (validate_device_certificate p c ≡ ok d)
          × (n.peer_of_key c.device_public_key ≡ some peer)
          × (contains s.revocations d.user_id d.device_id ≡ false))
  unfolding validate_peer_certificate peer_id_from_certificate
  validate_peer_certificate_iff s peer c d = (
    λ h. (
      ground arith,
      elim (Option-cases (n.peer_of_key c.device_public_key)) [
        | inl e ↦ absurd (ground arith)
        | inr (found, e) ↦ ground (arith, e)
      ],
      ground arith,
    ),
    λ (v, k, r). ground (arith, v, k, r),
  )

  -- The device that a certificate names.
  abbrev pub named_device : DeviceCertificate → AuthenticatedDevice
  named_device c = record {
    user_id = from_public_key p c.user_public_key;
    device_id = device_id_of p c.device_public_key;
  }

  -- A valid certificate for the peer's key, of a device that is not revoked, of an allowed user or of
  -- a trusted device.
  abbrev pub IsAdmissible : NetworkNode n z → PeerId → DeviceCertificate → Type 0
  IsAdmissible s peer c =
      IsCertificate p c
      × (n.peer_of_key c.device_public_key ≡ some peer)
      × (contains s.revocations (from_public_key p c.user_public_key)
            (device_id_of p c.device_public_key)
          ≡ false)
      × ((Sets.contains (from_public_key p c.user_public_key) s.allowed_users
            || Sets.contains (device_id_of p c.device_public_key) s.trusted_infrastructure_devices)
          ≡ true)

  -- The answer, and what the node then has of authenticated peers.
  abbrev pub Admitted : NetworkNode n z → PeerId → DeviceCertificate → Type 0
  Admitted s peer c =
      ((authenticate n z p s peer c).0 ≡ ok full)
      × ((authenticate n z p s peer c).1.authenticated ≡ Sets.insert peer s.authenticated)
      × ((authenticate n z p s peer c).1.authenticated_devices
          ≡ Maps.insert peer (named_device c) s.authenticated_devices)

  abbrev pub Unadmitted : NetworkNode n z → PeerId → DeviceCertificate → Type 0
  Unadmitted s peer c =
      ((authenticate n z p s peer c).0 ≢ ok full)
      × ((authenticate n z p s peer c).1.authenticated ≡ s.authenticated)
      × ((authenticate n z p s peer c).1.authenticated_devices ≡ s.authenticated_devices)

  certificate-IsAdmissible :
      (s : NetworkNode n z) (peer : PeerId) (c : DeviceCertificate) (d : AuthenticatedDevice)
      → validate_peer_certificate n z p s peer c ≡ ok d
      → is_admitted s.allowed_users s.trusted_infrastructure_devices d ≡ true
      → (d ≡ named_device c) × IsAdmissible s peer c
  certificate-IsAdmissible s peer c d v a =
      let (w, k, r) = (validate_peer_certificate_iff s peer c d).0 v in
      let (i, u, x) = (validate_device_certificate_iff p c d).0 w in
      let same : d ≡ named_device c = ground (arith, u, x) in
      (
        same,
        (
          i,
          k,
          subst (λ y. contains s.revocations y.user_id y.device_id ≡ false) same r,
          subst (λ y. is_admitted s.allowed_users s.trusted_infrastructure_devices y ≡ true) same a,
        ),
      )

  -- An admissible certificate is accepted.
  admissible_validates :
      (s : NetworkNode n z) (peer : PeerId) (c : DeviceCertificate)
      → IsAdmissible s peer c
      → (validate_peer_certificate n z p s peer c ≡ ok (named_device c))
        × (is_admitted s.allowed_users s.trusted_infrastructure_devices (named_device c) ≡ true)
  admissible_validates s peer c (i, k, r, a) = (
    (validate_peer_certificate_iff s peer c (named_device c)).1
        ((validate_device_certificate_iff p c (named_device c)).1 (i, refl, refl), k, r),
    a,
  )

  refused-Unadmitted :
      (s : NetworkNode n z) (peer : PeerId) (c : DeviceCertificate) (d : AuthenticatedDevice)
      → validate_peer_certificate n z p s peer c ≡ ok d
      → is_admitted s.allowed_users s.trusted_infrastructure_devices d ≡ false
      → Unadmitted s peer c
  unfolding authenticate
  refused-Unadmitted s peer c d v f = elim (Bool-cases (targets s.bootstrap_target peer)) [
    | inl t ↦ rw (authenticate, v, decide, f, t) (λ e. cc, refl, refl)
    | inr g ↦ rw (authenticate, v, decide, f, g) (λ e. cc, refl, refl)
  ]

  ok_inj :
      (d e : AuthenticatedDevice)
      → ◌≡◌ {A = Result RejectionCode AuthenticatedDevice} (ok d) (ok e)
      → d ≡ e
  ok_inj d e h = cc

  refuted : false ≢ true
  refuted h = cc

  -- If the certificate that a peer shows is valid, its device key is the peer's, its device is not
  -- revoked, and its user is allowed or its device is trusted, then the answer is a full
  -- authentication and the peer is entered with the named device; otherwise the answer is another
  -- one and the authenticated peers and their devices stay as they were.
  pub authenticate_iff :
      (s : NetworkNode n z) (peer : PeerId) (c : DeviceCertificate)
      → (IsAdmissible s peer c × Admitted s peer c)
        ⊎ (¬ IsAdmissible s peer c × Unadmitted s peer c)
  unfolding authenticate
  authenticate_iff s peer c = elim (Result-cases (validate_peer_certificate n z p s peer c)) [
    | inl (e, v) ↦ inr (
      (λ i. absurd (cc (admissible_validates s peer c i).0)),
      rw (authenticate, v) (λ e. cc, refl, refl),
    )
    | inr (d, v) ↦
        elim (Bool-cases (is_admitted s.allowed_users s.trusted_infrastructure_devices d)) [
          | inl t ↦
              let (same, i) = certificate-IsAdmissible s peer c d v t in
              inl (
                i,
                rw (authenticate, v, decide, t)
                    (refl, refl, ap (λ e. Maps.insert peer e s.authenticated_devices) same),
              )
          | inr f ↦ inr (
            (λ i.
                let (w, a) = admissible_validates s peer c i in
                let same : d ≡ named_device c = ok_inj d (named_device c) (sym v ∙ w) in
                refuted (
                  sym (
                    subst
                      (λ y. is_admitted s.allowed_users s.trusted_infrastructure_devices y ≡ false)
                      same f)
                  ∙ a)),
            refused-Unadmitted s peer c d v f,
          )
        ]
  ]
