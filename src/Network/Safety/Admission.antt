-- ===== src/Network/Safety/Admission.antt =====
-- crates/sync/src/network.rs: authentication and its withdrawal keep the state safe.
use chatcommons.Prelude.{
  ◌==◌, ◌≡◌, ◌⊎◌, inl, inr, refl, true, false, some, List, [], ◌∷◌, arith, subst, ok, err, Result,
  Bool-cases, Option-cases,
}
use chatcommons.Prelude.Sets
use chatcommons.Prelude.Sets.{Set, contains-insert, contains-remove}
use chatcommons.Prelude.Maps.{Map, Every-insert, Every-remove, lookup, lookup-remove}
use chatcommons.Crypto.{Primitives}
use chatcommons.Device.{DeviceCertificate, AuthenticatedDevice}
use chatcommons.Network.{Libp2p, Synchronizer, NetworkNode, RejectionCode, PeerId}
use chatcommons.Network.Authentication.{
  is_admitted, targets, drop_peer, drop_peers, not_admitted, replace_authorization,
  peer_id_from_certificate, validate_peer_certificate, decide, authenticate,
}
use chatcommons.Network.Safety.{Belongs, SafeWith, Safe, weaken, admit-Safe}

-- Who is not admitted is collected.
contains-not_admitted :
    (allowed trusted : Set) (m : Map AuthenticatedDevice) (peer : PeerId) (d : AuthenticatedDevice)
    → lookup peer m ≡ some d
    → (is_admitted allowed trusted d ≡ true)
      ⊎ (Sets.contains peer (not_admitted allowed trusted m) ≡ true)
unfolding lookup not_admitted Sets.contains
contains-not_admitted allowed trusted [] peer d l = absurd (cc)
contains-not_admitted allowed trusted ((x, v) ∷ m) peer d l =
    elim (Bool-cases (is_admitted allowed trusted v)) [
      | inl t ↦ elim (Bool-cases (peer == x)) [
        | inl same ↦ inl (subst (λ e. is_admitted allowed trusted e ≡ true) (found l same) t)
        | inr another ↦
            rw (not_admitted, t)
              (contains-not_admitted allowed trusted m peer d (rw (lookup, another) at l))
      ]
      | inr f ↦ elim (Bool-cases (peer == x)) [
        | inl same ↦ inr (rw (not_admitted, f) (ground arith))
        | inr another ↦
            elim (contains-not_admitted allowed trusted m peer d (rw (lookup, another) at l)) [
              | inl may ↦ inl may
              | inr listed ↦ inr (rw (not_admitted, f) (ground (arith, listed)))
            ]
      ]
    ]
  where
    found : lookup peer ((x, v) ∷ m) ≡ some d → (peer == x) ≡ true → v ≡ d
    found l same = ground (arith, l, same)

module _ (n : Libp2p) (z : Synchronizer) (p : Primitives) where
  pub drop_peer-Safe :
      (may may' : PeerId → AuthenticatedDevice → Type 0) (s : NetworkNode n z) (peer : PeerId)
      → ((j : PeerId) (d : AuthenticatedDevice) → (j == peer) ≡ false → may j d → may' j d)
      → SafeWith n z p may s
      → SafeWith n z p may' (drop_peer n z s peer)
  drop_peer-Safe may may' s peer f safe = record {
    listed = λ j. ground (
      arith,
      safe.listed j,
      contains-remove j peer s.authenticated,
      lookup-remove j peer s.authenticated_devices,
    );
    admitted = λ j d l.
        f j d (ground (arith, lookup-remove j peer s.authenticated_devices))
          (safe.admitted j d (ground (arith, lookup-remove j peer s.authenticated_devices)));
    certified =
        Every-remove (Belongs n p s.revocations) peer s.authenticated_devices safe.certified;
    provisionally = safe.provisionally;
    challenged = safe.challenged;
    proving = safe.proving;
    accepting = safe.accepting;
    reciprocal = λ j h. ground (
      arith,
      safe.reciprocal j,
      contains-remove j peer s.authenticated,
      contains-remove j peer s.accepted_by_remote,
      contains-remove j peer s.sync_started,
    );
  }

  drop_peers-Safe :
      (may : PeerId → AuthenticatedDevice → Type 0) (s : NetworkNode n z) (peers : List PeerId)
      → SafeWith n z p (λ peer d. may peer d ⊎ (Sets.contains peer peers ≡ true)) s
      → SafeWith n z p may (drop_peers n z s peers)
  unfolding drop_peers Sets.contains
  drop_peers-Safe may s [] safe =
      weaken n z p (λ peer d. may peer d ⊎ (Sets.contains peer [] ≡ true)) may s
        (λ peer d h. elim h [ inl m ↦ m | inr none_left ↦ absurd (ground arith) ]) safe
  drop_peers-Safe may s (x ∷ peers) safe = drop_peers-Safe may (drop_peer n z s x) peers (
      drop_peer-Safe (λ peer d. may peer d ⊎ (Sets.contains peer (x ∷ peers) ≡ true))
        (λ peer d. may peer d ⊎ (Sets.contains peer peers ≡ true)) s x
        (λ j d other h. elim h [ inl m ↦ inl m | inr listed ↦ inr (ground (arith, other)) ]) safe)

  -- Who may synchronize stays.
  drop_peers-same :
      (s : NetworkNode n z) (peers : List PeerId)
      → ((drop_peers n z s peers).allowed_users ≡ s.allowed_users)
        × ((drop_peers n z s peers).trusted_infrastructure_devices
            ≡ s.trusted_infrastructure_devices)
  unfolding drop_peers
  drop_peers-same s [] = (refl, refl)
  drop_peers-same s (x ∷ peers) = drop_peers-same (drop_peer n z s x) peers

  pub replace_authorization_sets :
      (s : NetworkNode n z) (allowed trusted : Set)
      → ((replace_authorization n z s allowed trusted).allowed_users ≡ allowed)
        × ((replace_authorization n z s allowed trusted).trusted_infrastructure_devices ≡ trusted)
  unfolding replace_authorization
  replace_authorization_sets s allowed trusted =
      drop_peers-same
        (record s { allowed_users = allowed; trusted_infrastructure_devices = trusted })
        (not_admitted allowed trusted s.authenticated_devices)

  pub replace_authorization-Safe :
      (s : NetworkNode n z) (allowed trusted : Set)
      → Safe n z p s
      → Safe n z p (replace_authorization n z s allowed trusted)
  unfolding replace_authorization
  replace_authorization-Safe s allowed trusted safe =
      let s' : NetworkNode n z = record s {
        allowed_users = allowed;
        trusted_infrastructure_devices = trusted;
      } in
      let rejected = not_admitted allowed trusted s.authenticated_devices in
      let (a, t) = drop_peers-same s' rejected in
      weaken n z p (λ peer d. is_admitted allowed trusted d ≡ true) _ (drop_peers n z s' rejected)
        (λ peer d h. rw (a, t) h)
        (drop_peers-Safe (λ peer d. is_admitted allowed trusted d ≡ true) s' rejected
          (record {
            listed = safe.listed;
            admitted =
                λ peer d l. contains-not_admitted allowed trusted s.authenticated_devices peer d l;
            certified = safe.certified;
            provisionally = safe.provisionally;
            challenged = safe.challenged;
            proving = safe.proving;
            accepting = safe.accepting;
            reciprocal = safe.reciprocal;
          }))

  -- An accepted certificate is valid, for the peer, and not revoked.
  pub validate_peer_certificate-Belongs :
      (s : NetworkNode n z) (peer : PeerId) (certificate : DeviceCertificate)
      (device : AuthenticatedDevice)
      → validate_peer_certificate n z p s peer certificate ≡ ok device
      → Belongs n p s.revocations peer device
  unfolding validate_peer_certificate peer_id_from_certificate
  validate_peer_certificate-Belongs s peer certificate device h = (
    certificate,
    ground arith,
    elim (Option-cases (n.peer_of_key certificate.device_public_key)) [
      | inl e ↦ absurd (ground arith)
      | inr (found, e) ↦ ground (arith, e)
    ],
    ground arith,
  )

  pub authenticate-Safe :
      (s : NetworkNode n z) (peer : PeerId) (certificate : DeviceCertificate)
      → Safe n z p s
      → Safe n z p ((authenticate n z p s peer certificate).1)
  unfolding authenticate
  authenticate-Safe s peer certificate safe =
      through (validate_peer_certificate n z p s peer certificate) refl
    where
      held :
          (device : AuthenticatedDevice)
          → Belongs n p s.revocations peer device
          → Safe n z p ((decide n z p s peer (ok device)).1)
      held device b =
          elim (Bool-cases (is_admitted s.allowed_users s.trusted_infrastructure_devices device)) [
            | inl t ↦ rw (decide, t) (admit-Safe n z p s peer device t b safe)
            | inr f ↦ elim (Bool-cases (targets s.bootstrap_target peer)) [
              | inl t ↦
                  rw (decide, f, t)
                    (record {
                      listed = safe.listed;
                      admitted = safe.admitted;
                      certified = safe.certified;
                      provisionally =
                          Every-insert (Belongs n p s.revocations) peer device s.provisional b
                            safe.provisionally;
                      challenged = safe.challenged;
                      proving = safe.proving;
                      accepting = safe.accepting;
                      reciprocal = safe.reciprocal;
                    })
              | inr g ↦ rw (decide, f, g) safe
            ]
          ]

      through :
          (checked : Result RejectionCode AuthenticatedDevice)
          → validate_peer_certificate n z p s peer certificate ≡ checked
          → Safe n z p ((decide n z p s peer checked).1)
      through (err e) c = safe
      through (ok device) c =
          held device (validate_peer_certificate-Belongs s peer certificate device c)
