-- ===== src/Network/Safety/Grants.antt =====
-- crates/sync/src/network.rs: the operations on invitations keep the state safe.
use chatcommons.Prelude.{
  ◌≡◌, refl, inl, inr, Option, none, some, List, [], Result, ok, err, Bool-cases, Option-cases,
}
use chatcommons.Prelude.Bytes.{Bytes}
use chatcommons.Prelude.Maps.{Map, contains_key}
use chatcommons.Crypto.{Primitives}
use chatcommons.Protocol.{EventId, SignedEvent}
use chatcommons.Network.{
  Libp2p, Synchronizer, NetworkNode, NetworkError, BootstrapGrant, BootstrapTarget, PeerId,
  bootstrap_prove, bootstrap_accept,
}
use chatcommons.Network.Authentication.{targeting}
use chatcommons.Network.Grants
use chatcommons.Network.Grants.{
  approve_endpoint, check_proof, check_acceptance, validate_bootstrap_grant, collect_grants,
}
use chatcommons.Network.Frames.{Outcome, and_then}
use chatcommons.Network.Safety.{Safe, and_then-Safe, send-Safe}

module _ (n : Libp2p) (z : Synchronizer) (p : Primitives) where
  -- The operations on grants and targets change neither peers nor devices.
  pub register_bootstrap_grant-Safe :
      (s : NetworkNode n z) (grant : BootstrapGrant)
      → Safe n z p s
      → Safe n z p ((Grants.register_bootstrap_grant n z p s grant).1)
  unfolding Grants.register_bootstrap_grant
  register_bootstrap_grant-Safe s grant safe =
      and_then-Safe n z p (validate_bootstrap_grant n z p s grant, s) _ safe (λ _ s safe. safe)

  pub replace_bootstrap_grants-Safe :
      (s : NetworkNode n z) (grants : List BootstrapGrant)
      → Safe n z p s
      → Safe n z p ((Grants.replace_bootstrap_grants n z p s grants).1)
  unfolding Grants.replace_bootstrap_grants
  replace_bootstrap_grants-Safe s grants safe =
      and_then-Safe n z p (collect_grants n z p s [] grants, s) _ safe (λ _ s safe. safe)

  pub replace_bootstrap_grants_keeps :
      (s : NetworkNode n z) (grants : List BootstrapGrant)
      → ((Grants.replace_bootstrap_grants n z p s grants).1.allowed_users ≡ s.allowed_users)
        × ((Grants.replace_bootstrap_grants n z p s grants).1.trusted_infrastructure_devices
            ≡ s.trusted_infrastructure_devices)
  unfolding Grants.replace_bootstrap_grants
  replace_bootstrap_grants_keeps s grants = by_grants (collect_grants n z p s [] grants)
    where
      out : Result (NetworkError z) (Map BootstrapGrant) → Outcome n z (Unit {0})
      out collected =
          and_then n z (collected, s)
            (λ replacement s. (ok tt, record s { bootstrap_grants = replacement }))

      by_grants :
          (collected : Result (NetworkError z) (Map BootstrapGrant))
          → ((out collected).1.allowed_users ≡ s.allowed_users)
            × ((out collected).1.trusted_infrastructure_devices ≡ s.trusted_infrastructure_devices)
      by_grants (err e) = (refl, refl)
      by_grants (ok replacement) = (refl, refl)

  pub configure_bootstrap_target-Safe :
      (s : NetworkNode n z) (peer : PeerId) (invitation : EventId)
      → Safe n z p s
      → Safe n z p ((Grants.configure_bootstrap_target n z s peer invitation).1)
  unfolding Grants.configure_bootstrap_target
  configure_bootstrap_target-Safe s peer invitation safe = elim (Option-cases s.bootstrap_target) [
    | inl e ↦ rw (Grants.configure_bootstrap_target, e) safe
    | inr (target, e) ↦ rw (Grants.configure_bootstrap_target, e) safe
  ]

  pub approve_bootstrap_endpoint-Safe :
      (s : NetworkNode n z) (peer : PeerId)
      → Safe n z p s
      → Safe n z p ((Grants.approve_bootstrap_endpoint n z s peer).1)
  unfolding Grants.approve_bootstrap_endpoint
  approve_bootstrap_endpoint-Safe s peer safe = by_target (targeting s.bootstrap_target peer)
    where
      by_target :
          (target : Option BootstrapTarget) → Safe n z p ((approve_endpoint n z s peer target).1)
      by_target none = safe
      by_target (some target) = elim (Bool-cases (contains_key peer s.provisional)) [
        | inl t ↦ rw (approve_endpoint, t) safe
        | inr f ↦ rw (approve_endpoint, f) safe
      ]

  pub submit_bootstrap_proof-Safe :
      (s : NetworkNode n z) (peer : PeerId) (invitation : EventId) (signature : Bytes)
      → Safe n z p s
      → Safe n z p ((Grants.submit_bootstrap_proof n z s peer invitation signature).1)
  unfolding Grants.submit_bootstrap_proof
  submit_bootstrap_proof-Safe s peer invitation signature safe =
      and_then-Safe n z p (check_proof n z s peer invitation signature, s) _ safe
        (λ _ s safe. send-Safe n z p s peer (bootstrap_prove invitation signature) safe)

  pub submit_bootstrap_acceptance-Safe :
      (s : NetworkNode n z) (peer : PeerId) (invitation : EventId) (acceptance : SignedEvent)
      → Safe n z p s
      → Safe n z p ((Grants.submit_bootstrap_acceptance n z p s peer invitation acceptance).1)
  unfolding Grants.submit_bootstrap_acceptance
  submit_bootstrap_acceptance-Safe s peer invitation acceptance safe =
      and_then-Safe n z p (check_acceptance n z p s peer invitation acceptance, s) _ safe
        (λ _ s safe. send-Safe n z p s peer (bootstrap_accept invitation acceptance) safe)
