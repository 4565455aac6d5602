-- ===== src/Network/Quiet.antt =====
-- crates/sync/src/network.rs: `handle_request` for a peer that is not authenticated.
use chatcommons.Prelude.{
  ℕ, ◌≡◌, ◌≢◌, inl, inr, refl, false, Option, none, some, List, ok, err, Result, Bool-cases,
}
use chatcommons.Prelude.Bytes.{Bytes}
use chatcommons.Prelude.Sets
use chatcommons.Prelude.Maps
use chatcommons.Crypto.{Primitives}
use chatcommons.Protocol.{EventId}
use chatcommons.Device.{AuthenticatedDevice}
use chatcommons.Sync.{SyncMessage}
use chatcommons.Network.{
  Libp2p, Synchronizer, NetworkNode, NetworkRequest, NetworkResponse, RejectionCode, PeerId, full,
  provisional, AuthenticationState, BootstrapTarget, ProvedBootstrap, rejected, invalid_bootstrap,
  PendingChallenge, BootstrapGrant, sync, bootstrap_begin, bootstrap_prove, bootstrap_accept,
  sync_messages,
}
use chatcommons.Network
use chatcommons.Network.Authentication.{
  is_admitted, targets, validate_peer_certificate, decide, authenticate,
}
use chatcommons.Network.Requests.{
  answer_of, handle_request, handle_sync, begin_bootstrap, challenge, prove_bootstrap, prove_with,
  refutes,
}

module _ (n : Libp2p) (z : Synchronizer) (p : Primitives) where
  -- No sync messages, and the synchronization peer and the swarm as they were.
  abbrev pub IsQuiet : NetworkNode n z → NetworkResponse → NetworkNode n z → Type 0
  IsQuiet s response after =
      ((messages : List SyncMessage) → response ≢ sync_messages messages)
      × (after.sync ≡ s.sync)
      × (after.swarm ≡ s.swarm)

  decide-IsQuiet :
      (s : NetworkNode n z) (peer : PeerId) (checked : Result RejectionCode AuthenticatedDevice)
      → IsQuiet s
          ((answer_of ((decide n z p s peer checked).0)).0)
          ((decide n z p s peer checked).1)
  decide-IsQuiet s peer (err reason) = (λ messages e. cc, refl, refl)
  decide-IsQuiet s peer (ok d) =
      elim (Bool-cases (is_admitted s.allowed_users s.trusted_infrastructure_devices d)) [
        | inl t ↦ rw (decide, t) (λ messages e. cc, refl, refl)
        | inr f ↦ elim (Bool-cases (targets s.bootstrap_target peer)) [
          | inl t ↦ rw (decide, f, t) (λ messages e. cc, refl, refl)
          | inr g ↦ rw (decide, f, g) (λ messages e. cc, refl, refl)
        ]
      ]

  challenge-IsQuiet :
      (s : NetworkNode n z) (peer : PeerId) (invitation : EventId) (nonce : ℕ)
      (checked : Result RejectionCode AuthenticatedDevice)
      → IsQuiet s
          ((challenge n z p s peer invitation nonce checked).0)
          ((challenge n z p s peer invitation nonce checked).1)
  challenge-IsQuiet s peer invitation nonce (err reason) = (λ messages e. cc, refl, refl)
  challenge-IsQuiet s peer invitation nonce (ok d) =
      elim (Bool-cases (Maps.contains_key invitation s.bootstrap_grants)) [
        | inl t ↦ rw (challenge, t) (λ messages e. cc, refl, refl)
        | inr f ↦ rw (challenge, f) (λ messages e. cc, refl, refl)
      ]

  prove_with-IsQuiet :
      (s : NetworkNode n z) (peer : PeerId) (invitation : EventId) (signature : Bytes)
      (pending : Option PendingChallenge) (grant : Option BootstrapGrant)
      → IsQuiet s
          ((prove_with n z p s peer invitation signature pending grant).0)
          ((prove_with n z p s peer invitation signature pending grant).1)
  prove_with-IsQuiet s peer invitation signature none grant = (λ messages e. cc, refl, refl)
  prove_with-IsQuiet s peer invitation signature (some c) none = (λ messages e. cc, refl, refl)
  prove_with-IsQuiet s peer invitation signature (some c) (some g) =
      elim (Bool-cases (refutes n z p c g invitation signature)) [
        | inl t ↦ rw (prove_with, t) (λ messages e. cc, refl, refl)
        | inr f ↦ rw (prove_with, f) (λ messages e. cc, refl, refl)
      ]

  pub handle_request-IsQuiet :
      (s : NetworkNode n z) (peer : PeerId) (nonce : ℕ) (message : NetworkRequest)
      → Sets.contains peer s.authenticated ≡ false
      → IsQuiet s
          ((handle_request n z p s peer nonce message).0)
          ((handle_request n z p s peer nonce message).2)
  unfolding handle_request handle_sync authenticate begin_bootstrap prove_bootstrap
  handle_request-IsQuiet s peer nonce (Network.authenticate certificate) h =
      decide-IsQuiet s peer (validate_peer_certificate n z p s peer certificate)
  handle_request-IsQuiet s peer nonce (sync message) h =
      rw (handle_sync, h) (λ messages e. cc, refl, refl)
  handle_request-IsQuiet s peer nonce (bootstrap_begin certificate invitation) h =
      challenge-IsQuiet s peer invitation nonce (validate_peer_certificate n z p s peer certificate)
  handle_request-IsQuiet s peer nonce (bootstrap_prove invitation signature) h =
      prove_with-IsQuiet (record s { pending_challenges = Maps.remove peer s.pending_challenges })
        peer invitation signature (Maps.lookup peer s.pending_challenges)
        (Maps.lookup invitation s.bootstrap_grants)
  handle_request-IsQuiet s peer nonce (bootstrap_accept invitation acceptance) h =
      (λ messages e. cc, refl, refl)
