-- ===== src/Network/Safety/Requests.antt =====
-- crates/sync/src/network.rs: answering requests keeps the state safe.
use chatcommons.Prelude.{
  ℕ, ◌≡◌, inl, inr, refl, not, ◌&&◌, Option, none, some, List, ok, err, Result, Bool-cases,
}
use chatcommons.Prelude.Bytes.{Bytes}
use chatcommons.Prelude.Sets
use chatcommons.Prelude.Maps
use chatcommons.Prelude.Maps.{Map, Every, Every-insert, Every-remove, lookup}
use chatcommons.Crypto.{Primitives}
use chatcommons.Protocol.{EventId, SignedEvent}
use chatcommons.Device.{DeviceCertificate, AuthenticatedDevice}
use chatcommons.Sync.{SyncMessage}
use chatcommons.Network.{
  Libp2p, Synchronizer, NetworkNode, NetworkRequest, NetworkResponse, RejectionCode,
  AuthenticationState, PendingChallenge, ProvedBootstrap, BootstrapGrant, BootstrapTarget, PeerId,
  full, provisional, sync_progress, authenticate, sync, bootstrap_begin, bootstrap_prove,
  bootstrap_accept, rejected, invalid_bootstrap,
}
use chatcommons.Network.Frames.{respond}
use chatcommons.Network.Authentication.{
  validate_peer_certificate, start_bootstrap, begin_with, targeting,
}
use chatcommons.Network.Requests.{
  asks_several, answer_sync, handle_sync, challenge, begin_bootstrap, refutes, prove_with,
  prove_bootstrap, is_acceptable, refuse_acceptance, accept_with, handle_bootstrap_acceptance,
  follow_up, answer_request, handle_request, receive_request,
}
use chatcommons.Network.Safety.{
  Belongs, Safe, and_then-Safe, send-Safe, respond-Safe, maybe_start_sync-Safe,
}
use chatcommons.Network.Safety.Admission.{validate_peer_certificate-Belongs, authenticate-Safe}

module _ (n : Libp2p) (z : Synchronizer) (p : Primitives) where
  handle_sync-Safe :
      (s : NetworkNode n z) (peer : PeerId) (message : SyncMessage)
      → Safe n z p s
      → Safe n z p ((handle_sync n z s peer message).1)
  unfolding handle_sync
  handle_sync-Safe s peer message safe = elim (Bool-cases (Sets.contains peer s.authenticated)) [
    | inr f ↦ rw (handle_sync, f) safe
    | inl t ↦ elim (Bool-cases (asks_several message)) [
      | inl several ↦ rw (handle_sync, t, several) safe
      | inr one ↦ rw (handle_sync, t, one) (answered (z.receive s.sync message))
    ]
  ]
    where
      answered :
          (out : Result z.SyncError (List SyncMessage) × z.Peer)
          → Safe n z p ((answer_sync n z s out).1)
      answered (err e, peer) = safe
      answered (ok messages, peer) = safe

  begin_bootstrap-Safe :
      (s : NetworkNode n z) (peer : PeerId) (certificate : DeviceCertificate) (invitation : EventId)
      (nonce : ℕ)
      → Safe n z p s
      → Safe n z p ((begin_bootstrap n z p s peer certificate invitation nonce).1)
  unfolding begin_bootstrap
  begin_bootstrap-Safe s peer certificate invitation nonce safe =
      through (validate_peer_certificate n z p s peer certificate) refl
    where
      through :
          (checked : Result RejectionCode AuthenticatedDevice)
          → validate_peer_certificate n z p s peer certificate ≡ checked
          → Safe n z p ((challenge n z p s peer invitation nonce checked).1)
      through (err e) c = safe
      through (ok device) c = elim (Bool-cases (Maps.contains_key invitation s.bootstrap_grants)) [
        | inr f ↦ rw (challenge, f) safe
        | inl t ↦
            rw (challenge, t)
              (record {
                listed = safe.listed;
                admitted = safe.admitted;
                certified = safe.certified;
                provisionally = safe.provisionally;
                challenged =
                    Every-insert (λ peer c. Belongs n p s.revocations peer c.authenticated) peer _
                      s.pending_challenges
                      (validate_peer_certificate-Belongs n z p s peer certificate device c)
                      safe.challenged;
                proving = safe.proving;
                accepting = safe.accepting;
                reciprocal = safe.reciprocal;
              })
      ]

  -- A challenge, a proof or an acceptance that is taken out.
  take_challenge-Safe :
      (s : NetworkNode n z) (peer : PeerId)
      → Safe n z p s
      → Safe n z p (record s { pending_challenges = Maps.remove peer s.pending_challenges })
  take_challenge-Safe s peer safe = record {
    listed = safe.listed;
    admitted = safe.admitted;
    certified = safe.certified;
    provisionally = safe.provisionally;
    challenged =
        Every-remove (λ peer c. Belongs n p s.revocations peer c.authenticated) peer
          s.pending_challenges safe.challenged;
    proving = safe.proving;
    accepting = safe.accepting;
    reciprocal = safe.reciprocal;
  }

  take_proof-Safe :
      (s : NetworkNode n z) (peer : PeerId)
      → Safe n z p s
      → Safe n z p (record s { proved_bootstraps = Maps.remove peer s.proved_bootstraps })
  take_proof-Safe s peer safe = record {
    listed = safe.listed;
    admitted = safe.admitted;
    certified = safe.certified;
    provisionally = safe.provisionally;
    challenged = safe.challenged;
    proving =
        Every-remove (λ peer b. Belongs n p s.revocations peer b.authenticated) peer
          s.proved_bootstraps safe.proving;
    accepting = safe.accepting;
    reciprocal = safe.reciprocal;
  }

  -- With the pending challenge, which belongs to its peer.
  prove_with-Safe :
      (s : NetworkNode n z) (peer : PeerId) (invitation : EventId) (signature : Bytes)
      (pending : Option PendingChallenge) (grant : Option BootstrapGrant)
      → ((c : PendingChallenge) → pending ≡ some c → Belongs n p s.revocations peer c.authenticated)
      → Safe n z p s
      → Safe n z p ((prove_with n z p s peer invitation signature pending grant).1)
  prove_with-Safe s peer invitation signature none grant b safe = safe
  prove_with-Safe s peer invitation signature (some c) none b safe = safe
  prove_with-Safe s peer invitation signature (some c) (some grant) b safe =
      elim (Bool-cases (refutes n z p c grant invitation signature)) [
        | inl t ↦ rw (prove_with, t) safe
        | inr f ↦
            rw (prove_with, f)
              (record {
                listed = safe.listed;
                admitted = safe.admitted;
                certified = safe.certified;
                provisionally = safe.provisionally;
                challenged = safe.challenged;
                proving =
                    Every-insert (λ peer b. Belongs n p s.revocations peer b.authenticated) peer _
                      s.proved_bootstraps (b c refl) safe.proving;
                accepting = safe.accepting;
                reciprocal = safe.reciprocal;
              })
      ]

  prove_bootstrap-Safe :
      (s : NetworkNode n z) (peer : PeerId) (invitation : EventId) (signature : Bytes)
      → Safe n z p s
      → Safe n z p ((prove_bootstrap n z p s peer invitation signature).1)
  unfolding prove_bootstrap
  prove_bootstrap-Safe s peer invitation signature safe =
      prove_with-Safe (record s { pending_challenges = Maps.remove peer s.pending_challenges }) peer
        invitation signature (lookup peer s.pending_challenges)
        (lookup invitation s.bootstrap_grants) (λ c l. safe.challenged peer c l)
        (take_challenge-Safe s peer safe)

  refuse_acceptance-Safe :
      (s : NetworkNode n z) (peer : PeerId) (channel : n.ResponseChannel)
      → Safe n z p s
      → Safe n z p ((refuse_acceptance n z p s peer channel).1)
  refuse_acceptance-Safe s peer channel safe =
      and_then-Safe n z p (respond n z s channel (rejected invalid_bootstrap))
        (λ _ s. (ok (sync_progress peer), s))
        (respond-Safe n z p s channel (rejected invalid_bootstrap) safe) (λ _ s safe. safe)

  accept_with-Safe :
      (s : NetworkNode n z) (peer : PeerId) (invitation : EventId) (acceptance : SignedEvent)
      (channel : n.ResponseChannel) (proved : Option ProvedBootstrap)
      → ((b : ProvedBootstrap) → proved ≡ some b → Belongs n p s.revocations peer b.authenticated)
      → Safe n z p s
      → Safe n z p ((accept_with n z p s peer invitation acceptance channel proved).1)
  accept_with-Safe s peer invitation acceptance channel none b safe =
      refuse_acceptance-Safe s peer channel safe
  accept_with-Safe s peer invitation acceptance channel (some proved) b safe =
      elim (Bool-cases (
        is_acceptable n z p s invitation acceptance proved
        && not (Maps.contains_key peer s.pending_acceptances))) [
          | inr f ↦ rw (accept_with, f) (refuse_acceptance-Safe s peer channel safe)
          | inl t ↦
              rw (accept_with, t)
                (record {
                  listed = safe.listed;
                  admitted = safe.admitted;
                  certified = safe.certified;
                  provisionally = safe.provisionally;
                  challenged = safe.challenged;
                  proving = safe.proving;
                  accepting =
                      Every-insert (λ peer a. Belongs n p s.revocations peer a.authenticated) peer _
                        s.pending_acceptances (b proved refl) safe.accepting;
                  reciprocal = safe.reciprocal;
                })
        ]

  handle_bootstrap_acceptance-Safe :
      (s : NetworkNode n z) (peer : PeerId) (invitation : EventId) (acceptance : SignedEvent)
      (channel : n.ResponseChannel)
      → Safe n z p s
      → Safe n z p ((handle_bootstrap_acceptance n z p s peer invitation acceptance channel).1)
  unfolding handle_bootstrap_acceptance
  handle_bootstrap_acceptance-Safe s peer invitation acceptance channel safe =
      accept_with-Safe (record s { proved_bootstraps = Maps.remove peer s.proved_bootstraps }) peer
        invitation acceptance channel (lookup peer s.proved_bootstraps)
        (λ b l. safe.proving peer b l) (take_proof-Safe s peer safe)

  handle_request-Safe :
      (s : NetworkNode n z) (peer : PeerId) (nonce : ℕ) (message : NetworkRequest)
      → Safe n z p s
      → Safe n z p ((handle_request n z p s peer nonce message).2)
  unfolding handle_request
  handle_request-Safe s peer nonce (authenticate certificate) safe =
      authenticate-Safe n z p s peer certificate safe
  handle_request-Safe s peer nonce (sync message) safe = handle_sync-Safe s peer message safe
  handle_request-Safe s peer nonce (bootstrap_begin certificate invitation) safe =
      begin_bootstrap-Safe s peer certificate invitation nonce safe
  handle_request-Safe s peer nonce (bootstrap_prove invitation signature) safe =
      prove_bootstrap-Safe s peer invitation signature safe
  handle_request-Safe s peer nonce (bootstrap_accept invitation acceptance) safe = safe

  start_bootstrap-Safe :
      (s : NetworkNode n z) (peer : PeerId)
      → Safe n z p s
      → Safe n z p ((start_bootstrap n z s peer).1)
  unfolding start_bootstrap
  start_bootstrap-Safe s peer safe = by_target (targeting s.bootstrap_target peer)
    where
      by_target : (target : Option BootstrapTarget) → Safe n z p ((begin_with n z s peer target).1)
      by_target none = safe
      by_target (some target) =
          send-Safe n z p s peer (bootstrap_begin s.certificate target.invitation) safe

  follow_up-Safe :
      (s : NetworkNode n z) (peer : PeerId) (state : Option AuthenticationState)
      → Safe n z p s
      → Safe n z p ((follow_up n z p s peer state).1)
  follow_up-Safe s peer none safe = safe
  follow_up-Safe s peer (some full) safe = maybe_start_sync-Safe n z p s peer safe
  follow_up-Safe s peer (some provisional) safe = start_bootstrap-Safe s peer safe

  answer_request-Safe :
      (peer : PeerId) (channel : n.ResponseChannel)
      (out : NetworkResponse × Option AuthenticationState × NetworkNode n z)
      → Safe n z p out.2
      → Safe n z p ((answer_request n z p peer channel out).1)
  answer_request-Safe peer channel (response, state, s) safe =
      and_then-Safe n z p (respond n z s channel response) _
        (respond-Safe n z p s channel response safe)
        (λ _ s safe.
          and_then-Safe n z p (follow_up n z p s peer state) _ (follow_up-Safe s peer state safe)
            (λ _ s safe. safe))

  pub receive_request-Safe :
      (s : NetworkNode n z) (peer : PeerId) (nonce : ℕ) (channel : n.ResponseChannel)
      (message : NetworkRequest)
      → Safe n z p s
      → Safe n z p ((receive_request n z p s peer nonce channel message).1)
  unfolding receive_request
  receive_request-Safe s peer nonce channel (bootstrap_accept invitation acceptance) safe =
      handle_bootstrap_acceptance-Safe s peer invitation acceptance channel safe
  receive_request-Safe s peer nonce channel (authenticate certificate) safe =
      answer_request-Safe peer channel _
        (handle_request-Safe s peer nonce (authenticate certificate) safe)
  receive_request-Safe s peer nonce channel (sync message) safe =
      answer_request-Safe peer channel _ (handle_request-Safe s peer nonce (sync message) safe)
  receive_request-Safe s peer nonce channel (bootstrap_begin certificate invitation) safe =
      answer_request-Safe peer channel _
        (handle_request-Safe s peer nonce (bootstrap_begin certificate invitation) safe)
  receive_request-Safe s peer nonce channel (bootstrap_prove invitation signature) safe =
      answer_request-Safe peer channel _
        (handle_request-Safe s peer nonce (bootstrap_prove invitation signature) safe)
