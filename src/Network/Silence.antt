-- ===== src/Network/Silence.antt =====
-- crates/sync/src/network.rs: what a node does for a peer that it has not authenticated.
use chatcommons.Prelude.{
  ℕ, ◌≡◌, ◌≢◌, ◌⊎◌, inl, inr, refl, false, ◌&&◌, not, Option, none, some, List, ap, sym, subst, ok,
  err, Result-cases, Bool-cases,
}
use chatcommons.Prelude.Sets
use chatcommons.Prelude.Maps
use chatcommons.Crypto.{Primitives}
use chatcommons.Protocol.{EventId, SignedEvent}
use chatcommons.Device.{DeviceCertificate}
use chatcommons.Sync.{SyncMessage}
use chatcommons.Network.{
  Libp2p, Synchronizer, NetworkNode, NetworkRequest, NetworkResponse, RejectionCode, PeerId, full,
  provisional, AuthenticationState, BootstrapTarget, ProvedBootstrap, rejected, invalid_bootstrap,
  PendingChallenge, BootstrapGrant, sync, bootstrap_begin, bootstrap_prove, bootstrap_accept,
  sync_messages,
}
use chatcommons.Network
use chatcommons.Network.Frames.{Outcome, and_then, check_frame, respond, send}
use chatcommons.Network.Authentication.{maybe_start_sync, start_bootstrap, begin_with, targeting}
use chatcommons.Network.Requests.{
  follow_up, answer_request, accept_with, refuse_acceptance, is_acceptable, receive_request,
  handle_bootstrap_acceptance,
}
use chatcommons.Network.Quiet.{IsQuiet, handle_request-IsQuiet}

module _ (n : Libp2p) (z : Synchronizer) where
  -- A greeting or the start of a bootstrap.
  abbrev pub IsOpening : SyncMessage → NetworkRequest → Type 0
  IsOpening greeting message =
      (message ≡ sync greeting)
      ⊎ ((certificate : DeviceCertificate) × (invitation : EventId) × (message
            ≡ bootstrap_begin certificate invitation))

  -- What becomes of a swarm that only sends openings to a peer and answers on its channel that are no
  -- sync messages.
  pub data Silent (greeting : SyncMessage) (peer : PeerId) (channel : n.ResponseChannel)
      (w : n.Swarm) : n.Swarm → Type 0 where
    still : Silent greeting peer channel w w
    opens :
        {v : n.Swarm} (message : NetworkRequest)
        → IsOpening greeting message
        → Silent greeting peer channel w v
        → Silent greeting peer channel w (n.send_request v peer message)
    answers :
        {v : n.Swarm} (response : NetworkResponse)
        → ((messages : List SyncMessage) → response ≢ sync_messages messages)
        → Silent greeting peer channel w v
        → Silent greeting peer channel w ((n.send_response v channel response).1)

  -- The synchronization peer as it was, and a silent swarm.
  abbrev pub StaysSilent : PeerId → n.ResponseChannel → NetworkNode n z → NetworkNode n z → Type 0
  StaysSilent peer channel s after =
      (after.sync ≡ s.sync) × Silent (z.hello s.sync) peer channel s.swarm after.swarm

module _ (n : Libp2p) (z : Synchronizer) (p : Primitives) where
  silent_respond :
      (s t : NetworkNode n z) (peer : PeerId) (channel : n.ResponseChannel) (r : NetworkResponse)
      → ((messages : List SyncMessage) → r ≢ sync_messages messages)
      → StaysSilent n z peer channel s t
      → StaysSilent n z peer channel s ((respond n z t channel r).1)
  unfolding respond
  silent_respond s t peer channel r no_messages (same, w) =
      elim (Result-cases (check_frame n z (n.response_codec.to_vec r))) [
        | inl (e, f) ↦ rw (respond, f) (same, w)
        | inr (u, f) ↦ rw (respond, f) (same, answers r no_messages w)
      ]

  silent_send :
      (s t : NetworkNode n z) (peer : PeerId) (channel : n.ResponseChannel) (m : NetworkRequest)
      → IsOpening n z (z.hello s.sync) m
      → StaysSilent n z peer channel s t
      → StaysSilent n z peer channel s ((send n z t peer m).1)
  unfolding send
  silent_send s t peer channel m opening (same, w) =
      elim (Result-cases (check_frame n z (n.request_codec.to_vec m))) [
        | inl (e, f) ↦ rw (send, f) (same, w)
        | inr (u, f) ↦ rw (send, f) (same, opens m opening w)
      ]

  silent_then :
      {A B : Type 0} (s : NetworkNode n z) (peer : PeerId) (channel : n.ResponseChannel)
      (out : Outcome n z A) (next : A → NetworkNode n z → Outcome n z B)
      → StaysSilent n z peer channel s out.1
      → ((a : A) (t : NetworkNode n z)
          → StaysSilent n z peer channel s t
          → StaysSilent n z peer channel s ((next a t).1))
      → StaysSilent n z peer channel s ((and_then n z out next).1)
  silent_then s peer channel (err e, t) next here later = here
  silent_then s peer channel (ok a, t) next here later = later a t here

  follow_up_silent :
      (s t : NetworkNode n z) (peer : PeerId) (channel : n.ResponseChannel)
      (state : Option AuthenticationState)
      → StaysSilent n z peer channel s t
      → StaysSilent n z peer channel s ((follow_up n z p t peer state).1)
  unfolding maybe_start_sync start_bootstrap
  follow_up_silent s t peer channel none h = h
  follow_up_silent s t peer channel (some full) (same, w) =
      elim (Bool-cases (
        Sets.contains peer t.authenticated
        && Sets.contains peer t.accepted_by_remote
        && not (Sets.contains peer t.sync_started))) [
          | inl holds ↦
              rw (maybe_start_sync, holds)
                (silent_send s (record t { sync_started = Sets.insert peer t.sync_started }) peer
                  channel (sync (z.hello t.sync)) (inl (ap (λ x. sync (z.hello x)) same)) (same, w))
          | inr fails ↦ rw (maybe_start_sync, fails) (same, w)
        ]
  follow_up_silent s t peer channel (some provisional) h =
      by_target (targeting t.bootstrap_target peer)
    where
      by_target :
          (target : Option BootstrapTarget)
          → StaysSilent n z peer channel s ((begin_with n z t peer target).1)
      by_target none = h
      by_target (some target) =
          silent_send s t peer channel (bootstrap_begin t.certificate target.invitation)
            (inr (t.certificate, target.invitation, refl)) h

  answer_request_silent :
      (s : NetworkNode n z) (peer : PeerId) (channel : n.ResponseChannel)
      (answer : NetworkResponse × Option AuthenticationState × NetworkNode n z)
      → IsQuiet n z p s answer.0 answer.2
      → StaysSilent n z peer channel s ((answer_request n z p peer channel answer).1)
  answer_request_silent s peer channel (r, state, t) (no_messages, same, swarm) =
      silent_then s peer channel (respond n z t channel r) _
        (silent_respond s t peer channel r no_messages
          (same, subst (λ v. Silent n z (z.hello s.sync) peer channel s.swarm v) (sym swarm) still))
        (λ _ t h.
          silent_then s peer channel (follow_up n z p t peer state) _
            (follow_up_silent s t peer channel state h) (λ _ t h. h))

  acceptance_silent :
      (s t : NetworkNode n z) (peer : PeerId) (invitation : EventId) (acceptance : SignedEvent)
      (channel : n.ResponseChannel) (proved : Option ProvedBootstrap)
      → StaysSilent n z peer channel s t
      → StaysSilent n z peer channel s
          ((accept_with n z p t peer invitation acceptance channel proved).1)
  acceptance_silent s t peer invitation acceptance channel proved h = by_proof proved
    where
      refused : StaysSilent n z peer channel s ((refuse_acceptance n z p t peer channel).1)
      refused =
          silent_then s peer channel (respond n z t channel (rejected invalid_bootstrap)) _
            (silent_respond s t peer channel (rejected invalid_bootstrap) (λ messages e. cc) h)
            (λ _ t h. h)

      by_proof :
          (proved : Option ProvedBootstrap)
          → StaysSilent n z peer channel s
              ((accept_with n z p t peer invitation acceptance channel proved).1)
      by_proof none = refused
      by_proof (some proved) =
          elim (Bool-cases (
            is_acceptable n z p t invitation acceptance proved
            && not (Maps.contains_key peer t.pending_acceptances))) [
              | inl holds ↦ rw (accept_with, holds) h
              | inr fails ↦ rw (accept_with, fails) refused
            ]

  -- Whatever a peer requests that is not authenticated: the node's synchronization peer, and with it all
  -- events of the community, stays as it was, and the node sends nothing but answers on the channel of
  -- the request that are no sync messages and, to this peer, the greeting or the start of a bootstrap.
  pub receive_request_unauthenticated :
      (s : NetworkNode n z) (peer : PeerId) (nonce : ℕ) (channel : n.ResponseChannel)
      (message : NetworkRequest)
      → Sets.contains peer s.authenticated ≡ false
      → StaysSilent n z peer channel s ((receive_request n z p s peer nonce channel message).1)
  unfolding receive_request handle_bootstrap_acceptance
  receive_request_unauthenticated s peer nonce channel (bootstrap_accept invitation acceptance) h =
      acceptance_silent s (record s { proved_bootstraps = Maps.remove peer s.proved_bootstraps })
        peer invitation acceptance channel (Maps.lookup peer s.proved_bootstraps) (refl, still)
  receive_request_unauthenticated s peer nonce channel (Network.authenticate certificate) h =
      answer_request_silent s peer channel _
        (handle_request-IsQuiet n z p s peer nonce (Network.authenticate certificate) h)
  receive_request_unauthenticated s peer nonce channel (sync message) h =
      answer_request_silent s peer channel _
        (handle_request-IsQuiet n z p s peer nonce (sync message) h)
  receive_request_unauthenticated s peer nonce channel (bootstrap_begin certificate invitation) h =
      answer_request_silent s peer channel _
        (handle_request-IsQuiet n z p s peer nonce (bootstrap_begin certificate invitation) h)
  receive_request_unauthenticated s peer nonce channel (bootstrap_prove invitation signature) h =
      answer_request_silent s peer channel _
        (handle_request-IsQuiet n z p s peer nonce (bootstrap_prove invitation signature) h)
