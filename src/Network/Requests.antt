-- ===== src/Network/Requests.antt =====
-- crates/sync/src/network.rs: what a node answers to the requests of its peers.
use chatcommons.Prelude.{
  ℕ, ◌==◌, Bool, true, false, not, ◌&&◌, ◌||◌, Option, none, some, List, length, any, eq_option,
  Result, ok, err,
}
use chatcommons.Prelude.Bytes.{Bytes}
use chatcommons.Prelude.Sets
use chatcommons.Prelude.Maps
use chatcommons.Crypto.{Primitives, CryptoError, UserId, signature_len, verify}
use chatcommons.Protocol.{EventId, SignedEvent, ProtocolError, validate_event, author_id}
use chatcommons.Device.{DeviceCertificate, AuthenticatedDevice}
use chatcommons.Bootstrap.{possession_proof_bytes}
use chatcommons.Sync.{SyncMessage, want}
use chatcommons.Network.{
  Libp2p, Synchronizer, NetworkNode, NetworkRequest, NetworkResponse, NetworkEvent, RejectionCode,
  AuthenticationState, BootstrapGrant, PendingChallenge, ProvedBootstrap, PeerId, full, provisional,
  authenticate, sync, bootstrap_begin, bootstrap_prove, bootstrap_accept, authenticated,
  sync_messages, bootstrap_challenge, bootstrap_ancestry, rejected, not_authenticated, invalid_sync,
  invalid_bootstrap, invitation_unavailable, frame_limit, sync_progress, bootstrap_acceptance,
}
use chatcommons.Network.Frames.{Outcome, and_then, respond, normalize_messages}
use chatcommons.Network.Authentication
use chatcommons.Network.Authentication.{
  validate_peer_certificate, maybe_start_sync, start_bootstrap,
}

-- `matches!(&message, Want { event_ids, .. } if event_ids.len() != 1)`
abbrev pub asks_several : SyncMessage → Bool
asks_several (want community ids) = not (length ids == 1)
asks_several _ = false

abbrev pub is_err : Result CryptoError (Unit {0}) → Bool
is_err (err e) = true
is_err (ok _) = false

-- `author_id(&acceptance).ok() == Some(user)`
abbrev pub is_author : Result ProtocolError UserId → UserId → Bool
is_author (err e) user = false
is_author (ok author) user = author == user

abbrev pub is_valid : Result ProtocolError (Unit {0}) → Bool
is_valid (err e) = false
is_valid (ok _) = true

-- The answer to an authentication.
abbrev pub answer_of :
    Result RejectionCode AuthenticationState → NetworkResponse × Option AuthenticationState
answer_of (err reason) = (rejected reason, none)
answer_of (ok state) = (authenticated, some state)

abbrev pub sync_answer : Result RejectionCode (List SyncMessage) → NetworkResponse
sync_answer (err reason) = rejected reason
sync_answer (ok messages) = sync_messages messages

module _ (n : Libp2p) (z : Synchronizer) where
  -- After `receive`: the `match` on its result.
  abbrev pub answer_sync :
      NetworkNode n z
      → Result z.SyncError (List SyncMessage) × z.Peer
      → NetworkResponse × NetworkNode n z
  answer_sync s (err e, peer) = (rejected invalid_sync, record s { sync = peer })
  answer_sync s (ok messages, peer) =
      (sync_answer (normalize_messages n.response_codec messages), record s { sync = peer })

  unfoldable pub handle_sync :
      NetworkNode n z → PeerId → SyncMessage → NetworkResponse × NetworkNode n z
  handle_sync s peer message = elim (Sets.contains peer s.authenticated) [
    | false ↦ (rejected not_authenticated, s)
    | true ↦ elim (asks_several message) [
      | true ↦ (rejected frame_limit, s)
      | false ↦ answer_sync s (z.receive s.sync message)
    ]
  ]

  module _ (p : Primitives) where
    -- What `begin_bootstrap` asks the peer to sign.
    abbrev pub challenge_bytes :
        NetworkNode n z → PeerId → EventId → AuthenticatedDevice → ℕ → Bytes
    challenge_bytes s peer invitation device nonce =
        possession_proof_bytes n.externals p (z.community s.sync) invitation device.user_id
          device.device_id (n.named peer) (n.named (n.local_peer_id s.swarm)) nonce

    -- With the device of the certificate; the nonce is what `OsRng` fills in.
    abbrev pub challenge :
        NetworkNode n z
        → PeerId
        → EventId
        → ℕ
        → Result RejectionCode AuthenticatedDevice
        → NetworkResponse × NetworkNode n z
    challenge s peer invitation nonce (err reason) = (rejected reason, s)
    challenge s peer invitation nonce (ok device) =
        elim (Maps.contains_key invitation s.bootstrap_grants) [
          | false ↦ (rejected invitation_unavailable, s)
          | true ↦ (
            bootstrap_challenge invitation nonce,
            record s {
              pending_challenges =
                  Maps.insert peer
                    (record {
                      invitation = invitation;
                      authenticated = device;
                      proof_bytes = challenge_bytes s peer invitation device nonce;
                    })
                    s.pending_challenges;
            },
          )
        ]

    unfoldable pub begin_bootstrap :
        NetworkNode n z
        → PeerId
        → DeviceCertificate
        → EventId
        → ℕ
        → NetworkResponse × NetworkNode n z
    begin_bootstrap s peer certificate invitation nonce =
        challenge s peer invitation nonce (validate_peer_certificate n z p s peer certificate)

    -- The test on a possession proof.
    abbrev pub refutes : PendingChallenge → BootstrapGrant → EventId → Bytes → Bool
    refutes pending grant invitation signature =
        not (pending.invitation == invitation)
        || not (length signature == signature_len)
        || is_err (verify p grant.capability_public_key pending.proof_bytes signature)

    -- With the pending challenge, which is taken out, and the grant.
    abbrev pub prove_with :
        NetworkNode n z
        → PeerId
        → EventId
        → Bytes
        → Option PendingChallenge
        → Option BootstrapGrant
        → NetworkResponse × NetworkNode n z
    prove_with s peer invitation signature none grant = (rejected invalid_bootstrap, s)
    prove_with s peer invitation signature (some pending) none =
        (rejected invitation_unavailable, s)
    prove_with s peer invitation signature (some pending) (some grant) =
        elim (refutes pending grant invitation signature) [
          | true ↦ (rejected invalid_bootstrap, s)
          | false ↦ (
            bootstrap_ancestry invitation grant.ancestry,
            record s {
              proved_bootstraps =
                  Maps.insert peer
                    (record { invitation = invitation; authenticated = pending.authenticated })
                    s.proved_bootstraps;
            },
          )
        ]

    unfoldable pub prove_bootstrap :
        NetworkNode n z → PeerId → EventId → Bytes → NetworkResponse × NetworkNode n z
    prove_bootstrap s peer invitation signature =
        prove_with (record s { pending_challenges = Maps.remove peer s.pending_challenges }) peer
          invitation signature (Maps.lookup peer s.pending_challenges)
          (Maps.lookup invitation s.bootstrap_grants)

    abbrev pub without_state :
        NetworkResponse × NetworkNode n z
        → NetworkResponse × Option AuthenticationState × NetworkNode n z
    without_state (response, s) = (response, none, s)

    abbrev pub with_answer :
        Result RejectionCode AuthenticationState × NetworkNode n z
        → NetworkResponse × Option AuthenticationState × NetworkNode n z
    with_answer (result, s) = let (response, state) = answer_of result in (response, state, s)

    -- With the nonce for a challenge.
    unfoldable pub handle_request :
        NetworkNode n z
        → PeerId
        → ℕ
        → NetworkRequest
        → NetworkResponse × Option AuthenticationState × NetworkNode n z
    handle_request s peer nonce (authenticate certificate) =
        with_answer (Authentication.authenticate n z p s peer certificate)
    handle_request s peer nonce (sync message) = without_state (handle_sync s peer message)
    handle_request s peer nonce (bootstrap_begin certificate invitation) =
        without_state (begin_bootstrap s peer certificate invitation nonce)
    handle_request s peer nonce (bootstrap_prove invitation signature) =
        without_state (prove_bootstrap s peer invitation signature)
    handle_request s peer nonce (bootstrap_accept invitation acceptance) =
        (rejected invalid_bootstrap, none, s)

    -- The test on an acceptance and the possession proof before it.
    abbrev pub is_acceptable : NetworkNode n z → EventId → SignedEvent → ProvedBootstrap → Bool
    is_acceptable s invitation acceptance proved =
        Maps.contains_key invitation s.bootstrap_grants
        && proved.invitation == invitation
        && eq_option acceptance.community_id (some (z.community s.sync))
        && any (λ parent. parent == invitation) acceptance.parents
        && is_valid (validate_event p acceptance)
        && is_author (author_id p acceptance) proved.authenticated.user_id

    -- `respond` with a rejection, and the event for it.
    abbrev pub refuse_acceptance :
        NetworkNode n z → PeerId → n.ResponseChannel → Outcome n z NetworkEvent
    refuse_acceptance s peer channel =
        and_then n z (respond n z s channel (rejected invalid_bootstrap))
          (λ _ s. (ok (sync_progress peer), s))

    -- With the proof, which is taken out.
    abbrev pub accept_with :
        NetworkNode n z
        → PeerId
        → EventId
        → SignedEvent
        → n.ResponseChannel
        → Option ProvedBootstrap
        → Outcome n z NetworkEvent
    accept_with s peer invitation acceptance channel none = refuse_acceptance s peer channel
    accept_with s peer invitation acceptance channel (some proved) =
        elim (is_acceptable s invitation acceptance proved
          && not (Maps.contains_key peer s.pending_acceptances)) [
            | false ↦ refuse_acceptance s peer channel
            | true ↦ (
              ok (bootstrap_acceptance peer proved.authenticated.user_id invitation acceptance),
              record s {
                pending_acceptances =
                    Maps.insert peer
                      (record {
                        invitation = invitation;
                        authenticated = proved.authenticated;
                        channel = channel;
                      })
                      s.pending_acceptances;
              },
            )
          ]

    unfoldable pub handle_bootstrap_acceptance :
        NetworkNode n z
        → PeerId
        → EventId
        → SignedEvent
        → n.ResponseChannel
        → Outcome n z NetworkEvent
    handle_bootstrap_acceptance s peer invitation acceptance channel =
        accept_with (record s { proved_bootstraps = Maps.remove peer s.proved_bootstraps }) peer
          invitation acceptance channel (Maps.lookup peer s.proved_bootstraps)

    -- What follows an authentication.
    abbrev pub follow_up :
        NetworkNode n z → PeerId → Option AuthenticationState → Outcome n z (Unit {0})
    follow_up s peer none = (ok tt, s)
    follow_up s peer (some full) = maybe_start_sync n z s peer
    follow_up s peer (some provisional) = start_bootstrap n z s peer

    abbrev pub event_for : PeerId → Option AuthenticationState → NetworkEvent
    event_for peer (some full) = authenticated peer
    event_for peer (some provisional) = sync_progress peer
    event_for peer none = sync_progress peer

    abbrev pub answer_request :
        PeerId
        → n.ResponseChannel
        → NetworkResponse × Option AuthenticationState × NetworkNode n z
        → Outcome n z NetworkEvent
    answer_request peer channel (response, state, s) =
        and_then n z (respond n z s channel response)
          (λ _ s. and_then n z (follow_up s peer state) (λ _ s. (ok (event_for peer state), s)))

    -- The case of a request in `handle_request_response`.
    unfoldable pub receive_request :
        NetworkNode n z → PeerId → ℕ → n.ResponseChannel → NetworkRequest → Outcome n z NetworkEvent
    receive_request s peer nonce channel (bootstrap_accept invitation acceptance) =
        handle_bootstrap_acceptance s peer invitation acceptance channel
    receive_request s peer nonce channel (authenticate certificate) =
        answer_request peer channel (handle_request s peer nonce (authenticate certificate))
    receive_request s peer nonce channel (sync message) =
        answer_request peer channel (handle_request s peer nonce (sync message))
    receive_request s peer nonce channel (bootstrap_begin certificate invitation) =
        answer_request peer channel
          (handle_request s peer nonce (bootstrap_begin certificate invitation))
    receive_request s peer nonce channel (bootstrap_prove invitation signature) =
        answer_request peer channel
          (handle_request s peer nonce (bootstrap_prove invitation signature))
