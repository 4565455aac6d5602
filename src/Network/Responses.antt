-- ===== src/Network/Responses.antt =====
-- crates/sync/src/network.rs: what a node does with responses, and with the decision on an acceptance.
use chatcommons.Prelude.{
  ℕ, ◌==◌, Bool, true, false, not, ◌&&◌, ◌||◌, Option, none, some, List, [], ◌∷◌, length, is_empty,
  any, ltb, Result, ok, err, ◌>>=◌, ◌>>◌, fail_if, ok_or, map_err,
}
use chatcommons.Prelude.Sets
use chatcommons.Prelude.Maps
use chatcommons.Crypto.{Primitives}
use chatcommons.Protocol.{EventId, SignedEvent}
use chatcommons.Device.{AuthenticatedDevice, validate_device_certificate}
use chatcommons.Bootstrap.{possession_proof_bytes}
use chatcommons.Sync.{SyncMessage}
use chatcommons.Network.{
  Libp2p, Synchronizer, NetworkNode, NetworkError, NetworkResponse, NetworkEvent, RejectionCode,
  BootstrapTarget, PendingAcceptance, PeerId, auth, sync, rejected, bootstrap, authenticated,
  sync_messages, bootstrap_challenge, bootstrap_ancestry, bootstrap_accepted, not_authenticated,
  frame_limit, invalid_bootstrap, user_not_allowed, bootstrap_not_approved, sync_progress,
  max_messages_per_frame, max_bootstrap_ancestry_events,
}
use chatcommons.Network.Frames.{Outcome, and_then, deliver, send, normalize_messages}
use chatcommons.Network.Authentication.{targets, admit, maybe_start_sync}
use chatcommons.Network.Grants.{target_for, check_ancestry}

-- `filter(|target| target.peer == peer && target.endpoint_approved)`
abbrev pub approved_target : Option BootstrapTarget → PeerId → Option BootstrapTarget
approved_target none peer = none
approved_target (some target) peer = elim (target.peer == peer && target.endpoint_approved) [
  | true ↦ some target
  | false ↦ none
]

module _ (n : Libp2p) (z : Synchronizer) where
  -- Requests for the messages of one answer.
  unfoldable pub send_all : NetworkNode n z → PeerId → List SyncMessage → Outcome n z (Unit {0})
  send_all s peer [] = (ok tt, s)
  send_all s peer (message ∷ messages) =
      and_then n z (send n z s peer (sync message)) (λ _ s. send_all s peer messages)

  -- After `receive`, with its error or with what to send.
  abbrev pub forward :
      NetworkNode n z
      → Result z.SyncError (List SyncMessage) × z.Peer
      → Outcome n z (List SyncMessage)
  forward s (err e, peer) = (err (sync e), record s { sync = peer })
  forward s (ok messages, peer) =
      (map_err rejected (normalize_messages n.response_codec messages), record s { sync = peer })

  -- The loop over the messages of a response.
  unfoldable pub receive_all : NetworkNode n z → PeerId → List SyncMessage → Outcome n z (Unit {0})
  receive_all s peer [] = (ok tt, s)
  receive_all s peer (message ∷ messages) =
      and_then n z (forward s (z.receive s.sync message))
        (λ outgoing s. and_then n z (send_all s peer outgoing) (λ _ s. receive_all s peer messages))

  -- The guards before that loop.
  unfoldable pub check_sync :
      NetworkNode n z → PeerId → List SyncMessage → Result (NetworkError z) (Unit {0})
  check_sync s peer messages = do
    fail_if (not (Sets.contains peer s.authenticated)) (rejected not_authenticated)
    fail_if (ltb max_messages_per_frame (length messages)) (rejected frame_limit)

  -- With the target and the provisional device, which is taken out.
  abbrev pub accepted_with :
      NetworkNode n z
      → PeerId
      → Option BootstrapTarget
      → Option AuthenticatedDevice
      → Outcome n z NetworkEvent
  accepted_with s peer none device = (err bootstrap, s)
  accepted_with s peer (some target) none = (err bootstrap, s)
  accepted_with s peer (some target) (some device) =
      and_then n z
        (maybe_start_sync n z
          (admit n z
            (record s {
              provisional = Maps.remove peer s.provisional;
              allowed_users = Sets.insert device.user_id s.allowed_users;
              accepted_by_remote = Sets.insert peer s.accepted_by_remote;
            })
            peer device)
          peer)
        (λ _ s. (ok (bootstrap_accepted peer), s))

  -- The two cases of a rejection.
  abbrev pub refused : PeerId → RejectionCode → Bool → Result (NetworkError z) NetworkEvent
  refused peer user_not_allowed true = ok (sync_progress peer)
  refused peer reason _ = err (rejected reason)

  module _ (p : Primitives) where
    -- What the node asks its user to sign.
    unfoldable pub read_challenge :
        NetworkNode n z → PeerId → EventId → ℕ → Result (NetworkError z) NetworkEvent
    read_challenge s peer invitation nonce = do
      target ← ok_or (target_for s.bootstrap_target peer invitation) bootstrap
      local ← map_err auth (validate_device_certificate p s.certificate)
      ok (
          bootstrap_challenge peer invitation (
            possession_proof_bytes n.externals p (z.community s.sync) invitation local.user_id
              local.device_id (n.named (n.local_peer_id s.swarm)) (n.named peer) nonce))

    unfoldable pub read_ancestry :
        NetworkNode n z → PeerId → EventId → List SignedEvent → Result (NetworkError z) NetworkEvent
    read_ancestry s peer invitation ancestry = do
      target ← ok_or (target_for s.bootstrap_target peer invitation) bootstrap
      fail_if (is_empty ancestry || ltb max_bootstrap_ancestry_events (length ancestry))
          (rejected frame_limit)
      check_ancestry p (z.community s.sync) (rejected invalid_bootstrap) ancestry
      fail_if (not (any (λ e. e.event_id == invitation) ancestry)) (rejected invalid_bootstrap)
      ok (bootstrap_ancestry peer invitation ancestry)

    unfoldable pub handle_response :
        NetworkNode n z → PeerId → NetworkResponse → Outcome n z NetworkEvent
    handle_response s peer authenticated =
        and_then n z
          (maybe_start_sync n z
            (record s { accepted_by_remote = Sets.insert peer s.accepted_by_remote }) peer)
          (λ _ s. (ok (authenticated peer), s))
    handle_response s peer (sync_messages messages) =
        and_then n z (check_sync s peer messages, s)
          (λ _ s. and_then n z (receive_all s peer messages) (λ _ s. (ok (sync_progress peer), s)))
    handle_response s peer (bootstrap_challenge invitation nonce) =
        (read_challenge s peer invitation nonce, s)
    handle_response s peer (bootstrap_ancestry invitation ancestry) =
        (read_ancestry s peer invitation ancestry, s)
    handle_response s peer bootstrap_accepted =
        accepted_with s peer (approved_target s.bootstrap_target peer)
          (Maps.lookup peer s.provisional)
    handle_response s peer (rejected reason) =
        (refused peer reason (targets s.bootstrap_target peer), s)

  -- The node of an approved acceptance.
  abbrev pub approve_pending : NetworkNode n z → PeerId → PendingAcceptance n z → NetworkNode n z
  approve_pending s peer pending =
      admit n z
        (record s {
          bootstrap_grants = Maps.remove pending.invitation s.bootstrap_grants;
          allowed_users = Sets.insert pending.authenticated.user_id s.allowed_users;
        })
        peer pending.authenticated

  -- `send_response`, without the limit on frames.
  abbrev pub answer_pending :
      NetworkNode n z → PendingAcceptance n z → NetworkResponse → Outcome n z (Unit {0})
  answer_pending s pending response =
      deliver n z s (n.send_response s.swarm pending.channel response)

  -- With the pending acceptance, which is taken out.
  abbrev pub resolve_with :
      NetworkNode n z → PeerId → Bool → Option (PendingAcceptance n z) → Outcome n z (Unit {0})
  resolve_with s peer approved none = (err bootstrap, s)
  resolve_with s peer true (some pending) =
      and_then n z (answer_pending (approve_pending s peer pending) pending bootstrap_accepted)
        (λ _ s. maybe_start_sync n z s peer)
  resolve_with s peer false (some pending) =
      answer_pending s pending (rejected bootstrap_not_approved)

  unfoldable pub resolve_bootstrap_acceptance :
      NetworkNode n z → PeerId → Bool → Outcome n z (Unit {0})
  resolve_bootstrap_acceptance s peer approved =
      resolve_with (record s { pending_acceptances = Maps.remove peer s.pending_acceptances }) peer
        approved (Maps.lookup peer s.pending_acceptances)
