-- ===== src/Network/Safety/Responses.antt =====
-- crates/sync/src/network.rs: responses and the decision on an acceptance keep the state safe.
use chatcommons.Prelude.{
  ◌≡◌, refl, true, false, Bool, Option, none, some, List, [], ◌∷◌, arith, ok, err, Result,
}
use chatcommons.Prelude.Sets
use chatcommons.Prelude.Sets.{contains-insert}
use chatcommons.Prelude.Maps
use chatcommons.Prelude.Maps.{Every-remove, lookup}
use chatcommons.Crypto.{Primitives, UserId}
use chatcommons.Device.{AuthenticatedDevice}
use chatcommons.Sync.{SyncMessage}
use chatcommons.Network.{
  Libp2p, Synchronizer, NetworkNode, NetworkResponse, BootstrapTarget, PendingAcceptance, PeerId,
  sync, authenticated, sync_messages, bootstrap_challenge, bootstrap_ancestry, bootstrap_accepted,
  rejected, bootstrap_not_approved,
}
use chatcommons.Network.Frames.{send}
use chatcommons.Network.Authentication.{is_admitted, admit, maybe_start_sync}
use chatcommons.Network.Responses.{
  approved_target, send_all, forward, receive_all, check_sync, accepted_with, handle_response,
  approve_pending, answer_pending, resolve_with, resolve_bootstrap_acceptance,
}
use chatcommons.Network.Safety.{
  Belongs, Safe, weaken, and_then-Safe, send-Safe, deliver-Safe, admit-Safe, maybe_start_sync-Safe,
}

module _ (n : Libp2p) (z : Synchronizer) (p : Primitives) where
  -- One user more may synchronize.
  allow-Safe :
      (s : NetworkNode n z) (user : UserId)
      → Safe n z p s
      → Safe n z p (record s { allowed_users = Sets.insert user s.allowed_users })
  allow-Safe s user safe =
      weaken n z p (λ peer d. is_admitted s.allowed_users s.trusted_infrastructure_devices d ≡ true)
        _ s (λ peer d h. ground (arith, h, contains-insert d.user_id user s.allowed_users)) safe

  accept-Safe :
      (s : NetworkNode n z) (peer : PeerId)
      → Safe n z p s
      → Safe n z p (record s { accepted_by_remote = Sets.insert peer s.accepted_by_remote })
  accept-Safe s peer safe = record {
    listed = safe.listed;
    admitted = safe.admitted;
    certified = safe.certified;
    provisionally = safe.provisionally;
    challenged = safe.challenged;
    proving = safe.proving;
    accepting = safe.accepting;
    reciprocal =
        λ j h. ground (arith, safe.reciprocal j h, contains-insert j peer s.accepted_by_remote);
  }

  send_all-Safe :
      (s : NetworkNode n z) (peer : PeerId) (messages : List SyncMessage)
      → Safe n z p s
      → Safe n z p ((send_all n z s peer messages).1)
  unfolding send_all
  send_all-Safe s peer [] safe = safe
  send_all-Safe s peer (message ∷ messages) safe =
      and_then-Safe n z p (send n z s peer (sync message)) _
        (send-Safe n z p s peer (sync message) safe)
        (λ _ s safe. send_all-Safe s peer messages safe)

  forward-Safe :
      (s : NetworkNode n z) (out : Result z.SyncError (List SyncMessage) × z.Peer)
      → Safe n z p s
      → Safe n z p ((forward n z s out).1)
  forward-Safe s (err e, peer) safe = safe
  forward-Safe s (ok messages, peer) safe = safe

  receive_all-Safe :
      (s : NetworkNode n z) (peer : PeerId) (messages : List SyncMessage)
      → Safe n z p s
      → Safe n z p ((receive_all n z s peer messages).1)
  unfolding receive_all
  receive_all-Safe s peer [] safe = safe
  receive_all-Safe s peer (message ∷ messages) safe =
      and_then-Safe n z p (forward n z s (z.receive s.sync message)) _
        (forward-Safe s (z.receive s.sync message) safe)
        (λ outgoing s safe.
          and_then-Safe n z p (send_all n z s peer outgoing) _ (send_all-Safe s peer outgoing safe)
            (λ _ s safe. receive_all-Safe s peer messages safe))

  -- The device that an approved endpoint presented becomes authenticated.
  accepted_with-Safe :
      (s : NetworkNode n z) (peer : PeerId) (target : Option BootstrapTarget)
      (device : Option AuthenticatedDevice)
      → ((d : AuthenticatedDevice) → device ≡ some d → Belongs n p s.revocations peer d)
      → Safe n z p s
      → Safe n z p ((accepted_with n z s peer target device).1)
  accepted_with-Safe s peer none device b safe = safe
  accepted_with-Safe s peer (some target) none b safe = safe
  accepted_with-Safe s peer (some target) (some device) b safe =
      let s' : NetworkNode n z = record s {
        provisional = Maps.remove peer s.provisional;
        allowed_users = Sets.insert device.user_id s.allowed_users;
        accepted_by_remote = Sets.insert peer s.accepted_by_remote;
      } in
      and_then-Safe n z p (maybe_start_sync n z (admit n z s' peer device) peer) _
        (maybe_start_sync-Safe n z p (admit n z s' peer device) peer (
          admit-Safe n z p s' peer device
            (ground (arith, contains-insert device.user_id device.user_id s.allowed_users))
            (b device refl) (enlarged device)))
        (λ _ s safe. safe)
    where
      enlarged :
          (device : AuthenticatedDevice)
          → Safe n z p (record s {
            provisional = Maps.remove peer s.provisional;
            allowed_users = Sets.insert device.user_id s.allowed_users;
            accepted_by_remote = Sets.insert peer s.accepted_by_remote;
          })
      enlarged device =
          let safe' =
            accept-Safe (record s { allowed_users = Sets.insert device.user_id s.allowed_users })
              peer (allow-Safe s device.user_id safe) in
          record {
            listed = safe'.listed;
            admitted = safe'.admitted;
            certified = safe'.certified;
            provisionally =
                Every-remove (Belongs n p s.revocations) peer s.provisional safe.provisionally;
            challenged = safe'.challenged;
            proving = safe'.proving;
            accepting = safe'.accepting;
            reciprocal = safe'.reciprocal;
          }

  pub handle_response-Safe :
      (s : NetworkNode n z) (peer : PeerId) (message : NetworkResponse)
      → Safe n z p s
      → Safe n z p ((handle_response n z p s peer message).1)
  unfolding handle_response
  handle_response-Safe s peer authenticated safe =
      let s' : NetworkNode n z = record s {
        accepted_by_remote = Sets.insert peer s.accepted_by_remote;
      } in
      and_then-Safe n z p (maybe_start_sync n z s' peer) _
        (maybe_start_sync-Safe n z p s' peer (accept-Safe s peer safe)) (λ _ s safe. safe)
  handle_response-Safe s peer (sync_messages messages) safe =
      and_then-Safe n z p (check_sync n z s peer messages, s) _ safe
        (λ _ s safe.
          and_then-Safe n z p (receive_all n z s peer messages) _
            (receive_all-Safe s peer messages safe) (λ _ s safe. safe))
  handle_response-Safe s peer (bootstrap_challenge invitation nonce) safe = safe
  handle_response-Safe s peer (bootstrap_ancestry invitation ancestry) safe = safe
  handle_response-Safe s peer bootstrap_accepted safe =
      accepted_with-Safe s peer (approved_target s.bootstrap_target peer)
        (lookup peer s.provisional) (λ d l. safe.provisionally peer d l) safe
  handle_response-Safe s peer (rejected reason) safe = safe

  -- An approved acceptance becomes an authenticated device.
  resolve_with-Safe :
      (s : NetworkNode n z) (peer : PeerId) (approved : Bool)
      (pending : Option (PendingAcceptance n z))
      → ((a : PendingAcceptance n z)
          → pending ≡ some a
          → Belongs n p s.revocations peer a.authenticated)
      → Safe n z p s
      → Safe n z p ((resolve_with n z s peer approved pending).1)
  resolve_with-Safe s peer approved none b safe = safe
  resolve_with-Safe s peer false (some pending) b safe =
      deliver-Safe n z p s
        (n.send_response s.swarm pending.channel (rejected bootstrap_not_approved)) safe
  resolve_with-Safe s peer true (some pending) b safe =
      let device = pending.authenticated in
      and_then-Safe n z p
        (answer_pending n z (approve_pending n z s peer pending) pending bootstrap_accepted) _
        (deliver-Safe n z p (approve_pending n z s peer pending)
          (n.send_response s.swarm pending.channel bootstrap_accepted)
          (admit-Safe n z p
            (record s {
              bootstrap_grants = Maps.remove pending.invitation s.bootstrap_grants;
              allowed_users = Sets.insert device.user_id s.allowed_users;
            })
            peer device
            (ground (arith, contains-insert device.user_id device.user_id s.allowed_users))
            (b pending refl) (allow-Safe s device.user_id safe)))
        (λ _ s safe. maybe_start_sync-Safe n z p s peer safe)

  pub resolve_bootstrap_acceptance-Safe :
      (s : NetworkNode n z) (peer : PeerId) (approved : Bool)
      → Safe n z p s
      → Safe n z p ((resolve_bootstrap_acceptance n z s peer approved).1)
  unfolding resolve_bootstrap_acceptance
  resolve_bootstrap_acceptance-Safe s peer approved safe =
      resolve_with-Safe (record s { pending_acceptances = Maps.remove peer s.pending_acceptances })
        peer approved (lookup peer s.pending_acceptances) (λ a l. safe.accepting peer a l)
        (record {
          listed = safe.listed;
          admitted = safe.admitted;
          certified = safe.certified;
          provisionally = safe.provisionally;
          challenged = safe.challenged;
          proving = safe.proving;
          accepting =
              Every-remove (λ peer a. Belongs n p s.revocations peer a.authenticated) peer
                s.pending_acceptances safe.accepting;
          reciprocal = safe.reciprocal;
        })
