-- ===== src/Network/Safety/Reachable.antt =====
-- crates/sync/src/network.rs: every reachable state of a node is safe.
use chatcommons.Prelude.{◌≡◌, refl, arith, subst, ok}
use chatcommons.Prelude.Sets
use chatcommons.Prelude.Sets.{Set, contains-insert, contains-remove}
use chatcommons.Prelude.Maps.{lookup}
use chatcommons.Crypto.{Primitives}
use chatcommons.Device.{DeviceCertificate, RevocationSet}
use chatcommons.Network.{
  Libp2p, Synchronizer, NetworkNode, NetworkError, NetworkEvent, BootstrapGrant, BootstrapTarget,
  Multiaddr, PeerId, bootstrap_prove, bootstrap_accept, authenticate,
}
use chatcommons.Network
use chatcommons.Network.Relays
use chatcommons.Network.Relays.{
  called, undo_reservation, undo_dial, reserve_with, dial_base, dial_relayed, listen_on_route,
  dial_route, identified,
}
use chatcommons.Network.Connections.{new, initial}
use chatcommons.Network.Calls.{
  Call, perform, Reach, start, step, listen, reserve_relay, dial, replace_authorization,
  change_sync_peer, register_bootstrap_grant, replace_bootstrap_grants, configure_bootstrap_target,
  approve_bootstrap_endpoint, submit_bootstrap_proof, submit_bootstrap_acceptance,
  resolve_bootstrap_acceptance, event,
}
use chatcommons.Network.Safety.{Safe}
use chatcommons.Network.Safety.Admission.{replace_authorization-Safe}
use chatcommons.Network.Safety.Relays.{called-Safe, reserve_relay-Safe, dial-Safe}
use chatcommons.Network.Safety.Grants.{
  register_bootstrap_grant-Safe, replace_bootstrap_grants-Safe, configure_bootstrap_target-Safe,
  approve_bootstrap_endpoint-Safe, submit_bootstrap_proof-Safe, submit_bootstrap_acceptance-Safe,
}
use chatcommons.Network.Safety.Connections.{handle_event-Safe}
use chatcommons.Network.Safety.Responses.{resolve_bootstrap_acceptance-Safe}

module _ (n : Libp2p) (z : Synchronizer) (p : Primitives) where
  perform-Safe :
      (s : NetworkNode n z) (c : Call n z) → Safe n z p s → Safe n z p (perform n z p s c)
  unfolding perform Relays.listen
  perform-Safe s (listen address) safe =
      called-Safe n z p Network.listen s (n.listen_on s.swarm address) safe
  perform-Safe s (reserve_relay address) safe = reserve_relay-Safe n z p s address safe
  perform-Safe s (dial peer address) safe = dial-Safe n z p s peer address safe
  perform-Safe s (replace_authorization allowed trusted) safe =
      replace_authorization-Safe n z p s allowed trusted safe
  perform-Safe s (change_sync_peer peer) safe = safe
  perform-Safe s (register_bootstrap_grant grant) safe =
      register_bootstrap_grant-Safe n z p s grant safe
  perform-Safe s (replace_bootstrap_grants grants) safe =
      replace_bootstrap_grants-Safe n z p s grants safe
  perform-Safe s (configure_bootstrap_target peer invitation) safe =
      configure_bootstrap_target-Safe n z p s peer invitation safe
  perform-Safe s (approve_bootstrap_endpoint peer) safe =
      approve_bootstrap_endpoint-Safe n z p s peer safe
  perform-Safe s (submit_bootstrap_proof peer invitation signature) safe =
      submit_bootstrap_proof-Safe n z p s peer invitation signature safe
  perform-Safe s (submit_bootstrap_acceptance peer invitation acceptance) safe =
      submit_bootstrap_acceptance-Safe n z p s peer invitation acceptance safe
  perform-Safe s (resolve_bootstrap_acceptance peer approved) safe =
      resolve_bootstrap_acceptance-Safe n z p s peer approved safe
  perform-Safe s (event e) safe = handle_event-Safe n z p s e safe

  start-Safe :
      (swarm : n.Swarm) (certificate : DeviceCertificate) (peer : z.Peer) (allowed : Set)
      (revocations : RevocationSet) (s : NetworkNode n z)
      → new n z p swarm certificate peer allowed revocations ≡ ok s
      → Safe n z p s
  unfolding new lookup Sets.contains
  start-Safe swarm certificate peer allowed revocations s h =
      let made : initial n z swarm certificate peer allowed revocations ≡ s = ground arith in
      subst (Safe n z p) made (record {
        listed = λ peer. refl;
        admitted = λ peer d l. absurd (cc);
        certified = λ peer d l. absurd (cc);
        provisionally = λ peer d l. absurd (cc);
        challenged = λ peer d l. absurd (cc);
        proving = λ peer d l. absurd (cc);
        accepting = λ peer d l. absurd (cc);
        reciprocal = λ peer h. absurd (cc);
      })

  -- In every state that a node reaches, from `new` on, by its operations and the events of its swarm:
  -- exactly the authenticated peers have a device; each of these devices may synchronize, since its
  -- user is allowed or it is trusted itself; every device that the node holds for a peer, also
  -- provisionally or in the course of a bootstrap, was shown by a valid certificate whose device key is
  -- the peer's, and is not revoked; and synchronization has started with authenticated peers only,
  -- which have accepted this node in turn.
  pub Reach-Safe : (s : NetworkNode n z) → Reach n z p s → Safe n z p s
  Reach-Safe s (start swarm certificate peer allowed revocations made) =
      start-Safe swarm certificate peer allowed revocations s made
  Reach-Safe s (step {s = s'} reached c) = perform-Safe s' c (Reach-Safe s' reached)
