-- ===== src/Network/Calls.antt =====
-- crates/sync/src/network.rs: the node over time, by its public operations and the events of the swarm.
use chatcommons.Prelude.{Bool, ◌≡◌, List, ok}
use chatcommons.Prelude.Bytes.{Bytes}
use chatcommons.Prelude.Sets.{Set}
use chatcommons.Crypto.{Primitives}
use chatcommons.Protocol.{EventId, SignedEvent}
use chatcommons.Device.{DeviceCertificate, RevocationSet}
use chatcommons.Network.{Libp2p, Synchronizer, NetworkNode, BootstrapGrant, Multiaddr, PeerId}
use chatcommons.Network.Authentication
use chatcommons.Network.Grants
use chatcommons.Network.Responses
use chatcommons.Network.Relays
use chatcommons.Network.Connections
use chatcommons.Network.Connections.{SwarmEvent, handle_event}

module _ (n : Libp2p) (z : Synchronizer) where
  -- What can happen to a node.
  pub data Call : Type 0 where
    listen reserve_relay : Multiaddr → Call
    dial : PeerId → Multiaddr → Call
    -- the allowed users and the trusted devices
    replace_authorization : Set → Set → Call
    -- the synchronization peer, through `sync_peer_mut`
    change_sync_peer : z.Peer → Call
    register_bootstrap_grant : BootstrapGrant → Call
    replace_bootstrap_grants : List BootstrapGrant → Call
    configure_bootstrap_target : PeerId → EventId → Call
    approve_bootstrap_endpoint : PeerId → Call
    submit_bootstrap_proof : PeerId → EventId → Bytes → Call
    submit_bootstrap_acceptance : PeerId → EventId → SignedEvent → Call
    resolve_bootstrap_acceptance : PeerId → Bool → Call
    event : SwarmEvent n → Call

  module _ (p : Primitives) where
    -- The node after a call, whatever the call returns.
    unfoldable pub perform : NetworkNode n z → Call → NetworkNode n z
    perform s (listen address) = (Relays.listen n z s address).1
    perform s (reserve_relay address) = (Relays.reserve_relay n z s address).1
    perform s (dial peer address) = (Relays.dial n z s peer address).1
    perform s (replace_authorization allowed trusted) =
        Authentication.replace_authorization n z s allowed trusted
    perform s (change_sync_peer peer) = record s { sync = peer }
    perform s (register_bootstrap_grant grant) = (Grants.register_bootstrap_grant n z p s grant).1
    perform s (replace_bootstrap_grants grants) = (Grants.replace_bootstrap_grants n z p s grants).1
    perform s (configure_bootstrap_target peer invitation) =
        (Grants.configure_bootstrap_target n z s peer invitation).1
    perform s (approve_bootstrap_endpoint peer) = (Grants.approve_bootstrap_endpoint n z s peer).1
    perform s (submit_bootstrap_proof peer invitation signature) =
        (Grants.submit_bootstrap_proof n z s peer invitation signature).1
    perform s (submit_bootstrap_acceptance peer invitation acceptance) =
        (Grants.submit_bootstrap_acceptance n z p s peer invitation acceptance).1
    perform s (resolve_bootstrap_acceptance peer approved) =
        (Responses.resolve_bootstrap_acceptance n z s peer approved).1
    perform s (event e) = (handle_event n z p s e).1

    -- A node that was made by `new`, and what became of it.
    pub data Reach : NetworkNode n z → Type 0 where
      start :
          (swarm : n.Swarm) (certificate : DeviceCertificate) (peer : z.Peer) (allowed : Set)
          (revocations : RevocationSet) {s : NetworkNode n z}
          → Connections.new n z p swarm certificate peer allowed revocations ≡ ok s
          → Reach s
      step : {s : NetworkNode n z} → Reach s → (c : Call) → Reach (perform s c)
