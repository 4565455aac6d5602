-- ===== src/Network/Connections.antt =====
-- crates/sync/src/network.rs: the events of the swarm.
use chatcommons.Prelude.{
  ℕ, ◌==◌, ltb, Bool, true, false, not, ◌&&◌, Option, none, some, [], Result, ok, err, ◌>>=◌, ◌>>◌,
  fail_if, map_err,
}
use chatcommons.Prelude.Bytes.{Bytes}
use chatcommons.Prelude.Sets
use chatcommons.Prelude.Sets.{Set}
use chatcommons.Prelude.Maps
use chatcommons.Crypto.{Primitives}
use chatcommons.Device.{DeviceCertificate, RevocationSet, invalid_device_key}
use chatcommons.Network.{
  Libp2p, Synchronizer, NetworkNode, NetworkError, NetworkRequest, NetworkResponse, NetworkEvent,
  Multiaddr, PeerId, p2p, p2p_circuit, auth, listening, connected, relay_connected,
  relay_disconnected, relay_reservation_accepted, relay_circuit_established,
  relay_connection_failed, observed_address, hole_punch_succeeded, hole_punch_failed,
  request_failed, disconnected, authenticate,
}
use chatcommons.Network
use chatcommons.Network.Frames.{Outcome, and_then, send}
use chatcommons.Network.Relays.{identified}
use chatcommons.Network.Authentication.{peer_id_from_certificate}
use chatcommons.Network.Requests.{receive_request}
use chatcommons.Network.Responses.{handle_response}

module _ (n : Libp2p) where
  -- The events of the node's behaviour.
  pub data BehaviourEvent : Type 0 where
    -- the nonce is what the generator of random numbers gives if it is asked
    request : PeerId → ℕ → n.ResponseChannel → NetworkRequest → BehaviourEvent
    response : PeerId → NetworkResponse → BehaviourEvent
    outbound_failure inbound_failure : PeerId → Bytes → BehaviourEvent
    response_sent : BehaviourEvent
    reservation_req_accepted outbound_circuit_established inbound_circuit_established :
        PeerId → BehaviourEvent
    identify_received : PeerId → Multiaddr → BehaviourEvent
    -- the text of an error, or none
    dcutr : PeerId → Option Bytes → BehaviourEvent
    ping_or_identify : BehaviourEvent

  pub data SwarmEvent : Type 0 where
    new_listen_addr : Multiaddr → SwarmEvent
    -- whether the endpoint is relayed
    connection_established : PeerId → Bool → SwarmEvent
    -- with the number of connections left
    connection_closed : PeerId → ℕ → SwarmEvent
    behaviour : BehaviourEvent → SwarmEvent
    outgoing_connection_error : Option PeerId → Bytes → SwarmEvent
    listener_error : Bytes → SwarmEvent
    other : SwarmEvent

module _ (n : Libp2p) (z : Synchronizer) where
  -- The node that `new` makes.
  abbrev pub initial : n.Swarm → DeviceCertificate → z.Peer → Set → RevocationSet → NetworkNode n z
  initial swarm certificate peer allowed revocations = record {
    swarm = swarm;
    sync = peer;
    certificate = certificate;
    allowed_users = allowed;
    trusted_infrastructure_devices = [];
    revocations = revocations;
    authenticated = [];
    authenticated_devices = [];
    authentication_sent = [];
    accepted_by_remote = [];
    sync_started = [];
    provisional = [];
    bootstrap_grants = [];
    pending_challenges = [];
    proved_bootstraps = [];
    pending_acceptances = [];
    bootstrap_target = none;
    relay_peers = [];
    relayed_application_peers = [];
    pending_relay_dials = [];
    pending_relay_reservations = [];
  }

  -- The swarm is built from the key pair of the device, so it has the device's peer identifier.
  -- The swarm is built from the key pair of the device, so it has the device's peer identifier.
  unfoldable pub new :
      Primitives
      → n.Swarm
      → DeviceCertificate
      → z.Peer
      → Set
      → RevocationSet
      → Result (NetworkError z) (NetworkNode n z)
  new p swarm certificate peer allowed revocations = do
    certified ← map_err auth (peer_id_from_certificate n z p certificate)
    fail_if (not (certified == n.local_peer_id swarm)) (auth invalid_device_key)
    ok (initial swarm certificate peer allowed revocations)

  -- `authentication_sent.insert(peer)`, where the peer is not authenticated yet, and the request.
  unfoldable pub introduce : NetworkNode n z → PeerId → Outcome n z (Unit {0})
  introduce s peer =
      elim (not (Sets.contains peer s.authenticated)
        && not (Sets.contains peer s.authentication_sent)) [
          | true ↦
              send n z (record s { authentication_sent = Sets.insert peer s.authentication_sent })
                peer (authenticate s.certificate)
          | false ↦ (ok tt, s)
        ]

  -- `if endpoint.is_relayed()`
  abbrev pub note_relayed : NetworkNode n z → PeerId → Bool → NetworkNode n z
  note_relayed s peer false = s
  note_relayed s peer true = record s {
    relayed_application_peers = Sets.insert peer s.relayed_application_peers;
  }

  unfoldable pub established : NetworkNode n z → PeerId → Bool → Outcome n z (Option NetworkEvent)
  established s peer relayed = elim (Sets.contains peer s.relay_peers) [
    | true ↦ (ok (some (relay_connected peer)), s)
    | false ↦
        and_then n z (introduce (note_relayed s peer relayed) peer)
          (λ _ s. (ok (some (connected peer relayed)), s))
  ]

  -- What a closed connection leaves.
  abbrev pub forget : NetworkNode n z → PeerId → NetworkNode n z
  forget s peer = record s {
    authenticated = Sets.remove peer s.authenticated;
    authenticated_devices = Maps.remove peer s.authenticated_devices;
    authentication_sent = Sets.remove peer s.authentication_sent;
    accepted_by_remote = Sets.remove peer s.accepted_by_remote;
    sync_started = Sets.remove peer s.sync_started;
    provisional = Maps.remove peer s.provisional;
    pending_challenges = Maps.remove peer s.pending_challenges;
    proved_bootstraps = Maps.remove peer s.proved_bootstraps;
    pending_acceptances = Maps.remove peer s.pending_acceptances;
  }

  unfoldable pub closed : NetworkNode n z → PeerId → ℕ → Option NetworkEvent × NetworkNode n z
  closed s peer num_established = elim (ltb 0 num_established) [
    | true ↦ (none, s)
    | false ↦ elim (Sets.contains peer s.relay_peers) [
      | true ↦ (some (relay_disconnected peer), s)
      | false ↦ (some (disconnected peer), forget s peer)
    ]
  ]

  -- The guards on a failed outgoing connection, in their order.
  unfoldable pub connection_failed :
      NetworkNode n z → Option PeerId → Bytes → Result (NetworkError z) (Option NetworkEvent)
  connection_failed s none reason = err (Network.dial reason)
  connection_failed s (some peer) reason = elim (Sets.contains peer s.relay_peers) [
    | true ↦ ok (some (relay_connection_failed (some peer) reason))
    | false ↦ elim (Sets.contains peer s.relayed_application_peers) [
      | true ↦ ok (some (hole_punch_failed peer reason))
      | false ↦ elim (n.is_connected s.swarm peer) [
        | true ↦ ok none
        | false ↦ err (Network.dial reason)
      ]
    ]
  ]

  -- `map(Some)`
  abbrev pub raised : Outcome n z NetworkEvent → Outcome n z (Option NetworkEvent)
  raised out = and_then n z out (λ event s. (ok (some event), s))

  module _ (p : Primitives) where
    unfoldable pub handle_behaviour :
        NetworkNode n z → BehaviourEvent n → Outcome n z (Option NetworkEvent)
    handle_behaviour s (request peer nonce channel message) =
        raised (receive_request n z p s peer nonce channel message)
    handle_behaviour s (response peer message) = raised (handle_response n z p s peer message)
    handle_behaviour s (outbound_failure peer reason) = (ok (some (request_failed peer reason)), s)
    handle_behaviour s (inbound_failure peer reason) = (ok (some (request_failed peer reason)), s)
    handle_behaviour s response_sent = (ok none, s)
    handle_behaviour s (reservation_req_accepted relay) =
        (ok (some (relay_reservation_accepted relay)), s)
    handle_behaviour s (outbound_circuit_established relay) =
        (ok (some (relay_circuit_established (some relay) none)), s)
    handle_behaviour s (inbound_circuit_established remote) =
        (ok (some (relay_circuit_established none (some remote))), s)
    handle_behaviour s (identify_received peer observed) =
        and_then n z (identified n z s peer)
          (λ _ s. (ok (some (observed_address peer observed)), s))
    handle_behaviour s (dcutr peer none) = (ok (some (hole_punch_succeeded peer)), s)
    handle_behaviour s (dcutr peer (some reason)) = (ok (some (hole_punch_failed peer reason)), s)
    handle_behaviour s ping_or_identify = (ok none, s)

    -- The body of the loop of `next_event`: `ok none` where the loop goes on.
    unfoldable pub handle_event : NetworkNode n z → SwarmEvent n → Outcome n z (Option NetworkEvent)
    handle_event s (new_listen_addr address) = (ok (some (listening address)), s)
    handle_event s (connection_established peer relayed) = established s peer relayed
    handle_event s (connection_closed peer num_established) =
        let (event, after) = closed s peer num_established in (ok event, after)
    handle_event s (behaviour event) = handle_behaviour s event
    handle_event s (outgoing_connection_error peer reason) = (connection_failed s peer reason, s)
    handle_event s (listener_error reason) = (err (Network.listen reason), s)
    handle_event s other = (ok none, s)
