-- ===== src/Network/Safety/Connections.antt =====
-- crates/sync/src/network.rs: the events of the swarm keep the state safe.
use chatcommons.Prelude.{
  ℕ, ◌≡◌, inl, inr, true, false, not, ◌&&◌, Bool, none, some, ok, Bool-cases, ltb,
}
use chatcommons.Prelude.Sets
use chatcommons.Prelude.Sets.{Set, contains-insert, contains-remove}
use chatcommons.Prelude.Maps.{Every-remove}
use chatcommons.Crypto.{Primitives}
use chatcommons.Device.{AuthenticatedDevice}
use chatcommons.Network.{
  Libp2p, Synchronizer, NetworkNode, NetworkError, NetworkEvent, BootstrapGrant, BootstrapTarget,
  Multiaddr, PeerId, bootstrap_prove, bootstrap_accept, authenticate,
}
use chatcommons.Network
use chatcommons.Network.Frames.{Outcome}
use chatcommons.Network.Authentication.{is_admitted}
use chatcommons.Network.Relays.{identified}
use chatcommons.Network.Connections.{
  introduce, note_relayed, established, forget, closed, raised, handle_behaviour, handle_event,
  BehaviourEvent, SwarmEvent, new_listen_addr, connection_established, connection_closed, behaviour,
  outgoing_connection_error, listener_error, other, request, response, outbound_failure,
  inbound_failure, response_sent, reservation_req_accepted, outbound_circuit_established,
  inbound_circuit_established, identify_received, dcutr, ping_or_identify,
}
use chatcommons.Network.Requests.{receive_request}
use chatcommons.Network.Responses.{handle_response}
use chatcommons.Network.Safety.{Belongs, Safe, and_then-Safe, send-Safe}
use chatcommons.Network.Safety.Admission.{drop_peer-Safe}
use chatcommons.Network.Safety.Relays.{identified-Safe}
use chatcommons.Network.Safety.Requests.{receive_request-Safe}
use chatcommons.Network.Safety.Responses.{handle_response-Safe}

module _ (n : Libp2p) (z : Synchronizer) (p : Primitives) where
  introduce-Safe :
      (s : NetworkNode n z) (peer : PeerId) → Safe n z p s → Safe n z p ((introduce n z s peer).1)
  unfolding introduce
  introduce-Safe s peer safe =
      elim (Bool-cases (
        not (Sets.contains peer s.authenticated)
        && not (Sets.contains peer s.authentication_sent))) [
          | inl t ↦
              rw (introduce, t)
                (send-Safe n z p
                  (record s { authentication_sent = Sets.insert peer s.authentication_sent }) peer
                  (authenticate s.certificate) safe)
          | inr f ↦ rw (introduce, f) safe
        ]

  note_relayed-Safe :
      (s : NetworkNode n z) (peer : PeerId) (relayed : Bool)
      → Safe n z p s
      → Safe n z p (note_relayed n z s peer relayed)
  note_relayed-Safe s peer false safe = safe
  note_relayed-Safe s peer true safe = safe

  established-Safe :
      (s : NetworkNode n z) (peer : PeerId) (relayed : Bool)
      → Safe n z p s
      → Safe n z p ((established n z s peer relayed).1)
  unfolding established
  established-Safe s peer relayed safe = elim (Bool-cases (Sets.contains peer s.relay_peers)) [
    | inl t ↦ rw (established, t) safe
    | inr f ↦
        rw (established, f)
          (and_then-Safe n z p (introduce n z (note_relayed n z s peer relayed) peer)
            (λ _ s. (ok (some (Network.connected peer relayed)), s))
            (introduce-Safe (note_relayed n z s peer relayed) peer
              (note_relayed-Safe s peer relayed safe))
            (λ _ s safe. safe))
  ]

  forget-Safe :
      (s : NetworkNode n z) (peer : PeerId) → Safe n z p s → Safe n z p (forget n z s peer)
  forget-Safe s peer safe =
      let may : PeerId → AuthenticatedDevice → Type 0 =
        λ peer d. is_admitted s.allowed_users s.trusted_infrastructure_devices d ≡ true in
      let dropped = drop_peer-Safe n z p may may s peer (λ j d other h. h) safe in
      record {
        listed = dropped.listed;
        admitted = dropped.admitted;
        certified = dropped.certified;
        provisionally =
            Every-remove (Belongs n p s.revocations) peer s.provisional safe.provisionally;
        challenged =
            Every-remove (λ peer c. Belongs n p s.revocations peer c.authenticated) peer
              s.pending_challenges safe.challenged;
        proving =
            Every-remove (λ peer b. Belongs n p s.revocations peer b.authenticated) peer
              s.proved_bootstraps safe.proving;
        accepting =
            Every-remove (λ peer a. Belongs n p s.revocations peer a.authenticated) peer
              s.pending_acceptances safe.accepting;
        reciprocal = dropped.reciprocal;
      }

  closed-Safe :
      (s : NetworkNode n z) (peer : PeerId) (num_established : ℕ)
      → Safe n z p s
      → Safe n z p ((closed n z s peer num_established).1)
  unfolding closed
  closed-Safe s peer num_established safe = elim (Bool-cases (ltb 0 num_established)) [
    | inl t ↦ rw (closed, t) safe
    | inr f ↦ elim (Bool-cases (Sets.contains peer s.relay_peers)) [
      | inl t ↦ rw (closed, f, t) safe
      | inr g ↦ rw (closed, f, g) (forget-Safe s peer safe)
    ]
  ]

  raised-Safe :
      (out : Outcome n z NetworkEvent) → Safe n z p out.1 → Safe n z p ((raised n z out).1)
  raised-Safe out safe = and_then-Safe n z p out _ safe (λ event s safe. safe)

  handle_behaviour-Safe :
      (s : NetworkNode n z) (e : BehaviourEvent n)
      → Safe n z p s
      → Safe n z p ((handle_behaviour n z p s e).1)
  unfolding handle_behaviour
  handle_behaviour-Safe s (request peer nonce channel message) safe =
      raised-Safe (receive_request n z p s peer nonce channel message)
        (receive_request-Safe n z p s peer nonce channel message safe)
  handle_behaviour-Safe s (response peer message) safe =
      raised-Safe (handle_response n z p s peer message)
        (handle_response-Safe n z p s peer message safe)
  handle_behaviour-Safe s (outbound_failure peer reason) safe = safe
  handle_behaviour-Safe s (inbound_failure peer reason) safe = safe
  handle_behaviour-Safe s response_sent safe = safe
  handle_behaviour-Safe s (reservation_req_accepted relay) safe = safe
  handle_behaviour-Safe s (outbound_circuit_established relay) safe = safe
  handle_behaviour-Safe s (inbound_circuit_established remote) safe = safe
  handle_behaviour-Safe s (identify_received peer observed) safe =
      and_then-Safe n z p (identified n z s peer) _ (identified-Safe n z p s peer safe)
        (λ _ s safe. safe)
  handle_behaviour-Safe s (dcutr peer none) safe = safe
  handle_behaviour-Safe s (dcutr peer (some reason)) safe = safe
  handle_behaviour-Safe s ping_or_identify safe = safe

  pub handle_event-Safe :
      (s : NetworkNode n z) (e : SwarmEvent n)
      → Safe n z p s
      → Safe n z p ((handle_event n z p s e).1)
  unfolding handle_event
  handle_event-Safe s (new_listen_addr address) safe = safe
  handle_event-Safe s (connection_established peer relayed) safe =
      established-Safe s peer relayed safe
  handle_event-Safe s (connection_closed peer num_established) safe =
      closed-Safe s peer num_established safe
  handle_event-Safe s (behaviour e) safe = handle_behaviour-Safe s e safe
  handle_event-Safe s (outgoing_connection_error peer reason) safe = safe
  handle_event-Safe s (listener_error reason) safe = safe
  handle_event-Safe s other safe = safe
