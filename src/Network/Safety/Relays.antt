-- ===== src/Network/Safety/Relays.antt =====
-- crates/sync/src/network.rs: dials and relays keep the state safe.
use chatcommons.Prelude.{inl, inr, Option, none, some, [], ◌∷◌, ◌++◌, ok, err, Bool-cases}
use chatcommons.Prelude.Bytes.{Bytes}
use chatcommons.Prelude.Sets
use chatcommons.Prelude.Sets.{Set, contains-insert, contains-remove}
use chatcommons.Prelude.Maps
use chatcommons.Prelude.Maps.{Map, Every-remove, lookup, lookup-remove, contains_key}
use chatcommons.Crypto.{Primitives}
use chatcommons.Network.{
  Libp2p, Synchronizer, NetworkNode, NetworkError, NetworkEvent, BootstrapGrant, BootstrapTarget,
  Multiaddr, PeerId, p2p, p2p_circuit,
}
use chatcommons.Network
use chatcommons.Network.Frames.{Outcome, has_circuit, relay_peer_from_route, relay_base_from_route}
use chatcommons.Network.Relays
use chatcommons.Network.Relays.{
  called, undo_reservation, undo_dial, reserve_with, dial_base, dial_relayed, listen_on_route,
  dial_route, identified,
}
use chatcommons.Network.Safety.{Safe, and_then-Safe}

module _ (n : Libp2p) (z : Synchronizer) (p : Primitives) where
  pub called-Safe :
      (f : Bytes → NetworkError z) (s : NetworkNode n z) (out : Option Bytes × n.Swarm)
      → Safe n z p s
      → Safe n z p ((called n z f s out).1)
  called-Safe f s (none, w) safe = safe
  called-Safe f s (some text, w) safe = safe

  undo_reservation-Safe :
      (relay : PeerId) (circuit : Multiaddr) (out : Outcome n z (Unit {0}))
      → Safe n z p out.1
      → Safe n z p ((undo_reservation n z relay circuit out).1)
  undo_reservation-Safe relay circuit (ok _, s) safe = safe
  undo_reservation-Safe relay circuit (err e, s) safe = safe

  undo_dial-Safe :
      (relay : PeerId) (out : Outcome n z (Unit {0}))
      → Safe n z p out.1
      → Safe n z p ((undo_dial n z relay out).1)
  undo_dial-Safe relay (ok _, s) safe = safe
  undo_dial-Safe relay (err e, s) safe = safe

  pub reserve_relay-Safe :
      (s : NetworkNode n z) (address : Multiaddr)
      → Safe n z p s
      → Safe n z p ((Relays.reserve_relay n z s address).1)
  unfolding Relays.reserve_relay
  reserve_relay-Safe s address safe =
      and_then-Safe n z p _ _ safe (λ relay s safe. reserved relay s safe)
    where
      reserved :
          (relay : PeerId) (s : NetworkNode n z)
          → Safe n z p s
          → Safe n z p ((reserve_with n z s relay address).1)
      reserved relay s safe = elim (Bool-cases (contains_key relay s.pending_relay_reservations)) [
        | inl t ↦ rw (reserve_with, t) safe
        | inr f ↦
            rw (reserve_with, f)
              (undo_reservation-Safe relay (address ++ p2p_circuit ∷ []) _ (
                called-Safe Network.dial
                  (record s {
                    relay_peers = Sets.insert relay s.relay_peers;
                    pending_relay_reservations =
                        Maps.insert relay (address ++ p2p_circuit ∷ [])
                          s.pending_relay_reservations;
                  })
                  (n.dial s.swarm address) safe))
      ]

  dial_base-Safe :
      (s : NetworkNode n z) (relay peer : PeerId) (address : Multiaddr) (base : Option Multiaddr)
      → Safe n z p s
      → Safe n z p ((dial_base n z s relay peer address base).1)
  dial_base-Safe s relay peer address none safe = safe
  dial_base-Safe s relay peer address (some base) safe =
      elim (Bool-cases (contains_key relay s.pending_relay_dials)) [
        | inl t ↦ rw (dial_base, t) safe
        | inr f ↦
            rw (dial_base, f)
              (undo_dial-Safe relay _ (
                called-Safe Network.dial
                  (record s {
                    pending_relay_dials = Maps.insert relay (peer, address) s.pending_relay_dials;
                  })
                  (n.dial s.swarm base) safe))
      ]

  pub dial-Safe :
      (s : NetworkNode n z) (peer : PeerId) (address : Multiaddr)
      → Safe n z p s
      → Safe n z p ((Relays.dial n z s peer address).1)
  unfolding Relays.dial
  dial-Safe s peer address safe = elim (Bool-cases (has_circuit address)) [
    | inl t ↦ rw (Relays.dial, t) (relayed (relay_peer_from_route address))
    | inr f ↦
        rw (Relays.dial, f)
          (called-Safe Network.dial s (n.dial s.swarm (address ++ p2p peer ∷ [])) safe)
  ]
    where
      relayed : (relay : Option PeerId) → Safe n z p ((dial_relayed n z s peer address relay).1)
      relayed none = safe
      relayed (some relay) =
          dial_base-Safe (record s { relay_peers = Sets.insert relay s.relay_peers }) relay peer
            address (relay_base_from_route address) safe

  pub identified-Safe :
      (s : NetworkNode n z) (peer : PeerId) → Safe n z p s → Safe n z p ((identified n z s peer).1)
  unfolding identified
  identified-Safe s peer safe =
      and_then-Safe n z p _ _
        (listening
          (record s { pending_relay_reservations = Maps.remove peer s.pending_relay_reservations })
          (lookup peer s.pending_relay_reservations) safe)
        (λ _ s safe.
          dialing (record s { pending_relay_dials = Maps.remove peer s.pending_relay_dials })
            (lookup peer s.pending_relay_dials) safe)
    where
      listening :
          (s : NetworkNode n z) (route : Option Multiaddr)
          → Safe n z p s
          → Safe n z p ((listen_on_route n z s route).1)
      listening s none safe = safe
      listening s (some route) safe = called-Safe Network.listen s (n.listen_on s.swarm route) safe

      dialing :
          (s : NetworkNode n z) (route : Option (PeerId × Multiaddr))
          → Safe n z p s
          → Safe n z p ((dial_route n z s route).1)
      dialing s none safe = safe
      dialing s (some (target, route)) safe = called-Safe Network.dial s _ safe
