-- ===== src/Network/Relays.antt =====
-- crates/sync/src/network.rs: listening, and the dials and reservations through relays.
use chatcommons.Prelude.{
  true, false, Option, none, some, [], ◌∷◌, ◌++◌, Result, ok, err, ◌>>=◌, ◌>>◌, fail_if, ok_or,
}
use chatcommons.Prelude.Bytes.{Bytes, codes}
use chatcommons.Prelude.Sets
use chatcommons.Prelude.Maps
use chatcommons.Network.{
  Libp2p, Synchronizer, NetworkNode, NetworkError, Multiaddr, PeerId, p2p, p2p_circuit,
}
use chatcommons.Network
use chatcommons.Network.Frames.{
  Outcome, and_then, relay_peer_from_base, relay_peer_from_route, relay_base_from_route,
  has_circuit,
}

module _ (n : Libp2p) (z : Synchronizer) where
  -- `map_err` of a call that may fail with a text.
  abbrev pub called :
      (Bytes → NetworkError z) → NetworkNode n z → Option Bytes × n.Swarm → Outcome n z (Unit {0})
  called f s (none, w) = (ok tt, record s { swarm = w })
  called f s (some text, w) = (err (f text), record s { swarm = w })

  unfoldable pub listen : NetworkNode n z → Multiaddr → Outcome n z (Unit {0})
  listen s address = called Network.listen s (n.listen_on s.swarm address)

  -- A reservation or a dial that failed is not pending any more.
  abbrev pub undo_reservation : PeerId → Multiaddr → Outcome n z (Unit {0}) → Outcome n z Multiaddr
  undo_reservation relay circuit (ok _, s) = (ok circuit, s)
  undo_reservation relay circuit (err e, s) = (
    err e,
    record s { pending_relay_reservations = Maps.remove relay s.pending_relay_reservations },
  )

  abbrev pub undo_dial : PeerId → Outcome n z (Unit {0}) → Outcome n z (Unit {0})
  undo_dial relay (ok _, s) = (ok tt, s)
  undo_dial relay (err e, s) =
      (err e, record s { pending_relay_dials = Maps.remove relay s.pending_relay_dials })

  -- `reserve_relay` from where the relay is known.
  abbrev pub reserve_with : NetworkNode n z → PeerId → Multiaddr → Outcome n z Multiaddr
  reserve_with s relay address =
      let s' = record s { relay_peers = Sets.insert relay s.relay_peers } in
      elim (Maps.contains_key relay s.pending_relay_reservations) [
        | true ↦ (err (Network.dial (codes "a reservation with this relay is already pending")), s')
        | false ↦
            let circuit = address ++ p2p_circuit ∷ [] in
            let s'' = record s' {
              pending_relay_reservations = Maps.insert relay circuit s.pending_relay_reservations;
            } in
            undo_reservation relay circuit (called Network.dial s'' (n.dial s.swarm address))
      ]

  -- The checks of `reserve_relay`.
  unfoldable pub check_relay : Multiaddr → Result (NetworkError z) PeerId
  check_relay address = do
    relay ←
        ok_or (relay_peer_from_base address)
          (Network.dial (codes "relay address must end in its Peer ID"))
    fail_if (has_circuit address)
        (Network.dial (codes "relay base address must not contain p2p-circuit"))
    ok relay

  unfoldable pub reserve_relay : NetworkNode n z → Multiaddr → Outcome n z Multiaddr
  reserve_relay s address =
      and_then n z (check_relay address, s) (λ relay s. reserve_with s relay address)

  -- `dial` from where the base address of the relay is known.
  abbrev pub dial_base :
      NetworkNode n z → PeerId → PeerId → Multiaddr → Option Multiaddr → Outcome n z (Unit {0})
  dial_base s relay peer address none =
      (err (Network.dial (codes "relay route has an invalid base address")), s)
  dial_base s relay peer address (some base) =
      elim (Maps.contains_key relay s.pending_relay_dials) [
        | true ↦ (err (Network.dial (codes "a dial through this relay is already pending")), s)
        | false ↦ undo_dial relay (
            called Network.dial
              (record s {
                pending_relay_dials = Maps.insert relay (peer, address) s.pending_relay_dials;
              })
              (n.dial s.swarm base))
      ]

  abbrev pub dial_relayed :
      NetworkNode n z → PeerId → Multiaddr → Option PeerId → Outcome n z (Unit {0})
  dial_relayed s peer address none =
      (err (Network.dial (codes "relay route does not identify its relay peer")), s)
  dial_relayed s peer address (some relay) =
      dial_base (record s { relay_peers = Sets.insert relay s.relay_peers }) relay peer address
        (relay_base_from_route address)

  unfoldable pub dial : NetworkNode n z → PeerId → Multiaddr → Outcome n z (Unit {0})
  dial s peer address = elim (has_circuit address) [
    | true ↦ dial_relayed s peer address (relay_peer_from_route address)
    | false ↦ called Network.dial s (n.dial s.swarm (address ++ p2p peer ∷ []))
  ]

  -- What waits for an identified relay: a reservation, then a dial.
  abbrev pub listen_on_route : NetworkNode n z → Option Multiaddr → Outcome n z (Unit {0})
  listen_on_route s none = (ok tt, s)
  listen_on_route s (some route) = called Network.listen s (n.listen_on s.swarm route)

  abbrev pub dial_route : NetworkNode n z → Option (PeerId × Multiaddr) → Outcome n z (Unit {0})
  dial_route s none = (ok tt, s)
  dial_route s (some (target, route)) =
      called Network.dial s (n.dial s.swarm (route ++ p2p target ∷ []))

  unfoldable pub identified : NetworkNode n z → PeerId → Outcome n z (Unit {0})
  identified s peer =
      and_then n z
        (listen_on_route
          (record s { pending_relay_reservations = Maps.remove peer s.pending_relay_reservations })
          (Maps.lookup peer s.pending_relay_reservations))
        (λ _ s.
          dial_route (record s { pending_relay_dials = Maps.remove peer s.pending_relay_dials })
            (Maps.lookup peer s.pending_relay_dials))
