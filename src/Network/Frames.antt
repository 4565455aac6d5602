-- ===== src/Network/Frames.antt =====
-- crates/sync/src/network.rs: what goes into a frame, and how requests and responses are sent.
use chatcommons.Prelude.{
  Bool, true, false, Option, none, some, List, [], ◌∷◌, ◌++◌, length, ltb, map, Result, ok, err,
  ◌>>=◌, ◌>>◌, fail_if, ok_or, if◌then◌else◌,
}
use chatcommons.Prelude.Bytes.{Bytes}
use chatcommons.Protocol.{Codec}
use chatcommons.Sync.{SyncMessage, want}
use chatcommons.Network.{
  Libp2p, Synchronizer, NetworkNode, NetworkError, NetworkRequest, NetworkResponse, RejectionCode,
  PeerId, Multiaddr, p2p, p2p_circuit, other, request, rejected, frame_limit, sync_messages,
  max_messages_per_frame, max_network_frame_bytes,
}

-- The last component of an address, if it names a peer.
unfoldable pub relay_peer_from_base : Multiaddr → Option PeerId
relay_peer_from_base [] = none
relay_peer_from_base (p2p peer ∷ []) = some peer
relay_peer_from_base (p2p_circuit ∷ []) = none
relay_peer_from_base (other bytes ∷ []) = none
relay_peer_from_base (c ∷ d ∷ cs) = relay_peer_from_base (d ∷ cs)

-- The loop of `relay_peer_from_route`, with the peer named last.
unfoldable pub last_peer : Option PeerId → Multiaddr → Option PeerId
last_peer previous [] = none
last_peer previous (p2p peer ∷ cs) = last_peer (some peer) cs
last_peer previous (p2p_circuit ∷ cs) = previous
last_peer previous (other bytes ∷ cs) = last_peer previous cs

abbrev pub relay_peer_from_route : Multiaddr → Option PeerId
relay_peer_from_route address = last_peer none address

abbrev pub with_peer : Option PeerId → Multiaddr → Option Multiaddr
with_peer none base = none
with_peer (some peer) base = some base

-- The loop of `relay_base_from_route`, with the address so far.
unfoldable pub base_before : Multiaddr → Multiaddr → Option Multiaddr
base_before base [] = none
base_before base (p2p_circuit ∷ cs) = with_peer (relay_peer_from_base base) base
base_before base (p2p peer ∷ cs) = base_before (base ++ p2p peer ∷ []) cs
base_before base (other bytes ∷ cs) = base_before (base ++ other bytes ∷ []) cs

abbrev pub relay_base_from_route : Multiaddr → Option Multiaddr
relay_base_from_route address = base_before [] address

-- `any(|protocol| matches!(protocol, P2pCircuit))`
unfoldable pub has_circuit : Multiaddr → Bool
has_circuit [] = false
has_circuit (p2p_circuit ∷ cs) = true
has_circuit (p2p peer ∷ cs) = has_circuit cs
has_circuit (other bytes ∷ cs) = has_circuit cs

-- A request for several events becomes one for each.
abbrev pub single : SyncMessage → List SyncMessage
single (want community ids) = map (λ id. want community (id ∷ [])) ids
single message = message ∷ []

-- The loop of `normalize_messages`.
unfoldable pub normalized : List SyncMessage → List SyncMessage
normalized [] = []
normalized (message ∷ messages) = single message ++ normalized messages

unfoldable pub normalize_messages :
    Codec NetworkResponse → List SyncMessage → Result RejectionCode (List SyncMessage)
normalize_messages response_codec messages = do
  fail_if (ltb max_messages_per_frame (length (normalized messages))) frame_limit
  encoded ← ok_or (response_codec.to_vec (sync_messages (normalized messages))) frame_limit
  fail_if (ltb max_network_frame_bytes (length encoded)) frame_limit
  ok (normalized messages)

module _ (n : Libp2p) (z : Synchronizer) where
  -- What a handler returns, with the node after it.
  abbrev pub Outcome : Type 0 → Type 0
  Outcome A = Result (NetworkError z) A × NetworkNode n z

  -- `?`: an error ends the handler, with the node as it is then.
  abbrev pub and_then : {A B : Type 0} → Outcome A → (A → NetworkNode n z → Outcome B) → Outcome B
  and_then (err e, s) next = (err e, s)
  and_then (ok a, s) next = next a s

  -- `to_vec` and the limit on frames.
  unfoldable pub check_frame : Option Bytes → Result (NetworkError z) (Unit {0})
  check_frame encoded = do
    bytes ← ok_or encoded request
    fail_if (ltb max_network_frame_bytes (length bytes)) (rejected frame_limit)

  abbrev pub if_framed :
      NetworkNode n z → Outcome (Unit {0}) → Result (NetworkError z) (Unit {0}) → Outcome (Unit {0})
  if_framed s out (err e) = (err e, s)
  if_framed s out (ok _) = out

  -- `send_response`, with `map_err`.
  abbrev pub deliver : NetworkNode n z → Bool × n.Swarm → Outcome (Unit {0})
  deliver s (open_yet, w) = (if open_yet then ok tt else err request, record s { swarm = w })

  unfoldable pub respond :
      NetworkNode n z → n.ResponseChannel → NetworkResponse → Outcome (Unit {0})
  respond s channel response =
      if_framed s (deliver s (n.send_response s.swarm channel response))
        (check_frame (n.response_codec.to_vec response))

  unfoldable pub send : NetworkNode n z → PeerId → NetworkRequest → Outcome (Unit {0})
  send s peer message =
      if_framed s (ok tt, record s { swarm = n.send_request s.swarm peer message })
        (check_frame (n.request_codec.to_vec message))
