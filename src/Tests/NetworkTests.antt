-- ===== src/Tests/NetworkTests.antt =====
-- The phone of Alice, with her tablet and a stranger as peers.
use chatcommons.Prelude.{
  ◌≡◌, ◌↔◌, ◌⊎◌, ◌≤◌, refl, ok, some, none, true, false, List, [], ◌∷◌, length, All, ℕ,
}
use chatcommons.Prelude.Bytes.{Bytes, be_bytes, eq_bytes, i64_bytes, pos}
use chatcommons.Prelude.Sets
use chatcommons.Prelude.Maps
use chatcommons.Crypto.{verify, user_id, public_key, sign}
use chatcommons.Device.{
  DeviceIdentity, DeviceCertificate, create_device_certificate, validate_device_certificate,
  validate_version_and_lengths, certificate_bytes, contains,
}
use chatcommons.Sync.{SyncMessage, want, heads}
use chatcommons.Sync.Batching.{wanted, carried}
use chatcommons.Network.{
  Libp2p, Synchronizer, NetworkNode, NetworkResponse, BootstrapGrant, full, sync, sync_messages,
  bootstrap_ancestry, max_messages_per_frame, max_network_frame_bytes,
}
use chatcommons.Network
use chatcommons.Network.Frames.{normalized, normalize_messages}
use chatcommons.Network.Authentication.{
  authenticate, peer_id_from_certificate, validate_peer_certificate,
}
use chatcommons.Network.Requests.{receive_request, asks_several, prove_bootstrap}
use chatcommons.Network.Connections.{new, initial, behaviour, request}
use chatcommons.Network.Calls.{Call, perform, start, step, event}
use chatcommons.Network.Safety.{Safe}
use chatcommons.Network.Safety.Reachable.{Reach-Safe}
use chatcommons.Network.Normalizing.{normalize_messages-bounded}
use chatcommons.Network.Guards.{IsAdmissible, Admitted, Unadmitted, authenticate_iff}
use chatcommons.Network.Silence.{StaysSilent, receive_request_unauthenticated}
use chatcommons.Network.Possession.{Proves, prove_bootstrap_iff}
use chatcommons.Network.Synchronizing.{sync_peer}
use chatcommons.Tests.Toy.{toy, digest, alice, genesis}
use chatcommons.Tests.ToyTable.{toy_sqlite}
use chatcommons.Tests.NodeTests.{event_codec}
use chatcommons.Tests.SyncTests.{message_codec}
use chatcommons.Tests.BootstrapTests.{toy_externals}
use chatcommons.Tests.PeerTests.{newcomer, founding}

abbrev pub peer_of : Bytes → ℕ
peer_of key = digest 3 key

-- A swarm is what its peer identifier is; what it is told to do has no effect.
abbrev pub toy_libp2p : Libp2p
toy_libp2p = record {
  externals = toy_externals;
  named = λ peer. peer;
  peer_of_key = λ key. some (peer_of key);
  Swarm = ℕ;
  ResponseChannel = Unit;
  local_peer_id = λ swarm. swarm;
  is_connected = λ swarm peer. false;
  send_request = λ swarm peer message. swarm;
  send_response = λ swarm channel response. (true, swarm);
  disconnect_peer_id = λ swarm peer. swarm;
  dial = λ swarm address. (none, swarm);
  listen_on = λ swarm address. (none, swarm);
  request_codec = record { to_vec = λ message. some []; from_slice = λ bytes. none };
  response_codec = record { to_vec = λ message. some []; from_slice = λ bytes. none };
}

abbrev pub toy_peer : Synchronizer
toy_peer = sync_peer toy_sqlite toy event_codec message_codec

abbrev pub phone : DeviceIdentity
phone = record { public_key = be_bytes 32 1234 }

abbrev pub tablet : DeviceIdentity
tablet = record { public_key = be_bytes 32 777 }

abbrev pub phone_certificate : DeviceCertificate
phone_certificate = create_device_certificate toy alice phone (pos 5)

abbrev tablet_certificate : DeviceCertificate
tablet_certificate = create_device_certificate toy alice tablet (pos 6)

abbrev node : NetworkNode toy_libp2p toy_peer
node =
    initial toy_libp2p toy_peer (peer_of phone.public_key) phone_certificate newcomer
      (user_id toy alice ∷ []) (record { entries = [] })

node_made :
    new toy_libp2p toy_peer toy
      (peer_of phone.public_key)
      phone_certificate
      newcomer
      (user_id toy alice ∷ [])
      (record { entries = [] })
    ≡ ok node
unfolding new peer_id_from_certificate validate_device_certificate validate_version_and_lengths
    verify create_device_certificate certificate_bytes be_bytes i64_bytes eq_bytes digest
node_made = refl

-- The tablet shows its certificate.
abbrev pub greeting : Call toy_libp2p toy_peer
greeting =
    event (
      behaviour
        (request (peer_of tablet.public_key) 0 tt (Network.authenticate tablet_certificate)))

Reach-Safe_example : Safe toy_libp2p toy_peer toy (perform toy_libp2p toy_peer toy node greeting)
Reach-Safe_example =
    Reach-Safe toy_libp2p toy_peer toy (perform toy_libp2p toy_peer toy node greeting) (
      step
        (start (peer_of phone.public_key) phone_certificate newcomer (user_id toy alice ∷ [])
          (record { entries = [] }) node_made)
        greeting)

authenticate_iff_example :
    (IsAdmissible toy_libp2p toy_peer toy node (peer_of tablet.public_key) tablet_certificate
      × Admitted toy_libp2p toy_peer toy node (peer_of tablet.public_key) tablet_certificate)
    ⊎ (¬ IsAdmissible toy_libp2p toy_peer toy node (peer_of tablet.public_key) tablet_certificate
        × Unadmitted toy_libp2p toy_peer toy node (peer_of tablet.public_key) tablet_certificate)
authenticate_iff_example =
    authenticate_iff toy_libp2p toy_peer toy node (peer_of tablet.public_key) tablet_certificate

-- It is let in.
tablet_authenticated :
    (authenticate toy_libp2p toy_peer toy node (peer_of tablet.public_key) tablet_certificate).0
    ≡ ok full
unfolding authenticate validate_peer_certificate peer_id_from_certificate
    validate_device_certificate validate_version_and_lengths verify create_device_certificate
    certificate_bytes be_bytes i64_bytes eq_bytes digest contains Sets.contains
tablet_authenticated = refl

stranger : Sets.contains 99 node.authenticated ≡ false
unfolding Sets.contains
stranger = refl

receive_request_unauthenticated_example :
    StaysSilent toy_libp2p toy_peer 99 tt node
      ((receive_request toy_libp2p toy_peer toy node 99 0 tt (sync founding)).1)
receive_request_unauthenticated_example =
    receive_request_unauthenticated toy_libp2p toy_peer toy node 99 0 tt (sync founding) stranger

-- The invitation 5, for which the tablet has a challenge.
abbrev grant : BootstrapGrant
grant = record {
  invitation = 5;
  capability_public_key = public_key toy alice;
  ancestry = genesis ∷ [];
}

abbrev inviting : NetworkNode toy_libp2p toy_peer
inviting = record node {
  bootstrap_grants = (5, grant) ∷ [];
  pending_challenges =
      (
        7,
        record {
          invitation = 5;
          authenticated = record { user_id = 1; device_id = 2 };
          proof_bytes = 8 ∷ 9 ∷ [];
        },
      )
      ∷ [];
}

abbrev proof : Bytes
proof = sign toy alice (8 ∷ 9 ∷ [])

prove_bootstrap_iff_example :
    (((prove_bootstrap toy_libp2p toy_peer toy inviting 7 5 proof).0
        ≡ bootstrap_ancestry 5 (genesis ∷ []))
      ↔ Proves toy_libp2p toy_peer toy inviting 7 5 proof (genesis ∷ []))
    × (Maps.lookup 7
          (prove_bootstrap toy_libp2p toy_peer toy inviting 7 5 proof).1.pending_challenges
        ≡ none)
    × ((prove_bootstrap toy_libp2p toy_peer toy inviting 7 5 proof).1.bootstrap_grants
        ≡ inviting.bootstrap_grants)
    × ((prove_bootstrap toy_libp2p toy_peer toy inviting 7 5 proof).1.authenticated
        ≡ inviting.authenticated)
    × ((prove_bootstrap toy_libp2p toy_peer toy inviting 7 5 proof).1.allowed_users
        ≡ inviting.allowed_users)
prove_bootstrap_iff_example =
    prove_bootstrap_iff toy_libp2p toy_peer toy inviting 7 5 proof (genesis ∷ [])

-- The ancestry is served.
proof_serves :
    (prove_bootstrap toy_libp2p toy_peer toy inviting 7 5 proof).0
    ≡ bootstrap_ancestry 5 (genesis ∷ [])
unfolding prove_bootstrap verify be_bytes eq_bytes digest Maps.lookup Maps.remove
proof_serves = refl

abbrev wishes : List SyncMessage
wishes = want 5 (3 ∷ 8 ∷ []) ∷ heads 5 (1 ∷ []) ∷ []

abbrev wishes_apart : List SyncMessage
wishes_apart = want 5 (3 ∷ []) ∷ want 5 (8 ∷ []) ∷ heads 5 (1 ∷ []) ∷ []

wishes_normalized : normalize_messages toy_libp2p.response_codec wishes ≡ ok wishes_apart
unfolding normalize_messages normalized
wishes_normalized = refl

normalize_messages-bounded_example :
    (length wishes_apart ≤ max_messages_per_frame)
    × ((bytes : Bytes) × (toy_libp2p.response_codec.to_vec (sync_messages wishes_apart)
          ≡ some bytes)
        × (length bytes ≤ max_network_frame_bytes))
    × All (λ m. asks_several m ≡ false) wishes_apart
    × (wanted wishes_apart ≡ wanted wishes)
    × (carried wishes_apart ≡ carried wishes)
normalize_messages-bounded_example =
    normalize_messages-bounded toy_libp2p.response_codec wishes wishes_apart wishes_normalized
