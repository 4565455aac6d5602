-- ===== src/Network.antt =====
-- crates/sync/src/network.rs: the network node. libp2p is a third-party library: the record `Libp2p`
-- holds the calls that the source makes of it. A peer identifier is the number that its bytes write.
pub mod Frames
pub mod Authentication
pub mod Grants
pub mod Requests
pub mod Responses
pub mod Relays
pub mod Connections
pub mod Calls
pub mod Safety
pub mod Normalizing
pub mod Guards
pub mod Quiet
pub mod Silence
pub mod Possession
pub mod Synchronizing
use chatcommons.Prelude.{ℕ, ◌*◌, Bool, Option, List, Result}
use chatcommons.Prelude.Bytes.{Bytes}
use chatcommons.Prelude.Sets.{Set}
use chatcommons.Prelude.Maps.{Map}
use chatcommons.Crypto.{UserId}
use chatcommons.Protocol.{EventId, CommunityId, SignedEvent, Codec}
use chatcommons.Device.{DeviceCertificate, AuthenticatedDevice, RevocationSet, AuthError}
use chatcommons.Sync.{SyncMessage}
use chatcommons.Bootstrap.{Externals}

abbrev pub max_network_frame_bytes : ℕ
max_network_frame_bytes = 1024 * 1024

abbrev pub max_messages_per_frame : ℕ
max_messages_per_frame = 64

abbrev pub max_bootstrap_ancestry_events : ℕ
max_bootstrap_ancestry_events = 256

abbrev pub PeerId : Type 0
PeerId = ℕ

pub data NetworkRequest : Type 0 where
  authenticate : DeviceCertificate → NetworkRequest
  sync : SyncMessage → NetworkRequest
  bootstrap_begin : DeviceCertificate → EventId → NetworkRequest
  bootstrap_prove : EventId → Bytes → NetworkRequest
  bootstrap_accept : EventId → SignedEvent → NetworkRequest

pub data RejectionCode : Type 0 where
  invalid_certificate peer_id_mismatch user_not_allowed device_revoked : RejectionCode
  not_authenticated invalid_sync invalid_bootstrap invitation_unavailable : RejectionCode
  bootstrap_not_approved frame_limit : RejectionCode

pub data NetworkResponse : Type 0 where
  authenticated : NetworkResponse
  sync_messages : List SyncMessage → NetworkResponse
  -- invitation and nonce
  bootstrap_challenge : EventId → ℕ → NetworkResponse
  bootstrap_ancestry : EventId → List SignedEvent → NetworkResponse
  bootstrap_accepted : NetworkResponse
  rejected : RejectionCode → NetworkResponse

-- The components of an address that the source tells apart, with the bytes of the others.
pub data Component : Type 0 where
  p2p : PeerId → Component
  p2p_circuit : Component
  other : Bytes → Component

-- A `Multiaddr` is the sequence of its components, as `iter`, `push` and `empty` present it.
abbrev pub Multiaddr : Type 0
Multiaddr = List Component

pub data NetworkEvent : Type 0 where
  listening : Multiaddr → NetworkEvent
  -- whether the connection is relayed
  connected : PeerId → Bool → NetworkEvent
  relay_connected relay_disconnected relay_reservation_accepted : PeerId → NetworkEvent
  -- relay and remote
  relay_circuit_established : Option PeerId → Option PeerId → NetworkEvent
  relay_connection_failed : Option PeerId → Bytes → NetworkEvent
  observed_address : PeerId → Multiaddr → NetworkEvent
  hole_punch_succeeded : PeerId → NetworkEvent
  hole_punch_failed : PeerId → Bytes → NetworkEvent
  authenticated sync_progress : PeerId → NetworkEvent
  -- with the bytes to sign
  bootstrap_challenge : PeerId → EventId → Bytes → NetworkEvent
  bootstrap_ancestry : PeerId → EventId → List SignedEvent → NetworkEvent
  bootstrap_acceptance : PeerId → UserId → EventId → SignedEvent → NetworkEvent
  bootstrap_accepted : PeerId → NetworkEvent
  request_failed : PeerId → Bytes → NetworkEvent
  disconnected : PeerId → NetworkEvent

-- The calls of libp2p that the source makes, and those of serde_json on frames.
pub record Libp2p : Type 1 where
  -- what the source uses of peer identifiers and addresses elsewhere
  pub externals : Externals
  -- the peer identifier with a number
  pub named : PeerId → externals.PeerId
  -- `ed25519::PublicKey::try_from_bytes` and `to_peer_id`
  pub peer_of_key : Bytes → Option PeerId
  pub Swarm : Type 0
  pub ResponseChannel : Type 0
  pub local_peer_id : Swarm → PeerId
  pub is_connected : Swarm → PeerId → Bool
  pub send_request : Swarm → PeerId → NetworkRequest → Swarm
  -- whether the channel was still open
  pub send_response : Swarm → ResponseChannel → NetworkResponse → Bool × Swarm
  pub disconnect_peer_id : Swarm → PeerId → Swarm
  -- with the text of an error
  pub dial : Swarm → Multiaddr → Option Bytes × Swarm
  pub listen_on : Swarm → Multiaddr → Option Bytes × Swarm
  pub request_codec : Codec NetworkRequest
  pub response_codec : Codec NetworkResponse

-- What the network node uses of `SyncPeer`; Network/Synchronizing.antt fills it.
pub record Synchronizer : Type 1 where
  pub Peer : Type 0
  pub SyncError : Type 0
  pub community : Peer → CommunityId
  pub hello : Peer → SyncMessage
  pub receive : Peer → SyncMessage → Result SyncError (List SyncMessage) × Peer

pub record BootstrapGrant : Type 0 where
  pub invitation : EventId
  pub capability_public_key : Bytes
  pub ancestry : List SignedEvent

pub record PendingChallenge : Type 0 where
  pub invitation : EventId
  pub authenticated : AuthenticatedDevice
  pub proof_bytes : Bytes

pub record ProvedBootstrap : Type 0 where
  pub invitation : EventId
  pub authenticated : AuthenticatedDevice

pub record BootstrapTarget : Type 0 where
  pub peer : PeerId
  pub invitation : EventId
  pub endpoint_approved : Bool

pub data AuthenticationState : Type 0 where
  full provisional : AuthenticationState

module _ (z : Synchronizer) where
  -- Of the messages of `Listen`, `Dial`, `Request` and `Bootstrap` the text is kept where the source
  -- passes on that of a library.
  pub data NetworkError : Type 0 where
    auth : AuthError → NetworkError
    sync : z.SyncError → NetworkError
    listen dial : Bytes → NetworkError
    request : NetworkError
    rejected : RejectionCode → NetworkError
    bootstrap : NetworkError

module _ (n : Libp2p) (z : Synchronizer) where
  pub record PendingAcceptance : Type 0 where
    pub invitation : EventId
    pub authenticated : AuthenticatedDevice
    pub channel : n.ResponseChannel

  pub record NetworkNode : Type 0 where
    pub swarm : n.Swarm
    pub sync : z.Peer
    pub certificate : DeviceCertificate
    pub allowed_users : Set
    pub trusted_infrastructure_devices : Set
    pub revocations : RevocationSet
    pub authenticated : Set
    pub authenticated_devices : Map AuthenticatedDevice
    pub authentication_sent : Set
    pub accepted_by_remote : Set
    pub sync_started : Set
    pub provisional : Map AuthenticatedDevice
    pub bootstrap_grants : Map BootstrapGrant
    pub pending_challenges : Map PendingChallenge
    pub proved_bootstraps : Map ProvedBootstrap
    pub pending_acceptances : Map PendingAcceptance
    pub bootstrap_target : Option BootstrapTarget
    pub relay_peers : Set
    pub relayed_application_peers : Set
    pub pending_relay_dials : Map (PeerId × Multiaddr)
    pub pending_relay_reservations : Map Multiaddr
