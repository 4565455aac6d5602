-- ===== src/Bootstrap.antt =====
-- crates/sync/src/bootstrap.rs: bootstrap codes. Addresses and peer identifiers are libp2p's, JSON is
-- serde_json's and base64 the crate's: parameters.
pub mod Positions
pub mod Shapes
pub mod Direct
pub mod Relayed
pub mod Routes
pub mod Codes
use chatcommons.Prelude.{
  ℕ, suc, ◌+◌, ◌*◌, ◌==◌, Bool, true, false, not, ◌&&◌, ◌||◌, Option, none, some, List, [], ◌∷◌,
  ◌++◌, length, is_empty, any, take, ltb, Result, ok, err, ◌>>=◌, ◌>>◌, fail_if, ok_or,
  if◌then◌else◌,
}
use chatcommons.Prelude.Bytes.{Bytes, codes, be_bytes}
use chatcommons.Crypto.{Primitives, UserId}
use chatcommons.Protocol.{CommunityId, EventId, Codec}

abbrev pub bootstrap_version : ℕ
bootstrap_version = 1

abbrev pub code_prefix : Bytes
code_prefix = codes "cc1_"

abbrev pub max_invite_package_bytes : ℕ
max_invite_package_bytes = 4 * 1024

abbrev pub max_bootstrap_envelope_bytes : ℕ
max_bootstrap_envelope_bytes = 8 * 1024

abbrev pub max_bootstrap_code_chars : ℕ
max_bootstrap_code_chars = 12 * 1024

-- The components of an address, as far as the source tells them apart.
pub data Component : Type 0 where
  p2p p2p_circuit udp tcp quic_v1 other : Component

-- What the source uses of libp2p and of base64; `none` is an error.
pub record Externals : Type 1 where
  pub PeerId : Type 0
  pub Multiaddr : Type 0
  pub components : Multiaddr → List Component
  pub show_peer : PeerId → Bytes
  pub read_peer : Bytes → Option PeerId
  pub peer_bytes : PeerId → Bytes
  pub show_address : Multiaddr → Bytes
  pub read_address : Bytes → Option Multiaddr
  pub encode64 : Bytes → Bytes
  pub decode64 : Bytes → Option Bytes

pub record BootstrapEnvelope : Type 0 where
  pub version : ℕ
  pub invite_package : Bytes
  pub peer_id : Bytes
  pub address : Bytes

pub data BootstrapError : Type 0 where
  code_too_large invalid_prefix invalid_base64 envelope_too_large json : BootstrapError
  unsupported_version invalid_invite_package invalid_peer_id invalid_address : BootstrapError

abbrev pub is_p2p : Component → Bool
is_p2p p2p = true
is_p2p _ = false

abbrev pub is_circuit : Component → Bool
is_circuit p2p_circuit = true
is_circuit _ = false

abbrev pub is_udp : Component → Bool
is_udp udp = true
is_udp _ = false

abbrev pub is_tcp : Component → Bool
is_tcp tcp = true
is_tcp _ = false

abbrev pub is_quic : Component → Bool
is_quic quic_v1 = true
is_quic _ = false

-- `enumerate` and `filter_map`, from an index on.
unfoldable pub positions : (Component → Bool) → ℕ → List Component → List ℕ
positions f k [] = []
positions f k (c ∷ cs) = let rest = positions f (suc k) cs in if f c then k ∷ rest else rest

unfoldable pub ends_in_quic : List Component → Bool
ends_in_quic [] = false
ends_in_quic (c ∷ []) = is_quic c
ends_in_quic (c ∷ d ∷ cs) = ends_in_quic (d ∷ cs)

unfoldable pub direct_quic : List Component → Bool
direct_quic cs =
    is_empty (positions is_p2p 0 cs)
    && is_empty (positions is_circuit 0 cs)
    && ends_in_quic cs
    && any is_udp cs

-- What a relay is reached by.
abbrev pub has_transport : List Component → Bool
has_transport front = any is_tcp front || (any is_udp front && any is_quic front)

-- The test on the two lists of positions, each of one element.
abbrev pub relay_positions : List Component → List ℕ → List ℕ → Bool
relay_positions cs (i ∷ []) (j ∷ []) = suc j == length cs && suc i == j && has_transport (take i cs)
relay_positions cs _ _ = false

unfoldable pub relay_route : List Component → Bool
relay_route cs = relay_positions cs (positions is_p2p 0 cs) (positions is_circuit 0 cs)

unfoldable pub validate_components : List Component → Result BootstrapError (Unit {0})
validate_components cs = do
  fail_if (is_empty cs) invalid_address
  fail_if (not (direct_quic cs || relay_route cs)) invalid_address

-- `strip_prefix`
unfoldable pub strip_prefix : Bytes → Bytes → Option Bytes
strip_prefix [] text = some text
strip_prefix (c ∷ cs) [] = none
strip_prefix (c ∷ cs) (d ∷ text) = let rest = strip_prefix cs text in if c == d then rest else none

-- The limits on an invite package.
abbrev pub is_bad_package : Bytes → Bool
is_bad_package bytes = is_empty bytes || ltb max_invite_package_bytes (length bytes)

module _ (x : Externals) where
  pub record ValidatedBootstrapEnvelope : Type 0 where
    pub invite_package : Bytes
    pub peer_id : x.PeerId
    pub address : x.Multiaddr

  abbrev pub validate_address : x.Multiaddr → Result BootstrapError (Unit {0})
  validate_address address = validate_components (x.components address)

  unfoldable pub validate : BootstrapEnvelope → Result BootstrapError ValidatedBootstrapEnvelope
  validate envelope = do
    fail_if (not (envelope.version == bootstrap_version)) unsupported_version
    fail_if (is_bad_package envelope.invite_package) invalid_invite_package
    peer_id ← ok_or (x.read_peer envelope.peer_id) invalid_peer_id
    address ← ok_or (x.read_address envelope.address) invalid_address
    validate_address address
    ok (record { invite_package = envelope.invite_package; peer_id = peer_id; address = address })

  module _ (envelope_codec : Codec BootstrapEnvelope) where
    unfoldable pub create_code : Bytes → x.PeerId → x.Multiaddr → Result BootstrapError Bytes
    create_code invite_package peer_id address = do
      fail_if (is_bad_package invite_package) invalid_invite_package
      validate_address address
      encoded ←
          ok_or
            (envelope_codec.to_vec (record {
              version = bootstrap_version;
              invite_package = invite_package;
              peer_id = x.show_peer peer_id;
              address = x.show_address address;
            }))
            json
      fail_if (ltb max_bootstrap_envelope_bytes (length encoded)) envelope_too_large
      let code = code_prefix ++ x.encode64 encoded
      fail_if (ltb max_bootstrap_code_chars (length code)) code_too_large
      ok code

    unfoldable pub parse_code : Bytes → Result BootstrapError BootstrapEnvelope
    parse_code code = do
      fail_if (ltb max_bootstrap_code_chars (length code)) code_too_large
      payload ← ok_or (strip_prefix code_prefix code) invalid_prefix
      bytes ← ok_or (x.decode64 payload) invalid_base64
      fail_if (ltb max_bootstrap_envelope_bytes (length bytes)) envelope_too_large
      ok_or (envelope_codec.from_slice bytes) json

  abbrev pub possession_domain : Bytes
  possession_domain = codes "chatcommons:bootstrap-possession:v1" ++ 0 ∷ []

  unfoldable pub possession_proof_bytes :
      Primitives → CommunityId → EventId → UserId → ℕ → x.PeerId → x.PeerId → ℕ → Bytes
  possession_proof_bytes p community invitation invitee device client_peer server_peer nonce =
      possession_domain
      ++ (be_bytes 32 community
          ++ (be_bytes 32 invitation
              ++ (be_bytes 32 invitee
                  ++ (be_bytes 32 device
                      ++ (be_bytes 32 (p.blake3 (x.peer_bytes client_peer))
                          ++ (be_bytes 32 (p.blake3 (x.peer_bytes server_peer))
                              ++ be_bytes 32 nonce))))))
