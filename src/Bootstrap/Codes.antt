-- ===== src/Bootstrap/Codes.antt =====
-- Bootstrap codes of crates/sync/src/bootstrap.rs are read back as they were written.
use chatcommons.Prelude.{
  ℕ, ◌≡◌, ◌≢◌, refl, false, some, ◌++◌, length, ltb, ok, ◌>>=◌, >>=-eq-ok, ok_or, arith, take, ap,
}
use chatcommons.Prelude.Bytes.{Bytes, eq_bytes, eq_bytes_iff}
use chatcommons.Crypto.{Primitives, UserId}
use chatcommons.Protocol.{CommunityId, EventId, Codec, RoundTrips}
use chatcommons.Chat.Rules.{acceptance_bytes}
use chatcommons.Bootstrap.{
  Externals, BootstrapEnvelope, json, code_prefix, max_bootstrap_envelope_bytes,
  max_bootstrap_code_chars, is_bad_package, validate_components, strip_prefix, create_code,
  parse_code, validate, possession_proof_bytes,
}

-- What libp2p and base64 document: texts and encodings are read back.
pub record ReadsBack (x : Externals) : Type 0 where
  pub peers : (a : x.PeerId) → x.read_peer (x.show_peer a) ≡ some a
  pub addresses : (a : x.Multiaddr) → x.read_address (x.show_address a) ≡ some a
  pub base64 : (b : Bytes) → x.decode64 (x.encode64 b) ≡ some b

module _ (x : Externals) (reads : ReadsBack x) (envelope_codec : Codec BootstrapEnvelope) where
  -- If addresses, peers, base64 and JSON are read back as written, a code that `create_code` returns
  -- parses and validates to the package, the peer and the address that it was made of.
  pub create_code_restores :
      (invite_package : Bytes) (peer_id : x.PeerId) (address : x.Multiaddr) (code : Bytes)
      → RoundTrips envelope_codec
      → create_code x envelope_codec invite_package peer_id address ≡ ok code
      → (parse_code x envelope_codec code >>= validate x)
        ≡ ok (record { invite_package = invite_package; peer_id = peer_id; address = address })
  unfolding create_code parse_code validate strip_prefix
  create_code_restores invite_package peer_id address code faithful h =
      let envelope : BootstrapEnvelope = record {
        version = 1;
        invite_package = invite_package;
        peer_id = x.show_peer peer_id;
        address = x.show_address address;
      } in
      let bad : is_bad_package invite_package ≡ false = ground arith in
      let route : validate_components (x.components address) ≡ ok tt = ground arith in
      let (encoded, w, rest) =
        >>=-eq-ok (ok_or (envelope_codec.to_vec envelope) json) _ (rw (bad, route) at h) in
      let written : envelope_codec.to_vec envelope ≡ some encoded = ground arith in
      let small : ltb max_bootstrap_envelope_bytes (length encoded) ≡ false = ground arith in
      let whole : code_prefix ++ x.encode64 encoded ≡ code = ground arith in
      let short : ltb max_bootstrap_code_chars (length (code_prefix ++ x.encode64 encoded))
          ≡ false =
        ground arith in
      rw
        (
          ← whole,
          short,
          reads.base64 encoded,
          small,
          faithful envelope encoded written,
          bad,
          reads.peers peer_id,
          reads.addresses address,
          route,
        )
        refl

-- A capability key signs possession proofs and acceptances; no byte string is both.
pub possession_proof_bytes_apart :
    (x : Externals) (p : Primitives) (community : CommunityId) (invitation : EventId)
    (invitee : UserId) (device : ℕ) (client server : x.PeerId) (nonce : ℕ)
    (community' : CommunityId) (invitation' : EventId) (invitee' : UserId)
    → possession_proof_bytes x p community invitation invitee device client server nonce
      ≢ acceptance_bytes community' invitation' invitee'
unfolding possession_proof_bytes acceptance_bytes eq_bytes
possession_proof_bytes_apart x p c i u d cl sv n c' i' u' same =
    ground (arith, (eq_bytes_iff _ _).1 (ap (take 20) same))
