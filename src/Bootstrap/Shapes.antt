-- ===== src/Bootstrap/Shapes.antt =====
-- The shapes of routes for `validate_address` of crates/sync/src/bootstrap.rs.
use chatcommons.Prelude.{◌≡◌, true, false, List, [], ◌∷◌, ◌++◌, any}
use chatcommons.Bootstrap.{
  Component, p2p, p2p_circuit, quic_v1, is_p2p, is_circuit, is_udp, has_transport,
}

-- Components that name no peer and no circuit.
abbrev pub IsPlain : List Component → Type 0
IsPlain cs = (any is_p2p cs ≡ false) × (any is_circuit cs ≡ false)

-- QUIC over UDP, with QUIC last.
pub record IsDirect (cs : List Component) : Type 0 where
  pub front : List Component
  pub shape : cs ≡ front ++ quic_v1 ∷ []
  pub plain : IsPlain front
  pub over_udp : any is_udp front ≡ true

-- A relay that is reached by TCP or by QUIC over UDP, its peer, and the circuit last.
pub record IsRelayed (cs : List Component) : Type 0 where
  pub front : List Component
  pub shape : cs ≡ front ++ p2p ∷ p2p_circuit ∷ []
  pub plain : IsPlain front
  pub reached : has_transport front ≡ true
