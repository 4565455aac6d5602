-- ===== src/Bootstrap/Routes.antt =====
-- The routes that `validate_address` of crates/sync/src/bootstrap.rs accepts, described by their shape.
use chatcommons.Prelude.{
  ◌≡◌, ◌⊎◌, ◌↔◌, inl, inr, refl, false, List, [], ◌∷◌, ◌++◌, ok, arith, is_empty, Bool-cases,
}
use chatcommons.Bootstrap.{Component, p2p, p2p_circuit, quic_v1, direct_quic, validate_components}
use chatcommons.Bootstrap.Shapes.{IsDirect, IsRelayed}
use chatcommons.Bootstrap.Direct.{direct_quic_sound, direct_quic_complete}
use chatcommons.Bootstrap.Relayed.{relay_route_sound, relay_route_complete}

nonempty :
    (front : List Component) (c : Component) (cs : List Component)
    → is_empty (front ++ c ∷ cs) ≡ false
nonempty [] c cs = refl
nonempty (d ∷ front) c cs = refl

-- `validate_address` accepts exactly the addresses whose components are plain ones with UDP and then
-- QUIC, or plain ones with a transport and then a relay's peer and the circuit.
pub validate_components_iff :
    (cs : List Component) → (validate_components cs ≡ ok tt) ↔ (IsDirect cs ⊎ IsRelayed cs)
unfolding validate_components
validate_components_iff cs = (
  λ h. elim (Bool-cases (direct_quic cs)) [
    | inl d ↦ inl (direct_quic_sound cs d)
    | inr n ↦ inr (relay_route_sound cs (ground arith))
  ],
  λ route. elim route [
    | inl d ↦ rw d.shape (
        ground
          (arith, nonempty d.front quic_v1 [], direct_quic_complete d.front d.plain d.over_udp))
    | inr r ↦ rw r.shape (
        ground (
          arith,
          nonempty r.front p2p (p2p_circuit ∷ []),
          relay_route_complete r.front r.plain r.reached,
        ))
  ],
)
