-- ===== src/Bootstrap/Direct.antt =====
-- The direct routes of crates/sync/src/bootstrap.rs.
use chatcommons.Prelude.{◌≡◌, refl, true, List, [], ◌∷◌, ◌++◌, any, arith, ap, ◌∙◌}
use chatcommons.Bootstrap.{
  Component, quic_v1, is_p2p, is_circuit, is_udp, ends_in_quic, direct_quic,
}
use chatcommons.Bootstrap.Positions.{positions_none, any-append}
use chatcommons.Bootstrap.Shapes.{IsPlain, IsDirect}

ends_in_quic-append : (front : List Component) → ends_in_quic (front ++ quic_v1 ∷ []) ≡ true
unfolding ends_in_quic
ends_in_quic-append [] = refl
ends_in_quic-append (c ∷ []) = refl
ends_in_quic-append (c ∷ d ∷ front) = ends_in_quic-append (d ∷ front)

last_quic :
    (cs : List Component)
    → ends_in_quic cs ≡ true
    → (front : List Component) × (cs ≡ front ++ quic_v1 ∷ [])
unfolding ends_in_quic
last_quic [] h = cc
last_quic (quic_v1 ∷ []) h = ([], refl)
last_quic (_ ∷ []) h = cc
last_quic (c ∷ d ∷ cs) h = let (front, e) = last_quic (d ∷ cs) h in (c ∷ front, ap (λ xs. c ∷ xs) e)

pub direct_quic_sound : (cs : List Component) → direct_quic cs ≡ true → IsDirect cs
unfolding direct_quic
direct_quic_sound cs h =
    let (front, e) = last_quic cs (ground arith) in
    let peers = (positions_none is_p2p 0 cs).0 (ground arith) in
    let circuits = (positions_none is_circuit 0 cs).0 (ground arith) in
    let datagrams : any is_udp cs ≡ true = ground arith in
    record {
      front = front;
      shape = e;
      plain = (
        ground (arith, any-append is_p2p front (quic_v1 ∷ []), ap (any is_p2p) e),
        ground (arith, any-append is_circuit front (quic_v1 ∷ []), ap (any is_circuit) e),
      );
      over_udp = ground (arith, any-append is_udp front (quic_v1 ∷ []), ap (any is_udp) e);
    }

pub direct_quic_complete :
    (front : List Component)
    → IsPlain front
    → any is_udp front ≡ true
    → direct_quic (front ++ quic_v1 ∷ []) ≡ true
unfolding direct_quic
direct_quic_complete front (np, nc) u = ground (
  arith,
  (positions_none is_p2p 0 (front ++ quic_v1 ∷ [])).1
      (any-append is_p2p front (quic_v1 ∷ []) ∙ ground arith),
  (positions_none is_circuit 0 (front ++ quic_v1 ∷ [])).1
      (any-append is_circuit front (quic_v1 ∷ []) ∙ ground arith),
  ends_in_quic-append front,
  any-append is_udp front (quic_v1 ∷ []),
)
