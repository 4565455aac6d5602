-- ===== src/Bootstrap/Relayed.antt =====
-- The relay routes of crates/sync/src/bootstrap.rs.
use chatcommons.Prelude.{
  ℕ, suc, ◌+◌, ◌≡◌, refl, true, false, List, [], ◌∷◌, ◌++◌, length, take, arith, ap, sym, ◌∙◌,
  subst, length-append,
}
use chatcommons.Bootstrap.{
  Component, p2p, p2p_circuit, udp, tcp, quic_v1, other, is_p2p, is_circuit, positions,
  has_transport, relay_positions, relay_route,
}
use chatcommons.Bootstrap.Positions.{positions-append, positions_from}
use chatcommons.Bootstrap.Shapes.{IsPlain, IsRelayed}

head_eq : {x y : ℕ} {xs ys : List ℕ} → x ∷ xs ≡ y ∷ ys → x ≡ y
head_eq e = cc

-- A component in front that is neither.
RelayShape : ℕ → List Component → ℕ → Type 0
RelayShape k cs i =
    (front : List Component) × (cs ≡ front ++ p2p ∷ p2p_circuit ∷ [])
    × IsPlain front
    × (k + length front ≡ i)

RelayShape-cons :
    (k : ℕ) (c : Component) (cs : List Component) (i : ℕ)
    → (is_p2p c ≡ false) × (is_circuit c ≡ false)
    → RelayShape (suc k) cs i
    → RelayShape k (c ∷ cs) i
unfolding RelayShape
RelayShape-cons k c cs i plain (front, e, (np, nc), n) =
    (c ∷ front, ap (λ xs. c ∷ xs) e, (ground arith, ground arith), omega arith)

-- The one peer at `i` and the one circuit after it, which ends the list that begins at `k`.
relay_shape :
    (k : ℕ) (cs : List Component) (i : ℕ)
    → positions is_p2p k cs ≡ i ∷ []
    → positions is_circuit k cs ≡ suc i ∷ []
    → suc (suc i) ≡ k + length cs
    → RelayShape k cs i
unfolding positions RelayShape
relay_shape k [] i a b n = cc
relay_shape k (p2p ∷ []) i a b n = cc
relay_shape k (p2p ∷ p2p_circuit ∷ []) i a b n = ([], refl, (refl, refl), omega (arith, head_eq a))
relay_shape k (p2p ∷ _ ∷ []) i a b n = cc
relay_shape k (p2p ∷ c ∷ d ∷ cs) i a b n = absurd (omega (arith, head_eq a))
relay_shape k (p2p_circuit ∷ cs) i a b n =
    absurd (omega (arith, positions_from is_p2p (suc k) cs i a, head_eq b))
relay_shape k (udp ∷ cs) i a b n =
    RelayShape-cons k udp cs i (refl, refl) (relay_shape (suc k) cs i a b (omega arith))
relay_shape k (tcp ∷ cs) i a b n =
    RelayShape-cons k tcp cs i (refl, refl) (relay_shape (suc k) cs i a b (omega arith))
relay_shape k (quic_v1 ∷ cs) i a b n =
    RelayShape-cons k quic_v1 cs i (refl, refl) (relay_shape (suc k) cs i a b (omega arith))
relay_shape k (other ∷ cs) i a b n =
    RelayShape-cons k other cs i (refl, refl) (relay_shape (suc k) cs i a b (omega arith))

take_front : (front cs : List Component) → take (length front) (front ++ cs) ≡ front
take_front [] cs = refl
take_front (c ∷ front) cs = ap (λ xs. c ∷ xs) (take_front front cs)

pub relay_route_sound : (cs : List Component) → relay_route cs ≡ true → IsRelayed cs
unfolding relay_route RelayShape
relay_route_sound cs h = through (positions is_p2p 0 cs) (positions is_circuit 0 cs) refl refl h
  where
    through :
        (is js : List ℕ)
        → positions is_p2p 0 cs ≡ is
        → positions is_circuit 0 cs ≡ js
        → relay_positions cs is js ≡ true
        → IsRelayed cs
    through (i ∷ []) (j ∷ []) a b r =
        let next : suc i ≡ j = ground arith in
        let (front, e, plain, n) =
          relay_shape 0 cs i a (b ∙ ap (λ m. m ∷ []) (sym next)) (ground arith) in
        let before =
          ap (take i) e
          ∙ ap (λ m. take m (front ++ p2p ∷ p2p_circuit ∷ [])) (omega (arith, n))
          ∙ take_front front _ in
        record {
          front = front;
          shape = e;
          plain = plain;
          reached = subst (λ xs. has_transport xs ≡ true) before (ground arith);
        }
    through _ _ a b r = cc

pub relay_route_complete :
    (front : List Component)
    → IsPlain front
    → has_transport front ≡ true
    → relay_route (front ++ p2p ∷ p2p_circuit ∷ []) ≡ true
unfolding relay_route positions
relay_route_complete front (np, nc) t =
    rw
      (
        positions-append is_p2p 0 front (p2p ∷ p2p_circuit ∷ []) np,
        positions-append is_circuit 0 front (p2p ∷ p2p_circuit ∷ []) nc,
      )
      (ground (
        arith,
        length-append front (p2p ∷ p2p_circuit ∷ []),
        take_front front (p2p ∷ p2p_circuit ∷ []),
        ap (λ m. take m (front ++ p2p ∷ p2p_circuit ∷ [])) here,
        t,
      ))
  where
    here : 0 + length front ≡ length front
    here = omega arith
