-- ===== src/Bootstrap/Positions.antt =====
-- Positions in an address, for `validate_address` of crates/sync/src/bootstrap.rs.
use chatcommons.Prelude.{
  ℕ, suc, ◌+◌, ◌≤◌, ◌≡◌, ◌↔◌, refl, Bool, true, false, ◌||◌, List, [], ◌∷◌, ◌++◌, length, any,
  arith, ap, is_empty,
}
use chatcommons.Bootstrap.{Component, positions}

module _ (f : Component → Bool) where
  pub positions_none :
      (k : ℕ) (cs : List Component) → (is_empty (positions f k cs) ≡ true) ↔ (any f cs ≡ false)
  unfolding positions
  positions_none k [] = (λ h. refl, λ h. refl)
  positions_none k (c ∷ cs) = (
    λ h. ground (arith, (positions_none (suc k) cs).0),
    λ h. ground (arith, (positions_none (suc k) cs).1),
  )

  pub positions-append :
      (k : ℕ) (front cs : List Component)
      → any f front ≡ false
      → positions f k (front ++ cs) ≡ positions f (k + length front) cs
  unfolding positions
  positions-append k [] cs h = ap (λ n. positions f n cs) (omega arith)
  positions-append k (c ∷ front) cs h =
      let later = positions-append (suc k) front cs (ground arith) in
      let here : suc k + length front ≡ k + suc (length front) = omega arith in
      ground (arith, later, ap (λ n. positions f n cs) here)

  -- No position lies before the start.
  pub positions_from : (k : ℕ) (cs : List Component) (i : ℕ) → positions f k cs ≡ i ∷ [] → k ≤ i
  unfolding positions
  positions_from k [] i h = cc
  positions_from k (c ∷ cs) i h = ground (arith, positions_from (suc k) cs i)

  pub any-append : (xs ys : List Component) → any f (xs ++ ys) ≡ (any f xs || any f ys)
  any-append [] ys = refl
  any-append (x ∷ xs) ys = ground (arith, any-append xs ys)
