-- ===== src/Sync/Requests.antt =====
-- The requests of crates/sync/src/lib.rs: `want_messages` and its chunks.
use chatcommons.Prelude.{
  ℕ, zero, suc, ◌≤◌, ◌≡◌, refl, true, List, [], ◌∷◌, ◌++◌, length, take, drop, map, All, arith, ap,
  ◌∙◌, take-append-drop, ok,
}
use chatcommons.Crypto.{Primitives}
use chatcommons.Protocol.{EventId, CommunityId, strictly_sorted}
use chatcommons.Sync.{
  want, max_ids_per_message, chunks, want_messages, validate_ids, validate_items,
}
use chatcommons.Sync.Batching.{wanted}

length-drop-le : (n : ℕ) (xs : List ℕ) → length (drop n xs) ≤ length xs
length-drop-le zero xs = omega arith
length-drop-le (suc n) [] = omega arith
length-drop-le (suc n) (x ∷ xs) = omega (arith, length-drop-le n xs)

length-take-le : (n : ℕ) (xs : List ℕ) → length (take n xs) ≤ n
length-take-le zero xs = omega arith
length-take-le (suc n) [] = omega arith
length-take-le (suc n) (x ∷ xs) = omega (arith, length-take-le n xs)

strictly_sorted-take :
    (n : ℕ) (xs : List ℕ) → strictly_sorted xs ≡ true → strictly_sorted (take n xs) ≡ true
unfolding strictly_sorted
strictly_sorted-take zero xs h = refl
strictly_sorted-take (suc n) [] h = refl
strictly_sorted-take (suc zero) (x ∷ xs) h = refl
strictly_sorted-take (suc (suc n)) (x ∷ []) h = refl
strictly_sorted-take (suc (suc n)) (x ∷ y ∷ xs) h =
    ground (arith, strictly_sorted-take (suc n) (y ∷ xs))

strictly_sorted-drop :
    (n : ℕ) (xs : List ℕ) → strictly_sorted xs ≡ true → strictly_sorted (drop n xs) ≡ true
unfolding strictly_sorted
strictly_sorted-drop zero xs h = h
strictly_sorted-drop (suc n) [] h = refl
strictly_sorted-drop (suc n) (x ∷ []) h = strictly_sorted-drop n [] refl
strictly_sorted-drop (suc n) (x ∷ y ∷ xs) h = strictly_sorted-drop n (y ∷ xs) (ground arith)

module _ (p : Primitives) (community : CommunityId) where
  requests_cover :
      (fuel : ℕ) (ids : List EventId)
      → length ids ≤ fuel
      → strictly_sorted ids ≡ true
      → (wanted (map (λ chunk. want community chunk) (chunks fuel max_ids_per_message ids)) ≡ ids)
        × All
            (λ m. validate_items p m ≡ ok tt)
            (map (λ chunk. want community chunk) (chunks fuel max_ids_per_message ids))
  unfolding chunks validate_items validate_ids
  requests_cover zero [] n h = (refl, tt)
  requests_cover zero (x ∷ xs) n h = absurd (omega arith)
  requests_cover (suc fuel) [] n h = (refl, tt)
  requests_cover (suc fuel) (x ∷ xs) n h =
      let (all, valid) =
        requests_cover fuel (drop 64 (x ∷ xs)) (omega (arith, length-drop-le 63 xs))
          (strictly_sorted-drop 64 (x ∷ xs) h) in
      (
        ap (λ ys. take 64 (x ∷ xs) ++ ys) all ∙ take-append-drop 64 (x ∷ xs),
        (ground (arith, length-take-le 64 (x ∷ xs), strictly_sorted-take 64 (x ∷ xs) h), valid),
      )

  -- For identifiers in strictly ascending order, the messages of `want_messages` ask for exactly these,
  -- in this order, and each of them keeps the limits on messages.
  pub want_messages_cover :
      (ids : List EventId)
      → strictly_sorted ids ≡ true
      → (wanted (want_messages community ids) ≡ ids)
        × All (λ m. validate_items p m ≡ ok tt) (want_messages community ids)
  unfolding want_messages
  want_messages_cover ids h = requests_cover (length ids) ids (omega arith) h
