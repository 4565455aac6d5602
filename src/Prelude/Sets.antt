-- ===== src/Prelude/Sets.antt =====
-- `BTreeSet` of the standard library over identifiers: an ascending list.
use Prim.Native.Nat.{ℕ, suc, ◌<◌, ◌≤◌}
use mathlib.Core.Path.{◌≡◌, refl}
use mathlib.Core.Logic.{inl, inr}
use mathlib.Core.List.{List, [], ◌∷◌}
use mathlib.Core.Bool.{Bool, true, false, ◌&&◌, ◌||◌, not}
use native.Mathlib.Omega.{arith}
use chatcommons.Prelude.Tests.{◌==◌, ltb, if◌then◌else◌, Bool-cases}
use chatcommons.Prelude.Lists.{All, length}

abbrev pub Set : Type 0
Set = List ℕ

unfoldable pub contains : ℕ → Set → Bool
contains k [] = false
contains k (x ∷ xs) = k == x || contains k xs

unfoldable pub insert : ℕ → Set → Set
insert k [] = k ∷ []
insert k (x ∷ xs) =
    let rest = insert k xs in if ltb k x then k ∷ x ∷ xs else if k == x then x ∷ xs else x ∷ rest

unfoldable pub remove : ℕ → Set → Set
remove k [] = []
remove k (x ∷ xs) = let rest = remove k xs in if k == x then rest else x ∷ rest

-- `extend` of a set, and `collect` into one.
unfoldable pub extend : List ℕ → Set → Set
extend [] s = s
extend (k ∷ ks) s = extend ks (insert k s)

abbrev pub collect : List ℕ → Set
collect ks = extend ks []

-- The least elements come first, and no element twice.
abbrev pub IsAbove : ℕ → Set → Type 0
IsAbove k [] = Unit
IsAbove k (x ∷ xs) = (k < x) × IsAbove x xs

abbrev pub IsAscending : Set → Type 0
IsAscending [] = Unit
IsAscending (x ∷ xs) = IsAbove x xs

pub contains-insert : (j k : ℕ) (s : Set) → contains j (insert k s) ≡ (j == k || contains j s)
unfolding contains insert
contains-insert j k [] = ground arith
contains-insert j k (x ∷ xs) = ground (arith, contains-insert j k xs)

pub contains-remove : (j k : ℕ) (s : Set) → contains j (remove k s) ≡ (not (j == k) && contains j s)
unfolding contains remove
contains-remove j k [] = ground arith
contains-remove j k (x ∷ xs) = ground (arith, contains-remove j k xs)

pub insert_comm : (j k : ℕ) (s : Set) → insert j (insert k s) ≡ insert k (insert j s)
unfolding insert
insert_comm j k [] = ground arith
insert_comm j k (x ∷ xs) = ground (arith, insert_comm j k xs)

IsAbove-insert : (b k : ℕ) (s : Set) → b < k → IsAbove b s → IsAbove b (insert k s)
unfolding insert
IsAbove-insert b k [] h s = (h, tt)
IsAbove-insert b k (x ∷ xs) h s = ground (arith, IsAbove-insert x k xs)

pub IsAscending-insert : (k : ℕ) (s : Set) → IsAscending s → IsAscending (insert k s)
unfolding insert
IsAscending-insert k [] h = tt
IsAscending-insert k (x ∷ xs) h = ground (arith, IsAbove-insert x k xs)

pub length-remove-le : (k : ℕ) (s : Set) → length (remove k s) ≤ length s
unfolding remove
length-remove-le k [] = omega arith
length-remove-le k (x ∷ xs) = ground (arith, length-remove-le k xs)

pub length-remove-lt : (k : ℕ) (s : Set) → contains k s ≡ true → length (remove k s) < length s
unfolding remove contains
length-remove-lt k [] h = cc
length-remove-lt k (x ∷ xs) h = ground (arith, length-remove-le k xs, length-remove-lt k xs)

pub IsAbove-lt : (j b : ℕ) (xs : Set) → j < b → IsAbove b xs → IsAbove j xs
IsAbove-lt j b [] h a = tt
IsAbove-lt j b (x ∷ xs) h a = (omega arith, a.1)

-- What lies above something ascends.
pub IsAscending-above : (b : ℕ) (xs : Set) → IsAbove b xs → IsAscending xs
IsAscending-above b [] h = tt
IsAscending-above b (x ∷ xs) h = h.1

IsAbove-remove : (b k : ℕ) (xs : Set) → IsAbove b xs → IsAbove b (remove k xs)
unfolding remove
IsAbove-remove b k [] a = tt
IsAbove-remove b k (x ∷ xs) a = ground (arith, IsAbove-remove x k xs, IsAbove-lt b x (remove k xs))

pub IsAscending-remove : (k : ℕ) (s : Set) → IsAscending s → IsAscending (remove k s)
unfolding remove
IsAscending-remove k [] a = tt
IsAscending-remove k (x ∷ xs) a = elim (Bool-cases (k == x)) [
  | inl e ↦ rw e (IsAscending-remove k xs (IsAscending-above x xs a))
  | inr e ↦ rw e (IsAbove-remove x k xs a)
]

pub IsAscending-extend : (ks : List ℕ) (s : Set) → IsAscending s → IsAscending (extend ks s)
unfolding extend
IsAscending-extend [] s a = a
IsAscending-extend (k ∷ ks) s a = IsAscending-extend ks (insert k s) (IsAscending-insert k s a)

pub IsAscending-collect : (ks : List ℕ) → IsAscending (collect ks)
IsAscending-collect ks = IsAscending-extend ks [] tt

pub contains-extend :
    (j : ℕ) (ks : List ℕ) (s : Set) → contains j (extend ks s) ≡ (contains j ks || contains j s)
unfolding extend contains
contains-extend j [] s = refl
contains-extend j (k ∷ ks) s =
    ground (arith, contains-extend j ks (insert k s), contains-insert j k s)

-- No element twice.
abbrev pub Distinct : List ℕ → Type 0
Distinct [] = Unit
Distinct (x ∷ xs) = (contains x xs ≡ false) × Distinct xs

contains-IsAbove : (j b : ℕ) (xs : Set) → j < suc b → IsAbove b xs → contains j xs ≡ false
unfolding contains
contains-IsAbove j b [] h a = refl
contains-IsAbove j b (x ∷ xs) h a = ground (arith, contains-IsAbove j x xs)

pub Distinct-of_IsAscending : (s : Set) → IsAscending s → Distinct s
Distinct-of_IsAscending [] a = tt
Distinct-of_IsAscending (x ∷ []) a = (contains-IsAbove x x [] (omega arith) tt, tt)
Distinct-of_IsAscending (x ∷ y ∷ xs) a =
    (contains-IsAbove x x (y ∷ xs) (omega arith) a, Distinct-of_IsAscending (y ∷ xs) a.1)

pub All-contains :
    (xs ys : List ℕ)
    → ((x : ℕ) → contains x xs ≡ true → contains x ys ≡ true)
    → All (λ x. contains x ys ≡ true) xs
unfolding contains
All-contains [] ys f = tt
All-contains (x ∷ xs) ys f = (f x (ground arith), All-contains xs ys (λ y h. f y (ground arith)))

pub All-contains_self : (xs : List ℕ) → All (λ x. contains x xs ≡ true) xs
All-contains_self xs = All-contains xs xs (λ x h. h)

length-remove_absent : (k : ℕ) (s : Set) → contains k s ≡ false → length (remove k s) ≡ length s
unfolding remove contains
length-remove_absent k [] h = refl
length-remove_absent k (x ∷ xs) h = ground (arith, length-remove_absent k xs)

-- Exactly one element goes.
pub length-remove :
    (k : ℕ) (s : Set) → Distinct s → contains k s ≡ true → suc (length (remove k s)) ≡ length s
unfolding remove contains
length-remove k [] d h = cc
length-remove k (x ∷ xs) d h = ground (arith, length-remove k xs, length-remove_absent x xs)

-- A list without duplicates is no longer than one that has all its elements.
pub length-subset-le :
    (xs ys : List ℕ)
    → Distinct xs
    → ((j : ℕ) → contains j xs ≡ true → contains j ys ≡ true)
    → length xs ≤ length ys
unfolding contains
length-subset-le [] ys d sub = omega arith
length-subset-le (x ∷ xs) ys d sub =
    let here = sub x (ground arith) in
    let rest =
      length-subset-le xs (remove x ys) d.1
        (λ j h. ground (arith, contains-remove j x ys, sub j, d.0)) in
    omega (arith, rest, length-remove-lt x ys here)

pub contains-All : (P : ℕ → Type 0) (s : Set) → ((k : ℕ) → contains k s ≡ true → P k) → All P s
unfolding contains
contains-All P [] h = tt
contains-All P (x ∷ xs) h = (h x (ground arith), contains-All P xs (λ k c. h k (ground (arith, c))))
