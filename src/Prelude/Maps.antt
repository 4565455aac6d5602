-- ===== src/Prelude/Maps.antt =====
-- `BTreeMap` of the standard library over identifiers: a list ascending in its keys.
use Prim.Native.Nat.{ℕ, suc, ◌≤◌}
use mathlib.Core.Path.{◌≡◌, refl, ap, ◌∙◌}
use mathlib.Core.Logic.{◌≢◌, ◌⊎◌, inl, inr}
use mathlib.Core.List.{List, [], ◌∷◌}
use mathlib.Core.Option.{Option, none, some}
use mathlib.Core.Bool.{Bool, true, false, not, ◌||◌}
use native.Mathlib.Omega.{arith}
use chatcommons.Prelude.Tests.{◌==◌, ltb, if◌then◌else◌, is_none, Bool-cases}
use chatcommons.Prelude.Lists.{length, In}
use chatcommons.Prelude.Sets
use chatcommons.Prelude.Sets.{contains}

abbrev pub Map {ℓ} : Type ℓ → Type ℓ
Map V = List (ℕ × V)

module _ {ℓ} {V : Type ℓ} where
  unfoldable pub lookup : ℕ → Map V → Option V
  lookup k [] = none
  lookup k ((x, v) ∷ m) = if k == x then some v else lookup k m

  unfoldable pub insert : ℕ → V → Map V → Map V
  insert k v [] = (k, v) ∷ []
  insert k v ((x, w) ∷ m) =
      let rest = insert k v m in
      if ltb k x then (k, v) ∷ (x, w) ∷ m else if k == x then (k, v) ∷ m else (x, w) ∷ rest

  unfoldable pub remove : ℕ → Map V → Map V
  remove k [] = []
  remove k ((x, v) ∷ m) = let rest = remove k m in if k == x then rest else (x, v) ∷ rest

  abbrev pub contains_key : ℕ → Map V → Bool
  contains_key k m = not (is_none (lookup k m))

  -- `entry(k).or_insert(v)`
  unfoldable pub or_insert : ℕ → V → Map V → Map V
  or_insert k v m = if contains_key k m then m else insert k v m

  abbrev pub keys : Map V → List ℕ
  keys [] = []
  keys ((k, v) ∷ m) = k ∷ keys m

  abbrev pub values : Map V → List V
  values [] = []
  values ((k, v) ∷ m) = v ∷ values m

  pub lookup-insert :
      (j k : ℕ) (v : V) (m : Map V)
      → lookup j (insert k v m) ≡ (if j == k then some v else lookup j m)
  unfolding lookup insert
  lookup-insert j k v [] = refl
  lookup-insert j k v ((x, w) ∷ m) = ground (arith, lookup-insert j k v m)

  pub lookup-remove :
      (j k : ℕ) (m : Map V) → lookup j (remove k m) ≡ (if j == k then none else lookup j m)
  unfolding lookup remove
  lookup-remove j k [] = ground arith
  lookup-remove j k ((x, w) ∷ m) = ground (arith, lookup-remove j k m)

  pub insert_comm :
      (j k : ℕ) (u v : V) (m : Map V)
      → j ≢ k
      → insert j u (insert k v m) ≡ insert k v (insert j u m)
  unfolding insert
  insert_comm j k u v [] h = ground arith
  insert_comm j k u v ((x, w) ∷ m) h = ground (arith, insert_comm j k u v m h)

  pub insert_twice : (k : ℕ) (v : V) (m : Map V) → insert k v (insert k v m) ≡ insert k v m
  unfolding insert
  insert_twice k v [] = ground arith
  insert_twice k v ((x, w) ∷ m) = ground (arith, insert_twice k v m)

  pub contains-keys : (j : ℕ) (m : Map V) → contains j (keys m) ≡ contains_key j m
  unfolding lookup contains
  contains-keys j [] = refl
  contains-keys j ((x, w) ∷ m) = ground (arith, contains-keys j m)

  pub lookup-some : (j : ℕ) (m : Map V) → contains_key j m ≡ true → (v : V) × (lookup j m ≡ some v)
  lookup-some j m h = go (lookup j m) refl
    where
      go : (o : Option V) → lookup j m ≡ o → (v : V) × (lookup j m ≡ some v)
      go none e = cc (rw e at h)
      go (some v) e = (v, e)

  pub keys-insert : (k : ℕ) (v : V) (m : Map V) → keys (insert k v m) ≡ Sets.insert k (keys m)
  unfolding insert Sets.insert
  keys-insert k v [] = refl
  keys-insert k v ((x, w) ∷ m) = ground (arith, keys-insert k v m)

  pub keys-remove : (k : ℕ) (m : Map V) → keys (remove k m) ≡ Sets.remove k (keys m)
  unfolding remove Sets.remove
  keys-remove k [] = refl
  keys-remove k ((x, w) ∷ m) = ground (arith, keys-remove k m)

  pub length-keys : (m : Map V) → length (keys m) ≡ length m
  length-keys [] = refl
  length-keys ((x, w) ∷ m) = ap suc (length-keys m)

  pub contains-lookup :
      (j : ℕ) (m : Map V) {v : V} → lookup j m ≡ some v → contains j (keys m) ≡ true
  contains-lookup j m h = contains-keys j m ∙ ground arith

  pub length-remove-le : (k : ℕ) (m : Map V) → length (remove k m) ≤ length m
  length-remove-le k m = omega (
    arith,
    length-keys m,
    length-keys (remove k m),
    ap length (keys-remove k m),
    Sets.length-remove-le k (keys m),
  )

  -- What an entry comes from.
  pub lookup-or_insert :
      (j k : ℕ) (v w : V) (m : Map V)
      → lookup j (or_insert k v m) ≡ some w
      → (lookup j m ≡ some w) ⊎ ((j ≡ k) × (w ≡ v))
  unfolding or_insert
  lookup-or_insert j k v w m h = ground (arith, lookup-insert j k v m)

  pub keys-or_insert :
      (j k : ℕ) (v : V) (m : Map V)
      → contains j (keys (or_insert k v m)) ≡ (j == k || contains j (keys m))
  unfolding or_insert
  keys-or_insert j k v m = ground (
    arith,
    contains-keys j m,
    contains-keys k m,
    ap (contains j) (keys-insert k v m),
    Sets.contains-insert j k (keys m),
  )

-- What holds of every entry of a map.
module _ {ℓ} {V : Type ℓ} where
  abbrev pub Every : (ℕ → V → Type 0) → Map V → Type ℓ
  Every P m = (k : ℕ) (v : V) → lookup k m ≡ some v → P k v

  pub Every-insert :
      (P : ℕ → V → Type 0) (k : ℕ) (v : V) (m : Map V) → P k v → Every P m → Every P (insert k v m)
  Every-insert P k v m here all j w l = placed (Bool-cases (j == k))
    where
      placed : ((j == k) ≡ true) ⊎ ((j == k) ≡ false) → P j w
      placed (inl t) =
          let same : j ≡ k = ground arith in
          let value : w ≡ v = ground (arith, lookup-insert j k v m) in rw (same, value) here
      placed (inr f) = all j w (ground (arith, lookup-insert j k v m))

  pub Every-remove : (P : ℕ → V → Type 0) (k : ℕ) (m : Map V) → Every P m → Every P (remove k m)
  Every-remove P k m all j w l = all j w (ground (arith, lookup-remove j k m))

module _ {V : Type 0} where
  -- A key of the rest of a map that ascends is not its first key.
  pub skips :
      (x k : ℕ) (v w : V) (m : Map V)
      → contains x (keys m) ≡ false
      → lookup k m ≡ some w
      → lookup k ((x, v) ∷ m) ≡ some w
  unfolding lookup
  skips x k v w m h l = elim (Bool-cases (k == x)) [
    | inl same ↦ absurd (ground (arith, contains-lookup k m l))
    | inr other ↦ rw other l
  ]

  -- The values of a map in order are its entries.
  pub values-Every :
      (P : ℕ → V → Type 0) (m : Map V) (v : V)
      → Sets.IsAscending (keys m)
      → Every P m
      → In v (values m)
      → (k : ℕ) × P k v
  unfolding lookup
  values-Every P [] v a all i = absurd i
  values-Every P ((k, w) ∷ m) v a all (inl same) = (k, all k v (ground (arith, same)))
  values-Every P ((k, w) ∷ m) v a all (inr later) =
      values-Every P m v (Sets.IsAscending-above k (keys m) a)
        (λ j d l. all j d (skips k j w d m (Sets.Distinct-of_IsAscending (k ∷ keys m) a).0 l)) later
