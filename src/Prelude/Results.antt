-- ===== src/Prelude/Results.antt =====
-- `Result` of the standard library, with `?` as bind, and the chain of `Option`.
use mathlib.Core.Path.{◌≡◌, refl}
use mathlib.Core.Logic.{◌⊎◌, inl, inr}
use mathlib.Core.Bool.{Bool, true, false}
use mathlib.Core.Option.{Option, none, some}

pub data Result {ℓ} (E A : Type ℓ) : Type ℓ where
  ok : A → Result E A
  err : E → Result E A

module _ {ℓ} {E A B : Type ℓ} where
  infixl 5 ◌>>=◌
  -- `?` hands the value on, or returns early with the error.
  abbrev pub ◌>>=◌ : Result E A → (A → Result E B) → Result E B
  ok value >>= next = next value
  err error >>= next = err error

  -- A chain that succeeds had a value at its first step.
  pub >>=-eq-ok :
      (first : Result E A) (next : A → Result E B) {result : B}
      → (first >>= next) ≡ ok result
      → (value : A) × (first ≡ ok value) × (next value ≡ ok result)
  >>=-eq-ok (err error) next done = cc
  >>=-eq-ok (ok value) next done = (value, refl, done)

module _ {ℓ} {E A : Type ℓ} where
  infixl 5 ◌>>◌
  abbrev pub ◌>>◌ : Result E (Unit {ℓ}) → Result E A → Result E A
  ok checked >> rest = rest
  err error >> rest = err error

  -- `map_err(|_| e)`
  abbrev pub map_err : {F : Type ℓ} → (E → F) → Result E A → Result F A
  map_err f (err error) = err (f error)
  map_err f (ok value) = ok value

  -- `ok_or(e)`
  abbrev pub ok_or : Option A → E → Result E A
  ok_or (some value) error = ok value
  ok_or none error = err error

-- `if test { return Err(e) }`
abbrev pub fail_if {ℓ} : {E : Type ℓ} → Bool → E → Result E (Unit {ℓ})
fail_if false error = ok tt
fail_if true error = err error

-- A result is one or the other.
pub Result-cases {ℓ} :
    {E A : Type ℓ} (r : Result E A)
    → ((error : E) × (r ≡ err error)) ⊎ ((value : A) × (r ≡ ok value))
Result-cases (err error) = inl (error, refl)
Result-cases (ok value) = inr (value, refl)
