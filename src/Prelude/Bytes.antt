-- ===== src/Prelude/Bytes.antt =====
-- Byte sequences, `to_be_bytes` and text constants.
use Prim.Native.Nat.{ℕ, zero, suc, ◌+◌, ◌-◌, ◌*◌, ◌/◌, ◌%◌, ◌^◌, ◌<◌}
use Prim.Native.Char.{code}
use Prim.Native.String.{String}
use mathlib.Core.Path.{◌≡◌, refl, ap}
use mathlib.Core.List.{List, [], ◌∷◌, ◌++◌}
use mathlib.Core.Bool.{Bool, true, false, ◌&&◌}
use mathlib.Core.Logic.{◌↔◌}
use native.Mathlib.Nat.{pow-suc}
use native.Mathlib.Omega.{arith}
use mathlib.Core.Option.{Option, none, some}
use chatcommons.Prelude.Tests.{◌==◌, if◌then◌else◌}
use chatcommons.Prelude.Lists.{length, length-append, append_cancel_end}

abbrev pub Bytes : Type 0
Bytes = List ℕ

-- The bytes of an ASCII text.
abbrev pub codes : String → Bytes
codes String.[] = []
codes (String.◌∷◌ c s) = code c ∷ codes s

-- `to_be_bytes` of an unsigned integer of `w` bytes.
unfoldable pub be_bytes : ℕ → ℕ → Bytes
be_bytes zero n = []
be_bytes (suc w) n = be_bytes w (n / 256) ++ n % 256 ∷ []

pub length-be_bytes : (w n : ℕ) → length (be_bytes w n) ≡ w
unfolding be_bytes
length-be_bytes zero n = refl
length-be_bytes (suc w) n =
    omega (arith, length-append (be_bytes w (n / 256)) (n % 256 ∷ []), length-be_bytes w (n / 256))

high_part : (w n : ℕ) → n < 256 ^ suc w → n / 256 < 256 ^ w
high_part w n h = let bound : n < 256 ^ w * 256 = rw (← pow-suc) h in omega arith

pub be_bytes-injective :
    (w n m : ℕ) → n < 256 ^ w → m < 256 ^ w → be_bytes w n ≡ be_bytes w m → n ≡ m
unfolding be_bytes
be_bytes-injective zero n m hn hm e = omega arith
be_bytes-injective (suc w) n m hn hm e =
    let (hi, lo) = append_cancel_end (be_bytes w (n / 256)) (be_bytes w (m / 256)) _ _ refl e in
    let rest = be_bytes-injective w (n / 256) (m / 256) (high_part w n hn) (high_part w m hm) hi in
    let low : n % 256 ≡ m % 256 = ground arith in omega (arith, rest, low)

-- `==` on byte sequences.
unfoldable pub eq_bytes : Bytes → Bytes → Bool
eq_bytes [] [] = true
eq_bytes [] (y ∷ ys) = false
eq_bytes (x ∷ xs) [] = false
eq_bytes (x ∷ xs) (y ∷ ys) = x == y && eq_bytes xs ys

pub eq_bytes_iff : (xs ys : Bytes) → (eq_bytes xs ys ≡ true) ↔ (xs ≡ ys)
unfolding eq_bytes
eq_bytes_iff [] [] = ground arith
eq_bytes_iff [] (y ∷ ys) = ground arith
eq_bytes_iff (x ∷ xs) [] = ground arith
eq_bytes_iff (x ∷ xs) (y ∷ ys) = ground (arith, eq_bytes_iff xs ys)

-- `try_into` from a slice to an array of `n` bytes.
abbrev pub to_array : ℕ → Bytes → Option Bytes
to_array n bs = if length bs == n then some bs else none

-- Signed integers; `negsuc n` is -(n + 1).
pub data ℤ : Type 0 where
  pos : ℕ → ℤ
  negsuc : ℕ → ℤ

abbrev pub IsI64 : ℤ → Type 0
IsI64 (pos n) = n < 2 ^ 63
IsI64 (negsuc n) = n < 2 ^ 63

-- `to_be_bytes` of an `i64`, in two's complement.
abbrev pub i64_word : ℤ → ℕ
i64_word (pos n) = n
i64_word (negsuc n) = 2 ^ 64 - 1 - n

unfoldable pub i64_bytes : ℤ → Bytes
i64_bytes t = be_bytes 8 (i64_word t)

pub length-i64_bytes : (t : ℤ) → length (i64_bytes t) ≡ 8
unfolding i64_bytes
length-i64_bytes t = length-be_bytes 8 (i64_word t)

i64_word-injective : (s t : ℤ) → IsI64 s → IsI64 t → i64_word s ≡ i64_word t → s ≡ t
i64_word-injective (pos n) (pos m) hs ht e = ap pos e
i64_word-injective (pos n) (negsuc m) hs ht e = absurd (omega arith)
i64_word-injective (negsuc n) (pos m) hs ht e = absurd (omega arith)
i64_word-injective (negsuc n) (negsuc m) hs ht e = ap negsuc (omega arith)

i64_word-lt : (t : ℤ) → IsI64 t → i64_word t < 256 ^ 8
i64_word-lt (pos n) h = omega arith
i64_word-lt (negsuc n) h = omega arith

pub i64_bytes-injective : (s t : ℤ) → IsI64 s → IsI64 t → i64_bytes s ≡ i64_bytes t → s ≡ t
unfolding i64_bytes
i64_bytes-injective s t hs ht e =
    i64_word-injective s t hs ht
      (be_bytes-injective 8 (i64_word s) (i64_word t) (i64_word-lt s hs) (i64_word-lt t ht) e)

-- The number that a byte sequence writes in big endian, after `acc`.
unfoldable pub big_endian_from : ℕ → Bytes → ℕ
big_endian_from acc [] = acc
big_endian_from acc (b ∷ bs) = big_endian_from (acc * 256 + b) bs

abbrev pub big_endian : Bytes → ℕ
big_endian bs = big_endian_from 0 bs

big_endian_from-append :
    (acc b : ℕ) (bs : Bytes) → big_endian_from acc (bs ++ b ∷ []) ≡ big_endian_from acc bs * 256 + b
unfolding big_endian_from
big_endian_from-append acc b [] = refl
big_endian_from-append acc b (x ∷ bs) = big_endian_from-append (acc * 256 + x) b bs

pub big_endian-be_bytes : (w n : ℕ) → n < 256 ^ w → big_endian (be_bytes w n) ≡ n
unfolding be_bytes big_endian_from
big_endian-be_bytes zero n h = omega arith
big_endian-be_bytes (suc w) n h = omega (
  arith,
  big_endian_from-append 0 (n % 256) (be_bytes w (n / 256)),
  big_endian-be_bytes w (n / 256) (high_part w n h),
)
