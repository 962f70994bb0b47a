-- ===== src/Prelude/Int.antt =====
-- Go's `int` and `time.Duration`: signed 64-bit numbers, as integers with the wrap written out.
use Prim.Native.Nat.{ℕ, zero, suc, ◌+◌, ◌-◌, ◌^◌, ◌<◌}
use mathlib.Core.Path.{◌≡◌}
use mathlib.Core.Bool.{Bool}
use native.Mathlib.Omega.{arith}
use lm_server.Prelude.Tests.{ltb, leb, if◌then◌else◌}

-- `negsuc n` is -(n + 1).
pub data ℤ : Type 0 where
  pos : ℕ → ℤ
  negsuc : ℕ → ℤ

abbrev pub pos_part : ℤ → ℕ
pos_part (pos n) = n
pos_part (negsuc n) = 0

abbrev pub neg_part : ℤ → ℕ
neg_part (pos n) = 0
neg_part (negsuc n) = suc n

-- The integer -n.
abbrev pub minus : ℕ → ℤ
minus zero = pos zero
minus (suc n) = negsuc n

-- a - b, as an integer.
abbrev pub sub_ℕ : ℕ → ℕ → ℤ
sub_ℕ a b = if leb b a then pos (a - b) else negsuc (b - a - 1)

abbrev pub ltb_ℤ : ℤ → ℤ → Bool
ltb_ℤ a b = ltb (pos_part a + neg_part b) (pos_part b + neg_part a)

abbrev pub leb_ℤ : ℤ → ℤ → Bool
leb_ℤ a b = leb (pos_part a + neg_part b) (pos_part b + neg_part a)

abbrev pub int_max : ℕ
int_max = 2 ^ 63 - 1

-- The value of a + b in 64 bits, for a and b in 64 bits: the exact sum, or off by 2^64 where that
-- leaves the range.
unfoldable pub add64 : ℤ → ℤ → ℤ
add64 a b =
    let p = pos_part a + pos_part b in
    let n = neg_part a + neg_part b in
    if leb (n + 2 ^ 63) p
    then sub_ℕ p (n + 2 ^ 64)
    else if ltb (p + 2 ^ 63) n
    then sub_ℕ (p + 2 ^ 64) n
    else sub_ℕ p n

-- On two numbers that are not negative and whose sum is in range the sum is exact.
pub add64_exact : (a b : ℕ) → a + b < 2 ^ 63 → add64 (pos a) (pos b) ≡ pos (a + b)
unfolding add64
add64_exact a b h = ground arith
