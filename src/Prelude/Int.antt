-- ===== src/Prelude/Int.antt =====
-- Go's `int` and `int64` as integers, with the wrap-around of 64 bits written out.
use Prim.Native.Nat.{ℕ, zero, suc, ◌+◌, ◌-◌, ◌%◌, ◌^◌, ◌≤◌, ◌<◌}
use mathlib.Core.Path.{◌≡◌}
use mathlib.Core.Logic.{◌↔◌}
use mathlib.Core.Bool.{Bool, true, false}
use native.Mathlib.Omega.{arith}
use tmuxicate.Prelude.Tests.{ltb, leb, ◌==◌, if◌then◌else◌}

-- `negsuc n` is -(n + 1).
pub data ℤ : Type 0 where
  pos : ℕ → ℤ
  negsuc : ℕ → ℤ

abbrev pub pos_part : ℤ → ℕ
pos_part (pos n) = n
pos_part (negsuc n) = 0

abbrev pub neg_part : ℤ → ℕ
neg_part (pos n) = 0
neg_part (negsuc n) = suc n

abbrev pub sub_ℕ : ℕ → ℕ → ℤ
sub_ℕ a b = if leb b a then pos (a - b) else negsuc (b - a - 1)

-- The value of an integer in 64-bit two's complement.
abbrev pub wrap64 : ℤ → ℤ
wrap64 (pos n) = let m = n % 2 ^ 64 in if ltb m (2 ^ 63) then pos m else negsuc (2 ^ 64 - 1 - m)
wrap64 (negsuc n) = let m = n % 2 ^ 64 in if ltb m (2 ^ 63) then negsuc m else pos (2 ^ 64 - 1 - m)

infixl 65 ◌+ℤ◌
-- `a + b` on `int64`
unfoldable pub ◌+ℤ◌ : ℤ → ℤ → ℤ
a +ℤ b = wrap64 (sub_ℕ (pos_part a + pos_part b) (neg_part a + neg_part b))

infixl 65 ◌-ℤ◌
-- `a - b` on `int64`
unfoldable pub ◌-ℤ◌ : ℤ → ℤ → ℤ
a -ℤ b = wrap64 (sub_ℕ (pos_part a + neg_part b) (neg_part a + pos_part b))

-- `n++`
unfoldable pub inc : ℤ → ℤ
inc (pos n) = wrap64 (pos (n + 1))
inc (negsuc zero) = pos 0
inc (negsuc (suc n)) = negsuc n

-- `n < 0`
abbrev pub is_neg : ℤ → Bool
is_neg (pos n) = false
is_neg (negsuc n) = true

-- `n <= 0`
abbrev pub is_not_pos : ℤ → Bool
is_not_pos (pos zero) = true
is_not_pos (pos (suc n)) = false
is_not_pos (negsuc n) = true

-- `a < b`
abbrev pub int_lt : ℤ → ℤ → Bool
int_lt a b = ltb (pos_part a + neg_part b) (pos_part b + neg_part a)

-- `a == b`
abbrev pub int_eq : ℤ → ℤ → Bool
int_eq (pos m) (pos n) = m == n
int_eq (pos m) (negsuc n) = false
int_eq (negsuc m) (pos n) = false
int_eq (negsuc m) (negsuc n) = m == n

pub int_eq_iff : (a b : ℤ) → (int_eq a b ≡ true) ↔ (a ≡ b)
int_eq_iff a b = ground arith

-- The integers that an `int64` holds.
abbrev pub Int64 : ℤ → Type 0
Int64 a = (pos_part a < 2 ^ 63) × (neg_part a ≤ 2 ^ 63)

pub inc-pos : (n : ℕ) → suc n < 2 ^ 63 → inc (pos n) ≡ pos (suc n)
unfolding inc
inc-pos n h = ground arith
