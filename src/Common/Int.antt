-- ===== src/Common/Int.antt =====
-- C's signed `int` results, as far as the program reads them: a difference and the test of its sign.
use Prim.Native.Nat.{ℕ, zero, suc, ◌-◌, ◌<◌}
use mathlib.Core.Path.{◌≡◌, refl}
use mathlib.Core.Logic.{◌↔◌}
use mathlib.Core.Bool.{Bool, true, false}
use native.Mathlib.Omega.{arith}
use tek_nap.Common.Tests.{leb, if◌then◌else◌}

-- `negsuc n` is -(n + 1).
pub data ℤ : Type 0 where
  pos : ℕ → ℤ
  negsuc : ℕ → ℤ

-- a - b, as an integer.
abbrev pub sub_ℕ : ℕ → ℕ → ℤ
sub_ℕ a b = if leb b a then pos (a - b) else negsuc (b - a - 1)

abbrev pub is_zero : ℤ → Bool
is_zero (pos zero) = true
is_zero (pos (suc n)) = false
is_zero (negsuc n) = false

abbrev pub pos_part : ℤ → ℕ
pos_part (pos n) = n
pos_part (negsuc n) = 0

-- `x > 0`
abbrev pub is_pos : ℤ → Bool
is_pos (pos zero) = false
is_pos (pos (suc n)) = true
is_pos (negsuc n) = false

-- `x < 0`
abbrev pub is_neg : ℤ → Bool
is_neg (pos n) = false
is_neg (negsuc n) = true

unfoldable pub negate : ℤ → ℤ
negate (pos n) = sub_ℕ 0 n
negate (negsuc n) = pos (suc n)

pub is_zero-sub_ℕ : (a b : ℕ) → (is_zero (sub_ℕ a b) ≡ true) ↔ (a ≡ b)
is_zero-sub_ℕ a b = ground arith

pub is_pos-sub_ℕ : (a b : ℕ) → (is_pos (sub_ℕ a b) ≡ true) ↔ (b < a)
is_pos-sub_ℕ a b = ground arith

pub is_neg-sub_ℕ : (a b : ℕ) → (is_neg (sub_ℕ a b) ≡ true) ↔ (a < b)
is_neg-sub_ℕ a b = ground arith

pub pos_not_zero : (c : ℤ) → is_pos c ≡ true → is_zero c ≡ false
pos_not_zero (pos zero) h = absurd (ground arith)
pos_not_zero (pos (suc n)) h = refl
pos_not_zero (negsuc n) h = refl

pub neg_not_zero : (c : ℤ) → is_neg c ≡ true → is_zero c ≡ false
neg_not_zero (pos n) h = absurd (ground arith)
neg_not_zero (negsuc n) h = refl

pub left_over : (c : ℤ) → is_zero c ≡ false → is_pos c ≡ false → is_neg c ≡ true
left_over (pos zero) h k = absurd (ground arith)
left_over (pos (suc n)) h k = absurd (ground arith)
left_over (negsuc n) h k = refl
