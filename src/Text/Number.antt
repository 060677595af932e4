-- ===== src/Text/Number.antt =====
-- source/ircaux.c: numbers in texts. `strtol` is the standard library's, for a `long` of 64 bits.
pub mod Print
pub mod Digits
use tek_nap.Common.{
  ◌/◌, Bool, true, false, ℕ, zero, suc, ◌+◌, ◌-◌, ◌*◌, ◌%◌, ◌^◌, [], ◌∷◌, ◌==◌, if◌then◌else◌,
  Bytes, ltb,
}
use tek_nap.Common.Int.{ℤ, pos, negsuc}
use tek_nap.Text.Search.{isdigit, my_isspace}

-- The value of the digits in front, behind those that were read.
unfoldable pub digits_value : ℕ → Bytes → ℕ
digits_value n [] = n
digits_value n (c ∷ s) =
    let more = digits_value (n * 10 + (c - b'0')) s in if isdigit c then more else n

-- A number that is too large gives the largest, or the smallest one.
unfoldable pub plus_minus : (minus : Bool) → ℕ → ℤ
plus_minus false n = if ltb n (2 ^ 63) then pos n else pos (2 ^ 63 - 1)
plus_minus true zero = pos 0
plus_minus true (suc n) = if ltb n (2 ^ 63) then negsuc n else negsuc (2 ^ 63 - 1)

unfoldable pub signed_value : Bytes → ℤ
signed_value [] = pos 0
signed_value (c ∷ s) =
    if c == b'-'
    then plus_minus true (digits_value 0 s)
    else if c == b'+'
    then plus_minus false (digits_value 0 s)
    else plus_minus false (digits_value 0 (c ∷ s))

unfoldable pub past_space : Bytes → Bytes
past_space [] = []
past_space (c ∷ s) = let rest = past_space s in if my_isspace c then rest else c ∷ s

unfoldable pub my_atol : Bytes → ℤ
my_atol s = signed_value (past_space s)

-- A `long` stored in an `int` of 32 bits.
unfoldable pub wrap_int : ℕ → ℤ
wrap_int n = if ltb n (2 ^ 31) then pos n else negsuc (2 ^ 32 - 1 - n)

unfoldable pub int_of_long : ℤ → ℤ
int_of_long (pos n) = wrap_int (n % 2 ^ 32)
int_of_long (negsuc n) = wrap_int (2 ^ 32 - 1 - n % 2 ^ 32)

-- `for (; absv > 9; absv /= 10) *pos-- = absv % 10 + '0'; *pos = absv + '0';` in `rounds` rounds.
unfoldable pub put_digits : (rounds : ℕ) → ℕ → (buffer : Bytes) → Bytes
put_digits zero absv buffer = (absv + b'0') ∷ buffer
put_digits (suc n) absv buffer =
    let more = put_digits n (absv / 10) ((absv % 10 + b'0') ∷ buffer) in
    if ltb 9 absv then more else (absv + b'0') ∷ buffer

-- `ltoa`; the absolute value has 64 bits, and so 20 digits at most.
unfoldable pub ltoa : ℤ → Bytes
ltoa (pos n) = put_digits 20 n []
ltoa (negsuc n) = b'-' ∷ put_digits 20 (suc n) []
