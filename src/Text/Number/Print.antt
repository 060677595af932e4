-- ===== src/Text/Number/Print.antt =====
-- source/ircaux.c: `my_atol` reads the number that `ltoa` printed.
use tek_nap.Common.{
  ℕ, zero, suc, ◌+◌, ◌-◌, ◌*◌, ◌/◌, ◌%◌, ◌^◌, ◌<◌, [], ◌∷◌, Bytes, true, false, ltb, ◌≡◌, refl, sym,
  ap, ◌∙◌, arith, lt→ltb,
}
use native.Mathlib.Decide.{dec_lt}
use tek_nap.Common.Int.{pos, negsuc}
use tek_nap.Text.Search.{isdigit, my_isspace}
use tek_nap.Text.Number.{
  digits_value, plus_minus, signed_value, past_space, my_atol, put_digits, ltoa,
}

isdigit-digit : (d : ℕ) → d < 10 → isdigit (d + b'0') ≡ true
unfolding isdigit
isdigit-digit d h = ground arith

read_digit :
    (n d : ℕ) (s : Bytes) → d < 10 → digits_value n ((d + b'0') ∷ s) ≡ digits_value (n * 10 + d) s
unfolding digits_value
read_digit n d s h = let e : d + b'0' - b'0' ≡ d = omega arith in rw (isdigit-digit d h, e)

read_first : (d : ℕ) (s : Bytes) → d < 10 → digits_value 0 ((d + b'0') ∷ s) ≡ digits_value d s
read_first d s h =
    read_digit 0 d s h ∙ ap (λ k. digits_value k s) (let e : 0 * 10 + d ≡ d = omega arith in e)

-- The digits of a number are read as the number, whatever stands behind them.
put_digits-value :
    (rounds n : ℕ) (buffer : Bytes)
    → n < 10 ^ (suc rounds)
    → digits_value 0 (put_digits rounds n buffer) ≡ digits_value n buffer
unfolding put_digits
put_digits-value zero n buffer h = read_first n buffer (omega arith)
put_digits-value (suc rounds) n buffer h = elim (dec_lt 9 n) [
  | yes p ↦ rw (lt→ltb 9 n p) (
      put_digits-value rounds (n / 10) ((n % 10 + b'0') ∷ buffer) (omega arith)
      ∙ read_digit (n / 10) (n % 10) buffer (omega arith)
      ∙ ap (λ k. digits_value k buffer) (let e : n / 10 * 10 + n % 10 ≡ n = omega arith in e))
  | no p ↦ let f : ltb 9 n ≡ false = ground arith in rw f (read_first n buffer (omega arith))
]

-- The first byte is a digit.
abbrev Digits : Bytes → Type 0
Digits s = (d : ℕ) × (rest : Bytes) × (s ≡ (d + b'0') ∷ rest) × (d < 10)

put_digits-Digits :
    (rounds n : ℕ) (buffer : Bytes) → n < 10 ^ (suc rounds) → Digits (put_digits rounds n buffer)
unfolding put_digits
put_digits-Digits zero n buffer h = (n, buffer, refl, omega arith)
put_digits-Digits (suc rounds) n buffer h = elim (dec_lt 9 n) [
  | yes p ↦
      rw (lt→ltb 9 n p) (put_digits-Digits rounds (n / 10) ((n % 10 + b'0') ∷ buffer) (omega arith))
  | no p ↦ let f : ltb 9 n ≡ false = ground arith in rw f (n, buffer, refl, omega arith)
]

unsigned :
    (d : ℕ) (s : Bytes)
    → d < 10
    → my_atol ((d + b'0') ∷ s) ≡ plus_minus false (digits_value 0 ((d + b'0') ∷ s))
unfolding my_atol past_space signed_value my_isspace
unsigned d s h = ground arith

-- What `ltoa` prints of a `long` is read back by `my_atol` as the same number.
pub my_atol-ltoa :
    (n : ℕ) → n < 2 ^ 63 → (my_atol (ltoa (pos n)) ≡ pos n) × (my_atol (ltoa (negsuc n)) ≡ negsuc n)
unfolding ltoa my_atol past_space signed_value my_isspace plus_minus digits_value
my_atol-ltoa n h =
    let b : n < 10 ^ 21 = omega arith in
    let b' : suc n < 10 ^ 21 = omega arith in
    let (d, rest, e, l) = put_digits-Digits 20 n [] b in
    (
      ap my_atol e
          ∙ unsigned d rest l
          ∙ ap (plus_minus false) (ap (digits_value 0) (sym e) ∙ put_digits-value 20 n [] b)
          ∙ rw (lt→ltb n (2 ^ 63) h) refl,
      ap (plus_minus true) (put_digits-value 20 (suc n) [] b') ∙ rw (lt→ltb n (2 ^ 63) h) refl,
    )
