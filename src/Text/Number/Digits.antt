-- ===== src/Text/Number/Digits.antt =====
-- source/ircaux.c: the digits that `ltoa` prints are few, and the comparisons that ignore case keep
-- them apart.
use tek_nap.Common.{
  ℕ, zero, suc, ◌+◌, ◌/◌, ◌%◌, ◌^◌, ◌<◌, ◌≤◌, List, [], ◌∷◌, Bytes, Bool, true, false, not, ◌==◌,
  if◌then◌else◌, All, IsText, length, map, ◌≡◌, refl, sym, ap, ◌∙◌, arith, ltb, lt→ltb, Bool-cases,
  inl, inr, ==_iff,
}
use native.Mathlib.Decide.{dec_lt}
use mathlib.Core.List.{head-eq_of_cons-eq, tail-eq_of_cons-eq, cons-ne-nil}
use tek_nap.Text.Case.{fold}
use tek_nap.Text.Search.{isdigit}
use tek_nap.Text.Number.{put_digits}

-- The digits are those bytes that the table takes to digits, and it leaves them as they are.
keeps_digit : ℕ → Bool
keeps_digit c = if isdigit (fold c) then fold c == c else not (isdigit c)

moved_digits : (bound : ℕ) → List ℕ
moved_digits zero = []
moved_digits (suc c) = let more = moved_digits c in if keeps_digit c then more else c ∷ more

no_digit_moves : moved_digits 256 ≡ []
unfolding moved_digits keeps_digit fold isdigit
no_digit_moves = refl

keeps_digit_below : (bound c : ℕ) → moved_digits bound ≡ [] → c < bound → keeps_digit c ≡ true
unfolding moved_digits
keeps_digit_below zero c e h = absurd (omega arith)
keeps_digit_below (suc n) c e h = ground (arith, keeps_digit_below n c)

abbrev pub AllDigits : Bytes → Type 0
AllDigits = All (λ c. isdigit c ≡ true)

fold-digit : (d : ℕ) → d < 256 → isdigit d ≡ true → fold d ≡ d
unfolding keeps_digit
fold-digit d h k =
    let e = keeps_digit_below 256 d no_digit_moves h in
    elim (Bool-cases (isdigit (fold d))) [
      | inl y ↦ (==_iff (fold d) d).0 (rw y at e)
      | inr n ↦ absurd (let f : not (isdigit d) ≡ true = rw n at e in ground arith)
    ]

same_digit : (c d : ℕ) → c < 256 → d < 256 → isdigit d ≡ true → fold c ≡ fold d → c ≡ d
unfolding keeps_digit
same_digit c d h k i e =
    let to_d : fold c ≡ d = e ∙ fold-digit d k i in
    let y : isdigit (fold c) ≡ true = ap isdigit to_d ∙ i in
    let f = keeps_digit_below 256 c no_digit_moves h in
    sym ((==_iff (fold c) c).0 (rw y at f)) ∙ to_d

isdigit-lt : (d : ℕ) → isdigit d ≡ true → d < 256
unfolding isdigit
isdigit-lt d h = ground arith

-- A string that differs from a number at most in the case of its letters is that number.
pub same_digits : (s t : Bytes) → IsText s → AllDigits t → map fold s ≡ map fold t → s ≡ t
same_digits [] [] hs ht e = refl
same_digits [] (d ∷ t) hs ht e = absurd (cons-ne-nil _ _ (sym e))
same_digits (c ∷ s) [] hs ht e = absurd (cons-ne-nil _ _ e)
same_digits (c ∷ s) (d ∷ t) (hc, hs) (hd, ht) e =
    let first = same_digit c d hc.1 (isdigit-lt d hd) hd (head-eq_of_cons-eq e) in
    let rest = same_digits s t hs ht (tail-eq_of_cons-eq e) in cc

pub put_digits-AllDigits :
    (rounds n : ℕ) (buffer : Bytes)
    → n < 10 ^ (suc rounds)
    → AllDigits buffer
    → AllDigits (put_digits rounds n buffer)
unfolding put_digits isdigit
put_digits-AllDigits zero n buffer h k = (ground arith, k)
put_digits-AllDigits (suc rounds) n buffer h k = elim (dec_lt 9 n) [
  | yes p ↦ rw (lt→ltb 9 n p) (
      put_digits-AllDigits rounds (n / 10) ((n % 10 + b'0') ∷ buffer) (omega arith)
        (ground arith, k))
  | no p ↦ let f : ltb 9 n ≡ false = ground arith in rw f (ground arith, k)
]

pub length-put_digits :
    (rounds k n : ℕ) (buffer : Bytes)
    → n < 10 ^ (suc k)
    → length (put_digits rounds n buffer) ≤ suc k + length buffer
unfolding put_digits
length-put_digits zero k n buffer h = omega arith
length-put_digits (suc rounds) zero n buffer h =
    let f : ltb 9 n ≡ false = ground arith in rw f (omega arith)
length-put_digits (suc rounds) (suc k) n buffer h = elim (dec_lt 9 n) [
  | yes p ↦
      let r = length-put_digits rounds k (n / 10) ((n % 10 + b'0') ∷ buffer) (omega arith) in
      rw (lt→ltb 9 n p) (omega arith)
  | no p ↦ let f : ltb 9 n ≡ false = ground arith in rw f (omega arith)
]
