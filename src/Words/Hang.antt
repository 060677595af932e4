-- ===== src/Words/Hang.antt =====
-- source/ircaux.c: `find_backward_quote` does not get past a backslash.
use tek_nap.Common.{
  ℕ, zero, suc, ◌+◌, ◌-◌, ◌<◌, ◌≤◌, Bytes, false, ◌==◌, none, ◌≡◌, ◌≢◌, ◌⊎◌, inl, inr, refl, ap,
  subst, arith, Bool-cases,
}
use native.Mathlib.Decide.{dec_lt}
use tek_nap.Text.Search.{risspace}
use tek_nap.Words.Quote.{byte, back_to_quote, find_backward_quote}

-- A place of the string that is no quote and not its end.
abbrev pub Inside : Bytes → ℕ → Type 0
Inside s j = (byte s j ≢ b'"') × (byte s j ≢ 0)

==-ne : (a b : ℕ) → a ≢ b → (a == b) ≡ false
==-ne a b ne = ground arith

module _ (s : Bytes) (i p : ℕ) (at : byte s i ≡ 92) (low : 0 < i) (quote : byte s p ≢ 0)
    (inner : (j : ℕ) → i < j → j < p → Inside s j) where
  not_end : (j : ℕ) → i ≤ j → j < p → byte s (j + 1) ≢ 0
  not_end j h k = elim (dec_lt (j + 1) p) [
    | yes q ↦ (inner (j + 1) (omega arith) q).1
    | no q ↦ subst (λ n. byte s n ≢ 0) (let e : p ≡ j + 1 = omega arith in e) quote
  ]

  stuck : (fuel j : ℕ) → i ≤ j → j < p → back_to_quote fuel s j ≡ none
  unfolding back_to_quote
  stuck zero j h k = refl
  stuck (suc fuel) j h k =
      let start : (j == 0) ≡ false = ==-ne j 0 (λ e. omega arith) in
      let next : (byte s (j + 1) == 0) ≡ false = ==-ne _ 0 (not_end j h k) in
      elim (Bool-cases (byte s j == 92)) [
        | inl b ↦ rw (start, b, next) (stuck fuel j h k)
        | inr b ↦
            let above : i < j = elim (dec_lt i j) [
              | yes q ↦ q
              | no q ↦
                  let e : i ≡ j = omega arith in
                  absurd (let x = at in let y = ap (λ n. byte s n == 92) e in ground arith)
            ] in
            let other : (byte s j == b'"') ≡ false = ==-ne _ _ (inner j above k).0 in
            rw (start, b, other) (stuck fuel (j - 1) (omega arith) (omega arith))
      ]

-- `find_backward_quote`, at a quote with a space or the end of the string behind it, never comes to
-- an end where it meets a backslash, not at the start of the string, before a quote: no amount of
-- fuel gives a result.
pub find_backward_quote_hangs :
    (s : Bytes) (i p : ℕ)
    → 0 < i
    → i < p
    → byte s i ≡ 92
    → byte s p ≡ b'"'
    → (byte s (p + 1) ≡ 0) ⊎ (byte s (p + 1) ≡ 32)
    → ((j : ℕ) → i < j → j < p → Inside s j)
    → (fuel : ℕ) → find_backward_quote fuel s p ≡ none
unfolding find_backward_quote risspace
find_backward_quote_hangs s i p low lt at quote next inner fuel =
    let run =
      stuck s i p at low (λ e. let q = quote in omega arith) inner fuel (p - 1) (omega arith)
        (omega arith) in
    elim next [ inl e ↦ rw (quote, e, run) | inr e ↦ rw (quote, e, run) ]
