-- ===== src/Text/Args/Next.antt =====
-- `next_arg` takes the first blank-separated word off a line, and `new_next_arg` takes the same word.
use tek_nap.Common.{
  ℕ, zero, suc, ◌-◌, List, [], ◌∷◌, ◌++◌, ◌==◌, Bytes, All, ◌≡◌, ◌≢◌, refl, Option, none, some,
  arith, length, take, length-append, ap, sym, subst, replicate, Bool-cases, inl, inr, ==_iff,
  append-nil, ◌∙◌,
}
use tek_nap.Text.Search.{sindex, in_group, first_outside, first_inside, risspace}
use tek_nap.Text.Args.{
  blank, before, cut_at, cut_word, next_arg, new_next_arg, skip_spaces, span_word, past_word,
  take_arg,
}

abbrev pub Lacks : ℕ → Bytes → Type 0
Lacks b = All (λ c. c ≢ b)

nonempty : Bytes → Option Bytes
nonempty [] = none
nonempty (c ∷ s) = some (c ∷ s)

first_outside-skip_spaces : (s : Bytes) → first_outside s blank ≡ nonempty (skip_spaces s)
unfolding first_outside skip_spaces nonempty in_group risspace
first_outside-skip_spaces [] = refl
first_outside-skip_spaces (c ∷ s) = ground (arith, first_outside-skip_spaces s)

take-append {ℓ} : {A : Type ℓ} (w r : List A) → take (length (w ++ r) - length r) (w ++ r) ≡ w
take-append [] r = let e : length r - length r ≡ 0 = omega arith in rw e
take-append (x ∷ w) r =
    let e : length (x ∷ w ++ r) - length r ≡ suc (length (w ++ r) - length r) =
      omega (arith, length-append w r) in
    rw e (ap (λ t. x ∷ t) (take-append w r))

first_inside_word :
    (w : Bytes) (r : Bytes) → Lacks 32 w → first_inside (w ++ 32 ∷ r) blank ≡ some (32 ∷ r)
unfolding first_inside in_group
first_inside_word [] r h = refl
first_inside_word (c ∷ w) r h = ground (arith, first_inside_word w r)

first_inside-none : (w : Bytes) → Lacks 32 w → first_inside w blank ≡ none
unfolding first_inside in_group
first_inside-none [] h = refl
first_inside-none (c ∷ w) h = ground (arith, first_inside-none w)

pub skip_spaces_blanks : (n : ℕ) (s : Bytes) → skip_spaces (replicate n 32 ++ s) ≡ skip_spaces s
unfolding skip_spaces risspace
skip_spaces_blanks zero s = refl
skip_spaces_blanks (suc n) s = skip_spaces_blanks n s

skip_spaces_word : (c : ℕ) (w : Bytes) → c ≢ 32 → skip_spaces (c ∷ w) ≡ c ∷ w
unfolding skip_spaces risspace
skip_spaces_word c w h = ground arith

next_arg-cut : (s : Bytes) → s ≢ [] → next_arg s ≡ cut_word (nonempty (skip_spaces s))
unfolding next_arg sindex
next_arg-cut [] h = absurd (h refl)
next_arg-cut (c ∷ s) h = rw first_outside-skip_spaces

blanks-ne-nil : (n : ℕ) (c : ℕ) (s : Bytes) → replicate n 32 ++ c ∷ s ≢ []
blanks-ne-nil zero c s = λ e. cc
blanks-ne-nil (suc n) c s = λ e. cc

cut_word-word :
    (c : ℕ) (w r : Bytes)
    → Lacks 32 (c ∷ w)
    → cut_word (some (c ∷ (w ++ 32 ∷ r))) ≡ record { word = some (c ∷ w); rest = r }
unfolding cut_word sindex cut_at before
cut_word-word c w r h =
    rw (first_inside_word (c ∷ w) r h, cut_at, before)
      (ap (λ t. record { word = some t; rest = r }) (take-append (c ∷ w) (32 ∷ r)))

-- On a line of some blanks or none, a word, a blank and a rest, `next_arg` returns the word and
-- leaves the rest.
pub next_arg-word :
    (n c : ℕ) (w r : Bytes)
    → Lacks 32 (c ∷ w)
    → next_arg (replicate n 32 ++ c ∷ (w ++ 32 ∷ r)) ≡ record { word = some (c ∷ w); rest = r }
next_arg-word n c w r h =
    rw
      (
        next_arg-cut _ (blanks-ne-nil n c (w ++ 32 ∷ r)),
        skip_spaces_blanks,
        skip_spaces_word c (w ++ 32 ∷ r) h.0,
      )
      (unfold nonempty in cut_word-word c w r h)

StartsBlank : Bytes → Type 0
StartsBlank [] = Unit
StartsBlank (c ∷ s) = c ≡ 32

span_word_parts :
    (p : Bytes)
    → (p ≡ (span_word p).0 ++ (span_word p).1)
      × Lacks 32 (span_word p).0
      × StartsBlank (span_word p).1
unfolding span_word risspace StartsBlank
span_word_parts [] = (refl, tt, tt)
span_word_parts (c ∷ s) = elim (Bool-cases (c == 32)) [
  | inl e ↦ rw e (refl, tt, (==_iff c 32).0 e)
  | inr e ↦ let (p, l, b) = span_word_parts s in rw e (ap (λ t. c ∷ t) p, (ground arith, l), b)
]

cut-span : (w r : Bytes) → Lacks 32 w → StartsBlank r → cut_word (some (w ++ r)) ≡ past_word (w, r)
unfolding cut_word sindex cut_at before past_word StartsBlank
cut-span w [] h b = rw (append-nil, first_inside-none w h)
cut-span w (c ∷ r) h b =
    subst (λ x. cut_word (some (w ++ x ∷ r)) ≡ past_word (w, x ∷ r)) (sym b)
      (rw (first_inside_word w r h, cut_at, before)
        (ap (λ t. record { word = some t; rest = r }) (take-append w (32 ∷ r))))

cut_word-span_word : (p : Bytes) → cut_word (some p) ≡ past_word (span_word p)
cut_word-span_word p =
    let (e, l, b) = span_word_parts p in
    ap (λ t. cut_word (some t)) e ∙ cut-span (span_word p).0 (span_word p).1 l b

skip_spaces-ne : (s : Bytes) → skip_spaces s ≢ [] → s ≢ []
unfolding skip_spaces
skip_spaces-ne [] h = h
skip_spaces-ne (c ∷ s) h = λ e. cc

skip_spaces-nil : skip_spaces [] ≡ []
unfolding skip_spaces
skip_spaces-nil = refl

skip_spaces_all : (n : ℕ) → skip_spaces (replicate n 32) ≡ []
unfolding skip_spaces risspace
skip_spaces_all zero = refl
skip_spaces_all (suc n) = skip_spaces_all n

-- On a line whose first word does not begin with a quote `new_next_arg` does what `next_arg` does.
pub new_next_arg-eq-next_arg :
    (s t : Bytes) (c : ℕ) → skip_spaces s ≡ c ∷ t → c ≢ b'"' → new_next_arg s ≡ next_arg s
unfolding take_arg
new_next_arg-eq-next_arg [] t c e h = cc (skip_spaces-nil)
new_next_arg-eq-next_arg (d ∷ s) t c e h =
    rw (next_arg-cut (d ∷ s) (λ p. cc), e)
      (unfold nonempty new_next_arg in rw (e, cut_word-span_word) (ground arith))

-- On a line of blanks, one or more, `new_next_arg` returns an empty word and does not move.
pub new_next_arg_stuck :
    (n : ℕ)
    → new_next_arg (replicate (suc n) 32) ≡ record { word = some []; rest = replicate (suc n) 32 }
unfolding new_next_arg
new_next_arg_stuck n = rw (skip_spaces_all (suc n))

-- A line that is one word gives that word and leaves nothing.
pub new_next_arg_last :
    (c : ℕ) (w : Bytes)
    → Lacks 32 (c ∷ w)
    → c ≢ b'"'
    → new_next_arg (c ∷ w) ≡ record { word = some (c ∷ w); rest = [] }
unfolding StartsBlank
new_next_arg_last c w h q =
    new_next_arg-eq-next_arg (c ∷ w) w c (skip_spaces_word c w h.0) q
    ∙ next_arg-cut (c ∷ w) (λ e. cc)
    ∙ rw (skip_spaces_word c w h.0) (
        unfold nonempty in
        ap (λ t. cut_word (some t)) (sym (append-nil (c ∷ w)))
        ∙ cut-span (c ∷ w) [] h tt
        ∙ (unfold past_word in refl))

pub new_next_arg-word :
    (c : ℕ) (w r : Bytes)
    → Lacks 32 (c ∷ w)
    → c ≢ b'"'
    → new_next_arg (c ∷ (w ++ 32 ∷ r)) ≡ record { word = some (c ∷ w); rest = r }
new_next_arg-word c w r h q =
    new_next_arg-eq-next_arg (c ∷ (w ++ 32 ∷ r)) (w ++ 32 ∷ r) c (skip_spaces_word c _ h.0) q
    ∙ next_arg-word 0 c w r h
