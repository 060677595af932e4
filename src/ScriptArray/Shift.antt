-- ===== src/ScriptArray/Shift.antt =====
-- The loops of source/array.c that move the cells of a block by one.
use tek_nap.Common.{
  ℕ, zero, suc, ◌+◌, ◌<◌, ◌≤◌, List, some, length, get_or, set, ◌≡◌, refl, sym, ap, ◌∙◌, arith,
  length-set,
}
use native.Mathlib.Decide.{dec_lt}
use tek_nap.ScriptArray.Index.{shift_left, shift_right}
use tek_nap.ScriptArray.Valid.{get_elem?-get_or, get_or-set_self, get_or-set_ne, put-some}

module _ {ℓ} {A : Type ℓ} (d : A) where
  -- `n` cells from `new` on have been copied to the right.
  pub record ShiftedRight (xs ys : List A) (n new : ℕ) : Type ℓ where
    pub measure : length ys ≡ length xs
    pub low : (j : ℕ) → j ≤ new → get_or ys j d ≡ get_or xs j d
    pub mid : (j : ℕ) → new ≤ j → j < new + n → get_or ys (suc j) d ≡ get_or xs j d
    pub high : (j : ℕ) → new + n < j → get_or ys j d ≡ get_or xs j d

  pub shift_right-ShiftedRight :
      (n : ℕ) (xs : List A) (new : ℕ)
      → new + n < length xs
      → (ys : List A) × (shift_right n xs new ≡ some ys) × ShiftedRight xs ys n new
  unfolding shift_right
  shift_right-ShiftedRight zero xs new h = (
    xs,
    refl,
    record {
      measure = refl;
      low = λ j k. refl;
      mid = λ j k l. absurd (omega arith);
      high = λ j k. refl;
    },
  )
  shift_right-ShiftedRight (suc n) xs new h =
      let x = get_or xs (new + n) d in
      let xs1 = set xs (new + n + 1) x in
      let l1 : length xs1 ≡ length xs = length-set xs (new + n + 1) x in
      let (ys, run, c) = shift_right-ShiftedRight n xs1 new (omega arith) in
      (
        ys,
        rw (
          get_elem?-get_or d xs (new + n) (omega arith),
          put-some xs (new + n + 1) x (omega arith),
          run,
        ),
        record {
          measure = c.measure ∙ l1;
          low = λ j k. c.low j k ∙ get_or-set_ne d xs _ _ x (λ e. omega arith);
          mid = λ j k l. elim (dec_lt j (new + n)) [
            | yes p ↦ c.mid j k p ∙ get_or-set_ne d xs _ _ x (λ e. omega arith)
            | no p ↦
                let e : j ≡ new + n = omega arith in
                c.high (suc j) (omega arith)
                ∙ ap (λ i. get_or xs1 i d) (let e' : suc j ≡ new + n + 1 = omega arith in e')
                ∙ get_or-set_self d xs _ x (omega arith)
                ∙ ap (λ i. get_or xs i d) (sym e)
          ];
          high = λ j k. c.high j (omega arith) ∙ get_or-set_ne d xs _ _ x (λ e. omega arith);
        },
      )

  -- The `n` cells behind `i` have been copied to the left.
  pub record ShiftedLeft (xs ys : List A) (n i : ℕ) : Type ℓ where
    pub measure : length ys ≡ length xs
    pub low : (j : ℕ) → j < i → get_or ys j d ≡ get_or xs j d
    pub mid : (j : ℕ) → i ≤ j → j < i + n → get_or ys j d ≡ get_or xs (suc j) d
    pub high : (j : ℕ) → i + n ≤ j → get_or ys j d ≡ get_or xs j d

  pub shift_left-ShiftedLeft :
      (n : ℕ) (xs : List A) (i : ℕ)
      → i + n < length xs
      → (ys : List A) × (shift_left n xs i ≡ some ys) × ShiftedLeft xs ys n i
  unfolding shift_left
  shift_left-ShiftedLeft zero xs i h = (
    xs,
    refl,
    record {
      measure = refl;
      low = λ j k. refl;
      mid = λ j k l. absurd (omega arith);
      high = λ j k. refl;
    },
  )
  shift_left-ShiftedLeft (suc n) xs i h =
      let x = get_or xs (i + 1) d in
      let xs1 = set xs i x in
      let l1 : length xs1 ≡ length xs = length-set xs i x in
      let (ys, run, c) = shift_left-ShiftedLeft n xs1 (i + 1) (omega arith) in
      (
        ys,
        rw (get_elem?-get_or d xs (i + 1) (omega arith), put-some xs i x (omega arith), run),
        record {
          measure = c.measure ∙ l1;
          low = λ j k. c.low j (omega arith) ∙ get_or-set_ne d xs _ _ x (λ e. omega arith);
          mid = λ j k l. elim (dec_lt i j) [
            | yes p ↦
                c.mid j (omega arith) (omega arith) ∙ get_or-set_ne d xs _ _ x (λ e. omega arith)
            | no p ↦
                let e : j ≡ i = omega arith in
                c.low j (omega arith)
                ∙ ap (λ k. get_or xs1 k d) e
                ∙ get_or-set_self d xs _ x (omega arith)
                ∙ ap (λ k. get_or xs k d) (let e' : i + 1 ≡ suc j = omega arith in e')
          ];
          high = λ j k. c.high j (omega arith) ∙ get_or-set_ne d xs _ _ x (λ e. omega arith);
        },
      )
