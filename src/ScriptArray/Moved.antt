-- ===== src/ScriptArray/Moved.antt =====
-- `move_index` of source/array.c: one cell of the index is taken out and put in at another place.
use tek_nap.Common.{
  ℕ, suc, ◌+◌, ◌-◌, ◌<◌, ◌≤◌, List, ◌==◌, if◌then◌else◌, some, ltb, length, get_or, set, ◌≡◌, ◌≢◌,
  refl, ap, ◌∙◌, arith, length-set, Bool-cases, inl, inr,
}
use native.Mathlib.Decide.{dec_lt}
use tek_nap.ScriptArray.Index.{AnArray, move_to, move_index}
use tek_nap.ScriptArray.Valid.{get_elem?-get_or, get_or-set_self, get_or-set_ne, put-some}
use tek_nap.ScriptArray.Shift.{
  ShiftedLeft, ShiftedRight, shift_left-ShiftedLeft, shift_right-ShiftedRight,
}

-- Where the cell `j` was before the cell `old` moved to `new`.
unfoldable pub moved_from : (old new j : ℕ) → ℕ
moved_from old new j =
    if j == new
    then old
    else if ltb old new
    then (if ltb j old then j else if ltb j new then j + 1 else j)
    else (if ltb j new then j else if ltb old j then j else j - 1)

-- `ys` is `xs` with the cell `old` moved to `new`.
pub record Moved (xs ys : List ℕ) (old new : ℕ) : Type 0 where
  pub measure : length ys ≡ length xs
  pub at : (j : ℕ) → j < length xs → get_or ys j 0 ≡ get_or xs (moved_from old new j) 0

-- The place that is left for what goes to `new` once `old` is taken out.
unfoldable pub target : (old new : ℕ) → ℕ
target old new = if ltb old new then new - 1 else new

-- What shifting a block to the right makes of a list that differs from it at most in the cell `old`.
pub shifted_right :
    (block xs ys : List ℕ) (old new : ℕ)
    → length block ≡ length xs
    → ((j : ℕ) → j ≢ old → get_or block j 0 ≡ get_or xs j 0)
    → new ≤ old
    → old < length xs
    → ShiftedRight 0 block ys (old - new) new
    → Moved xs (set ys new (get_or xs old 0)) old new
unfolding moved_from
shifted_right block xs ys old new b agree l h s = record {
  measure = length-set ys new _ ∙ s.measure ∙ b;
  at = λ j m. elim (dec_lt j new) [
    | yes p ↦
        get_or-set_ne 0 ys new j _ (λ e. omega arith)
        ∙ s.low j (omega arith)
        ∙ agree j (λ e. omega arith)
        ∙ ap (λ i. get_or xs i 0) (let e : j ≡ moved_from old new j = ground arith in e)
    | no p ↦ elim (dec_lt new j) [
      | yes q ↦ elim (dec_lt old j) [
        | yes r ↦
            get_or-set_ne 0 ys new j _ (λ e. omega arith)
            ∙ s.high j (omega arith)
            ∙ agree j (λ e. omega arith)
            ∙ ap (λ i. get_or xs i 0) (let e : j ≡ moved_from old new j = ground arith in e)
        | no r ↦
            ap (λ i. get_or (set ys new (get_or xs old 0)) i 0)
              (let e : j ≡ suc (j - 1) = omega arith in e)
            ∙ get_or-set_ne 0 ys new (suc (j - 1)) _ (λ e. omega arith)
            ∙ s.mid (j - 1) (omega arith) (omega arith)
            ∙ agree (j - 1) (λ e. omega arith)
            ∙ ap (λ i. get_or xs i 0) (let e : j - 1 ≡ moved_from old new j = ground arith in e)
      ]
      | no q ↦
          let e : j ≡ new = omega arith in
          ap (λ i. get_or (set ys new (get_or xs old 0)) i 0) e
          ∙ get_or-set_self 0 ys new _ (let m = s.measure in omega arith)
          ∙ ap (λ i. get_or xs i 0) (let e' : old ≡ moved_from old new j = ground arith in e')
    ]
  ];
}

module _ (xs : List ℕ) (old new : ℕ) (h : old < length xs) (k : new < length xs) where
  shifted_left :
      (ys : List ℕ)
      → old < new
      → ShiftedLeft 0 xs ys (new - old) old
      → Moved xs (set ys new (get_or xs old 0)) old new
  unfolding moved_from
  shifted_left ys l s = record {
    measure = length-set ys new _ ∙ s.measure;
    at = λ j m. elim (dec_lt j new) [
      | yes p ↦ elim (dec_lt j old) [
        | yes q ↦
            get_or-set_ne 0 ys new j _ (λ e. omega arith)
            ∙ s.low j q
            ∙ ap (λ i. get_or xs i 0) (let e : j ≡ moved_from old new j = ground arith in e)
        | no q ↦
            get_or-set_ne 0 ys new j _ (λ e. omega arith)
            ∙ s.mid j (omega arith) (omega arith)
            ∙ ap (λ i. get_or xs i 0) (let e : suc j ≡ moved_from old new j = ground arith in e)
      ]
      | no p ↦ elim (dec_lt new j) [
        | yes q ↦
            get_or-set_ne 0 ys new j _ (λ e. omega arith)
            ∙ s.high j (omega arith)
            ∙ ap (λ i. get_or xs i 0) (let e : j ≡ moved_from old new j = ground arith in e)
        | no q ↦
            let e : j ≡ new = omega arith in
            ap (λ i. get_or (set ys new (get_or xs old 0)) i 0) e
            ∙ get_or-set_self 0 ys new _ (let m = s.measure in omega arith)
            ∙ ap (λ i. get_or xs i 0) (let e' : old ≡ moved_from old new j = ground arith in e')
      ]
    ];
  }

  move_to-Moved : (ys : List ℕ) × (move_to xs old new ≡ some ys) × Moved xs ys old new
  unfolding move_to
  move_to-Moved = elim (Bool-cases (ltb old new)) [
    | inl t ↦
        let l : old < new = ground arith in
        let (ys, run, s) = shift_left-ShiftedLeft 0 (new - old) xs old (omega arith) in
        (
          set ys new (get_or xs old 0),
          rw (
            get_elem?-get_or 0 xs old h,
            t,
            run,
            put-some ys new (get_or xs old 0) (let m = s.measure in omega arith),
          ),
          shifted_left ys l s,
        )
    | inr t ↦
        let l : new ≤ old = ground arith in
        let (ys, run, s) = shift_right-ShiftedRight 0 (old - new) xs new (omega arith) in
        (
          set ys new (get_or xs old 0),
          rw (
            get_elem?-get_or 0 xs old h,
            t,
            run,
            put-some ys new (get_or xs old 0) (let m = s.measure in omega arith),
          ),
          shifted_right xs xs ys old new refl (λ j ne. refl) l h s,
        )
  ]

-- A cell that stays where it is.
stays : (xs : List ℕ) (old new : ℕ) → old ≡ new → Moved xs xs old new
unfolding moved_from
stays xs old new e = record {
  measure = refl;
  at = λ j h. ap (λ i. get_or xs i 0) (let e' : j ≡ moved_from old new j = ground arith in e');
}

-- `move_index`, for a cell and a place of the index.
pub move_index-Moved :
    (a : AnArray) (old new : ℕ)
    → old < length a.index
    → new ≤ length a.index
    → (ys : List ℕ) × (move_index a old new ≡ some (record a { index = ys }))
      × Moved a.index ys old (target old new)
unfolding move_index target
move_index-Moved a old new h k = elim (Bool-cases (target old new == old)) [
  | inl t ↦ (a.index, rw t, stays a.index old _ (let e : old ≡ target old new = ground arith in e))
  | inr t ↦
      let (ys, run, s) = move_to-Moved a.index old (target old new) h (ground arith) in
      (ys, rw (t, run), s)
]
