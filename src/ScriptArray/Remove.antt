-- ===== src/ScriptArray/Remove.antt =====
-- source/array.c: the loops that close the gap of what is taken out of a block.
use tek_nap.Common.{
  ℕ, zero, suc, ◌+◌, ◌-◌, ◌<◌, List, [], ◌∷◌, some, length, get_or, map, if◌then◌else◌, ltb, take,
  ◌≡◌, refl, sym, ap, ◌∙◌, arith, length-take,
}
use native.Mathlib.Decide.{dec_lt}
use tek_nap.ScriptArray.Index.{shift_left}
use tek_nap.ScriptArray.Table.{lower_above}
use tek_nap.ScriptArray.Shift.{shift_left-ShiftedLeft}

-- The list without the cell `i`.
unfoldable pub remove_at {ℓ} : {A : Type ℓ} → List A → ℕ → List A
remove_at [] i = []
remove_at (x ∷ xs) zero = xs
remove_at (x ∷ xs) (suc i) = x ∷ remove_at xs i

-- The cell that comes to stand at `j` where the cell `i` is left out.
abbrev pub skip : (i j : ℕ) → ℕ
skip i j = if ltb j i then j else j + 1

-- A number once `i` is left out.
abbrev pub low : (i n : ℕ) → ℕ
low i n = if ltb i n then n - 1 else n

module _ {ℓ} {A : Type ℓ} (d : A) where
  pub length-remove_at :
      (xs : List A) (i : ℕ) → i < length xs → length (remove_at xs i) ≡ length xs - 1
  unfolding remove_at
  length-remove_at [] i h = elim h [ ]
  length-remove_at (x ∷ xs) zero h = omega arith
  length-remove_at (x ∷ xs) (suc i) h = omega (arith, length-remove_at xs i)

  pub get_or-remove_at :
      (xs : List A) (i j : ℕ) → get_or (remove_at xs i) j d ≡ get_or xs (skip i j) d
  unfolding remove_at
  get_or-remove_at [] i j = refl
  get_or-remove_at (x ∷ xs) zero j =
      ap (λ k. get_or (x ∷ xs) k d) (let e : suc j ≡ skip 0 j = ground arith in e)
  get_or-remove_at (x ∷ xs) (suc i) zero =
      ap (λ k. get_or (x ∷ xs) k d) (let e : 0 ≡ skip (suc i) 0 = ground arith in e)
  get_or-remove_at (x ∷ xs) (suc i) (suc j) =
      get_or-remove_at xs i j
      ∙ ap (λ k. get_or (x ∷ xs) k d)
          (let e : suc (skip i j) ≡ skip (suc i) (suc j) = ground arith in e)

  pub get_or-take : (n : ℕ) (xs : List A) (j : ℕ) → j < n → get_or (take n xs) j d ≡ get_or xs j d
  get_or-take zero xs j h = absurd (omega arith)
  get_or-take (suc n) [] j h = refl
  get_or-take (suc n) (x ∷ xs) zero h = refl
  get_or-take (suc n) (x ∷ xs) (suc j) h = get_or-take n xs j (omega arith)

  -- Lists of the same cells are equal.
  pub same_cells :
      (xs ys : List A)
      → length xs ≡ length ys
      → ((j : ℕ) → j < length xs → get_or xs j d ≡ get_or ys j d)
      → xs ≡ ys
  same_cells [] [] l h = refl
  same_cells [] (y ∷ ys) l h = absurd (omega arith)
  same_cells (x ∷ xs) [] l h = absurd (omega arith)
  same_cells (x ∷ xs) (y ∷ ys) l h =
      let e = h 0 (omega arith) in
      let r = same_cells xs ys (omega arith) (λ j b. h (suc j) (omega arith)) in cc

  -- The loop that closes the gap, and the block made shorter.
  pub shift_left-remove_at :
      (xs : List A) (i : ℕ)
      → i < length xs
      → (ys : List A) × (shift_left (length xs - 1 - i) xs i ≡ some ys)
        × (take (length xs - 1) ys ≡ remove_at xs i)
  shift_left-remove_at xs i h =
      let (ys, run, s) = shift_left-ShiftedLeft d (length xs - 1 - i) xs i (omega arith) in
      let m = s.measure in
      let lt = length-take (length xs - 1) ys in
      (
        ys,
        run,
        same_cells _ _ (lt ∙ (let e = length-remove_at xs i h in omega arith)) (λ j b.
            get_or-take (length xs - 1) ys j (omega arith) ∙ elim (dec_lt j i) [
              | yes p ↦
                  s.low j p
                  ∙ ap (λ k. get_or xs k d) (let e : j ≡ skip i j = ground arith in e)
                  ∙ sym (get_or-remove_at xs i j)
              | no p ↦
                  s.mid j (omega arith) (omega arith)
                  ∙ ap (λ k. get_or xs k d) (let e : suc j ≡ skip i j = ground arith in e)
                  ∙ sym (get_or-remove_at xs i j)
            ]),
      )

pub lower_above-map :
    (n item : ℕ) (xs : List ℕ) → length xs ≡ n → lower_above n item xs ≡ some (map (low item) xs)
unfolding lower_above
lower_above-map zero item [] l = refl
lower_above-map zero item (x ∷ xs) l = absurd (omega arith)
lower_above-map (suc n) item [] l = absurd (omega arith)
lower_above-map (suc n) item (x ∷ xs) l = rw (lower_above-map n item xs (omega arith))

pub get_or-low :
    (item : ℕ) (xs : List ℕ) (i : ℕ) → get_or (map (low item) xs) i 0 ≡ low item (get_or xs i 0)
get_or-low item [] i = ground arith
get_or-low item (x ∷ xs) zero = refl
get_or-low item (x ∷ xs) (suc i) = get_or-low item xs i
