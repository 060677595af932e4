-- ===== src/ScriptArray/Inserted.antt =====
-- `insert_index` of source/array.c: the new number is put in at its place.
use tek_nap.Common.{
  subst, ℕ, zero, suc, ◌+◌, ◌-◌, ◌<◌, ◌≤◌, List, [], ◌∷◌, ◌++◌, ◌==◌, if◌then◌else◌, some, length,
  get_or, set, ◌≡◌, ◌≢◌, refl, sym, ap, ◌∙◌, arith, take-all, length-append, Bool-cases, inl, inr,
}
use tek_nap.Common.Int.{ℤ, pos}
use tek_nap.ScriptArray.Index.{AnArray, put, reallocate, insert_at, insert_index}
use tek_nap.ScriptArray.Valid.{put-some}
use tek_nap.ScriptArray.Shift.{shift_right-ShiftedRight}
use tek_nap.ScriptArray.Moved.{Moved, shifted_right}

-- A block that is made longer by one cell.
pub reallocate-append {ℓ} :
    {A : Type ℓ} (left : A) (xs : List A) → reallocate (length xs + 1) left xs ≡ xs ++ (left ∷ [])
unfolding reallocate
reallocate-append left xs =
    let e : length xs + 1 - length xs ≡ 1 = omega arith in
    rw (take-all (length xs + 1) xs (omega arith), e)

pub get_or-append_lt {ℓ} :
    {A : Type ℓ} (d : A) (xs : List A) (x : A) (j : ℕ)
    → j < length xs
    → get_or (xs ++ (x ∷ [])) j d ≡ get_or xs j d
get_or-append_lt d [] x j h = elim h [ ]
get_or-append_lt d (z ∷ xs) x zero h = refl
get_or-append_lt d (z ∷ xs) x (suc j) h = get_or-append_lt d xs x j (omega arith)

set-append {ℓ} :
    {A : Type ℓ} (xs : List A) (y x : A) → set (xs ++ (y ∷ [])) (length xs) x ≡ xs ++ (x ∷ [])
set-append [] y x = refl
set-append (z ∷ xs) y x = ap (λ t. z ∷ t) (set-append xs y x)

-- Writing the cell that is new.
pub put-reallocate {ℓ} :
    {A : Type ℓ} (left : A) (xs : List A) (x : A) (n : ℕ)
    → length xs ≡ n
    → put (reallocate (n + 1) left xs) n x ≡ some (xs ++ (x ∷ []))
put-reallocate left xs x n e =
    let block = xs ++ (left ∷ []) in
    let l : length block ≡ length xs + 1 = length-append xs (left ∷ []) in
    subst (λ n. put (reallocate (n + 1) left xs) n x ≡ some (xs ++ (x ∷ []))) e
      (rw (reallocate-append left xs)
        (put-some block (length xs) x (omega arith) ∙ ap some (set-append xs left x)))

pub get_or-append_ne {ℓ} :
    {A : Type ℓ} (d : A) (xs : List A) (x y : A) (j : ℕ)
    → j ≢ length xs
    → get_or (xs ++ (x ∷ [])) j d ≡ get_or (xs ++ (y ∷ [])) j d
get_or-append_ne d [] x y zero h = absurd (h refl)
get_or-append_ne d [] x y (suc j) h = refl
get_or-append_ne d (z ∷ xs) x y zero h = refl
get_or-append_ne d (z ∷ xs) x y (suc j) h = get_or-append_ne d xs x y j (λ e. h (ap suc e))

pub get_or-append_self {ℓ} :
    {A : Type ℓ} (d : A) (xs : List A) (x : A) → get_or (xs ++ (x ∷ [])) (length xs) d ≡ x
get_or-append_self d [] x = refl
get_or-append_self d (y ∷ xs) x = get_or-append_self d xs x

-- The loop of `insert_index` and the write behind it put the new number in at `new`.
pub insert_at-Moved :
    (xs : List ℕ) (new : ℕ)
    → new ≤ length xs
    → (ys : List ℕ) × (insert_at (reallocate (length xs + 1) 0 xs) (length xs) (pos new) ≡ some ys)
      × Moved (xs ++ (length xs ∷ [])) ys (length xs) new
unfolding insert_at
insert_at-Moved xs new h =
    let block = xs ++ (0 ∷ []) in
    let zs = xs ++ (length xs ∷ []) in
    let l : length block ≡ length xs + 1 = length-append xs (0 ∷ []) in
    let k : length zs ≡ length xs + 1 = length-append xs (length xs ∷ []) in
    let (ys, run, s) = shift_right-ShiftedRight 0 (length xs - new) block new (omega arith) in
    (
      set ys new (length xs),
      rw (reallocate-append 0 xs, run)
          (put-some ys new (length xs) (let m = s.measure in omega arith)),
      subst (λ x. Moved zs (set ys new x) (length xs) new) (get_or-append_self 0 xs (length xs))
          (shifted_right block zs ys (length xs) new (omega arith)
            (λ j ne. get_or-append_ne 0 xs _ _ j ne) h (omega arith) s),
    )

-- `insert_index` at a place of the index or behind it; in an empty one there is but one place.
pub insert_index-Moved :
    (a : AnArray) (new : ℤ) (p : ℕ)
    → length a.index ≡ a.size
    → p ≤ a.size
    → (a.size ≢ 0 → new ≡ pos p)
    → (ys : List ℕ) × (insert_index a new
        ≡ some (record { item = a.item; index = ys; size = a.size + 1 }))
      × Moved (a.index ++ (a.size ∷ [])) ys a.size p
unfolding insert_index
insert_index-Moved a new p l h at =
    let place : (if a.size == 0 then pos 0 else new) ≡ pos p = elim (Bool-cases (a.size == 0)) [
      | inl t ↦ let e : p ≡ 0 = ground arith in rw t (ap pos (sym e))
      | inr t ↦ rw t (at (λ e. ground arith))
    ] in
    let (ys, run, s) = insert_at-Moved a.index p (omega arith) in
    let run' = subst (λ n. insert_at (reallocate (n + 1) 0 a.index) n (pos p) ≡ some ys) l run in
    (ys, rw (place, run'), subst (λ n. Moved (a.index ++ (n ∷ [])) ys n p) l s)
