-- ===== src/Alist/Bounds.antt =====
-- When `check_array_size` leaves room for `add_to_array`, which writes one slot behind the free one.
use tek_nap.Common.{
  ℕ, zero, suc, ◌+◌, ◌-◌, ◌*◌, ◌/◌, ◌≤◌, ◌<◌, ◌≡◌, refl, ◌⊎◌, inl, inr, ◌↔◌, List, ◌++◌, ◌==◌,
  if◌then◌else◌, Option, none, ltb, length, arith, take, replicate, length-append, length-take,
  length-replicate, [], ◌∷◌, get_elem?, ◌∙◌, ap, Bool-cases,
}
use tek_nap.Alist.Slots.{Item, Array}
use tek_nap.Alist.{resize, check_array_size}

-- The sizes at which the array is made too small.
abbrev pub Cramped : (max total_max : ℕ) → Type 0
Cramped max total_max =
    ((max ≡ 0) × ((total_max ≡ 2) ⊎ (total_max ≡ 3)))
    ⊎ ((max ≡ 1) × ((total_max ≡ 4) ⊎ (total_max ≡ 5)))
    ⊎ ((max ≡ 2) × (total_max ≡ 7))

pub max-check_array_size : (a : Array) → (check_array_size a).max ≡ a.max
unfolding check_array_size
max-check_array_size a = ground arith

room_unless :
    (max total : ℕ)
    → (max < total) ⊎ ((max ≡ 0) × (total ≡ 0))
    → ¬ Cramped max total
    → max + 2 ≤ (
        if total == 0
        then 6
        else if max + 1 == total
        then total * 2
        else if ltb (max * 3) total
        then total / 2
        else total)
room_unless max total h n = ground arith

total-check_array_size :
    (a : Array)
    → (check_array_size a).total_max ≡ (
        if a.total_max == 0
        then 6
        else if a.max + 1 == a.total_max
        then a.total_max * 2
        else if ltb (a.max * 3) a.total_max
        then a.total_max / 2
        else a.total_max)
unfolding check_array_size resize
total-check_array_size a = ground arith

Cramped-short :
    (max total : ℕ)
    → Cramped max total
    → ¬ (
        max + 2 ≤ (
          if total == 0
          then 6
          else if max + 1 == total
          then total * 2
          else if ltb (max * 3) total
          then total / 2
          else total))
Cramped-short max total c h = ground arith

-- With fewer items than slots, or as a new array, an array has room after `check_array_size` for the
-- two slots that `add_to_array` may write behind its items, unless it is of one of five sizes; and
-- then it has not.
pub check_array_size_room :
    (a : Array)
    → (a.max < a.total_max) ⊎ ((a.max ≡ 0) × (a.total_max ≡ 0))
    → (a.max + 2 ≤ (check_array_size a).total_max) ↔ ¬ Cramped a.max a.total_max
check_array_size_room a h = (
  λ r c. Cramped-short a.max a.total_max c (rw total-check_array_size at r),
  λ n. rw (total-check_array_size a) (room_unless a.max a.total_max h n),
)

length-resize : (a : Array) (n : ℕ) → length (resize a n).slots ≡ n
unfolding resize
length-resize a n = omega (
  arith,
  length-take n (a.slots ++ replicate (n - length a.slots) none),
  length-append a.slots (replicate (n - length a.slots) none),
  length-replicate {A = Option Item} (n - length a.slots) none,
)

total-resize : (a : Array) (n : ℕ) → (resize a n).total_max ≡ n
unfolding resize
total-resize a n = refl

pub sized-check_array_size :
    (a : Array)
    → length a.slots ≡ a.total_max
    → length (check_array_size a).slots ≡ (check_array_size a).total_max
unfolding check_array_size
sized-check_array_size a h = ground (
  arith,
  length-resize a 6,
  total-resize a 6,
  length-resize a (a.total_max * 2),
  total-resize a (a.total_max * 2),
  length-resize a (a.total_max / 2),
  total-resize a (a.total_max / 2),
)

get_elem?-take {ℓ} :
    {A : Type ℓ} (n i : ℕ) (xs : List A) → i < n → get_elem? (take n xs) i ≡ get_elem? xs i
get_elem?-take zero i xs h = absurd (omega arith)
get_elem?-take (suc n) i [] h = refl
get_elem?-take (suc n) zero (x ∷ xs) h = refl
get_elem?-take (suc n) (suc i) (x ∷ xs) h = get_elem?-take n i xs (omega arith)

get_elem?-append {ℓ} :
    {A : Type ℓ} (i : ℕ) (xs ys : List A) → i < length xs → get_elem? (xs ++ ys) i ≡ get_elem? xs i
get_elem?-append i [] ys h = absurd (omega arith)
get_elem?-append zero (x ∷ xs) ys h = refl
get_elem?-append (suc i) (x ∷ xs) ys h = get_elem?-append i xs ys (omega arith)

slot-resize :
    (a : Array) (n i : ℕ)
    → i < n
    → i < length a.slots
    → get_elem? (resize a n).slots i ≡ get_elem? a.slots i
unfolding resize
slot-resize a n i h k =
    get_elem?-take n i _ h ∙ get_elem?-append i a.slots (replicate (n - length a.slots) none) k

resized_or_not :
    (a : Array) → (check_array_size a ≡ a) ⊎ ((n : ℕ) × (check_array_size a ≡ resize a n))
unfolding check_array_size
resized_or_not a = elim (Bool-cases (a.total_max == 0)) [
  | inl p ↦ inr (6, rw p)
  | inr p ↦ elim (Bool-cases (a.max + 1 == a.total_max)) [
    | inl q ↦ inr (a.total_max * 2, rw (p, q))
    | inr q ↦ elim (Bool-cases (ltb (a.max * 3) a.total_max)) [
      | inl r ↦ inr (a.total_max / 2, rw (p, q, r))
      | inr r ↦ inl (rw (p, q, r))
    ]
  ]
]

-- The slots that stay hold what they held.
pub slot-check_array_size :
    (a : Array) (i : ℕ)
    → i < length a.slots
    → i < (check_array_size a).total_max
    → get_elem? (check_array_size a).slots i ≡ get_elem? a.slots i
slot-check_array_size a i k h = elim (resized_or_not a) [
  | inl e ↦ ap (λ (t : Array). get_elem? t.slots i) e
  | inr (n, e) ↦
      let t : (check_array_size a).total_max ≡ n =
        ap (λ (t : Array). t.total_max) e ∙ total-resize a n in
      ap (λ (t : Array). get_elem? t.slots i) e ∙ slot-resize a n i (omega arith) k
]
