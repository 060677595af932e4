-- ===== src/Alist/Ordered.antt =====
-- source/alist.c: the order of the names of a table, and their comparison with a name.
use tek_nap.Common.{
  ℕ, zero, suc, ◌==◌, ◌<◌, ◌≡◌, refl, ◌⊎◌, inl, inr, List, [], ◌∷◌, Bytes, true, false, some,
  length, map, get_or, get_elem?, arith, All, Bool-cases, subst, sym,
}
use tek_nap.Common.Int.{is_pos, is_neg, sub_ℕ}
use tek_nap.Alist.Slots.{read}
use tek_nap.Alist.Find.{item_at}
use tek_nap.Alist.Found.{Filled}
use tek_nap.Alist.Fixed.{strncmp, entry, fixed_list}

-- The order of names by their bytes.
unfoldable pub Before : Bytes → Bytes → Type 0
Before [] t = Unit
Before (a ∷ s) [] = ⊥
Before (a ∷ s) (b ∷ t) = (a < b) ⊎ ((a ≡ b) × Before s t)

unfoldable pub InOrder : List Bytes → Type 0
InOrder [] = Unit
InOrder (s ∷ names) = All (Before s) names × InOrder names

pub behind_too :
    (name s t : Bytes) (n : ℕ)
    → Before s t
    → is_neg (strncmp name s n) ≡ true
    → is_neg (strncmp name t n) ≡ true
unfolding Before strncmp
behind_too name s t zero b h = absurd (ground arith)
behind_too [] [] t (suc n) b h = absurd (ground arith)
behind_too [] (c ∷ s) [] (suc n) b h = absurd b
behind_too [] (c ∷ s) (d ∷ t) (suc n) b h = elim b [
  | inl l ↦ ground arith
  | inr (e, k) ↦ ground arith
]
behind_too (x ∷ p) [] t (suc n) b h = absurd (ground arith)
behind_too (x ∷ p) (c ∷ s) [] (suc n) b h = absurd b
behind_too (x ∷ p) (c ∷ s) (d ∷ t) (suc n) b h = elim b [
  | inl l ↦ elim (Bool-cases (x == c)) [
    | inl z ↦ ground arith
    | inr z ↦ let h' = rw z at h in ground arith
  ]
  | inr (e, k) ↦ elim (Bool-cases (x == c)) [
    | inl z ↦
        let z' : (x == d) ≡ true = subst (λ d. (x == d) ≡ true) e z in
        rw z' (behind_too p s t n k (rw z at h))
    | inr z ↦
        let z' : (x == d) ≡ false = subst (λ d. (x == d) ≡ false) e z in
        let h' = rw z at h in rw z' (subst (λ d. is_neg (sub_ℕ x d) ≡ true) e h')
  ]
]

pub before_too :
    (name s t : Bytes) (n : ℕ)
    → All (λ c. 0 < c) name
    → Before s t
    → is_pos (strncmp name t n) ≡ true
    → is_pos (strncmp name s n) ≡ true
unfolding Before strncmp
before_too name s t zero ok b h = absurd (ground arith)
before_too [] s [] (suc n) ok b h = absurd (ground arith)
before_too [] s (d ∷ t) (suc n) ok b h = absurd (ground arith)
before_too (x ∷ p) [] [] (suc n) ok b h = h
before_too (x ∷ p) [] (d ∷ t) (suc n) ok b h = let x_pos = ok.0 in ground arith
before_too (x ∷ p) (c ∷ s) [] (suc n) ok b h = absurd b
before_too (x ∷ p) (c ∷ s) (d ∷ t) (suc n) ok b h = elim b [
  | inl l ↦ elim (Bool-cases (x == d)) [
    | inl z ↦ ground arith
    | inr z ↦ let h' = rw z at h in ground arith
  ]
  | inr (e, k) ↦ elim (Bool-cases (x == d)) [
    | inl z ↦
        let z' : (x == c) ≡ true = subst (λ d. (x == d) ≡ true) (sym e) z in
        rw z' (before_too p s t n ok.1 k (rw z at h))
    | inr z ↦
        let z' : (x == c) ≡ false = subst (λ d. (x == d) ≡ false) (sym e) z in
        let h' = rw z at h in rw z' (subst (λ d. is_pos (sub_ℕ x d) ≡ true) (sym e) h')
  ]
]

all_at :
    (P : Bytes → Type 0) (names : List Bytes) (j : ℕ)
    → All P names
    → j < length names
    → P (get_or names j [])
all_at P [] j h l = absurd (omega arith)
all_at P (s ∷ names) zero (h, hs) l = h
all_at P (s ∷ names) (suc j) (h, hs) l = all_at P names j hs (omega arith)

-- Of two entries the earlier one comes first.
pub ordered_at :
    (names : List Bytes) (i j : ℕ)
    → InOrder names
    → i < j
    → j < length names
    → Before (get_or names i []) (get_or names j [])
unfolding InOrder
ordered_at [] i j o l h = absurd (omega arith)
ordered_at (s ∷ names) i zero o l h = absurd (omega arith)
ordered_at (s ∷ names) zero (suc j) (a, o) l h = all_at (Before s) names j a (omega arith)
ordered_at (s ∷ names) (suc i) (suc j) (a, o) l h =
    ordered_at names i j o (omega arith) (omega arith)

pub slot_at :
    (names : List Bytes) (i : ℕ)
    → i < length names
    → get_elem? (map (λ name. some (entry name)) names) i ≡ some (some (entry (get_or names i [])))
slot_at [] i h = absurd (omega arith)
slot_at (s ∷ names) zero h = refl
slot_at (s ∷ names) (suc i) h = slot_at names i (omega arith)

pub fixed_list-Filled : (names : List Bytes) → Filled (fixed_list names)
fixed_list-Filled names i h = (entry (get_or names i []), slot_at names i h)

pub item_at-fixed :
    (names : List Bytes) (i : ℕ)
    → i < length names
    → item_at (fixed_list names) i ≡ some (entry (get_or names i []))
unfolding item_at read
item_at-fixed names i h = rw (slot_at names i h)
