-- ===== src/Alist/Splits.antt =====
-- source/alist.c: arrays that are in order for a name, and how a binary search splits their items.
use tek_nap.Common.{
  ℕ, zero, suc, ◌+◌, ◌-◌, ◌/◌, ◌≤◌, ◌<◌, ◌≡◌, refl, ◌⊎◌, inl, inr, Bytes, true, false, Option, none,
  some, length, arith, Bool-cases, ltb, subst, sym, ◌∙◌,
}
use native.Mathlib.Decide.{dec_lt}
use tek_nap.Common.Int.{ℤ, pos, is_zero, is_neg, is_pos, pos_not_zero, neg_not_zero}
use tek_nap.Alist.Hash.{alist_hash, hash_diff}
use tek_nap.Alist.Slots.{Item, Array}
use tek_nap.Alist.Find.{item_at, probe, widen_down, widen_up, absent}
use tek_nap.Alist.Found.{Filled, item_at-some}

abbrev pub mask_or_zero : Option ℕ → ℕ
mask_or_zero none = 0
mask_or_zero (some m) = m

-- The comparisons of the two binary searches.
abbrev pub hash_sign : Array → Bytes → Item → ℤ
hash_sign a name item =
    hash_diff (alist_hash a.hash name).value (mask_or_zero (alist_hash a.hash name).mask) item.hash

abbrev pub name_sign : Array → Bytes → Item → ℤ
name_sign a name item = a.func name item.name (length name)

-- The comparison falls along the items: it is above zero first, and below zero last.
abbrev pub Falls : Array → (Item → ℤ) → Type 0
Falls a cmp =
    (i j : ℕ) (x y : Item)
    → i < j
    → j < a.max
    → item_at a i ≡ some x
    → item_at a j ≡ some y
    → (is_pos (cmp y) ≡ true → is_pos (cmp x) ≡ true)
      × (is_neg (cmp x) ≡ true → is_neg (cmp y) ≡ true)

-- The items are in order by their hashes and by their names, as far as the name tells them apart, and
-- where the hashes differ the names differ in the same way.
pub record InOrderFor (a : Array) (name : Bytes) : Type 0 where
  pub hashes : Falls a (hash_sign a name)
  pub names : Falls a (name_sign a name)
  pub agree_pos :
      (i : ℕ) (x : Item)
      → i < a.max
      → item_at a i ≡ some x
      → is_pos (hash_sign a name x) ≡ true
      → is_pos (name_sign a name x) ≡ true
  pub agree_neg :
      (i : ℕ) (x : Item)
      → i < a.max
      → item_at a i ≡ some x
      → is_neg (hash_sign a name x) ≡ true
      → is_neg (name_sign a name x) ≡ true

-- The items in front of a place come before the name, those from it on behind the name.
abbrev pub Low : Array → (Item → ℤ) → ℕ → Type 0
Low a cmp n = (j : ℕ) (x : Item) → j < n → item_at a j ≡ some x → is_pos (cmp x) ≡ true

abbrev pub High : Array → (Item → ℤ) → ℕ → Type 0
High a cmp n = (j : ℕ) (x : Item) → n ≤ j → j < a.max → item_at a j ≡ some x → is_neg (cmp x) ≡ true

pub zero_not_neg : (c : ℤ) → is_zero c ≡ true → is_neg c ≡ false
zero_not_neg c h = ground arith

pub zero_not_pos : (c : ℤ) → is_zero c ≡ true → is_pos c ≡ false
zero_not_pos c h = ground arith

neg_not_pos : (c : ℤ) → is_neg c ≡ true → is_pos c ≡ false
neg_not_pos c h = ground arith

pub right_over : (c : ℤ) → is_zero c ≡ false → is_neg c ≡ false → is_pos c ≡ true
right_over c h k = ground arith

module _ (a : Array) (filled : Filled a) where
  module _ (cmp : Item → ℤ) (falls : Falls a cmp) where
    pub low_from :
        (i : ℕ) (x : Item)
        → i < a.max
        → item_at a i ≡ some x
        → is_pos (cmp x) ≡ true
        → Low a cmp (i + 1)
    low_from i x h at p j y l at' = elim (dec_lt j i) [
      | yes k ↦ (falls j i y x k h at' at).0 p
      | no k ↦
          let e : i ≡ j = omega arith in
          let same : x ≡ y = cc (sym at ∙ subst (λ j. item_at a j ≡ some y) (sym e) at') in
          subst (λ y. is_pos (cmp y) ≡ true) same p
    ]

    pub high_from : (i : ℕ) (x : Item) → item_at a i ≡ some x → is_neg (cmp x) ≡ true → High a cmp i
    high_from i x at n j y l h at' = elim (dec_lt i j) [
      | yes k ↦ (falls i j x y k h at at').1 n
      | no k ↦
          let e : i ≡ j = omega arith in
          let same : x ≡ y = cc (sym at ∙ subst (λ j. item_at a j ≡ some y) (sym e) at') in
          subst (λ y. is_neg (cmp y) ≡ true) same n
    ]

    -- What a search ends with: an item that compares equal, or the place that splits the items.
    abbrev pub Split : ℕ × ℤ → Type 0
    Split r =
        ((is_zero r.1 ≡ true)
          × (r.0 < a.max)
          × (x : Item) × (item_at a r.0 ≡ some x)
          × (is_zero (cmp x) ≡ true))
        ⊎ ((is_zero r.1 ≡ false)
            × (loc : ℕ) × (loc ≤ a.max)
            × (absent r ≡ some (record { result = none; cnt = pos 0; loc = loc }))
            × Low a cmp loc
            × High a cmp loc)

    pub probe-Split :
        (fuel min hi place : ℕ) (c : ℤ)
        → hi < fuel + min
        → min ≤ hi
        → hi ≤ a.max
        → Low a cmp min
        → High a cmp hi
        → (min < hi)
          ⊎ (((is_pos c ≡ true) × (min ≡ place + 1)) ⊎ ((is_neg c ≡ true) × (hi ≡ place)))
        → (r : ℕ × ℤ) × (probe fuel a cmp min hi place c ≡ some r) × Split r
    unfolding probe absent
    probe-Split zero min hi place c f o b low high s = absurd (omega arith)
    probe-Split (suc fuel) min hi place c f o b low high s = elim (Bool-cases (ltb min hi)) [
      | inr z ↦
          let e : hi ≡ min = ground arith in
          elim s [
            | inl h ↦ absurd (ground arith)
            | inr (inl (p, q)) ↦ (
              (place, c),
              rw z,
              inr (
                pos_not_zero c p,
                place + 1,
                omega arith,
                rw p,
                subst (Low a cmp) q low,
                subst (High a cmp) (e ∙ q) high,
              ),
            )
            | inr (inr (n, q)) ↦ (
              (place, c),
              rw z,
              inr (
                neg_not_zero c n,
                place,
                omega arith,
                rw (neg_not_pos c n),
                subst (Low a cmp) (sym e ∙ q) low,
                subst (High a cmp) q high,
              ),
            )
          ]
      | inl z ↦
          let middle : ℕ = (hi - 1 - min) / 2 + min in
          let above : min ≤ middle = omega arith in
          let below : middle < hi = ground arith in
          let inside : middle < a.max = omega arith in
          let (item, got) = item_at-some a filled middle inside in
          elim (Bool-cases (is_zero (cmp item))) [
            | inl y ↦ ((middle, cmp item), rw (z, got, y), inl (y, inside, item, got, y))
            | inr y ↦ elim (Bool-cases (is_neg (cmp item))) [
              | inl x ↦
                  let (r, run, w) =
                    probe-Split fuel min middle middle (cmp item) (omega arith) above (omega arith)
                      low (high_from middle item got x) (inr (inr (x, refl))) in
                  (r, rw (z, got, y, x, run), w)
              | inr x ↦
                  let p = right_over (cmp item) y x in
                  let (r, run, w) =
                    probe-Split fuel (middle + 1) hi middle (cmp item) (omega arith) (omega arith) b
                      (low_from middle item inside got p) high (inr (inl (p, refl))) in
                  (r, rw (z, got, y, x, run), w)
            ]
          ]
    ]

  -- A place where the comparison is not zero.
  abbrev pub EdgeAt : (Item → ℤ) → ℕ → Type 0
  EdgeAt cmp j = (x : Item) × (item_at a j ≡ some x) × (is_zero (cmp x) ≡ false)

  pub widen_down-EdgeAt :
      (cmp : Item → ℤ) (i : ℕ)
      → i < a.max
      → (j : ℕ) × (widen_down a cmp i ≡ some j) × (j ≤ i) × ((j ≡ 0) ⊎ EdgeAt cmp j)
  unfolding widen_down
  widen_down-EdgeAt cmp zero h = (0, refl, omega arith, inl refl)
  widen_down-EdgeAt cmp (suc i) h =
      let (item, got) = item_at-some a filled (suc i) h in
      let (j, run, k, e) = widen_down-EdgeAt cmp i (omega arith) in
      elim (Bool-cases (is_zero (cmp item))) [
        | inl y ↦ (j, rw (got, y, run), omega arith, e)
        | inr y ↦ (suc i, rw (got, y), omega arith, inr (item, got, y))
      ]

  pub widen_up-EdgeAt :
      (n : ℕ) (cmp : Item → ℤ) (i : ℕ)
      → i + n < a.max
      → (j : ℕ) × (widen_up n a cmp i ≡ some j)
        × (i ≤ j)
        × (j ≤ i + n)
        × ((j ≡ i + n) ⊎ EdgeAt cmp j)
  unfolding widen_up
  widen_up-EdgeAt zero cmp i h = (i, refl, omega arith, omega arith, inl (omega arith))
  widen_up-EdgeAt (suc n) cmp i h =
      let (item, got) = item_at-some a filled i (omega arith) in
      let (j, run, k, l, e) = widen_up-EdgeAt n cmp (i + 1) (omega arith) in
      elim (Bool-cases (is_zero (cmp item))) [
        | inl y ↦ (
          j,
          rw (got, y, run),
          omega arith,
          omega arith,
          elim e [ inl q ↦ inl (omega arith) | inr q ↦ inr q ],
        )
        | inr y ↦ (i, rw (got, y), omega arith, omega arith, inr (item, got, y))
      ]
