-- ===== src/Alist/Found.antt =====
-- `find_array_item` never reads outside of the items, and what it returns.
use tek_nap.Common.{
  ℕ, zero, suc, ◌+◌, ◌-◌, ◌/◌, ◌≤◌, ◌<◌, ◌≡◌, refl, ◌⊎◌, inl, inr, Bytes, Bool, true, false, some,
  get_elem?, arith, Bool-cases, ltb, subst,
}
use tek_nap.Common.Int.{ℤ, is_zero, is_neg}
use native.Mathlib.Decide.{dec_lt}
use tek_nap.Alist.Slots.{Item, Array, read}
use tek_nap.Alist.Find.{item_at, probe, widen_down, widen_up, fits, run_down, run_up}

-- The first `max` slots hold items.
abbrev pub Filled : Array → Type 0
Filled a = (i : ℕ) → i < a.max → (item : Item) × (get_elem? a.slots i ≡ some (some item))

module _ (a : Array) (filled : Filled a) where
  pub item_at-some : (i : ℕ) → i < a.max → (item : Item) × (item_at a i ≡ some item)
  unfolding item_at read
  item_at-some i h = let (item, e) = filled i h in (item, rw e)

  -- The comparison `c` is that of the item at the place.
  abbrev pub Compared : (Item → ℤ) → ℕ → ℤ → Type 0
  Compared cmp place c = (item : Item) × (item_at a place ≡ some item) × (cmp item ≡ c)

  -- The search ends at a place among the items, with its comparison, if it began with some.
  pub probe-some :
      (fuel : ℕ) (cmp : Item → ℤ) (min hi place : ℕ) (c : ℤ)
      → hi < fuel + min
      → min ≤ hi
      → hi ≤ a.max
      → (min < hi) ⊎ ((place < a.max) × Compared cmp place c)
      → (r : ℕ × ℤ) × (probe fuel a cmp min hi place c ≡ some r)
        × (r.0 < a.max)
        × Compared cmp r.0 r.1
  unfolding probe
  probe-some zero cmp min hi place c f o b s = absurd (omega arith)
  probe-some (suc fuel) cmp min hi place c f o b s = elim (Bool-cases (ltb min hi)) [
    | inr z ↦ elim s [ inl h ↦ absurd (ground arith) | inr (p, k) ↦ ((place, c), rw z, p, k) ]
    | inl z ↦
        let middle : ℕ = (hi - 1 - min) / 2 + min in
        let inside : middle < a.max = ground arith in
        let (item, got) = item_at-some middle inside in
        elim (Bool-cases (is_zero (cmp item))) [
          | inl y ↦ ((middle, cmp item), rw (z, got, y), inside, (item, got, refl))
          | inr y ↦ elim (Bool-cases (is_neg (cmp item))) [
            | inl x ↦
                let (r, run, k, m) =
                  probe-some fuel cmp min middle middle (cmp item) (ground arith) (omega arith)
                    (omega arith) (inr (inside, (item, got, refl))) in
                (r, rw (z, got, y, x, run), k, m)
            | inr x ↦
                let (r, run, k, m) =
                  probe-some fuel cmp (middle + 1) hi middle (cmp item) (ground arith)
                    (ground arith) b (inr (inside, (item, got, refl))) in
                (r, rw (z, got, y, x, run), k, m)
          ]
        ]
  ]

  pub widen_down-some :
      (cmp : Item → ℤ) (i : ℕ) → i < a.max → (j : ℕ) × (widen_down a cmp i ≡ some j) × (j ≤ i)
  unfolding widen_down
  widen_down-some cmp zero h = (0, refl, omega arith)
  widen_down-some cmp (suc i) h =
      let (item, got) = item_at-some (suc i) h in
      let (j, run, k) = widen_down-some cmp i (omega arith) in
      elim (Bool-cases (is_zero (cmp item))) [
        | inl y ↦ (j, rw (got, y, run), omega arith)
        | inr y ↦ (suc i, rw (got, y), omega arith)
      ]

  pub widen_up-some :
      (n : ℕ) (cmp : Item → ℤ) (i : ℕ)
      → i + n < a.max
      → (j : ℕ) × (widen_up n a cmp i ≡ some j) × (i ≤ j) × (j ≤ i + n)
  unfolding widen_up
  widen_up-some zero cmp i h = (i, refl, omega arith, omega arith)
  widen_up-some (suc n) cmp i h =
      let (item, got) = item_at-some i (omega arith) in
      let (j, run, k, l) = widen_up-some n cmp (i + 1) (omega arith) in
      elim (Bool-cases (is_zero (cmp item))) [
        | inl y ↦ (j, rw (got, y, run), omega arith, omega arith)
        | inr y ↦ (i, rw (got, y), omega arith, omega arith)
      ]

  -- The item at `i` begins with the name, or does not.
  abbrev pub FitsAt : Bytes → Bool → ℕ → Type 0
  FitsAt name b i = (item : Item) × (item_at a i ≡ some item) × (fits a name item ≡ b)

  pub run_down-some :
      (name : Bytes) (i : ℕ)
      → i ≤ a.max
      → (n : ℕ) × (run_down a name i ≡ some n)
        × (n ≤ i)
        × ((j : ℕ) → i - n ≤ j → j < i → FitsAt name true j)
        × ((n ≡ i) ⊎ FitsAt name false (i - n - 1))
  unfolding run_down
  run_down-some name zero h = (0, refl, omega arith, λ j k l. absurd (omega arith), inl refl)
  run_down-some name (suc i) h =
      let (item, got) = item_at-some i h in
      let (n, run, k, all, stop) = run_down-some name i (omega arith) in
      elim (Bool-cases (fits a name item)) [
        | inl y ↦ (
          n + 1,
          rw (got, y, run),
          omega arith,
          λ j l u. elim (dec_lt j i) [
            | yes p ↦ all j (omega arith) p
            | no p ↦ let e : i ≡ j = omega arith in subst (FitsAt name true) e (item, got, y)
          ],
          elim stop [
            | inl e ↦ inl (omega arith)
            | inr s ↦
                let e : i - n - 1 ≡ suc i - (n + 1) - 1 = omega arith in
                inr (subst (FitsAt name false) e s)
          ],
        )
        | inr y ↦
            let e : i ≡ suc i - 0 - 1 = omega arith in
            (
              0,
              rw (got, y),
              omega arith,
              λ j l u. absurd (omega arith),
              inr (subst (FitsAt name false) e (item, got, y)),
            )
      ]

  pub run_up-some :
      (n : ℕ) (name : Bytes) (i : ℕ)
      → i + n ≤ a.max
      → (k : ℕ) × (run_up n a name i ≡ some k)
        × (k ≤ n)
        × ((j : ℕ) → i ≤ j → j < i + k → FitsAt name true j)
        × ((k ≡ n) ⊎ FitsAt name false (i + k))
  unfolding run_up
  run_up-some zero name i h = (0, refl, omega arith, λ j l u. absurd (omega arith), inl refl)
  run_up-some (suc n) name i h =
      let (item, got) = item_at-some i (omega arith) in
      let (k, run, b, all, stop) = run_up-some n name (i + 1) (omega arith) in
      elim (Bool-cases (fits a name item)) [
        | inl y ↦ (
          k + 1,
          rw (got, y, run),
          omega arith,
          λ j l u. elim (dec_lt i j) [
            | yes p ↦ all j (omega arith) (omega arith)
            | no p ↦ let e : i ≡ j = omega arith in subst (FitsAt name true) e (item, got, y)
          ],
          elim stop [
            | inl e ↦ inl (omega arith)
            | inr s ↦
                let e : i + 1 + k ≡ i + (k + 1) = omega arith in inr (subst (FitsAt name false) e s)
          ],
        )
        | inr y ↦
            let e : i ≡ i + 0 = omega arith in
            (
              0,
              rw (got, y),
              omega arith,
              λ j l u. absurd (omega arith),
              inr (subst (FitsAt name false) e (item, got, y)),
            )
      ]
