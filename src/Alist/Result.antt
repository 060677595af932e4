-- ===== src/Alist/Result.antt =====
-- `find_array_item` on an array in whatever order: the items that it reads, and what it returns.
use tek_nap.Common.{
  ℕ, ◌+◌, ◌-◌, ◌≤◌, ◌<◌, ◌≡◌, ◌≢◌, refl, ◌⊎◌, inl, inr, [], ◌∷◌, Bytes, true, false, none, some,
  length, arith, ◌∙◌, ap, Bool-cases, if◌then◌else◌, ◌==◌, subst,
}
use native.Mathlib.Decide.{dec_lt}
use tek_nap.Common.Int.{ℤ, pos, is_zero, negate}
use tek_nap.Alist.Hash.{alist_hash, hash_diff, HashType, cs_alist_hash, ci_alist_hash}
use tek_nap.Alist.Slots.{Item, Array}
use tek_nap.Alist.Find.{
  Search, item_at, fits, absent, present, by_name, search_both, find_array_item,
}
use tek_nap.Alist.Found.{
  Filled, FitsAt, item_at-some, probe-some, widen_down-some, widen_up-some, run_down-some,
  run_up-some,
}

-- Nothing is returned, and the place is among the items or right behind them.
pub record Missed (a : Array) (s : Search) : Type 0 where
  pub no_result : s.result ≡ none
  pub no_count : s.cnt ≡ pos 0
  pub in_range : s.loc ≤ a.max

-- The `n` items from `*loc` on fit the name, and their neighbours do not; the count is negative if
-- the first of them has the very name.
pub record Run (a : Array) (name : Bytes) (s : Search) : Type 0 where
  pub n : ℕ
  pub some_item : 0 < n
  pub in_range : s.loc + n ≤ a.max
  pub all_fit :
      (j : ℕ)
      → s.loc ≤ j
      → j < s.loc + n
      → (item : Item) × (item_at a j ≡ some item) × (fits a name item ≡ true)
  pub none_before :
      (s.loc ≡ 0)
      ⊎ ((item : Item) × (item_at a (s.loc - 1) ≡ some item) × (fits a name item ≡ false))
  pub none_behind :
      (s.loc + n ≡ a.max)
      ⊎ ((item : Item) × (item_at a (s.loc + n) ≡ some item) × (fits a name item ≡ false))
  pub first : Item
  pub at_first : item_at a s.loc ≡ some first
  pub the_result : s.result ≡ some first
  pub count : s.cnt ≡ (if length first.name == length name then negate (pos n) else pos n)

module _ (a : Array) (filled : Filled a) (name : Bytes) where
  abbrev Good : Search → Type 0
  Good s = Missed a s ⊎ Run a name s

  absent-Missed : (r : ℕ × ℤ) → r.0 < a.max → (s : Search) × (absent r ≡ some s) × Missed a s
  unfolding absent
  absent-Missed (place, c) h =
      (_, refl, record { no_result = refl; no_count = refl; in_range = ground arith })

  pub present-Run :
      (place : ℕ)
      → place < a.max
      → FitsAt a filled name true place
      → (s : Search) × (present a name place ≡ some s) × Run a name s
  unfolding present
  present-Run place h (it, got, f) =
      let (below, run1, b1, all1, stop1) = run_down-some a filled name place (omega arith) in
      let (above, run2, b2, all2, stop2) =
        run_up-some a filled (a.max - (place + 1)) name (place + 1) (omega arith) in
      let (first, got1) = item_at-some a filled (place - below) (omega arith) in
      let n : ℕ = below + 1 + above in
      (
        record {
          result = some first;
          cnt = if length first.name == length name then negate (pos n) else pos n;
          loc = place - below;
        },
        rw (run1, run2, got1),
        record {
          n = n;
          some_item = omega arith;
          in_range = omega arith;
          all_fit = λ j l u. elim (dec_lt j place) [
            | yes p ↦ all1 j l p
            | no p ↦ elim (dec_lt place j) [
              | yes q ↦ all2 j (omega arith) (omega arith)
              | no q ↦
                  let e : place ≡ j = omega arith in
                  subst (FitsAt a filled name true) e (it, got, f)
            ]
          ];
          none_before = elim stop1 [ inl e ↦ inl (omega arith) | inr s ↦ inr s ];
          none_behind = elim stop2 [
            | inl e ↦ inl (omega arith)
            | inr s ↦
                let e : place + 1 + above ≡ place - below + n = omega arith in
                inr (subst (FitsAt a filled name false) e s)
          ];
          first = first;
          at_first = got1;
          the_result = refl;
          count = refl;
        },
      )

  by_name-Good :
      (by_hash : Item → ℤ) (place : ℕ)
      → place < a.max
      → (s : Search) × (by_name a name by_hash place ≡ some s) × Good s
  unfolding by_name
  by_name-Good by_hash place h =
      let (min, run1, k1) = widen_down-some a filled by_hash place h in
      let (max, run2, k2, l2) =
        widen_up-some a filled (a.max - 1 - place) by_hash place (omega arith) in
      let (r, run3, k3, (item, got, e)) =
        probe-some a filled (a.max + 1) (λ item. a.func name item.name (length name)) min (max + 1)
          place (pos 0) (omega arith) (omega arith) (omega arith) (inl (omega arith)) in
      elim (Bool-cases (is_zero r.1)) [
        | inl z ↦
            let (s, run, g) = present-Run r.0 k3 (item, got, unfold fits in ap is_zero e ∙ z) in
            (s, rw (run1, run2, run3, z, run), inr g)
        | inr z ↦ let (s, run, g) = absent-Missed r k3 in (s, rw (run1, run2, run3, z, run), inl g)
      ]

  search_both-Good :
      (by_hash : Item → ℤ)
      → a.max ≢ 0
      → (s : Search) × (search_both a name by_hash ≡ some s) × Good s
  unfolding search_both
  search_both-Good by_hash h =
      let (r, run1, k1, _) =
        probe-some a filled (a.max + 1) by_hash 0 a.max 0 (pos 0) (omega arith) (omega arith)
          (omega arith) (inl (omega arith)) in
      elim (Bool-cases (is_zero r.1)) [
        | inl z ↦ let (s, run, g) = by_name-Good by_hash r.0 k1 in (s, rw (run1, z, run), g)
        | inr z ↦ let (s, run, g) = absent-Missed r k1 in (s, rw (run1, z, run), inl g)
      ]

pub mask-some :
    (t : HashType) (name : Bytes) → name ≢ [] → (m : ℕ) × ((alist_hash t name).mask ≡ some m)
unfolding alist_hash cs_alist_hash ci_alist_hash
mask-some t [] h = absurd (h refl)
mask-some HashType.sensitive (a ∷ []) h = (_, refl)
mask-some HashType.sensitive (a ∷ b ∷ []) h = (_, refl)
mask-some HashType.sensitive (a ∷ b ∷ c ∷ []) h = (_, refl)
mask-some HashType.sensitive (a ∷ b ∷ c ∷ d ∷ s) h = (_, refl)
mask-some HashType.insensitive (a ∷ []) h = (_, refl)
mask-some HashType.insensitive (a ∷ b ∷ []) h = (_, refl)
mask-some HashType.insensitive (a ∷ b ∷ c ∷ []) h = (_, refl)
mask-some HashType.insensitive (a ∷ b ∷ c ∷ d ∷ s) h = (_, refl)

-- What `find_array_item` returns on an array in whatever order.
pub find_array_item-Good :
    (a : Array) (name : Bytes)
    → Filled a
    → name ≢ []
    → (s : Search) × (find_array_item a name ≡ some s) × (Missed a s ⊎ Run a name s)
unfolding find_array_item
find_array_item-Good a name filled h = elim (Bool-cases (a.max == 0)) [
  | inl z ↦ (
    record { result = none; cnt = pos 0; loc = 0 },
    rw z,
    inl (record { no_result = refl; no_count = refl; in_range = omega arith }),
  )
  | inr z ↦
      let (m, e) = mask-some a.hash name h in
      let (s, run, g) =
        search_both-Good a filled name
          (λ item. hash_diff (alist_hash a.hash name).value m item.hash) (ground arith) in
      (s, rw (z, e, run), g)
]
