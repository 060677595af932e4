-- ===== src/Alist/Whole.antt =====
-- source/alist.c: `find_array_item` on an array that is in order for the name.
use tek_nap.Common.{
  ℕ, ◌+◌, ◌-◌, ◌≤◌, ◌<◌, ◌≡◌, ◌≢◌, refl, ◌⊎◌, inl, inr, [], Bytes, true, false, none, some, arith,
  Bool-cases, subst, sym, ◌∙◌, ◌==◌,
}
use native.Mathlib.Decide.{dec_lt}
use tek_nap.Common.Int.{pos, is_zero, is_neg, is_pos, left_over}
use tek_nap.Alist.Hash.{alist_hash, hash_diff}
use tek_nap.Alist.Slots.{Item, Array}
use tek_nap.Alist.Find.{Search, item_at, fits, by_name, search_both, find_array_item}
use tek_nap.Alist.Found.{Filled}
use tek_nap.Alist.Result.{Run, present-Run, mask-some}
use tek_nap.Alist.Splits.{
  mask_or_zero, hash_sign, name_sign, InOrderFor, Low, High, zero_not_neg, zero_not_pos, right_over,
  low_from, high_from, probe-Split, EdgeAt, widen_down-EdgeAt, widen_up-EdgeAt,
}

-- Nothing fits: the items in front of `*loc` come before the name, all others behind it.
pub record Absent (a : Array) (name : Bytes) (s : Search) : Type 0 where
  pub no_result : s.result ≡ none
  pub no_count : s.cnt ≡ pos 0
  pub in_range : s.loc ≤ a.max
  pub before : Low a (name_sign a name) s.loc
  pub behind : High a (name_sign a name) s.loc

module _ (a : Array) (filled : Filled a) where
  module _ (name : Bytes) (o : InOrderFor a name) where
    abbrev Found : Search → Type 0
    Found s = Absent a name s ⊎ Run a name s

    low_names : (n : ℕ) → n ≤ a.max → Low a (hash_sign a name) n → Low a (name_sign a name) n
    low_names n l low j x h at = o.agree_pos j x (omega arith) at (low j x h at)

    high_names : (n : ℕ) → High a (hash_sign a name) n → High a (name_sign a name) n
    high_names n high j x h l at = o.agree_neg j x l at (high j x h l at)

    -- Behind the first search, which came to an item of the same hash.
    low_edge :
        (min place : ℕ) (y : Item)
        → min ≤ place
        → place < a.max
        → item_at a place ≡ some y
        → is_zero (hash_sign a name y) ≡ true
        → (min ≡ 0) ⊎ EdgeAt a filled (hash_sign a name) min
        → Low a (name_sign a name) min
    low_edge min place y l h at z (inl e) = λ j x k at'. absurd (omega arith)
    low_edge min place y l h at z (inr (x, got, n)) = elim (dec_lt min place) [
      | no q ↦
          let e : min ≡ place = omega arith in
          let same : x ≡ y = cc (sym got ∙ subst (λ j. item_at a j ≡ some y) (sym e) at) in
          absurd (let t = subst (λ x. is_zero (hash_sign a name x) ≡ false) same n in ground arith)
      | yes q ↦ elim (Bool-cases (is_neg (hash_sign a name x))) [
        | inl g ↦
            let g' = (o.hashes min place x y q h got at).1 g in
            let g'' = zero_not_neg (hash_sign a name y) z in absurd (ground arith)
        | inr g ↦
            let p = o.agree_pos min x (omega arith) got (right_over (hash_sign a name x) n g) in
            λ j w k at'. (o.names j min w x k (omega arith) at' got).0 p
      ]
    ]

    high_edge :
        (max place : ℕ) (y : Item)
        → place ≤ max
        → max < a.max
        → item_at a place ≡ some y
        → is_zero (hash_sign a name y) ≡ true
        → (max + 1 ≡ a.max) ⊎ EdgeAt a filled (hash_sign a name) max
        → High a (name_sign a name) (max + 1)
    high_edge max place y l h at z (inl e) = λ j x k u at'. absurd (omega arith)
    high_edge max place y l h at z (inr (x, got, n)) = elim (dec_lt place max) [
      | no q ↦
          let e : max ≡ place = omega arith in
          let same : x ≡ y = cc (sym got ∙ subst (λ j. item_at a j ≡ some y) (sym e) at) in
          absurd (let t = subst (λ x. is_zero (hash_sign a name x) ≡ false) same n in ground arith)
      | yes q ↦ elim (Bool-cases (is_pos (hash_sign a name x))) [
        | inl g ↦
            let g' = (o.hashes place max y x q h at got).0 g in
            let g'' = zero_not_pos (hash_sign a name y) z in absurd (ground arith)
        | inr g ↦
            let p = o.agree_neg max x h got (left_over (hash_sign a name x) n g) in
            λ j w k u at'. (o.names max j x w (omega arith) u got at').1 p
      ]
    ]

    by_name-Found :
        (place : ℕ) (y : Item)
        → place < a.max
        → item_at a place ≡ some y
        → is_zero (hash_sign a name y) ≡ true
        → (s : Search) × (by_name a name (hash_sign a name) place ≡ some s) × Found s
    unfolding by_name
    by_name-Found place y h at z =
        let (min, run1, k1, e1) = widen_down-EdgeAt a filled (hash_sign a name) place h in
        let (max, run2, k2, l2, e2) =
          widen_up-EdgeAt a filled (a.max - 1 - place) (hash_sign a name) place (omega arith) in
        let low = low_edge min place y k1 h at z e1 in
        let high =
          high_edge max place y k2 (omega arith) at z
            (elim e2 [ inl q ↦ inl (omega arith) | inr q ↦ inr q ]) in
        let (r, run3, w) =
          probe-Split a filled (name_sign a name) o.names (a.max + 1) min (max + 1) place (pos 0)
            (omega arith) (omega arith) (omega arith) low high (inl (omega arith)) in
        elim w [
          | inl (t, k3, x, got, f) ↦
              let (s, run, g) = present-Run a filled name r.0 k3 (x, got, unfold fits in f) in
              (s, rw (run1, run2, run3, t, run), inr g)
          | inr (t, loc, k, run, before, behind) ↦ (
            record { result = none; cnt = pos 0; loc = loc },
            rw (run1, run2, run3, t, run),
            inl (record {
              no_result = refl;
              no_count = refl;
              in_range = k;
              before = before;
              behind = behind;
            }),
          )
        ]

    search_both-Found :
        a.max ≢ 0 → (s : Search) × (search_both a name (hash_sign a name) ≡ some s) × Found s
    unfolding search_both
    search_both-Found n =
        let (r, run1, w) =
          probe-Split a filled (hash_sign a name) o.hashes (a.max + 1) 0 a.max 0 (pos 0)
            (omega arith) (omega arith) (omega arith) (λ j x k at. absurd (omega arith))
            (λ j x k u at. absurd (omega arith)) (inl (omega arith)) in
        elim w [
          | inl (t, k, y, got, z) ↦
              let (s, run, g) = by_name-Found r.0 y k got z in (s, rw (run1, t, run), g)
          | inr (t, loc, k, run, before, behind) ↦ (
            record { result = none; cnt = pos 0; loc = loc },
            rw (run1, t, run),
            inl (record {
              no_result = refl;
              no_count = refl;
              in_range = k;
              before = low_names loc k before;
              behind = high_names loc behind;
            }),
          )
        ]

-- The run has all items that fit.
pub record Whole (a : Array) (name : Bytes) (s : Search) : Type 0 where
  pub run : Run a name s
  pub only :
      (j : ℕ) (x : Item)
      → j < a.max
      → item_at a j ≡ some x
      → fits a name x ≡ true
      → (s.loc ≤ j) × (j < s.loc + run.n)

module _ (a : Array) (filled : Filled a) (name : Bytes) (o : InOrderFor a name) (s : Search)
    (r : Run a name s) where
  first_fits : is_zero (name_sign a name r.first) ≡ true
  first_fits =
      let (x, got, f) = r.all_fit s.loc (omega arith) (omega (arith, r.some_item)) in
      let same : x ≡ r.first = cc (sym got ∙ r.at_first) in
      let f' : is_zero (name_sign a name x) ≡ true = unfold fits in f in
      subst (λ x. is_zero (name_sign a name x) ≡ true) same f'

  not_before :
      (j : ℕ) (x : Item) → item_at a j ≡ some x → is_zero (name_sign a name x) ≡ true → s.loc ≤ j
  not_before j x at z = elim (dec_lt j s.loc) [
    | no q ↦ omega arith
    | yes q ↦ elim r.none_before [
      | inl e ↦ absurd (omega arith)
      | inr (w, got, n) ↦
          let in_range = r.in_range in
          let some_item = r.some_item in
          let n' : is_zero (name_sign a name w) ≡ false = unfold fits in n in
          elim (Bool-cases (is_neg (name_sign a name w))) [
            | inl g ↦
                let g' =
                  (o.names (s.loc - 1) s.loc w r.first (omega arith) (omega arith) got r.at_first).1
                    g in
                let g'' = zero_not_neg (name_sign a name r.first) first_fits in
                absurd (ground arith)
            | inr g ↦
                let low =
                  low_from a filled (name_sign a name) o.names (s.loc - 1) w (omega arith) got
                    (right_over (name_sign a name w) n' g) in
                let p = low j x (omega arith) at in
                let p' = zero_not_pos (name_sign a name x) z in absurd (ground arith)
          ]
    ]
  ]

  not_behind :
      (j : ℕ) (x : Item)
      → j < a.max
      → item_at a j ≡ some x
      → is_zero (name_sign a name x) ≡ true
      → j < s.loc + r.n
  not_behind j x l at z = elim (dec_lt j (s.loc + r.n)) [
    | yes q ↦ q
    | no q ↦ elim r.none_behind [
      | inl e ↦ absurd (omega arith)
      | inr (w, got, n) ↦
          let some_item = r.some_item in
          let n' : is_zero (name_sign a name w) ≡ false = unfold fits in n in
          elim (Bool-cases (is_pos (name_sign a name w))) [
            | inl g ↦
                let g' =
                  (o.names s.loc (s.loc + r.n) r.first w (omega arith) (omega arith) r.at_first
                      got).0
                    g in
                let g'' = zero_not_pos (name_sign a name r.first) first_fits in
                absurd (ground arith)
            | inr g ↦
                let high =
                  high_from a filled (name_sign a name) o.names (s.loc + r.n) w got
                    (left_over (name_sign a name w) n' g) in
                let p = high j x (omega arith) l at in
                let p' = zero_not_neg (name_sign a name x) z in absurd (ground arith)
          ]
    ]
  ]

  Run-Whole : Whole a name s
  Run-Whole = record {
    run = r;
    only = λ j x l at f.
        let z : is_zero (name_sign a name x) ≡ true = unfold fits in f in
        (not_before j x at z, not_behind j x l at z);
  }

-- On an array whose first `max` slots hold items that are in order for the name, `find_array_item`
-- for a name that is not empty comes to an end and reads no other slot. Either nothing in the array
-- fits, it returns nothing with the count 0, and `*loc` is the place where the name belongs: all
-- items in front of it come before the name, and all others behind it; or it finds a run that has all
-- the items that fit and no others, from `*loc` on, and `*cnt` is their number, negative if the first
-- of them has the very length of the name.
pub find_array_item-Found :
    (a : Array) (name : Bytes)
    → Filled a
    → InOrderFor a name
    → name ≢ []
    → (s : Search) × (find_array_item a name ≡ some s) × (Absent a name s ⊎ Whole a name s)
unfolding find_array_item
find_array_item-Found a name filled o h = elim (Bool-cases (a.max == 0)) [
  | inl z ↦ (
    record { result = none; cnt = pos 0; loc = 0 },
    rw z,
    inl (record {
      no_result = refl;
      no_count = refl;
      in_range = omega arith;
      before = λ j x k at. absurd (omega arith);
      behind = λ j x k u at. absurd (ground arith);
    }),
  )
  | inr z ↦
      let (m, e) = mask-some a.hash name h in
      let (s, run, g) = search_both-Found a filled name o (ground arith) in
      let run' : search_both a name (λ item. hash_diff (alist_hash a.hash name).value m item.hash)
          ≡ some s =
        subst
          (λ t.
            search_both a name
              (λ item. hash_diff (alist_hash a.hash name).value (mask_or_zero t) item.hash)
            ≡ some s)
          e run in
      (s, rw (z, e, run'), elim g [ inl m ↦ inl m | inr r ↦ inr (Run-Whole a filled name o s r) ])
]
