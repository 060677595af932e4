-- ===== src/Alist/Narrow.antt =====
-- source/alist.c: what `find_fixed_array_item` finds in a table in the order of its names.
use tek_nap.Common.{
  ℕ, zero, suc, ◌+◌, ◌-◌, ◌/◌, ◌==◌, ◌<◌, ◌≤◌, ◌≡◌, ◌≢◌, refl, ◌⊎◌, inl, inr, List, [], ◌∷◌, Bytes,
  Bool, true, false, Option, none, some, length, get_or, arith, All, Bool-cases, subst, ap, ◌∙◌,
  sym, ==_refl,
}
use native.Mathlib.Decide.{dec_lt}
use mathlib.Core.Option.{none-ne-some}
use tek_nap.Common.Int.{ℤ, pos, is_zero, is_pos, is_neg, pos_not_zero, neg_not_zero, left_over}
use tek_nap.Alist.Find.{Search, fits}
use tek_nap.Alist.Result.{Run, present-Run}
use tek_nap.Alist.Fixed.{
  strncmp, entry, fixed_list, is_old, narrow, narrowed, find_fixed_array_item,
}
use tek_nap.Alist.Ordered.{
  InOrder, behind_too, before_too, ordered_at, fixed_list-Filled, item_at-fixed,
}

abbrev get_or_zero : Option ℕ → ℕ
get_or_zero none = 0
get_or_zero (some n) = n

some-injective : {m n : ℕ} → Path (Option ℕ) (some m) (some n) → m ≡ n
some-injective e = ap (λ o. get_or_zero o) e

is_old_same : (old : Option ℕ) (n : ℕ) → old ≡ some n → is_old old n ≡ true
unfolding is_old
is_old_same none n e = absurd (none-ne-some n e)
is_old_same (some m) n e = ap (λ k. k == n) (some-injective e) ∙ ==_refl n

is_old-some : (old : Option ℕ) (n : ℕ) → is_old old n ≡ true → old ≡ some n
unfolding is_old
is_old-some none n h = absurd (ground arith)
is_old-some (some m) n h = let e : m ≡ n = ground arith in ap some e

length-pos : (names : List Bytes) → names ≢ [] → 0 < length names
length-pos [] h = absurd (h refl)
length-pos (s ∷ names) h = omega arith

-- No entry of the table begins with the name.
pub record NoEntry (names : List Bytes) (name : Bytes) (s : Search) : Type 0 where
  pub no_result : s.result ≡ none
  pub no_count : s.cnt ≡ pos 0
  pub none_fits :
      (j : ℕ) → j < length names → is_zero (strncmp name (get_or names j []) (length name)) ≡ false

module _ (names : List Bytes) (name : Bytes) (o : InOrder names) (ok : All (λ c. 0 < c) name) where
  -- The comparison of the name with an entry.
  abbrev compared : ℕ → ℤ
  compared j = strncmp name (get_or names j []) (length name)

  -- What is known of the entries outside of `min` and `max`, and of the place of the last round.
  record Bracket (min max : ℕ) (old : Option ℕ) : Type 0 where
    in_range : max ≤ length names
    ascending : min ≤ max
    low : (j : ℕ) → j < min → is_pos (compared j) ≡ true
    high : (j : ℕ) → max ≤ j → j < length names → is_neg (compared j) ≡ true
    last :
        (old ≡ none × (min < max))
        ⊎ ((old ≡ some min × (is_pos (compared min) ≡ true) × (min < max))
            ⊎ (old ≡ some max × (max < length names)))

  lower :
      (i j : ℕ) → j < i → i < length names → is_pos (compared i) ≡ true → is_pos (compared j) ≡ true
  lower i j l h p =
      before_too name (get_or names j []) (get_or names i []) (length name) ok
        (ordered_at names j i o l h) p

  higher :
      (i j : ℕ) → i ≤ j → j < length names → is_neg (compared i) ≡ true → is_neg (compared j) ≡ true
  higher i j l h p = elim (dec_lt i j) [
    | yes k ↦
        behind_too name (get_or names i []) (get_or names j []) (length name)
          (ordered_at names i j o k h) p
    | no k ↦ let e : i ≡ j = omega arith in subst (λ j. is_neg (compared j) ≡ true) e p
  ]

  -- What the loop ends with.
  abbrev Ending : ℕ × Bool → Type 0
  Ending r =
      (r.0 < length names)
      × (((r.1 ≡ true) × (is_zero (compared r.0) ≡ true))
          ⊎ ((r.1 ≡ false) × ((j : ℕ) → j < length names → is_zero (compared j) ≡ false)))

  still_wide :
      (min max : ℕ) (old : Option ℕ)
      → Bracket min max old
      → is_old old ((max + min) / 2) ≡ false
      → min < max
  still_wide min max old k z = elim k.last [
    | inl (n, l) ↦ l
    | inr (inl (m, p, l)) ↦ l
    | inr (inr (m, l)) ↦ elim (dec_lt min max) [
      | yes h ↦ h
      | no h ↦
          let e : max ≡ (max + min) / 2 = (let a = k.ascending in omega arith) in
          absurd (let c = is_old_same old ((max + min) / 2) (m ∙ ap some e) in ground arith)
    ]
  ]

  -- No entry fits where the last place comes again.
  again :
      (min max : ℕ) (old : Option ℕ)
      → Bracket min max old
      → old ≡ some ((max + min) / 2)
      → Ending ((max + min) / 2, false)
  again min max old k e =
      let r = k.in_range in
      let up = k.ascending in
      elim k.last [
        | inl (n, l) ↦ absurd (none-ne-some ((max + min) / 2) (sym n ∙ e))
        | inr (inl (m, p, l)) ↦
            let q : min ≡ (max + min) / 2 = some-injective (sym m ∙ e) in
            (
              omega arith,
              inr (
                refl,
                λ j h. elim (dec_lt j min) [
                  | yes b ↦ pos_not_zero (compared j) (k.low j b)
                  | no b ↦ elim (dec_lt min j) [
                    | yes c ↦ neg_not_zero (compared j) (k.high j (omega arith) h)
                    | no c ↦
                        let e : min ≡ j = omega arith in
                        pos_not_zero (compared j) (subst (λ j. is_pos (compared j) ≡ true) e p)
                  ]
                ],
              ),
            )
        | inr (inr (m, l)) ↦
            let q : max ≡ (max + min) / 2 = some-injective (sym m ∙ e) in
            (
              omega arith,
              inr (
                refl,
                λ j h. elim (dec_lt j min) [
                  | yes b ↦ pos_not_zero (compared j) (k.low j b)
                  | no b ↦ neg_not_zero (compared j) (k.high j (omega arith) h)
                ],
              ),
            )
      ]

  narrow-Ending :
      (fuel min max : ℕ) (old : Option ℕ)
      → Bracket min max old
      → (max - min + 1 < fuel) ⊎ ((0 < fuel) × (old ≡ some ((max + min) / 2)))
      → (r : ℕ × Bool) × (narrow fuel (fixed_list names) name min max old ≡ some r) × Ending r
  unfolding narrow
  narrow-Ending zero min max old k f = elim f [
    | inl l ↦ absurd (omega arith)
    | inr (l, e) ↦ absurd (omega arith)
  ]
  narrow-Ending (suc fuel) min max old k f =
      let place : ℕ = (max + min) / 2 in
      let up = k.ascending in
      let r = k.in_range in
      elim (Bool-cases (is_old old place)) [
        | inl z ↦ ((place, false), rw z, again min max old k (is_old-some old place z))
        | inr z ↦
            let wide = still_wide min max old k z in
            let h : place < length names = omega arith in
            let got = item_at-fixed names place h in
            let left : max - min < fuel = elim f [
              | inl l ↦ omega arith
              | inr (l, e) ↦ absurd (let c = is_old_same old place e in ground arith)
            ] in
            elim (Bool-cases (is_zero (compared place))) [
              | inl y ↦ ((place, true), rw (z, got, y), (h, inl (refl, y)))
              | inr y ↦ elim (Bool-cases (is_pos (compared place))) [
                | inl x ↦
                    let (res, run, w) =
                      narrow-Ending fuel place max (some place)
                        (record {
                          in_range = r;
                          ascending = omega arith;
                          low = λ j l. lower place j l h x;
                          high = k.high;
                          last = inr (inl (refl, x, omega arith));
                        })
                        (elim (dec_lt (min + 1) max) [
                          | yes l ↦ inl (omega arith)
                          | no l ↦
                              let e : place ≡ (max + place) / 2 = omega arith in
                              inr (omega arith, ap some e)
                        ]) in
                    (res, rw (z, got, y, x, run), w)
                | inr x ↦
                    let (res, run, w) =
                      narrow-Ending fuel min place (some place)
                        (record {
                          in_range = omega arith;
                          ascending = omega arith;
                          low = k.low;
                          high = λ j l u. higher place j l u (left_over (compared place) y x);
                          last = inr (inr (refl, h));
                        })
                        (inl (omega arith)) in
                    (res, rw (z, got, y, x, run), w)
              ]
            ]
      ]

  narrowed-Found :
      (r : ℕ × Bool)
      → Ending r
      → (s : Search) × (narrowed (fixed_list names) name r ≡ some s)
        × (NoEntry names name s ⊎ Run (fixed_list names) name s)
  unfolding narrowed
  narrowed-Found (place, true) (h, w) = elim w [
    | inl (t, y) ↦
        let (s, run, g) =
          present-Run (fixed_list names) (fixed_list-Filled names) name place h
            (entry (get_or names place []), item_at-fixed names place h, unfold fits in y) in
        (s, run, inr g)
    | inr (t, no_one) ↦ absurd (ground arith)
  ]
  narrowed-Found (place, false) (h, w) = elim w [
    | inl (t, y) ↦ absurd (ground arith)
    | inr (t, no_one) ↦ (
      record { result = none; cnt = pos 0; loc = place },
      refl,
      inl (record { no_result = refl; no_count = refl; none_fits = no_one }),
    )
  ]

-- `find_fixed_array_item` on a table that is not empty and in the order of the bytes of its names, for
-- a name without a NUL, comes to an end and reads no other entry. Either no entry of the whole table
-- fits the name by strncmp, and nothing is returned, with the count 0; or it returns the first one of
-- a run of entries that fit, with neighbours that do not, and `*cnt` is their number, negative if the
-- first has the very length of the name.
pub find_fixed_array_item-Found :
    (names : List Bytes) (name : Bytes)
    → InOrder names
    → All (λ c. 0 < c) name
    → names ≢ []
    → (s : Search) × (find_fixed_array_item names name ≡ some s)
      × (NoEntry names name s ⊎ Run (fixed_list names) name s)
unfolding find_fixed_array_item
find_fixed_array_item-Found names name o ok some_names =
    let l = length-pos names some_names in
    let (r, run, w) =
      narrow-Ending names name o ok (length names + 2) 0 (length names) none
        (record {
          in_range = omega arith;
          ascending = omega arith;
          low = λ j l. absurd (omega arith);
          high = λ j l u. absurd (omega arith);
          last = inl (refl, l);
        })
        (inl (omega arith)) in
    let (s, run', g) = narrowed-Found names name o ok r w in (s, rw run run', g)
