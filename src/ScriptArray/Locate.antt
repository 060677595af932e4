-- ===== src/ScriptArray/Locate.antt =====
-- `find_index` of source/array.c finds the place of an item's number in the index.
use tek_nap.Common.{
  ◌>>=◌, ℕ, zero, suc, ◌+◌, ◌<◌, ◌≤◌, [], Bytes, IsText, some, length, get_elem?, leb, ◌==◌, ◌≡◌,
  ◌≢◌, refl, sym, ap, ◌∙◌, subst, inl, inr, Bool-cases, true, false, arith, ==_iff, ==_refl, lt→ltb,
}
use native.Mathlib.Decide.{dec_lt}
use tek_nap.Common.Int.{ℤ, pos, negsuc, is_zero, is_pos, is_neg, negate}
use tek_nap.Text.Case.{strcmp}
use tek_nap.Text.Case.Order.{strcmp-negate, strcmp_self, strcmp-zero-only}
use tek_nap.ScriptArray.Index.{
  AnArray, find_item, run_start, first_equal, scan, find_index, array_threshold,
}
use tek_nap.ScriptArray.Valid.{
  idx, itm, word, NotAfter, Before, Ordered, get_elem?-get_or, word_at-word,
}
use tek_nap.ScriptArray.Search.{Answer, find_item-Answer}

-- From a place that is not behind the item's, the last loop comes to it.
scan-some :
    (fuel : ℕ) (a : AnArray) (item search place : ℕ)
    → Ordered a
    → place < a.size
    → idx a place ≡ item
    → search ≤ place
    → place < search + fuel
    → scan fuel a item search ≡ some place
unfolding scan
scan-some zero a item search place v h e le f = absurd (omega arith)
scan-some (suc fuel) a item search place v h e le f =
    let m = v.permutes.measure in
    let got = get_elem?-get_or 0 a.index search (omega arith) in
    elim (dec_lt search place) [
      | yes p ↦
          let ne : idx a search ≢ item = λ d.
            let same = v.permutes.once search place (omega arith) h (d ∙ sym e) in omega arith in
          elim (Bool-cases (idx a search == item)) [
            | inl t ↦ absurd (ne ((==_iff _ _).0 t))
            | inr t ↦
                rw (got, t, lt→ltb search a.size (omega arith))
                  (scan-some fuel a item (search + 1) place v h e (omega arith) (omega arith))
          ]
      | no p ↦
          let same : search ≡ place = omega arith in
          rw (got, ap (idx a) same ∙ e, ==_refl item, same)
    ]

-- The walk back stops at the first of the items that are equal to `s`.
pub record FirstEqual (a : AnArray) (s : Bytes) (first : ℕ) : Type 0 where
  pub in_range : first < a.size
  pub equal : word a first ≡ s
  pub earlier : (i : ℕ) → i < first → word a i ≢ s

both_ways : (z : ℤ) → is_pos z ≡ false → is_pos (negate z) ≡ false → is_zero z ≡ true
unfolding negate
both_ways (pos zero) h k = refl
both_ways (pos (suc n)) h k = absurd (ground arith)
both_ways (negsuc n) h k = absurd (ground arith)

NotAfter-antisym : (s t : Bytes) → NotAfter s t → NotAfter t s → is_zero (strcmp s t) ≡ true
NotAfter-antisym s t h k = both_ways (strcmp s t) h (ap is_pos (sym (strcmp-negate s t)) ∙ k)

run_back :
    (a : AnArray) (s : Bytes) (k : ℕ)
    → Ordered a
    → IsText s
    → k < a.size
    → word a k ≡ s
    → (first : ℕ) × (run_start a s k ≡ some first) × FirstEqual a s first
unfolding run_start
run_back a s zero v text h e =
    (0, refl, record { in_range = h; equal = e; earlier = λ i l. absurd (omega arith) })
run_back a s (suc k) v text h e =
    let got = word_at-word a v k (omega arith) in
    elim (Bool-cases (is_zero (strcmp (word a k) s))) [
      | inl z ↦
          let same =
            strcmp-zero-only (word a k) s (v.text _ (v.permutes.refers k (omega arith))) text z in
          let (first, run, ok) = run_back a s k v text (omega arith) same in
          (first, rw (got, z, run), ok)
      | inr z ↦ (
        suc k,
        rw (got, z),
        record {
          in_range = h;
          equal = e;
          earlier = λ i l d.
              let low : NotAfter s (word a k) =
                subst (λ x. NotAfter x (word a k)) d (v.sorted i k (omega arith) (omega arith)) in
              let high : NotAfter (word a k) s =
                subst (NotAfter (word a k)) e (v.sorted k (suc k) (omega arith) h) in
              let z' = NotAfter-antisym (word a k) s high low in absurd (ground arith);
        },
      )
    ]

pub run_start-FirstEqual :
    (a : AnArray) (s : Bytes) (k : ℕ)
    → Ordered a
    → IsText s
    → k < a.size
    → word a k ≡ s
    → (first : ℕ) × (run_start a s (k + 1) ≡ some first) × FirstEqual a s first
unfolding run_start
run_start-FirstEqual a s k v text h e =
    let (first, run, ok) = run_back a s k v text h e in
    (
      first,
      subst (λ n. run_start a s n ≡ some first) (let e' : suc k ≡ k + 1 = omega arith in e')
          (rw (word_at-word a v k h, e, strcmp_self s, run)),
      ok,
    )

pub not-Before_self : (s : Bytes) → ¬ Before s s
not-Before_self s h =
    let e : is_neg (strcmp s s) ≡ false = ap is_neg (strcmp_self s) in absurd (ground arith)

-- A string that stands in the index is found.
Answer-present :
    (a : AnArray) (place : ℕ) (r : ℤ)
    → place < a.size
    → Answer a (word a place) r
    → (k : ℕ) × (r ≡ pos k) × (k < a.size) × (word a k ≡ word a place)
unfolding Answer
Answer-present a place (pos k) h (l, e) = (k, refl, l, e)
Answer-present a place (negsuc b) h g = absurd (elim (dec_lt place b) [
  | yes p ↦ not-Before_self _ (g.below place p)
  | no p ↦ not-Before_self _ (g.above place (omega arith) h)
])

find_large :
    (a : AnArray) (item place : ℕ)
    → Ordered a
    → place < a.size
    → idx a place ≡ item
    → (do
      s ← get_elem? a.item item
      found ← find_item a s
      search ← first_equal a s found
      scan (a.size + 1) a item search)
      ≡ some place
unfolding first_equal
find_large a item place v h e =
    let there : word a place ≡ itm a item = ap (itm a) e in
    let range : idx a place < a.size = v.permutes.refers place h in
    let room = v.room in
    let text = v.text _ range in
    let (r, found, answer) = find_item-Answer a (word a place) v text in
    let (k, is_k, l, same) = Answer-present a place r h answer in
    let (first, run, ok) = run_start-FirstEqual a (word a place) k v text l same in
    let le : first ≤ place = elim (dec_lt place first) [
      | yes p ↦ absurd (ok.earlier place p refl)
      | no p ↦ omega arith
    ] in
    rw
      (
        get_elem?-get_or [] a.item item (subst (λ n. n < length a.item) e (omega arith)),
        sym there,
        found,
        is_k,
        run,
      )
      (scan-some (a.size + 1) a item first place v h e le (omega arith))

-- `find_index`, on an ordered array and for the number of an item, comes to an end inside of the
-- index, in small arrays and, by `find_item`, in large ones, and returns the one place of the index
-- that has the number.
pub find_index-some :
    (a : AnArray) (item : ℕ)
    → Ordered a
    → item < a.size
    → (place : ℕ) × (find_index a item ≡ some place) × (place < a.size) × (idx a place ≡ item)
unfolding find_index
find_index-some a item v h =
    let (place, l, e) = v.permutes.covers item h in
    (
      place,
      elim (Bool-cases (leb array_threshold a.size)) [
        | inl t ↦ rw t (find_large a item place v l e)
        | inr t ↦ rw t (scan-some (a.size + 1) a item 0 place v l e (omega arith) (omega arith))
      ],
      l,
      e,
    )
