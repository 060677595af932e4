-- ===== src/ScriptArray/TakeOut.antt =====
-- source/array.c: taking an item out of an array of more than one, which `function_delitem` does to
-- the items and `delete_array` to the names.
use tek_nap.Common.{
  ℕ, ◌-◌, ◌<◌, ◌≤◌, List, [], Bytes, IsText, some, length, get_or, map, take, ◌≡◌, ◌≢◌, refl, sym,
  ap, ◌∙◌, subst, subst₂, arith, length-map, length-take,
}
use tek_nap.ScriptArray.Index.{AnArray, shift_left}
use tek_nap.ScriptArray.Table.{take_out}
use tek_nap.ScriptArray.Valid.{idx, itm, word, NotAfter, Permutes, Valid}
use tek_nap.ScriptArray.Moved.{moved_from, target, move_index-Moved}
use tek_nap.ScriptArray.Remove.{
  remove_at, skip, low, length-remove_at, get_or-remove_at, get_or-take, shift_left-remove_at,
  lower_above-map, get_or-low,
}

-- The place `size` is behind all: what goes there goes to the last place.
target_last : (old m : ℕ) → old < m → target old m ≡ m - 1
unfolding target
target_last old m h = ground arith

skipped : (old m j : ℕ) → old < m → j < m - 1 → moved_from old (m - 1) j ≡ skip old j
unfolding moved_from
skipped old m j h k = ground arith

shrinks : (m item n : ℕ) → n < m → item < m → n ≢ item → low item n < m - 1
shrinks m item n h k ne = ground arith

lost : (n item : ℕ) → item ≢ skip item n
lost n item e = ground arith

skip_low : (i n : ℕ) → n ≢ i → skip i (low i n) ≡ n
skip_low i n ne = ground arith

low_skip : (i n : ℕ) → low i (skip i n) ≡ n
low_skip i n = ground arith

low_injective : (i a b : ℕ) → a ≢ i → b ≢ i → low i a ≡ low i b → a ≡ b
low_injective i a b h k e = ground arith

pub skip_injective : (i a b : ℕ) → skip i a ≡ skip i b → a ≡ b
skip_injective i a b e = ground arith

-- The index where `zs` lost the cell `old`, which referred to `item`.
pub record Left (xs ys : List ℕ) (m old item : ℕ) : Type 0 where
  pub measure : length ys ≡ m - 1
  pub at : (j : ℕ) → j < m - 1 → get_or ys j 0 ≡ low item (get_or xs (skip old j) 0)

module _ (xs ys : List ℕ) (m old item : ℕ) (v : Permutes xs m) (h : old < m)
    (e : get_or xs old 0 ≡ item) (s : Left xs ys m old item) where
  other-ne : (i : ℕ) → i < m → i ≢ old → get_or xs i 0 ≢ item
  other-ne i b ne d = ne (v.once i old b h (d ∙ sym e))

  pub kept-ne : (j : ℕ) → j < m - 1 → get_or xs (skip old j) 0 ≢ item
  kept-ne j b = other-ne (skip old j) (ground arith) (λ d. ground arith)

  pub Left-Permutes : Permutes ys (m - 1)
  Left-Permutes = record {
    measure = s.measure;
    refers = λ j b.
        let r = v.refers (skip old j) (ground arith) in
        let r' = v.refers old h in
        let ne = kept-ne j b in
        subst (λ x. x < m - 1) (sym (s.at j b))
          (shrinks m item (get_or xs (skip old j) 0) r (subst (λ x. x < m) e r') ne);
    covers = λ n b.
        let (i, c, d) = v.covers (skip item n) (ground arith) in
        let ne : i ≢ old = λ f. lost n item (sym (ap (λ k. get_or xs k 0) f ∙ e) ∙ d) in
        (
          low old i,
          shrinks m old i c h ne,
          s.at (low old i) (shrinks m old i c h ne)
              ∙ ap (λ k. low item (get_or xs k 0)) (skip_low old i ne)
              ∙ ap (low item) d
              ∙ low_skip item n,
        );
    once = λ i j b c d. skip_injective old i j (
        v.once _ _ (ground arith) (ground arith)
          (low_injective item _ _ (kept-ne i b) (kept-ne j c) (sym (s.at i b) ∙ d ∙ s.at j c)));
  }

skip_rises : (old i j : ℕ) → i ≤ j → skip old i ≤ skip old j
skip_rises old i j h = ground arith

module _ (a : AnArray) (v : Valid a) (old item : ℕ) (h : old < a.size) (e : idx a old ≡ item) where
  abbrev rest : List Bytes
  rest = remove_at a.item item

  item-lt : item < a.size
  item-lt = subst (λ x. x < a.size) e (v.ordered.permutes.refers old h)

  module _ (ys : List ℕ) (s : Left a.index ys a.size old item) where
    kept-word : (j : ℕ) → j < a.size - 1 → get_or rest (get_or ys j 0) [] ≡ word a (skip old j)
    kept-word j b =
        ap (λ n. get_or rest n []) (s.at j b)
        ∙ get_or-remove_at [] a.item item (low item (idx a (skip old j)))
        ∙ ap (itm a)
            (skip_low item _ (kept-ne a.index ys a.size old item v.ordered.permutes h e s j b))

    Left-Valid : Valid (record { item = rest; index = ys; size = a.size - 1 })
    Left-Valid =
        let o = v.ordered in
        let i = item-lt in
        let x = v.exact in
        let l = length-remove_at [] a.item item (omega arith) in
        record {
          ordered = record {
            room = omega arith;
            permutes = Left-Permutes a.index ys a.size old item o.permutes h e s;
            sorted = λ i j le b.
                subst₂ NotAfter (sym (kept-word i (omega arith))) (sym (kept-word j b))
                  (o.sorted (skip old i) (skip old j) (skip_rises old i j le) (ground arith));
            text = λ n b.
                subst IsText (sym (get_or-remove_at [] a.item item n))
                  (o.text (skip item n) (ground arith));
          };
          exact = l ∙ ap (λ n. n - 1) x;
        }

  -- `take_out` removes the item from the block, and its number from the index.
  pub take_out-Valid :
      (ys : List ℕ) × (take_out a old item
        ≡ some (record { item = remove_at a.item item; index = ys; size = a.size - 1 }))
      × Valid (record { item = remove_at a.item item; index = ys; size = a.size - 1 })
  unfolding take_out
  take_out-Valid =
      let lowered = map (low item) a.index in
      let m = v.ordered.permutes.measure in
      let l : length lowered ≡ length a.index = length-map a.index (low item) in
      let (ys, run, s) =
        move_index-Moved (record a { index = lowered }) old a.size (omega arith) (omega arith) in
      let x = v.exact in
      let i = item-lt in
      let (zs, run', same) = shift_left-remove_at [] a.item item (omega arith) in
      let run2 = subst (λ n. shift_left (n - 1 - item) a.item item ≡ some zs) x run' in
      let same2 = subst (λ n. take (n - 1) zs ≡ rest) x same in
      let lt = length-take (a.size - 1) ys in
      let ms = s.measure in
      (
        take (a.size - 1) ys,
        rw (lower_above-map a.size item a.index m, run, run2, same2) refl,
        Left-Valid (take (a.size - 1) ys) (record {
          measure = omega arith;
          at = λ j b.
              get_or-take 0 (a.size - 1) ys j b
              ∙ s.at j (omega arith)
              ∙ ap (λ k. get_or lowered k 0)
                  (ap (λ q. moved_from old q j) (target_last old a.size h)
                    ∙ skipped old a.size j h b)
              ∙ get_or-low item a.index (skip old j);
        }),
      )
