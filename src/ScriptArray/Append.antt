-- ===== src/ScriptArray/Append.antt =====
-- source/array.c: storing behind the last item keeps the index in order.
use tek_nap.Common.{
  ℕ, ◌+◌, ◌<◌, ◌≤◌, List, [], ◌∷◌, ◌++◌, Bytes, IsText, some, get_or, ◌≡◌, ◌≢◌, refl, sym, ap, ◌∙◌,
  subst, subst₂, arith, length-append,
}
use native.Mathlib.Decide.{dec_lt}
use tek_nap.Common.Int.{ℤ, pos}
use tek_nap.ScriptArray.Index.{AnArray, insert_index, place_of}
use tek_nap.ScriptArray.Changes.{append_item}
use tek_nap.ScriptArray.Valid.{idx, itm, word, NotAfter, Permutes, Ordered, Valid}
use tek_nap.ScriptArray.Search.{Placed}
use tek_nap.ScriptArray.Moved.{target, Moved}
use tek_nap.ScriptArray.Inserted.{
  insert_index-Moved, get_or-append_lt, get_or-append_self, put-reallocate,
}
use tek_nap.ScriptArray.Reorder.{AllBut, AllBut-Valid}
use tek_nap.ScriptArray.Store.{find_item-Placed}

-- The number of the new item, behind the others in the index.
pub append-Permutes : (xs : List ℕ) (n : ℕ) → Permutes xs n → Permutes (xs ++ (n ∷ [])) (n + 1)
append-Permutes xs n v =
    let l = v.measure in
    let old : (i : ℕ) → i < n → get_or (xs ++ (n ∷ [])) i 0 ≡ get_or xs i 0 =
      λ i h. get_or-append_lt 0 xs n i (omega arith) in
    let new : (i : ℕ) → i ≡ n → get_or (xs ++ (n ∷ [])) i 0 ≡ n =
      λ i e. ap (λ i. get_or (xs ++ (n ∷ [])) i 0) (e ∙ sym l) ∙ get_or-append_self 0 xs n in
    record {
      measure = length-append xs (n ∷ []) ∙ ap (λ k. k + 1) l;
      refers = λ i h. elim (dec_lt i n) [
        | yes p ↦ let r = v.refers i p in let e = old i p in omega arith
        | no p ↦ let e = new i (omega arith) in omega arith
      ];
      covers = λ k h. elim (dec_lt k n) [
        | yes p ↦ let (i, b, e) = v.covers k p in (i, omega arith, old i b ∙ e)
        | no p ↦ (n, omega arith, new n refl ∙ (let e : n ≡ k = omega arith in e))
      ];
      once = λ i j h k e. elim (dec_lt i n) [
        | yes p ↦ elim (dec_lt j n) [
          | yes q ↦ v.once i j p q (sym (old i p) ∙ e ∙ old j q)
          | no q ↦
              let r = v.refers i p in
              let a = old i p in let b = new j (omega arith) in absurd (omega arith)
        ]
        | no p ↦ elim (dec_lt j n) [
          | yes q ↦
              let r = v.refers j q in
              let a = old j q in let b = new i (omega arith) in absurd (omega arith)
          | no q ↦ omega arith
        ]
      ];
    }

target-ge : (old p : ℕ) → p ≤ old → p ≡ target old p
unfolding target
target-ge old p h = ground arith

module _ (a : AnArray) (v : Valid a) (input : Bytes) (text : IsText input) where
  abbrev appended : List Bytes
  appended = a.item ++ (input ∷ [])

  pub appended-old : (n : ℕ) → n < a.size → get_or appended n [] ≡ itm a n
  appended-old n h = get_or-append_lt [] a.item input n (let l = v.exact in omega arith)

  pub appended-new : (n : ℕ) → n ≡ a.size → get_or appended n [] ≡ input
  appended-new n e =
      ap (λ n. get_or appended n []) (e ∙ sym v.exact) ∙ get_or-append_self [] a.item input

  appended-IsText : (n : ℕ) → n < a.size + 1 → IsText (get_or appended n [])
  appended-IsText n h = elim (dec_lt n a.size) [
    | yes p ↦ subst IsText (sym (appended-old n p)) (v.ordered.text n p)
    | no p ↦ subst IsText (sym (appended-new n (omega arith))) text
  ]

  longer-Ordered : Ordered (record a { item = appended })
  longer-Ordered =
      let o = v.ordered in
      let l = length-append a.item (input ∷ []) in
      let same : (i : ℕ) → i < a.size → get_or appended (idx a i) [] ≡ word a i =
        λ i b. appended-old _ (o.permutes.refers i b) in
      record {
        room = let e = v.exact in omega arith;
        permutes = o.permutes;
        sorted = λ i j le b.
            subst₂ NotAfter (sym (same i (omega arith))) (sym (same j b)) (o.sorted i j le b);
        text = λ n h. appended-IsText n (omega arith);
      }

  appended-AllBut :
      (p : ℕ)
      → Placed (record a { item = appended }) input p
      → AllBut
          (λ i. get_or appended (get_or (a.index ++ (a.size ∷ [])) i 0) [])
          (a.size + 1)
          a.size
          p
  appended-AllBut p w =
      let o = longer-Ordered in
      let m = o.permutes.measure in
      let at = λ (i : ℕ). get_or (a.index ++ (a.size ∷ [])) i 0 in
      let other : (i : ℕ)
          → i < a.size + 1
          → i ≢ a.size
          → get_or appended (at i) [] ≡ get_or appended (idx a i) [] =
        λ i b ne.
          ap (λ n. get_or appended n []) (get_or-append_lt 0 a.index a.size i (omega arith)) in
      let last : get_or appended (at a.size) [] ≡ input =
        appended-new _ (ap at (sym m) ∙ get_or-append_self 0 a.index a.size) in
      record {
        sorted = λ i j le b ne ne'.
            subst₂ NotAfter (sym (other i (omega arith) ne)) (sym (other j b ne'))
              (o.sorted i j le (omega arith));
        below =
            λ i q b ne. subst₂ NotAfter (sym (other i b ne)) (sym last) (w.below i q (omega arith));
        above =
            λ i q b ne. subst₂ NotAfter (sym last) (sym (other i b ne)) (w.above i q (omega arith));
      }

  pub appended-Placed :
      (find : Bytes) (p : ℕ) → Placed a find p → Placed (record a { item = appended }) find p
  appended-Placed find p w =
      let same : (i : ℕ) → i < a.size → get_or appended (idx a i) [] ≡ word a i =
        λ i b. appended-old _ (v.ordered.permutes.refers i b) in
      record {
        in_range = w.in_range;
        below = λ i q b. subst (λ s. NotAfter s find) (sym (same i b)) (w.below i q b);
        above = λ i q b. subst (NotAfter find) (sym (same i b)) (w.above i q b);
      }

  -- The index with the number of the new item at the place `p`.
  pub inserted-Valid :
      (new : ℤ) (p : ℕ)
      → Placed (record a { item = appended }) input p
      → (a.size ≢ 0 → new ≡ pos p)
      → (ys : List ℕ) × (insert_index (record a { item = appended }) new
          ≡ some (record { item = appended; index = ys; size = a.size + 1 }))
        × Valid (record { item = appended; index = ys; size = a.size + 1 })
  inserted-Valid new p w at =
      let m = v.ordered.permutes.measure in
      let (ys, run, s) = insert_index-Moved (record a { item = appended }) new p m w.in_range at in
      (
        ys,
        run,
        AllBut-Valid appended (a.index ++ (a.size ∷ [])) ys (a.size + 1) a.size p
            (length-append a.item (input ∷ []) ∙ ap (λ n. n + 1) v.exact) appended-IsText
            (append-Permutes a.index a.size v.ordered.permutes) (omega arith)
            (let b = w.in_range in omega arith) (appended-AllBut p w)
            (subst (λ q. Moved (a.index ++ (a.size ∷ [])) ys a.size q)
              (let b = w.in_range in let e : p ≡ target a.size p = target-ge a.size p b in e) s),
      )

  -- Storing behind the last item of a valid array.
  pub append_item-Valid :
      (ys : List ℕ) × (append_item a a.size input
        ≡ some (record { item = a.item ++ (input ∷ []); index = ys; size = a.size + 1 }))
      × Valid (record { item = a.item ++ (input ∷ []); index = ys; size = a.size + 1 })
  unfolding append_item
  append_item-Valid =
      let (r, found, w) =
        find_item-Placed (record a { item = appended }) input longer-Ordered text in
      let (ys, run, ok) = inserted-Valid (pos (place_of r)) (place_of r) w (λ e. refl) in
      (ys, rw (put-reallocate [] a.item input a.size v.exact, found, run), ok)
