-- ===== src/ScriptArray/Store.antt =====
-- source/array.c: storing an item, in place of one or behind the last, keeps the index in order.
use tek_nap.Common.{
  ℕ, ◌<◌, List, [], Bytes, IsText, some, set, get_or, ◌==◌, ◌≡◌, ◌≢◌, refl, sym, ap, ◌∙◌, subst,
  subst₂, inl, inr, Bool-cases, arith, length-set, ==_iff,
}
use tek_nap.Common.Int.{ℤ}
use tek_nap.ScriptArray.Index.{AnArray, find_item, place_of}
use tek_nap.ScriptArray.Changes.{replace_item}
use tek_nap.ScriptArray.Valid.{
  idx, word, NotAfter, Ordered, Valid, get_or-set_self, get_or-set_ne, put-some,
}
use tek_nap.ScriptArray.Search.{Placed, find_item-Answer, Answer-Placed}
use tek_nap.ScriptArray.Locate.{find_index-some}
use tek_nap.ScriptArray.Moved.{move_index-Moved}
use tek_nap.ScriptArray.Reorder.{AllBut, AllBut-Valid}

-- `find_item` finds a place for every string.
pub find_item-Placed :
    (a : AnArray) (find : Bytes)
    → Ordered a
    → IsText find
    → (r : ℤ) × (find_item a find ≡ some r) × Placed a find (place_of r)
find_item-Placed a find v text =
    let (r, found, answer) = find_item-Answer a find v text in
    (r, found, Answer-Placed a find r v answer)

module _ (a : AnArray) (v : Ordered a) (item : ℕ) (h : item < a.size) (input : Bytes) where
  new_word : ℕ → Bytes
  new_word i = get_or (set a.item item input) (idx a i) []

  new_word-new : (i : ℕ) → idx a i ≡ item → new_word i ≡ input
  unfolding new_word
  new_word-new i e =
      let r = v.room in
      ap (λ n. get_or (set a.item item input) n []) e
      ∙ get_or-set_self [] a.item item input (omega arith)

  new_word-old : (i : ℕ) → item ≢ idx a i → new_word i ≡ word a i
  unfolding new_word
  new_word-old i ne = get_or-set_ne [] a.item item (idx a i) input ne

  replaced-AllBut :
      (old p : ℕ)
      → old < a.size
      → idx a old ≡ item
      → Placed a input p
      → AllBut new_word a.size old p
  replaced-AllBut old p l e w =
      let other : (i : ℕ) → i < a.size → i ≢ old → new_word i ≡ word a i =
        λ i b ne. new_word-old i (λ d. ne (v.permutes.once i old b l (sym d ∙ sym e))) in
      record {
        sorted = λ i j le b ne ne'.
            subst₂ NotAfter (sym (other i (omega arith) ne)) (sym (other j b ne'))
              (v.sorted i j le b);
        below = λ i q b ne.
            subst₂ NotAfter (sym (other i b ne)) (sym (new_word-new old e)) (w.below i q b);
        above = λ i q b ne.
            subst₂ NotAfter (sym (new_word-new old e)) (sym (other i b ne)) (w.above i q b);
      }

  replaced-IsText :
      IsText input → (n : ℕ) → n < a.size → IsText (get_or (set a.item item input) n [])
  replaced-IsText text n b = elim (Bool-cases (item == n)) [
    | inl t ↦
        let e : item ≡ n = (==_iff item n).0 t in
        let r = v.room in
        subst IsText
          (sym (
            ap (λ n. get_or (set a.item item input) n []) (sym e)
            ∙ get_or-set_self [] a.item item input (omega arith)))
          text
    | inr t ↦
        subst IsText (sym (get_or-set_ne [] a.item item n input (λ e. ground arith))) (v.text n b)
  ]

-- Replacing an item of a valid array.
pub replace_item-Valid :
    (a : AnArray) (item : ℕ) (input : Bytes)
    → Valid a
    → item < a.size
    → IsText input
    → (ys : List ℕ) × (replace_item a item input
        ≡ some (record { item = set a.item item input; index = ys; size = a.size }))
      × Valid (record { item = set a.item item input; index = ys; size = a.size })
unfolding replace_item new_word
replace_item-Valid a item input v h text =
    let o = v.ordered in
    let (old, at, l, e) = find_index-some a item o h in
    let (r, found, w) = find_item-Placed a input o text in
    let m = o.permutes.measure in
    let b = w.in_range in
    let (ys, run, s) = move_index-Moved a old (place_of r) (omega arith) (omega arith) in
    (
      ys,
      rw (at, found, run) (rw (put-some a.item item input (let x = v.exact in omega arith)) refl),
      AllBut-Valid (set a.item item input) a.index ys a.size old (place_of r)
          (length-set a.item item input ∙ v.exact) (replaced-IsText a o item h input text)
          o.permutes l b (replaced-AllBut a o item h input old (place_of r) l e w) s,
    )
