-- ===== src/LinkedList/Sorted.antt =====
-- `add_to_list` keeps a list that is sorted by name sorted.
use tek_nap.Common.{
  ◌≡◌, ◌≢◌, Bytes, true, false, [], ◌∷◌, arith, ap, ◌∙◌, Bool-cases, inl, inr, ℕ, ◌<◌, length, some,
  IsText,
}
use tek_nap.Common.Int.{ℤ, is_pos, negate}
use tek_nap.Text.Case.{my_stricmp}
use tek_nap.Text.Case.Order.{my_stricmp_order}
use tek_nap.LinkedList.Memory.{Ptr, null, Cell, Memory}
use tek_nap.LinkedList.Chain.{Item, Items, Absent, Chain}
use tek_nap.LinkedList.Add.{insert}
use tek_nap.LinkedList.Front.{add_to_list_ext-Added}
use tek_nap.LinkedList.{Compare, add_list_stricmp, add_to_list}

-- No name compares after the one that follows it.
abbrev pub IsSorted : Items → Type 0
IsSorted [] = Unit
IsSorted (x ∷ []) = Unit
IsSorted (x ∷ y ∷ xs) = (is_pos (my_stricmp x.1 y.1) ≡ false) × IsSorted (y ∷ xs)

not_both : (z : ℤ) → is_pos z ≡ true → is_pos (negate z) ≡ false
unfolding negate
not_both z h = ground arith

not_after :
    (a y : Bytes) → IsText y → is_pos (my_stricmp y a) ≡ true → is_pos (my_stricmp a y) ≡ false
not_after a y t h = ap is_pos ((my_stricmp_order y a a t).0) ∙ not_both (my_stricmp y a) h

-- The names are strings.
abbrev pub AllText : Items → Type 0
AllText [] = Unit
AllText (x ∷ xs) = IsText x.1 × AllText xs

insert-behind :
    (a x : Item) (xs : Items)
    → AllText xs
    → is_pos (my_stricmp x.1 a.1) ≡ false
    → IsSorted (x ∷ xs)
    → IsSorted (x ∷ insert my_stricmp a xs)
unfolding insert
insert-behind a x [] t p h = (p, tt)
insert-behind a x (y ∷ ys) t p h = elim (Bool-cases (is_pos (my_stricmp y.1 a.1))) [
  | inl g ↦ rw g (p, (not_after a.1 y.1 t.0 g, h.1))
  | inr g ↦ rw g (h.0, insert-behind a y ys t.1 g h.1)
]

insert-IsSorted :
    (a : Item) (xs : Items) → AllText xs → IsSorted xs → IsSorted (insert my_stricmp a xs)
unfolding insert
insert-IsSorted a [] t h = tt
insert-IsSorted a (x ∷ xs) t h = elim (Bool-cases (is_pos (my_stricmp x.1 a.1))) [
  | inl g ↦ rw g (not_after a.1 x.1 t.0 g, h)
  | inr g ↦ rw g (insert-behind a x xs t.1 g h)
]

-- The second list is the first one with `a` at some place in it.
pub data PutIn (a : Item) : Items → Items → Type 0 where
  here : {xs : Items} → PutIn a xs (a ∷ xs)
  there : {x : Item} {xs ys : Items} → PutIn a xs ys → PutIn a (x ∷ xs) (x ∷ ys)

insert-PutIn : (cmp_func : Compare) (a : Item) (xs : Items) → PutIn a xs (insert cmp_func a xs)
unfolding insert
insert-PutIn cmp_func a [] = here
insert-PutIn cmp_func a (x ∷ xs) = elim (Bool-cases (is_pos (cmp_func x.1 a.1))) [
  | inl g ↦ rw g here
  | inr g ↦ rw g (there (insert-PutIn cmp_func a xs))
]

-- `add_to_list`, with more fuel than the list has structures, on a well-formed list whose names are
-- sorted without regard to case, leaves a well-formed list that is sorted again and that is the
-- old one with the new structure put in at some place.
pub add_to_list-IsSorted :
    (fuel : ℕ) (m : Memory) (list a : Ptr) (ac : Cell) (xs : Items)
    → length xs < fuel
    → a ≢ null
    → m a ≡ some ac
    → Absent a xs
    → Chain false m null list xs
    → AllText xs
    → IsSorted xs
    → (m' : Memory) × (list' : Ptr) × (ys : Items) × (add_to_list fuel list a m ≡ some (list', m'))
      × Chain false m' null list' ys
      × IsSorted ys
      × PutIn (a, ac.name) xs ys
unfolding add_to_list add_list_stricmp
add_to_list-IsSorted fuel m list a ac xs f n at o ch t h =
    let (m', list', run, d) =
      add_to_list_ext-Added false my_stricmp fuel m list a ac xs f n at tt o ch in
    (
      m',
      list',
      insert my_stricmp (a, ac.name) xs,
      run,
      d.chain,
      insert-IsSorted (a, ac.name) xs t h,
      insert-PutIn my_stricmp (a, ac.name) xs,
    )
