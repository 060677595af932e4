-- ===== src/Tests/Arrays.antt =====
-- source/alist.c: an array of two items with six slots.
use tek_nap.Common.{
  ℕ, zero, suc, true, false, subst, sym, ap, ◌∙◌, ◌≢◌, ◌≤◌, ◌<◌, ◌≡◌, ◌⊎◌, inl, inr, ◌↔◌, refl,
  List, Bytes, codes, arith, ◌∷◌, [], Option, some, none,
}
use tek_nap.Common.Int.{ℤ, is_pos, is_neg, is_zero, pos, negsuc}
use tek_nap.Text.Case.{my_strnicmp}
use tek_nap.Alist.Hash.{HashType, alist_hash}
use tek_nap.Alist.Slots.{Item, Array}
use tek_nap.Alist.Find.{Search, item_at, find_array_item}
use tek_nap.Alist.Found.{Filled}
use tek_nap.Alist.Result.{Run}
use tek_nap.Alist.Splits.{hash_sign, name_sign, Falls, InOrderFor}
use tek_nap.Alist.Whole.{Absent, Whole, find_array_item-Found}
use tek_nap.Alist.Fixed.{entry, fixed_list, find_fixed_array_item}
use tek_nap.Alist.Ordered.{Before, InOrder}
use tek_nap.Alist.Narrow.{NoEntry, find_fixed_array_item-Found}
use tek_nap.Alist.Valid.{Valid}
use tek_nap.Alist.Bounds.{Cramped, check_array_size_room}
use tek_nap.Alist.Update.{Added, add_to_array-Added}
use tek_nap.Alist.Drop.{Removal, remove_from_array-Removal, TakenOut, array_pop-TakenOut}
use tek_nap.Alist.{check_array_size, add_to_array, remove_from_array, array_pop}

abbrev named : Bytes → Item
named s = record { name = s; hash = (alist_hash HashType.insensitive s).value }

abbrev two_items : Array
two_items = record {
  slots =
      some (named (codes "alpha")) ∷ some (named (codes "beta")) ∷ none ∷ none ∷ none ∷ none ∷ [];
  max = 2;
  total_max = 6;
  func = my_strnicmp;
  hash = HashType.insensitive;
}

filled : Filled two_items
filled zero h = (named (codes "alpha"), refl)
filled (suc zero) h = (named (codes "beta"), refl)
filled (suc (suc i)) h = absurd (omega arith)

two_items-Valid : Valid two_items
two_items-Valid = record { sized = refl; room = inl (omega arith); filled = filled }

not-Cramped : ¬ Cramped 2 6
not-Cramped (inl h) = omega (arith, h.0)
not-Cramped (inr (inl h)) = omega (arith, h.0)
not-Cramped (inr (inr h)) = omega (arith, h.1)

check_array_size_room_example : (4 ≤ (check_array_size two_items).total_max) ↔ ¬ Cramped 2 6
check_array_size_room_example = check_array_size_room two_items (inl (omega arith))

abbrev item_of : Option Item → Item
item_of none = named []
item_of (some x) = x

-- What stands at the two places.
is_alpha : (x : Item) → item_at two_items 0 ≡ some x → named (codes "alpha") ≡ x
unfolding item_at tek_nap.Alist.Slots.read
is_alpha x at = ap item_of at

is_beta : (x : Item) → item_at two_items 1 ≡ some x → named (codes "beta") ≡ x
unfolding item_at tek_nap.Alist.Slots.read
is_beta x at = ap item_of at

differ : true ≢ false
differ e = cc e

alpha_first :
    (cmp : Item → ℤ)
    → is_pos (cmp (named (codes "alpha"))) ≡ true
    → is_neg (cmp (named (codes "alpha"))) ≡ false
    → Falls two_items cmp
alpha_first cmp p n i zero x y l h at at' = absurd (omega arith)
alpha_first cmp p n zero (suc zero) x y l h at at' =
    let e = is_alpha x at in
    (
      λ k. subst (λ x. is_pos (cmp x) ≡ true) e p,
      λ k. absurd (differ (sym k ∙ subst (λ x. is_neg (cmp x) ≡ false) e n)),
    )
alpha_first cmp p n (suc i) (suc zero) x y l h at at' = absurd (omega arith)
alpha_first cmp p n i (suc (suc j)) x y l h at at' = absurd (omega arith)

abbrev be_hash : Item → ℤ
be_hash = hash_sign two_items (codes "be")

abbrev be_name : Item → ℤ
be_name = name_sign two_items (codes "be")

signs :
    ((is_pos (be_hash (named (codes "alpha"))) ≡ true)
      × (is_neg (be_hash (named (codes "alpha"))) ≡ false))
    × ((is_pos (be_name (named (codes "alpha"))) ≡ true)
        × (is_neg (be_name (named (codes "alpha"))) ≡ false))
    × ((is_pos (be_hash (named (codes "beta"))) ≡ false)
        × (is_neg (be_hash (named (codes "beta"))) ≡ false))
unfolding tek_nap.Alist.Hash.hash_diff alist_hash tek_nap.Alist.Hash.ci_alist_hash
    tek_nap.Text.Case.fold my_strnicmp
signs = ((refl, refl), (refl, refl), (refl, refl))

for_be-pos :
    (i : ℕ) (x : Item)
    → i < 2
    → item_at two_items i ≡ some x
    → is_pos (be_hash x) ≡ true
    → is_pos (be_name x) ≡ true
for_be-pos zero x h at p = subst (λ x. is_pos (be_name x) ≡ true) (is_alpha x at) signs.1.0
for_be-pos (suc zero) x h at p =
    absurd (differ (sym p ∙ subst (λ x. is_pos (be_hash x) ≡ false) (is_beta x at) signs.2.0))
for_be-pos (suc (suc i)) x h at p = absurd (omega arith)

for_be-neg :
    (i : ℕ) (x : Item)
    → i < 2
    → item_at two_items i ≡ some x
    → is_neg (be_hash x) ≡ true
    → is_neg (be_name x) ≡ true
for_be-neg zero x h at p =
    absurd (differ (sym p ∙ subst (λ x. is_neg (be_hash x) ≡ false) (is_alpha x at) signs.0.1))
for_be-neg (suc zero) x h at p =
    absurd (differ (sym p ∙ subst (λ x. is_neg (be_hash x) ≡ false) (is_beta x at) signs.2.1))
for_be-neg (suc (suc i)) x h at p = absurd (omega arith)

for_be : InOrderFor two_items (codes "be")
for_be = record {
  hashes = alpha_first be_hash signs.0.0 signs.0.1;
  names = alpha_first be_name signs.1.0 signs.1.1;
  agree_pos = for_be-pos;
  agree_neg = for_be-neg;
}

find_array_item-Found_example :
    (s : Search) × (find_array_item two_items (codes "be") ≡ some s)
    × (Absent two_items (codes "be") s ⊎ Whole two_items (codes "be") s)
find_array_item-Found_example = find_array_item-Found two_items (codes "be") filled for_be (λ e. cc)

add_to_array-Added_example :
    (a' : Array) × (ret : Option Item) × (add_to_array two_items (named (codes "b"))
      ≡ some (a', ret))
    × Added two_items a' (named (codes "b")) ret
add_to_array-Added_example =
    add_to_array-Added two_items (named (codes "b")) two_items-Valid not-Cramped (λ e. cc)

array_pop-TakenOut_example :
    (0 < 2
      → (a' : Array) × (ret : Option Item) × (array_pop two_items (pos 0) ≡ some (a', ret))
        × TakenOut two_items a' 0 ret)
    × (2 ≤ 0 → array_pop two_items (pos 0) ≡ some (two_items, none))
    × ((n : ℕ) → array_pop two_items (negsuc n) ≡ some (two_items, none))
array_pop-TakenOut_example = array_pop-TakenOut two_items 0 two_items-Valid

remove_from_array-Removal_example :
    (a' : Array) × (ret : Option Item) × (remove_from_array two_items (codes "beta")
      ≡ some (a', ret))
    × Removal two_items (codes "beta") a' ret
remove_from_array-Removal_example =
    remove_from_array-Removal two_items (codes "beta") two_items-Valid (λ e. cc)

-- The names of some commands.
abbrev table : List Bytes
table = codes "bye" ∷ codes "join" ∷ codes "joinall" ∷ []

table-InOrder : InOrder table
unfolding InOrder Before
table-InOrder = (
  (inl (omega arith), (inl (omega arith), tt)),
  ((inr (refl, inr (refl, inr (refl, inr (refl, tt)))), tt), (tt, tt)),
)

-- Two commands begin with join, and the first is the very name.
joins_found :
    find_fixed_array_item table (codes "join")
    ≡ some (record { result = some (entry (codes "join")); cnt = negsuc 1; loc = 1 })
unfolding find_fixed_array_item tek_nap.Alist.Fixed.narrow tek_nap.Alist.Fixed.is_old
    tek_nap.Alist.Fixed.strncmp tek_nap.Alist.Fixed.narrowed tek_nap.Alist.Find.item_at
    tek_nap.Alist.Find.present tek_nap.Alist.Find.run_down tek_nap.Alist.Find.fits
    tek_nap.Alist.Find.run_up tek_nap.Alist.Slots.read tek_nap.Common.Int.negate
joins_found = refl

find_fixed_array_item-Found_example :
    (s : Search) × (find_fixed_array_item table (codes "join") ≡ some s)
    × (NoEntry table (codes "join") s ⊎ Run (fixed_list table) (codes "join") s)
find_fixed_array_item-Found_example =
    find_fixed_array_item-Found table (codes "join") table-InOrder
      (omega arith, (omega arith, (omega arith, (omega arith, tt)))) (λ e. cc)
