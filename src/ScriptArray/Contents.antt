-- ===== src/ScriptArray/Contents.antt =====
-- source/array.c: the arrays as the scripts see them, a list of names with their items, and what the
-- functions do to it.
use tek_nap.Common.{
  ℕ, zero, suc, List, [], ◌∷◌, Bytes, Bool, Option, some, none, length, if◌then◌else◌, ltb, ◌==◌,
}
use tek_nap.Common.Int.{ℤ, pos, negsuc, is_zero}
use tek_nap.Text.Case.{strcmp}
use tek_nap.ScriptArray.Index.{AnArray}
use tek_nap.ScriptArray.Table.{Arrays}
use tek_nap.ScriptArray.Remove.{remove_at}

-- The names with their items, in the order in which the arrays were made.
abbrev pub Contents : Type 0
Contents = List (Bytes × List Bytes)

unfoldable pub pairs : List Bytes → List AnArray → Contents
pairs [] arrays = []
pairs (name ∷ names) [] = []
pairs (name ∷ names) (a ∷ arrays) = (name, a.item) ∷ pairs names arrays

unfoldable pub contents : Arrays → Contents
contents t = pairs t.array_info.item t.array_array

unfoldable pub same_name : Bytes → Bytes → Bool
same_name s t = is_zero (strcmp s t)

-- The items of a name.
unfoldable pub items_of : Contents → Bytes → Option (List Bytes)
items_of [] name = none
items_of ((n, items) ∷ cs) name =
    let others = items_of cs name in if same_name n name then some items else others

-- Storing at a place of a list: 0 in place of an item, 2 right behind the last one, and -2 further on.
unfoldable pub store_at : List Bytes → ℕ → Bytes → ℤ × List Bytes
store_at [] zero input = (pos 2, input ∷ [])
store_at [] (suc item) input = (negsuc 1, [])
store_at (x ∷ xs) zero input = (pos 0, input ∷ xs)
store_at (x ∷ xs) (suc item) input = let more = store_at xs item input in (more.0, x ∷ more.1)

-- Storing under a name. A name that is not there gets a new list, 1, for its first item, or -1.
unfoldable pub store : Contents → (name : Bytes) → ℕ → Bytes → ℤ × Contents
store [] name zero input = (pos 1, (name, input ∷ []) ∷ [])
store [] name (suc item) input = (negsuc 0, [])
store ((n, items) ∷ cs) name item input =
    let here = store_at items item input in
    let later = store cs name item input in
    if same_name n name then (here.0, (n, here.1) ∷ cs) else (later.0, (n, items) ∷ later.1)

-- Without the name.
unfoldable pub without : Contents → (name : Bytes) → Contents
without [] name = []
without ((n, items) ∷ cs) name =
    let later = without cs name in if same_name n name then cs else (n, items) ∷ later

-- The list of items put in place of the one under a name.
unfoldable pub with_items : Contents → (name : Bytes) → List Bytes → Contents
with_items [] name new = []
with_items ((n, items) ∷ cs) name new =
    let later = with_items cs name new in
    if same_name n name then (n, new) ∷ cs else (n, items) ∷ later

-- Removing the item at a place of the list under a name: 0, or -2 where there is none; a list of one
-- item goes with its name.
unfoldable pub remove_from : Contents → (name : Bytes) → List Bytes → ℤ → ℤ × Contents
remove_from cs name items (negsuc n) = (negsuc 1, cs)
remove_from cs name items (pos item) =
    if ltb item (length items)
    then (
      pos 0,
      if length items == 1 then without cs name else with_items cs name (remove_at items item),
    )
    else (negsuc 1, cs)

-- The same, and -1 where the name is not there.
unfoldable pub remove_item : Contents → (name : Bytes) → ℤ → ℤ × Contents
remove_item cs name item = elim (items_of cs name) [
  | none ↦ (negsuc 0, cs)
  | some items ↦ remove_from cs name items item
]
