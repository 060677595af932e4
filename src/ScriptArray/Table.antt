-- ===== src/ScriptArray/Table.antt =====
-- source/array.c: the arrays by their names. `array_info` has the names as its items, and the array
-- of the name in `array_info.item[n]` is `array_array[n]`.
use tek_nap.Common.{
  ℕ, zero, suc, ◌-◌, List, [], ◌∷◌, ◌==◌, if◌then◌else◌, Bytes, not, ◌&&◌, Bool, true, false,
  Option, none, some, map, ltb, leb, length, get_elem?, take, ◌>>=◌,
}
use tek_nap.Common.Int.{ℤ, pos, negsuc}
use tek_nap.ScriptArray.Index.{AnArray, find_item, move_index, shift_left}

pub record Arrays : Type 0 where
  pub array_info : AnArray
  pub array_array : List AnArray

abbrev pub no_arrays : Arrays
no_arrays = record { array_info = record { item = []; index = []; size = 0 }; array_array = [] }

-- The standard library's `toupper`, in the C locale.
unfoldable pub toupper : ℕ → ℕ
toupper c = if leb b'a' c && leb c b'z' then c - 32 else c

unfoldable pub upper : Bytes → Bytes
unfolding toupper
upper = map toupper

unfoldable pub no_text : Bytes → Bool
no_text [] = true
no_text (c ∷ s) = false

-- `if ((index = find_item (array_info, name)) >= 0) return &array_array[array_info.index[index]];`
unfoldable pub number_at : AnArray → ℤ → Option (Option ℕ)
number_at info (negsuc b) = some none
number_at info (pos index) = do n ← get_elem? info.index index; some (some n)

-- A pointer into `array_array` is a place; null is `none`, and the outer `none` is a fault.
unfoldable pub get_array : Arrays → Bytes → Option (Option ℕ)
unfolding no_text upper
get_array t name =
    if not (t.array_info.size == 0) && not (no_text name)
    then (do found ← find_item t.array_info (upper name); number_at t.array_info found)
    else some none

-- `for (cnt = 0; cnt < size; cnt++) if (index[cnt] > item) index[cnt]--;`
unfoldable pub lower_above : (size item : ℕ) → List ℕ → Option (List ℕ)
lower_above zero item xs = some xs
lower_above (suc n) item [] = none
lower_above (suc n) item (x ∷ xs) = do
  rest ← lower_above n item xs
  some ((if ltb item x then x - 1 else x) ∷ rest)

-- The release of the items, which reads each of them.
unfoldable pub free_items : AnArray → Option AnArray
free_items a = if leb a.size (length a.item) then some a else none

-- `array_info` without the place `index`, which refers to `item`, and without that item.
unfoldable pub take_out : AnArray → (index item : ℕ) → Option AnArray
take_out a index item = do
  lowered ← lower_above a.size item a.index
  moved ← move_index (record a { index = lowered }) index a.size
  let size = a.size - 1
  items ← shift_left (size - item) a.item item
  some (record { item = take size items; index = take size moved.index; size = size })

-- The part of `delete_array` behind the search.
unfoldable pub delete_at : Arrays → ℤ → Option Arrays
delete_at t (negsuc b) = none
delete_at t (pos index) = do
  item ← get_elem? t.array_info.index index
  array ← get_elem? t.array_array item
  freed ← free_items array
  if ltb 1 t.array_info.size
      then (do
        info ← take_out t.array_info index item
        arrays ← shift_left (t.array_info.size - 1 - item) t.array_array item
        some (record { array_info = info; array_array = take (t.array_info.size - 1) arrays }))
      else some no_arrays

unfoldable pub delete_array : Arrays → (name : Bytes) → Option Arrays
delete_array t name = do index ← find_item t.array_info name; delete_at t index

-- The first loop of `delete_all_arrays`, in `n` rounds.
unfoldable pub free_all : ℕ → List AnArray → Option (List AnArray)
free_all zero arrays = some []
free_all (suc n) [] = none
free_all (suc n) (a ∷ arrays) = do
  freed ← free_items a
  rest ← free_all n arrays
  some (freed ∷ rest)

unfoldable pub delete_all_arrays : Arrays → Option Arrays
delete_all_arrays t = do
  freed ← free_all t.array_info.size t.array_array
  if leb t.array_info.size (length t.array_info.item) then some no_arrays else none
