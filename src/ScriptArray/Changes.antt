-- ===== src/ScriptArray/Changes.antt =====
-- source/array.c: the functions of the scripts that change the arrays.
use tek_nap.Common.{
  ℕ, ◌+◌, [], ◌∷◌, ◌==◌, if◌then◌else◌, Bytes, Option, none, some, ltb, get_elem?, ◌>>=◌,
}
use tek_nap.Common.Int.{ℤ, pos, negsuc}
use tek_nap.Text.Args.{next_arg}
use tek_nap.Text.Number.{my_atol, ltoa}
use tek_nap.ScriptArray.Index.{
  AnArray, put, reallocate, find_item, insert_index, move_index, find_index, place_of,
}
use tek_nap.ScriptArray.Table.{Arrays, upper, get_array, delete_array, take_out}

-- `(-index) - 1`
unfoldable pub flip : ℤ → ℤ
flip (pos index) = negsuc index
flip (negsuc b) = pos b

-- The branch of `function_setitem` for an item that the array has.
unfoldable pub replace_item : AnArray → (item : ℕ) → Bytes → Option AnArray
replace_item a item input = do
  oldindex ← find_index a item
  found ← find_item a input
  moved ← move_index a oldindex (place_of found)
  items ← put moved.item item input
  some (record moved { item = items })

-- The branch for the item behind the last one.
unfoldable pub append_item : AnArray → (item : ℕ) → Bytes → Option AnArray
append_item a item input = do
  items ← put (reallocate (a.size + 1) [] a.item) item input
  let longer = record a { item = items }
  found ← find_item longer input
  insert_index longer (pos (place_of found))

-- The branches for an array that is there: the result and the array.
unfoldable pub set_in_array : AnArray → (item : ℕ) → Bytes → Option (ℤ × AnArray)
set_in_array a item input =
    if ltb item a.size
    then (do a' ← replace_item a item input; some (pos 0, a'))
    else if item == a.size
    then (do a' ← append_item a item input; some (pos 2, a'))
    else some (negsuc 1, a)

abbrev pub one_item : Bytes → AnArray
one_item input = record { item = input ∷ []; index = 0 ∷ []; size = 1 }

-- The branch for a new array; `index` is the result of the search for its name, or zero.
unfoldable pub new_array : Arrays → ℤ → (name input : Bytes) → Option Arrays
new_array t index name input = do
  arrays ←
      put (reallocate (t.array_info.size + 1) (one_item []) t.array_array) t.array_info.size
        (one_item input)
  names ← put (reallocate (t.array_info.size + 1) [] t.array_info.item) t.array_info.size name
  info ← insert_index (record (t.array_info) { item = names }) (flip index)
  some (record { array_info = info; array_array = arrays })

-- The branches of `function_setitem` that store a new array, or nothing.
unfoldable pub set_missing : Arrays → ℤ → (name : Bytes) → (item : ℕ) → Bytes → Option (ℤ × Arrays)
set_missing t index name item input =
    if item == 0
    then (do t' ← new_array t index name input; some (pos 1, t'))
    else some (negsuc 0, t)

unfoldable pub set_existing : Arrays → (index item : ℕ) → Bytes → Option (ℤ × Arrays)
set_existing t index item input = do
  n ← get_elem? t.array_info.index index
  a ← get_elem? t.array_array n
  r ← set_in_array a item input
  arrays ← put t.array_array n r.1
  some (r.0, record t { array_array = arrays })

unfoldable pub set_found : Arrays → (name : Bytes) → (item : ℕ) → Bytes → ℤ → Option (ℤ × Arrays)
set_found t name item input (pos index) = set_existing t index item input
set_found t name item input (negsuc b) = set_missing t (negsuc b) name item input

-- The part of `function_setitem` behind `upper (name)`.
unfoldable pub set_named : Arrays → (name : Bytes) → (item : ℕ) → Bytes → Option (ℤ × Arrays)
set_named t name item input =
    if t.array_info.size == 0
    then set_missing t (pos 0) name item input
    else do found ← find_item t.array_info name; set_found t name item input found

-- `if (item >= 0)`
unfoldable pub set_number : Arrays → (name : Bytes) → ℤ → Bytes → Option (ℤ × Arrays)
set_number t name (negsuc n) input = some (negsuc 0, t)
set_number t name (pos item) input = set_named t (upper name) item input

-- `if (strlen (name) && (itemstr = next_arg (input, &input)))`, given the name and what follows it.
unfoldable pub set_words : Arrays → (name input : Bytes) → Option (ℤ × Arrays)
set_words t [] input = some (negsuc 0, t)
set_words t (c ∷ name) input = elim (next_arg input).word [
  | none ↦ some (negsuc 0, t)
  | some itemstr ↦ set_number t (c ∷ name) (my_atol itemstr) (next_arg input).rest
]

-- The result of a function of the scripts, and the arrays that it leaves.
abbrev pub return_with : Option (ℤ × Arrays) → Option (Bytes × Arrays)
return_with none = none
return_with (some (n, t)) = some (ltoa n, t)

unfoldable pub function_setitem : Arrays → Bytes → Option (Bytes × Arrays)
function_setitem t input = return_with (elim (next_arg input).word [
  | none ↦ some (negsuc 0, t)
  | some name ↦ set_words t name (next_arg input).rest
])

-- The branch of `function_delitem` that takes an item out of an array that has more.
unfoldable pub delete_item : Arrays → (n : ℕ) → AnArray → (item : ℕ) → Option Arrays
delete_item t n a item = do
  oldindex ← find_index a item
  a' ← take_out a oldindex item
  arrays ← put t.array_array n a'
  some (record t { array_array = arrays })

-- `if (item >= 0 && item < array->size)`, for the array at place `n`.
unfoldable pub delete_number :
    Arrays → (name : Bytes) → (n : ℕ) → AnArray → (item : ℤ) → Option (ℤ × Arrays)
delete_number t name n a (negsuc m) = some (negsuc 1, t)
delete_number t name n a (pos item) =
    if ltb item a.size
    then (do
      t' ← if a.size == 1 then delete_array t (upper name) else delete_item t n a item
      some (pos 0, t'))
    else some (negsuc 1, t)

-- The part of `function_delitem` behind `get_array (name)`, given its result.
unfoldable pub delete_from :
    Arrays → (name input : Bytes) → (array : Option ℕ) → Option (ℤ × Arrays)
delete_from t name input none = some (negsuc 0, t)
delete_from t name input (some n) = do
  a ← get_elem? t.array_array n
  elim (next_arg input).word [
    | none ↦ some (negsuc 1, t)
    | some itemstr ↦ delete_number t name n a (my_atol itemstr)
  ]

unfoldable pub function_delitem : Arrays → Bytes → Option (Bytes × Arrays)
function_delitem t input = return_with (elim (next_arg input).word [
  | none ↦ some (negsuc 0, t)
  | some name ↦ do array ← get_array t name; delete_from t name (next_arg input).rest array
])

-- The part of `function_delarray` behind `get_array (name)`, given its result.
unfoldable pub delete_whole : Arrays → (name : Bytes) → (array : Option ℕ) → Option (ℤ × Arrays)
delete_whole t name none = some (negsuc 0, t)
delete_whole t name (some n) = do t' ← delete_array t (upper name); some (pos 0, t')

unfoldable pub function_delarray : Arrays → Bytes → Option (Bytes × Arrays)
function_delarray t input = return_with (elim (next_arg input).word [
  | none ↦ some (negsuc 0, t)
  | some name ↦ do array ← get_array t name; delete_whole t name array
])
