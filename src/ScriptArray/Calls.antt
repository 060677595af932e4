-- ===== src/ScriptArray/Calls.antt =====
-- source/array.c: the functions of the scripts that read the arrays. `m_s3cat` treats a null pointer
-- like the empty string, and so do the results, so that both are the empty list.
use tek_nap.Common.{
  ℕ, zero, suc, ◌+◌, [], ◌∷◌, ◌++◌, if◌then◌else◌, Bytes, Option, none, some, ltb, get_elem?, ◌>>=◌,
}
use tek_nap.Common.Int.{ℤ, pos, negsuc}
use tek_nap.Text.Args.{next_arg}
use tek_nap.Text.Number.{my_atol, ltoa}
use tek_nap.Wild.Sets.{wild_match}
use tek_nap.History.Recall.{matched}
use tek_nap.ScriptArray.Index.{AnArray, word_at, find_item, find_index, run_start}
use tek_nap.ScriptArray.Table.{Arrays, get_array}

-- `RETURN_INT`
unfoldable pub return_int : ℤ → Option Bytes
return_int n = some (ltoa n)

-- `if ((name = next_arg (input, &input)) && (array = get_array (name)))`, with the array and the
-- rest of the input behind it.
unfoldable pub in_array {ℓ} :
    {A : Type ℓ} → Arrays → Bytes → (otherwise : A) → (AnArray → Bytes → Option A) → Option A
in_array t input otherwise body = elim (next_arg input).word [
  | none ↦ some otherwise
  | some name ↦ do
    pointer ← get_array t name
    elim pointer [
      | none ↦ some otherwise
      | some n ↦ do array ← get_elem? t.array_array n; body array (next_arg input).rest
    ]
]

-- `if (item >= 0 && item < size)`
unfoldable pub if_within {ℓ} : {A : Type ℓ} → ℤ → ℕ → (otherwise : A) → (ℕ → Option A) → Option A
if_within (negsuc n) size otherwise body = some otherwise
if_within (pos item) size otherwise body = if ltb item size then body item else some otherwise

-- `if ((itemstr = next_arg (input, &input)))`, and then the test of the number in it.
unfoldable pub at_item {ℓ} :
    {A : Type ℓ} → Bytes → (size : ℕ) → (otherwise : A) → (ℕ → Option A) → Option A
at_item input size otherwise body = elim (next_arg input).word [
  | none ↦ some otherwise
  | some itemstr ↦ if_within (my_atol itemstr) size otherwise body
]

-- `if (*input)`
unfoldable pub if_any {ℓ} : {A : Type ℓ} → Bytes → (otherwise : A) → Option A → Option A
if_any [] otherwise body = some otherwise
if_any (c ∷ input) otherwise body = body

-- The loop for the best match, over the `n` items from `index` on.
unfoldable pub best_match :
    (n : ℕ) → AnArray → (Bytes → Option ℕ) → (index : ℕ) → (match : ℤ) → (best : ℕ) → Option ℤ
best_match zero a matches index match best = some match
best_match (suc n) a matches index match best = do
  s ← get_elem? a.item index
  current ← matches s
  if ltb best current
      then best_match n a matches (index + 1) (pos index) current
      else best_match n a matches (index + 1) match best

abbrev pub input_match : (fuel : ℕ) → (input : Bytes) → Bytes → Option ℕ
input_match fuel input s = matched (wild_match fuel input s)

abbrev pub item_match : (fuel : ℕ) → (input : Bytes) → Bytes → Option ℕ
item_match fuel input s = matched (wild_match fuel s input)

unfoldable pub function_matchitem : (fuel : ℕ) → Arrays → Bytes → Option Bytes
function_matchitem fuel t input = do
  match ← in_array t input (negsuc 0) (λ a rest.
      if_any rest (negsuc 1) (best_match a.size a (input_match fuel rest) 0 (negsuc 1) 0))
  return_int match

unfoldable pub function_rmatchitem : (fuel : ℕ) → Arrays → Bytes → Option Bytes
function_rmatchitem fuel t input = do
  match ←
      in_array t input (negsuc 0) (λ a rest.
        if_any rest (negsuc 1) (best_match a.size a (item_match fuel rest) 0 (negsuc 1) 0))
  return_int match

-- `if (match != -1) ret = array->item[match];`
unfoldable pub matched_item : AnArray → ℤ → Option Bytes
matched_item a (negsuc n) = some []
matched_item a (pos n) = get_elem? a.item n

unfoldable pub function_gettmatch : (fuel : ℕ) → Arrays → Bytes → Option Bytes
function_gettmatch fuel t input = in_array t input [] (λ a rest.
    if_any rest []
      (do match ← best_match a.size a (input_match fuel rest) 0 (negsuc 0) 0; matched_item a match))

-- `m_s3cat (&result, space, word)`
unfoldable pub m_s3cat : Bytes → Bytes → Bytes
m_s3cat [] word = word
m_s3cat (c ∷ result) word = (c ∷ result) ++ (32 ∷ word)

-- The loop that lists a number for each item that matches, over the `n` items from `item` on.
unfoldable pub list_matches :
    (n : ℕ) → AnArray → (Bytes → Option ℕ) → (ℕ → Option ℕ) → (item : ℕ) → Bytes → Option Bytes
list_matches zero a matches number item result = some result
list_matches (suc n) a matches number item result = do
  s ← get_elem? a.item item
  current ← matches s
  if ltb 0 current
      then (do
        k ← number item
        list_matches n a matches number (item + 1) (m_s3cat result (ltoa (pos k))))
      else list_matches n a matches number (item + 1) result

unfoldable pub function_getmatches : (fuel : ℕ) → Arrays → Bytes → Option Bytes
function_getmatches fuel t input =
    in_array t input []
      (λ a rest. if_any rest [] (list_matches a.size a (input_match fuel rest) some 0 []))

unfoldable pub function_getrmatches : (fuel : ℕ) → Arrays → Bytes → Option Bytes
function_getrmatches fuel t input =
    in_array t input []
      (λ a rest. if_any rest [] (list_matches a.size a (item_match fuel rest) some 0 []))

unfoldable pub function_igetmatches : (fuel : ℕ) → Arrays → Bytes → Option Bytes
function_igetmatches fuel t input =
    in_array t input []
      (λ a rest. if_any rest [] (list_matches a.size a (input_match fuel rest) (find_index a) 0 []))

unfoldable pub function_igetrmatches : (fuel : ℕ) → Arrays → Bytes → Option Bytes
function_igetrmatches fuel t input =
    in_array t input []
      (λ a rest. if_any rest [] (list_matches a.size a (item_match fuel rest) (find_index a) 0 []))

-- The loop that joins the words at `n` places from `index` on.
unfoldable pub join_words :
    (n : ℕ) → (ℕ → Option Bytes) → (index : ℕ) → (result : Bytes) → Option Bytes
join_words zero word index result = some result
join_words (suc n) word index result = do
  s ← word index
  join_words n word (index + 1) (m_s3cat result s)

unfoldable pub function_listarray : Arrays → Bytes → Option Bytes
function_listarray t input =
    in_array t input [] (λ a rest. join_words a.size (get_elem? a.item) 0 [])

unfoldable pub function_getarrays : Arrays → Option Bytes
function_getarrays t = join_words t.array_info.size (word_at t.array_info) 0 []

unfoldable pub function_numarrays : Arrays → Option Bytes
function_numarrays t = return_int (pos t.array_info.size)

unfoldable pub function_numitems : Arrays → Bytes → Option Bytes
function_numitems t input = do
  items ← in_array t input (pos 0) (λ a rest. some (pos a.size))
  return_int items

unfoldable pub function_getitem : Arrays → Bytes → Option Bytes
function_getitem t input = in_array t input [] (λ a rest. at_item rest a.size [] (get_elem? a.item))

unfoldable pub function_igetitem : Arrays → Bytes → Option Bytes
function_igetitem t input = in_array t input [] (λ a rest. at_item rest a.size [] (word_at a))

unfoldable pub function_indextoitem : Arrays → Bytes → Option Bytes
function_indextoitem t input = do
  found ← in_array t input (negsuc 0) (λ a rest.
      at_item rest a.size (negsuc 1) (λ item. do n ← get_elem? a.index item; some (pos n)))
  return_int found

unfoldable pub function_itemtoindex : Arrays → Bytes → Option Bytes
function_itemtoindex t input = do
  found ←
      in_array t input (negsuc 0)
        (λ a rest. at_item rest a.size (negsuc 1) (λ item. do n ← find_index a item; some (pos n)))
  return_int found

-- `item = (item >= 0) ? array->index[item] : -2;`
unfoldable pub item_number : AnArray → ℤ → Option ℤ
item_number a (negsuc n) = some (negsuc 1)
item_number a (pos index) = do n ← get_elem? a.index index; some (pos n)

unfoldable pub function_finditem : Arrays → Bytes → Option Bytes
function_finditem t input = do
  item ←
      in_array t input (negsuc 0)
        (λ a rest. if_any rest (negsuc 0) (do found ← find_item a rest; item_number a found))
  return_int item

abbrev pub or_missing : ℤ → ℤ
or_missing (negsuc n) = negsuc 1
or_missing (pos index) = pos index

unfoldable pub function_ifinditem : Arrays → Bytes → Option Bytes
function_ifinditem t input = do
  item ←
      in_array t input (negsuc 0)
        (λ a rest. if_any rest (negsuc 0) (do found ← find_item a rest; some (or_missing found)))
  return_int item

-- The walk back over the items that are equal to the input.
unfoldable pub first_number : AnArray → Bytes → ℤ → Option ℤ
first_number a find (negsuc n) = some (negsuc 1)
first_number a find (pos index) = do n ← run_start a find (index + 1); some (pos n)

unfoldable pub function_ifindfirst : Arrays → Bytes → Option Bytes
function_ifindfirst t input = do
  item ←
      in_array t input (negsuc 0)
        (λ a rest. if_any rest (negsuc 0) (do found ← find_item a rest; first_number a rest found))
  return_int item
