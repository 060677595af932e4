-- ===== src/Tests/Items.antt =====
-- source/array.c: an array of a script with two items, and the theorems about the arrays on it.
use tek_nap.Common.{
  ℕ, ◌<◌, ◌∙◌, Bytes, codes, All, List, [], ◌∷◌, some, ◌≡◌, refl, sym, subst, arith,
}
use mathlib.Core.Option.{some-injective}
use tek_nap.Common.Int.{ℤ}
use tek_nap.Text.Case.{strcmp}
use tek_nap.Text.Search.{sindex, first_outside, first_inside, in_group, isdigit, my_isspace}
use tek_nap.Text.Args.{next_arg}
use tek_nap.Text.Number.{
  my_atol, ltoa, past_space, signed_value, digits_value, plus_minus, put_digits,
}
use tek_nap.ScriptArray.Index.{
  put, reallocate, word_at, bisect, find_item, place_of, shift_right, shift_left, insert_at,
  insert_index, move_to, move_index, run_start, first_equal, scan, find_index,
}
use tek_nap.ScriptArray.Table.{
  Arrays, no_arrays, toupper, upper, no_text, number_at, get_array, lower_above, free_items,
  take_out, delete_at, delete_array,
}
use tek_nap.ScriptArray.Changes.{
  flip, replace_item, append_item, set_in_array, new_array, set_missing, set_existing, set_found,
  set_named, set_number, set_words, function_setitem, delete_item, delete_number, delete_from,
  function_delitem,
}
use tek_nap.ScriptArray.Calls.{function_getitem}
use tek_nap.ScriptArray.Valid.{Ordered, idx}
use tek_nap.ScriptArray.Search.{Answer, find_item-Answer}
use tek_nap.ScriptArray.Locate.{find_index-some}
use tek_nap.ScriptArray.Contents.{contents, items_of, pairs, same_name}
use tek_nap.ScriptArray.Kept.{Kept, array_at}
use tek_nap.ScriptArray.Setting.{Stored}
use tek_nap.ScriptArray.Runs.{ScriptCall, ScriptCallText, perform, run_calls, run_calls-Kept}
use tek_nap.ScriptArray.Round.{Line, Fits, setitem-Stored, setitem-getitem}
use tek_nap.ScriptArray.Erase.{Removed, delitem-Removed}

abbrev calls : List ScriptCall
calls =
    ScriptCall.setitem (codes "pets 0 cat")
    ∷ ScriptCall.setitem (codes "pets 1 ant")
    ∷ ScriptCall.setitem (codes "p 0 x")
    ∷ ScriptCall.delitem (codes "p 0")
    ∷ []

calls-text : All ScriptCallText calls
calls-text = omega arith

-- "cat" and "ant" under the name "PETS".
abbrev pets : Arrays
pets = record {
  array_info = record { item = codes "PETS" ∷ []; index = 0 ∷ []; size = 1 };
  array_array = record { item = codes "cat" ∷ codes "ant" ∷ []; index = 1 ∷ 0 ∷ []; size = 2 } ∷ [];
}

calls_run : run_calls calls no_arrays ≡ some pets
unfolding run_calls perform function_setitem function_delitem set_words set_number set_named
    set_found set_existing set_missing new_array set_in_array append_item replace_item flip
    delete_from delete_number delete_item delete_array delete_at take_out free_items lower_above
    get_array number_at no_text upper toupper find_item bisect word_at place_of put reallocate
    insert_index insert_at shift_right shift_left move_index move_to find_index first_equal
    run_start scan strcmp next_arg sindex first_outside first_inside in_group my_atol ltoa
    past_space signed_value digits_value plus_minus put_digits isdigit my_isspace
calls_run = refl

run_calls-Kept_example : (t : Arrays) × (run_calls calls no_arrays ≡ some t) × Kept t
run_calls-Kept_example = run_calls-Kept calls calls-text

pets-Kept : Kept pets
pets-Kept =
    let (t, run, kept) = run_calls-Kept calls calls-text in
    subst Kept (some-injective _ _ (sym run ∙ calls_run)) kept

pets-Ordered : Ordered (array_at pets 0)
pets-Ordered = ((pets-Kept.each 0 (omega arith)).0).ordered

find_item-Answer_example :
    (r : ℤ) × (find_item (array_at pets 0) (codes "bee") ≡ some r)
    × Answer (array_at pets 0) (codes "bee") r
find_item-Answer_example =
    find_item-Answer (array_at pets 0) (codes "bee") pets-Ordered (omega arith)

find_index-some_example :
    (place : ℕ) × (find_index (array_at pets 0) 1 ≡ some place)
    × (place < 2)
    × (idx (array_at pets 0) place ≡ 1)
find_index-some_example = find_index-some (array_at pets 0) 1 pets-Ordered (omega arith)

abbrev store_line : Bytes
store_line = codes "pets 0 dog"

store_line-Line : Line store_line b'p' (codes "ets") (codes "0") 0 (codes "dog")
unfolding next_arg sindex first_outside first_inside in_group my_atol past_space signed_value
    digits_value plus_minus isdigit my_isspace
store_line-Line = record { name_word = refl; item_word = refl; number = refl; rest_is = refl }

abbrev query_line : Bytes
query_line = codes "PETS 0"

query_line-Line : Line query_line b'P' (codes "ETS") (codes "0") 0 []
unfolding next_arg sindex first_outside first_inside in_group my_atol past_space signed_value
    digits_value plus_minus isdigit my_isspace
query_line-Line = record { name_word = refl; item_word = refl; number = refl; rest_is = refl }

same_upper : upper (codes "PETS") ≡ upper (codes "pets")
unfolding upper toupper
same_upper = refl

pets_fit : Fits (items_of (contents pets) (upper (codes "pets"))) 0
unfolding Fits items_of contents pairs same_name strcmp upper toupper
pets_fit = omega arith

setitem-getitem_example :
    (out : Bytes) × (t' : Arrays) × (function_setitem pets store_line ≡ some (out, t'))
    × (function_getitem t' query_line ≡ some (codes "dog"))
setitem-getitem_example =
    setitem-getitem pets store_line query_line b'p' b'P' (codes "ets") (codes "ETS") (codes "0")
      (codes "0") 0 (codes "dog") [] pets-Kept (omega arith) store_line-Line query_line-Line
      same_upper pets_fit

setitem-Stored_example :
    (r : ℤ) × (t' : Arrays) × (function_setitem pets store_line ≡ some (ltoa r, t'))
    × Stored pets t' r (upper (codes "pets")) 0 (codes "dog")
setitem-Stored_example =
    setitem-Stored pets store_line b'p' (codes "ets") (codes "0") 0 (codes "dog") pets-Kept
      (omega arith) store_line-Line

delitem-Removed_example :
    (r : ℤ) × (t' : Arrays) × (function_delitem pets query_line ≡ some (ltoa r, t'))
    × Removed pets t' r (upper (codes "PETS")) (my_atol (codes "0"))
delitem-Removed_example =
    delitem-Removed pets query_line b'P' (codes "ETS") (codes "0") pets-Kept (omega arith)
      query_line-Line.name_word query_line-Line.item_word
