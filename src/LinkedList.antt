-- ===== src/LinkedList.antt =====
-- source/list.c: the generic linked lists. The structures live at addresses of a memory, and the
-- pointer `*list` to the first one is passed in and its new value returned.
pub mod Memory
pub mod Chain
pub mod Link
pub mod Add
pub mod Front
pub mod Sorted
pub mod Find
pub mod Remove
use tek_nap.Common.{
  ℕ, zero, suc, ◌∷◌, ◌==◌, if◌then◌else◌, Bytes, Bool, true, false, not, ◌&&◌, ◌||◌, Option, none,
  some, length, ltb,
}
use tek_nap.Common.Int.{ℤ, is_zero, is_pos, pos_part}
use tek_nap.Text.Case.{strcmp, my_stricmp, my_strnicmp}
use tek_nap.LinkedList.Memory.{Ptr, null, Cell, M, pure, ◌>>=◌, ◌>>◌, load, set_next, set_prev}

-- A comparison reads the sort key of a structure, its `name`.
abbrev pub Compare : Type 0
Compare = Bytes → Bytes → ℤ

unfoldable pub add_list_strcmp : Compare
add_list_strcmp = strcmp

unfoldable pub add_list_stricmp : Compare
add_list_stricmp = my_stricmp

unfoldable pub list_stricmp : Compare
list_stricmp = my_stricmp

unfoldable pub list_strnicmp : Compare
list_strnicmp item str = my_strnicmp item str (length str)

-- The search loop of `add_to_list_ext`: the pointers `last` and `tmp` at its end.
pub find_slot : ℕ → Compare → Bytes → (tmp last : Ptr) → M (Ptr × Ptr)
find_slot zero cmp_func add tmp last = λ _. none
find_slot (suc fuel) cmp_func add tmp last = if tmp == null then pure (last, tmp) else do
  t ← load tmp
  if is_pos (cmp_func t.name add) then pure (last, tmp) else find_slot fuel cmp_func add t.next tmp

-- `if (dble) { add->prev = last; if (tmp) tmp->prev = add; }`
link_back : Bool → (add last tmp : Ptr) → M (Unit {0})
link_back false add last tmp = pure tt
link_back true add last tmp =
    set_prev add last >> (if tmp == null then pure tt else set_prev tmp add)

-- The two branches on `last`; the result is the new `*list`.
pub link_in : Bool → (list add last tmp : Ptr) → M Ptr
unfolding link_back
link_in dble list add last tmp =
    if last == null
    then (if dble && not (list == null) then set_prev list add else pure tt) >> pure add
    else set_next last add >> link_back dble add last tmp >> pure list

-- What `add_to_list_ext` does behind its loop.
pub finish : Bool → (list add : Ptr) → Ptr × Ptr → M Ptr
unfolding link_in
finish dble list add (last, tmp) = do
  list' ← link_in dble list add last tmp
  set_next add tmp
  pure list'

unfoldable pub add_to_list_ext : ℕ → (list add : Ptr) → Bool → Compare → M Ptr
unfolding find_slot finish
add_to_list_ext fuel list add dble cmp_func = do
  a ← load add
  slot ← find_slot fuel cmp_func a.name list null
  finish dble list add slot

unfoldable pub add_to_list : ℕ → (list add : Ptr) → M Ptr
add_to_list fuel list add = add_to_list_ext fuel list add false add_list_stricmp

unfoldable pub add_to_list_double : ℕ → (list add : Ptr) → M Ptr
add_to_list_double fuel list add = add_to_list_ext fuel list add true add_list_stricmp

-- The loop of `find_in_list_ext` without wildcards.
find_same : ℕ → Compare → Bytes → (tmp : Ptr) → M Ptr
find_same zero cmp_func name tmp = λ _. none
find_same (suc fuel) cmp_func name tmp = if tmp == null then pure null else do
  t ← load tmp
  if is_zero (cmp_func t.name name) then pure tmp else find_same fuel cmp_func name t.next

-- The loop with wildcards: the first structure with the best value, by a comparison that grades.
-- `best_match` begins at zero and only grows.
find_best : ℕ → Compare → Bytes → (tmp match : Ptr) → (best_match : ℕ) → M Ptr
find_best zero cmp_func name tmp match best_match = λ _. none
find_best (suc fuel) cmp_func name tmp match best_match = if tmp == null then pure match else do
  t ← load tmp
  let current_match = pos_part (cmp_func t.name name)
  if ltb best_match current_match
      then find_best fuel cmp_func name t.next tmp current_match
      else find_best fuel cmp_func name t.next match best_match

unfoldable pub find_in_list_ext : ℕ → (list : Ptr) → Bytes → Bool → Compare → M Ptr
unfolding find_same find_best
find_in_list_ext fuel list name true cmp_func = find_best fuel cmp_func name list null 0
find_in_list_ext fuel list name false cmp_func = find_same fuel cmp_func name list

-- `remove_from_list_ext`: the new `*list`, and the structure that was taken out or a null pointer.
remove_loop : ℕ → Compare → Bytes → (list tmp last : Ptr) → M (Ptr × Ptr)
remove_loop zero cmp_func name list tmp last = λ _. none
remove_loop (suc fuel) cmp_func name list tmp last = if tmp == null then pure (list, null) else do
  t ← load tmp
  if is_zero (cmp_func t.name name)
      then (if last == null then pure (t.next, tmp) else set_next last t.next >> pure (list, tmp))
      else remove_loop fuel cmp_func name list t.next tmp

unfoldable pub remove_from_list_ext : ℕ → (list : Ptr) → Bytes → Compare → M (Ptr × Ptr)
unfolding remove_loop
remove_from_list_ext fuel list name cmp_func = remove_loop fuel cmp_func name list list null

unfoldable pub remove_from_list : ℕ → (list : Ptr) → Bytes → M (Ptr × Ptr)
remove_from_list fuel list name = remove_from_list_ext fuel list name list_stricmp

-- `remove_from_list_double`, behind its call of `remove_from_list_ext`.
unlink_back : Ptr × Ptr → M (Ptr × Ptr)
unlink_back (list, tmp) = if tmp == null then pure (list, null) else do
  t ← load tmp
  (if t.prev == null then pure tt else set_next t.prev t.next)
  t' ← load tmp
  (if t'.next == null then pure tt else set_prev t'.next t'.prev)
  pure (list, tmp)

unfoldable pub remove_from_list_double : ℕ → (list : Ptr) → Bytes → M (Ptr × Ptr)
unfolding unlink_back
remove_from_list_double fuel list name = remove_from_list fuel list name >>= unlink_back

-- `list_lookup_ext`: the new `*list`, and the structure that was found.
unfoldable pub list_lookup_ext :
    ℕ → (list : Ptr) → Bytes → (wild delete : Bool) → Compare → M (Ptr × Ptr)
list_lookup_ext fuel list name wild true cmp_func = remove_from_list_ext fuel list name cmp_func
list_lookup_ext fuel list name wild false cmp_func = do
  tmp ← find_in_list_ext fuel list name wild cmp_func
  pure (list, tmp)

-- `break_from_list`; the result is the new `*list`.
unfoldable pub break_from_list : (list tmp : Ptr) → M Ptr
break_from_list list tmp = do
  t ← load tmp
  list' ← (if t.prev == null then pure t.next else (set_next t.prev t.next >> pure list))
  t' ← load tmp
  (if t'.next == null then pure tt else set_prev t'.next t'.prev)
  (if list' == null then pure tt else set_prev list' null)
  set_next tmp null
  set_prev tmp null
  pure list'
