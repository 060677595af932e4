-- ===== src/History.antt =====
-- source/history.c: the command history. The doubly linked list from `command_history_head` to
-- `command_history_tail` is the list of its entries, the newest first; a pointer to an entry is its
-- address, and a step that follows a null pointer or one to an entry that was freed is `none`.
pub mod Entries
pub mod Browse
pub mod Recall
pub mod Valid
pub mod Log
pub mod Pieces
pub mod Number
pub mod Circle
use tek_nap.Common.{
  ◌>>=◌, Bool, true, false, not, ◌&&◌, ℕ, zero, suc, ◌+◌, ◌-◌, List, [], ◌∷◌, ◌==◌, if◌then◌else◌,
  Bytes, Option, none, some, ltb, length, take,
}
use tek_nap.Text.Search.{sindex}
use tek_nap.History.Entries.{Entry, Direction, History, drop_last, replace_last}

-- The end of `add_to_history_list`: a new entry becomes the head, at an address that is not in use.
unfoldable pub push : History → ℕ → Bytes → History
push h cnt stuff = record h {
  entries = record { address = h.fresh; number = cnt; stuff = stuff } ∷ h.entries;
  command_history_pos = none;
  fresh = h.fresh + 1;
}

-- `new = command_history_tail; … command_history_tail->next = NULL; …`
unfoldable pub free_tail : History → Option History
free_tail h = do
  rest ← drop_last h.entries
  elim rest [ [] ↦ none | e ∷ es ↦ some (record h { entries = e ∷ es }) ]

unfoldable pub is_empty : List Entry → Bool
is_empty [] = true
is_empty (e ∷ es) = false

-- `add_to_history_list (cnt, stuff)`, where the variable HISTORY has the value `limit`.
unfoldable pub add_to_history_list : (limit : ℕ) → History → ℕ → Bytes → Option History
add_to_history_list limit h cnt stuff =
    if limit == 0
    then some h
    else if h.hist_size == limit && not (is_empty h.entries)
    then (if h.hist_size == 1
        then (do es ← replace_last h.entries stuff; some (record h { entries = es }))
        else (do h' ← free_tail h; some (push h' cnt stuff)))
    else some (push (record h { hist_size = h.hist_size + 1 }) cnt stuff)

-- The loop of `set_history_size`, which frees entries from the tail on.
unfoldable pub free_entries : ℕ → List Entry → Option (List Entry)
free_entries zero es = some es
free_entries (suc cnt) es = do rest ← drop_last es; free_entries cnt rest

-- `set_history_size (win, unused, size)`
unfoldable pub set_history_size : History → ℕ → Option History
set_history_size h size =
    if ltb size h.hist_size
    then (do
      es ← free_entries (h.hist_size - size) h.entries
      some (record h { entries = es; hist_size = size }))
    else some h

-- One round of the loop of `add_to_history`: the line up to a newline is added.
unfoldable pub add_line : (limit : ℕ) → History → Bytes → Option History
add_line limit h line = do
  h' ← add_to_history_list limit h h.hist_count line
  some (record h' { last_dir = Direction.prev; hist_count = h'.hist_count + 1 })

-- `if ((ptr = sindex(line, "\n\r")) != NULL) *(ptr++) = '\0';`: the line, and the new value of `line`.
unfoldable pub split_line : Bytes → Option Bytes → Bytes × Bytes
split_line line none = (line, [])
split_line line (some []) = (line, [])
split_line line (some (c ∷ ptr)) = (take (length line - length (c ∷ ptr)) line, ptr)

abbrev pub newlines : Bytes
newlines = 10 ∷ 13 ∷ []

unfoldable pub add_to_history : ℕ → (limit : ℕ) → History → (line : Bytes) → Option History
add_to_history zero limit h line = none
add_to_history (suc fuel) limit h [] = some h
add_to_history (suc fuel) limit h (c ∷ line) = do
  h' ← add_line limit h (split_line (c ∷ line) (sindex (c ∷ line) newlines)).0
  add_to_history fuel limit h' (split_line (c ∷ line) (sindex (c ∷ line) newlines)).1
