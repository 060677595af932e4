-- ===== src/History/Entries.antt =====
-- The entries of the command history of source/history.c and the pointers between them.
use tek_nap.Common.{◌>>=◌, ℕ, List, [], ◌∷◌, ◌==◌, if◌then◌else◌, Bytes, Option, none, some}

-- `History`, and the address where it lies.
pub record Entry : Type 0 where
  pub address : ℕ
  pub number : ℕ
  pub stuff : Bytes

-- The values of `last_dir`: -1, NEXT and PREV.
pub data Direction : Type 0 where
  no_dir next prev : Direction

-- The static variables, with `last_com` of `do_history`. `tmp` and `command_history_pos` are addresses of entries or null pointers;
-- `fresh` is above every address that was given out.
pub record History : Type 0 where
  pub entries : List Entry
  pub command_history_pos : Option ℕ
  pub hist_size : ℕ
  pub hist_count : ℕ
  pub last_dir : Direction
  pub tmp : Option ℕ
  pub fresh : ℕ
  pub last_com : Option Bytes

-- The entries without the tail, which must be there.
unfoldable pub drop_last : List Entry → Option (List Entry)
drop_last [] = none
drop_last (e ∷ []) = some []
drop_last (e ∷ f ∷ es) = do rest ← drop_last (f ∷ es); some (e ∷ rest)

-- `malloc_strcpy (&command_history_tail->stuff, stuff)`
unfoldable pub replace_last : List Entry → Bytes → Option (List Entry)
replace_last [] stuff = none
replace_last (e ∷ []) stuff = some (record e { stuff = stuff } ∷ [])
replace_last (e ∷ f ∷ es) stuff = do rest ← replace_last (f ∷ es) stuff; some (e ∷ rest)

-- `command_history_head`
unfoldable pub head_of : List Entry → Option ℕ
head_of [] = none
head_of (e ∷ es) = some e.address

-- `command_history_tail`
unfoldable pub tail_of : List Entry → Option ℕ
tail_of [] = none
tail_of (e ∷ []) = some e.address
tail_of (e ∷ f ∷ es) = tail_of (f ∷ es)

-- The entry at an address.
unfoldable pub entry_at : List Entry → ℕ → Option Entry
entry_at [] p = none
entry_at (e ∷ es) p = let later = entry_at es p in if e.address == p then some e else later

-- `p->next`, the older entry
unfoldable pub next_of : List Entry → ℕ → Option (Option ℕ)
next_of [] p = none
next_of (e ∷ es) p = let later = next_of es p in if e.address == p then some (head_of es) else later

-- `p->prev`, where `before` is the entry in front of the list
unfoldable pub prev_of : Option ℕ → List Entry → ℕ → Option (Option ℕ)
prev_of before [] p = none
prev_of before (e ∷ es) p =
    let later = prev_of (some e.address) es p in if e.address == p then some before else later
