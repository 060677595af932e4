-- ===== src/History/Recall.antt =====
-- source/history.c: the search in the command history and the HISTORY command. The lines that they
-- say to the user are left out, those of the listing are results.
use tek_nap.Common.{
  ◌>>=◌, ℕ, zero, suc, List, [], ◌∷◌, ◌++◌, ◌==◌, if◌then◌else◌, Bytes, Bool, false, not, Option,
  none, some, ltb,
}
use mathlib.Core.List.{reverse}
use tek_nap.Common.Int.{ℤ, pos, negsuc, pos_part, is_zero}
use tek_nap.Text.Case.{my_strnicmp}
use tek_nap.Text.Search.{in_group, isdigit, is_number}
use tek_nap.Text.Args.{next_arg}
use tek_nap.Text.Number.{my_atol, int_of_long}
use tek_nap.Wild.Sets.{Outcome, value, overrun, out_of_fuel, wild_match}
use tek_nap.History.Entries.{Entry, Direction, History, head_of}

-- The value of a match, which must come to an end inside of the pattern.
unfoldable pub matched : Outcome → Option ℕ
matched (value v) = some v
matched overrun = none
matched out_of_fuel = none

-- `while (ptr && strchr(cmdchars, *ptr)) ptr++;`: `strchr` finds the NUL at the end of the line too.
unfoldable pub skip_cmdchars : (cmdchars : Bytes) → Bytes → Option Bytes
skip_cmdchars cmdchars [] = none
skip_cmdchars cmdchars (c ∷ s) =
    let rest = skip_cmdchars cmdchars s in if in_group cmdchars c then rest else some (c ∷ s)

-- `*(match + strlen(match) - 1) == '*'`, a read in front of the string if it is empty.
unfoldable pub ends_in_star : Bytes → Option Bool
ends_in_star [] = none
ends_in_star (c ∷ []) = some (c == b'*')
ends_in_star (c ∷ d ∷ s) = ends_in_star (d ∷ s)

-- The loop of `history_match`: the first entry that matches.
unfoldable pub first_match :
    (fuel : ℕ) → (cmdchars match_str : Bytes) → List Entry → Option (Option Entry)
first_match fuel cmdchars match_str [] = some none
first_match fuel cmdchars match_str (e ∷ es) = do
  ptr ← skip_cmdchars cmdchars e.stuff
  v ← matched (wild_match fuel match_str ptr)
  if v == 0 then first_match fuel cmdchars match_str es else some (some e)

-- The entries behind an address.
unfoldable pub older_than : ℕ → List Entry → Option (List Entry)
older_than p [] = none
older_than p (e ∷ es) = let later = older_than p es in if e.address == p then some es else later

-- Where the search begins: at the head, or behind the entry that was found last.
unfoldable pub search_from : History → Option (List Entry)
search_from h = elim h.last_dir [
  | Direction.no_dir ↦ some h.entries
  | _ ↦ elim h.tmp [ none ↦ some h.entries | some p ↦ older_than p h.entries ]
]

unfoldable pub found_entry : History → Option Entry → History × Option Bytes
found_entry h none = (record h { tmp = none; last_dir = Direction.no_dir }, none)
found_entry h (some e) =
    (record h { tmp = some e.address; last_dir = Direction.prev }, some e.stuff)

unfoldable pub history_match :
    (fuel limit : ℕ) → (cmdchars : Bytes) → History → Bytes → Option (History × Option Bytes)
history_match fuel limit cmdchars h match = do
  star ← ends_in_star match
  let match_str = if star then match else match ++ b'*' ∷ []
  if limit == 0 then some (record h { last_dir = Direction.no_dir }, none) else (do
    es ← search_from h
    e ← first_match fuel cmdchars match_str es
    some (found_entry h e))

-- `m_s3cat_s(&ret, space, rest)`
unfoldable pub with_rest : Bytes → Bytes → Bytes
with_rest ret [] = ret
with_rest ret (c ∷ rest) = ret ++ 32 ∷ c ∷ rest

-- `tmp` at the end of a loop over the entries, and what the loop found.
unfoldable pub recalled : History → Bytes → List Entry → History × Option Bytes
recalled h rest [] = (record h { tmp = none }, none)
recalled h rest (e ∷ es) = (record h { tmp = some e.address }, some (with_rest e.stuff rest))

unfoldable pub from_number : ℕ → List Entry → List Entry
from_number n [] = []
from_number n (e ∷ es) = let later = from_number n es in if e.number == n then e ∷ es else later

unfoldable pub skip_entries : ℕ → List Entry → List Entry
skip_entries zero es = es
skip_entries (suc n) [] = []
skip_entries (suc n) (e ∷ es) = skip_entries n es

-- The branch on `hist_num`.
unfoldable pub recall_number : History → Bytes → ℤ → History × Option Bytes
recall_number h rest (pos zero) = recalled h rest h.entries
recall_number h rest (pos (suc n)) = recalled h rest (from_number (suc n) h.entries)
recall_number h rest (negsuc n) = recalled h rest (skip_entries n h.entries)

-- `com`, and `last_com` behind the first test.
unfoldable pub use_last_com : History → Bytes → History × Bytes
use_last_com h [] = elim h.last_com [ none ↦ (h, []) | some c ↦ (h, c) ]
use_last_com h (c ∷ command) = (record h { last_com = some (c ∷ command) }, c ∷ command)

unfoldable pub recall :
    (fuel limit : ℕ) → (cmdchars rest : Bytes) → History × Bytes → Option (History × Option Bytes)
recall fuel limit cmdchars rest (h, command) =
    if is_number command then some (recall_number h rest (int_of_long (my_atol command))) else (do
      (h', r) ← history_match fuel limit cmdchars h command
      elim r [ none ↦ some (h', none) | some s ↦ some (h', some (with_rest s rest)) ])

unfoldable pub do_history :
    (fuel limit : ℕ)
    → (cmdchars : Bytes) → History
    → (command rest : Bytes) → Option (History × Option Bytes)
do_history fuel limit cmdchars h command rest =
    recall fuel limit cmdchars rest (use_last_com h command)

-- The branch of the HISTORY command that frees the list.
unfoldable pub clear : History → History
clear h = record h {
  entries = [];
  tmp = none;
  hist_size = 0;
  hist_count = 0;
  command_history_pos = none;
}

-- The lines of the listing that match, from the tail on.
unfoldable pub list_matching : (fuel : ℕ) → (match : Bytes) → List Entry → Option (List (ℕ × Bytes))
list_matching fuel match [] = some []
list_matching fuel match (e ∷ es) = do
  v ← matched (wild_match fuel match e.stuff)
  more ← list_matching fuel match es
  some (if v == 0 then more else (e.number, e.stuff) ∷ more)

-- The first `max` lines of the listing.
unfoldable pub list_some : (max : ℕ) → List Entry → List (ℕ × Bytes)
list_some zero es = []
list_some (suc max) [] = []
list_some (suc max) (e ∷ es) = (e.number, e.stuff) ∷ list_some max es

-- `tmp` is where the loop has stopped.
unfoldable pub listing : (max : ℕ) → History → History × List (ℕ × Bytes)
listing max h = (
  record h { tmp = head_of (skip_entries max (reverse h.entries)) },
  list_some max (reverse h.entries),
)

unfoldable pub clear_flag : Bytes
clear_flag = b'-' ∷ b'C' ∷ b'L' ∷ b'E' ∷ b'A' ∷ b'R' ∷ []

unfoldable pub starts_with_digit : Bytes → Bool
starts_with_digit [] = false
starts_with_digit (c ∷ s) = isdigit c

-- What the command does with its first argument.
unfoldable pub history_arg :
    (fuel limit : ℕ) → History → Option Bytes → Option (History × List (ℕ × Bytes))
history_arg fuel limit h none = some (listing limit h)
history_arg fuel limit h (some arg) =
    if not (is_zero (my_strnicmp arg clear_flag 3))
    then some (clear h, [])
    else if starts_with_digit arg
    then some (
        let max = pos_part (int_of_long (my_atol arg)) in
        listing (if ltb limit max then limit else max) h)
    else (do out ← list_matching fuel arg (reverse h.entries); some (record h { tmp = none }, out))

-- The command HISTORY.
unfoldable pub history :
    (fuel limit : ℕ) → History → (args : Bytes) → Option (History × List (ℕ × Bytes))
history fuel limit h args =
    if limit == 0 then some (h, []) else history_arg fuel limit h (next_arg args).word
