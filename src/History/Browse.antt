-- ===== src/History/Browse.antt =====
-- source/history.c: walking through the command history with two keys.
use tek_nap.Common.{
  ◌>>=◌, ℕ, suc, [], ◌∷◌, ◌==◌, if◌then◌else◌, Bytes, Bool, true, false, ◌||◌, Option, none, some,
  length,
}
use tek_nap.History.Entries.{History, head_of, tail_of, entry_at, next_of, prev_of}
use tek_nap.History.{add_to_history}

abbrev pub at_pos : History → Option ℕ → History
at_pos h p = record h { command_history_pos = p }

-- `get_input ()` is added to the history as one line or more.
abbrev pub add_input : (limit : ℕ) → History → Bytes → Option History
add_input limit h input = add_to_history (suc (length input)) limit h input

-- `which == NEXT`
unfoldable pub go_next : (limit : ℕ) → (circleq : Bool) → (input : Bytes) → History → Option History
go_next limit circleq input h = elim h.command_history_pos [
  | some p ↦ do
    newer ← prev_of none h.entries p
    elim newer [
      | some q ↦ some (at_pos h (some q))
      | none ↦ some (at_pos h (if circleq then tail_of h.entries else none))
    ]
  | none ↦
      if circleq
      then (do h' ← add_input limit h input; some (at_pos h' (tail_of h'.entries)))
      else some h
]

-- `if (command_history_pos->next) command_history_pos = command_history_pos->next;` from the head on
unfoldable pub past_head : History → Option History
past_head h = elim (head_of h.entries) [
  | none ↦ none
  | some p ↦ do
    older ← next_of h.entries p
    some (at_pos h (elim older [ none ↦ some p | some q ↦ some q ]))
]

unfoldable pub is_nil : Bytes → Bool
is_nil [] = true
is_nil (c ∷ s) = false

-- `which == PREV`
unfoldable pub go_prev : (limit : ℕ) → (circleq : Bool) → (input : Bytes) → History → Option History
go_prev limit circleq input h = elim h.command_history_pos [
  | some p ↦ do
    older ← next_of h.entries p
    elim older [
      | some q ↦ some (at_pos h (some q))
      | none ↦ some (if circleq then at_pos h (head_of h.entries) else h)
    ]
  | none ↦
      if is_nil input
      then some (at_pos h (head_of h.entries))
      else (do h' ← add_input limit h input; past_head h')
]

-- `command_history_pos ? command_history_pos->stuff : NULL`
unfoldable pub stuff_at : History → Option (History × Option Bytes)
stuff_at h = elim h.command_history_pos [
  | none ↦ some (h, none)
  | some p ↦ do e ← entry_at h.entries p; some (h, some e.stuff)
]

-- `get_from_history_buffer (which)`, where `newer` is whether `which` is NEXT.
unfoldable pub get_from_history_buffer :
    (limit : ℕ)
    → (circleq : Bool) → (input : Bytes) → (newer : Bool) → History
    → Option (History × Option Bytes)
get_from_history_buffer limit circleq input newer h =
    if limit == 0 || h.hist_size == 0 then some (h, none) else (do
      h' ← (if newer then go_next limit circleq input h else go_prev limit circleq input h)
      stuff_at h')
