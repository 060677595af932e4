-- ===== src/Wild/Sets.antt =====
-- source/reg.c: `wild_match`, which expands the sets of alternatives `\[one two\]` of a pattern and
-- tries each with `new_match`.
pub mod Expand
pub mod Hang
use tek_nap.Common.{
  ℕ, zero, suc, ◌+◌, ◌-◌, List, [], ◌∷◌, ◌++◌, ◌==◌, if◌then◌else◌, Bytes, Bool, true, false, ◌&&◌,
  Option, none, some, ltb, length, take,
}
use tek_nap.Text.Args.{Taken, new_next_arg}
use tek_nap.Wild.{new_match, backslash, deref, step_on}

-- How a call ends: with a value, by a read behind the end of the string, or not within the fuel.
pub data Outcome : Type 0 where
  value : ℕ → Outcome
  overrun : Outcome
  out_of_fuel : Outcome

abbrev pub set_open : ℕ
set_open = b'['

abbrev pub set_close : ℕ
set_close = b']'

-- `strstr (p, "\\[")`: what stands before the mark, and the rest of the pattern from it on.
unfoldable pub find_set : Bytes → Option (Bytes × Bytes)
find_set [] = none
find_set (c ∷ p) =
    let later : Option (Bytes × Bytes) = elim (find_set p) [
      | none ↦ none
      | some (b, r) ↦ some (c ∷ b, r)
    ] in
    if c == backslash && deref p == set_open then some ([], c ∷ p) else later

-- `strchr (ptr2, '\\')`: what stands before the backslash, and the rest from it on.
unfoldable pub find_backslash : Bytes → Option (Bytes × Bytes)
find_backslash [] = none
find_backslash (c ∷ p) =
    let later : Option (Bytes × Bytes) = elim (find_backslash p) [
      | none ↦ none
      | some (b, r) ↦ some (c ∷ b, r)
    ] in
    if c == backslash then some ([], c ∷ p) else later

-- What the search for the matching `\]` finds: the text inside of the set and the text behind it,
-- no closing mark, or a read behind the end.
pub data Closing : Type 0 where
  found : (inside behind : Bytes) → Closing
  missing : Closing
  past_end : Closing

unfoldable pub prepend : Bytes → Closing → Closing
prepend b (found inside behind) = found (b ++ inside) behind
prepend b missing = missing
prepend b past_end = past_end

-- The nesting after a mark.
unfoldable pub nesting : ℕ → ℕ → ℕ
nesting c nest = if c == set_open then nest + 1 else if c == set_close then nest - 1 else nest

-- The `do` loop, at a backslash; each round reads two bytes at least. The byte behind the backslash
-- is given apart: where it is the NUL, `ptr + 2` points behind the end of the string.
unfoldable pub close_set : ℕ → Bytes → ℕ → Closing
close_set zero p nest = missing
close_set (suc fuel) [] nest = missing
close_set (suc fuel) (b ∷ []) nest = past_end
close_set (suc fuel) (b ∷ c ∷ p) nest = elim (nesting c nest == 0) [
  | true ↦ found [] p
  | false ↦ elim (find_backslash p) [
    | none ↦ missing
    | some (before, rest) ↦ prepend (b ∷ c ∷ before) (close_set fuel rest (nesting c nest))
  ]
]

abbrev pub big_buffer_size : ℕ
big_buffer_size = 2048

-- `strlcat (buffer, s, BIG_BUFFER_SIZE)`: the buffer keeps one byte less than its size.
unfoldable pub strlcat : Bytes → Bytes → Bytes
strlcat buffer s = take (big_buffer_size - 1) (buffer ++ s)

-- What follows a call that comes to a value.
abbrev pub after : Outcome → (ℕ → Outcome) → Outcome
after (value v) next = next v
after overrun next = overrun
after out_of_fuel next = out_of_fuel

-- The loop over the alternatives, which keeps the best value: one round, given the next word, and
-- what goes on with the rest of the words.
unfoldable pub best_round :
    (Bytes → Outcome) → (Bytes → ℕ → Outcome) → (pattern ptr : Bytes) → Taken → ℕ → Outcome
best_round match again pattern ptr taken best_total = elim taken.word [
  | none ↦ value best_total
  | some arg ↦
      after (match (strlcat (strlcat (strlcat [] pattern) arg) ptr))
        (λ tmpval. again taken.rest (if ltb best_total tmpval then tmpval else best_total))
]

unfoldable pub best_of :
    (Bytes → Outcome) → ℕ → (pattern ptr : Bytes) → (placeholder : Bytes) → ℕ → Outcome
unfolding best_round
best_of match zero pattern ptr placeholder best_total = out_of_fuel
best_of match (suc fuel) pattern ptr placeholder best_total =
    best_round match (best_of match fuel pattern ptr) pattern ptr (new_next_arg placeholder)
      best_total

-- The alternatives of a set that is closed; `drop_mark` steps over `\[`.
unfoldable pub expand : (Bytes → Outcome) → ℕ → (p str pattern : Bytes) → Closing → Outcome
expand match fuel p str pattern (found inside behind) =
    best_of match fuel pattern behind (step_on (step_on inside)) 0
expand match fuel p str pattern missing = value (new_match p str)
expand match fuel p str pattern past_end = overrun

unfoldable pub wild_match : ℕ → (p str : Bytes) → Outcome
wild_match zero p str = out_of_fuel
wild_match (suc fuel) p str = elim (find_set p) [
  | none ↦ value (new_match p str)
  | some (pattern, rest) ↦
      expand (λ q. wild_match fuel q str) fuel p str pattern (close_set (length rest) rest 0)
]
