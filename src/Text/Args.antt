-- ===== src/Text/Args.antt =====
-- source/ircaux.c: the routines that take the next word off a line.
pub mod Next
pub mod Parts
use tek_nap.Common.{
  ℕ, zero, suc, ◌+◌, ◌-◌, ◌<◌, ◌≤◌, List, [], ◌∷◌, ◌++◌, ◌==◌, if◌then◌else◌, Bytes, All, ◌≡◌, ◌≢◌,
  refl, Bool, true, false, not, ◌&&◌, ◌||◌, Option, none, some, arith, leb, length, take,
}
use tek_nap.Text.Search.{sindex, risspace}

-- What a routine such as `next_arg (s, &s)` leaves: its result, and the new value of `s`.
pub record Taken : Type 0 where
  pub word : Option Bytes
  pub rest : Bytes

abbrev pub blank : Bytes
blank = 32 ∷ []

-- What stands before the place where a NUL is written: `here` points into `s`.
before : Bytes → Bytes → Bytes
before s here = take (length s - length here) s

-- `if ((str = sindex(ptr, space)) != NULL) *str++ = 0; else str = empty_string;`
cut_at : Bytes → Option Bytes → Taken
cut_at ptr none = record { word = some ptr; rest = [] }
cut_at ptr (some []) = record { word = some ptr; rest = [] }
cut_at ptr (some (c ∷ str)) = record { word = some (before ptr (c ∷ str)); rest = str }

cut_word : Option Bytes → Taken
cut_word none = record { word = none; rest = [] }
cut_word (some ptr) = cut_at ptr (sindex ptr blank)

-- `next_arg (str, &str)`
unfoldable pub next_arg : Bytes → Taken
unfolding cut_word cut_at before
next_arg [] = record { word = none; rest = [] }
next_arg (c ∷ s) = cut_word (sindex (c ∷ s) (b'^' ∷ blank))

-- `while (*ptr && risspace(*ptr)) ptr++;`
unfoldable pub skip_spaces : Bytes → Bytes
skip_spaces [] = []
skip_spaces (c ∷ s) = let rest = skip_spaces s in if risspace c then rest else c ∷ s

-- The characters of a regular word, and what follows them.
unfoldable pub span_word : Bytes → Bytes × Bytes
span_word [] = ([], [])
span_word (c ∷ s) =
    let more = span_word s in if risspace c then ([], c ∷ s) else (c ∷ more.0, more.1)

-- `if (risspace(*str)) str++;`
skip_one : Bytes → Bytes
skip_one [] = []
skip_one (c ∷ s) = if risspace c then s else c ∷ s

-- The loop over a quoted word: its characters, and what follows the closing quote, if there is one.
-- A backslash keeps the character behind it from being a closing quote, and both stay in the word.
unfoldable pub span_quoted : Bytes → Bytes × Bytes
unfolding skip_one
span_quoted [] = ([], [])
span_quoted (c ∷ []) = if c == b'"' then ([], []) else (c ∷ [], [])
span_quoted (c ∷ d ∷ s) =
    let escaped = span_quoted s in
    let plain = span_quoted (d ∷ s) in
    if c == 92
    then (c ∷ d ∷ escaped.0, escaped.1)
    else if c == b'"'
    then ([], skip_one (d ∷ s))
    else (c ∷ plain.0, plain.1)

-- The step over the blank that ends a regular word.
past_word : Bytes × Bytes → Taken
past_word (word, []) = record { word = some word; rest = [] }
past_word (word, c ∷ s) = record { word = some word; rest = s }

from_quoted : Bytes × Bytes → Taken
from_quoted (word, rest) = record { word = some word; rest = rest }

-- The branches on the first character that is no space.
take_arg : (str : Bytes) → Bytes → Taken
take_arg str [] = record { word = some []; rest = str }
take_arg str (c ∷ s) =
    if c == b'"' then from_quoted (span_quoted s) else past_word (span_word (c ∷ s))

-- `new_next_arg (str, &str)`. Where nothing but spaces is left the pointer `str` has not moved.
unfoldable pub new_next_arg : Bytes → Taken
unfolding take_arg from_quoted past_word skip_spaces span_word span_quoted
new_next_arg [] = record { word = none; rest = [] }
new_next_arg (c ∷ s) = take_arg (c ∷ s) (skip_spaces (c ∷ s))
