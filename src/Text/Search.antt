-- ===== src/Text/Search.antt =====
-- source/ircaux.c: `sindex`, the tests of one byte, and the trimming of a string's end.
pub mod Trim
use tek_nap.Common.{
  ℕ, [], ◌∷◌, ◌==◌, if◌then◌else◌, Bytes, Bool, true, false, ◌&&◌, ◌||◌, Option, none, some, leb,
}

-- The inner loop of `sindex`: whether the byte stands in the group.
unfoldable pub in_group : Bytes → ℕ → Bool
in_group [] c = false
in_group (g ∷ group) c = g == c || in_group group c

-- `sindex` with a group that begins with `^`: the first byte outside of the group.
unfoldable pub first_outside : Bytes → Bytes → Option Bytes
first_outside [] group = none
first_outside (c ∷ s) group =
    let rest = first_outside s group in if in_group group c then rest else some (c ∷ s)

unfoldable pub first_inside : Bytes → Bytes → Option Bytes
first_inside [] group = none
first_inside (c ∷ s) group =
    let rest = first_inside s group in if in_group group c then some (c ∷ s) else rest

-- A pointer to the found byte is the rest of the string from there on; `none` is a null pointer.
unfoldable pub sindex : Bytes → Bytes → Option Bytes
sindex s [] = first_inside s []
sindex s (g ∷ group) = if g == b'^' then first_outside s group else first_inside s (g ∷ group)

-- The macro `my_isspace`.
unfoldable pub my_isspace : ℕ → Bool
my_isspace c = c == 9 || (c == 10 || (c == 11 || (c == 12 || (c == 13 || c == 32))))

-- The macro `risspace`.
unfoldable pub risspace : ℕ → Bool
risspace c = c == 32

-- `isdigit` of the standard library.
unfoldable pub isdigit : ℕ → Bool
isdigit c = leb b'0' c && leb c b'9'

all_digits : Bytes → Bool
all_digits [] = true
all_digits (c ∷ s) = isdigit c && all_digits s

-- `while (*str == ' ') str++`
unfoldable pub skip_blanks : Bytes → Bytes
skip_blanks [] = []
skip_blanks (c ∷ s) = let rest = skip_blanks s in if c == 32 then rest else c ∷ s

-- `if (*str == '-' || *str == '+') str++`
skip_sign : Bytes → Bytes
skip_sign [] = []
skip_sign (c ∷ s) = if c == b'-' || c == b'+' then s else c ∷ s

-- The last test of `is_number`: some digits and nothing else.
only_digits : Bytes → Bool
only_digits [] = false
only_digits (c ∷ s) = all_digits (c ∷ s)

unfoldable pub is_number : Bytes → Bool
unfolding skip_blanks skip_sign only_digits all_digits isdigit
is_number [] = false
is_number (c ∷ s) = only_digits (skip_sign (skip_blanks (c ∷ s)))

-- The rest of the string behind the first byte, cut off at the last byte that is no space.
unfoldable pub trim_tail : Bytes → Bytes
trim_tail [] = []
trim_tail (c ∷ s) = elim (trim_tail s) [
  | [] ↦ if my_isspace c then [] else c ∷ []
  | d ∷ r ↦ c ∷ d ∷ r
]

-- `remove_trailing_spaces`: the walk back stops at the first byte, which is never removed.
unfoldable pub remove_trailing_spaces : Bytes → Bytes
unfolding trim_tail
remove_trailing_spaces [] = []
remove_trailing_spaces (c ∷ s) = c ∷ trim_tail s
