-- ===== src/Words/Marks.antt =====
-- source/words.c: `search`, with `rsindex` of source/ircaux.c. A pointer is an offset into the string;
-- `none` is the null pointer.
use tek_nap.Common.{
  ◌>>=◌, ℕ, zero, suc, ◌+◌, ◌-◌, [], ◌∷◌, Bytes, Bool, not, ◌||◌, ◌==◌, if◌then◌else◌, length, drop,
  Option, none, some,
}
use tek_nap.Common.Int.{ℤ, pos, negsuc}
use tek_nap.Text.Search.{sindex, in_group}
use tek_nap.Words.Quote.{byte}

-- `strchr (group, c)`, which finds the NUL behind the group too.
unfoldable pub strchr : Bytes → ℕ → Bool
strchr group c = c == 0 || in_group group c

-- `for (ptr = string; ptr >= start && howmany; ptr--)`, with the pointer plus one.
unfoldable pub back_find : (ℕ → Bool) → Bytes → (ptr howmany : ℕ) → Option ℕ
back_find test s zero n = none
back_find test s (suc p) n =
    let fewer = back_find test s p (n - 1) in
    let same = back_find test s p n in
    if test (byte s p) then (if n == 1 then some p else fewer) else same

unfoldable pub rsindex : Bytes → (string : ℕ) → (group : Bytes) → (howmany : ℕ) → Option ℕ
rsindex s p group zero = none
rsindex s p [] (suc n) = back_find (strchr []) s (suc p) (suc n)
rsindex s p (g ∷ group) (suc n) =
    if g == b'^'
    then back_find (λ c. not (strchr group c)) s (suc p) (suc n)
    else back_find (strchr (g ∷ group)) s (suc p) (suc n)

-- `sindex` from an offset on.
unfoldable pub sindex_at : Bytes → ℕ → Bytes → Option ℕ
sindex_at s p chars = do rest ← sindex (drop p s) chars; some (length s - length rest)

-- `for (; (how > 0) && *mark && **mark; how--)`
unfoldable pub search_on : Bytes → (chars : Bytes) → (how : ℕ) → (mark : Option ℕ) → Option ℕ
search_on s chars zero mark = mark
search_on s chars (suc n) none = none
search_on s chars (suc n) (some p) =
    if byte s p == 0 then some p else search_on s chars n (sindex_at s (p + 1) chars)

-- `if (!*mark) *mark = start;`
abbrev pub or_start : Option ℕ → ℕ
or_start none = 0
or_start (some p) = p

-- The result, and the new value of the mark.
unfoldable pub search_from_mark :
    Bytes → (mark : ℕ) → (chars : Bytes) → (how : ℤ) → Option ℕ × Option ℕ
search_from_mark s p chars (pos zero) = (none, some p)
search_from_mark s p chars (pos (suc n)) =
    let found = search_on s chars n (sindex_at s p chars) in (found, found)
search_from_mark s p chars (negsuc n) = let found = rsindex s p chars (n + 1) in (found, found)

unfoldable pub search_mark :
    Bytes → (mark : Option ℕ) → (chars : Bytes) → (how : ℤ) → Option ℕ × Option ℕ
search_mark start mark chars how = search_from_mark start (or_start mark) chars how
