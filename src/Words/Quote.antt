-- ===== src/Words/Quote.antt =====
-- source/ircaux.c: `find_forward_quote` and `find_backward_quote`.
use tek_nap.Common.{
  ◌>>=◌, ℕ, zero, suc, ◌+◌, ◌-◌, [], ◌∷◌, Bytes, not, ◌&&◌, ◌||◌, ◌==◌, if◌then◌else◌, ltb, get_or,
  drop, Option, none, some,
}
use tek_nap.Text.Search.{risspace}

-- The byte at an offset into the string, or the NUL behind the last one.
abbrev pub byte : Bytes → ℕ → ℕ
byte s p = get_or s p 0

-- How far the loop goes, from the byte behind the quote on.
unfoldable pub quote_end : Bytes → ℕ
quote_end [] = 0
quote_end (c ∷ []) = if c == b'"' then 0 else 1
quote_end (c ∷ d ∷ s) =
    let escaped = quote_end s in
    let plain = quote_end (d ∷ s) in
    if c == 92 then 2 + escaped else if c == b'"' && risspace d then 0 else 1 + plain

-- `none` is the null pointer.
unfoldable pub find_forward_quote : Bytes → (input : ℕ) → Option ℕ
find_forward_quote s p =
    if not (byte s p == b'"')
    then none
    else if ltb 0 p && not (risspace (byte s (p - 1)))
    then none
    else some (p + 1 + quote_end (drop (p + 1) s))

-- `for (input--; input > start; input--)`: the quote that is found, if there is one. Behind the
-- step at a backslash the loop is where it was.
unfoldable pub back_to_quote : ℕ → Bytes → (input : ℕ) → Option (Option ℕ)
back_to_quote zero s i = none
back_to_quote (suc fuel) s i =
    if i == 0
    then some none
    else if byte s i == 92 && not (byte s (i + 1) == 0)
    then back_to_quote fuel s i
    else if byte s i == b'"' && (byte s (i + 1) == 0 || risspace (byte s (i + 1)))
    then some (some i)
    else back_to_quote fuel s (i - 1)

-- `while (input > start && !risspace (input[0])) input--;`
unfoldable pub back_solid : Bytes → (input : ℕ) → ℕ
back_solid s zero = 0
back_solid s (suc i) =
    let less = back_solid s i in if risspace (byte s (suc i)) then suc i else less

-- Where no quote was found, the start of the word.
unfoldable pub word_start : Bytes → (input : ℕ) → ℕ
word_start s p = let i = back_solid s p in if risspace (byte s i) then i + 1 else i

-- The outer `none` is a loop that does not end, the inner one the null pointer.
unfoldable pub find_backward_quote : ℕ → Bytes → (input : ℕ) → Option (Option ℕ)
find_backward_quote fuel s p =
    if not (byte s p == b'"')
    then some none
    else if not (byte s (p + 1) == 0) && not (risspace (byte s (p + 1)))
    then some none
    else do
      found ← back_to_quote fuel s (p - 1)
      elim found [ none ↦ some (some (word_start s p)) | some i ↦ some (some i) ]
