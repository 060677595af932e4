-- ===== src/Words.antt =====
-- source/words.c, with the searches for quotes and `rsindex` of source/ircaux.c. A pointer into a
-- string is its offset; where one may stand in front of the string it is kept plus one.
pub mod Quote
pub mod Lines
pub mod Move
pub mod Extract
pub mod Hang
pub mod Marks
use tek_nap.Common.{
  ◌>>=◌, ℕ, zero, suc, ◌+◌, ◌-◌, List, [], ◌∷◌, Bytes, Bool, true, false, not, ◌&&◌, ◌||◌, ◌==◌,
  if◌then◌else◌, ltb, leb, length, get_or, take, drop, Option, none, some,
}
use tek_nap.Common.Int.{ℤ, pos, negsuc, pos_part}
use tek_nap.Text.Search.{my_isspace, sindex, in_group, remove_trailing_spaces}
use tek_nap.Words.Quote.{byte, find_forward_quote, find_backward_quote}

-- How many of the bytes in front pass the test: `while (*pointer && …) pointer++;`.
unfoldable pub ahead : (ℕ → Bool) → Bytes → ℕ
ahead test [] = 0
ahead test (c ∷ s) = let more = ahead test s in if test c then 1 + more else 0

-- `while (*pointer && my_isspace (*pointer)) pointer++;`
unfoldable pub skip_blank : Bytes → ℕ → ℕ
unfolding ahead
skip_blank s p = p + ahead my_isspace (drop p s)

-- `while (*pointer && !my_isspace (*pointer)) pointer++;`
unfoldable pub skip_solid : Bytes → ℕ → ℕ
unfolding ahead
skip_solid s p = p + ahead (λ c. not (my_isspace c)) (drop p s)

-- `while (mark > start && my_isspace (mark[-1])) mark--;`
unfoldable pub back_blank : Bytes → ℕ → ℕ
back_blank s zero = 0
back_blank s (suc p) = let less = back_blank s p in if my_isspace (byte s p) then less else suc p

-- Where `find_forward_quote` returns null the program stops with a panic.
unfoldable pub past_quote : Bytes → ℕ → Option ℕ
past_quote s p = do
  after ← find_forward_quote s p
  some (if byte s after == 0 then after else after + 1)

-- The step over a word, quoted words in one piece if `extended`.
unfoldable pub past_one : (extended : Bool) → Bytes → ℕ → Option ℕ
past_one extended s p =
    if extended && byte s p == b'"' then past_quote s p else some (skip_solid s p)

-- `for (; counter > 0 && *pointer; counter--)`
unfoldable pub abs_words : (extended : Bool) → Bytes → (counter : ℕ) → (pointer : ℕ) → Option ℕ
abs_words extended s zero p = some p
abs_words extended s (suc n) p =
    if byte s p == 0
    then some p
    else do q ← past_one extended s p; abs_words extended s n (skip_blank s q)

unfoldable pub real_move_to_abs_word : (extended : Bool) → Bytes → (word : ℤ) → Option ℕ
real_move_to_abs_word extended s word = abs_words extended s (pos_part word) (skip_blank s 0)

-- The loop of `move_word_rel` for a positive number.
unfoldable pub rel_forward : (extended : Bool) → Bytes → (counter : ℕ) → (pointer : ℕ) → Option ℕ
rel_forward extended s zero p = some p
rel_forward extended s (suc n) p = do
  q ← past_one extended s p
  rel_forward extended s n (skip_blank s q)

-- `while (pointer >= start && !my_isspace (*pointer)) pointer--;`, with pointers plus one.
unfoldable pub back_word : Bytes → ℕ → ℕ
back_word s zero = 0
back_word s (suc p) = let less = back_word s p in if my_isspace (byte s p) then suc p else less

-- `while (pointer > start && my_isspace (*pointer)) pointer--;`, with pointers plus one.
unfoldable pub back_gap : Bytes → ℕ → ℕ
back_gap s zero = 0
back_gap s (suc zero) = 1
back_gap s (suc (suc p)) =
    let less = back_gap s (suc p) in if my_isspace (byte s (suc p)) then less else suc (suc p)

-- `if (before > start) before--; pointer = before;`, with the pointer plus one as the result.
abbrev pub before_quote : Option ℕ → Option ℕ
before_quote none = none
before_quote (some zero) = some 1
before_quote (some (suc b)) = some (suc b)

-- The step back over a word from the pointer `p`; the result is a pointer plus one.
unfoldable pub back_one : ℕ → (extended : Bool) → Bytes → (p : ℕ) → Option ℕ
back_one fuel extended s p =
    if extended && byte s p == b'"'
    then (do before ← find_backward_quote fuel s p; before_quote before)
    else some (back_word s (suc p))

-- `for (; counter < 0 && pointer > start; counter++)`, with pointers plus one.
unfoldable pub rel_back : ℕ → (extended : Bool) → Bytes → (counter : ℕ) → (pointer : ℕ) → Option ℕ
rel_back fuel extended s zero p = some p
rel_back fuel extended s (suc n) p =
    if ltb 1 p
    then (do q ← back_one fuel extended s (p - 1); rel_back fuel extended s n (back_gap s q))
    else some p

-- `move_word_rel`; the `pointer++` behind the loop back makes the pointer plus one the result.
unfoldable pub move_word_rel : ℕ → (extended : Bool) → Bytes → (mark : ℕ) → (word : ℤ) → Option ℕ
move_word_rel fuel extended [] mark word = some 0
move_word_rel fuel extended (c ∷ s) mark (pos n) = rel_forward extended (c ∷ s) n mark
move_word_rel fuel extended (c ∷ s) mark (negsuc n) =
    rel_back fuel extended (c ∷ s) (suc n) (suc mark)

-- The bytes from one pointer to another.
unfoldable pub strext : Bytes → (from to : ℕ) → Bytes
strext s from to = take (to - from) (drop from s)

abbrev pub eos : ℤ
eos = pos 32767

abbrev pub sos : ℤ
sos = negsuc 32766

unfoldable pub same_int : ℤ → ℤ → Bool
same_int (pos m) (pos n) = m == n
same_int (pos m) (negsuc n) = false
same_int (negsuc m) (pos n) = false
same_int (negsuc m) (negsuc n) = m == n

-- `x > y`
unfoldable pub above : ℤ → ℤ → Bool
above (pos m) (pos n) = ltb n m
above (pos m) (negsuc n) = true
above (negsuc m) (pos n) = false
above (negsuc m) (negsuc n) = ltb m n

-- The end of the last word, for a `lastword` that is not `EOS`.
unfoldable pub last_mark : ℕ → (extended : Bool) → Bytes → (lastword : ℤ) → Option ℕ
last_mark fuel extended s (pos n) = do
  q ← real_move_to_abs_word extended s (pos (n + 1))
  some (back_blank s q)
last_mark fuel extended s (negsuc n) = do
  q ← move_word_rel fuel extended s (length s) (negsuc n)
  some (back_blank s q)

-- `if (mark2 < mark) … else booya = strext (mark, mark2);`
abbrev pub between : Bytes → (mark mark2 : ℕ) → Bytes
between s mark mark2 = if ltb mark2 mark then [] else strext s mark mark2

-- The spaces in front of the first word come along with a range of words.
unfoldable pub widen : Bytes → (firstword lastword : ℤ) → (mark : ℕ) → ℕ
widen s firstword lastword mark =
    if same_int lastword eos || above lastword firstword
    then (let m = back_blank s mark in if ltb 0 m then m + 1 else m)
    else mark

-- The part of `real_extract2` behind the first mark.
unfoldable pub extract_from :
    ℕ → (extended : Bool) → Bytes → (firstword lastword : ℤ) → (mark : ℕ) → Option Bytes
extract_from fuel extended s firstword lastword mark = do
  let from = widen s firstword lastword mark
  mark2 ← if same_int lastword eos then some (length s) else last_mark fuel extended s lastword
  some (between s from mark2)

-- The branches for a `firstword` that is neither `EOS` nor `SOS`.
unfoldable pub extract_word :
    ℕ → (extended : Bool) → Bytes → (firstword lastword : ℤ) → Option Bytes
extract_word fuel extended s (pos n) lastword = do
  mark ← real_move_to_abs_word extended s (pos n)
  if byte s mark == 0 then some [] else extract_from fuel extended s (pos n) lastword mark
extract_word fuel extended s (negsuc n) lastword = do
  mark ← move_word_rel fuel extended s (length s) (negsuc n)
  extract_from fuel extended s (negsuc n) lastword mark

unfoldable pub real_extract2 :
    ℕ → Bytes → (firstword lastword : ℤ) → (extended : Bool) → Option Bytes
real_extract2 fuel s firstword lastword extended =
    if same_int firstword eos
    then (do mark ← move_word_rel fuel extended s (length s) (negsuc 0); some (drop mark s))
    else if same_int firstword sos
    then extract_from fuel extended s firstword lastword 0
    else extract_word fuel extended s firstword lastword

-- The first mark of `real_extract`.
unfoldable pub first_mark : ℕ → (extended : Bool) → Bytes → (firstword : ℤ) → Option ℕ
first_mark fuel extended s (negsuc n) = some 0
first_mark fuel extended s (pos n) =
    if same_int (pos n) eos
    then move_word_rel fuel extended s (length s) (negsuc 0)
    else real_move_to_abs_word extended s (pos n)

-- The second mark, for a `lastword` from zero on.
unfoldable pub second_mark : ℕ → (extended : Bool) → Bytes → (lastword : ℕ) → Option ℕ
second_mark fuel extended s n =
    if same_int (pos n) eos then some (length s) else last_mark fuel extended s (pos n)

-- The part of `real_extract` behind the removal of spaces.
unfoldable pub extract_plain :
    ℕ → (extended : Bool) → Bytes → (firstword lastword : ℤ) → Option Bytes
extract_plain fuel extended s firstword (negsuc n) = do
  mark ← first_mark fuel extended s firstword
  some []
extract_plain fuel extended s firstword (pos n) = do
  mark ← first_mark fuel extended s firstword
  mark2 ← second_mark fuel extended s n
  some (if ltb n (pos_part firstword) then [] else between s mark mark2)

unfoldable pub real_extract :
    ℕ → Bytes → (firstword lastword : ℤ) → (extended : Bool) → Option Bytes
real_extract fuel start firstword lastword extended =
    extract_plain fuel extended (remove_trailing_spaces (drop (skip_blank start 0) start)) firstword
      lastword
