-- ===== src/Tests/Lines.antt =====
-- source/words.c at concrete lines.
use tek_nap.Common.{
  ℕ, zero, suc, ◌<◌, [], ◌∷◌, Bytes, codes, true, false, some, none, ◌≡◌, refl, arith, inr,
}
use tek_nap.Common.Int.{pos, negsuc}
use tek_nap.Text.Search.{my_isspace, risspace, trim_tail, remove_trailing_spaces}
use tek_nap.Words.Quote.{find_forward_quote, quote_end, find_backward_quote}
use tek_nap.Words.{
  ahead, skip_blank, skip_solid, back_blank, past_quote, past_one, abs_words, real_move_to_abs_word,
  back_word, back_gap, back_one, rel_back, move_word_rel, strext, same_int, above, last_mark, widen,
  extract_from, extract_word, real_extract2, first_mark, second_mark, extract_plain, real_extract,
  eos,
}
use tek_nap.Words.Lines.{join}
use tek_nap.Words.Extract.{real_extract-join}
use tek_nap.Words.Hang.{Inside, find_backward_quote_hangs}

real_extract-join_example :
    real_extract 0 (join (codes "ab" ∷ codes "c" ∷ codes "de" ∷ [])) (pos 1) (pos 2) false
    ≡ some (join (codes "c" ∷ codes "de" ∷ []))
unfolding my_isspace
real_extract-join_example =
    real_extract-join 0 1 2 (codes "ab") (codes "c" ∷ codes "de" ∷ []) (ground arith) (omega arith)
      (omega arith)

-- A word in quotes counts as one, with a backslash in it too.
quoted_word :
    real_extract 9 (codes "a \"b \\\" c\" d") (pos 1) (pos 1) true ≡ some (codes "\"b \\\" c\"")
unfolding real_extract extract_plain first_mark second_mark last_mark real_move_to_abs_word
    abs_words past_one past_quote find_forward_quote quote_end skip_blank skip_solid ahead
    back_blank strext same_int remove_trailing_spaces trim_tail my_isspace risspace
quoted_word = refl

-- The first of two words from the end is missed if it is one letter.
one_letter : real_extract2 9 (codes "a b") (negsuc 1) (negsuc 1) false ≡ some []
unfolding real_extract2 extract_word extract_from last_mark move_word_rel rel_back back_one
    back_word back_gap back_blank widen strext same_int above my_isspace
one_letter = refl

two_letters : real_extract2 9 (codes "aa b") (negsuc 1) eos false ≡ some (codes "aa b")
unfolding real_extract2 extract_word extract_from last_mark move_word_rel rel_back back_one
    back_word back_gap back_blank widen strext same_int above my_isspace
two_letters = refl

-- A tab in front of a quote stops the program.
tab_panics : real_extract 9 (codes "a\t\"b\"") (pos 1) (pos 1) true ≡ none
unfolding real_extract extract_plain first_mark second_mark last_mark real_move_to_abs_word
    abs_words past_one past_quote find_forward_quote quote_end skip_blank skip_solid ahead
    back_blank strext same_int remove_trailing_spaces trim_tail my_isspace risspace
tab_panics = refl

abbrev escaped : Bytes
escaped = codes "\"a\\b\" c"

escaped-Inside : (j : ℕ) → 2 < j → j < 4 → Inside escaped j
escaped-Inside zero h k = absurd (omega arith)
escaped-Inside (suc zero) h k = absurd (omega arith)
escaped-Inside (suc (suc zero)) h k = absurd (omega arith)
escaped-Inside (suc (suc (suc zero))) h k = ((λ e. omega arith), (λ e. omega arith))
escaped-Inside (suc (suc (suc (suc j)))) h k = absurd (omega arith)

find_backward_quote_hangs_example : find_backward_quote 1000 escaped 4 ≡ none
find_backward_quote_hangs_example =
    find_backward_quote_hangs escaped 2 4 (omega arith) (omega arith) refl refl (inr refl)
      escaped-Inside 1000
