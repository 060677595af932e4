-- ===== src/Tests/Patterns.antt =====
-- source/reg.c: patterns at concrete texts.
use tek_nap.Common.{suc, ◌≡◌, ◌≢◌, refl, Bytes, codes, arith, replicate, ◌++◌, ◌∷◌, [], List}
use tek_nap.Wild.{new_match}
use tek_nap.Wild.Matches.{Matches, letters}
use tek_nap.Wild.Rounds.{Answers}
use tek_nap.Wild.Decides.{new_match-Answers}
use tek_nap.Wild.Sets.{
  value, overrun, wild_match, expand, best_of, strlcat, find_set, close_set, nesting,
  find_backslash, prepend,
}
use tek_nap.Text.Args.{new_next_arg}
use tek_nap.Text.Search.{risspace}
use tek_nap.Wild.Sets.Expand.{with_set, join, best_value, wild_match-best_value}
use tek_nap.Wild.Sets.Hang.{wild_match_blanks}

new_match-Answers_example :
    Answers
      (Matches (codes "*l?") (codes "Hello"))
      (suc (letters (codes "*l?")))
      (new_match (codes "*l?") (codes "Hello"))
new_match-Answers_example =
    new_match-Answers (codes "*l?") (codes "Hello")
      (
        (omega arith, omega arith, omega arith),
        ((omega arith, omega arith, omega arith), ((omega arith, omega arith, omega arith), tt)),
      )
      (omega arith, (omega arith, (omega arith, (omega arith, (omega arith, tt))))) (omega arith)

abbrev animals : List Bytes
animals = codes "cat" ∷ codes "dog" ∷ []

wild_match-best_value_example :
    wild_match 4 (with_set (codes "a") (join animals) (codes "*")) (codes "adogs")
    ≡ value (best_value (λ w. new_match (codes "a" ++ w ++ codes "*") (codes "adogs")) animals 0)
wild_match-best_value_example =
    wild_match-best_value 3 (codes "a") (codes "*") (codes "adogs") animals (omega arith)
      (omega arith, tt) (omega arith, tt)
      (
        (
          (omega arith, (omega arith, (omega arith, tt))),
          (omega arith, (omega arith, (omega arith, tt))),
          omega arith,
        ),
        (
          (
            (omega arith, (omega arith, (omega arith, tt))),
            (omega arith, (omega arith, (omega arith, tt))),
            omega arith,
          ),
          tt,
        ),
      )
      (omega arith, (omega arith, tt))

wild_match_blanks_example :
    wild_match 9 (with_set (codes "a") (replicate 1 32) (codes "b")) (codes "ab") ≢ value 3
wild_match_blanks_example =
    wild_match_blanks 9 0 3 (codes "a") (codes "b") (codes "ab") (omega arith, tt)

dog : wild_match 4 (codes "a\\[cat dog\\]*") (codes "adogs") ≡ value 5
unfolding wild_match new_match expand best_of new_next_arg risspace strlcat find_set close_set
    nesting find_backslash prepend
dog = refl

-- The search for the end of a set runs past the end of such a pattern.
set_overrun : wild_match 5 (codes "a\\[b\\") (codes "ab") ≡ overrun
unfolding wild_match find_set close_set nesting find_backslash prepend expand
set_overrun = refl

-- `%` must not stand for a blank, but the asterisk before it is tried again with what is behind `%`.
percent_blank : new_match (codes "*ab%cd") (codes "abcx cd") ≡ 3
unfolding new_match
percent_blank = refl

-- The asterisk behind a backslash is read as a wildcard when it follows an asterisk.
quoted_star : new_match (codes "*\\*") (codes "a*b") ≡ 1
unfolding new_match
quoted_star = refl
