-- ===== src/Tests/Strings.antt =====
-- source/ircaux.c: words and comparisons at concrete strings.
use tek_nap.Text.Number.{my_atol, ltoa}
use tek_nap.Text.Number.Print.{my_atol-ltoa}
use tek_nap.Common.{◌≡◌, refl, codes, ◌++◌, some, IsText, arith, map, ◌↔◌, replicate, true, false}
use tek_nap.Common.Int.{pos, negsuc, is_zero, is_pos, negate}
use tek_nap.Text.Case.{my_stricmp, fold}
use tek_nap.Text.Case.Order.{my_stricmp_iff, my_stricmp_order}
use tek_nap.Text.Search.{risspace}
use tek_nap.Text.Args.{next_arg, new_next_arg, skip_spaces}
use tek_nap.Text.Args.Next.{Lacks, next_arg-word, new_next_arg-eq-next_arg}

letters_ok : IsText (codes "aB")
letters_ok = ((omega arith, omega arith), ((omega arith, omega arith), tt))

folded_ok : IsText (codes "Ab")
folded_ok = ((omega arith, omega arith), ((omega arith, omega arith), tt))

my_stricmp_iff_example :
    (is_zero (my_stricmp (codes "aB") (codes "Ab")) ≡ true)
    ↔ (map fold (codes "aB") ≡ map fold (codes "Ab"))
my_stricmp_iff_example = my_stricmp_iff (codes "aB") (codes "Ab") letters_ok folded_ok

my_stricmp_order_example :
    (my_stricmp (codes "Ab") (codes "aB") ≡ negate (my_stricmp (codes "aB") (codes "Ab")))
    × (is_pos (my_stricmp (codes "aB") (codes "Ab")) ≡ false
        → is_pos (my_stricmp (codes "Ab") (codes "b")) ≡ false
        → is_pos (my_stricmp (codes "aB") (codes "b")) ≡ false)
my_stricmp_order_example = my_stricmp_order (codes "aB") (codes "Ab") (codes "b") letters_ok

hi_word : Lacks 32 (codes "hi")
hi_word = (omega arith, (omega arith, tt))

next_arg-word_example :
    next_arg (replicate 2 32 ++ codes "hi there")
    ≡ record { word = some (codes "hi"); rest = codes "there" }
next_arg-word_example = next_arg-word 2 b'h' (codes "i") (codes "there") hi_word

skip_two : skip_spaces (codes "  hi \"x") ≡ codes "hi \"x"
unfolding skip_spaces risspace
skip_two = refl

new_next_arg-eq-next_arg_example : new_next_arg (codes "  hi \"x") ≡ next_arg (codes "  hi \"x")
new_next_arg-eq-next_arg_example =
    new_next_arg-eq-next_arg (codes "  hi \"x") (codes "i \"x") b'h' skip_two (omega arith)

my_atol-ltoa_example :
    (my_atol (ltoa (pos 120)) ≡ pos 120) × (my_atol (ltoa (negsuc 120)) ≡ negsuc 120)
my_atol-ltoa_example = my_atol-ltoa 120 (omega arith)
