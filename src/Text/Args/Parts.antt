-- ===== src/Text/Args/Parts.antt =====
-- source/ircaux.c: what `next_arg` takes from a line, and what it leaves, are parts of the line.
use tek_nap.Common.{
  ℕ, zero, suc, List, [], ◌∷◌, Bytes, IsText, All, Option, none, some, take, ◌==◌, Bool, true,
  false, if◌then◌else◌,
}
use tek_nap.Text.Search.{sindex, first_outside, first_inside, in_group}
use tek_nap.Text.Args.{Taken, blank, before, cut_at, cut_word, next_arg}

module _ {ℓ κ} {A : Type ℓ} (P : A → Type κ) where
  All-take : (n : ℕ) (xs : List A) → All P xs → All P (take n xs)
  All-take zero xs h = tt
  All-take (suc n) [] h = tt
  All-take (suc n) (x ∷ xs) (h, hs) = (h, All-take n xs hs)

-- A text, where there is one.
abbrev pub IfText : Option Bytes → Type 0
IfText none = Unit
IfText (some s) = IsText s

IfText-if : (b : Bool) (s t : Option Bytes) → IfText s → IfText t → IfText (if b then s else t)
IfText-if true s t h k = h
IfText-if false s t h k = k

first_outside-IfText : (s group : Bytes) → IsText s → IfText (first_outside s group)
unfolding first_outside
first_outside-IfText [] group h = tt
first_outside-IfText (c ∷ s) group h =
    IfText-if (in_group group c) _ _ (first_outside-IfText s group h.1) h

first_inside-IfText : (s group : Bytes) → IsText s → IfText (first_inside s group)
unfolding first_inside
first_inside-IfText [] group h = tt
first_inside-IfText (c ∷ s) group h =
    IfText-if (in_group group c) _ _ h (first_inside-IfText s group h.1)

sindex-IfText : (s group : Bytes) → IsText s → IfText (sindex s group)
unfolding sindex
sindex-IfText s [] h = first_inside-IfText s [] h
sindex-IfText s (g ∷ group) h =
    IfText-if (g == b'^') _ _ (first_outside-IfText s group h) (first_inside-IfText s (g ∷ group) h)

abbrev Texts : Taken → Type 0
Texts taken = IfText taken.word × IsText taken.rest

cut_at-Texts :
    (ptr : Bytes) (here : Option Bytes) → IsText ptr → IfText here → Texts (cut_at ptr here)
unfolding cut_at before
cut_at-Texts ptr none h k = (h, tt)
cut_at-Texts ptr (some []) h k = (h, tt)
cut_at-Texts ptr (some (c ∷ str)) h k = (All-take _ _ ptr h, k.1)

cut_word-Texts : (here : Option Bytes) → IfText here → Texts (cut_word here)
unfolding cut_word
cut_word-Texts none h = (tt, tt)
cut_word-Texts (some ptr) h = cut_at-Texts ptr (sindex ptr blank) h (sindex-IfText ptr blank h)

-- The word and the rest of a text are texts.
pub next_arg-IsText : (s : Bytes) → IsText s → IfText (next_arg s).word × IsText (next_arg s).rest
unfolding next_arg
next_arg-IsText [] h = (tt, tt)
next_arg-IsText (c ∷ s) h = cut_word-Texts _ (sindex-IfText (c ∷ s) _ h)
