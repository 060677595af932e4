-- ===== src/Words/Lines.antt =====
-- source/words.c: lines of words with one blank between them, and where the words stand in them.
use tek_nap.Common.{
  ℕ, zero, suc, ◌-◌, ◌<◌, List, [], ◌∷◌, ◌++◌, Bytes, Bool, true, false, not, length, take, drop,
  All, ◌≡◌, ◌≢◌, refl, sym, ap, ◌∙◌, subst, arith, append_assoc, append-nil,
}
use mathlib.Core.List.{cons-ne-nil}
use tek_nap.Text.Search.{my_isspace, trim_tail, remove_trailing_spaces}
use tek_nap.Text.Search.Trim.{Solid, extend, trim_tail-extend}
use tek_nap.Words.Quote.{byte}
use tek_nap.Words.{ahead}

-- A byte of a word.
abbrev pub InWord : ℕ → Type 0
InWord c = (0 < c) × (my_isspace c ≡ false)

-- A word is not empty.
abbrev pub IsWord : Bytes → Type 0
IsWord [] = ⊥
IsWord (c ∷ w) = InWord c × All InWord w

-- The words with a blank between each two.
unfoldable pub join : List Bytes → Bytes
join [] = []
join (w ∷ []) = w
join (w ∷ v ∷ ws) = w ++ (32 ∷ join (v ∷ ws))

-- What stands behind other words: a blank before the words, if there are any.
unfoldable pub tail : List Bytes → Bytes
tail [] = []
tail (w ∷ ws) = 32 ∷ join (w ∷ ws)

pub join-tail : (w : Bytes) (ws : List Bytes) → join (w ∷ ws) ≡ w ++ tail ws
unfolding join tail
join-tail w [] = sym (append-nil w)
join-tail w (v ∷ ws) = refl

tail_nil : (w : Bytes) → w ++ tail [] ≡ w
unfolding tail
tail_nil w = append-nil w

-- The first words, and what is behind them.
pub join-take :
    (n : ℕ) (w : Bytes) (ws : List Bytes) → join (w ∷ ws) ≡ join (w ∷ take n ws) ++ tail (drop n ws)
unfolding tail
join-take zero w ws = join-tail w ws ∙ ap (λ l. l ++ tail ws) (sym (join-tail w [] ∙ tail_nil w))
join-take (suc n) w [] = sym (append-nil (join (w ∷ [])))
join-take (suc n) w (v ∷ ws) =
    join-tail w (v ∷ ws)
    ∙ ap (λ l. w ++ (32 ∷ l)) (join-take n v ws)
    ∙ sym (append_assoc w (tail (v ∷ take n ws)) (tail (drop n ws)))
    ∙ ap (λ l. l ++ tail (drop n ws)) (sym (join-tail w (v ∷ take n ws)))

-- How far a test goes on bytes that pass, before one that does not.
pub ahead-All :
    (test : ℕ → Bool) (w t : Bytes)
    → All (λ c. test c ≡ true) w
    → ahead test t ≡ 0
    → ahead test (w ++ t) ≡ length w
unfolding ahead
ahead-All test [] t h k = k
ahead-All test (c ∷ w) t (h, hs) k = rw h (omega (arith, ahead-All test w t hs k))

pub not_space : (w : Bytes) → All InWord w → All (λ c. not (my_isspace c) ≡ true) w
not_space [] h = tt
not_space (c ∷ w) (h, hs) = (ap not h.1, not_space w hs)

pub Solid-append : (s t : Bytes) → t ≢ [] → Solid t → Solid (s ++ t)
Solid-append [] t ne h = h
Solid-append (c ∷ []) [] ne h = absurd (ne refl)
Solid-append (c ∷ []) (d ∷ t) ne h = h
Solid-append (c ∷ d ∷ s) t ne h = Solid-append (d ∷ s) t ne h

behind : (c : ℕ) (t : Bytes) → t ≢ [] → Solid t → Solid (c ∷ t)
behind c [] ne h = absurd (ne refl)
behind c (d ∷ t) ne h = h

pub All-Solid : (c : ℕ) (w : Bytes) → InWord c → All InWord w → Solid (c ∷ w)
All-Solid c [] h hs = h.1
All-Solid c (d ∷ w) h (k, hs) = All-Solid d w k hs

pub join-Solid :
    (w : Bytes) (ws : List Bytes)
    → All IsWord (w ∷ ws)
    → Solid (join (w ∷ ws)) × (join (w ∷ ws) ≢ [])
unfolding join
join-Solid [] ws (h, hs) = absurd h
join-Solid (c ∷ w) [] (h, hs) = (All-Solid c w h.0 h.1, λ e. cons-ne-nil _ _ e)
join-Solid (c ∷ w) (v ∷ ws) (h, hs) =
    let (s, ne) = join-Solid v ws hs in
    (
      Solid-append (c ∷ w) (32 ∷ join (v ∷ ws)) (λ e. cons-ne-nil _ _ e) (behind 32 _ ne s),
      λ e. cons-ne-nil _ _ e,
    )

pub trim_tail-Solid : (s : Bytes) → Solid s → trim_tail s ≡ s
unfolding trim_tail extend
trim_tail-Solid [] h = refl
trim_tail-Solid (c ∷ []) h = trim_tail-extend c [] ∙ (rw h refl)
trim_tail-Solid (c ∷ d ∷ s) h =
    trim_tail-extend c (d ∷ s) ∙ ap (extend c) (trim_tail-Solid (d ∷ s) h)

pub remove_trailing_spaces-Solid : (s : Bytes) → Solid s → remove_trailing_spaces s ≡ s
unfolding remove_trailing_spaces trim_tail
remove_trailing_spaces-Solid [] h = refl
remove_trailing_spaces-Solid (c ∷ []) h = refl
remove_trailing_spaces-Solid (c ∷ d ∷ s) h = ap (λ l. c ∷ l) (trim_tail-Solid (d ∷ s) h)

pub Solid-last : (s : Bytes) → s ≢ [] → Solid s → my_isspace (byte s (length s - 1)) ≡ false
Solid-last [] ne h = absurd (ne refl)
Solid-last (c ∷ []) ne h =
    subst (λ p. my_isspace (byte (c ∷ []) p) ≡ false) (let e : 0 ≡ 1 - 1 = omega arith in e) h
Solid-last (c ∷ d ∷ s) ne h =
    subst (λ p. my_isspace (byte (c ∷ d ∷ s) p) ≡ false)
      (let e : suc (length (d ∷ s) - 1) ≡ length (c ∷ d ∷ s) - 1 = omega arith in e)
      (Solid-last (d ∷ s) (λ e. cons-ne-nil _ _ e) h)
