-- ===== src/Wild/Sets/Expand.antt =====
-- A pattern with one set of alternatives has the best value that one of them gives.
use tek_nap.Common.{
  ℕ, zero, suc, ◌+◌, ◌<◌, List, [], ◌∷◌, ◌++◌, if◌then◌else◌, Bytes, none, some, ltb, length, ◌≡◌,
  ◌≢◌, refl, All, All-append, arith, ◌∙◌, length-append, append-nil, take-all,
}
use tek_nap.Text.Args.{new_next_arg}
use tek_nap.Text.Args.Next.{Lacks, new_next_arg_last, new_next_arg-word}
use tek_nap.Wild.{new_match, backslash}
use tek_nap.Wild.Sets.{
  Outcome, value, set_open, set_close, found, find_set, find_backslash, prepend, nesting, close_set,
  big_buffer_size, strlcat, best_of, expand, wild_match,
}

pub find_set-none : (p : Bytes) → Lacks backslash p → find_set p ≡ none
unfolding find_set
find_set-none [] h = refl
find_set-none (c ∷ p) h = ground (arith, find_set-none p)

pub find_set-some :
    (b r : Bytes)
    → Lacks backslash b
    → find_set (b ++ backslash ∷ set_open ∷ r) ≡ some (b, backslash ∷ set_open ∷ r)
unfolding find_set
find_set-some [] r h = refl
find_set-some (c ∷ b) r h = ground (arith, find_set-some b r)

find_backslash-some :
    (b r : Bytes)
    → Lacks backslash b
    → find_backslash (b ++ backslash ∷ r) ≡ some (b, backslash ∷ r)
unfolding find_backslash
find_backslash-some [] r h = refl
find_backslash-some (c ∷ b) r h = ground (arith, find_backslash-some b r)

-- The pattern with a set of alternatives in it.
abbrev pub with_set : (before inside behind : Bytes) → Bytes
with_set before inside behind =
    before ++ backslash ∷ set_open ∷ (inside ++ backslash ∷ set_close ∷ behind)

pub close_set_found :
    (n : ℕ) (inside behind : Bytes)
    → Lacks backslash inside
    → close_set (suc (suc n)) (backslash ∷ set_open ∷ (inside ++ backslash ∷ set_close ∷ behind)) 0
      ≡ found (backslash ∷ set_open ∷ inside) behind
unfolding close_set nesting prepend
close_set_found n inside behind h =
    rw (find_backslash-some inside (set_close ∷ behind) h, close_set, append-nil)

-- `wild_match` of a pattern with a set is the loop over what stands in the set.
pub wild_match-with_set :
    (fuel : ℕ) (before inside behind str : Bytes)
    → Lacks backslash before
    → Lacks backslash inside
    → wild_match (suc fuel) (with_set before inside behind) str
      ≡ best_of (λ q. wild_match fuel q str) fuel before behind inside 0
unfolding wild_match expand
wild_match-with_set fuel before inside behind str hb hi = rw (
  find_set-some before (inside ++ backslash ∷ set_close ∷ behind) hb,
  wild_match,
  close_set_found _ inside behind hi,
)

-- The alternatives of a set, with a blank between each two.
abbrev pub join : List Bytes → Bytes
join [] = []
join (w ∷ []) = w
join (w ∷ v ∷ ws) = w ++ 32 ∷ join (v ∷ ws)

-- An alternative: some characters, no blank and no backslash, that do not begin with a quote.
abbrev pub IsAlternative : Bytes → Type 0
IsAlternative [] = ⊥
IsAlternative (c ∷ w) = Lacks 32 (c ∷ w) × Lacks backslash (c ∷ w) × (c ≢ b'"')

-- The best value that `match` gives to one of the alternatives, and `best` at least.
unfoldable pub best_value : (Bytes → ℕ) → List Bytes → ℕ → ℕ
best_value match [] best = best
best_value match (w ∷ ws) best = best_value match ws (if ltb best (match w) then match w else best)

new_next_arg-join :
    (w : Bytes) (ws : List Bytes)
    → IsAlternative w
    → new_next_arg (join (w ∷ ws)) ≡ record { word = some w; rest = join ws }
new_next_arg-join [] ws h = absurd h
new_next_arg-join (c ∷ w) [] (hb, _, q) = new_next_arg_last c w hb q
new_next_arg-join (c ∷ w) (v ∷ ws) (hb, _, q) = new_next_arg-word c w (join (v ∷ ws)) hb q

new_next_arg-nil : new_next_arg [] ≡ record { word = none; rest = [] }
unfolding new_next_arg
new_next_arg-nil = refl

strlcat_short : (a b : Bytes) → length a + length b < big_buffer_size → strlcat a b ≡ a ++ b
unfolding strlcat
strlcat_short a b h = take-all 2047 (a ++ b) (omega (arith, length-append a b))

strlcat_three :
    (a b c : Bytes)
    → length a + length b + length c < big_buffer_size
    → strlcat (strlcat (strlcat [] a) b) c ≡ a ++ b ++ c
strlcat_three a b c h = rw (
  strlcat_short [] a (omega arith),
  strlcat_short a b (omega arith),
  strlcat_short (a ++ b) c (omega (arith, length-append a b)),
)

-- The pattern with the alternative in the set's place is short enough for the buffer.
abbrev pub Short : (before behind : Bytes) → Bytes → Type 0
Short before behind w = length before + length w + length behind < big_buffer_size

best_of-best_value :
    (match : Bytes → Outcome) (eval : Bytes → ℕ) (before behind : Bytes) (ws : List Bytes)
    (fuel best : ℕ)
    → length ws < fuel
    → All IsAlternative ws
    → All (Short before behind) ws
    → All (λ w. match (before ++ w ++ behind) ≡ value (eval w)) ws
    → best_of match fuel before behind (join ws) best ≡ value (best_value eval ws best)
unfolding best_of best_value
best_of-best_value match eval before behind ws zero best f ha hs hm = absurd (omega arith)
best_of-best_value match eval before behind [] (suc fuel) best f ha hs hm =
    rw (new_next_arg-nil, best_of)
best_of-best_value match eval before behind (w ∷ ws) (suc fuel) best f ha hs hm =
    rw (new_next_arg-join w ws ha.0, best_of, strlcat_three before w behind hs.0, hm.0)
      (best_of-best_value match eval before behind ws fuel
        (if ltb best (eval w) then eval w else best) (omega arith) ha.1 hs.1 hm.1)

wild_match-new_match :
    (fuel : ℕ) (p str : Bytes)
    → Lacks backslash p
    → wild_match (suc fuel) p str ≡ value (new_match p str)
unfolding wild_match
wild_match-new_match fuel p str h = rw (find_set-none p h, wild_match)

IsAlternative-Lacks : (w : Bytes) → IsAlternative w → Lacks backslash w
IsAlternative-Lacks [] h = tt
IsAlternative-Lacks (c ∷ w) h = h.1

values :
    (fuel : ℕ) (before behind str : Bytes) (ws : List Bytes)
    → Lacks backslash before
    → Lacks backslash behind
    → All IsAlternative ws
    → All
        (λ w.
          wild_match (suc fuel) (before ++ w ++ behind) str
          ≡ value (new_match (before ++ w ++ behind) str))
        ws
values fuel before behind str [] hb hd ha = tt
values fuel before behind str (w ∷ ws) hb hd ha = (
  wild_match-new_match fuel _ str (
      All-append _ (before ++ w) behind (All-append _ before w hb (IsAlternative-Lacks w ha.0)) hd),
  values fuel before behind str ws hb hd ha.1,
)

pub blank-ne-backslash : 32 ≢ backslash
blank-ne-backslash = omega arith

join-Lacks : (ws : List Bytes) → All IsAlternative ws → Lacks backslash (join ws)
join-Lacks [] h = tt
join-Lacks (w ∷ []) h = IsAlternative-Lacks w h.0
join-Lacks (w ∷ v ∷ ws) h =
    All-append _ w (32 ∷ join (v ∷ ws)) (IsAlternative-Lacks w h.0)
      (blank-ne-backslash, join-Lacks (v ∷ ws) h.1)

-- A pattern with one set of alternatives and no other backslash, where each alternative has some
-- characters, no blank, no backslash and no quote in front, and fits the buffer with what is
-- around the set, has the best value that `new_match` gives with one of the alternatives in place
-- of the set, if there is more fuel than there are alternatives.
pub wild_match-best_value :
    (fuel : ℕ) (before behind str : Bytes) (ws : List Bytes)
    → length ws < fuel
    → Lacks backslash before
    → Lacks backslash behind
    → All IsAlternative ws
    → All (Short before behind) ws
    → wild_match (suc fuel) (with_set before (join ws) behind) str
      ≡ value (best_value (λ w. new_match (before ++ w ++ behind) str) ws 0)
wild_match-best_value zero before behind str ws f hb hd ha hs = absurd (omega arith)
wild_match-best_value (suc fuel) before behind str ws f hb hd ha hs =
    wild_match-with_set (suc fuel) before (join ws) behind str hb (join-Lacks ws ha)
    ∙ best_of-best_value _ _ before behind ws (suc fuel) 0 f ha hs
        (values fuel before behind str ws hb hd ha)
