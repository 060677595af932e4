-- ===== src/Words/Extract.antt =====
-- source/words.c: `real_extract` on a line of words with one blank between each two.
use tek_nap.Common.{
  ℕ, zero, suc, ◌+◌, ◌-◌, ◌<◌, ◌≤◌, List, [], ◌∷◌, ◌++◌, Bytes, true, false, ◌==◌, ltb, length,
  take, drop, All, some, ◌≡◌, ◌≢◌, refl, sym, ap, ◌∙◌, subst, arith, length-append, length-drop,
}
use tek_nap.Common.Int.{pos}
use tek_nap.Text.Search.{my_isspace, remove_trailing_spaces}
use tek_nap.Text.Search.Trim.{Solid}
use tek_nap.Words.Quote.{byte}
use tek_nap.Words.{
  ahead, skip_blank, back_blank, strext, same_int, last_mark, between, first_mark, second_mark,
  extract_plain, real_extract,
}
use tek_nap.Words.Lines.{
  IsWord, join, tail, join-take, join-Solid, Solid-last, remove_trailing_spaces-Solid,
}
use tek_nap.Words.Move.{drop-drop, Begins, ahead-join, move_to_abs_word-Begins}

take-length : (s t : Bytes) → take (length s) (s ++ t) ≡ s
take-length [] t = refl
take-length (c ∷ s) t = ap (λ l. c ∷ l) (take-length s t)

byte-append : (s t : Bytes) (p : ℕ) → p < length s → byte (s ++ t) p ≡ byte s p
byte-append [] t p h = elim h [ ]
byte-append (c ∷ s) t zero h = refl
byte-append (c ∷ s) t (suc p) h = byte-append s t p (omega arith)

byte-behind : (s t : Bytes) → byte (s ++ t) (length s) ≡ byte t 0
byte-behind [] t = refl
byte-behind (c ∷ s) t = byte-behind s t

back_stop : (s : Bytes) (p : ℕ) → 0 < p → my_isspace (byte s (p - 1)) ≡ false → back_blank s p ≡ p
unfolding back_blank
back_stop s zero h k = absurd (omega arith)
back_stop s (suc p) h k =
    let e : my_isspace (byte s p) ≡ false =
      subst (λ q. my_isspace (byte s q) ≡ false) (let e : suc p - 1 ≡ p = omega arith in e) k in
    rw e

back_step :
    (s : Bytes) (p : ℕ) → my_isspace (byte s p) ≡ true → back_blank s (suc p) ≡ back_blank s p
unfolding back_blank
back_step s p h = rw h

nonempty : (a : Bytes) → a ≢ [] → 0 < length a
nonempty [] ne = absurd (ne refl)
nonempty (c ∷ a) ne = omega arith

-- Behind a word, the walk back over blanks comes to its end.
back_over :
    (a : Bytes) (rest : List Bytes) (q : ℕ)
    → a ≢ []
    → Solid a
    → q ≤ length (a ++ tail rest)
    → length (a ++ tail rest) - q ≡ length (join rest)
    → back_blank (a ++ tail rest) q ≡ length a
unfolding tail join my_isspace
back_over a [] q ne h l k =
    let p = nonempty a ne in
    let len = length-append a [] in
    let e : q ≡ length a = omega arith in
    ap (back_blank (a ++ [])) e
    ∙ back_stop (a ++ []) (length a) p
        (ap my_isspace (byte-append a [] (length a - 1) (omega arith)) ∙ Solid-last a ne h)
back_over a (w ∷ ws) q ne h l k =
    let p = nonempty a ne in
    let t = 32 ∷ join (w ∷ ws) in
    let len = length-append a t in
    let e : q ≡ suc (length a) = omega arith in
    ap (back_blank (a ++ t)) e
    ∙ back_step (a ++ t) (length a) (ap my_isspace (byte-behind a t))
    ∙ back_stop (a ++ t) (length a) p
        (ap my_isspace (byte-append a t (length a - 1) (omega arith)) ∙ Solid-last a ne h)

All-take : (n : ℕ) (ws : List Bytes) → All IsWord ws → All IsWord (take n ws)
All-take zero ws h = tt
All-take (suc n) [] h = tt
All-take (suc n) (w ∷ ws) (h, hs) = (h, All-take n ws hs)

-- The second mark is the end of the last word.
last_mark-end :
    (fuel l : ℕ) (w : Bytes) (ws : List Bytes)
    → All IsWord (w ∷ ws)
    → last_mark fuel false (join (w ∷ ws)) (pos l) ≡ some (length (join (w ∷ take l ws)))
unfolding last_mark
last_mark-end fuel l w ws h =
    let (q, run, b) = move_to_abs_word-Begins (l + 1) (w ∷ ws) h in
    let a = join (w ∷ take l ws) in
    let (solid, ne) = join-Solid w (take l ws) (h.0, All-take l ws h.1) in
    let split : join (w ∷ ws) ≡ a ++ tail (drop l ws) = join-take l w ws in
    let left : length (join (w ∷ ws)) - q ≡ length (join (drop l ws)) =
      sym (length-drop q (join (w ∷ ws)))
      ∙ ap length b.here
      ∙ ap (λ n. length (join (drop n (w ∷ ws)))) (let e : l + 1 ≡ suc l = omega arith in e) in
    let r = b.in_range in
    let le = ap length split in
    rw run (
      ap some (
        ap (λ s. back_blank s q) split
        ∙ back_over a (drop l ws) q ne solid (omega arith) (omega arith)))

one_more : (f l : ℕ) → f ≤ l → l + 1 - f ≡ suc (l - f)
one_more f l h = omega arith

in_order : (s : Bytes) (q e : ℕ) → q ≤ e → between s q e ≡ take (e - q) (drop q s)
unfolding strext
in_order s q e h = let f : ltb e q ≡ false = ground arith in rw f

take_nil : (n : ℕ) → take {A = ℕ} n [] ≡ []
take_nil zero = refl
take_nil (suc n) = refl

-- The first `n + 1` of the words that begin at `q`.
cut_from :
    (s : Bytes) (vs : List Bytes) (n q e : ℕ)
    → q ≤ length s
    → drop q s ≡ join vs
    → e ≡ length s - length (tail (drop (suc n) vs))
    → between s q e ≡ join (take (suc n) vs)
unfolding join tail
cut_from s [] n q e r here end =
    let l = length-drop q s in
    let k = ap length here in
    in_order s q e (omega arith) ∙ ap (take (e - q)) here ∙ take_nil (e - q)
cut_from s (v ∷ vs) n q e r here end =
    let a = join (v ∷ take n vs) in
    let split : drop q s ≡ a ++ tail (drop n vs) = here ∙ join-take n v vs in
    let l = length-drop q s in
    let k = ap length split in
    let m = length-append a (tail (drop n vs)) in
    in_order s q e (omega arith)
    ∙ ap (λ i. take i (drop q s)) (let d : e - q ≡ length a = omega arith in d)
    ∙ ap (take (length a)) split
    ∙ take-length a (tail (drop n vs))

-- The words from number `f` on, cut off behind the word `l`.
cut_words :
    (s : Bytes) (ws : List Bytes) (f l q e : ℕ)
    → Begins s q (drop f ws)
    → f ≤ l
    → e ≡ length s - length (tail (drop (l + 1) ws))
    → between s q e ≡ join (take (l + 1 - f) (drop f ws))
unfolding strext
cut_words s ws f l q e b le end =
    let rest : drop (l + 1) ws ≡ drop (l + 1 - f) (drop f ws) =
      ap (λ n. drop n ws) (let d : l + 1 ≡ f + (l + 1 - f) = omega arith in d)
      ∙ drop-drop f (l + 1 - f) ws in
    cut_from s (drop f ws) (l - f) q e b.in_range b.here (
      end
      ∙ ap (λ r. length s - length (tail r))
          (rest ∙ ap (λ n. drop n (drop f ws)) (one_more f l le)))
    ∙ ap (λ n. join (take n (drop f ws))) (sym (one_more f l le))

-- `extract_plain` on a line: `real_extract` behind the removal of spaces.
plain_words :
    (fuel f l : ℕ) (w : Bytes) (ws : List Bytes)
    → All IsWord (w ∷ ws)
    → f ≤ l
    → l < 32767
    → extract_plain fuel false (join (w ∷ ws)) (pos f) (pos l)
      ≡ some (join (take (l + 1 - f) (drop f (w ∷ ws))))
unfolding extract_plain first_mark second_mark same_int
plain_words fuel f l w ws h le lt =
    let (q, run, b) = move_to_abs_word-Begins f (w ∷ ws) h in
    let end = last_mark-end fuel l w ws h in
    let s = join (w ∷ ws) in
    let a = join (w ∷ take l ws) in
    let split : s ≡ a ++ tail (drop l ws) = join-take l w ws in
    let m = ap length split ∙ length-append a (tail (drop l ws)) in
    let not_eos : (f == 32767) ≡ false = ground arith in
    let not_eos' : (l == 32767) ≡ false = ground arith in
    let order : ltb l f ≡ false = ground arith in
    let drops : drop (l + 1) (w ∷ ws) ≡ drop l ws =
      ap (λ n. drop n (w ∷ ws)) (let e : l + 1 ≡ suc l = omega arith in e) in
    rw (not_eos, run, not_eos', end, order)
      (ap some (
        cut_words s (w ∷ ws) f l q (length a) b le (
          (let e : length a ≡ length s - length (tail (drop l ws)) = omega arith in e)
          ∙ ap (λ r. length s - length (tail r)) (sym drops))))

-- `real_extract`, for words without regard to quotes, on a line of one word or more with one blank
-- between each two, comes to an end and returns the words from number `f` to number `l`, with one
-- blank between each two; there are fewer of them, or none, where the line ends before. The
-- numbers are from zero on, `f` is not above `l`, and `l` is below `EOS`.
pub real_extract-join :
    (fuel f l : ℕ) (w : Bytes) (ws : List Bytes)
    → All IsWord (w ∷ ws)
    → f ≤ l
    → l < 32767
    → real_extract fuel (join (w ∷ ws)) (pos f) (pos l) false
      ≡ some (join (take (l + 1 - f) (drop f (w ∷ ws))))
unfolding real_extract skip_blank
real_extract-join fuel f l w ws h le lt =
    let s = join (w ∷ ws) in
    let e : 0 + ahead my_isspace s ≡ 0 = omega (arith, ahead-join (w ∷ ws) h) in
    let (solid, ne) = join-Solid w ws h in
    ap (λ n. extract_plain fuel false (remove_trailing_spaces (drop n s)) (pos f) (pos l)) e
    ∙ ap (λ t. extract_plain fuel false t (pos f) (pos l)) (remove_trailing_spaces-Solid s solid)
    ∙ plain_words fuel f l w ws h le lt
