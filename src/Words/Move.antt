-- ===== src/Words/Move.antt =====
-- source/words.c: moving to a word of a line.
use tek_nap.Common.{
  ℕ, zero, suc, ◌+◌, ◌-◌, ◌≤◌, List, [], ◌∷◌, ◌++◌, Bytes, false, not, ◌==◌, length, drop, All,
  some, ◌≡◌, refl, sym, ap, ◌∙◌, arith, length-append, length-drop,
}
use tek_nap.Common.Int.{pos}
use tek_nap.Text.Search.{my_isspace}
use tek_nap.Words.Quote.{byte}
use tek_nap.Words.{ahead, skip_blank, skip_solid, past_one, abs_words, real_move_to_abs_word}
use tek_nap.Words.Lines.{IsWord, join, tail, join-tail, ahead-All, not_space}

module _ {ℓ} {A : Type ℓ} where
  drop_nil : (n : ℕ) → drop {A = A} n [] ≡ []
  drop_nil zero = refl
  drop_nil (suc n) = refl

  pub drop-drop : (p n : ℕ) (s : List A) → drop (p + n) s ≡ drop n (drop p s)
  drop-drop zero n s = ap (λ k. drop k s) (let e : 0 + n ≡ n = omega arith in e)
  drop-drop (suc p) n [] =
      ap (λ k. drop {A = A} k []) (let e : suc p + n ≡ suc (p + n) = omega arith in e)
      ∙ sym (drop_nil n)
  drop-drop (suc p) n (c ∷ s) =
      ap (λ k. drop k (c ∷ s)) (let e : suc p + n ≡ suc (p + n) = omega arith in e)
      ∙ drop-drop p n s

drop-append : (w t : Bytes) → drop (length w) (w ++ t) ≡ t
drop-append [] t = refl
drop-append (c ∷ w) t = drop-append w t

byte-drop : (p : ℕ) (s : Bytes) → byte s p ≡ byte (drop p s) 0
byte-drop zero s = refl
byte-drop (suc p) [] = refl
byte-drop (suc p) (c ∷ s) = byte-drop p s

-- The pointer `p` is where the words `ws` begin.
pub record Begins (s : Bytes) (p : ℕ) (ws : List Bytes) : Type 0 where
  pub in_range : p ≤ length s
  pub here : drop p s ≡ join ws

-- The pointer is behind a word, in front of the blank or at the end.
pub record Behind (s : Bytes) (p : ℕ) (ws : List Bytes) : Type 0 where
  pub in_range : p ≤ length s
  pub here : drop p s ≡ tail ws

-- No word begins with a blank.
pub ahead-join : (ws : List Bytes) → All IsWord ws → ahead my_isspace (join ws) ≡ 0
unfolding ahead join
ahead-join [] h = refl
ahead-join ([] ∷ ws) (h, hs) = absurd h
ahead-join ((c ∷ w) ∷ []) (h, hs) = rw h.0.1 refl
ahead-join ((c ∷ w) ∷ v ∷ ws) (h, hs) = rw h.0.1 refl

ahead-tail : (ws : List Bytes) → ahead (λ c. not (my_isspace c)) (tail ws) ≡ 0
unfolding ahead tail my_isspace
ahead-tail [] = refl
ahead-tail (w ∷ ws) = refl

past_one-Behind :
    (s : Bytes) (p : ℕ) (w : Bytes) (ws : List Bytes)
    → IsWord w
    → Begins s p (w ∷ ws)
    → Behind s (skip_solid s p) ws
unfolding skip_solid
past_one-Behind s p [] ws h b = absurd h
past_one-Behind s p (c ∷ w) ws h b =
    let at : drop p s ≡ (c ∷ w) ++ tail ws = b.here ∙ join-tail (c ∷ w) ws in
    let n : ahead (λ c. not (my_isspace c)) (drop p s) ≡ length (c ∷ w) =
      ap (ahead (λ c. not (my_isspace c))) at
      ∙ ahead-All (λ c. not (my_isspace c)) (c ∷ w) (tail ws) (not_space (c ∷ w) h)
          (ahead-tail ws) in
    let l = length-drop p s in
    let k : length (drop p s) ≡ length (c ∷ w) + length (tail ws) =
      ap length at ∙ length-append (c ∷ w) (tail ws) in
    let r = b.in_range in
    record {
      in_range = omega arith;
      here =
          ap (λ n. drop (p + n) s) n
          ∙ drop-drop p (length (c ∷ w)) s
          ∙ ap (drop (length (c ∷ w))) at
          ∙ drop-append (c ∷ w) (tail ws);
    }

ahead_gap :
    (ws : List Bytes)
    → All IsWord ws
    → ahead my_isspace (tail ws) ≡ length (tail ws) - length (join ws)
unfolding tail ahead my_isspace
ahead_gap [] h = omega arith
ahead_gap (w ∷ ws) h = omega (arith, ahead-join (w ∷ ws) h)

drop_gap : (ws : List Bytes) → drop (length (tail ws) - length (join ws)) (tail ws) ≡ join ws
unfolding tail join
drop_gap [] = refl
drop_gap (w ∷ ws) =
    ap (λ n. drop n (32 ∷ join (w ∷ ws)))
      (let e : suc (length (join (w ∷ ws))) - length (join (w ∷ ws)) ≡ 1 = omega arith in e)

skip_blank-Begins :
    (s : Bytes) (p : ℕ) (ws : List Bytes)
    → All IsWord ws
    → Behind s p ws
    → Begins s (skip_blank s p) ws
unfolding skip_blank
skip_blank-Begins s p ws h b =
    let n : ahead my_isspace (drop p s) ≡ length (tail ws) - length (join ws) =
      ap (ahead my_isspace) b.here ∙ ahead_gap ws h in
    let l = length-drop p s in
    let k = ap length b.here in
    let r = b.in_range in
    record {
      in_range = omega arith;
      here =
          ap (λ n. drop (p + n) s) n
          ∙ drop-drop p (length (tail ws) - length (join ws)) s
          ∙ ap (drop (length (tail ws) - length (join ws))) b.here
          ∙ drop_gap ws;
    }

join_nil : byte (join []) 0 ≡ 0
unfolding join
join_nil = refl

-- Moving over `n` words of a line.
abs_words-Begins :
    (s : Bytes) (n p : ℕ) (ws : List Bytes)
    → All IsWord ws
    → Begins s p ws
    → (q : ℕ) × (abs_words false s n p ≡ some q) × Begins s q (drop n ws)
unfolding abs_words past_one
abs_words-Begins s zero p ws h b = (p, refl, b)
abs_words-Begins s (suc n) p [] h b =
    (p, (let e : byte s p ≡ 0 = byte-drop p s ∙ ap (λ t. byte t 0) b.here ∙ join_nil in rw e), b)
abs_words-Begins s (suc n) p ([] ∷ ws) (h, hs) b = absurd h
abs_words-Begins s (suc n) p ((c ∷ w) ∷ ws) (h, hs) b =
    let first : byte s p ≡ c = byte-drop p s ∙ ap (λ t. byte t 0) (b.here ∙ join-tail (c ∷ w) ws) in
    let f : (byte s p == 0) ≡ false = (let (x, y) = h.0 in ground arith) in
    let (q, run, ok) =
      abs_words-Begins s n _ ws hs
        (skip_blank-Begins s _ ws hs (past_one-Behind s p (c ∷ w) ws h b)) in
    (q, rw (f, run), ok)

-- `real_move_to_abs_word`, on a line of words with one blank between each two, moves to the word
-- of the number, or to the end of the line where there is none.
pub move_to_abs_word-Begins :
    (n : ℕ) (ws : List Bytes)
    → All IsWord ws
    → (q : ℕ) × (real_move_to_abs_word false (join ws) (pos n) ≡ some q)
      × Begins (join ws) q (drop n ws)
unfolding real_move_to_abs_word skip_blank
move_to_abs_word-Begins n ws h =
    let e : 0 + ahead my_isspace (join ws) ≡ 0 = omega (arith, ahead-join ws h) in
    let (q, run, ok) =
      abs_words-Begins (join ws) n 0 ws h (record { in_range = omega arith; here = refl }) in
    (q, rw e run, ok)
