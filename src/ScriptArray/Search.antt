-- ===== src/ScriptArray/Search.antt =====
-- `find_item` of source/array.c: what its two kinds of result say.
use tek_nap.Common.{
  ℕ, zero, suc, ◌+◌, ◌-◌, ◌/◌, ◌<◌, ◌≤◌, Bytes, IsText, true, false, some, ◌≡◌, refl, sym, subst,
  inl, inr, Bool-cases, lt→ltb, arith,
}
use native.Mathlib.Decide.{dec_lt}
use tek_nap.Common.Int.{ℤ, pos, negsuc, is_zero, is_pos, is_neg, negate}
use tek_nap.Text.Case.{strcmp}
use tek_nap.Text.Case.Order.{strcmp-negate, strcmp-zero-only, strcmp_neg_trans, strcmp_trans_neg}
use tek_nap.ScriptArray.Index.{AnArray, bisect, find_item, place_of}
use tek_nap.ScriptArray.Valid.{word, NotAfter, Before, Ordered, word_at-word}

-- The items before `b` are before the string, and the others behind it.
pub record Gap (a : AnArray) (find : Bytes) (b : ℕ) : Type 0 where
  pub in_range : b ≤ a.size
  pub below : (i : ℕ) → i < b → Before (word a i) find
  pub above : (i : ℕ) → b ≤ i → i < a.size → Before find (word a i)

-- The meaning of a result of `find_item`.
unfoldable pub Answer : AnArray → Bytes → ℤ → Type 0
Answer a find (pos k) = (k < a.size) × (word a k ≡ find)
Answer a find (negsuc b) = Gap a find b

negate-is_neg : (z : ℤ) → is_pos z ≡ true → is_neg (negate z) ≡ true
unfolding negate
negate-is_neg (pos zero) h = absurd (ground arith)
negate-is_neg (pos (suc n)) h = ground arith
negate-is_neg (negsuc n) h = absurd (ground arith)

swap-Before : (s t : Bytes) → is_pos (strcmp s t) ≡ true → Before t s
swap-Before s t h = rw (strcmp-negate s t) (negate-is_neg _ h)

is_neg-not_pos : (z : ℤ) → is_neg z ≡ true → is_pos z ≡ false
is_neg-not_pos (pos n) h = absurd (ground arith)
is_neg-not_pos (negsuc n) h = refl

pub Before-NotAfter : (s t : Bytes) → Before s t → NotAfter s t
Before-NotAfter s t = is_neg-not_pos (strcmp s t)

not_neg-is_pos : (z : ℤ) → is_zero z ≡ false → is_neg z ≡ false → is_pos z ≡ true
not_neg-is_pos (pos zero) h k = absurd (ground arith)
not_neg-is_pos (pos (suc n)) h k = refl
not_neg-is_pos (negsuc n) h k = absurd (ground arith)

-- The items that the search has left out are on the right sides.
record Between (a : AnArray) (find : Bytes) (bottom hi : ℕ) : Type 0 where
  pub in_range : hi ≤ a.size
  pub below : (i : ℕ) → i < bottom → Before (word a i) find
  pub above : (i : ℕ) → hi ≤ i → i < a.size → Before find (word a i)

module _ (a : AnArray) (v : Ordered a) (find : Bytes) (text : IsText find) where
  word-IsText : (i : ℕ) → i < a.size → IsText (word a i)
  word-IsText i h = v.text _ (v.permutes.refers i h)

  lower_half :
      {bottom hi : ℕ} (key : ℕ)
      → key < a.size
      → Before find (word a key)
      → Between a find bottom hi
      → Between a find bottom key
  lower_half key h k b = record {
    in_range = omega arith;
    below = b.below;
    above = λ i l m.
        strcmp_neg_trans find (word a key) (word a i) text (word-IsText key h) k
          (v.sorted key i l m);
  }

  upper_half :
      {bottom hi : ℕ} (key : ℕ)
      → key < a.size
      → Before (word a key) find
      → Between a find bottom hi
      → Between a find (key + 1) hi
  upper_half key h k b = record {
    in_range = b.in_range;
    below = λ i l.
        strcmp_trans_neg (word a i) (word a key) find (word-IsText i (omega arith))
          (word-IsText key h) (v.sorted i key (omega arith) h) k;
    above = b.above;
  }

  bisect-Answer :
      (fuel bottom hi : ℕ)
      → hi < bottom + fuel
      → bottom ≤ hi
      → Between a find bottom hi
      → (r : ℤ) × (bisect fuel a find bottom hi ≡ some r) × Answer a find r
  unfolding bisect Answer
  bisect-Answer zero bottom hi f le b = absurd (omega arith)
  bisect-Answer (suc fuel) bottom hi f le b = elim (dec_lt bottom hi) [
    | no p ↦
        let e : hi ≡ bottom = omega arith in
        (
          negsuc bottom,
          ground arith,
          record {
            in_range = let r = b.in_range in omega arith;
            below = b.below;
            above = subst (λ h. (i : ℕ) → h ≤ i → i < a.size → Before find (word a i)) e b.above;
          },
        )
    | yes p ↦
        let key = (hi - 1 - bottom) / 2 + bottom in
        let l : key < hi = omega arith in
        let m : key < a.size = (let r = b.in_range in omega arith) in
        elim (Bool-cases (is_zero (strcmp find (word a key)))) [
          | inl z ↦ (
            pos key,
            rw (lt→ltb bottom hi p, word_at-word a v key m, z),
            (m, sym (strcmp-zero-only find (word a key) text (word-IsText key m) z)),
          )
          | inr z ↦ elim (Bool-cases (is_neg (strcmp find (word a key)))) [
            | inl n ↦
                let (r, run, ok) =
                  bisect-Answer fuel bottom key (omega arith) (omega arith)
                    (lower_half key m n b) in
                (r, rw (lt→ltb bottom hi p, word_at-word a v key m, z, n, run), ok)
            | inr n ↦
                let (r, run, ok) =
                  bisect-Answer fuel (key + 1) hi (omega arith) (omega arith)
                    (upper_half key m (swap-Before find (word a key) (not_neg-is_pos _ z n)) b) in
                (r, rw (lt→ltb bottom hi p, word_at-word a v key m, z, n, run), ok)
          ]
        ]
  ]

-- `find_item`, on an ordered array and for a string without NUL, comes to an end. A result `k` from
-- zero on is the place in the index of an item equal to the string; a result `-b - 1` says that
-- exactly the first `b` items of the index are before the string in the order of `strcmp`, that
-- all others are behind it, and so that none is equal to it.
pub find_item-Answer :
    (a : AnArray) (find : Bytes)
    → Ordered a
    → IsText find
    → (r : ℤ) × (find_item a find ≡ some r) × Answer a find r
unfolding find_item
find_item-Answer a find v text =
    bisect-Answer a v find text (a.size + 1) 0 a.size (omega arith) (omega arith) (record {
      in_range = omega arith;
      below = λ i h. absurd (omega arith);
      above = λ i h k. absurd (omega arith);
    })

-- `p` is a place for the string: nothing before it is behind the string, and the other way round.
pub record Placed (a : AnArray) (find : Bytes) (p : ℕ) : Type 0 where
  pub in_range : p ≤ a.size
  pub below : (i : ℕ) → i < p → i < a.size → NotAfter (word a i) find
  pub above : (i : ℕ) → p ≤ i → i < a.size → NotAfter find (word a i)

pub Answer-Placed :
    (a : AnArray) (find : Bytes) (r : ℤ) → Ordered a → Answer a find r → Placed a find (place_of r)
unfolding Answer place_of
Answer-Placed a find (pos k) v (h, e) = record {
  in_range = omega arith;
  below = λ i l m. subst (NotAfter (word a i)) e (v.sorted i k (omega arith) h);
  above = λ i l m. subst (λ s. NotAfter s (word a i)) e (v.sorted k i l m);
}
Answer-Placed a find (negsuc b) v g = record {
  in_range = g.in_range;
  below = λ i l m. Before-NotAfter _ _ (g.below i l);
  above = λ i l m. Before-NotAfter _ _ (g.above i l m);
}
