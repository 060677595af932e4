-- ===== src/ScriptArray/Reorder.antt =====
-- source/array.c: moving one number of an index to the place of its item sorts the index again.
use tek_nap.Common.{
  subst₂, IsText, ℕ, ◌<◌, ◌≤◌, List, [], Bytes, length, get_or, ◌≡◌, ◌≢◌, sym, ap, ◌∙◌, subst,
  arith,
}
use native.Mathlib.Decide.{dec_lt}
use tek_nap.Text.Case.Order.{strcmp_self}
use tek_nap.Common.Int.{is_pos}
use tek_nap.ScriptArray.Valid.{NotAfter, Permutes, Valid}
use tek_nap.ScriptArray.Moved.{moved_from, target, Moved}

moved_from-lt : (old new j m : ℕ) → old < m → new < m → j < m → moved_from old new j < m
unfolding moved_from
moved_from-lt old new j m h k l = ground arith

moved_from_back : (old new j : ℕ) → moved_from old new (moved_from new old j) ≡ j
unfolding moved_from
moved_from_back old new j = ground arith

pub Moved-Permutes :
    (zs ys : List ℕ) (m old new : ℕ)
    → Permutes zs m
    → old < m
    → new < m
    → Moved zs ys old new
    → Permutes ys m
Moved-Permutes zs ys m old new v h k s =
    let l = v.measure in
    let at : (j : ℕ) → j < m → get_or ys j 0 ≡ get_or zs (moved_from old new j) 0 =
      λ j b. s.at j (omega arith) in
    let src : (j : ℕ) → j < m → moved_from old new j < m = λ j b. moved_from-lt old new j m h k b in
    record {
      measure = s.measure ∙ l;
      refers = λ i b. subst (λ x. x < m) (sym (at i b)) (v.refers _ (src i b));
      covers = λ n b.
          let (i, c, e) = v.covers n b in
          (
            moved_from new old i,
            moved_from-lt new old i m k h c,
            at _ (moved_from-lt new old i m k h c)
                ∙ ap (λ i. get_or zs i 0) (moved_from_back old new i)
                ∙ e,
          );
      once = λ i j b c e.
          sym (moved_from_back new old i)
          ∙ ap (moved_from new old) (v.once _ _ (src i b) (src j c) (sym (at i b) ∙ e ∙ at j c))
          ∙ moved_from_back new old j;
    }

target-lt : (old p m : ℕ) → old < m → p ≤ m → target old p < m
unfolding target
target-lt old p m h k = ground arith

-- What stands before the place that the moved one takes was before `p`, and so on.
from_below :
    (old p i : ℕ)
    → i < target old p
    → (moved_from old (target old p) i < p) × (moved_from old (target old p) i ≢ old)
unfolding target moved_from
from_below old p i h = (ground arith, λ e. ground arith)

from_above :
    (old p i : ℕ)
    → target old p < i
    → (p ≤ moved_from old (target old p) i) × (moved_from old (target old p) i ≢ old)
unfolding target moved_from
from_above old p i h = (ground arith, λ e. ground arith)

from_self : (old p : ℕ) → moved_from old (target old p) (target old p) ≡ old
unfolding moved_from
from_self old p = ground arith

from_rises :
    (old p i j : ℕ)
    → i ≤ j
    → i ≢ target old p
    → j ≢ target old p
    → moved_from old (target old p) i ≤ moved_from old (target old p) j
unfolding target moved_from
from_rises old p i j h k l = ground arith

-- The words that the numbers `zs` refer to stand in order, but for the one at `old`; it would stand
-- in order at `p`.
pub record AllBut (word : ℕ → Bytes) (m old p : ℕ) : Type 0 where
  pub sorted : (i j : ℕ) → i ≤ j → j < m → i ≢ old → j ≢ old → NotAfter (word i) (word j)
  pub below : (i : ℕ) → i < p → i < m → i ≢ old → NotAfter (word i) (word old)
  pub above : (i : ℕ) → p ≤ i → i < m → i ≢ old → NotAfter (word old) (word i)

pub NotAfter-refl : (s : Bytes) → NotAfter s s
NotAfter-refl s = ap is_pos (strcmp_self s)

module _ (word : ℕ → Bytes) (m old p : ℕ) (v : AllBut word m old p) (h : old < m) (k : p ≤ m) where
  abbrev from : ℕ → ℕ
  from j = moved_from old (target old p) j

  pub AllBut-sorted :
      (i j : ℕ)
      → i ≤ j
      → j < m
      → NotAfter (word (moved_from old (target old p) i)) (word (moved_from old (target old p) j))
  AllBut-sorted i j l b =
      let src : (i : ℕ) → i < m → from i < m =
        λ i c. moved_from-lt old (target old p) i m h (target-lt old p m h k) c in
      let self = from_self old p in
      elim (dec_lt i (target old p)) [
        | yes q ↦
            let (c, ne) = from_below old p i q in
            elim (dec_lt j (target old p)) [
              | yes r ↦
                  v.sorted _ _ (from_rises old p i j l (λ e. omega arith) (λ e. omega arith))
                    (src j b) ne ((from_below old p j r).1)
              | no r ↦ elim (dec_lt (target old p) j) [
                | yes t ↦
                    v.sorted _ _ (from_rises old p i j l (λ e. omega arith) (λ e. omega arith))
                      (src j b) ne ((from_above old p j t).1)
                | no t ↦
                    let e : j ≡ target old p = omega arith in
                    subst (λ x. NotAfter (word (from i)) (word x)) (sym (ap from e ∙ self))
                      (v.below _ c (src i (omega arith)) ne)
              ]
            ]
        | no q ↦ elim (dec_lt (target old p) i) [
          | yes r ↦
              v.sorted _ _ (from_rises old p i j l (λ e. omega arith) (λ e. omega arith)) (src j b)
                ((from_above old p i r).1) ((from_above old p j (omega arith)).1)
          | no r ↦
              let e : i ≡ target old p = omega arith in
              let at_old = sym (ap from e ∙ self) in
              elim (dec_lt (target old p) j) [
                | yes t ↦
                    let (c, ne) = from_above old p j t in
                    subst (λ x. NotAfter (word x) (word (from j))) at_old (v.above _ c (src j b) ne)
                | no t ↦
                    let d : i ≡ j = omega arith in
                    subst (λ x. NotAfter (word (from i)) (word (from x))) d (NotAfter-refl _)
              ]
        ]
      ]

-- An index whose numbers are those of `zs`, one of them moved to the place of its item.
pub AllBut-Valid :
    (item : List Bytes) (zs ys : List ℕ) (m old p : ℕ)
    → length item ≡ m
    → ((n : ℕ) → n < m → IsText (get_or item n []))
    → Permutes zs m
    → old < m
    → p ≤ m
    → AllBut (λ i. get_or item (get_or zs i 0) []) m old p
    → Moved zs ys old (target old p)
    → Valid (record { item = item; index = ys; size = m })
AllBut-Valid item zs ys m old p l text perm h k v s =
    let w : ℕ → Bytes = λ n. get_or item n [] in
    let q = target-lt old p m h k in
    let lz = perm.measure in
    record {
      ordered = record {
        room = omega arith;
        permutes = Moved-Permutes zs ys m old (target old p) perm h q s;
        sorted = λ i j le b.
            subst₂ (λ x y. NotAfter (w x) (w y)) (sym (s.at i (omega arith)))
              (sym (s.at j (omega arith)))
              (AllBut-sorted (λ i. w (get_or zs i 0)) m old p v h k i j le b);
        text = text;
      };
      exact = l;
    }
