-- ===== src/Timer/Fresh.antt =====
-- source/timer.c: the reference of a new timer is not that of another one.
use tek_nap.Common.{
  ℕ, ◌+◌, ◌%◌, ◌^◌, ◌<◌, ◌≤◌, List, [], ◌∷◌, Bytes, false, ◌==◌, All, IsText, some, length, ◌≡◌,
  refl, sym, ap, ◌∙◌, subst, arith, ltb, lt→ltb, Bool-cases, inl, inr, take-all,
}
use native.Mathlib.Decide.{dec_lt}
use tek_nap.Common.Int.{ℤ, pos, negsuc, is_zero, is_neg}
use tek_nap.Text.Case.{my_stricmp}
use tek_nap.Text.Case.Order.{my_stricmp_iff}
use tek_nap.Text.Search.{isdigit}
use tek_nap.Text.Number.{my_atol, ltoa, int_of_long, wrap_int}
use tek_nap.Text.Number.Print.{my_atol-ltoa}
use tek_nap.Text.Number.Digits.{AllDigits, same_digits, put_digits-AllDigits, length-put_digits}
use tek_nap.Timer.{Timer, has_ref}
use tek_nap.Timer.Create.{
  less, highest, next_int, in_use, refnum_max, cut_ref, choose_ref, create_timer_ref,
}

-- A timer whose reference is a text, and as a number is below 999999999.
abbrev pub SmallRef : Timer → Type 0
SmallRef t = IsText t.ref × ((k : ℕ) → my_atol t.ref ≡ pos k → k < 999999999)

int_of_long-small : (k : ℕ) → k < 999999999 → int_of_long (pos k) ≡ pos k
unfolding int_of_long wrap_int
int_of_long-small k h =
    let e : k % 2 ^ 32 ≡ k = omega arith in rw (e, lt→ltb k (2 ^ 31) (omega arith))

-- `m` is not below the number of any timer.
record Highest (ts : List Timer) (m n : ℕ) : Type 0 where
  rises : m ≤ n
  small : n < 999999999
  bound : All (λ t. (k : ℕ) → my_atol t.ref ≡ pos k → k ≤ n) ts

magnitude : ℤ → ℕ
magnitude (pos n) = n
magnitude (negsuc n) = 0

pub pos-injective : (m n : ℕ) → pos m ≡ pos n → m ≡ n
unfolding magnitude
pos-injective m n e = ap magnitude e

pos-ne-negsuc : (m n : ℕ) → ¬ pos m ≡ negsuc n
pos-ne-negsuc m n e = absurd (let f = ap is_neg e in ground arith)

-- One round of the loop.
step-Highest :
    (v : ℤ) (t : Timer) (ts : List Timer) (m : ℕ)
    → my_atol t.ref ≡ v
    → ((k : ℕ) → my_atol t.ref ≡ pos k → k < 999999999)
    → m < 999999999
    → ((m' : ℕ) → m' < 999999999 → (n : ℕ) × (highest (pos m') ts ≡ pos n) × Highest ts m' n)
    → (n : ℕ) × (highest (pos m) (t ∷ ts) ≡ pos n) × Highest (t ∷ ts) m n
unfolding highest less
step-Highest (negsuc v) t ts m e s h rec =
    let (n, run, w) = rec m h in
    (
      n,
      rw (e, run),
      record {
        rises = w.rises;
        small = w.small;
        bound = (λ k d. absurd (pos-ne-negsuc k v (sym d ∙ e)), w.bound);
      },
    )
step-Highest (pos v) t ts m e s h rec = elim (dec_lt m v) [
  | yes p ↦
      let lt = s v e in
      let (n, run, w) = rec v lt in
      (
        n,
        rw (e, lt→ltb m v p, int_of_long-small v lt, run),
        record {
          rises = (let r = w.rises in omega arith);
          small = w.small;
          bound = (λ k d. subst (λ j. j ≤ n) (pos-injective v k (sym e ∙ d)) w.rises, w.bound);
        },
      )
  | no p ↦
      let f : ltb m v ≡ false = ground arith in
      let (n, run, w) = rec m h in
      (
        n,
        rw (e, f, run),
        record {
          rises = w.rises;
          small = w.small;
          bound = (
            λ k d.
                subst (λ j. j ≤ n) (pos-injective v k (sym e ∙ d)) (let r = w.rises in omega arith),
            w.bound,
          );
        },
      )
]

highest-Highest :
    (ts : List Timer) (m : ℕ)
    → All SmallRef ts
    → m < 999999999
    → (n : ℕ) × (highest (pos m) ts ≡ pos n) × Highest ts m n
unfolding highest
highest-Highest [] m s h = (m, refl, record { rises = omega arith; small = h; bound = tt })
highest-Highest (t ∷ ts) m (s, ss) h =
    step-Highest (my_atol t.ref) t ts m refl s.1 h (λ m' h'. highest-Highest ts m' ss h')

-- A number above all of them is in use by none.
in_use-above :
    (ref : Bytes) (r n : ℕ) (ts : List Timer)
    → AllDigits ref
    → IsText ref
    → my_atol ref ≡ pos r
    → n < r
    → All SmallRef ts
    → All (λ t. (k : ℕ) → my_atol t.ref ≡ pos k → k ≤ n) ts
    → in_use ref ts ≡ false
unfolding in_use has_ref
in_use-above ref r n [] d text e h s b = refl
in_use-above ref r n (t ∷ ts) d text e h (s, ss) (b, bs) =
    elim (Bool-cases (is_zero (my_stricmp t.ref ref))) [
      | inl z ↦
          let same : t.ref ≡ ref =
            same_digits t.ref ref s.0 d ((my_stricmp_iff t.ref ref s.0 text).0 z) in
          let le = b r (ap my_atol same ∙ e) in absurd (omega arith)
      | inr z ↦ rw z (in_use-above ref r n ts d text e h ss bs)
    ]

-- What `create_timer_ref` chooses for timers `ts`.
pub record FreshRef (ts : List Timer) (ref : Bytes) : Type 0 where
  pub unused : in_use ref ts ≡ false
  pub short : length ref ≤ 10

digits-IsText : (s : Bytes) → AllDigits s → IsText s
unfolding isdigit
digits-IsText [] h = tt
digits-IsText (c ∷ s) (h, hs) = (ground arith, digits-IsText s hs)

ltoa-AllDigits : (n : ℕ) → n < 10 ^ 10 → AllDigits (ltoa (pos n))
unfolding ltoa
ltoa-AllDigits n h = put_digits-AllDigits 20 n [] (omega arith) tt

length-ltoa : (n : ℕ) → n < 10 ^ 10 → length (ltoa (pos n)) ≤ 10
unfolding ltoa
length-ltoa n h = let r = length-put_digits 20 9 n [] h in omega arith

-- `create_timer_ref`, with no reference wanted and the numbers in the references of the pending
-- timers below 999999999, comes to an end and gives a reference that no pending timer has, in
-- whatever case of its letters, of ten characters at most.
pub create_timer_ref-FreshRef :
    (ts : List Timer)
    → All SmallRef ts
    → (ref : Bytes) × (create_timer_ref ts [] ≡ some (some ref)) × FreshRef ts ref
unfolding create_timer_ref choose_ref cut_ref next_int refnum_max
create_timer_ref-FreshRef ts s =
    let (n, run, w) = highest-Highest ts 0 s (omega arith) in
    let h = w.small in
    let ref = ltoa (pos (n + 1)) in
    let digits : AllDigits ref = ltoa-AllDigits (n + 1) (omega arith) in
    let short : length ref ≤ 10 = length-ltoa (n + 1) (omega arith) in
    let not_largest : (n == 2147483647) ≡ false = ground arith in
    (
      ref,
      rw (run, not_largest) (ap (λ t. some (some t)) (take-all 10 ref short)),
      record {
        unused =
            in_use-above ref (n + 1) n ts digits (digits-IsText ref digits)
              ((my_atol-ltoa (n + 1) (omega arith)).0) (omega arith) s w.bound;
        short = short;
      },
    )
