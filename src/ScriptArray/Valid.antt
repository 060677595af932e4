-- ===== src/ScriptArray/Valid.antt =====
-- source/array.c: what holds of an array between the calls. `idx`, `itm` and `word` are its cells where
-- they are in range.
use tek_nap.Common.{
  ℕ, zero, suc, ◌<◌, ◌≤◌, List, [], ◌∷◌, Bytes, IsText, true, false, some, length, get_elem?,
  get_or, set, ◌≡◌, ◌≢◌, refl, ap, lt→ltb, arith,
}
use tek_nap.Common.Int.{is_pos, is_neg}
use tek_nap.Text.Case.{strcmp}
use tek_nap.ScriptArray.Index.{AnArray, put, word_at}

abbrev pub idx : AnArray → ℕ → ℕ
idx a i = get_or a.index i 0

abbrev pub itm : AnArray → ℕ → Bytes
itm a n = get_or a.item n []

abbrev pub word : AnArray → ℕ → Bytes
word a i = itm a (idx a i)

abbrev pub NotAfter : Bytes → Bytes → Type 0
NotAfter s t = is_pos (strcmp s t) ≡ false

abbrev pub Before : Bytes → Bytes → Type 0
Before s t = is_neg (strcmp s t) ≡ true

-- The list has every number below `size`, each once.
pub record Permutes (xs : List ℕ) (size : ℕ) : Type 0 where
  pub measure : length xs ≡ size
  pub refers : (i : ℕ) → i < size → get_or xs i 0 < size
  pub covers : (n : ℕ) → n < size → (i : ℕ) × (i < size) × (get_or xs i 0 ≡ n)
  pub once : (i j : ℕ) → i < size → j < size → get_or xs i 0 ≡ get_or xs j 0 → i ≡ j

-- The index has every item once, and lists the items in the order of `strcmp`; a block of items may
-- be longer than what is in use.
pub record Ordered (a : AnArray) : Type 0 where
  pub room : a.size ≤ length a.item
  pub permutes : Permutes a.index a.size
  pub sorted : (i j : ℕ) → i ≤ j → j < a.size → NotAfter (word a i) (word a j)
  pub text : (n : ℕ) → n < a.size → IsText (itm a n)

-- What holds between the calls.
pub record Valid (a : AnArray) : Type 0 where
  pub ordered : Ordered a
  pub exact : length a.item ≡ a.size

module _ {ℓ} {A : Type ℓ} (d : A) where
  pub get_elem?-get_or :
      (xs : List A) (i : ℕ) → i < length xs → get_elem? xs i ≡ some (get_or xs i d)
  get_elem?-get_or [] i h = elim h [ ]
  get_elem?-get_or (x ∷ xs) zero h = refl
  get_elem?-get_or (x ∷ xs) (suc i) h = get_elem?-get_or xs i (omega arith)

  pub get_or-set_self : (xs : List A) (i : ℕ) (v : A) → i < length xs → get_or (set xs i v) i d ≡ v
  get_or-set_self [] i v h = elim h [ ]
  get_or-set_self (x ∷ xs) zero v h = refl
  get_or-set_self (x ∷ xs) (suc i) v h = get_or-set_self xs i v (omega arith)

  pub get_or-set_ne :
      (xs : List A) (i j : ℕ) (v : A) → i ≢ j → get_or (set xs i v) j d ≡ get_or xs j d
  get_or-set_ne [] i j v h = refl
  get_or-set_ne (x ∷ xs) zero zero v h = absurd (h refl)
  get_or-set_ne (x ∷ xs) zero (suc j) v h = refl
  get_or-set_ne (x ∷ xs) (suc i) zero v h = refl
  get_or-set_ne (x ∷ xs) (suc i) (suc j) v h = get_or-set_ne xs i j v (λ e. h (ap suc e))

pub put-some {ℓ} :
    {A : Type ℓ} (xs : List A) (i : ℕ) (x : A) → i < length xs → put xs i x ≡ some (set xs i x)
unfolding put
put-some xs i x h = rw (lt→ltb i (length xs) h)

pub word_at-word : (a : AnArray) → Ordered a → (i : ℕ) → i < a.size → word_at a i ≡ some (word a i)
unfolding word_at
word_at-word a v i h =
    let m = v.permutes.measure in
    rw (get_elem?-get_or 0 a.index i (omega arith)) (
      get_elem?-get_or [] a.item (idx a i)
        (let r = v.permutes.refers i h in let l = v.room in omega arith))
