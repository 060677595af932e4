-- ===== src/ScriptArray/Standing.antt =====
-- source/array.c: what storing and removing under a name do where the name stands.
use tek_nap.Common.{
  ℕ, zero, suc, ◌<◌, List, [], ◌∷◌, ◌++◌, Bytes, some, none, length, set, get_or, ◌≡◌, ◌≢◌, refl,
  ap, arith, IsText, true, false, inl, inr, Bool-cases,
}
use tek_nap.Common.Int.{ℤ, pos, negsuc, is_zero}
use tek_nap.Text.Case.{strcmp}
use tek_nap.Text.Case.Order.{strcmp_self, strcmp-zero-only}
use tek_nap.ScriptArray.Index.{AnArray}
use tek_nap.ScriptArray.Remove.{remove_at}
use tek_nap.ScriptArray.Contents.{pairs, same_name, items_of, store_at, store, without, with_items}

-- `same_name` decides.
pub same_name-true : (s : Bytes) → same_name s s ≡ true
unfolding same_name
same_name-true s = ap is_zero (strcmp_self s)

pub same_name-false : (s t : Bytes) → IsText s → IsText t → s ≢ t → same_name s t ≡ false
unfolding same_name
same_name-false s t hs ht ne = elim (Bool-cases (is_zero (strcmp s t))) [
  | inl z ↦ absurd (ne (strcmp-zero-only s t hs ht z))
  | inr z ↦ z
]

pub store_at-set :
    (xs : List Bytes) (item : ℕ) (input : Bytes)
    → item < length xs
    → store_at xs item input ≡ (pos 0, set xs item input)
unfolding store_at
store_at-set [] item input h = elim h [ ]
store_at-set (x ∷ xs) zero input h = refl
store_at-set (x ∷ xs) (suc item) input h = rw (store_at-set xs item input (omega arith))

pub store_at-append :
    (xs : List Bytes) (item : ℕ) (input : Bytes)
    → item ≡ length xs
    → store_at xs item input ≡ (pos 2, xs ++ (input ∷ []))
unfolding store_at
store_at-append [] zero input h = refl
store_at-append [] (suc item) input h = absurd (omega arith)
store_at-append (x ∷ xs) zero input h = absurd (omega arith)
store_at-append (x ∷ xs) (suc item) input h = rw (store_at-append xs item input (omega arith))

pub store_at-beyond :
    (xs : List Bytes) (item : ℕ) (input : Bytes)
    → length xs < item
    → store_at xs item input ≡ (negsuc 1, xs)
unfolding store_at
store_at-beyond [] zero input h = absurd (omega arith)
store_at-beyond [] (suc item) input h = refl
store_at-beyond (x ∷ xs) zero input h = absurd (omega arith)
store_at-beyond (x ∷ xs) (suc item) input h = rw (store_at-beyond xs item input (omega arith))

abbrev pub no_array : AnArray
no_array = record { item = []; index = []; size = 0 }

-- The name stands first at place `n`.
pub record Stands (names : List Bytes) (name : Bytes) (n : ℕ) : Type 0 where
  pub in_range : n < length names
  pub here : get_or names n [] ≡ name
  pub texts : (i : ℕ) → i < length names → IsText (get_or names i [])
  pub earlier : (i : ℕ) → i < n → get_or names i [] ≢ name

later :
    (x : Bytes) (xs : List Bytes) (name : Bytes) (n : ℕ)
    → Stands (x ∷ xs) name (suc n)
    → Stands xs name n
later x xs name n s = record {
  in_range = let h = s.in_range in omega arith;
  here = s.here;
  texts = λ i h. s.texts (suc i) (omega arith);
  earlier = λ i h. s.earlier (suc i) (omega arith);
}

first-ne :
    (x : Bytes) (xs : List Bytes) (name : Bytes) (n : ℕ)
    → IsText name
    → Stands (x ∷ xs) name (suc n)
    → same_name x name ≡ false
first-ne x xs name n text s =
    same_name-false x name (s.texts 0 (omega arith)) text (s.earlier 0 (omega arith))

-- The name is not there.
abbrev pub Absent : (name : Bytes) → List Bytes → Type 0
Absent name names =
    (i : ℕ) → i < length names → IsText (get_or names i []) × (get_or names i [] ≢ name)

module _ (name : Bytes) (text : IsText name) where
  pub items_of-Stands :
      (names : List Bytes) (arrays : List AnArray) (n : ℕ)
      → length arrays ≡ length names
      → Stands names name n
      → items_of (pairs names arrays) name ≡ some ((get_or arrays n no_array).item)
  unfolding items_of pairs
  items_of-Stands [] arrays n l s = absurd (let h = s.in_range in omega arith)
  items_of-Stands (x ∷ xs) [] n l s = absurd (omega arith)
  items_of-Stands (x ∷ xs) (a ∷ arrays) zero l s = rw (s.here, same_name-true name)
  items_of-Stands (x ∷ xs) (a ∷ arrays) (suc n) l s =
      rw (
        first-ne x xs name n text s,
        items_of-Stands xs arrays n (omega arith) (later x xs name n s),
      )

  pub store-Stands :
      (names : List Bytes) (arrays : List AnArray) (n item : ℕ) (input : Bytes) (r : ℤ)
      (a' : AnArray)
      → length arrays ≡ length names
      → Stands names name n
      → store_at ((get_or arrays n no_array).item) item input ≡ (r, a'.item)
      → store (pairs names arrays) name item input ≡ (r, pairs names (set arrays n a'))
  unfolding store pairs
  store-Stands [] arrays n item input r a' l s e = absurd (let h = s.in_range in omega arith)
  store-Stands (x ∷ xs) [] n item input r a' l s e = absurd (omega arith)
  store-Stands (x ∷ xs) (a ∷ arrays) zero item input r a' l s e =
      rw (s.here, same_name-true name, e)
  store-Stands (x ∷ xs) (a ∷ arrays) (suc n) item input r a' l s e = rw (
    first-ne x xs name n text s,
    store-Stands xs arrays n item input r a' (omega arith) (later x xs name n s) e,
  )

  pub without-Stands :
      (names : List Bytes) (arrays : List AnArray) (n : ℕ)
      → length arrays ≡ length names
      → Stands names name n
      → without (pairs names arrays) name ≡ pairs (remove_at names n) (remove_at arrays n)
  unfolding without pairs remove_at
  without-Stands [] arrays n l s = absurd (let h = s.in_range in omega arith)
  without-Stands (x ∷ xs) [] n l s = absurd (omega arith)
  without-Stands (x ∷ xs) (a ∷ arrays) zero l s = rw (s.here, same_name-true name)
  without-Stands (x ∷ xs) (a ∷ arrays) (suc n) l s =
      rw (
        first-ne x xs name n text s,
        without-Stands xs arrays n (omega arith) (later x xs name n s),
      )

  pub with_items-Stands :
      (names : List Bytes) (arrays : List AnArray) (n : ℕ) (a' : AnArray)
      → length arrays ≡ length names
      → Stands names name n
      → with_items (pairs names arrays) name a'.item ≡ pairs names (set arrays n a')
  unfolding with_items pairs
  with_items-Stands [] arrays n a' l s = absurd (let h = s.in_range in omega arith)
  with_items-Stands (x ∷ xs) [] n a' l s = absurd (omega arith)
  with_items-Stands (x ∷ xs) (a ∷ arrays) zero a' l s = rw (s.here, same_name-true name)
  with_items-Stands (x ∷ xs) (a ∷ arrays) (suc n) a' l s = rw (
    first-ne x xs name n text s,
    with_items-Stands xs arrays n a' (omega arith) (later x xs name n s),
  )

  Absent-first : (x : Bytes) (xs : List Bytes) → Absent name (x ∷ xs) → same_name x name ≡ false
  Absent-first x xs h = let (t, ne) = h 0 (omega arith) in same_name-false x name t text ne

  Absent-later : (x : Bytes) (xs : List Bytes) → Absent name (x ∷ xs) → Absent name xs
  Absent-later x xs h i b = h (suc i) (omega arith)

  pub items_of-Absent :
      (names : List Bytes) (arrays : List AnArray)
      → Absent name names
      → items_of (pairs names arrays) name ≡ none
  unfolding items_of pairs
  items_of-Absent [] arrays h = refl
  items_of-Absent (x ∷ xs) [] h = refl
  items_of-Absent (x ∷ xs) (a ∷ arrays) h =
      rw (Absent-first x xs h, items_of-Absent xs arrays (Absent-later x xs h))

  pub store-Absent_first :
      (names : List Bytes) (arrays : List AnArray) (input : Bytes) (a' : AnArray)
      → length arrays ≡ length names
      → Absent name names
      → a'.item ≡ input ∷ []
      → store (pairs names arrays) name 0 input
        ≡ (pos 1, pairs (names ++ (name ∷ [])) (arrays ++ (a' ∷ [])))
  unfolding store pairs
  store-Absent_first [] [] input a' l h e = rw e
  store-Absent_first [] (a ∷ arrays) input a' l h e = absurd (omega arith)
  store-Absent_first (x ∷ xs) [] input a' l h e = absurd (omega arith)
  store-Absent_first (x ∷ xs) (a ∷ arrays) input a' l h e = rw (
    Absent-first x xs h,
    store-Absent_first xs arrays input a' (omega arith) (Absent-later x xs h) e,
  )

  pub store-Absent :
      (names : List Bytes) (arrays : List AnArray) (item : ℕ) (input : Bytes)
      → Absent name names
      → item ≢ 0
      → store (pairs names arrays) name item input ≡ (negsuc 0, pairs names arrays)
  unfolding store pairs
  store-Absent names arrays zero input h ne = absurd (ne refl)
  store-Absent [] arrays (suc item) input h ne = refl
  store-Absent (x ∷ xs) [] (suc item) input h ne = refl
  store-Absent (x ∷ xs) (a ∷ arrays) (suc item) input h ne =
      rw (Absent-first x xs h, store-Absent xs arrays (suc item) input (Absent-later x xs h) ne)
