-- ===== src/ScriptArray/Functions.antt =====
-- source/array.c: the functions of the scripts that change the arrays, on whole lines of arguments.
use tek_nap.Common.{
  ◌>>=◌, ℕ, ◌<◌, [], ◌∷◌, Bytes, IsText, Option, some, none, ◌==◌, ◌≡◌, refl, sym, subst, arith,
  inl, inr, Bool-cases,
}
use tek_nap.Common.Int.{ℤ, pos, negsuc}
use tek_nap.Text.Args.{next_arg}
use tek_nap.Text.Args.Parts.{IfText, next_arg-IsText}
use tek_nap.Text.Number.{my_atol, ltoa}
use tek_nap.ScriptArray.Table.{Arrays, toupper, upper, get_array, no_text}
use tek_nap.ScriptArray.Changes.{
  set_number, set_words, return_with, function_setitem, delete_number, delete_from,
  function_delitem, delete_whole, function_delarray,
}
use tek_nap.ScriptArray.Standing.{Stands}
use tek_nap.ScriptArray.Kept.{array_at, array_at-some, Kept, Pointer, get_array-Pointer}
use tek_nap.ScriptArray.Creating.{set_named-Stored}
use tek_nap.ScriptArray.Deleting.{delete_array-without, delete_number-removed}

toupper-text : (c : ℕ) → 0 < c → c < 256 → (0 < toupper c) × (toupper c < 256)
unfolding toupper
toupper-text c h k = ground arith

pub upper-IsText : (s : Bytes) → IsText s → IsText (upper s)
unfolding upper
upper-IsText [] h = tt
upper-IsText (c ∷ s) (h, hs) = (toupper-text c h.0 h.1, upper-IsText s hs)

-- A result, and a well-formed state.
abbrev Fine : Option (ℤ × Arrays) → Type 0
Fine o = (r : ℤ) × (t : Arrays) × (o ≡ some (r, t)) × Kept t

module _ (t : Arrays) (v : Kept t) where
  set_number-Fine :
      (name : Bytes) (item : ℤ) (input : Bytes)
      → IsText name
      → IsText input
      → Fine (set_number t name item input)
  unfolding set_number
  set_number-Fine name (negsuc n) input h k = (negsuc 0, t, refl, v)
  set_number-Fine name (pos item) input h k =
      let (r, t', run, ok) = set_named-Stored t v (upper name) (upper-IsText name h) item input k in
      (r, t', run, ok.kept)

  set_from : (name : Bytes) → Option Bytes → Bytes → Option (ℤ × Arrays)
  set_from name word input = elim word [
    | none ↦ some (negsuc 0, t)
    | some itemstr ↦ set_number t name (my_atol itemstr) input
  ]

  set_from-Fine :
      (name : Bytes) (word : Option Bytes) (input : Bytes)
      → IsText name
      → IsText input
      → Fine (set_from name word input)
  unfolding set_from
  set_from-Fine name none input h k = (negsuc 0, t, refl, v)
  set_from-Fine name (some itemstr) input h k = set_number-Fine name (my_atol itemstr) input h k

  set_words-Fine : (name input : Bytes) → IsText name → IsText input → Fine (set_words t name input)
  unfolding set_words set_from
  set_words-Fine [] input h k = (negsuc 0, t, refl, v)
  set_words-Fine (c ∷ name) input h k =
      set_from-Fine (c ∷ name) (next_arg input).word (next_arg input).rest h
        (next_arg-IsText input k).1

  -- A pointer that is not null, and the rest of a call for its array.
  delete_rest-Fine :
      (c : ℕ) (name : Bytes) (n : ℕ) (word : Option Bytes)
      → IsText (c ∷ name)
      → Stands t.array_info.item (upper (c ∷ name)) n
      → Fine (elim word [
        | none ↦ some (negsuc 1, t)
        | some itemstr ↦ delete_number t (c ∷ name) n (array_at t n) (my_atol itemstr)
      ])
  delete_rest-Fine c name n none h s = (negsuc 1, t, refl, v)
  delete_rest-Fine c name n (some itemstr) h s =
      let (r, t', run, kept, same) =
        delete_number-removed t v (upper (c ∷ name)) (upper-IsText (c ∷ name) h) (c ∷ name) n
          (my_atol itemstr) refl s in
      (r, t', run, kept)

  delete_from-Fine :
      (c : ℕ) (name input : Bytes) (p : Option ℕ)
      → IsText (c ∷ name)
      → Pointer t (upper (c ∷ name)) p
      → Fine (delete_from t (c ∷ name) input p)
  unfolding delete_from Pointer
  delete_from-Fine c name input none h k = (negsuc 0, t, refl, v)
  delete_from-Fine c name input (some n) h (b, s) =
      let (r, t', run, kept) = delete_rest-Fine c name n (next_arg input).word h s in
      (r, t', rw (array_at-some t n v b) run, kept)

  delete_whole-Fine :
      (c : ℕ) (name : Bytes) (p : Option ℕ)
      → IsText (c ∷ name)
      → Pointer t (upper (c ∷ name)) p
      → Fine (delete_whole t (c ∷ name) p)
  unfolding delete_whole Pointer
  delete_whole-Fine c name none h k = (negsuc 0, t, refl, v)
  delete_whole-Fine c name (some n) h (b, s) =
      let (t', run, kept, same) =
        delete_array-without t v (upper (c ∷ name)) (upper-IsText (c ∷ name) h) n s in
      (pos 0, t', rw run, kept)

  -- What is done with the pointer for the name.
  with-Pointer-Fine :
      (name : Bytes) (then_do : Option ℕ → Option (ℤ × Arrays))
      → IsText name
      → Fine (then_do none)
      → ((c : ℕ) (rest : Bytes)
          → name ≡ c ∷ rest
          → (p : Option ℕ) → Pointer t (upper (c ∷ rest)) p
          → Fine (then_do p))
      → Fine (do array ← get_array t name; then_do array)
  unfolding get_array no_text
  with-Pointer-Fine [] then_do h null any =
      let (r, t', run, kept) = null in
      (
        r,
        t',
        elim (Bool-cases (t.array_info.size == 0)) [ inl z ↦ rw z run | inr z ↦ rw z run ],
        kept,
      )
  with-Pointer-Fine (c ∷ name) then_do h null any =
      let (p, at, ok) = get_array-Pointer t c name v (upper-IsText (c ∷ name) h) in
      let (r, t', run, kept) = any c name refl p ok in (r, t', rw at run, kept)

  delete_from-none : (name input : Bytes) → Fine (delete_from t name input none)
  unfolding delete_from
  delete_from-none name input = (negsuc 0, t, refl, v)

  delete_named-Fine :
      (word : Option Bytes) (input : Bytes)
      → IfText word
      → Fine (elim word [
        | none ↦ some (negsuc 0, t)
        | some name ↦ do array ← get_array t name; delete_from t name input array
      ])
  delete_named-Fine none input h = (negsuc 0, t, refl, v)
  delete_named-Fine (some name) input h =
      with-Pointer-Fine name (delete_from t name input) h (delete_from-none name input)
        (λ c rest e p k.
          subst (λ s. Fine (delete_from t s input p)) (sym e)
            (delete_from-Fine c rest input p (subst IsText e h) k))

  delete_all-Fine :
      (word : Option Bytes)
      → IfText word
      → Fine (elim word [
        | none ↦ some (negsuc 0, t)
        | some name ↦ do array ← get_array t name; delete_whole t name array
      ])
  unfolding delete_whole
  delete_all-Fine none h = (negsuc 0, t, refl, v)
  delete_all-Fine (some name) h =
      with-Pointer-Fine name (delete_whole t name) h (negsuc 0, t, refl, v)
        (λ c rest e p k.
          subst (λ s. Fine (delete_whole t s p)) (sym e)
            (delete_whole-Fine c rest p (subst IsText e h) k))

  set_all-Fine :
      (word : Option Bytes) (input : Bytes)
      → IfText word
      → IsText input
      → Fine (elim word [ none ↦ some (negsuc 0, t) | some name ↦ set_words t name input ])
  set_all-Fine none input h k = (negsuc 0, t, refl, v)
  set_all-Fine (some name) input h k = set_words-Fine name input h k

  returned :
      (o : Option (ℤ × Arrays))
      → Fine o
      → (out : Bytes) × (t' : Arrays) × (return_with o ≡ some (out, t')) × Kept t'
  returned o (r, t', run, kept) = (ltoa r, t', rw run refl, kept)

  -- `function_setitem`, `function_delitem` and `function_delarray`, on a well-formed state and for any
  -- text, each come to an end without a fault and leave a well-formed state.
  pub change-Kept :
      (input : Bytes)
      → IsText input
      → ((out : Bytes) × (t' : Arrays) × (function_setitem t input ≡ some (out, t')) × Kept t')
        × ((out : Bytes) × (t' : Arrays) × (function_delitem t input ≡ some (out, t')) × Kept t')
        × ((out : Bytes) × (t' : Arrays) × (function_delarray t input ≡ some (out, t')) × Kept t')
  unfolding function_setitem function_delitem function_delarray
  change-Kept input h =
      let (w, k) = next_arg-IsText input h in
      (
        returned _ (set_all-Fine (next_arg input).word (next_arg input).rest w k),
        returned _ (delete_named-Fine (next_arg input).word (next_arg input).rest w),
        returned _ (delete_all-Fine (next_arg input).word w),
      )
