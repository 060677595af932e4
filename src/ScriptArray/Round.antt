-- ===== src/ScriptArray/Round.antt =====
-- source/array.c: what `function_setitem` stored, `function_getitem` returns.
use tek_nap.Common.{
  ◌>>=◌, ℕ, zero, suc, ◌<◌, ◌≤◌, List, [], ◌∷◌, Bytes, IsText, Option, some, none, length,
  get_elem?, ◌≡◌, refl, sym, ap, ◌∙◌, subst, arith, Bool-cases, inl, inr, lt→ltb,
}
use mathlib.Core.Option.{some-injective, none-ne-some}
use tek_nap.Common.Int.{ℤ, pos}
use tek_nap.Text.Args.{next_arg}
use tek_nap.Text.Args.Parts.{IfText, next_arg-IsText}
use tek_nap.Text.Number.{my_atol, ltoa}
use tek_nap.ScriptArray.Index.{AnArray}
use tek_nap.ScriptArray.Table.{Arrays, upper, get_array}
use tek_nap.ScriptArray.Calls.{in_array, at_item, if_within, function_getitem}
use tek_nap.ScriptArray.Changes.{function_setitem, set_words, set_number, set_named, return_with}
use tek_nap.ScriptArray.Contents.{Contents, contents, items_of, store, store_at, same_name}
use tek_nap.ScriptArray.Standing.{same_name-true}
use tek_nap.ScriptArray.Kept.{
  array_at, array_at-some, Kept, Pointer, get_array-Pointer, items_of-Pointer,
}
use tek_nap.ScriptArray.Setting.{Stored}
use tek_nap.ScriptArray.Creating.{set_named-Stored}
use tek_nap.ScriptArray.Functions.{upper-IsText}

-- Whether storing at the number is possible: no further than right behind the last item.
unfoldable pub Fits : Option (List Bytes) → ℕ → Type 0
Fits none item = item ≡ 0
Fits (some items) item = item ≤ length items

store_at-get :
    (items : List Bytes) (item : ℕ) (input : Bytes)
    → item ≤ length items
    → get_elem? (store_at items item input).1 item ≡ some input
unfolding store_at
store_at-get [] zero input h = refl
store_at-get [] (suc item) input h = absurd (omega arith)
store_at-get (x ∷ xs) zero input h = refl
store_at-get (x ∷ xs) (suc item) input h = store_at-get xs item input (omega arith)

abbrev Held : Contents → (name : Bytes) → ℕ → Bytes → Type 0
Held cs name item input =
    (items : List Bytes) × (items_of cs name ≡ some items) × (get_elem? items item ≡ some input)

-- What was stored is there.
store-Held :
    (cs : Contents) (name : Bytes) (item : ℕ) (input : Bytes)
    → Fits (items_of cs name) item
    → Held (store cs name item input).1 name item input
unfolding Fits items_of store
store-Held [] name zero input h = (input ∷ [], rw (same_name-true name), refl)
store-Held [] name (suc item) input h = absurd (omega arith)
store-Held ((n, items) ∷ cs) name item input h = elim (Bool-cases (same_name n name)) [
  | inl z ↦
      ((store_at items item input).1, rw (z, z) refl, store_at-get items item input (rw z at h))
  | inr z ↦
      let (items', at, got) = store-Held cs name item input (rw z at h) in
      (items', rw (z, z) at, got)
]

module _ (t : Arrays) (v : Kept t) where
  item_of : Bytes → AnArray → Option Bytes
  item_of rest a = at_item rest a.size [] (get_elem? a.item)

  item_of-some :
      (rest itemstr : Bytes) (a : AnArray) (item : ℕ) (input : Bytes)
      → (next_arg rest).word ≡ some itemstr
      → my_atol itemstr ≡ pos item
      → item < a.size
      → get_elem? a.item item ≡ some input
      → item_of rest a ≡ some input
  unfolding item_of at_item if_within
  item_of-some rest itemstr a item input w n h got = rw (at_item, w, n, lt→ltb item a.size h, got)

  get_elem?-lt :
      (items : List Bytes) (item : ℕ) (input : Bytes)
      → get_elem? items item ≡ some input
      → item < length items
  get_elem?-lt [] item input e = absurd (none-ne-some input e)
  get_elem?-lt (x ∷ items) zero input e = omega arith
  get_elem?-lt (x ∷ items) (suc item) input e = omega (arith, get_elem?-lt items item input e)

  through :
      (name rest itemstr : Bytes) (item : ℕ) (items : List Bytes) (input : Bytes) (p : Option ℕ)
      → Pointer t name p
      → elim p [ none ↦ none | some n ↦ some ((array_at t n).item) ] ≡ some items
      → (next_arg rest).word ≡ some itemstr
      → my_atol itemstr ≡ pos item
      → get_elem? items item ≡ some input
      → elim p [
        | none ↦ some []
        | some n ↦ do array ← get_elem? t.array_array n; item_of rest array
      ]
        ≡ some input
  unfolding Pointer
  through name rest itemstr item items input none ok e w n got = absurd (none-ne-some items e)
  through name rest itemstr item items input (some m) (b, s) e w n got =
      let same : (array_at t m).item ≡ items = some-injective _ _ e in
      let x = ((v.each m b).0).exact in
      let held : get_elem? ((array_at t m).item) item ≡ some input =
        ap (λ xs. get_elem? xs item) same ∙ got in
      let lt = get_elem?-lt ((array_at t m).item) item input held in
      rw (array_at-some t m v b)
        (item_of-some rest itemstr (array_at t m) item input w n (omega arith) held)

  in_array-word :
      (query name : Bytes)
      → (next_arg query).word ≡ some name
      → in_array t query [] (λ a rest. item_of rest a) ≡ (do
        pointer ← get_array t name
        elim pointer [
          | none ↦ some []
          | some n ↦ do array ← get_elem? t.array_array n; item_of (next_arg query).rest array
        ])
  unfolding in_array
  in_array-word query name w = rw (in_array, w)

  -- `function_getitem` returns an item that the name has.
  getitem-Held :
      (c : ℕ) (name query itemstr : Bytes) (item : ℕ) (input : Bytes)
      → (next_arg query).word ≡ some (c ∷ name)
      → IsText (upper (c ∷ name))
      → (next_arg (next_arg query).rest).word ≡ some itemstr
      → my_atol itemstr ≡ pos item
      → Held (contents t) (upper (c ∷ name)) item input
      → function_getitem t query ≡ some input
  unfolding function_getitem item_of
  getitem-Held c name query itemstr item input w text w' n (items, at, got) =
      let (p, run, ok) = get_array-Pointer t c name v text in
      let its = items_of-Pointer t (upper (c ∷ name)) p v text ok in
      in_array-word query (c ∷ name) w
      ∙ (rw run (
          through (upper (c ∷ name)) (next_arg query).rest itemstr item items input p ok
            (sym its ∙ at) w' n got))

-- A line of `function_setitem` or `function_getitem`: a name, a number, and the rest.
pub record Line (input : Bytes) (c : ℕ) (name itemstr : Bytes) (item : ℕ) (rest : Bytes)
    : Type 0 where
  pub name_word : (next_arg input).word ≡ some (c ∷ name)
  pub item_word : (next_arg (next_arg input).rest).word ≡ some itemstr
  pub number : my_atol itemstr ≡ pos item
  pub rest_is : (next_arg (next_arg input).rest).rest ≡ rest

pub word-IsText : (o : Option Bytes) (s : Bytes) → o ≡ some s → IfText o → IsText s
word-IsText o s e h = subst IfText e h

set_words-line :
    (t : Arrays) (c : ℕ) (name input itemstr : Bytes) (item : ℕ) (rest : Bytes)
    → (next_arg input).word ≡ some itemstr
    → my_atol itemstr ≡ pos item
    → (next_arg input).rest ≡ rest
    → set_words t (c ∷ name) input ≡ set_named t (upper (c ∷ name)) item rest
unfolding set_words set_number
set_words-line t c name input itemstr item rest w n r = rw (set_words, w, n, r)

-- `function_setitem`, on a well-formed state and a text with a name, a number from zero on and a
-- value, comes to an end without a fault and leaves a well-formed state, with every index in
-- order. The result and the names with their items are then as `store` says: the item of that
-- number under the name gets the value (0), or the value comes behind the last item (2), a new
-- name gets it as its first item (1), and else nothing changes (-2 where the name is there, -1
-- where it is not).
pub setitem-Stored :
    (t : Arrays) (input : Bytes) (c : ℕ) (name itemstr : Bytes) (item : ℕ) (rest : Bytes)
    → Kept t
    → IsText input
    → Line input c name itemstr item rest
    → (r : ℤ) × (t' : Arrays) × (function_setitem t input ≡ some (ltoa r, t'))
      × Stored t t' r (upper (c ∷ name)) item rest
unfolding function_setitem set_words set_number
setitem-Stored t input c name itemstr item rest v h l =
    let (w, k) = next_arg-IsText input h in
    let (w', k') = next_arg-IsText (next_arg input).rest k in
    let named = upper-IsText (c ∷ name) (word-IsText _ (c ∷ name) l.name_word w) in
    let text = subst IsText l.rest_is k' in
    let (r, t', run, ok) = set_named-Stored t v (upper (c ∷ name)) named item rest text in
    (
      r,
      t',
      ap return_with (
          (rw l.name_word refl)
          ∙ set_words-line t c name (next_arg input).rest itemstr item rest l.item_word l.number
              l.rest_is
          ∙ run),
      ok,
    )

-- On a well-formed state and a text with a name, a number up to the number of items under that name
-- and a value, `function_setitem` comes to an end without a fault, and `function_getitem`, given
-- the name in whatever case of its letters and the number, then returns the value.
pub setitem-getitem :
    (t : Arrays) (input query : Bytes) (c d : ℕ) (name other itemstr itemstr' : Bytes) (item : ℕ)
    (value rest : Bytes)
    → Kept t
    → IsText input
    → Line input c name itemstr item value
    → Line query d other itemstr' item rest
    → upper (d ∷ other) ≡ upper (c ∷ name)
    → Fits (items_of (contents t) (upper (c ∷ name))) item
    → (out : Bytes) × (t' : Arrays) × (function_setitem t input ≡ some (out, t'))
      × (function_getitem t' query ≡ some value)
setitem-getitem t input query c d name other itemstr itemstr' item value rest v h l q same fits =
    let (r, t', run, ok) = setitem-Stored t input c name itemstr item value v h l in
    let named =
      upper-IsText (c ∷ name) (word-IsText _ (c ∷ name) l.name_word (next_arg-IsText input h).0) in
    let held : Held (contents t') (upper (c ∷ name)) item value =
      subst (λ cs. Held cs (upper (c ∷ name)) item value) (ap (λ x. x.1) ok.same)
        (store-Held (contents t) (upper (c ∷ name)) item value fits) in
    (
      ltoa r,
      t',
      run,
      getitem-Held t' ok.kept d other query itemstr' item value q.name_word
          (subst IsText (sym same) named) q.item_word q.number
          (subst (λ s. Held (contents t') s item value) (sym same) held),
    )
