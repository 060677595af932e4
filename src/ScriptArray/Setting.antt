-- ===== src/ScriptArray/Setting.antt =====
-- `function_setitem` of source/array.c, as what it does to the names with their items.
use tek_nap.Common.{
  ℕ, ◌+◌, ◌<◌, [], ◌∷◌, ◌++◌, Bytes, IsText, some, set, get_or, ◌==◌, ltb, ◌≡◌, sym, ap, ◌∙◌, subst,
  arith, false, inl, inr, Bool-cases, length-set, ==_iff, lt→ltb,
}
use native.Mathlib.Decide.{dec_lt}
use tek_nap.Common.Int.{ℤ, pos, negsuc}
use tek_nap.ScriptArray.Index.{AnArray}
use tek_nap.ScriptArray.Table.{Arrays}
use tek_nap.ScriptArray.Changes.{set_in_array}
use tek_nap.ScriptArray.Valid.{Valid, get_or-set_self, get_or-set_ne}
use tek_nap.ScriptArray.Store.{replace_item-Valid}
use tek_nap.ScriptArray.Append.{append_item-Valid}
use tek_nap.ScriptArray.Contents.{contents, store, store_at}
use tek_nap.ScriptArray.Standing.{no_array, store_at-set, store_at-append, store_at-beyond}
use tek_nap.ScriptArray.Kept.{Kept}

-- Storing in an array: its new state, which is valid, and the result.
pub set_in_array-Valid :
    (a : AnArray) (item : ℕ) (input : Bytes)
    → Valid a
    → 0 < a.size
    → IsText input
    → (r : ℤ) × (a' : AnArray) × (set_in_array a item input ≡ some (r, a'))
      × Valid a'
      × (0 < a'.size)
      × (store_at a.item item input ≡ (r, a'.item))
unfolding set_in_array
set_in_array-Valid a item input v p text =
    let x = v.exact in
    elim (dec_lt item a.size) [
      | yes h ↦
          let (ys, run, ok) = replace_item-Valid a item input v h text in
          (
            pos 0,
            record { item = set a.item item input; index = ys; size = a.size },
            rw (lt→ltb item a.size h, run),
            ok,
            p,
            store_at-set a.item item input (omega arith),
          )
      | no h ↦
          let f : ltb item a.size ≡ false = ground arith in
          elim (Bool-cases (item == a.size)) [
            | inl t ↦
                let e = (==_iff item a.size).0 t in
                let (ys, run, ok) = append_item-Valid a v input text in
                (
                  pos 2,
                  record { item = a.item ++ (input ∷ []); index = ys; size = a.size + 1 },
                  rw (f, t) (rw (e, run)),
                  ok,
                  omega arith,
                  store_at-append a.item item input (omega arith),
                )
            | inr t ↦
                (negsuc 1, a, rw (f, t), v, p, store_at-beyond a.item item input (ground arith))
          ]
    ]

-- The result `r` and the new state are those of storing under the name.
pub record Stored (t t' : Arrays) (r : ℤ) (name : Bytes) (item : ℕ) (input : Bytes) : Type 0 where
  pub kept : Kept t'
  pub same : store (contents t) name item input ≡ (r, contents t')

-- One array of the table changes, under its name.
pub set_array-Kept :
    (t : Arrays) (n : ℕ) (a' : AnArray)
    → Kept t
    → n < t.array_info.size
    → Valid a'
    → 0 < a'.size
    → Kept (record t { array_array = set t.array_array n a' })
set_array-Kept t n a' v h ok p =
    let l = v.paired in
    record {
      names = v.names;
      paired = length-set t.array_array n a' ∙ l;
      each = λ m b. elim (Bool-cases (n == m)) [
        | inl e ↦
            let d = (==_iff n m).0 e in
            subst (λ a. Valid a × (0 < a.size))
              (sym (
                ap (λ k. get_or (set t.array_array n a') k no_array) (sym d)
                ∙ get_or-set_self no_array t.array_array n a' (omega arith)))
              (ok, p)
        | inr e ↦
            subst (λ a. Valid a × (0 < a.size))
              (sym (get_or-set_ne no_array t.array_array n m a' (λ d. ground arith))) (v.each m b)
      ];
      distinct = v.distinct;
    }
