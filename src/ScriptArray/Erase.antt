-- ===== src/ScriptArray/Erase.antt =====
-- `function_delitem` of source/array.c on a line of arguments, as what it does to the names with
-- their items.
use tek_nap.Common.{ℕ, List, ◌∷◌, Bytes, IsText, Option, some, none, get_elem?, ◌≡◌, refl, ap, ◌∙◌}
use tek_nap.Common.Int.{ℤ, negsuc}
use tek_nap.Text.Args.{next_arg}
use tek_nap.Text.Args.Parts.{next_arg-IsText}
use tek_nap.Text.Number.{my_atol, ltoa}
use tek_nap.ScriptArray.Table.{Arrays, upper}
use tek_nap.ScriptArray.Changes.{function_delitem, delete_from, delete_number, return_with}
use tek_nap.ScriptArray.Contents.{contents, items_of, remove_item, remove_from}
use tek_nap.ScriptArray.Kept.{
  array_at, array_at-some, Kept, Pointer, get_array-Pointer, items_of-Pointer,
}
use tek_nap.ScriptArray.Deleting.{delete_number-removed}
use tek_nap.ScriptArray.Functions.{upper-IsText}
use tek_nap.ScriptArray.Round.{word-IsText}

-- The result `r` and the new state are those of removing the item under the name.
pub record Removed (t t' : Arrays) (r : ℤ) (name : Bytes) (item : ℤ) : Type 0 where
  pub kept : Kept t'
  pub same : remove_item (contents t) name item ≡ (r, contents t')

module _ (t : Arrays) (v : Kept t) where
  from_word :
      (raw rest itemstr : Bytes) (n : ℕ)
      → (next_arg rest).word ≡ some itemstr
      → get_elem? t.array_array n ≡ some (array_at t n)
      → delete_from t raw rest (some n) ≡ delete_number t raw n (array_at t n) (my_atol itemstr)
  unfolding delete_from
  from_word raw rest itemstr n w at = rw (at, w)

  from_items :
      (name : Bytes) (item : ℤ) (items : List Bytes)
      → items_of (contents t) name ≡ some items
      → remove_item (contents t) name item ≡ remove_from (contents t) name items item
  unfolding remove_item
  from_items name item items e = rw (remove_item, e)

  delete_from-Removed :
      (c : ℕ) (name rest itemstr : Bytes) (p : Option ℕ)
      → IsText (c ∷ name)
      → (next_arg rest).word ≡ some itemstr
      → Pointer t (upper (c ∷ name)) p
      → items_of (contents t) (upper (c ∷ name))
        ≡ elim p [ none ↦ none | some n ↦ some ((array_at t n).item) ]
      → (r : ℤ) × (t' : Arrays) × (delete_from t (c ∷ name) rest p ≡ some (r, t'))
        × Removed t t' r (upper (c ∷ name)) (my_atol itemstr)
  unfolding Pointer delete_from remove_item
  delete_from-Removed c name rest itemstr none h w ok its =
      (negsuc 0, t, refl, record { kept = v; same = rw (remove_item, its) })
  delete_from-Removed c name rest itemstr (some n) h w (b, s) its =
      let (r, t', run, kept, same) =
        delete_number-removed t v (upper (c ∷ name)) (upper-IsText (c ∷ name) h) (c ∷ name) n
          (my_atol itemstr) refl s in
      (
        r,
        t',
        from_word (c ∷ name) rest itemstr n w (array_at-some t n v b) ∙ run,
        record { kept = kept; same = from_items (upper (c ∷ name)) (my_atol itemstr) _ its ∙ same },
      )

-- `function_delitem`, on a well-formed state and a text with a name and a number, comes to an end
-- without a fault and leaves a well-formed state. The result and the names with their items are
-- then as `remove_item` says: the item of that number goes and the later ones move down (0), the
-- name goes with its last item, and else nothing changes (-2 where the name has no such item, -1
-- where it is not there).
pub delitem-Removed :
    (t : Arrays) (input : Bytes) (c : ℕ) (name itemstr : Bytes)
    → Kept t
    → IsText input
    → (next_arg input).word ≡ some (c ∷ name)
    → (next_arg (next_arg input).rest).word ≡ some itemstr
    → (r : ℤ) × (t' : Arrays) × (function_delitem t input ≡ some (ltoa r, t'))
      × Removed t t' r (upper (c ∷ name)) (my_atol itemstr)
unfolding function_delitem
delitem-Removed t input c name itemstr v h w w' =
    let text = word-IsText _ (c ∷ name) w (next_arg-IsText input h).0 in
    let named = upper-IsText (c ∷ name) text in
    let (p, at, ok) = get_array-Pointer t c name v named in
    let its = items_of-Pointer t (upper (c ∷ name)) p v named ok in
    let (r, t', run, done) =
      delete_from-Removed t v c name (next_arg input).rest itemstr p text w' ok its in
    (r, t', rw (w, at) (ap return_with run), done)
