-- ===== src/ScriptArray/Kept.antt =====
-- source/array.c: what holds of `array_info` and `array_array` between the calls, and how a name is
-- found in them.
use tek_nap.Common.{
  ℕ, ◌<◌, ◌∷◌, Bytes, IsText, Option, some, none, length, get_or, get_elem?, ◌==◌, ◌≡◌, ◌≢◌, refl,
  sym, ap, ◌∙◌, subst, arith, inl, inr, Bool-cases, ==_iff,
}
use native.Mathlib.Decide.{dec_lt}
use tek_nap.Common.Int.{ℤ, pos, negsuc}
use tek_nap.ScriptArray.Index.{AnArray, find_item}
use tek_nap.ScriptArray.Table.{Arrays, upper, get_array, number_at, no_text}
use tek_nap.ScriptArray.Valid.{idx, itm, word, Valid, get_elem?-get_or, Before}
use tek_nap.ScriptArray.Search.{Gap, Answer, find_item-Answer}
use tek_nap.ScriptArray.Locate.{not-Before_self}
use tek_nap.ScriptArray.Contents.{contents, items_of}
use tek_nap.ScriptArray.Standing.{no_array, Stands, Absent, items_of-Stands, items_of-Absent}

-- The array of the name at place `n`.
abbrev pub array_at : Arrays → ℕ → AnArray
array_at t n = get_or t.array_array n no_array

-- The names are different, and each has a valid array that is not empty.
pub record Kept (t : Arrays) : Type 0 where
  pub names : Valid t.array_info
  pub paired : length t.array_array ≡ t.array_info.size
  pub each : (n : ℕ) → n < t.array_info.size → Valid (array_at t n) × (0 < (array_at t n).size)
  pub distinct :
      (i j : ℕ)
      → i < t.array_info.size
      → j < t.array_info.size
      → itm t.array_info i ≡ itm t.array_info j
      → i ≡ j

pub array_at-some :
    (t : Arrays) (n : ℕ)
    → Kept t
    → n < t.array_info.size
    → get_elem? t.array_array n ≡ some (array_at t n)
array_at-some t n v h = get_elem?-get_or no_array t.array_array n (let l = v.paired in omega arith)

-- A name is found where it stands, or it is nowhere and the search tells its place.
unfoldable pub Named : Arrays → (name : Bytes) → ℤ → Type 0
Named t name (pos k) = (k < t.array_info.size) × Stands t.array_info.item name (idx t.array_info k)
Named t name (negsuc b) = Absent name t.array_info.item × Gap t.array_info name b

Gap-ne :
    (a : AnArray) (name : Bytes) (b : ℕ) → Gap a name b → (i : ℕ) → i < a.size → word a i ≢ name
Gap-ne a name b g i h e = elim (dec_lt i b) [
  | yes p ↦ not-Before_self _ (subst (λ s. Before s name) e (g.below i p))
  | no p ↦ not-Before_self _ (subst (Before name) e (g.above i (omega arith) h))
]

Answer-Named :
    (t : Arrays) (name : Bytes) (r : ℤ) → Kept t → Answer t.array_info name r → Named t name r
unfolding Answer Named
Answer-Named t name (pos k) v (h, e) =
    let o = v.names.ordered in
    let n = o.permutes.refers k h in
    let x = v.names.exact in
    (
      h,
      record {
        in_range = omega arith;
        here = e;
        texts = λ i b. o.text i (omega arith);
        earlier = λ i b d.
            let same = v.distinct i (idx t.array_info k) (omega arith) n (d ∙ sym e) in omega arith;
      },
    )
Answer-Named t name (negsuc b) v g =
    let o = v.names.ordered in
    let x = v.names.exact in
    (
      λ n h. (
        o.text n (omega arith),
        λ e.
            let (i, c, d) = o.permutes.covers n (omega arith) in
            Gap-ne t.array_info name b g i c (ap (itm t.array_info) d ∙ e),
      ),
      g,
    )

pub find_item-Named :
    (t : Arrays) (name : Bytes)
    → Kept t
    → IsText name
    → (r : ℤ) × (find_item t.array_info name ≡ some r) × Named t name r
find_item-Named t name v text =
    let (r, found, answer) = find_item-Answer t.array_info name v.names.ordered text in
    (r, found, Answer-Named t name r v answer)

-- What `get_array` returns for a name: the place of its array, or null.
unfoldable pub Pointer : Arrays → (name : Bytes) → Option ℕ → Type 0
Pointer t name none = Absent name t.array_info.item
Pointer t name (some n) = (n < t.array_info.size) × Stands t.array_info.item name n

Pointer-none : (t : Arrays) (name : Bytes) → Absent name t.array_info.item → Pointer t name none
unfolding Pointer
Pointer-none t name h = h

number_at-Pointer :
    (t : Arrays) (name : Bytes) (r : ℤ)
    → Kept t
    → Named t name r
    → (p : Option ℕ) × (number_at t.array_info r ≡ some p) × Pointer t name p
unfolding number_at Named Pointer
number_at-Pointer t name (pos k) v (h, s) =
    let o = v.names.ordered in
    let m = o.permutes.measure in
    (
      some (idx t.array_info k),
      rw (get_elem?-get_or 0 t.array_info.index k (omega arith)),
      (o.permutes.refers k h, s),
    )
number_at-Pointer t name (negsuc b) v (h, g) = (none, refl, h)

-- `get_array` for a name that is not empty.
pub get_array-Pointer :
    (t : Arrays) (c : ℕ) (name : Bytes)
    → Kept t
    → IsText (upper (c ∷ name))
    → (p : Option ℕ) × (get_array t (c ∷ name) ≡ some p) × Pointer t (upper (c ∷ name)) p
unfolding get_array no_text
get_array-Pointer t c name v text = elim (Bool-cases (t.array_info.size == 0)) [
  | inl z ↦ (
    none,
    rw z,
    (let e = (==_iff t.array_info.size 0).0 z in
        let x = v.names.exact in Pointer-none t (upper (c ∷ name)) (λ i h. absurd (omega arith))),
  )
  | inr z ↦
      let (r, found, ok) = find_item-Named t (upper (c ∷ name)) v text in
      let (p, at, ok') = number_at-Pointer t (upper (c ∷ name)) r v ok in
      (p, rw (z, found, at), ok')
]

-- The items under the name are those of the array that the pointer shows.
pub items_of-Pointer :
    (t : Arrays) (name : Bytes) (p : Option ℕ)
    → Kept t
    → IsText name
    → Pointer t name p
    → items_of (contents t) name ≡ elim p [ none ↦ none | some n ↦ some ((array_at t n).item) ]
unfolding Pointer contents
items_of-Pointer t name none v text h = items_of-Absent name text t.array_info.item t.array_array h
items_of-Pointer t name (some n) v text (h, s) =
    items_of-Stands name text t.array_info.item t.array_array n (v.paired ∙ sym v.names.exact) s
