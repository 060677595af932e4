-- ===== src/ScriptArray/Creating.antt =====
-- `function_setitem` of source/array.c: a new array, and the choice between the branches.
use tek_nap.Common.{
  ℕ, ◌+◌, ◌<◌, List, [], ◌∷◌, ◌++◌, Bytes, IsText, some, length, set, get_or, ◌==◌, ◌≡◌, ◌≢◌, refl,
  sym, ap, ◌∙◌, subst, arith, inl, inr, Bool-cases, length-append, ==_iff,
}
use native.Mathlib.Decide.{dec_lt}
use tek_nap.Common.Int.{ℤ, pos, negsuc}
use tek_nap.ScriptArray.Index.{AnArray, place_of}
use tek_nap.ScriptArray.Table.{Arrays}
use tek_nap.ScriptArray.Changes.{
  flip, one_item, new_array, set_missing, set_existing, set_found, set_named,
}
use tek_nap.ScriptArray.Valid.{
  NotAfter, idx, itm, word, Valid, Permutes, Ordered, get_elem?-get_or, put-some,
}
use tek_nap.ScriptArray.Search.{Placed, Answer, Gap, Answer-Placed}
use tek_nap.ScriptArray.Append.{inserted-Valid, appended-Placed}
use tek_nap.ScriptArray.Inserted.{put-reallocate, get_or-append_lt, get_or-append_self}
use tek_nap.ScriptArray.Reorder.{NotAfter-refl}
use tek_nap.ScriptArray.Contents.{contents}
use tek_nap.ScriptArray.Standing.{
  no_array, Stands, Absent, store-Stands, store-Absent, store-Absent_first,
}
use tek_nap.ScriptArray.Kept.{array_at, array_at-some, Kept, Named, find_item-Named}
use tek_nap.ScriptArray.Setting.{set_in_array-Valid, Stored, set_array-Kept}

one-Permutes : Permutes (0 ∷ []) 1
one-Permutes = record {
  measure = refl;
  refers = λ i h. elim (dec_lt i 1) [
    | yes p ↦ subst (λ k. get_or (0 ∷ []) k 0 < 1) (let e : 0 ≡ i = omega arith in e) (omega arith)
    | no p ↦ absurd (p h)
  ];
  covers = λ n h. (0, omega arith, (let e : 0 ≡ n = omega arith in e));
  once = λ i j h k e. omega arith;
}

pub one_item-Valid : (input : Bytes) → IsText input → Valid (one_item input)
one_item-Valid input text =
    let first : (i : ℕ) → i < 1 → 0 ≡ i = λ i h. omega arith in
    record {
      ordered = record {
        room = omega arith;
        permutes = one-Permutes;
        sorted = λ i j le h.
            subst (λ k. NotAfter (word (one_item input) i) (word (one_item input) k))
              (let e : i ≡ j = omega arith in e) (NotAfter-refl _);
        text = λ n h. subst (λ k. IsText (itm (one_item input) k)) (first n h) text;
      };
      exact = refl;
    }

-- The state with a new array behind the others.
new_array-Kept :
    (t : Arrays) (name input : Bytes) (ys : List ℕ)
    → Kept t
    → Absent name t.array_info.item
    → IsText input
    → Valid (record {
      item = t.array_info.item ++ (name ∷ []);
      index = ys;
      size = t.array_info.size + 1;
    })
    → Kept (record {
      array_info = record {
        item = t.array_info.item ++ (name ∷ []);
        index = ys;
        size = t.array_info.size + 1;
      };
      array_array = t.array_array ++ (one_item input ∷ []);
    })
new_array-Kept t name input ys v gone text ok =
    let l = v.paired in
    let x = v.names.exact in
    let arrays = t.array_array ++ (one_item input ∷ []) in
    let names = t.array_info.item ++ (name ∷ []) in
    let old : (i : ℕ) → i < t.array_info.size → get_or names i [] ≡ itm t.array_info i =
      λ i h. get_or-append_lt [] t.array_info.item name i (omega arith) in
    let new : (i : ℕ) → i ≡ t.array_info.size → get_or names i [] ≡ name = λ i e.
      ap (λ k. get_or names k []) (e ∙ sym x) ∙ get_or-append_self [] t.array_info.item name in
    record {
      names = ok;
      paired = length-append t.array_array (one_item input ∷ []) ∙ ap (λ n. n + 1) l;
      each = λ n b. elim (dec_lt n t.array_info.size) [
        | yes p ↦
            subst (λ a. Valid a × (0 < a.size))
              (sym (get_or-append_lt no_array t.array_array (one_item input) n (omega arith)))
              (v.each n p)
        | no p ↦
            subst (λ a. Valid a × (0 < a.size))
              (sym (
                ap (λ k. get_or arrays k no_array)
                  (let e : n ≡ length t.array_array = omega arith in e)
                ∙ get_or-append_self no_array t.array_array (one_item input)))
              (one_item-Valid input text, omega arith)
      ];
      distinct = λ i j b c e. elim (dec_lt i t.array_info.size) [
        | yes p ↦ elim (dec_lt j t.array_info.size) [
          | yes q ↦ v.distinct i j p q (sym (old i p) ∙ e ∙ old j q)
          | no q ↦ absurd ((gone i (omega arith)).1 (sym (old i p) ∙ e ∙ new j (omega arith)))
        ]
        | no p ↦ elim (dec_lt j t.array_info.size) [
          | yes q ↦ absurd ((gone j (omega arith)).1 (sym (old j q) ∙ sym e ∙ new i (omega arith)))
          | no q ↦ omega arith
        ]
      ];
    }

Gap-Placed : (a : AnArray) (name : Bytes) (b : ℕ) → Ordered a → Gap a name b → Placed a name b
unfolding Answer place_of
Gap-Placed a name b v g = Answer-Placed a name (negsuc b) v g

module _ (t : Arrays) (v : Kept t) (name : Bytes) (named : IsText name) (item : ℕ) (input : Bytes)
    (text : IsText input) where
  set_existing-Stored :
      (k : ℕ)
      → k < t.array_info.size
      → Stands t.array_info.item name (idx t.array_info k)
      → (r : ℤ) × (t' : Arrays) × (set_existing t k item input ≡ some (r, t'))
        × Stored t t' r name item input
  unfolding set_existing contents
  set_existing-Stored k h s =
      let o = v.names.ordered in
      let n = idx t.array_info k in
      let b = o.permutes.refers k h in
      let m = o.permutes.measure in
      let l = v.paired in
      let (ok, p) = v.each n b in
      let (r, a', run, ok', p', same) = set_in_array-Valid (array_at t n) item input ok p text in
      (
        r,
        record t { array_array = set t.array_array n a' },
        rw (
          get_elem?-get_or 0 t.array_info.index k (omega arith),
          array_at-some t n v b,
          run,
          put-some t.array_array n a' (omega arith),
        ),
        record {
          kept = set_array-Kept t n a' v b ok' p';
          same =
              store-Stands name named t.array_info.item t.array_array n item input r a'
                (l ∙ sym v.names.exact) s same;
        },
      )

  new_array-Stored :
      (index : ℤ) (p : ℕ)
      → Absent name t.array_info.item
      → Placed t.array_info name p
      → (t.array_info.size ≢ 0 → flip index ≡ pos p)
      → (t' : Arrays) × (new_array t index name input ≡ some t') × Stored t t' (pos 1) name 0 input
  unfolding new_array contents
  new_array-Stored index p gone w at =
      let a = t.array_info in
      let (ys, run, ok) =
        inserted-Valid a v.names name named (flip index) p
          (appended-Placed a v.names name named name p w) at in
      (
        record {
          array_info = record { item = a.item ++ (name ∷ []); index = ys; size = a.size + 1 };
          array_array = t.array_array ++ (one_item input ∷ []);
        },
        rw (
          put-reallocate (one_item []) t.array_array (one_item input) a.size v.paired,
          put-reallocate [] a.item name a.size v.names.exact,
          run,
        ),
        record {
          kept = new_array-Kept t name input ys v gone text ok;
          same =
              store-Absent_first name named a.item t.array_array input (one_item input)
                (v.paired ∙ sym v.names.exact) gone refl;
        },
      )

  set_missing-Stored :
      (index : ℤ) (p : ℕ)
      → Absent name t.array_info.item
      → Placed t.array_info name p
      → (t.array_info.size ≢ 0 → flip index ≡ pos p)
      → (r : ℤ) × (t' : Arrays) × (set_missing t index name item input ≡ some (r, t'))
        × Stored t t' r name item input
  unfolding set_missing contents
  set_missing-Stored index p gone w at = elim (Bool-cases (item == 0)) [
    | inl z ↦
        let (t', run, ok) = new_array-Stored index p gone w at in
        (
          pos 1,
          t',
          rw (z, run),
          subst (λ n. Stored t t' (pos 1) name n input) (sym ((==_iff item 0).0 z)) ok,
        )
    | inr z ↦ (
      negsuc 0,
      t,
      rw z,
      record {
        kept = v;
        same =
            store-Absent name named t.array_info.item t.array_array item input gone
              (λ e. ground arith);
      },
    )
  ]

  set_found-Stored :
      (found : ℤ)
      → Named t name found
      → (r : ℤ) × (t' : Arrays) × (set_found t name item input found ≡ some (r, t'))
        × Stored t t' r name item input
  unfolding set_found Named flip
  set_found-Stored (pos k) (h, s) = set_existing-Stored k h s
  set_found-Stored (negsuc b) (gone, g) =
      set_missing-Stored (negsuc b) b gone (Gap-Placed t.array_info name b v.names.ordered g)
        (λ e. refl)

  -- The part of `function_setitem` behind the reading of its arguments.
  pub set_named-Stored :
      (r : ℤ) × (t' : Arrays) × (set_named t name item input ≡ some (r, t'))
      × Stored t t' r name item input
  unfolding set_named
  set_named-Stored = elim (Bool-cases (t.array_info.size == 0)) [
    | inl z ↦
        let e = (==_iff t.array_info.size 0).0 z in
        let x = v.names.exact in
        let (r, t', run, ok) =
          set_missing-Stored (pos 0) 0 (λ i h. absurd (omega arith))
            (record {
              in_range = omega arith;
              below = λ i h k. absurd (omega arith);
              above = λ i h k. absurd (omega arith);
            })
            (λ ne. absurd (ne e)) in
        (r, t', rw (z, run), ok)
    | inr z ↦
        let (found, run, ok) = find_item-Named t name v named in
        let (r, t', run', ok') = set_found-Stored found ok in (r, t', rw (z, run, run'), ok')
  ]
