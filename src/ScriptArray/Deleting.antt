-- ===== src/ScriptArray/Deleting.antt =====
-- `delete_array` and `function_delitem` of source/array.c, as what they do to the names with their
-- items.
use tek_nap.Common.{
  ℕ, zero, suc, ◌-◌, ◌<◌, List, [], ◌∷◌, Bytes, IsText, some, length, set, ◌==◌, ltb, leb, take,
  ◌≡◌, ◌≢◌, refl, sym, ap, ◌∙◌, subst, arith, true, false, inl, inr, Bool-cases, lt→ltb,
}
use native.Mathlib.Decide.{dec_lt}
use tek_nap.Common.Int.{ℤ, pos, negsuc}
use tek_nap.ScriptArray.Index.{AnArray, shift_left}
use tek_nap.ScriptArray.Table.{Arrays, no_arrays, upper, free_items, delete_at, delete_array}
use tek_nap.ScriptArray.Changes.{delete_item, delete_number}
use tek_nap.ScriptArray.Valid.{idx, Valid, get_elem?-get_or, put-some}
use tek_nap.ScriptArray.Remove.{
  remove_at, skip, length-remove_at, get_or-remove_at, shift_left-remove_at,
}
use tek_nap.ScriptArray.TakeOut.{take_out-Valid, skip_injective}
use tek_nap.ScriptArray.Locate.{find_index-some}
use tek_nap.ScriptArray.Contents.{contents, pairs, without, with_items, remove_from}
use tek_nap.ScriptArray.Standing.{no_array, Stands, without-Stands, with_items-Stands}
use tek_nap.ScriptArray.Kept.{array_at, array_at-some, Kept, Named, find_item-Named}
use tek_nap.ScriptArray.Setting.{set_array-Kept}

pub no_arrays-Kept : Kept no_arrays
no_arrays-Kept = record {
  names = record {
    ordered = record {
      room = omega arith;
      permutes = record {
        measure = refl;
        refers = λ i h. absurd (omega arith);
        covers = λ n h. absurd (omega arith);
        once = λ i j h k e. absurd (omega arith);
      };
      sorted = λ i j le h. absurd (omega arith);
      text = λ n h. absurd (omega arith);
    };
    exact = refl;
  };
  paired = refl;
  each = λ n h. absurd (omega arith);
  distinct = λ i j h k e. absurd (omega arith);
}

-- The state without the name at place `n`.
without-Kept :
    (t : Arrays) (n : ℕ) (ys : List ℕ)
    → Kept t
    → n < t.array_info.size
    → Valid
        (record { item = remove_at t.array_info.item n; index = ys; size = t.array_info.size - 1 })
    → Kept (record {
      array_info = record {
        item = remove_at t.array_info.item n;
        index = ys;
        size = t.array_info.size - 1;
      };
      array_array = remove_at t.array_array n;
    })
without-Kept t n ys v h ok =
    let l = v.paired in
    let m = length-remove_at no_array t.array_array n (omega arith) in
    record {
      names = ok;
      paired = omega arith;
      each = λ j b.
          subst (λ a. Valid a × (0 < a.size)) (sym (get_or-remove_at no_array t.array_array n j))
            (v.each (skip n j) (ground arith));
      distinct = λ i j b c e. skip_injective n i j (
          v.distinct (skip n i) (skip n j) (ground arith) (ground arith) (
            sym (get_or-remove_at [] t.array_info.item n i)
            ∙ e
            ∙ get_or-remove_at [] t.array_info.item n j));
    }

free_items-some : (a : AnArray) → Valid a → free_items a ≡ some a
unfolding free_items
free_items-some a v =
    let x = v.exact in let e : leb a.size (length a.item) ≡ true = ground arith in rw e

remove_at-one {ℓ} : {A : Type ℓ} (xs : List A) (n : ℕ) → length xs ≡ 1 → n ≡ 0 → remove_at xs n ≡ []
unfolding remove_at
remove_at-one [] n l e = absurd (omega arith)
remove_at-one (x ∷ []) zero l e = refl
remove_at-one (x ∷ []) (suc n) l e = absurd (omega arith)
remove_at-one (x ∷ y ∷ xs) n l e = absurd (omega arith)

-- A name that stands somewhere is found.
present :
    (t : Arrays) {name : Bytes} (r : ℤ)
    → Named t name r
    → (n : ℕ) → Stands t.array_info.item name n
    → (k : ℕ) × (r ≡ pos k)
      × (k < t.array_info.size)
      × Stands t.array_info.item name (idx t.array_info k)
unfolding Named
present t (pos k) (h, s') n s = (k, refl, h, s')
present t (negsuc b) (gone, g) n s = absurd ((gone n s.in_range).1 s.here)

module _ (t : Arrays) (v : Kept t) (name : Bytes) (named : IsText name) where
  delete_at-without :
      (k : ℕ)
      → k < t.array_info.size
      → Stands t.array_info.item name (idx t.array_info k)
      → (t' : Arrays) × (delete_at t (pos k) ≡ some t')
        × Kept t'
        × (contents t' ≡ without (contents t) name)
  unfolding delete_at contents pairs
  delete_at-without k h s =
      let a = t.array_info in
      let n = idx a k in
      let o = v.names.ordered in
      let m = o.permutes.measure in
      let b = o.permutes.refers k h in
      let l = v.paired in
      let x = v.names.exact in
      let at = get_elem?-get_or 0 a.index k (omega arith) in
      let freed = free_items-some (array_at t n) ((v.each n b).0) in
      let goal = without-Stands name named a.item t.array_array n (l ∙ sym x) s in
      elim (dec_lt 1 a.size) [
        | yes p ↦
            let (ys, run, ok) = take_out-Valid a v.names k n h refl in
            let (zs, run', same) = shift_left-remove_at no_array t.array_array n (omega arith) in
            let run2 = subst (λ z. shift_left (z - 1 - n) t.array_array n ≡ some zs) l run' in
            let same2 = subst (λ z. take (z - 1) zs ≡ remove_at t.array_array n) l same in
            (
              record {
                array_info = record { item = remove_at a.item n; index = ys; size = a.size - 1 };
                array_array = remove_at t.array_array n;
              },
              rw (at, array_at-some t n v b, freed, lt→ltb 1 a.size p, run, run2, same2) refl,
              without-Kept t n ys v b ok,
              sym goal,
            )
        | no p ↦
            let f : ltb 1 a.size ≡ false = ground arith in
            (
              no_arrays,
              rw (at, array_at-some t n v b, freed, f),
              no_arrays-Kept,
              (let e = remove_at-one a.item n (omega arith) (omega arith) in
                  sym (goal ∙ (rw e refl))),
            )
      ]

  -- `delete_array`, for a name that is there.
  pub delete_array-without :
      (n : ℕ)
      → Stands t.array_info.item name n
      → (t' : Arrays) × (delete_array t name ≡ some t')
        × Kept t'
        × (contents t' ≡ without (contents t) name)
  unfolding delete_array
  delete_array-without n s =
      let (r, found, ok) = find_item-Named t name v named in
      let (k, e, h, s') = present t r ok n s in
      let (t', run, kept, same) = delete_at-without k h s' in (t', rw (found, e, run), kept, same)

  delete_item-with_items :
      (n item : ℕ)
      → Stands t.array_info.item name n
      → item < (array_at t n).size
      → (array_at t n).size ≢ 1
      → (t' : Arrays) × (delete_item t n (array_at t n) item ≡ some t')
        × Kept t'
        × (contents t' ≡ with_items (contents t) name (remove_at ((array_at t n).item) item))
  unfolding delete_item contents
  delete_item-with_items n item s h ne =
      let a = array_at t n in
      let x = v.names.exact in
      let l = v.paired in
      let r = s.in_range in
      let (ok, p) = v.each n (omega arith) in
      let (old, at, b, e) = find_index-some a item ok.ordered h in
      let (ys, run, ok') = take_out-Valid a ok old item b e in
      let a' : AnArray = record { item = remove_at a.item item; index = ys; size = a.size - 1 } in
      (
        record t { array_array = set t.array_array n a' },
        rw (at, run, put-some t.array_array n a' (omega arith)),
        set_array-Kept t n a' v (omega arith) ok' (omega arith),
        sym (with_items-Stands name named t.array_info.item t.array_array n a' (l ∙ sym x) s),
      )

  pub delete_number-removed :
      (raw : Bytes) (n : ℕ) (item : ℤ)
      → upper raw ≡ name
      → Stands t.array_info.item name n
      → (r : ℤ) × (t' : Arrays) × (delete_number t raw n (array_at t n) item ≡ some (r, t'))
        × Kept t'
        × (remove_from (contents t) name ((array_at t n).item) item ≡ (r, contents t'))
  unfolding delete_number remove_from
  delete_number-removed raw n (negsuc m) up s = (negsuc 1, t, refl, v, refl)
  delete_number-removed raw n (pos item) up s =
      let x = v.names.exact in
      let h = s.in_range in
      let (ok, p) = v.each n (omega arith) in
      let l = ok.exact in
      elim (dec_lt item ((array_at t n).size)) [
        | no q ↦ (
          negsuc 1,
          t,
          (let f : ltb item ((array_at t n).size) ≡ false = ground arith in rw f),
          v,
          (let f : ltb item (length ((array_at t n).item)) ≡ false = ground arith in rw f refl),
        )
        | yes q ↦
            let in_a = lt→ltb item ((array_at t n).size) q in
            let in_items = lt→ltb item (length ((array_at t n).item)) (omega arith) in
            elim (Bool-cases ((array_at t n).size == 1)) [
              | inl z ↦
                  let (t', run, kept, same) = delete_array-without n s in
                  let one = ap (λ k. k == 1) l ∙ z in
                  (pos 0, t', rw (in_a, z, up, run), kept, rw (in_items, one, same) refl)
              | inr z ↦
                  let (t', run, kept, same) =
                    delete_item-with_items n item s q (λ e. ground arith) in
                  let many = ap (λ k. k == 1) l ∙ z in
                  (pos 0, t', rw (in_a, z, run), kept, rw (in_items, many, same) refl)
            ]
      ]
