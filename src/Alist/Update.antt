-- ===== src/Alist/Update.antt =====
-- `add_to_array` and `remove_from_array` as a whole.
use tek_nap.Common.{
  ◌+◌, if◌then◌else◌, ◌≡◌, ◌≢◌, refl, ◌⊎◌, inl, inr, [], false, Option, none, some, arith, sym, ◌∙◌,
  Bool-cases, ◌==◌, Bytes, true,
}
use tek_nap.Common.Int.{pos}
use tek_nap.Alist.Hash.{alist_hash}
use tek_nap.Alist.Slots.{Item, Array}
use tek_nap.Alist.Find.{Search, find_array_item}
use tek_nap.Alist.Result.{Missed, Run, find_array_item-Good}
use tek_nap.Alist.Valid.{Valid, write-Written}
use tek_nap.Alist.Bounds.{Cramped}
use tek_nap.Alist.Moves.{slot}
use tek_nap.Alist.{check_array_size, is_exact, store, add_to_array}
use tek_nap.Alist.Change.{
  Roomy, check-Roomy, Placed, Placed-Filled, place-exact, place-new, exact-Run, loc-le,
}

-- The item with its hash, as it is put into the array.
abbrev pub with_hash : Array → Item → Item
with_hash a item = record item { hash = (alist_hash a.hash item.name).value }

-- What `add_to_array` has done to an array, by what the search for the item's name found.
pub record Added (a a' : Array) (item : Item) (ret : Option Item) : Type 0 where
  pub valid : Valid a'
  pub search : Search
  pub found : find_array_item (check_array_size a) item.name ≡ some search
  pub searched : Missed (check_array_size a) search ⊎ Run (check_array_size a) item.name search
  pub returned :
      if is_exact search then (slot (check_array_size a) search.loc ≡ some ret) else (ret ≡ none)
  pub placed : Placed (check_array_size a) a' (with_hash a item) search.loc (is_exact search)

store-first :
    (b : Array) (item : Item)
    → Roomy b
    → b.max ≡ 0
    → (a' : Array) × (store b 0 item none ≡ some (a', none)) × Valid a' × Placed b a' item 0 false
unfolding store
store-first b item v z =
    let (a1, w) = write-Written b 0 (some item) (omega (arith, v.sized, v.room)) in
    let a' : Array = record a1 { max = a1.max + 1 } in
    let p : Placed b a' item 0 false = record {
      in_range = omega arith;
      new_max = omega (arith, w.same_max);
      at = w.at;
      low = λ j k. w.others j (λ e. omega arith);
      high = λ j k h. absurd (omega arith);
    } in
    (
      a',
      rw w.done,
      record {
        sized = w.same_length ∙ v.sized ∙ sym w.same_total;
        room = inl (omega (arith, w.same_max, w.same_total, v.room));
        filled = Placed-Filled b a' item 0 false (λ z. cc) v.filled p;
      },
      p,
    )

find-empty :
    (a : Array) (name : Bytes)
    → (a.max == 0) ≡ true
    → find_array_item a name ≡ some (record { result = none; cnt = pos 0; loc = 0 })
unfolding find_array_item
find-empty a name z = rw z

-- `add_to_array`, on a valid array that is not of one of the five cramped sizes and for an item with a
-- name, touches no slot but the allocated ones and keeps the array valid. It puts the item where
-- `find_array_item` for its name, on the array with its new size, comes out: if the search finds the
-- very name, the new item takes that item's slot, that item is returned, and all else stays; if not,
-- the new item goes to the place of the search, the items from there on move up by one slot, `max`
-- grows by one, and nothing is returned.
pub add_to_array-Added :
    (a : Array) (item : Item)
    → Valid a
    → ¬ Cramped a.max a.total_max
    → item.name ≢ []
    → (a' : Array) × (ret : Option Item) × (add_to_array a item ≡ some (a', ret))
      × Added a a' item ret
unfolding add_to_array
add_to_array-Added a item v n h =
    let b = check_array_size a in
    let rm = check-Roomy a v n in
    elim (Bool-cases (b.max == 0)) [
      | inl z ↦
          let (a', run, ok, p) = store-first b (with_hash a item) rm (ground arith) in
          (
            a',
            none,
            rw (z, run),
            record {
              valid = ok;
              search = record { result = none; cnt = pos 0; loc = 0 };
              found = find-empty b item.name z;
              searched = inl (record { no_result = refl; no_count = refl; in_range = omega arith });
              returned = refl;
              placed = p;
            },
          )
      | inr z ↦
          let (s, run, g) = find_array_item-Good b item.name rm.filled h in
          elim (Bool-cases (is_exact s)) [
            | inl x ↦
                let (r, run', k) =
                  place-exact b (with_hash a item) s rm x (exact-Run b item.name s g x) in
                (
                  r.0,
                  r.1,
                  rw (z, run, run'),
                  record {
                    valid = k.valid;
                    search = s;
                    found = run;
                    searched = g;
                    returned = k.returned;
                    placed = k.placed;
                  },
                )
            | inr x ↦
                let (r, run', k) = place-new b (with_hash a item) s rm x (loc-le b item.name s g) in
                (
                  r.0,
                  r.1,
                  rw (z, run, run'),
                  record {
                    valid = k.valid;
                    search = s;
                    found = run;
                    searched = g;
                    returned = k.returned;
                    placed = k.placed;
                  },
                )
          ]
    ]
