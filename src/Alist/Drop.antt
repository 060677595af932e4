-- ===== src/Alist/Drop.antt =====
-- `remove_from_array` and `array_pop`: an item is taken out and the items behind it move down.
use tek_nap.Common.{
  ℕ, suc, ◌+◌, ◌-◌, ◌≤◌, ◌<◌, ◌≡◌, refl, ◌≢◌, ◌⊎◌, inl, inr, [], ◌==◌, Bytes, true, false, Option,
  none, some, length, leb, arith, sym, ◌∙◌, ap, Bool-cases,
}
use native.Mathlib.Decide.{dec_lt}
use tek_nap.Common.Int.{pos, negsuc, is_neg}
use tek_nap.Alist.Slots.{Item, Array, move_down}
use tek_nap.Alist.Find.{Search, find_array_item}
use tek_nap.Alist.Result.{Missed, Run, find_array_item-Good}
use tek_nap.Alist.Valid.{Valid, read-some}
use tek_nap.Alist.Moves.{slot, shift_down-MovedDown}
use tek_nap.Alist.Change.{exact-Run}
use tek_nap.Alist.{is_exact, array_pop, remove_from_array}

-- `a'` is `a` without the item at `which`, which is `ret`.
pub record TakenOut (a a' : Array) (which : ℕ) (ret : Option Item) : Type 0 where
  pub valid : Valid a'
  pub new_max : a'.max + 1 ≡ a.max
  pub same_total : a'.total_max ≡ a.total_max
  pub low : (j : ℕ) → j < which → slot a' j ≡ slot a j
  pub high : (j : ℕ) → which ≤ j → j < a'.max → slot a' j ≡ slot a (suc j)
  pub returned : slot a which ≡ some ret

-- `array_pop`, on a valid array, takes out the item at a place below `max`, returns it and keeps the
-- array valid: the items before it stay, those behind it move down by one slot, and the size
-- allocated is as before. At any other place, a negative one too, it does nothing and returns a null
-- pointer.
pub array_pop-TakenOut :
    (a : Array) (which : ℕ)
    → Valid a
    → (which < a.max
        → (a' : Array) × (ret : Option Item) × (array_pop a (pos which) ≡ some (a', ret))
          × TakenOut a a' which ret)
      × (a.max ≤ which → array_pop a (pos which) ≡ some (a, none))
      × ((n : ℕ) → array_pop a (negsuc n) ≡ some (a, none))
unfolding array_pop move_down
array_pop-TakenOut a which v = (
  λ h.
      let big : which + 2 ≤ length a.slots = elim v.room [
        | inl k ↦ omega (arith, v.sized)
        | inr k ↦ absurd (omega arith)
      ] in
      let (ret, got, held) = read-some a which (omega arith) in
      let (a1, run, c) =
        shift_down-MovedDown (a.max + 1 - (which + 1)) a (which + 1) (omega arith) (omega arith) in
      let a' : Array = record a1 { max = a1.max - 1 } in
      let below : leb a.max which ≡ false = ground arith in
      (
        a',
        ret,
        rw (below, got, run),
        record {
          valid = record {
            sized = c.size.same_length ∙ v.sized ∙ sym c.size.same_total;
            room = elim v.room [
              | inl k ↦ inl (omega (arith, c.size.same_max, c.size.same_total))
              | inr k ↦ absurd (omega arith)
            ];
            filled = λ i k. elim (dec_lt i which) [
              | yes q ↦ let (it, e) = v.filled i (omega arith) in (it, c.low i (omega arith) ∙ e)
              | no q ↦
                  let (it, e) = v.filled (suc i) (omega (arith, c.size.same_max)) in
                  (it, c.mid i (omega arith) (omega (arith, c.size.same_max)) ∙ e)
            ];
          };
          new_max = omega (arith, c.size.same_max);
          same_total = c.size.same_total;
          low = λ j k. c.low j (omega arith);
          high = λ j k l. c.mid j (omega arith) (omega (arith, c.size.same_max));
          returned = held;
        },
      ),
  λ h. let y : leb a.max which ≡ true = ground arith in rw y,
  λ n. refl,
)

-- What `remove_from_array` has done: nothing, or it took out an item that the search found by its name.
pub data Removal (a : Array) (name : Bytes) : Array → Option Item → Type 0 where
  empty : a.max ≡ 0 → Removal a name a none
  kept :
      (s : Search) → (find_array_item a name ≡ some s) → is_exact s ≡ false → Removal a name a none
  dropped :
      {a' : Array} {ret : Option Item} (s : Search)
      → (find_array_item a name ≡ some s)
      → is_exact s ≡ true
      → Run a name s
      → TakenOut a a' s.loc ret
      → Removal a name a' ret

must-Run :
    (a : Array) (name : Bytes) (s : Search)
    → Missed a s ⊎ Run a name s
    → is_exact s ≡ true
    → Run a name s
must-Run a name s (inl m) x = cc (ap is_neg m.no_count)
must-Run a name s (inr r) x = r

-- `remove_from_array`, on a valid array and for a name that is not empty, comes to an end. An array
-- with no items stays, and so does one where the search does not find the very name; nothing is then
-- returned. Else exactly the item that the search found is taken out and returned.
pub remove_from_array-Removal :
    (a : Array) (name : Bytes)
    → Valid a
    → name ≢ []
    → (a' : Array) × (ret : Option Item) × (remove_from_array a name ≡ some (a', ret))
      × Removal a name a' ret
unfolding remove_from_array
remove_from_array-Removal a name v h = elim (Bool-cases (a.max == 0)) [
  | inl z ↦ (a, none, rw z, empty (ground arith))
  | inr z ↦
      let (s, run, g) = find_array_item-Good a name v.filled h in
      elim (Bool-cases (is_exact s)) [
        | inl x ↦
            let (a', ret, e, t) = (array_pop-TakenOut a s.loc v).0 (exact-Run a name s g x) in
            (a', ret, rw (z, run, x, e), dropped s run x (must-Run a name s g x) t)
        | inr x ↦ (a, none, rw (z, run, x), kept s run x)
      ]
]
