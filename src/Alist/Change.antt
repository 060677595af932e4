-- ===== src/Alist/Change.antt =====
-- `add_to_array` and `remove_from_array` keep an array valid, and what they change.
use tek_nap.Common.{
  ℕ, zero, suc, ◌+◌, ◌-◌, ◌≤◌, ◌<◌, ◌≡◌, ◌≢◌, refl, ◌⊎◌, inl, inr, Bytes, Bool, true, false, Option,
  none, some, length, arith, sym, ◌∙◌, ap, if◌then◌else◌,
}
use native.Mathlib.Decide.{dec_lt}
use tek_nap.Common.Int.{pos, is_neg, negate}
use tek_nap.Alist.Slots.{Item, Array}
use tek_nap.Alist.Find.{Search}
use tek_nap.Alist.Found.{Filled}
use tek_nap.Alist.Result.{Missed, Run}
use tek_nap.Alist.Valid.{Valid, write-Written, read-some}
use tek_nap.Alist.Bounds.{
  Cramped, check_array_size_room, max-check_array_size, sized-check_array_size,
  slot-check_array_size,
}
use tek_nap.Alist.Moves.{slot, move_up-MovedUp}
use tek_nap.Alist.{check_array_size, is_exact, store, place}

-- The array as `add_to_array` finds it: it has room for two more items.
pub record Roomy (b : Array) : Type 0 where
  pub sized : length b.slots ≡ b.total_max
  pub room : b.max + 2 ≤ b.total_max
  pub filled : Filled b

pub check-Roomy : (a : Array) → Valid a → ¬ Cramped a.max a.total_max → Roomy (check_array_size a)
check-Roomy a v n =
    let m = max-check_array_size a in
    let r : a.max + 2 ≤ (check_array_size a).total_max = (check_array_size_room a v.room).1 n in
    record {
      sized = sized-check_array_size a v.sized;
      room = omega arith;
      filled = λ i h.
          let (item, e) = v.filled i (omega arith) in
          (item, slot-check_array_size a i (inside i (omega arith)) (omega arith) ∙ e);
    }
  where
    inside : (i : ℕ) → i < a.max → i < length a.slots
    inside i h = elim v.room [ inl k ↦ omega (arith, v.sized) | inr k ↦ absurd (omega arith) ]

-- `a'` is `b` with the item put at `loc`: in place of the item there, or with those behind moved up.
pub record Placed (b a' : Array) (item : Item) (loc : ℕ) (exact : Bool) : Type 0 where
  pub in_range : loc ≤ b.max
  pub new_max : a'.max ≡ (if exact then b.max else b.max + 1)
  pub at : slot a' loc ≡ some (some item)
  pub low : (j : ℕ) → j < loc → slot a' j ≡ slot b j
  pub high :
      (j : ℕ)
      → loc ≤ j
      → j < b.max
      → (if exact then (j ≢ loc → slot a' j ≡ slot b j) else slot a' (suc j) ≡ slot b j)

is_neg-negate : (n : ℕ) → 0 < n → is_neg (negate (pos n)) ≡ true
unfolding negate
is_neg-negate n h = ground arith

pub exact-Run :
    (a : Array) (name : Bytes) (s : Search)
    → Missed a s ⊎ Run a name s
    → is_exact s ≡ true
    → s.loc < a.max
exact-Run a name s (inl m) e = cc (ap is_neg m.no_count)
exact-Run a name s (inr r) e = omega (arith, r.in_range, r.some_item)

pub loc-le : (a : Array) (name : Bytes) (s : Search) → Missed a s ⊎ Run a name s → s.loc ≤ a.max
loc-le a name s (inl m) = m.in_range
loc-le a name s (inr r) = omega (arith, r.in_range)

-- The items of the new array, from those of the old one.
pub Placed-Filled :
    (b a' : Array) (item : Item) (loc : ℕ) (exact : Bool)
    → (exact ≡ true → loc < b.max)
    → Filled b
    → Placed b a' item loc exact
    → Filled a'
Placed-Filled b a' item loc true x filled p i h = elim (dec_lt i loc) [
  | yes q ↦ let (it, e) = filled i (omega (arith, p.in_range)) in (it, p.low i q ∙ e)
  | no q ↦ elim (dec_lt loc i) [
    | yes r ↦
        let (it, e) = filled i (omega (arith, p.new_max)) in
        (it, p.high i (omega arith) (omega (arith, p.new_max)) (λ z. omega arith) ∙ e)
    | no r ↦ let z : i ≡ loc = omega arith in (item, ap (slot a') z ∙ p.at)
  ]
]
Placed-Filled b a' item loc false x filled p zero h = elim (dec_lt 0 loc) [
  | yes q ↦ let (it, e) = filled 0 (omega (arith, p.in_range)) in (it, p.low 0 q ∙ e)
  | no q ↦ let z : 0 ≡ loc = omega arith in (item, ap (slot a') z ∙ p.at)
]
Placed-Filled b a' item loc false x filled p (suc i) h = elim (dec_lt (suc i) loc) [
  | yes q ↦ let (it, e) = filled (suc i) (omega (arith, p.in_range)) in (it, p.low (suc i) q ∙ e)
  | no q ↦ elim (dec_lt loc (suc i)) [
    | yes r ↦
        let (it, e) = filled i (omega (arith, p.new_max)) in
        (it, p.high i (omega arith) (omega (arith, p.new_max)) ∙ e)
    | no r ↦ let z : suc i ≡ loc = omega arith in (item, ap (slot a') z ∙ p.at)
  ]
]

-- What the end of `add_to_array` returns.
pub record Stored (b : Array) (item : Item) (s : Search) (r : Array × Option Item) : Type 0 where
  pub placed : Placed b r.0 item s.loc (is_exact s)
  pub valid : Valid r.0
  pub returned : if is_exact s then (slot b s.loc ≡ some r.1) else (r.1 ≡ none)

pub place-exact :
    (b : Array) (item : Item) (s : Search)
    → Roomy b
    → is_exact s ≡ true
    → s.loc < b.max
    → (r : Array × Option Item) × (place b item s ≡ some r) × Stored b item s r
unfolding place store
place-exact b item s v x l =
    let (ret, got, held) = read-some b s.loc (omega (arith, v.sized, v.room)) in
    let b1 : Array = record b { max = b.max - 1 } in
    let (a1, w) = write-Written b1 s.loc (some item) (omega (arith, v.sized, v.room)) in
    let a' : Array = record a1 { max = a1.max + 1 } in
    let p : Placed b a' item s.loc true = record {
      in_range = omega arith;
      new_max = omega (arith, w.same_max);
      at = w.at;
      low = λ j k. w.others j (λ e. omega arith);
      high = λ j k h ne. w.others j ne;
    } in
    (
      (a', ret),
      rw (x, got, w.done),
      record {
        placed = rw x p;
        returned = rw x held;
        valid = record {
          sized = w.same_length ∙ v.sized ∙ sym w.same_total;
          room = inl (omega (arith, w.same_max, w.same_total, v.room));
          filled = Placed-Filled b a' item s.loc true (λ _. l) v.filled p;
        };
      },
    )

pub place-new :
    (b : Array) (item : Item) (s : Search)
    → Roomy b
    → is_exact s ≡ false
    → s.loc ≤ b.max
    → (r : Array × Option Item) × (place b item s ≡ some r) × Stored b item s r
unfolding place store
place-new b item s v x l =
    let (b1, run, c) = move_up-MovedUp b s.loc b.max l (omega (arith, v.sized, v.room)) in
    let (a1, w) =
      write-Written b1 s.loc (some item) (omega (arith, v.sized, v.room, c.size.same_length)) in
    let a' : Array = record a1 { max = a1.max + 1 } in
    let p : Placed b a' item s.loc false = record {
      in_range = l;
      new_max = omega (arith, w.same_max, c.size.same_max);
      at = w.at;
      low = λ j k. w.others j (λ e. omega arith) ∙ c.low j k;
      high = λ j k h. w.others (suc j) (λ e. omega arith) ∙ c.mid j k (omega arith);
    } in
    (
      (a', none),
      rw (x, run, w.done),
      record {
        placed = rw x p;
        returned = rw x refl;
        valid = record {
          sized =
              w.same_length ∙ c.size.same_length ∙ v.sized ∙ sym (w.same_total ∙ c.size.same_total);
          room =
              inl (
                omega
                  (arith, w.same_max, w.same_total, c.size.same_max, c.size.same_total, v.room));
          filled = Placed-Filled b a' item s.loc false (λ z. cc) v.filled p;
        };
      },
    )
