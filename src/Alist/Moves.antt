-- ===== src/Alist/Moves.antt =====
-- `move_array_items`: the items from a place on move up by one slot, or down by one.
use tek_nap.Common.{
  ℕ, zero, suc, ◌+◌, ◌-◌, ◌≤◌, ◌<◌, ◌≡◌, refl, Option, none, some, length, get_elem?, arith, sym,
  ◌∙◌, ap,
}
use native.Mathlib.Decide.{dec_lt}
use tek_nap.Alist.Slots.{Item, Array, shift_up, move_up, shift_down}
use tek_nap.Alist.Valid.{write-Written, read-some}

abbrev pub slot : Array → ℕ → Option (Option Item)
slot a i = get_elem? a.slots i

pub record SameSize (a a' : Array) : Type 0 where
  pub same_max : a'.max ≡ a.max
  pub same_total : a'.total_max ≡ a.total_max
  pub same_length : length a'.slots ≡ length a.slots

-- The `n` slots from `start` on have been copied up.
pub record CopiedUp (a a' : Array) (start n : ℕ) : Type 0 where
  pub size : SameSize a a'
  pub low : (j : ℕ) → j ≤ start → slot a' j ≡ slot a j
  pub mid : (j : ℕ) → start ≤ j → j < start + n → slot a' (suc j) ≡ slot a j
  pub high : (j : ℕ) → start + n < j → slot a' j ≡ slot a j

shift_up-CopiedUp :
    (n : ℕ) (a : Array) (start : ℕ)
    → start + n < length a.slots
    → (a' : Array) × (shift_up n a start ≡ some a') × CopiedUp a a' start n
unfolding shift_up
shift_up-CopiedUp zero a start h = (
  a,
  refl,
  record {
    size = record { same_max = refl; same_total = refl; same_length = refl };
    low = λ j k. refl;
    mid = λ j k l. absurd (omega arith);
    high = λ j k. refl;
  },
)
shift_up-CopiedUp (suc n) a start h =
    let (item, got, held) = read-some a (start + n) (omega arith) in
    let (a1, w) = write-Written a (start + n + 1) item (omega arith) in
    let (a', run, c) = shift_up-CopiedUp n a1 start (omega (arith, w.same_length)) in
    (
      a',
      rw (got, w.done, run),
      record {
        size = record {
          same_max = c.size.same_max ∙ w.same_max;
          same_total = c.size.same_total ∙ w.same_total;
          same_length = c.size.same_length ∙ w.same_length;
        };
        low = λ j k. c.low j k ∙ w.others j (λ e. omega arith);
        mid = λ j k l. elim (dec_lt j (start + n)) [
          | yes p ↦ c.mid j k p ∙ w.others j (λ e. omega arith)
          | no p ↦
              let e : j ≡ start + n = omega arith in
              c.high (suc j) (omega arith)
              ∙ ap (slot a1) (let e' : suc j ≡ start + n + 1 = omega arith in e')
              ∙ w.at
              ∙ sym held
              ∙ ap (slot a) (sym e)
        ];
        high = λ j k. c.high j (omega arith) ∙ w.others j (λ e. omega arith);
      },
    )

-- `a'` is `a` with the slots from `start` to `end` moved up by one and nothing left at `start`.
pub record MovedUp (a a' : Array) (start end : ℕ) : Type 0 where
  pub size : SameSize a a'
  pub low : (j : ℕ) → j < start → slot a' j ≡ slot a j
  pub mid : (j : ℕ) → start ≤ j → j ≤ end → slot a' (suc j) ≡ slot a j

pub move_up-MovedUp :
    (a : Array) (start end : ℕ)
    → start ≤ end
    → end + 1 < length a.slots
    → (a' : Array) × (move_up a start end ≡ some a') × MovedUp a a' start end
unfolding move_up
move_up-MovedUp a start end h k =
    let (a1, run, c) = shift_up-CopiedUp (end + 1 - start) a start (omega arith) in
    let (a', w) = write-Written a1 start none (omega (arith, c.size.same_length)) in
    (
      a',
      rw (run, w.done),
      record {
        size = record {
          same_max = w.same_max ∙ c.size.same_max;
          same_total = w.same_total ∙ c.size.same_total;
          same_length = w.same_length ∙ c.size.same_length;
        };
        low = λ j l. w.others j (λ e. omega arith) ∙ c.low j (omega arith);
        mid = λ j l u. w.others (suc j) (λ e. omega arith) ∙ c.mid j l (omega arith);
      },
    )

-- `a'` is `a` with `n` slots from `i` on moved down by one.
pub record MovedDown (a a' : Array) (i n : ℕ) : Type 0 where
  pub size : SameSize a a'
  pub low : (j : ℕ) → suc j < i → slot a' j ≡ slot a j
  pub mid : (j : ℕ) → i ≤ suc j → suc j < i + n → slot a' j ≡ slot a (suc j)

pub shift_down-MovedDown :
    (n : ℕ) (a : Array) (i : ℕ)
    → 0 < i
    → i + n ≤ length a.slots
    → (a' : Array) × (shift_down n a i ≡ some a') × MovedDown a a' i n
unfolding shift_down
shift_down-MovedDown zero a i p h = (
  a,
  refl,
  record {
    size = record { same_max = refl; same_total = refl; same_length = refl };
    low = λ j k. refl;
    mid = λ j k l. absurd (omega arith);
  },
)
shift_down-MovedDown (suc n) a i p h =
    let (item, got, held) = read-some a i (omega arith) in
    let (a1, w) = write-Written a (i - 1) item (omega arith) in
    let (a', run, c) =
      shift_down-MovedDown n a1 (i + 1) (omega arith) (omega (arith, w.same_length)) in
    (
      a',
      rw (got, w.done, run),
      record {
        size = record {
          same_max = c.size.same_max ∙ w.same_max;
          same_total = c.size.same_total ∙ w.same_total;
          same_length = c.size.same_length ∙ w.same_length;
        };
        low = λ j k. c.low j (omega arith) ∙ w.others j (λ e. omega arith);
        mid = λ j k l. elim (dec_lt i (suc j)) [
          | yes q ↦ c.mid j (omega arith) (omega arith) ∙ w.others (suc j) (λ e. omega arith)
          | no q ↦
              let e : j ≡ i - 1 = omega arith in
              let e' : i ≡ suc j = omega arith in
              c.low j (omega arith) ∙ ap (slot a1) e ∙ w.at ∙ sym held ∙ ap (slot a) e'
        ];
      },
    )
