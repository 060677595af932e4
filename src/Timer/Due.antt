-- ===== src/Timer/Due.antt =====
-- `ExecuteTimers` executes the timers that are due, in their order.
use tek_nap.Common.{
  ℕ, zero, suc, ◌≤◌, ◌<◌, ◌≡◌, refl, List, [], ◌∷◌, ◌++◌, Bytes, Bool, true, false, ◌||◌, some, ◌⊎◌,
  inl, inr, All, arith, Bool-cases, ap, sym, map, length, append-nil,
}
use tek_nap.Common.Int.{pos}
use tek_nap.Timer.{Timer, micros, goes_off_before}
use tek_nap.Timer.Schedule.{IsSorted, tail-IsSorted}
use tek_nap.Timer.Execute.{
  Clock, kept, is_nil, finished, is_due, clean_up, execute_loop, execute_timers,
}

-- A timer that runs once.
abbrev pub Once : Timer → Type 0
Once t = (t.events ≡ pos 0) ⊎ (t.events ≡ pos 1)

-- `earlier` was due and has been executed, `left` is not due.
pub record Executed (now1 : Timer) (ts left : List Timer) (names : List Bytes) : Type 0 where
  pub earlier : List Timer
  pub all : ts ≡ earlier ++ left
  pub in_order : names ≡ map (λ (t : Timer). t.ref) earlier
  pub due : All (λ t. micros t < micros now1) earlier
  pub not_due : All (λ t. micros now1 ≤ micros t) left

not_due_behind :
    (now1 t : Timer) (ts : List Timer)
    → micros now1 ≤ micros t
    → IsSorted (t ∷ ts)
    → All (λ (u : Timer). micros now1 ≤ micros u) (t ∷ ts)
not_due_behind now1 t [] h s = (h, tt)
not_due_behind now1 t (u ∷ ts) h s = (h, not_due_behind now1 u ts (omega (arith, s.0)) s.1)

is_due_lt : (now1 t : Timer) → is_due now1 t ≡ true → micros t < micros now1
unfolding is_due goes_off_before
is_due_lt now1 t h = ground arith

is_due_le : (now1 t : Timer) → is_due now1 t ≡ false → micros now1 ≤ micros t
unfolding is_due goes_off_before
is_due_le now1 t h = ground arith

clean_up-Once :
    (address : ℕ) (t : Timer) (ts : List Timer) → Once t → clean_up address t t.events ts ≡ kept ts
unfolding clean_up
clean_up-Once address t ts (inl e) = ap (λ n. clean_up address t n ts) e
clean_up-Once address t ts (inr e) = ap (λ n. clean_up address t n ts) e

execute_loop-Executed :
    (address : Timer → ℕ) (now1 : Timer) (fuel : ℕ) (ts : List Timer)
    → length ts < fuel
    → All Once ts
    → IsSorted ts
    → (left : List Timer) × (names : List Bytes) × (execute_loop (λ t us. us) address now1 fuel ts
        ≡ some (left, names))
      × Executed now1 ts left names
unfolding execute_loop
execute_loop-Executed address now1 zero ts h o s = absurd (omega arith)
execute_loop-Executed address now1 (suc fuel) [] h o s =
    ([], [], refl, record { earlier = []; all = refl; in_order = refl; due = tt; not_due = tt })
execute_loop-Executed address now1 (suc fuel) (t ∷ ts) h o s = elim (Bool-cases (is_due now1 t)) [
  | inl y ↦
      let (left, names, run, x) =
        execute_loop-Executed address now1 fuel ts (omega arith) o.1 (tail-IsSorted t ts s) in
      (
        left,
        t.ref ∷ names,
        rw (y, clean_up-Once (address t) t ts o.0, run),
        record {
          earlier = t ∷ x.earlier;
          all = ap (λ (l : List Timer). t ∷ l) x.all;
          in_order = ap (λ (l : List Bytes). t.ref ∷ l) x.in_order;
          due = (is_due_lt now1 t y, x.due);
          not_due = x.not_due;
        },
      )
  | inr n ↦ (
    t ∷ ts,
    [],
    rw n,
    record {
      earlier = [];
      all = refl;
      in_order = refl;
      due = tt;
      not_due = not_due_behind now1 t ts (is_due_le now1 t n) s;
    },
  )
]

neither : (x y : Bool) → x ≡ false → y ≡ false → (x || y) ≡ false
neither x y h k = ground arith

-- `ExecuteTimers`, when no server is waited for and it is not called from a timer, on sorted timers
-- that all run once and whose commands leave the list alone, with more fuel than there are timers,
-- comes to an end: it executes the timers before `now1`, in the order of the list, and leaves exactly
-- the others pending, in their order.
pub execute_timers-Executed :
    (address : Timer → ℕ) (now1 : Timer) (fuel : ℕ) (c : Clock)
    → length c.timers.pending < fuel
    → c.parsingtimer ≡ false
    → All Once c.timers.pending
    → IsSorted c.timers.pending
    → (c' : Clock) × (names : List Bytes) × (execute_timers (λ t us. us) address now1 fuel false c
        ≡ some c')
      × (c'.executed ≡ c.executed ++ names)
      × (c'.parsingtimer ≡ false)
      × Executed now1 c.timers.pending c'.timers.pending names
unfolding execute_timers finished is_nil
execute_timers-Executed address now1 fuel c h p o s =
    let (left, names, run, x) = execute_loop-Executed address now1 fuel c.timers.pending h o s in
    elim (Bool-cases (is_nil c.timers.pending)) [
      | inl y ↦ (c, [], rw y, sym (append-nil c.executed), p, nothing c.timers.pending y)
      | inr n ↦ (
        finished c (left, names),
        names,
        rw (neither (is_nil c.timers.pending) c.parsingtimer n p, run),
        refl,
        p,
        x,
      )
    ]
  where
    nothing : (ts : List Timer) → is_nil ts ≡ true → Executed now1 ts ts []
    nothing [] y = record { earlier = []; all = refl; in_order = refl; due = tt; not_due = tt }
    nothing (t ∷ ts) y = cc
