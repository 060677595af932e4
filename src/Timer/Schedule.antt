-- ===== src/Timer/Schedule.antt =====
-- The order of the pending timers.
use tek_nap.Common.{
  ℕ, ◌≤◌, ◌<◌, ◌≡◌, refl, List, [], ◌∷◌, ◌++◌, true, false, All, arith, Bool-cases, inl, inr, ap,
}
use tek_nap.Timer.{Timer, micros, goes_off_before, schedule_timer}

-- No timer goes off before the one in front of it.
abbrev pub IsSorted : List Timer → Type 0
IsSorted [] = Unit
IsSorted (t ∷ []) = Unit
IsSorted (t ∷ u ∷ ts) = (micros t ≤ micros u) × IsSorted (u ∷ ts)

-- The new timer stands behind those that go off at its time or before, and in front of the others.
pub record Placed (ntimer : Timer) (ts out : List Timer) : Type 0 where
  pub earlier : List Timer
  pub later : List Timer
  pub were : ts ≡ earlier ++ later
  pub are : out ≡ earlier ++ ntimer ∷ later
  pub due_first : All (λ t. micros t ≤ micros ntimer) earlier
  pub due_last : All (λ t. micros ntimer < micros t) later

behind_it :
    (n : ℕ) (t : Timer) (ts : List Timer)
    → n < micros t
    → IsSorted (t ∷ ts)
    → All (λ (u : Timer). n < micros u) (t ∷ ts)
behind_it n t [] h s = (h, tt)
behind_it n t (u ∷ ts) h s = (h, behind_it n u ts (omega (arith, s.0)) s.1)

pub tail-IsSorted : (t : Timer) (ts : List Timer) → IsSorted (t ∷ ts) → IsSorted ts
tail-IsSorted t [] s = tt
tail-IsSorted t (u ∷ ts) s = s.1

earlier_first : (a b : Timer) → goes_off_before a b ≡ true → micros a < micros b
unfolding goes_off_before
earlier_first a b h = ground arith

not_earlier : (a b : Timer) → goes_off_before a b ≡ false → micros b ≤ micros a
unfolding goes_off_before
not_earlier a b h = ground arith

schedule_behind :
    (n t : Timer) (ts : List Timer)
    → micros t ≤ micros n
    → IsSorted (t ∷ ts)
    → IsSorted (t ∷ schedule_timer n ts)
unfolding schedule_timer
schedule_behind n t [] h s = (h, tt)
schedule_behind n t (u ∷ ts) h s = elim (Bool-cases (goes_off_before n u)) [
  | inl y ↦
      let l = earlier_first n u y in let w : micros n ≤ micros u = omega arith in rw y (h, (w, s.1))
  | inr f ↦ rw f (s.0, schedule_behind n u ts (not_earlier n u f) s.1)
]

schedule_timer-IsSorted :
    (n : Timer) (ts : List Timer) → IsSorted ts → IsSorted (schedule_timer n ts)
unfolding schedule_timer
schedule_timer-IsSorted n [] s = tt
schedule_timer-IsSorted n (u ∷ ts) s = elim (Bool-cases (goes_off_before n u)) [
  | inl y ↦ let l = earlier_first n u y in let w : micros n ≤ micros u = omega arith in rw y (w, s)
  | inr f ↦ rw f (schedule_behind n u ts (not_earlier n u f) s)
]

put_in_place : (n : Timer) (ts : List Timer) → IsSorted ts → Placed n ts (schedule_timer n ts)
unfolding schedule_timer
put_in_place n [] s = record {
  earlier = [];
  later = [];
  were = refl;
  are = refl;
  due_first = tt;
  due_last = tt;
}
put_in_place n (t ∷ ts) s = elim (Bool-cases (goes_off_before n t)) [
  | inl y ↦ record {
    earlier = [];
    later = t ∷ ts;
    were = refl;
    are = rw y;
    due_first = tt;
    due_last = behind_it (micros n) t ts (earlier_first n t y) s;
  }
  | inr f ↦
      let p = put_in_place n ts (tail-IsSorted t ts s) in
      record {
        earlier = t ∷ p.earlier;
        later = p.later;
        were = ap (λ (l : List Timer). t ∷ l) p.were;
        are = rw f (ap (λ (l : List Timer). t ∷ l) p.are);
        due_first = (not_earlier n t f, p.due_first);
        due_last = p.due_last;
      }
]

-- `schedule_timer` keeps the pending timers in the order of their times, and puts the new one behind
-- all that go off at the same time or before, and in front of all others; the others stay in order.
pub schedule_timer-Placed :
    (ntimer : Timer) (ts : List Timer)
    → IsSorted ts
    → IsSorted (schedule_timer ntimer ts) × Placed ntimer ts (schedule_timer ntimer ts)
schedule_timer-Placed ntimer ts s = (schedule_timer-IsSorted ntimer ts s, put_in_place ntimer ts s)
