-- ===== src/Timer/Create.antt =====
-- source/timer.c: new timers. A reference has ten characters at most; `when` is a whole number of microseconds,
-- and `none` where it is -1, which keeps the times of the timer that is updated.
use tek_nap.Common.{
  ◌>>=◌, ℕ, zero, suc, ◌+◌, ◌/◌, ◌%◌, List, [], ◌∷◌, ◌==◌, if◌then◌else◌, Bytes, Bool, true, false,
  Option, none, some, take, ltb,
}
use tek_nap.Common.Int.{ℤ, pos, negsuc}
use tek_nap.Text.Number.{my_atol, ltoa, int_of_long}
use tek_nap.Timer.{Timer, Timers, has_ref, get_timer, delete_timer, schedule_timer}

unfoldable pub refnum_max : ℕ
refnum_max = 10

-- `x < y`
unfoldable pub less : ℤ → ℤ → Bool
less (pos m) (pos n) = ltb m n
less (pos m) (negsuc n) = false
less (negsuc m) (pos n) = true
less (negsuc m) (negsuc n) = ltb n m

-- The loop for the highest reference; the `long` is stored in an `int`.
unfoldable pub highest : ℤ → List Timer → ℤ
highest refnum [] = refnum
highest refnum (t ∷ ts) =
    let kept = highest refnum ts in
    let taken = highest (int_of_long (my_atol t.ref)) ts in
    if less refnum (my_atol t.ref) then taken else kept

-- `refnum + 1`; an `int` that is the largest has no next one.
unfoldable pub next_int : ℤ → Option ℤ
next_int (pos n) = if n == 2147483647 then none else some (pos (n + 1))
next_int (negsuc zero) = some (pos 0)
next_int (negsuc (suc n)) = some (negsuc n)

-- The loop that looks whether the reference is in use.
unfoldable pub in_use : Bytes → List Timer → Bool
in_use ref [] = false
in_use ref (t ∷ ts) = let later = in_use ref ts in if has_ref ref t then true else later

-- `strmcpy (refnum_gets, …, REFNUM_MAX)`
unfoldable pub cut_ref : Bytes → Bytes
unfolding refnum_max
cut_ref ref = take refnum_max ref

-- The part of `create_timer_ref` behind the cut of the reference; the inner `none` is the result -1.
unfoldable pub choose_ref : List Timer → (refnum_want : Bytes) → Option (Option Bytes)
choose_ref ts [] = do refnum ← next_int (highest (pos 0) ts); some (some (cut_ref (ltoa refnum)))
choose_ref ts (c ∷ want) = some (if in_use (c ∷ want) ts then none else some (cut_ref (c ∷ want)))

unfoldable pub create_timer_ref : List Timer → (refnum_want : Bytes) → Option (Option Bytes)
create_timer_ref ts want = choose_ref ts (cut_ref want)

-- What a new timer is asked for, and the clock.
pub record Request : Type 0 where
  pub update : Bool
  pub refnum_want : Bytes
  pub when : Option ℕ
  pub events : ℤ
  pub callback : Option ℕ
  pub whom : Option Bytes
  pub now_sec : ℕ
  pub now_usec : ℕ

-- A new timer that is not an update. A time of -1 without a timer to update is left out, as `none`.
unfoldable pub fresh_timer : Request → Option ℕ → Option Timer
fresh_timer r none = none
fresh_timer r (some us) = some (record {
  ref = [];
  tv_sec = r.now_sec + (us + r.now_usec) / 1000000;
  tv_usec = (us + r.now_usec) % 1000000;
  events = r.events;
  interval = us;
  whom = r.whom;
  callback = r.callback;
  delete = false;
})

unfoldable pub keep_events : ℤ → Timer → ℤ
keep_events (negsuc zero) t = t.events
keep_events (negsuc (suc n)) t = negsuc (suc n)
keep_events (pos n) t = pos n

-- A new timer that takes over from an old one.
unfoldable pub updated_timer : Request → Option ℕ → Timer → Option Timer
updated_timer r none old = some (record {
  ref = [];
  tv_sec = old.tv_sec;
  tv_usec = old.tv_usec;
  events = keep_events r.events old;
  interval = old.interval;
  whom = r.whom;
  callback = old.callback;
  delete = false;
})
updated_timer r (some us) old = do
  new ← fresh_timer r (some us)
  some (record new { events = keep_events r.events old; callback = old.callback })

-- The branches on `otimer`: the new timer, and what is left of the pending ones.
unfoldable pub replace_timer : Timers → Request → Option Timer → Option (Timer × Timers)
replace_timer s r none = do new ← fresh_timer r r.when; some (new, s)
replace_timer s r (some old) = do
  new ← updated_timer r r.when old
  some (new, (delete_timer s r.refnum_want).0)

-- The part of `add_timer` behind `create_timer_ref`: the reference, or a null pointer.
unfoldable pub with_ref : Timer → Timers → Option Bytes → Timers × Option Bytes
with_ref new s none = (s, none)
with_ref new s (some ref) =
    (record s { pending = schedule_timer (record new { ref = ref }) s.pending }, some ref)

unfoldable pub add_timer : Timers → Request → Option (Timers × Option Bytes)
add_timer s r = do
  made ← replace_timer s r (if r.update then get_timer s r.refnum_want else none)
  ref ← create_timer_ref (made.1).pending r.refnum_want
  some (with_ref made.0 made.1 ref)
