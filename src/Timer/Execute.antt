-- ===== src/Timer/Execute.antt =====
-- source/timer.c: `ExecuteTimers`. The windows and servers that it switches to are left out. What a
-- timer's command does to the pending timers is an argument, and so is the address of a timer, which
-- the code takes the microseconds of its next run from.
use tek_nap.Common.{
  ℕ, zero, suc, ◌+◌, ◌/◌, ◌%◌, List, [], ◌∷◌, ◌++◌, if◌then◌else◌, Bytes, Bool, true, false, ◌||◌,
  Option, none, some,
}
use tek_nap.Common.Int.{ℤ, pos, negsuc}
use tek_nap.Timer.{Timer, Timers, goes_off_before, schedule_timer}

-- The static variables, with `parsingtimer`, and the names of the timers that were executed so far.
pub record Clock : Type 0 where
  pub timers : Timers
  pub parsingtimer : Bool
  pub executed : List Bytes

-- `time_diff (now1, t->time) < 0`
unfoldable pub is_due : (now1 t : Timer) → Bool
is_due now1 t = goes_off_before t now1

-- The time and the number of events of the next run.
unfoldable pub next_run : (address : ℕ) → ℤ → Timer → Timer
next_run address events t = record t {
  events = events;
  tv_sec = t.tv_sec + (t.interval + t.tv_usec) / 1000000;
  tv_usec = address % 1000000;
}

-- The pending timers behind a round; in a `dangling` list the executed timer is linked and was freed.
pub data Cleaned : Type 0 where
  kept : List Timer → Cleaned
  dangling : List Timer → Cleaned

-- `schedule_timer (current)`, and the last test of the round, which frees a timer that is marked.
unfoldable pub run_again : (address : ℕ) → ℤ → Timer → List Timer → Cleaned
run_again address events t pending =
    let linked = schedule_timer (next_run address events t) pending in
    if t.delete then dangling linked else kept linked

-- `switch (current->events)`
unfoldable pub clean_up : (address : ℕ) → Timer → ℤ → List Timer → Cleaned
clean_up address t (pos zero) pending = kept pending
clean_up address t (pos (suc zero)) pending = kept pending
clean_up address t (pos (suc (suc n))) pending = run_again address (pos (suc n)) t pending
clean_up address t (negsuc zero) pending = run_again address (negsuc zero) t pending
clean_up address t (negsuc (suc n)) pending = run_again address (negsuc (suc (suc n))) t pending

unfoldable pub is_nil : {A : Type 0} → List A → Bool
is_nil [] = true
is_nil (t ∷ ts) = false

-- The state at the end of the loop: `current_exec_timer` is reset behind each timer.
unfoldable pub finished : Clock → List Timer × List Bytes → Clock
finished c (left, names) = record c {
  timers = record {
    pending = left;
    current_exec_timer = if is_nil names then c.timers.current_exec_timer else none;
  };
  executed = c.executed ++ names;
}

module _ (command : Timer → List Timer → List Timer) (address : Timer → ℕ) (now1 : Timer) where
  -- The loop: the timers that are pending at its end, and the names of those that were executed. A
  -- round behind which the list is dangling goes on with what was freed, which is `none`.
  unfoldable pub execute_loop : ℕ → List Timer → Option (List Timer × List Bytes)
  execute_loop zero pending = none
  execute_loop (suc fuel) [] = some ([], [])
  execute_loop (suc fuel) (t ∷ ts) =
      if is_due now1 t
      then elim (clean_up (address t) t t.events (command t ts)) [
        | dangling pending ↦ none
        | kept pending ↦ elim (execute_loop fuel pending) [
          | none ↦ none
          | some (left, names) ↦ some (left, t.ref ∷ names)
        ]
      ]
      else some (t ∷ ts, [])

  -- `ExecuteTimers ()`, where `waiting` is whether the server is waited for.
  unfoldable pub execute_timers : ℕ → (waiting : Bool) → Clock → Option Clock
  execute_timers fuel waiting c =
      if waiting || (is_nil c.timers.pending || c.parsingtimer)
      then some c
      else elim (execute_loop fuel c.timers.pending) [ none ↦ none | some r ↦ some (finished c r) ]
