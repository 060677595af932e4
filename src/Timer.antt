-- ===== src/Timer.antt =====
-- source/timer.c: the list of timers in the order in which they go off. What is freed is left out.
pub mod Schedule
pub mod Delete
pub mod Execute
pub mod Due
pub mod Create
pub mod Fresh
pub mod Distinct
use tek_nap.Common.{
  ℕ, zero, suc, ◌+◌, ◌*◌, List, [], ◌∷◌, ◌==◌, if◌then◌else◌, Bytes, Bool, true, false, ◌&&◌, ◌||◌,
  Option, none, some, ltb,
}
use tek_nap.Common.Int.{ℤ, pos, negsuc, is_zero}
use tek_nap.Text.Case.{my_stricmp}

-- `TimerList`, without what only the user's commands read; the interval is in microseconds.
pub record Timer : Type 0 where
  pub ref : Bytes
  pub tv_sec : ℕ
  pub tv_usec : ℕ
  pub events : ℤ
  pub interval : ℕ
  pub whom : Option Bytes
  pub callback : Option ℕ
  pub delete : Bool

-- `PendingTimers`, and `current_exec_timer`, where `none` is the pointer `empty_string`.
pub record Timers : Type 0 where
  pub pending : List Timer
  pub current_exec_timer : Option Bytes

-- A time in microseconds; `time_diff (a, b) < 0` is `b` before `a`.
unfoldable pub micros : Timer → ℕ
micros t = t.tv_sec * 1000000 + t.tv_usec

unfoldable pub goes_off_before : Timer → Timer → Bool
goes_off_before a b = ltb (micros a) (micros b)

-- The loop of `schedule_timer`, and the link in front of the slot that it finds.
unfoldable pub schedule_timer : Timer → List Timer → List Timer
schedule_timer ntimer [] = ntimer ∷ []
schedule_timer ntimer (t ∷ ts) =
    let rest = schedule_timer ntimer ts in
    if goes_off_before ntimer t then ntimer ∷ t ∷ ts else t ∷ rest

-- `!my_stricmp (tmp->ref, ref)`
unfoldable pub has_ref : Bytes → Timer → Bool
has_ref ref t = is_zero (my_stricmp t.ref ref)

-- The loop of `delete_timer`: the list without the first timer of the name, if there is one.
unfoldable pub unlink : Bytes → List Timer → Option (List Timer)
unlink ref [] = none
unlink ref (t ∷ ts) =
    let later : Option (List Timer) = elim (unlink ref ts) [
      | none ↦ none
      | some rest ↦ some (t ∷ rest)
    ] in
    if has_ref ref t then some ts else later

-- What is left when a timer was unlinked, and the value that is returned.
unfoldable pub unlinked : Timers → Option (List Timer) → Timers × ℤ
unlinked s none = (s, negsuc 0)
unlinked s (some ts) = (record s { pending = ts }, pos 0)

unfoldable pub is_executing : Option Bytes → Bool
is_executing none = false
is_executing (some ref) = true

unfoldable pub delete_timer : Timers → Bytes → Timers × ℤ
delete_timer s ref =
    if is_executing s.current_exec_timer then (s, negsuc 0) else unlinked s (unlink ref s.pending)

-- `kill_timer` unlinks a timer also while one is executing.
unfoldable pub kill_timer : Timers → Bytes → Timers × ℤ
kill_timer s ref = unlinked s (unlink ref s.pending)

-- The loop of `kill_current_timer`.
unfoldable pub mark : Bytes → List Timer → Option (List Timer)
mark ref [] = none
mark ref (t ∷ ts) =
    let later : Option (List Timer) = elim (mark ref ts) [
      | none ↦ none
      | some rest ↦ some (t ∷ rest)
    ] in
    if has_ref ref t then some (record t { delete = true } ∷ ts) else later

unfoldable pub kill_current_timer : Timers → Bytes → Timers × ℤ
kill_current_timer s ref = unlinked s (mark ref s.pending)

unfoldable pub flag : Bool → ℤ
flag false = pos 0
flag true = pos 1

-- The loop of `get_delete_timer`.
unfoldable pub delete_flag : Bytes → List Timer → ℤ
delete_flag ref [] = negsuc 0
delete_flag ref (t ∷ ts) =
    let later = delete_flag ref ts in if has_ref ref t then flag t.delete else later

unfoldable pub get_delete_timer : Timers → Bytes → ℤ
get_delete_timer s ref = delete_flag ref s.pending

-- `delete_all_timers`; `none` is a loop that has not ended.
unfoldable pub delete_all_timers : ℕ → Timers → Option Timers
delete_all_timers zero s = none
delete_all_timers (suc fuel) s = elim s.pending [
  | [] ↦ some s
  | t ∷ ts ↦ delete_all_timers fuel (delete_timer s t.ref).0
]

unfoldable pub has_whom : Bytes → Option Bytes → Bool
has_whom ref none = false
has_whom ref (some whom) = is_zero (my_stricmp whom ref)

-- The loop of `get_timer`.
unfoldable pub find_timer : Bytes → List Timer → Option Timer
find_timer ref [] = none
find_timer ref (t ∷ ts) =
    let later = find_timer ref ts in if has_ref ref t || has_whom ref t.whom then some t else later

unfoldable pub get_timer : Timers → Bytes → Option Timer
get_timer s ref = find_timer ref s.pending

unfoldable pub found_timer : Option Timer → Bool
found_timer none = false
found_timer (some t) = true

unfoldable pub timer_exists : Timers → Bytes → Bool
timer_exists s ref = found_timer (get_timer s ref)

unfoldable pub is_callback : ℕ → Option ℕ → Bool
is_callback ref none = false
is_callback ref (some callback) = ref == callback

-- The loop of `timer_callback_exists`.
unfoldable pub has_callback : ℕ → List Timer → Bool
has_callback ref [] = false
has_callback ref (t ∷ ts) = is_callback ref t.callback || has_callback ref ts

unfoldable pub timer_callback_exists : Timers → (ref : ℕ) → Bool
timer_callback_exists s ref = has_callback ref s.pending
