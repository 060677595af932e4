-- ===== src/Tests/Clocks.antt =====
-- source/timer.c and source/flood.c at concrete states.
use tek_nap.Common.{
  inr, ℕ, ◌<◌, ◌≡◌, ◌≢◌, ◌⊎◌, inl, refl, Bytes, codes, List, [], ◌∷◌, some, none, true, false,
  arith, All, replicate, map, subst, Option,
}
use tek_nap.Common.Int.{ℤ, pos, negsuc}
use tek_nap.Timer.{
  Timer, Timers, has_ref, is_executing, micros, schedule_timer, delete_timer, delete_all_timers,
}
use tek_nap.Timer.Schedule.{IsSorted, Placed, schedule_timer-Placed}
use tek_nap.Timer.Delete.{Unlinked, delete_timer-Unlinked, delete_all_timers_lem}
use tek_nap.Timer.Execute.{Clock, execute_timers}
use tek_nap.Timer.Due.{Executed, execute_timers-Executed}
use tek_nap.Timer.Create.{in_use, Request, add_timer}
use tek_nap.Timer.Fresh.{SmallRef, pos-injective}
use tek_nap.Timer.Distinct.{Distinct, add_timer-Distinct}
use tek_nap.Text.Number.{my_atol}
use tek_nap.Flood.Table.{FloodType, Flood, done, fault, blank}
use tek_nap.Flood.Valid.{Valid, check_flooding-Valid}
use tek_nap.Flood.Off.{check_flooding_off_on}
use tek_nap.Flood.{Call, resize_table, is_none, check_flooding}

abbrev timer_at : Bytes → ℕ → Timer
timer_at ref sec = record {
  ref = ref;
  tv_sec = sec;
  tv_usec = 0;
  events = pos 1;
  interval = 0;
  whom = none;
  callback = none;
  delete = false;
}

abbrev two_timers : List Timer
two_timers = timer_at (codes "1") 10 ∷ timer_at (codes "2") 20 ∷ []

abbrev idle : Timers
idle = record { pending = two_timers; current_exec_timer = none }

in_order : IsSorted two_timers
unfolding micros
in_order = (omega arith, tt)

schedule_timer-Placed_example :
    IsSorted (schedule_timer (timer_at (codes "3") 10) two_timers)
    × Placed
        (timer_at (codes "3") 10)
        two_timers
        (schedule_timer (timer_at (codes "3") 10) two_timers)
schedule_timer-Placed_example = schedule_timer-Placed (timer_at (codes "3") 10) two_timers in_order

delete_timer-Unlinked_example :
    (is_executing none ≡ false
      → ((delete_timer idle (codes "2") ≡ (idle, negsuc 0))
          × All (λ t. has_ref (codes "2") t ≡ false) two_timers)
        ⊎ ((out : List Timer) × (delete_timer idle (codes "2")
              ≡ (record idle { pending = out }, pos 0))
            × Unlinked (codes "2") two_timers out))
    × (is_executing none ≡ true → delete_timer idle (codes "2") ≡ (idle, negsuc 0))
delete_timer-Unlinked_example = delete_timer-Unlinked idle (codes "2")

delete_all_timers_lem_example :
    (idle.current_exec_timer ≡ none
      → 2 < 3
      → delete_all_timers 3 idle ≡ some (record idle { pending = [] }))
    × (is_executing none ≡ true → two_timers ≢ [] → delete_all_timers 3 idle ≡ none)
delete_all_timers_lem_example = delete_all_timers_lem 3 idle

abbrev clock : Clock
clock = record { timers = idle; parsingtimer = false; executed = [] }

execute_timers-Executed_example :
    (c' : Clock) × (names : List Bytes) × (execute_timers
        (λ t us. us)
        (λ t. 4096)
        (timer_at [] 15)
        3
        false
        clock
      ≡ some c')
    × (c'.executed ≡ names)
    × (c'.parsingtimer ≡ false)
    × Executed (timer_at [] 15) two_timers c'.timers.pending names
execute_timers-Executed_example =
    execute_timers-Executed (λ t. 4096) (timer_at [] 15) 3 clock (omega arith) refl
      (inr refl, (inr refl, tt)) in_order

abbrev call : ℕ → Call
call users = record {
  nick = codes "joe";
  chan = none;
  type = FloodType.msg_flood;
  server = some 0;
  right_now = 7;
  flood_users = users;
  flood_after = 4;
  flood_rate = 5;
  hook = pos 0;
}

abbrev unused : Flood
unused = record { flood = none; users = 0; place = 0 }

unused-Valid : Valid unused
unused-Valid = record { table = inl (refl, refl) }

check_flooding-Valid_example :
    (s' : Flood) × (r : ℤ) × (check_flooding 11 (call 10) unused ≡ done (s', r))
    × Valid s'
    × (is_none (call 10).server ≡ false → s'.users ≡ 10)
check_flooding-Valid_example =
    check_flooding-Valid 11 (call 10) unused unused-Valid (omega arith) (omega arith)

abbrev used : Flood
used = record { flood = some (replicate 10 blank); users = 10; place = 0 }

connected : is_none (call 0).server ≡ false
unfolding is_none
connected = refl

check_flooding_off_on_example :
    (s' : Flood) × (check_flooding 11 (call 0) used ≡ done (s', pos 1))
    × (s'.flood ≡ none)
    × (resize_table 10 s' ≡ s')
    × (check_flooding 11 (call 10) s' ≡ fault)
check_flooding_off_on_example =
    check_flooding_off_on 11 11 (call 0) (call 10) used connected connected refl refl (omega arith)

small : All SmallRef two_timers
unfolding tek_nap.Text.Number.digits_value tek_nap.Text.Number.int_of_long tek_nap.Text.Number.ltoa
    my_atol tek_nap.Text.Number.past_space tek_nap.Text.Number.plus_minus
    tek_nap.Text.Number.put_digits tek_nap.Text.Number.signed_value tek_nap.Text.Number.wrap_int
    tek_nap.Text.Search.isdigit tek_nap.Text.Search.my_isspace
small = (
  (
    ((omega arith, omega arith), tt),
    λ k e. subst (λ n. n < 999999999) (pos-injective 1 k e) (omega arith),
  ),
  (
    (
      ((omega arith, omega arith), tt),
      λ k e. subst (λ n. n < 999999999) (pos-injective 2 k e) (omega arith),
    ),
    tt,
  ),
)

different : Distinct two_timers
unfolding Distinct in_use has_ref tek_nap.Text.Case.my_stricmp tek_nap.Text.Case.fold
different = (refl, (refl, tt))

-- The timer 1 gets a new time.
abbrev later_one : Request
later_one = record {
  update = true;
  refnum_want = codes "1";
  when = some 5500000;
  events = negsuc 0;
  callback = none;
  whom = none;
  now_sec = 100;
  now_usec = 700000;
}

-- A timer without a reference.
abbrev any_ref : Request
any_ref = record later_one { update = false; refnum_want = []; events = pos 2 }

-- The references of the timers, and when they go off.
abbrev shown : Option (Timers × Option Bytes) → List (Bytes × ℕ × ℕ)
shown none = []
shown (some (s, ref)) = map (λ t. (t.ref, t.tv_sec, t.tv_usec)) s.pending

later_one_runs :
    shown (add_timer idle later_one) ≡ (codes "2", 20, 0) ∷ (codes "1", 106, 200000) ∷ []
unfolding add_timer tek_nap.Timer.Create.replace_timer tek_nap.Timer.Create.updated_timer
    tek_nap.Timer.Create.fresh_timer tek_nap.Timer.Create.create_timer_ref
    tek_nap.Timer.Create.choose_ref tek_nap.Timer.Create.cut_ref tek_nap.Timer.Create.with_ref
    tek_nap.Timer.Create.highest tek_nap.Timer.Create.keep_events tek_nap.Timer.Create.less
    tek_nap.Timer.Create.next_int tek_nap.Timer.Create.refnum_max in_use tek_nap.Timer.get_timer
    tek_nap.Timer.find_timer delete_timer is_executing tek_nap.Timer.unlinked tek_nap.Timer.unlink
    tek_nap.Timer.goes_off_before tek_nap.Timer.has_whom micros schedule_timer has_ref
    tek_nap.Text.Case.my_stricmp tek_nap.Text.Case.fold tek_nap.Text.Number.digits_value
    tek_nap.Text.Number.int_of_long tek_nap.Text.Number.ltoa my_atol tek_nap.Text.Number.past_space
    tek_nap.Text.Number.plus_minus tek_nap.Text.Number.put_digits tek_nap.Text.Number.signed_value
    tek_nap.Text.Number.wrap_int tek_nap.Text.Search.isdigit tek_nap.Text.Search.my_isspace
later_one_runs = refl

any_ref_runs :
    shown (add_timer idle any_ref)
    ≡ (codes "1", 10, 0) ∷ (codes "2", 20, 0) ∷ (codes "3", 106, 200000) ∷ []
unfolding add_timer tek_nap.Timer.Create.replace_timer tek_nap.Timer.Create.updated_timer
    tek_nap.Timer.Create.fresh_timer tek_nap.Timer.Create.create_timer_ref
    tek_nap.Timer.Create.choose_ref tek_nap.Timer.Create.cut_ref tek_nap.Timer.Create.with_ref
    tek_nap.Timer.Create.highest tek_nap.Timer.Create.keep_events tek_nap.Timer.Create.less
    tek_nap.Timer.Create.next_int tek_nap.Timer.Create.refnum_max in_use tek_nap.Timer.get_timer
    tek_nap.Timer.find_timer delete_timer is_executing tek_nap.Timer.unlinked tek_nap.Timer.unlink
    tek_nap.Timer.goes_off_before tek_nap.Timer.has_whom micros schedule_timer has_ref
    tek_nap.Text.Case.my_stricmp tek_nap.Text.Case.fold tek_nap.Text.Number.digits_value
    tek_nap.Text.Number.int_of_long tek_nap.Text.Number.ltoa my_atol tek_nap.Text.Number.past_space
    tek_nap.Text.Number.plus_minus tek_nap.Text.Number.put_digits tek_nap.Text.Number.signed_value
    tek_nap.Text.Number.wrap_int tek_nap.Text.Search.isdigit tek_nap.Text.Search.my_isspace
any_ref_runs = refl

add_timer-Distinct_example :
    (s' : Timers) × (ref : Option Bytes) × (add_timer idle later_one ≡ some (s', ref))
    × Distinct s'.pending
add_timer-Distinct_example = add_timer-Distinct idle later_one 5500000 refl small different
