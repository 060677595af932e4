-- ===== src/Timer/Distinct.antt =====
-- source/timer.c: `add_timer` keeps the references of the timers different.
use tek_nap.Common.{
  ℕ, zero, suc, ◌≤◌, List, [], ◌∷◌, Bytes, false, if◌then◌else◌, All, IsText, Option, some, none,
  ◌≡◌, ◌⊎◌, refl, ap, ◌∙◌, arith, Bool-cases, inl, inr, length, length-take, take-all,
}
use mathlib.Core.Option.{none-ne-some}
use tek_nap.Common.Int.{ℤ, pos, negsuc, is_zero, negate}
use tek_nap.Text.Case.{my_stricmp}
use tek_nap.Text.Case.Order.{my_stricmp_order}
use tek_nap.Timer.{
  Timer, Timers, has_ref, get_timer, delete_timer, schedule_timer, unlink, unlinked, is_executing,
  goes_off_before,
}
use tek_nap.Timer.Create.{
  refnum_max, in_use, cut_ref, choose_ref, create_timer_ref, Request, fresh_timer, updated_timer,
  replace_timer, with_ref, add_timer,
}
use tek_nap.Timer.Fresh.{SmallRef, create_timer_ref-FreshRef}

-- No timer has the reference of one behind it.
unfoldable pub Distinct : List Timer → Type 0
Distinct [] = Unit
Distinct (t ∷ ts) = (in_use t.ref ts ≡ false) × Distinct ts

is_zero-negate : (z : ℤ) → is_zero (negate z) ≡ is_zero z
unfolding negate
is_zero-negate (pos zero) = refl
is_zero-negate (pos (suc n)) = ground arith
is_zero-negate (negsuc n) = refl

same_way : (s t : Bytes) → IsText s → is_zero (my_stricmp t s) ≡ is_zero (my_stricmp s t)
same_way s t h = ap is_zero (my_stricmp_order s t s h).0 ∙ is_zero-negate (my_stricmp s t)

-- The new timer is in the list, and no other one is new.
in_use-schedule :
    (ref : Bytes) (new : Timer) (ts : List Timer)
    → has_ref ref new ≡ false
    → in_use ref ts ≡ false
    → in_use ref (schedule_timer new ts) ≡ false
unfolding in_use schedule_timer
in_use-schedule ref new [] h k = rw h
in_use-schedule ref new (t ∷ ts) h k = elim (Bool-cases (has_ref ref t)) [
  | inl z ↦ absurd (let e = rw z at k in ground arith)
  | inr z ↦ elim (Bool-cases (goes_off_before new t)) [
    | inl g ↦ rw (g, h, z) (rw z at k)
    | inr g ↦ rw (g, z) (in_use-schedule ref new ts h (rw z at k))
  ]
]

pub schedule_timer-Distinct :
    (new : Timer) (ts : List Timer)
    → All SmallRef ts
    → in_use new.ref ts ≡ false
    → Distinct ts
    → Distinct (schedule_timer new ts)
unfolding Distinct schedule_timer in_use has_ref
schedule_timer-Distinct new [] s h d = (refl, tt)
schedule_timer-Distinct new (t ∷ ts) (s, ss) h (d, ds) = elim (Bool-cases (has_ref new.ref t)) [
  | inl z ↦ absurd (let e = rw z at h in ground arith)
  | inr z ↦ elim (Bool-cases (goes_off_before new t)) [
    | inl g ↦ rw g (h, (d, ds))
    | inr g ↦ rw g (
      in_use-schedule t.ref new ts (same_way t.ref new.ref s.0 ∙ z) d,
      schedule_timer-Distinct new ts ss (rw z at h) ds,
    )
  ]
]

-- What holds of all the timers holds of those that are left.
record Fewer (ts rest : List Timer) : Type 1 where
  every : (P : Timer → Type 0) → All P ts → All P rest
  unused : (ref : Bytes) → in_use ref ts ≡ false → in_use ref rest ≡ false
  distinct : Distinct ts → Distinct rest

same-Fewer : (ts : List Timer) → Fewer ts ts
same-Fewer ts = record { every = λ P h. h; unused = λ ref h. h; distinct = λ h. h }

tail_unused :
    (ref : Bytes) (t : Timer) (ts : List Timer)
    → in_use ref (t ∷ ts) ≡ false
    → (has_ref ref t ≡ false) × (in_use ref ts ≡ false)
unfolding in_use
tail_unused ref t ts h = elim (Bool-cases (has_ref ref t)) [
  | inl z ↦ absurd (let e = rw z at h in ground arith)
  | inr z ↦ (z, rw z at h)
]

both_unused :
    (ref : Bytes) (t : Timer) (ts : List Timer)
    → has_ref ref t ≡ false
    → in_use ref ts ≡ false
    → in_use ref (t ∷ ts) ≡ false
unfolding in_use
both_unused ref t ts h k = rw h k

unlink-Fewer :
    (ref : Bytes) (ts : List Timer)
    → (unlink ref ts ≡ none) ⊎ ((rest : List Timer) × (unlink ref ts ≡ some rest) × Fewer ts rest)
unfolding unlink Distinct
unlink-Fewer ref [] = inl refl
unlink-Fewer ref (t ∷ ts) = elim (Bool-cases (has_ref ref t)) [
  | inl z ↦ inr (
    ts,
    rw z,
    record { every = λ P h. h.1; unused = λ r h. (tail_unused r t ts h).1; distinct = λ h. h.1 },
  )
  | inr z ↦ elim (unlink-Fewer ref ts) [
    | inl e ↦ inl (rw (z, e))
    | inr (rest, e, f) ↦ inr (
      t ∷ rest,
      rw (z, e),
      record {
        every = λ P h. (h.0, f.every P h.1);
        unused = λ r h. let (a, b) = tail_unused r t ts h in both_unused r t rest a (f.unused r b);
        distinct = λ h. (f.unused t.ref h.0, f.distinct h.1);
      },
    )
  ]
]

delete_timer-Fewer : (s : Timers) (ref : Bytes) → Fewer s.pending (delete_timer s ref).0.pending
unfolding delete_timer unlinked
delete_timer-Fewer s ref = elim (Bool-cases (is_executing s.current_exec_timer)) [
  | inl z ↦ rw z (same-Fewer s.pending)
  | inr z ↦ elim (unlink-Fewer ref s.pending) [
    | inl e ↦ rw (z, e) (same-Fewer s.pending)
    | inr (rest, e, f) ↦ rw (z, e) f
  ]
]

fresh_timer-some :
    (r : Request) (w : Option ℕ) (us : ℕ)
    → w ≡ some us
    → (new : Timer) × (fresh_timer r w ≡ some new)
unfolding fresh_timer
fresh_timer-some r none us e = absurd (none-ne-some us e)
fresh_timer-some r (some v) us e = (_, refl)

updated_timer-some :
    (r : Request) (w : Option ℕ) (old : Timer) → (new : Timer) × (updated_timer r w old ≡ some new)
unfolding updated_timer fresh_timer
updated_timer-some r none old = (_, refl)
updated_timer-some r (some v) old = (_, refl)

-- The timers that are left once the one to be updated is deleted.
replace_timer-Fewer :
    (s : Timers) (r : Request) (us : ℕ) (old : Option Timer)
    → r.when ≡ some us
    → (new : Timer) × (s' : Timers) × (replace_timer s r old ≡ some (new, s'))
      × Fewer s.pending s'.pending
unfolding replace_timer
replace_timer-Fewer s r us none e =
    let (new, run) = fresh_timer-some r r.when us e in (new, s, rw run, same-Fewer s.pending)
replace_timer-Fewer s r us (some old) e =
    let (new, run) = updated_timer-some r r.when old in
    (new, (delete_timer s r.refnum_want).0, rw run, delete_timer-Fewer s r.refnum_want)

abbrev Unused : List Timer → Option Bytes → Type 0
Unused ts none = Unit
Unused ts (some ref) = in_use ref ts ≡ false

-- The result of `create_timer_ref`: null, or a reference that is in use by none.
abbrev Chosen : List Timer → Option (Option Bytes) → Type 0
Chosen ts o = (ref : Option Bytes) × (o ≡ some ref) × Unused ts ref

choose_ref-Chosen :
    (ts : List Timer) (want : Bytes)
    → All SmallRef ts
    → length want ≤ 10
    → Chosen ts (choose_ref ts want)
unfolding choose_ref create_timer_ref cut_ref refnum_max
choose_ref-Chosen ts [] s l =
    let (ref, run, ok) = create_timer_ref-FreshRef ts s in (some ref, run, ok.unused)
choose_ref-Chosen ts (c ∷ want) s l = elim (Bool-cases (in_use (c ∷ want) ts)) [
  | inl z ↦ (none, rw z, tt)
  | inr z ↦ (some (c ∷ want), rw z (ap (λ t. some (some t)) (take-all 10 (c ∷ want) l)), z)
]

length-cut_ref : (ref : Bytes) → length (cut_ref ref) ≤ 10
unfolding cut_ref refnum_max
length-cut_ref ref = omega (arith, length-take 10 ref)

with_ref-Distinct :
    (new : Timer) (s : Timers) (ref : Option Bytes)
    → All SmallRef s.pending
    → Distinct s.pending
    → Unused s.pending ref
    → Distinct (with_ref new s ref).0.pending
unfolding with_ref
with_ref-Distinct new s none h d u = d
with_ref-Distinct new s (some ref) h d u =
    schedule_timer-Distinct (record new { ref = ref }) s.pending h u d

-- `add_timer` with a time, new or as an update, where the pending timers have texts as references,
-- different ones but for the case of their letters, and as numbers below 999999999: it comes to an
-- end, and the references of the pending timers are then different again, whether it adds a timer
-- or refuses.
pub add_timer-Distinct :
    (s : Timers) (r : Request) (us : ℕ)
    → r.when ≡ some us
    → All SmallRef s.pending
    → Distinct s.pending
    → (s' : Timers) × (ref : Option Bytes) × (add_timer s r ≡ some (s', ref)) × Distinct s'.pending
unfolding add_timer create_timer_ref
add_timer-Distinct s r us e h d =
    let (new, s1, run, f) =
      replace_timer-Fewer s r us (if r.update then get_timer s r.refnum_want else none) e in
    let h1 = f.every SmallRef h in
    let (ref, run', u) =
      choose_ref-Chosen s1.pending (cut_ref r.refnum_want) h1 (length-cut_ref r.refnum_want) in
    (
      (with_ref new s1 ref).0,
      (with_ref new s1 ref).1,
      rw (run, run'),
      with_ref-Distinct new s1 ref h1 (f.distinct d) u,
    )
