-- ===== src/Timer/Delete.antt =====
-- Taking timers out of the list, one and all.
use tek_nap.Common.{
  ℕ, zero, suc, ◌<◌, ◌≡◌, ◌≢◌, refl, List, [], ◌∷◌, Bytes, true, false, Option, none, some, arith,
  length, ap, sym, ◌∙◌, ◌⊎◌, inl, inr, ◌++◌, All, Bool-cases,
}
use tek_nap.Common.Int.{pos, negsuc, is_zero}
use tek_nap.Text.Case.Order.{my_stricmp_self}
use tek_nap.Timer.{
  Timer, Timers, has_ref, unlink, unlinked, is_executing, delete_timer, delete_all_timers,
}

has_ref_self : (t : Timer) → has_ref t.ref t ≡ true
unfolding has_ref
has_ref_self t = ap is_zero (my_stricmp_self t.ref)

abbrev state : Option Bytes → List Timer → Timers
state c ts = record { pending = ts; current_exec_timer = c }

delete_first :
    (t : Timer) (ts : List Timer)
    → delete_timer (state none (t ∷ ts)) t.ref ≡ (state none ts, pos 0)
unfolding delete_timer unlink unlinked is_executing
delete_first t ts = rw (has_ref_self t)

delete_refused :
    (s : Timers) (ref : Bytes)
    → is_executing s.current_exec_timer ≡ true
    → delete_timer s ref ≡ (s, negsuc 0)
unfolding delete_timer
delete_refused s ref e = rw e

delete_all :
    (fuel : ℕ) (ts : List Timer)
    → length ts < fuel
    → delete_all_timers fuel (state none ts) ≡ some (state none [])
unfolding delete_all_timers
delete_all zero ts h = absurd (omega arith)
delete_all (suc fuel) [] h = refl
delete_all (suc fuel) (t ∷ ts) h = rw (delete_first t ts) (delete_all fuel ts (omega arith))

delete_none :
    (fuel : ℕ) (c : Option Bytes) (ts : List Timer)
    → is_executing c ≡ true
    → ts ≢ []
    → delete_all_timers fuel (state c ts) ≡ none
unfolding delete_all_timers
delete_none zero c ts e n = refl
delete_none (suc fuel) c [] e n = absurd (n refl)
delete_none (suc fuel) c (t ∷ ts) e n =
    rw (delete_refused (state c (t ∷ ts)) t.ref e) (delete_none fuel c (t ∷ ts) e n)

-- While no timer is executing `delete_all_timers`, with more fuel than there are timers, leaves none.
-- While one is executing and others are pending it never ends, whatever the fuel.
pub delete_all_timers_lem :
    (fuel : ℕ) (s : Timers)
    → (s.current_exec_timer ≡ none
        → length s.pending < fuel
        → delete_all_timers fuel s ≡ some (record s { pending = [] }))
      × (is_executing s.current_exec_timer ≡ true
          → s.pending ≢ []
          → delete_all_timers fuel s ≡ none)
delete_all_timers_lem fuel s = (
  λ i f.
      ap (λ c. delete_all_timers fuel (state c s.pending)) i
      ∙ delete_all fuel s.pending f
      ∙ ap (λ c. some (state c [])) (sym i),
  λ e n. delete_none fuel s.current_exec_timer s.pending e n,
)

-- `out` is `ts` without the first timer of the name.
pub record Unlinked (ref : Bytes) (ts out : List Timer) : Type 0 where
  pub earlier : List Timer
  pub timer : Timer
  pub later : List Timer
  pub were : ts ≡ earlier ++ timer ∷ later
  pub are : out ≡ earlier ++ later
  pub named : has_ref ref timer ≡ true
  pub others : All (λ t. has_ref ref t ≡ false) earlier

unlink-Unlinked :
    (ref : Bytes) (ts : List Timer)
    → ((unlink ref ts ≡ none) × All (λ t. has_ref ref t ≡ false) ts)
      ⊎ ((out : List Timer) × (unlink ref ts ≡ some out) × Unlinked ref ts out)
unfolding unlink
unlink-Unlinked ref [] = inl (refl, tt)
unlink-Unlinked ref (t ∷ ts) = elim (Bool-cases (has_ref ref t)) [
  | inl y ↦ inr (
    ts,
    rw y,
    record { earlier = []; timer = t; later = ts; were = refl; are = refl; named = y; others = tt },
  )
  | inr n ↦ elim (unlink-Unlinked ref ts) [
    | inl (e, all) ↦ inl (rw (n, e), (n, all))
    | inr (out, e, u) ↦ inr (
      t ∷ out,
      rw (n, e),
      record {
        earlier = t ∷ u.earlier;
        timer = u.timer;
        later = u.later;
        were = ap (λ (l : List Timer). t ∷ l) u.were;
        are = ap (λ (l : List Timer). t ∷ l) u.are;
        named = u.named;
        others = (n, u.others);
      },
    )
  ]
]

-- While no timer is executing `delete_timer` returns -1 and changes nothing if no pending timer has
-- the name, without regard to case, and else takes out the first one of the name and returns zero;
-- while one is executing it returns -1 and changes nothing.
pub delete_timer-Unlinked :
    (s : Timers) (ref : Bytes)
    → (is_executing s.current_exec_timer ≡ false
        → ((delete_timer s ref ≡ (s, negsuc 0)) × All (λ t. has_ref ref t ≡ false) s.pending)
          ⊎ ((out : List Timer) × (delete_timer s ref ≡ (record s { pending = out }, pos 0))
              × Unlinked ref s.pending out))
      × (is_executing s.current_exec_timer ≡ true → delete_timer s ref ≡ (s, negsuc 0))
unfolding delete_timer unlinked
delete_timer-Unlinked s ref = (
  λ i. elim (unlink-Unlinked ref s.pending) [
    | inl (e, all) ↦ inl (rw (i, e), all)
    | inr (out, e, u) ↦ inr (out, rw (i, e), u)
  ],
  λ e. rw e,
)
