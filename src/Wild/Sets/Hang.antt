-- ===== src/Wild/Sets/Hang.antt =====
-- A set with nothing but blanks in it: the loop over its alternatives takes an empty word for ever.
use tek_nap.Common.{ℕ, zero, suc, Bytes, ◌≢◌, replicate, ltb, if◌then◌else◌}
use tek_nap.Text.Args.Next.{Lacks, new_next_arg_stuck}
use tek_nap.Wild.{backslash}
use tek_nap.Wild.Sets.{Outcome, value, overrun, out_of_fuel, best_of, after, wild_match}
use tek_nap.Wild.Sets.Expand.{with_set, wild_match-with_set, blank-ne-backslash}

abbrev NoValue : Outcome → Type 0
NoValue (value n) = ⊥
NoValue overrun = Unit
NoValue out_of_fuel = Unit

after-NoValue :
    (o : Outcome) (next : ℕ → Outcome) → ((v : ℕ) → NoValue (next v)) → NoValue (after o next)
after-NoValue (value v) next h = h v
after-NoValue overrun next h = tt
after-NoValue out_of_fuel next h = tt

best_of_blanks :
    (match : Bytes → Outcome) (fuel : ℕ) (before behind : Bytes) (n best : ℕ)
    → NoValue (best_of match fuel before behind (replicate (suc n) 32) best)
unfolding best_of
best_of_blanks match zero before behind n best = tt
best_of_blanks match (suc fuel) before behind n best =
    rw (new_next_arg_stuck n, best_of)
      (after-NoValue _ _
        (λ v. best_of_blanks match fuel before behind n (if ltb best v then v else best)))

blanks-Lacks : (n : ℕ) → Lacks backslash (replicate n 32)
blanks-Lacks zero = tt
blanks-Lacks (suc n) = (blank-ne-backslash, blanks-Lacks n)

NoValue-ne : (o : Outcome) (v : ℕ) → NoValue o → o ≢ value v
NoValue-ne (value n) v h = absurd h
NoValue-ne overrun v h = λ e. cc
NoValue-ne out_of_fuel v h = λ e. cc

-- On a pattern with no backslash up to a first set of one blank or more and nothing else,
-- `wild_match` comes to no value, whatever the fuel.
pub wild_match_blanks :
    (fuel n v : ℕ) (before behind str : Bytes)
    → Lacks backslash before
    → wild_match fuel (with_set before (replicate (suc n) 32) behind) str ≢ value v
wild_match_blanks zero n v before behind str h = unfold wild_match in λ e. cc
wild_match_blanks (suc fuel) n v before behind str h = NoValue-ne _ v (
    rw (wild_match-with_set fuel before (replicate (suc n) 32) behind str h (blanks-Lacks (suc n)))
      (best_of_blanks (λ q. wild_match fuel q str) fuel before behind n 0))
