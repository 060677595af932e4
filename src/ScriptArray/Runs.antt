-- ===== src/ScriptArray/Runs.antt =====
-- source/array.c: the calls of the functions one after the other, from the start of the program on.
use tek_nap.Common.{◌>>=◌, List, [], ◌∷◌, Bytes, IsText, All, Option, some, ◌≡◌, refl}
use tek_nap.ScriptArray.Table.{Arrays, no_arrays}
use tek_nap.ScriptArray.Changes.{function_setitem, function_delitem, function_delarray}
use tek_nap.ScriptArray.Kept.{Kept}
use tek_nap.ScriptArray.Deleting.{no_arrays-Kept}
use tek_nap.ScriptArray.Functions.{change-Kept}

-- A call that a script makes, with its line of arguments.
pub data ScriptCall : Type 0 where
  setitem : Bytes → ScriptCall
  delitem : Bytes → ScriptCall
  delarray : Bytes → ScriptCall

unfoldable pub perform : ScriptCall → Arrays → Option (Bytes × Arrays)
perform (setitem input) t = function_setitem t input
perform (delitem input) t = function_delitem t input
perform (delarray input) t = function_delarray t input

abbrev pub ScriptCallText : ScriptCall → Type 0
ScriptCallText (setitem input) = IsText input
ScriptCallText (delitem input) = IsText input
ScriptCallText (delarray input) = IsText input

-- The state behind the calls; what they return is dropped.
unfoldable pub run_calls : List ScriptCall → Arrays → Option Arrays
run_calls [] t = some t
run_calls (c ∷ cs) t = do r ← perform c t; run_calls cs r.1

perform-Kept :
    (c : ScriptCall) (t : Arrays)
    → Kept t
    → ScriptCallText c
    → (out : Bytes) × (t' : Arrays) × (perform c t ≡ some (out, t')) × Kept t'
unfolding perform
perform-Kept (setitem input) t v h = (change-Kept t v input h).0
perform-Kept (delitem input) t v h = (change-Kept t v input h).1
perform-Kept (delarray input) t v h = (change-Kept t v input h).2

run_calls-from :
    (cs : List ScriptCall) (t : Arrays)
    → Kept t
    → All ScriptCallText cs
    → (t' : Arrays) × (run_calls cs t ≡ some t') × Kept t'
unfolding run_calls
run_calls-from [] t v h = (t, refl, v)
run_calls-from (c ∷ cs) t v (h, hs) =
    let (out, t1, run, v1) = perform-Kept c t v h in
    let (t', run', v') = run_calls-from cs t1 v1 hs in (t', rw (run, run'), v')

-- Whatever texts the scripts pass to `function_setitem`, `function_delitem` and `function_delarray`,
-- in whatever order from the start on, no call makes a fault, and the state that they leave is
-- well formed: the names are different, and each array has items and an index in order.
pub run_calls-Kept :
    (cs : List ScriptCall)
    → All ScriptCallText cs
    → (t : Arrays) × (run_calls cs no_arrays ≡ some t) × Kept t
run_calls-Kept cs h = run_calls-from cs no_arrays no_arrays-Kept h
