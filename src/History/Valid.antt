-- ===== src/History/Valid.antt =====
-- What holds of the command history between the calls, and that `set_history_size` keeps it.
use tek_nap.Common.{
  ℕ, zero, suc, ◌-◌, ◌≤◌, ◌<◌, ◌≡◌, refl, List, [], ◌∷◌, Bytes, some, arith, length, take, map, sym,
  ap, ltb, Bool-cases, inl, inr, take-all,
}
use tek_nap.History.Entries.{Entry, History, drop_last}
use tek_nap.History.{free_entries, set_history_size}

-- The addresses fall from entry to entry, from below a bound on.
abbrev pub Falling : ℕ → List Entry → Type 0
Falling n [] = Unit
Falling n (e ∷ es) = (e.address < n) × Falling e.address es

pub record Valid (limit : ℕ) (h : History) : Type 0 where
  pub counted : length h.entries ≡ h.hist_size
  pub bounded : h.hist_size ≤ limit
  pub ordered : Falling h.fresh h.entries

-- The lines that are kept, the newest first.
abbrev pub lines : List Entry → List Bytes
lines es = map (λ (e : Entry). e.stuff) es

pub Falling-mono : (m n : ℕ) (es : List Entry) → m ≤ n → Falling m es → Falling n es
Falling-mono m n [] h f = tt
Falling-mono m n (e ∷ es) h f = (omega (arith, f.0), f.1)

pub Falling-take : (k n : ℕ) (es : List Entry) → Falling n es → Falling n (take k es)
Falling-take zero n es f = tt
Falling-take (suc k) n [] f = tt
Falling-take (suc k) n (e ∷ es) f = (f.0, Falling-take k e.address es f.1)

pub lines-take : (k : ℕ) (es : List Entry) → lines (take k es) ≡ take k (lines es)
lines-take zero es = refl
lines-take (suc k) [] = refl
lines-take (suc k) (e ∷ es) = ap (λ t. e.stuff ∷ t) (lines-take k es)

pub length-lines : (es : List Entry) → length (lines es) ≡ length es
length-lines [] = refl
length-lines (e ∷ es) = ap suc (length-lines es)

pub drop_last-take :
    (e : Entry) (es : List Entry) → drop_last (e ∷ es) ≡ some (take (length es) (e ∷ es))
unfolding drop_last
drop_last-take e [] = refl
drop_last-take e (f ∷ es) = rw (drop_last-take f es)

pub length-take_le : (k : ℕ) (es : List Entry) → k ≤ length es → length (take k es) ≡ k
length-take_le zero es h = refl
length-take_le (suc k) [] h = absurd (omega arith)
length-take_le (suc k) (e ∷ es) h = ap suc (length-take_le k es (omega arith))

take-take_le : (j k : ℕ) (es : List Entry) → j ≤ k → take j (take k es) ≡ take j es
take-take_le zero k es h = refl
take-take_le (suc j) zero es h = absurd (omega arith)
take-take_le (suc j) (suc k) [] h = refl
take-take_le (suc j) (suc k) (e ∷ es) h = ap (λ t. e ∷ t) (take-take_le j k es (omega arith))

free_entries-take :
    (cnt : ℕ) (es : List Entry)
    → cnt ≤ length es
    → free_entries cnt es ≡ some (take (length es - cnt) es)
unfolding free_entries
free_entries-take zero es h = ap some (sym (take-all (length es - 0) es (omega arith)))
free_entries-take (suc cnt) [] h = absurd (omega arith)
free_entries-take (suc cnt) (e ∷ es) h =
    let l : length (take (length es) (e ∷ es)) ≡ length es =
      length-take_le (length es) (e ∷ es) (omega arith) in
    let same : length (e ∷ es) - suc cnt ≡ length es - cnt = omega arith in
    rw
      (
        drop_last-take e es,
        free_entries-take cnt (take (length es) (e ∷ es)) (omega (arith, l)),
        l,
        same,
      )
      (ap some (take-take_le (length es - cnt) (length es) (e ∷ es) (omega arith)))

-- `set_history_size`, on a valid history, follows no null pointer and keeps the newest `size` lines,
-- in their order; the history is then valid for the new size as its limit.
pub set_history_size-take :
    (limit size : ℕ) (h : History)
    → Valid limit h
    → (h' : History) × (set_history_size h size ≡ some h')
      × Valid size h'
      × (lines h'.entries ≡ take size (lines h.entries))
unfolding set_history_size
set_history_size-take limit size h v = elim (Bool-cases (ltb size h.hist_size)) [
  | inl g ↦
      let l : size < h.hist_size = ground arith in
      let e : length h.entries - (h.hist_size - size) ≡ size = omega (arith, v.counted) in
      (
        record h { entries = take size h.entries; hist_size = size },
        rw (g, free_entries-take (h.hist_size - size) h.entries (omega (arith, v.counted)), e),
        record {
          counted = length-take_le size h.entries (omega (arith, v.counted));
          bounded = omega arith;
          ordered = Falling-take size h.fresh h.entries v.ordered;
        },
        lines-take size h.entries,
      )
  | inr g ↦
      let l : h.hist_size ≤ size = ground arith in
      (
        h,
        rw g,
        record { counted = v.counted; bounded = l; ordered = v.ordered },
        sym (take-all size (lines h.entries) (omega (arith, length-lines h.entries, v.counted))),
      )
]
