-- ===== src/History/Log.antt =====
-- The command history is a log that keeps the newest lines.
use tek_nap.Common.{
  ℕ, zero, suc, ◌+◌, ◌<◌, ◌≡◌, refl, List, [], ◌∷◌, ◌==◌, Bytes, true, false, some, arith, length,
  take, sym, ap, Bool-cases, inl, inr, take-all, subst,
}
use tek_nap.History.Entries.{Entry, History, replace_last}
use tek_nap.History.Valid.{
  Falling, Valid, lines, Falling-take, lines-take, length-take_le, length-lines, drop_last-take,
}
use tek_nap.History.{push, free_tail, is_empty, add_to_history_list}

-- `h'` is `h` with one line more, and without the oldest one if there is no room for it.
pub record Logged (limit : ℕ) (h h' : History) (line : Bytes) : Type 0 where
  pub valid : Valid limit h'
  pub kept : lines h'.entries ≡ take limit (line ∷ lines h.entries)
  pub same_count : h'.hist_count ≡ h.hist_count

push-Logged :
    (limit : ℕ) (h : History) (cnt : ℕ) (stuff : Bytes)
    → length h.entries < limit
    → h.hist_size ≡ length h.entries + 1
    → Falling h.fresh h.entries
    → Logged limit h (push h cnt stuff) stuff
unfolding push
push-Logged limit h cnt stuff l e f = record {
  valid = record { counted = omega arith; bounded = omega arith; ordered = (omega arith, f) };
  kept = sym (take-all limit (stuff ∷ lines h.entries) (omega (arith, length-lines h.entries)));
  same_count = refl;
}

-- The oldest entry goes first.
full-Logged :
    (l : ℕ) (h : History) (cnt : ℕ) (stuff : Bytes) (e f : Entry) (es : List Entry)
    → h.entries ≡ e ∷ f ∷ es
    → length es ≡ l
    → h.hist_size ≡ suc (suc l)
    → Falling h.fresh h.entries
    → (h' : History) × (free_tail h ≡ some h') × Logged (suc (suc l)) h (push h' cnt stuff) stuff
unfolding free_tail push
full-Logged l h cnt stuff e f es q le s fall =
    let kept : List Entry = e ∷ take (length es) (f ∷ es) in
    (
      record h { entries = kept },
      rw (q, drop_last-take e (f ∷ es)),
      record {
        valid = record {
          counted = omega (arith, length-take_le (length es) (f ∷ es));
          bounded = omega arith;
          ordered = (
            omega arith,
            Falling-take (suc (length es)) h.fresh (e ∷ f ∷ es) (subst (Falling h.fresh) q fall),
          );
        };
        kept = rw (q, lines-take, le);
        same_count = refl;
      },
    )

no_lines : (es : List Entry) → length es ≡ 0 → lines es ≡ []
no_lines [] h = refl
no_lines (e ∷ es) h = absurd (omega arith)

add_full :
    (l : ℕ) (h : History) (cnt : ℕ) (stuff : Bytes) (es : List Entry)
    → h.entries ≡ es
    → length es ≡ suc l
    → h.hist_size ≡ suc l
    → Falling h.fresh h.entries
    → (h' : History) × (add_to_history_list (suc l) h cnt stuff ≡ some h')
      × Logged (suc l) h h' stuff
unfolding add_to_history_list is_empty replace_last
add_full l h cnt stuff [] q le s fall = absurd (omega arith)
add_full zero h cnt stuff (e ∷ []) q le s fall =
    let y : (h.hist_size == 1) ≡ true = ground arith in
    (
      record h { entries = record e { stuff = stuff } ∷ [] },
      rw (y, q),
      record {
        valid = record {
          counted = sym s;
          bounded = omega arith;
          ordered = ((subst (Falling h.fresh) q fall).0, tt);
        };
        kept = refl;
        same_count = refl;
      },
    )
add_full (suc l) h cnt stuff (e ∷ []) q le s fall = absurd (omega arith)
add_full zero h cnt stuff (e ∷ f ∷ es) q le s fall = absurd (omega arith)
add_full (suc l) h cnt stuff (e ∷ f ∷ es) q le s fall =
    let y : (h.hist_size == suc (suc l)) ≡ true = ground arith in
    let n : (h.hist_size == 1) ≡ false = ground arith in
    let z : (suc (suc l) == 0) ≡ false = ground arith in
    let ne : is_empty h.entries ≡ false = ap is_empty q in
    let (h', run, d) = full-Logged l h cnt stuff e f es q (omega arith) s fall in
    (push h' cnt stuff, rw (z, y, ne, n, run), d)

-- `add_to_history_list`, on a valid history, follows no null pointer, keeps the history valid and
-- leaves as its lines the new one and the old ones, up to `limit` of them.
pub add_to_history_list-Logged :
    (limit : ℕ) (h : History) (cnt : ℕ) (stuff : Bytes)
    → Valid limit h
    → (h' : History) × (add_to_history_list limit h cnt stuff ≡ some h') × Logged limit h h' stuff
unfolding add_to_history_list
add_to_history_list-Logged zero h cnt stuff v = (
  h,
  refl,
  record {
    valid = v;
    kept = no_lines h.entries (omega (arith, v.counted, v.bounded));
    same_count = refl;
  },
)
add_to_history_list-Logged (suc l) h cnt stuff v = elim (Bool-cases (h.hist_size == suc l)) [
  | inl y ↦
      add_full l h cnt stuff h.entries refl (ground (arith, v.counted)) (ground arith) v.ordered
  | inr n ↦
      let grown : History = record h { hist_size = h.hist_size + 1 } in
      let d =
        push-Logged (suc l) grown cnt stuff (ground (arith, v.counted, v.bounded))
          (omega (arith, v.counted)) v.ordered in
      let z : (suc l == 0) ≡ false = ground arith in
      (
        push grown cnt stuff,
        rw (z, n),
        record { valid = d.valid; kept = d.kept; same_count = d.same_count },
      )
]
