-- ===== src/History/Circle.antt =====
-- With HISTORY_CIRCLEQ on, the key for the next entry undoes the one for the previous entry.
use tek_nap.Common.{
  ℕ, ◌<◌, ◌≡◌, refl, List, [], ◌∷◌, ◌++◌, ◌==◌, Bytes, true, false, ◌||◌, Option, none, some, arith,
  sym, ◌∙◌, ap, length, ==_refl, subst, append_assoc,
}
use tek_nap.History.Entries.{Entry, History, head_of, tail_of, entry_at, next_of, prev_of}
use tek_nap.History.Valid.{Falling, Valid}
use tek_nap.History.Browse.{at_pos, go_next, go_prev, stuff_at, get_from_history_buffer}

below :
    (n : ℕ) (xs : List Entry) (e : Entry) (ys : List Entry)
    → Falling n (xs ++ e ∷ ys)
    → e.address < n
below n [] e ys f = f.0
below n (x ∷ xs) e ys f = omega (arith, f.0, below x.address xs e ys f.1)

other :
    (x : Entry) (xs : List Entry) (e : Entry) (ys : List Entry)
    → Falling x.address (xs ++ e ∷ ys)
    → (x.address == e.address) ≡ false
other x xs e ys f = ground (arith, below x.address xs e ys f)

next_of_at :
    (n : ℕ) (xs : List Entry) (e : Entry) (ys : List Entry)
    → Falling n (xs ++ e ∷ ys)
    → next_of (xs ++ e ∷ ys) e.address ≡ some (head_of ys)
unfolding next_of
next_of_at n [] e ys f = rw (==_refl e.address)
next_of_at n (x ∷ xs) e ys f = rw (other x xs e ys f.1) (next_of_at x.address xs e ys f.1)

entry_at_at :
    (n : ℕ) (xs : List Entry) (e : Entry) (ys : List Entry)
    → Falling n (xs ++ e ∷ ys)
    → entry_at (xs ++ e ∷ ys) e.address ≡ some e
unfolding entry_at
entry_at_at n [] e ys f = rw (==_refl e.address)
entry_at_at n (x ∷ xs) e ys f = rw (other x xs e ys f.1) (entry_at_at x.address xs e ys f.1)

prev_of_at :
    (n : ℕ) (b : Option ℕ) (xs : List Entry) (e g : Entry) (ys : List Entry)
    → Falling n (xs ++ e ∷ g ∷ ys)
    → prev_of b (xs ++ e ∷ g ∷ ys) g.address ≡ some (some e.address)
unfolding prev_of
prev_of_at n b [] e g ys f = rw (other e [] g ys f.1, ==_refl g.address)
prev_of_at n b (x ∷ xs) e g ys f =
    let o : (x.address == g.address) ≡ false =
      ground (arith, below x.address xs e (g ∷ ys) f.1, (behind x.address xs e g ys f.1)) in
    rw o (prev_of_at x.address (some x.address) xs e g ys f.1)
  where
    behind :
        (n : ℕ) (xs : List Entry) (e g : Entry) (ys : List Entry)
        → Falling n (xs ++ e ∷ g ∷ ys)
        → g.address < n
    behind n [] e g ys f = omega (arith, f.0, f.1.0)
    behind n (x ∷ xs) e g ys f = omega (arith, f.0, behind x.address xs e g ys f.1)

tail_of_at : (xs : List Entry) (e : Entry) → tail_of (xs ++ e ∷ []) ≡ some e.address
unfolding tail_of
tail_of_at [] e = refl
tail_of_at (x ∷ []) e = refl
tail_of_at (x ∷ y ∷ xs) e = tail_of_at (y ∷ xs) e

-- One step from an entry to its older neighbour and back.
module _ (limit : ℕ) (input : Bytes) (h : History) (v : Valid limit h) where
  used :
      (xs : List Entry) (e : Entry) (ys : List Entry)
      → h.entries ≡ xs ++ e ∷ ys
      → (limit == 0 || h.hist_size == 0) ≡ false
  used xs e ys q = ground (arith, some_entry xs e ys, ap length q, v.counted, v.bounded)
    where
      some_entry : (xs : List Entry) (e : Entry) (ys : List Entry) → 0 < length (xs ++ e ∷ ys)
      some_entry [] e ys = omega arith
      some_entry (x ∷ xs) e ys = omega arith

  -- From an entry to another one by the key for the previous entry, and back.
  step :
      (e g : Entry)
      → (limit == 0 || h.hist_size == 0) ≡ false
      → go_prev limit true input (at_pos h (some e.address)) ≡ some (at_pos h (some g.address))
      → go_next limit true input (at_pos h (some g.address)) ≡ some (at_pos h (some e.address))
      → entry_at h.entries e.address ≡ some e
      → entry_at h.entries g.address ≡ some g
      → (get_from_history_buffer limit true input false (at_pos h (some e.address))
          ≡ some (at_pos h (some g.address), some g.stuff))
        × (get_from_history_buffer limit true input true (at_pos h (some g.address))
            ≡ some (at_pos h (some e.address), some e.stuff))
  unfolding get_from_history_buffer stuff_at
  step e g u down up at_e at_g = (rw (u, down, at_g), rw (u, up, at_e))

  older_step :
      (xs : List Entry) (e g : Entry) (ys : List Entry)
      → h.entries ≡ xs ++ e ∷ g ∷ ys
      → (go_prev limit true input (at_pos h (some e.address)) ≡ some (at_pos h (some g.address)))
        × (go_next limit true input (at_pos h (some g.address)) ≡ some (at_pos h (some e.address)))
  unfolding go_prev go_next head_of
  older_step xs e g ys q =
      let f = subst (Falling h.fresh) q v.ordered in
      let d : next_of h.entries e.address ≡ some (some g.address) =
        ap (λ t. next_of t e.address) q ∙ next_of_at h.fresh xs e (g ∷ ys) f in
      let u : prev_of none h.entries g.address ≡ some (some e.address) =
        ap (λ t. prev_of none t g.address) q ∙ prev_of_at h.fresh none xs e g ys f in
      (rw d, rw u)

  last_step :
      (xs : List Entry) (e g : Entry) (zs : List Entry)
      → h.entries ≡ xs ++ e ∷ []
      → h.entries ≡ g ∷ zs
      → (go_prev limit true input (at_pos h (some e.address)) ≡ some (at_pos h (some g.address)))
        × (go_next limit true input (at_pos h (some g.address)) ≡ some (at_pos h (some e.address)))
  unfolding go_prev go_next head_of prev_of
  last_step xs e g zs q r =
      let f = subst (Falling h.fresh) q v.ordered in
      let d : next_of h.entries e.address ≡ some none =
        ap (λ t. next_of t e.address) q ∙ next_of_at h.fresh xs e [] f in
      let first : prev_of none (g ∷ zs) g.address ≡ some none = rw (==_refl g.address) in
      let u : prev_of none h.entries g.address ≡ some none =
        ap (λ t. prev_of none t g.address) r ∙ first in
      let hd : head_of h.entries ≡ some g.address = ap head_of r in
      let tl : tail_of h.entries ≡ some e.address = ap tail_of q ∙ tail_of_at xs e in
      (rw (d, hd), rw (u, tl))

  at_entry :
      (xs : List Entry) (e : Entry) (ys : List Entry)
      → h.entries ≡ xs ++ e ∷ ys
      → entry_at h.entries e.address ≡ some e
  at_entry xs e ys q =
      ap (λ t. entry_at t e.address) q
      ∙ entry_at_at h.fresh xs e ys (subst (Falling h.fresh) q v.ordered)

  -- With HISTORY_CIRCLEQ on, in a valid history whose position is at some entry, the key for the
  -- previous entry goes to the next older entry, or from the oldest one to the newest, and shows its
  -- line; the key for the next entry then comes back, with the line of the first entry.
  pub get_from_history_buffer_back :
      (xs : List Entry) (e : Entry) (ys : List Entry)
      → h.entries ≡ xs ++ e ∷ ys
      → (g : Entry) × (head_of (ys ++ h.entries) ≡ some g.address)
        × (get_from_history_buffer limit true input false (at_pos h (some e.address))
            ≡ some (at_pos h (some g.address), some g.stuff))
        × (get_from_history_buffer limit true input true (at_pos h (some g.address))
            ≡ some (at_pos h (some e.address), some e.stuff))
  unfolding head_of
  get_from_history_buffer_back xs e (g ∷ ys) q =
      let (d, u) = older_step xs e g ys q in
      let q' : h.entries ≡ (xs ++ e ∷ []) ++ g ∷ ys = q ∙ sym (append_assoc xs (e ∷ []) (g ∷ ys)) in
      let r =
        step e g (used xs e (g ∷ ys) q) d u (at_entry xs e (g ∷ ys) q)
          (at_entry (xs ++ e ∷ []) g ys q') in
      (g, refl, r.0, r.1)
  get_from_history_buffer_back [] e [] q =
      let (d, u) = last_step [] e e [] q q in
      let r = step e e (used [] e [] q) d u (at_entry [] e [] q) (at_entry [] e [] q) in
      (e, ap head_of q, r.0, r.1)
  get_from_history_buffer_back (x ∷ xs) e [] q =
      let (d, u) = last_step (x ∷ xs) e x (xs ++ e ∷ []) q q in
      let r =
        step e x (used (x ∷ xs) e [] q) d u (at_entry (x ∷ xs) e [] q)
          (at_entry [] x (xs ++ e ∷ []) q) in
      (x, ap head_of q, r.0, r.1)
