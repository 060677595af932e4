-- ===== src/History/Pieces.antt =====
-- `add_to_history` splits a text into lines and adds each of them to the log.
use tek_nap.Common.{
  ℕ, zero, suc, ◌+◌, ◌-◌, ◌≤◌, ◌<◌, ◌≡◌, refl, List, [], ◌∷◌, if◌then◌else◌, Bytes, true, false,
  Option, none, some, arith, length, take, sym, ◌∙◌, ap, Bool-cases, inl, inr, take-all,
}
use mathlib.Core.List.{reverse_aux}
use tek_nap.Text.Search.{in_group, first_inside, sindex}
use tek_nap.History.Entries.{History, Direction}
use tek_nap.History.Valid.{Valid, lines, length-lines}
use tek_nap.History.Log.{add_to_history_list-Logged}
use tek_nap.History.{add_line, split_line, newlines, add_to_history}

abbrev pub glue : ℕ → List Bytes → List Bytes
glue c [] = (c ∷ []) ∷ []
glue c (w ∷ ws) = (c ∷ w) ∷ ws

-- The lines of a text: a newline or a carriage return ends a line, and only the last line may lack it.
unfoldable pub pieces : Bytes → List Bytes
pieces [] = []
pieces (c ∷ s) = let more = pieces s in if in_group newlines c then [] ∷ more else glue c more

first_inside-length :
    (s group : Bytes) (c : ℕ) (r : Bytes)
    → first_inside s group ≡ some (c ∷ r)
    → length r < length s
unfolding first_inside
first_inside-length [] group c r h = cc
first_inside-length (d ∷ s) group c r h = elim (Bool-cases (in_group group d)) [
  | inl y ↦
      let e : some (d ∷ s) ≡ some (c ∷ r) = rw y at h in let t : s ≡ r = cc e in rw t (omega arith)
  | inr n ↦ omega (arith, first_inside-length s group c r (rw n at h))
]

split_later :
    (c : ℕ) (s : Bytes) (o : Option Bytes)
    → first_inside s newlines ≡ o
    → split_line (c ∷ s) o ≡ (c ∷ (split_line s o).0, (split_line s o).1)
unfolding split_line
split_later c s none h = refl
split_later c s (some []) h = refl
split_later c s (some (d ∷ r)) h =
    let l : length r < length s = first_inside-length s newlines d r h in
    let e : length (c ∷ s) - length (d ∷ r) ≡ suc (length s - length (d ∷ r)) = omega arith in rw e

split_here : (c : ℕ) (s : Bytes) → split_line (c ∷ s) (some (c ∷ s)) ≡ ([], s)
unfolding split_line
split_here c s = let e : length (c ∷ s) - length (c ∷ s) ≡ 0 = omega arith in rw e

abbrev split : Bytes → Bytes × Bytes
split s = split_line s (first_inside s newlines)

split-newline : (c : ℕ) (s : Bytes) → in_group newlines c ≡ true → split (c ∷ s) ≡ ([], s)
unfolding first_inside
split-newline c s y = rw (y, split_here c s)

split-letter :
    (c : ℕ) (s : Bytes)
    → in_group newlines c ≡ false
    → split (c ∷ s) ≡ (c ∷ (split s).0, (split s).1)
unfolding first_inside
split-letter c s n = rw n (split_later c s (first_inside s newlines) refl)

split_nil : split [] ≡ ([], [])
unfolding first_inside split_line
split_nil = refl

pieces-letter :
    (c : ℕ) (s : Bytes) → in_group newlines c ≡ false → pieces (c ∷ s) ≡ glue c (pieces s)
unfolding pieces
pieces-letter c s n = rw n

pieces-newline : (c : ℕ) (s : Bytes) → in_group newlines c ≡ true → pieces (c ∷ s) ≡ [] ∷ pieces s
unfolding pieces
pieces-newline c s y = rw y

pieces_nil : pieces [] ≡ []
unfolding pieces
pieces_nil = refl

-- One round takes the first line.
split-pieces : (c : ℕ) (s : Bytes) → pieces (c ∷ s) ≡ (split (c ∷ s)).0 ∷ pieces (split (c ∷ s)).1
split-pieces c [] = elim (Bool-cases (in_group newlines c)) [
  | inl y ↦ rw (split-newline c [] y, pieces-newline c [] y)
  | inr n ↦ rw (split-letter c [] n, split_nil, pieces-letter c [] n, pieces_nil)
]
split-pieces c (d ∷ s) = elim (Bool-cases (in_group newlines c)) [
  | inl y ↦ rw (split-newline c (d ∷ s) y, pieces-newline c (d ∷ s) y)
  | inr n ↦ rw (split-letter c (d ∷ s) n, pieces-letter c (d ∷ s) n, split-pieces d s)
]

split-length : (s : Bytes) → length (split s).1 ≤ length s
split-length [] = rw split_nil (omega arith)
split-length (c ∷ s) = elim (Bool-cases (in_group newlines c)) [
  | inl y ↦ rw (split-newline c s y) (omega arith)
  | inr n ↦ rw (split-letter c s n) (omega (arith, split-length s))
]

split-shorter : (c : ℕ) (s : Bytes) → length (split (c ∷ s)).1 < length (c ∷ s)
split-shorter c s = elim (Bool-cases (in_group newlines c)) [
  | inl y ↦ rw (split-newline c s y) (omega arith)
  | inr n ↦ rw (split-letter c s n) (omega (arith, split-length s))
]

sindex-newlines : (s : Bytes) → sindex s newlines ≡ first_inside s newlines
unfolding sindex
sindex-newlines s = refl

take_again : (n : ℕ) (ys : List Bytes) → take n (take (suc n) ys) ≡ take n ys
take_again zero ys = refl
take_again (suc n) [] = refl
take_again (suc n) (y ∷ ys) = ap (λ t. y ∷ t) (take_again n ys)

take_twice : (n : ℕ) (ys : List Bytes) → take n (take n ys) ≡ take n ys
take_twice zero ys = refl
take_twice (suc n) [] = refl
take_twice (suc n) (y ∷ ys) = ap (λ t. y ∷ t) (take_twice n ys)

take_behind :
    (n : ℕ) (x : Bytes) (ys zs : List Bytes)
    → take n ys ≡ take n zs
    → take n (x ∷ ys) ≡ take n (x ∷ zs)
take_behind zero x ys zs h = refl
take_behind (suc n) x ys zs h =
    ap (λ t. x ∷ t) (sym (take_again n ys) ∙ ap (take n) h ∙ take_again n zs)

-- Only the first `n` lines of the old ones can be among the first `n` of the new ones.
take-reverse_aux :
    (n : ℕ) (xs ys zs : List Bytes)
    → take n ys ≡ take n zs
    → take n (reverse_aux xs ys) ≡ take n (reverse_aux xs zs)
take-reverse_aux n [] ys zs h = h
take-reverse_aux n (x ∷ xs) ys zs h =
    take-reverse_aux n xs (x ∷ ys) (x ∷ zs) (take_behind n x ys zs h)

-- `add_to_history`, on a valid history and with more fuel than the text is long, follows no null
-- pointer and keeps the history valid; its lines are then those of the text, the last one first, and
-- the old ones behind them, up to `limit` in all; `hist_count` grows by the number of the lines.
pub add_to_history-pieces :
    (fuel limit : ℕ) (h : History) (text : Bytes)
    → length text < fuel
    → Valid limit h
    → (h' : History) × (add_to_history fuel limit h text ≡ some h')
      × Valid limit h'
      × (lines h'.entries ≡ take limit (reverse_aux (pieces text) (lines h.entries)))
      × (h'.hist_count ≡ h.hist_count + length (pieces text))
unfolding add_to_history add_line
add_to_history-pieces zero limit h text f v = absurd (omega arith)
add_to_history-pieces (suc fuel) limit h [] f v = (
  h,
  refl,
  v,
  rw pieces_nil (
      sym (
        take-all limit (lines h.entries)
          (omega (arith, length-lines h.entries, v.counted, v.bounded)))),
  rw pieces_nil (omega arith),
)
add_to_history-pieces (suc fuel) limit h (c ∷ s) f v =
    let (line, rest) = split (c ∷ s) in
    let (h1, run, d) = add_to_history_list-Logged limit h h.hist_count line v in
    let h2 : History = record h1 { last_dir = Direction.prev; hist_count = h1.hist_count + 1 } in
    let v2 : Valid limit h2 = record {
      counted = d.valid.counted;
      bounded = d.valid.bounded;
      ordered = d.valid.ordered;
    } in
    let (h', run', v', k, n) =
      add_to_history-pieces fuel limit h2 rest (omega (arith, split-shorter c s)) v2 in
    (
      h',
      rw (sindex-newlines (c ∷ s), run, run'),
      v',
      k
          ∙ ap (λ t. take limit (reverse_aux (pieces rest) t)) d.kept
          ∙ take-reverse_aux limit (pieces rest) _ _ (take_twice limit (line ∷ lines h.entries))
          ∙ ap (λ t. take limit (reverse_aux t (lines h.entries))) (sym (split-pieces c s)),
      n
          ∙ ap (λ t. t + 1 + length (pieces rest)) d.same_count
          ∙ (let e : h.hist_count + 1 + length (pieces rest)
                  ≡ h.hist_count + length (line ∷ pieces rest) =
                omega arith in
              e)
          ∙ ap (λ t. h.hist_count + length t) (sym (split-pieces c s)),
    )
