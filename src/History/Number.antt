-- ===== src/History/Number.antt =====
-- A line that was added to the command history is recalled by its distance from the end.
use tek_nap.Common.{
  ℕ, zero, suc, ◌≤◌, ◌<◌, ◌≡◌, refl, List, [], ◌∷◌, Bytes, true, some, arith, length, take,
  get_elem?, get_elem?-some, ap, ◌∙◌,
}
use tek_nap.Common.Int.{negsuc}
use tek_nap.Text.Search.{is_number}
use tek_nap.Text.Number.{my_atol, int_of_long}
use tek_nap.History.Entries.{Entry, History}
use tek_nap.History.Valid.{Valid, lines, length-lines}
use tek_nap.History.Log.{add_to_history_list-Logged}
use tek_nap.History.Recall.{
  with_rest, recalled, skip_entries, recall_number, use_last_com, recall, do_history,
}
use tek_nap.History.{add_to_history_list}

get_elem?-take : (n k : ℕ) (xs : List Bytes) → n < k → get_elem? (take k xs) n ≡ get_elem? xs n
get_elem?-take n zero xs h = absurd (omega arith)
get_elem?-take n (suc k) [] h = refl
get_elem?-take zero (suc k) (x ∷ xs) h = refl
get_elem?-take (suc n) (suc k) (x ∷ xs) h = get_elem?-take n k xs (omega arith)

recalled_at :
    (h : History) (rest : Bytes) (n : ℕ) (es : List Entry) (line : Bytes)
    → get_elem? (lines es) n ≡ some line
    → (h' : History) × (recalled h rest (skip_entries n es) ≡ (h', some (with_rest line rest)))
unfolding recalled skip_entries
recalled_at h rest n [] line e = cc
recalled_at h rest zero (x ∷ es) line e =
    let s : x.stuff ≡ line = cc in (record h { tmp = some x.address }, rw s)
recalled_at h rest (suc n) (x ∷ es) line e = recalled_at h rest n es line e

-- After `add_to_history_list` on a valid history, `do_history` with a number -1, -2, and so on, that
-- is within the size of the history and the lines there are, recalls the line just added, the one
-- before it, and so on, with the rest of the command behind it, whatever the fuel for matches.
pub do_history-added :
    (fuel limit : ℕ) (cmdchars : Bytes) (h : History) (cnt : ℕ) (stuff number rest : Bytes) (n : ℕ)
    → Valid limit h
    → is_number number ≡ true
    → int_of_long (my_atol number) ≡ negsuc n
    → n < limit
    → n ≤ length h.entries
    → (h1 : History) × (h2 : History) × (line : Bytes) × (add_to_history_list limit h cnt stuff
        ≡ some h1)
      × (get_elem? (stuff ∷ lines h.entries) n ≡ some line)
      × (do_history fuel limit cmdchars h1 number rest ≡ some (h2, some (with_rest line rest)))
unfolding do_history recall use_last_com recall_number is_number
do_history-added fuel limit cmdchars h cnt stuff [] rest n v i z l k = cc
do_history-added fuel limit cmdchars h cnt stuff (c ∷ s) rest n v i z l k =
    let (h1, run, d) = add_to_history_list-Logged limit h cnt stuff v in
    let (line, at) =
      get_elem?-some (stuff ∷ lines h.entries) n (omega (arith, length-lines h.entries)) in
    let kept : get_elem? (lines h1.entries) n ≡ some line =
      ap (λ t. get_elem? t n) d.kept ∙ get_elem?-take n limit (stuff ∷ lines h.entries) l ∙ at in
    let h1' : History = record h1 { last_com = some (c ∷ s) } in
    let (h2, found) = recalled_at h1' rest n h1.entries line kept in
    (h1, h2, line, run, at, rw (i, z, found))
