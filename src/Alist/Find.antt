-- ===== src/Alist/Find.antt =====
-- `find_array_item`: a binary search by the hash, one by the name, and the run of items that fit.
-- An index `max` that may be -1 is kept as `hi`, which is `max + 1`.
use tek_nap.Common.{
  ◌>>=◌, ℕ, zero, suc, ◌+◌, ◌-◌, ◌/◌, ◌==◌, if◌then◌else◌, Bytes, Bool, Option, none, some, ltb,
  length,
}
use tek_nap.Common.Int.{ℤ, pos, is_zero, is_neg, is_pos, negate}
use tek_nap.Alist.Hash.{alist_hash, hash_diff}
use tek_nap.Alist.Slots.{Item, Array, read}

-- The results: the pointer that is returned, `*cnt` and `*loc`.
pub record Search : Type 0 where
  pub result : Option Item
  pub cnt : ℤ
  pub loc : ℕ

-- `array->list[i]->…`, a fault at a null pointer too.
unfoldable pub item_at : Array → ℕ → Option Item
item_at a i = do slot ← read a i; slot

-- A `while (max >= min)` loop with a comparison of the item at a place; the last place and its
-- comparison are the result.
unfoldable pub probe : ℕ → Array → (Item → ℤ) → (min hi pos : ℕ) → ℤ → Option (ℕ × ℤ)
probe zero a cmp min hi place c = none
probe (suc fuel) a cmp min hi place c =
    if ltb min hi
    then (do
      let middle = (hi - 1 - min) / 2 + min
      item ← item_at a middle
      let d = cmp item
      if is_zero d
          then some (middle, d)
          else if is_neg d
          then probe fuel a cmp min middle middle d
          else probe fuel a cmp (middle + 1) hi middle d)
    else some (place, c)

-- `while ((min > 0) && …) min--`
unfoldable pub widen_down : Array → (Item → ℤ) → ℕ → Option ℕ
widen_down a cmp zero = some 0
widen_down a cmp (suc i) = do
  item ← item_at a (suc i)
  if is_zero (cmp item) then widen_down a cmp i else some (suc i)

-- `while ((max < set->max - 1) && …) max++` in `n` rounds at most.
unfoldable pub widen_up : ℕ → Array → (Item → ℤ) → ℕ → Option ℕ
widen_up zero a cmp i = some i
widen_up (suc n) a cmp i = do
  item ← item_at a i
  if is_zero (cmp item) then widen_up n a cmp (i + 1) else some i

-- `!set->func (name, item->name, len)`
unfoldable pub fits : Array → Bytes → Item → Bool
fits a name item = is_zero (a.func name item.name (length name))

-- How many of the items before `i` fit, up to the first that does not.
unfoldable pub run_down : Array → Bytes → ℕ → Option ℕ
run_down a name zero = some 0
run_down a name (suc i) = do
  item ← item_at a i
  if fits a name item then (do n ← run_down a name i; some (n + 1)) else some 0

-- How many of the `n` items from `i` on fit, up to the first that does not.
unfoldable pub run_up : ℕ → Array → Bytes → ℕ → Option ℕ
run_up zero a name i = some 0
run_up (suc n) a name i = do
  item ← item_at a i
  if fits a name item then (do k ← run_up n a name (i + 1); some (k + 1)) else some 0

-- `*loc` where nothing was found.
unfoldable pub absent : ℕ × ℤ → Option Search
absent (place, c) =
    some (record { result = none; cnt = pos 0; loc = if is_pos c then place + 1 else place })

-- The part behind the second binary search, which found a fitting item at `place`.
unfoldable pub present : Array → Bytes → ℕ → Option Search
present a name place = do
  below ← run_down a name place
  above ← run_up (a.max - (place + 1)) a name (place + 1)
  first ← item_at a (place - below)
  let count = below + 1 + above
  some (record {
    result = some first;
    cnt = if length first.name == length name then negate (pos count) else pos count;
    loc = place - below;
  })

-- The part behind the first binary search, which found an item of the same hash at `place`.
unfoldable pub by_name : Array → Bytes → (Item → ℤ) → ℕ → Option Search
by_name a name by_hash place = do
  min ← widen_down a by_hash place
  max ← widen_up (a.max - 1 - place) a by_hash place
  r ← probe (a.max + 1) a (λ item. a.func name item.name (length name)) min (max + 1) place (pos 0)
  if is_zero r.1 then present a name r.0 else absent r

-- The two searches of an array that is not empty, with the hash of the name.
unfoldable pub search_both : Array → Bytes → (Item → ℤ) → Option Search
search_both a name by_hash = do
  r ← probe (a.max + 1) a by_hash 0 a.max 0 (pos 0)
  if is_zero r.1 then by_name a name by_hash r.0 else absent r

-- A mask that is not set makes the outcome of the search unknown.
unfoldable pub find_array_item : Array → Bytes → Option Search
find_array_item a name =
    let h = alist_hash a.hash name in
    if a.max == 0
    then some (record { result = none; cnt = pos 0; loc = 0 })
    else do mask ← h.mask; search_both a name (λ item. hash_diff h.value mask item.hash)
