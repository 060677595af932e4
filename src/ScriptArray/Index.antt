-- ===== src/ScriptArray/Index.antt =====
-- source/array.c: one array, the search by its index, and the moves in the index. A block that is
-- allocated is the list of its cells; a `top` that may be -1 is kept as `hi`, which is `top + 1`.
use tek_nap.Common.{
  ℕ, zero, suc, ◌+◌, ◌-◌, ◌/◌, List, ◌++◌, ◌==◌, if◌then◌else◌, Bytes, not, ◌&&◌, Option, none,
  some, ltb, leb, length, get_elem?, set, take, replicate, ◌>>=◌,
}
use tek_nap.Common.Int.{ℤ, pos, negsuc, is_zero, is_neg}
use tek_nap.Text.Case.{strcmp}

-- `an_array`
pub record AnArray : Type 0 where
  pub item : List Bytes
  pub index : List ℕ
  pub size : ℕ

-- `xs[i] = x`, a fault behind the last cell.
unfoldable pub put {ℓ} : {A : Type ℓ} → List A → ℕ → A → Option (List A)
put xs i x = if ltb i (length xs) then some (set xs i x) else none

-- `RESIZE (xs, …, n)`; `left` stands for what it leaves in the cells that are new.
unfoldable pub reallocate {ℓ} : {A : Type ℓ} → ℕ → A → List A → List A
reallocate n left xs = take n xs ++ replicate (n - length xs) left

-- `a.item[a.index[i]]`
unfoldable pub word_at : AnArray → ℕ → Option Bytes
word_at a i = do n ← get_elem? a.index i; get_elem? a.item n

-- The loop of `find_item`.
unfoldable pub bisect : ℕ → AnArray → (find : Bytes) → (bottom hi : ℕ) → Option ℤ
bisect zero a find bottom hi = none
bisect (suc fuel) a find bottom hi =
    if ltb bottom hi
    then (do
      let key = (hi - 1 - bottom) / 2 + bottom
      s ← word_at a key
      let cmp = strcmp find s
      if is_zero cmp
          then some (pos key)
          else if is_neg cmp
          then bisect fuel a find bottom key
          else bisect fuel a find (key + 1) hi)
    else some (negsuc bottom)

unfoldable pub find_item : AnArray → Bytes → Option ℤ
find_item a find = bisect (a.size + 1) a find 0 a.size

-- `index = (index >= 0) ? index : (-index) - 1;`
unfoldable pub place_of : ℤ → ℕ
place_of (pos index) = index
place_of (negsuc b) = b

-- `for (; i > new; i--) xs[i] = xs[i - 1];` in `n` rounds, the first one with `i` at `new + n`.
unfoldable pub shift_right {ℓ} : {A : Type ℓ} → ℕ → List A → (new : ℕ) → Option (List A)
shift_right zero xs new = some xs
shift_right (suc n) xs new = do
  x ← get_elem? xs (new + n)
  xs' ← put xs (new + n + 1) x
  shift_right n xs' new

-- `for (; i < …; i++) xs[i] = xs[i + 1];` in `n` rounds.
unfoldable pub shift_left {ℓ} : {A : Type ℓ} → ℕ → List A → (i : ℕ) → Option (List A)
shift_left zero xs i = some xs
shift_left (suc n) xs i = do x ← get_elem? xs (i + 1); xs' ← put xs i x; shift_left n xs' (i + 1)

-- The loop of `insert_index` and the write behind it; a place before the block is a fault.
unfoldable pub insert_at : List ℕ → (size : ℕ) → ℤ → Option (List ℕ)
insert_at xs size (negsuc b) = none
insert_at xs size (pos new) = do xs' ← shift_right (size - new) xs new; put xs' new size

-- `insert_index (&a->index, &a->size, new)`
unfoldable pub insert_index : AnArray → ℤ → Option AnArray
insert_index a new = do
  index ← insert_at (reallocate (a.size + 1) 0 a.index) a.size (if a.size == 0 then pos 0 else new)
  some (record a { index = index; size = a.size + 1 })

-- The part of `move_index` behind its two tests.
unfoldable pub move_to : List ℕ → (old new : ℕ) → Option (List ℕ)
move_to xs old new = do
  temp ← get_elem? xs old
  xs' ← if ltb old new then shift_left (new - old) xs old else shift_right (old - new) xs new
  put xs' new temp

unfoldable pub move_index : AnArray → (old new : ℕ) → Option AnArray
move_index a old new =
    let new' = if ltb old new then new - 1 else new in
    if new' == old
    then some a
    else do index ← move_to a.index old new'; some (record a { index = index })

pub array_threshold : ℕ
array_threshold = 100

-- `while (search >= 0 && !strcmp (…)) search--; search++;`, given `search + 1`.
unfoldable pub run_start : AnArray → Bytes → ℕ → Option ℕ
run_start a s zero = some 0
run_start a s (suc search) = do
  w ← word_at a search
  if is_zero (strcmp w s) then run_start a s search else some (suc search)

-- Where the last loop of `find_index` begins in a large array; a place before the block is a fault.
unfoldable pub first_equal : AnArray → Bytes → ℤ → Option ℕ
first_equal a s (pos search) = run_start a s (search + 1)
first_equal a s (negsuc zero) = some 0
first_equal a s (negsuc (suc b)) = none

-- `while (array->index[search] != item && search < array->size) search++;`
unfoldable pub scan : ℕ → AnArray → (item search : ℕ) → Option ℕ
scan zero a item search = none
scan (suc fuel) a item search = do
  x ← get_elem? a.index search
  if not (x == item) && ltb search a.size then scan fuel a item (search + 1) else some search

unfoldable pub find_index : AnArray → ℕ → Option ℕ
unfolding array_threshold
find_index a item =
    if leb array_threshold a.size
    then (do
      s ← get_elem? a.item item
      found ← find_item a s
      search ← first_equal a s found
      scan (a.size + 1) a item search)
    else scan (a.size + 1) a item 0
