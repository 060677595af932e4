-- ===== src/Alist/Slots.antt =====
-- The slots of an array of source/alist.c, and the moves of its items.
use tek_nap.Common.{
  ◌>>=◌, ℕ, zero, suc, ◌+◌, ◌-◌, List, if◌then◌else◌, Bytes, Option, none, some, ltb, length,
  get_elem?, set,
}
use tek_nap.Common.Int.{ℤ}
use tek_nap.Alist.Hash.{HashType}

pub record Item : Type 0 where
  pub name : Bytes
  pub hash : ℕ

-- `Array`: a slot holds the pointer to an item, or null or what was never set.
pub record Array : Type 0 where
  pub slots : List (Option Item)
  pub max : ℕ
  pub total_max : ℕ
  pub func : Bytes → Bytes → ℕ → ℤ
  pub hash : HashType

-- `array->list[i]`, a fault behind the last slot.
unfoldable pub read : Array → ℕ → Option (Option Item)
read a i = get_elem? a.slots i

-- `array->list[i] = item`
unfoldable pub write : Array → ℕ → Option Item → Option Array
write a i item =
    if ltb i (length a.slots) then some (record a { slots = set a.slots i item }) else none

-- `for (i = end; i >= start; i--) list[i + 1] = list[i];` in `n` rounds, the next one at `start + n - 1`.
unfoldable pub shift_up : ℕ → Array → ℕ → Option Array
shift_up zero a start = some a
shift_up (suc n) a start = do
  item ← read a (start + n)
  a' ← write a (start + n + 1) item
  shift_up n a' start

-- `move_array_items (array, start, end, 1)`
unfoldable pub move_up : Array → (start end : ℕ) → Option Array
unfolding shift_up
move_up a start end = do a' ← shift_up (end + 1 - start) a start; write a' start none

-- `for (i = start; i <= end; i++) list[i - 1] = list[i];` in `n` rounds, the next one at `i`.
unfoldable pub shift_down : ℕ → Array → ℕ → Option Array
shift_down zero a i = some a
shift_down (suc n) a i = do item ← read a i; a' ← write a (i - 1) item; shift_down n a' (i + 1)

-- `move_array_items (array, start, end, -1)`; its second loop makes no round.
unfoldable pub move_down : Array → (start end : ℕ) → Option Array
unfolding shift_down
move_down a start end = shift_down (end + 1 - start) a start
