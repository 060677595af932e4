-- ===== src/Alist.antt =====
-- source/alist.c and include/alist.h: sorted arrays of named items that grow and shrink. A step that
-- reads or writes outside of what is allocated, or follows a null pointer, is `none`.
pub mod Hash
pub mod Slots
pub mod Find
pub mod Fixed
pub mod Splits
pub mod Whole
pub mod Ordered
pub mod Narrow
pub mod Valid
pub mod Bounds
pub mod Moves
pub mod Found
pub mod Result
pub mod Change
pub mod Update
pub mod Drop
use tek_nap.Common.{
  ◌>>=◌, ℕ, zero, suc, ◌+◌, ◌-◌, ◌*◌, ◌/◌, [], ◌∷◌, ◌++◌, ◌==◌, if◌then◌else◌, Bytes, Bool, true,
  false, ◌&&◌, ◌||◌, Option, none, some, ltb, leb, length, take, replicate,
}
use tek_nap.Common.Int.{ℤ, pos, negsuc, is_neg, is_zero}
use tek_nap.Alist.Hash.{alist_hash}
use tek_nap.Alist.Slots.{Item, Array, read, write, move_up, move_down}
use tek_nap.Alist.Find.{Search, find_array_item}

-- `n_realloc`: the slots that fit stay, and new ones hold nothing that is known.
unfoldable pub resize : Array → ℕ → Array
resize a n = record a {
  slots = take n (a.slots ++ replicate (n - length a.slots) none);
  total_max = n;
}

unfoldable pub check_array_size : Array → Array
unfolding resize
check_array_size a =
    if a.total_max == 0
    then resize a 6
    else if a.max + 1 == a.total_max
    then resize a (a.total_max * 2)
    else if ltb (a.max * 3) a.total_max
    then resize a (a.total_max / 2)
    else a

-- `*cnt < 0`: the name was found as it is, and not as the beginning of a longer one.
abbrev pub is_exact : Search → Bool
is_exact s = is_neg s.cnt

-- The last two lines of `add_to_array`.
unfoldable pub store : Array → ℕ → Item → Option Item → Option (Array × Option Item)
store a location item ret = do
  a' ← write a location (some item)
  some (record a' { max = a'.max + 1 }, ret)

-- An item of the same name gives way to the new one; else the items from the place on move up.
unfoldable pub place : Array → Item → Search → Option (Array × Option Item)
place a item s =
    if is_exact s
    then (do ret ← read a s.loc; store (record a { max = a.max - 1 }) s.loc item ret)
    else (do a' ← move_up a s.loc a.max; store a' s.loc item none)

-- The new array, and the item that was replaced.
unfoldable pub add_to_array : Array → Item → Option (Array × Option Item)
add_to_array a item =
    let h = alist_hash a.hash item.name in
    let hashed = record item { hash = h.value } in
    let b = check_array_size a in
    if b.max == 0
    then store b 0 hashed none
    else (do s ← find_array_item b item.name; place b hashed s)

-- `array_pop (array, which)`: the new array, and the item that was taken out.
unfoldable pub array_pop : Array → ℤ → Option (Array × Option Item)
array_pop a (negsuc n) = some (a, none)
array_pop a (pos which) = if leb a.max which then some (a, none) else do
  ret ← read a which
  a' ← move_down a (which + 1) a.max
  some (record a' { max = a'.max - 1 }, ret)

unfoldable pub remove_from_array : Array → Bytes → Option (Array × Option Item)
remove_from_array a name = if a.max == 0 then some (a, none) else do
  s ← find_array_item a name
  if is_exact s then array_pop a (pos s.loc) else some (a, none)

-- Whether `*cnt` is zero.
abbrev pub is_missing : Search → Bool
is_missing s = is_zero s.cnt

unfoldable pub remove_all_from_array : Array → Bytes → Option (Array × Option Item)
remove_all_from_array a name = if a.max == 0 then some (a, none) else do
  s ← find_array_item a name
  if is_missing s then some (a, none) else do
    ret ← read a s.loc
    a' ← move_down a (s.loc + 1) a.max
    some (record a' { max = a'.max - 1 }, ret)

unfoldable pub array_lookup : Array → Bytes → Bool → Option (Array × Option Item)
array_lookup a name true = remove_from_array a name
array_lookup a name false = do s ← find_array_item a name; some (a, s.result)
