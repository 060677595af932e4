-- ===== src/Alist/Fixed.antt =====
-- source/alist.c: `find_fixed_array_item`, the search of a table that does not change. The names of its
-- entries are in an array whose slots are all in use.
use tek_nap.Common.{
  ◌>>=◌, ℕ, zero, suc, ◌+◌, ◌/◌, ◌==◌, if◌then◌else◌, List, [], ◌∷◌, Bytes, Bool, true, false,
  Option, none, some, length, map,
}
use tek_nap.Common.Int.{ℤ, pos, is_zero, is_pos, sub_ℕ}
use tek_nap.Alist.Hash.{HashType}
use tek_nap.Alist.Slots.{Item, Array}
use tek_nap.Alist.Find.{Search, item_at, present}

-- The C library's `strncmp`, on the bytes without a sign.
unfoldable pub strncmp : Bytes → Bytes → ℕ → ℤ
strncmp s t zero = pos 0
strncmp [] [] (suc n) = pos 0
strncmp [] (b ∷ t) (suc n) = sub_ℕ 0 b
strncmp (a ∷ s) [] (suc n) = sub_ℕ a 0
strncmp (a ∷ s) (b ∷ t) (suc n) = let rest = strncmp s t n in if a == b then rest else sub_ℕ a b

abbrev pub entry : Bytes → Item
entry name = record { name = name; hash = 0 }

-- `list`, with `howmany` entries.
abbrev pub fixed_list : List Bytes → Array
fixed_list names = record {
  slots = map (λ name. some (entry name)) names;
  max = length names;
  total_max = length names;
  func = strncmp;
  hash = HashType.sensitive;
}

-- `pos == old_pos`, where -1 is `none`.
unfoldable pub is_old : Option ℕ → ℕ → Bool
is_old none place = false
is_old (some old) place = old == place

-- The `while (1)` loop: the last place, and whether it was found there.
unfoldable pub narrow : ℕ → Array → Bytes → (min max : ℕ) → Option ℕ → Option (ℕ × Bool)
narrow zero a name min max old = none
narrow (suc fuel) a name min max old =
    let place = (max + min) / 2 in
    if is_old old place then some (place, false) else do
      item ← item_at a place
      let c = strncmp name item.name (length name)
      if is_zero c
          then some (place, true)
          else if is_pos c
          then narrow fuel a name place max (some place)
          else narrow fuel a name min place (some place)

unfoldable pub narrowed : Array → Bytes → ℕ × Bool → Option Search
narrowed a name (place, true) = present a name place
narrowed a name (place, false) = some (record { result = none; cnt = pos 0; loc = place })

-- Each round but the last one or two halves what is left, so that this fuel is enough.
unfoldable pub find_fixed_array_item : List Bytes → Bytes → Option Search
find_fixed_array_item names name = do
  r ← narrow (length names + 2) (fixed_list names) name 0 (length names) none
  narrowed (fixed_list names) name r
