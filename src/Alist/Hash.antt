-- ===== src/Alist/Hash.antt =====
-- include/alist.h: the hash of a name, from its first four characters. A `char` is signed, so the
-- names are of characters below 128.
use Prim.Native.Nat.{bit_and}
use tek_nap.Common.{
  ℕ, ◌+◌, ◌*◌, ◌-◌, ◌%◌, ◌^◌, [], ◌∷◌, if◌then◌else◌, Bytes, Option, none, some, ltb,
}
use tek_nap.Common.Int.{ℤ, pos, negsuc}
use tek_nap.Text.Case.{fold}

pub data HashType : Type 0 where
  insensitive sensitive : HashType

-- The hash and `*mask`, which is not set at an empty name.
pub record Hashed : Type 0 where
  pub value : ℕ
  pub mask : Option ℕ

-- The four bytes as one number of 32 bits.
abbrev pub pack : (a b c d : ℕ) → ℕ
pack a b c d = a * 2 ^ 24 + b * 2 ^ 16 + c * 2 ^ 8 + d

abbrev pub hashed : ℕ → Option ℕ → Hashed
hashed x m = record { value = x; mask = m }

unfoldable pub cs_alist_hash : Bytes → Hashed
cs_alist_hash [] = hashed 0 none
cs_alist_hash (a ∷ []) = hashed (pack a 0 0 0) (some 0xff000000)
cs_alist_hash (a ∷ b ∷ []) = hashed (pack a b 0 0) (some 0xffff0000)
cs_alist_hash (a ∷ b ∷ c ∷ []) = hashed (pack a b c 0) (some 0xffffff00)
cs_alist_hash (a ∷ b ∷ c ∷ d ∷ s) = hashed (pack a b c d) (some 0xffffffff)

unfoldable pub ci_alist_hash : Bytes → Hashed
ci_alist_hash [] = hashed 0 none
ci_alist_hash (a ∷ []) = hashed (pack (fold a) 0 0 0) (some 0xff000000)
ci_alist_hash (a ∷ b ∷ []) = hashed (pack (fold a) (fold b) 0 0) (some 0xffff0000)
ci_alist_hash (a ∷ b ∷ c ∷ []) = hashed (pack (fold a) (fold b) (fold c) (fold 0)) (some 0xffffff00)
ci_alist_hash (a ∷ b ∷ c ∷ d ∷ s) =
    hashed (pack (fold a) (fold b) (fold c) (fold d)) (some 0xffffffff)

unfoldable pub alist_hash : HashType → Bytes → Hashed
alist_hash HashType.insensitive name = ci_alist_hash name
alist_hash HashType.sensitive name = cs_alist_hash name

-- An unsigned number of 32 bits read as an `int`.
abbrev pub to_int : ℕ → ℤ
to_int x = if ltb x (2 ^ 31) then pos x else negsuc (2 ^ 32 - x - 1)

-- `(hash & mask) - (other & mask)`, stored in an `int`.
unfoldable pub hash_diff : (hash mask other : ℕ) → ℤ
hash_diff hash mask other = to_int ((bit_and hash mask + 2 ^ 32 - bit_and other mask) % 2 ^ 32)
