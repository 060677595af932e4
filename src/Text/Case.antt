-- ===== src/Text/Case.antt =====
-- source/ircaux.c: `stricmp_table` and the comparisons that ignore case by it.
pub mod Order
use tek_nap.Common.{ℕ, zero, suc, List, [], ◌∷◌, ◌++◌, ◌==◌, if◌then◌else◌, get_or, Bytes}
use tek_nap.Common.Int.{ℤ, pos, sub_ℕ}

-- `n` numbers, one up from the other.
count_up : (from n : ℕ) → List ℕ
count_up from zero = []
count_up from (suc n) = from ∷ count_up (suc from) n

-- The 256 entries of the table: those of the small letters, and of the three signs behind them, are
-- those of the 29 characters from the capital A on.
pub stricmp_table : List ℕ
unfolding count_up
stricmp_table = count_up 0 97 ++ count_up b'A' 29 ++ count_up 126 130

-- `stricmp_table[c]`
unfoldable pub fold : ℕ → ℕ
unfolding stricmp_table
fold c = get_or stricmp_table c c

-- The standard library's `strcmp`, by the difference at the first place where the strings differ.
unfoldable pub strcmp : Bytes → Bytes → ℤ
strcmp [] [] = pos 0
strcmp [] (b ∷ t) = sub_ℕ 0 b
strcmp (a ∷ s) [] = sub_ℕ a 0
strcmp (a ∷ s) (b ∷ t) = let rest = strcmp s t in if a == b then rest else sub_ℕ a b

unfoldable pub my_stricmp : Bytes → Bytes → ℤ
my_stricmp [] [] = sub_ℕ (fold 0) (fold 0)
my_stricmp [] (b ∷ t) = sub_ℕ (fold 0) (fold b)
my_stricmp (a ∷ s) [] = sub_ℕ (fold a) (fold 0)
my_stricmp (a ∷ s) (b ∷ t) =
    let rest = my_stricmp s t in if fold a == fold b then rest else sub_ℕ (fold a) (fold b)

unfoldable pub my_strnicmp : Bytes → Bytes → ℕ → ℤ
my_strnicmp s t zero = pos 0
my_strnicmp [] [] (suc n) = sub_ℕ (fold 0) (fold 0)
my_strnicmp [] (b ∷ t) (suc n) = sub_ℕ (fold 0) (fold b)
my_strnicmp (a ∷ s) [] (suc n) = sub_ℕ (fold a) (fold 0)
my_strnicmp (a ∷ s) (b ∷ t) (suc n) =
    let rest = my_strnicmp s t n in if fold a == fold b then rest else sub_ℕ (fold a) (fold b)
