-- ===== src/Text/Case/Order.antt =====
-- The comparisons of strings order them.
use tek_nap.Common.{
  ◌∙◌, List, ℕ, zero, suc, ◌<◌, [], ◌∷◌, ◌==◌, if◌then◌else◌, Bytes, IsText, ◌≡◌, refl, ◌↔◌, true,
  false, map, arith, Bool, ltb,
}
use tek_nap.Common.Int.{is_neg, pos, is_zero, is_pos, negate}
use tek_nap.Text.Case.{fold, strcmp, my_stricmp}

pub fold-zero : fold 0 ≡ 0
unfolding fold
fold-zero = refl

-- Case-insensitive comparison is plain comparison of the folded strings.
pub my_stricmp-eq-strcmp : (s t : Bytes) → my_stricmp s t ≡ strcmp (map fold s) (map fold t)
unfolding my_stricmp strcmp
my_stricmp-eq-strcmp [] [] = rw fold-zero
my_stricmp-eq-strcmp [] (b ∷ t) = rw fold-zero
my_stricmp-eq-strcmp (a ∷ s) [] = rw fold-zero
my_stricmp-eq-strcmp (a ∷ s) (b ∷ t) = ground (arith, my_stricmp-eq-strcmp s t)

pub strcmp-zero-only : (s t : Bytes) → IsText s → IsText t → is_zero (strcmp s t) ≡ true → s ≡ t
unfolding strcmp
strcmp-zero-only [] [] hs ht h = refl
strcmp-zero-only [] (b ∷ t) hs ht h = ground arith
strcmp-zero-only (a ∷ s) [] hs ht h = ground arith
strcmp-zero-only (a ∷ s) (b ∷ t) hs ht h = ground (arith, strcmp-zero-only s t)

pub strcmp_self : (s : Bytes) → strcmp s s ≡ pos 0
unfolding strcmp
strcmp_self [] = refl
strcmp_self (a ∷ s) = ground (arith, strcmp_self s)

pub strcmp-negate : (s t : Bytes) → strcmp t s ≡ negate (strcmp s t)
unfolding strcmp negate
strcmp-negate [] [] = refl
strcmp-negate [] (b ∷ t) = ground arith
strcmp-negate (a ∷ s) [] = ground arith
strcmp-negate (a ∷ s) (b ∷ t) = ground (arith, strcmp-negate s t)

pub strcmp_trans :
    (s t u : Bytes)
    → IsText s
    → is_pos (strcmp s t) ≡ false
    → is_pos (strcmp t u) ≡ false
    → is_pos (strcmp s u) ≡ false
unfolding strcmp
strcmp_trans [] t [] hs h k = refl
strcmp_trans [] t (c ∷ u) hs h k = ground arith
strcmp_trans (a ∷ s) [] u hs h k = ground arith
strcmp_trans (a ∷ s) (b ∷ t) [] hs h k = ground arith
strcmp_trans (a ∷ s) (b ∷ t) (c ∷ u) hs h k = ground (arith, strcmp_trans s t u)

-- The table keeps every byte but NUL away from NUL, and in the range of a byte.
keeps_text : ℕ → Bool
keeps_text c = if c == 0 then true else (if fold c == 0 then false else ltb (fold c) 256)

-- The bytes below a bound that the table does not keep so.
escaping : (bound : ℕ) → List ℕ
escaping zero = []
escaping (suc c) = let more = escaping c in if keeps_text c then more else c ∷ more

nothing_escapes : escaping 256 ≡ []
unfolding escaping keeps_text fold
nothing_escapes = refl

keeps_text_below : (bound c : ℕ) → escaping bound ≡ [] → c < bound → keeps_text c ≡ true
unfolding escaping
keeps_text_below zero c e h = absurd (omega arith)
keeps_text_below (suc n) c e h = ground (arith, keeps_text_below n c)

fold_pos : (c : ℕ) → 0 < c → c < 256 → (0 < fold c) × (fold c < 256)
unfolding keeps_text
fold_pos c h k = ground (arith, keeps_text_below 256 c nothing_escapes k)

pub map-fold-IsText : (s : Bytes) → IsText s → IsText (map fold s)
map-fold-IsText [] h = tt
map-fold-IsText (c ∷ s) (h, hs) = (fold_pos c h.0 h.1, map-fold-IsText s hs)

-- `my_stricmp` returns zero exactly on strings that are equal letter by letter once folded, where
-- no string has a NUL in it.
pub my_stricmp_iff :
    (s t : Bytes)
    → IsText s
    → IsText t
    → (is_zero (my_stricmp s t) ≡ true) ↔ (map fold s ≡ map fold t)
my_stricmp_iff s t hs ht = (
  λ z.
      strcmp-zero-only _ _ (map-fold-IsText s hs) (map-fold-IsText t ht)
        (rw my_stricmp-eq-strcmp at z),
  λ e. rw (my_stricmp-eq-strcmp, e, strcmp_self),
)

-- Swapping the arguments of `my_stricmp` changes the sign, and "not after" is transitive, where
-- the first of the strings has no NUL in it.
pub my_stricmp_order :
    (s t u : Bytes)
    → IsText s
    → (my_stricmp t s ≡ negate (my_stricmp s t))
      × (is_pos (my_stricmp s t) ≡ false
          → is_pos (my_stricmp t u) ≡ false
          → is_pos (my_stricmp s u) ≡ false)
my_stricmp_order s t u hs =
    simp my_stricmp-eq-strcmp
      (strcmp-negate _ _, strcmp_trans _ (map fold t) _ (map-fold-IsText s hs))

pub my_stricmp_self : (s : Bytes) → my_stricmp s s ≡ pos 0
my_stricmp_self s = my_stricmp-eq-strcmp s s ∙ strcmp_self (map fold s)

-- Strictly before, and then not after, is strictly before; and the other way round.
pub strcmp_neg_trans :
    (s t u : Bytes)
    → IsText s
    → IsText t
    → is_neg (strcmp s t) ≡ true
    → is_pos (strcmp t u) ≡ false
    → is_neg (strcmp s u) ≡ true
unfolding strcmp
strcmp_neg_trans [] [] u hs ht h k = ground arith
strcmp_neg_trans [] (b ∷ t) [] hs ht h k = ground arith
strcmp_neg_trans [] (b ∷ t) (c ∷ u) hs ht h k = ground arith
strcmp_neg_trans (a ∷ s) [] u hs ht h k = ground arith
strcmp_neg_trans (a ∷ s) (b ∷ t) [] hs ht h k = ground arith
strcmp_neg_trans (a ∷ s) (b ∷ t) (c ∷ u) hs ht h k = ground (arith, strcmp_neg_trans s t u)

pub strcmp_trans_neg :
    (s t u : Bytes)
    → IsText s
    → IsText t
    → is_pos (strcmp s t) ≡ false
    → is_neg (strcmp t u) ≡ true
    → is_neg (strcmp s u) ≡ true
unfolding strcmp
strcmp_trans_neg [] [] u hs ht h k = k
strcmp_trans_neg [] (b ∷ t) [] hs ht h k = ground arith
strcmp_trans_neg [] (b ∷ t) (c ∷ u) hs ht h k = ground arith
strcmp_trans_neg (a ∷ s) [] u hs ht h k = ground arith
strcmp_trans_neg (a ∷ s) (b ∷ t) [] hs ht h k = ground arith
strcmp_trans_neg (a ∷ s) (b ∷ t) (c ∷ u) hs ht h k = ground (arith, strcmp_trans_neg s t u)
