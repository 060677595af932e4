-- ===== src/Text/Search/Trim.antt =====
-- `remove_trailing_spaces` takes off the spaces at the end, and no more.
use tek_nap.Common.{
  ℕ, [], ◌∷◌, ◌++◌, if◌then◌else◌, Bytes, true, false, All, ◌≡◌, refl, Bool-cases, inl, inr, ap,
  subst, sym,
}
use tek_nap.Text.Search.{my_isspace, trim_tail, remove_trailing_spaces}

-- The last character, if there is one, is no space.
abbrev pub Solid : Bytes → Type 0
Solid [] = Unit
Solid (c ∷ []) = my_isspace c ≡ false
Solid (c ∷ d ∷ s) = Solid (d ∷ s)

-- `s` is `r` with spaces behind it.
pub record Trimmed (s r : Bytes) : Type 0 where
  pub spaces : Bytes
  pub all : s ≡ r ++ spaces
  pub only_spaces : All (λ c. my_isspace c ≡ true) spaces

grow : (c d : ℕ) (s r : Bytes) → Trimmed s (d ∷ r) → Trimmed (c ∷ s) (c ∷ d ∷ r)
grow c d s r t = record {
  spaces = t.spaces;
  all = ap (λ l. c ∷ l) t.all;
  only_spaces = t.only_spaces;
}

end_of : (c : ℕ) (s : Bytes) → Trimmed s [] → my_isspace c ≡ true → Trimmed (c ∷ s) []
end_of c s t y = record {
  spaces = c ∷ t.spaces;
  all = ap (λ l. c ∷ l) t.all;
  only_spaces = (y, t.only_spaces);
}

stop_at : (c : ℕ) (s : Bytes) → Trimmed s [] → Trimmed (c ∷ s) (c ∷ [])
stop_at c s t = record {
  spaces = t.spaces;
  all = ap (λ l. c ∷ l) t.all;
  only_spaces = t.only_spaces;
}

-- What the clause of `trim_tail` makes of its own result.
unfoldable pub extend : ℕ → Bytes → Bytes
extend c [] = if my_isspace c then [] else c ∷ []
extend c (d ∷ r) = c ∷ d ∷ r

pub trim_tail-extend : (c : ℕ) (s : Bytes) → trim_tail (c ∷ s) ≡ extend c (trim_tail s)
unfolding trim_tail extend
trim_tail-extend c s = by_cases (trim_tail s)
  where
    by_cases :
        (r : Bytes)
        → (elim r [ [] ↦ if my_isspace c then [] else c ∷ [] | d ∷ q ↦ c ∷ d ∷ q ]) ≡ extend c r
    by_cases [] = refl
    by_cases (d ∷ q) = refl

extend-Trimmed :
    (c : ℕ) (s r : Bytes)
    → Trimmed s r
    → Solid r
    → Trimmed (c ∷ s) (extend c r) × Solid (extend c r)
unfolding extend
extend-Trimmed c s [] t h = elim (Bool-cases (my_isspace c)) [
  | inl y ↦ rw y (end_of c s t y, tt)
  | inr n ↦ rw n (stop_at c s t, n)
]
extend-Trimmed c s (d ∷ r) t h = (grow c d s r t, h)

trim_tail-Trimmed : (s : Bytes) → Trimmed s (trim_tail s) × Solid (trim_tail s)
unfolding trim_tail
trim_tail-Trimmed [] = (record { spaces = []; all = refl; only_spaces = tt }, tt)
trim_tail-Trimmed (c ∷ s) =
    let (t, h) = trim_tail-Trimmed s in
    subst (λ r. Trimmed (c ∷ s) r × Solid r) (sym (trim_tail-extend c s))
      (extend-Trimmed c s (trim_tail s) t h)

-- `remove_trailing_spaces` leaves, of a string that is not empty, its first character and what
-- follows up to the last character that is no space: only spaces are taken off, and what is left
-- behind the first character is empty or ends in a character that is no space.
pub remove_trailing_spaces-Trimmed :
    (c : ℕ) (s : Bytes)
    → (r : Bytes) × (remove_trailing_spaces (c ∷ s) ≡ c ∷ r) × Trimmed (c ∷ s) (c ∷ r) × Solid r
unfolding remove_trailing_spaces
remove_trailing_spaces-Trimmed c s =
    let (t, h) = trim_tail-Trimmed s in
    (
      trim_tail s,
      refl,
      record { spaces = t.spaces; all = ap (λ l. c ∷ l) t.all; only_spaces = t.only_spaces },
      h,
    )
