-- ===== src/Wild/Loop.antt =====
-- The rounds of `new_match` on a pattern without percents and quotes, one by one.
use tek_nap.Common.{
  ℕ, ◌+◌, ◌≡◌, ◌≢◌, refl, [], ◌∷◌, ◌==◌, if◌then◌else◌, Bytes, All, arith, Bool, true, false, ◌||◌,
  Option, none, some,
}
use tek_nap.Wild.{
  State, Round, return, continue, tolower, backslash, round, asterisk_round, switch_round,
  skip_wildcards, deref,
}

-- No percent and no backslash; the bytes of a C string are no NULs.
abbrev pub Plain : Bytes → Type 0
Plain = All (λ c. (c ≢ 0) × (c ≢ b'%') × (c ≢ backslash))

abbrev pub Text : Bytes → Type 0
Text = All (λ c. c ≢ 0)

abbrev pub NotStarred : Bytes → Type 0
NotStarred [] = Unit
NotStarred (c ∷ p) = c ≢ b'*'

-- The loop's state before the first asterisk, behind one, and after a fit for one.
abbrev pub fresh : (p s : Bytes) → ℕ → State
fresh p s c = record {
  pattern_at = p;
  string_at = s;
  count = c;
  asterisk = false;
  percent = false;
  last_asterisk_point = none;
  last_percent_point = none;
  last_asterisk_count = 0;
  last_percent_count = 0;
  after_wildcard = [];
}

abbrev pub searching : (w s : Bytes) → ℕ → Option Bytes → ℕ → State
searching w s c last last_count = record (fresh w s c) {
  asterisk = true;
  last_asterisk_point = last;
  last_asterisk_count = last_count;
  after_wildcard = w;
}

abbrev pub calm : (last : Option Bytes) (w p s : Bytes) → (c last_count : ℕ) → State
calm last w p s c last_count = record (fresh p s c) {
  last_asterisk_point = last;
  last_asterisk_count = last_count;
  after_wildcard = w;
}

abbrev pub matching : (w q p s : Bytes) → (c last_count : ℕ) → State
matching w q p s c last_count = calm (some q) w p s c last_count

-- The test of one pattern character, no asterisk, against one text character.
abbrev pub fits : ℕ → ℕ → Bool
fits a d = (a == b'?') || (tolower d == tolower a)

pub tolower_ne : (c : ℕ) → c ≢ 0 → tolower c ≢ tolower 0
unfolding tolower
tolower_ne c h = ground arith

pub search_end :
    (w : Bytes) (c : ℕ) (l : Option Bytes) (k : ℕ) → round (searching w [] c l k) ≡ return 0
unfolding round
search_end w c l k = refl

pub search_hit :
    (a : ℕ) (w : Bytes) (d : ℕ) (s : Bytes) (c : ℕ) (l : Option Bytes) (k : ℕ)
    → a ≢ backslash
    → d ≢ 0
    → fits a d ≡ true
    → round (searching (a ∷ w) (d ∷ s) c l k)
      ≡ continue (matching (a ∷ w) (d ∷ s) (a ∷ w) (d ∷ s) c c)
unfolding round asterisk_round
search_hit a w d s c l k ha hd h = ground arith

pub search_miss :
    (a : ℕ) (w : Bytes) (d : ℕ) (s : Bytes) (c : ℕ) (l : Option Bytes) (k : ℕ)
    → a ≢ backslash
    → d ≢ 0
    → fits a d ≡ false
    → round (searching (a ∷ w) (d ∷ s) c l k) ≡ continue (searching (a ∷ w) s c l k)
unfolding round asterisk_round
search_miss a w d s c l k ha hd h = ground arith

-- The pattern behind a row of asterisks.
unfoldable pub skip_stars : Bytes → Bytes
skip_stars [] = []
skip_stars (c ∷ p) = let rest = skip_stars p in if c == b'*' then rest else c ∷ p

pub skip_wildcards-stars :
    (c : ℕ) (p : Bytes) → Plain (c ∷ p) → skip_wildcards (c ∷ p) ≡ (c == b'*', skip_stars (c ∷ p))
unfolding skip_wildcards skip_stars
skip_wildcards-stars c [] h = ground arith
skip_wildcards-stars c (d ∷ p) h = ground (arith, skip_wildcards-stars d p h.1)

-- The rounds while nothing is looked for, by the pattern's character.
module _ (last : Option Bytes) (w : Bytes) (k : ℕ) where
  pub star_round :
      (a : ℕ) (p s : Bytes) (c : ℕ)
      → a ≡ b'*'
      → Plain (a ∷ p)
      → round (calm last w (a ∷ p) s c k) ≡ (
          if deref (skip_stars p) == 0
          then return c
          else continue (searching (skip_stars p) s c (some s) c))
  unfolding round switch_round skip_stars
  star_round a p s c e h = ground (arith, skip_wildcards-stars a p h)

  pub fit_round :
      (a : ℕ) (p : Bytes) (d : ℕ) (s : Bytes) (c : ℕ)
      → a ≢ b'*'
      → a ≢ b'%'
      → a ≢ backslash
      → a ≢ 0
      → d ≢ 0
      → fits a d ≡ true
      → round (calm last w (a ∷ p) (d ∷ s) c k)
        ≡ continue (calm last w p s (if a == b'?' then c else c + 1) k)
  unfolding round switch_round
  fit_round a p d s c h1 h2 h3 h4 h5 f = ground arith

  pub question_end :
      (a : ℕ) (p : Bytes) (c : ℕ) → a ≡ b'?' → round (calm last w (a ∷ p) [] c k) ≡ return 0
  unfolding round switch_round
  question_end a p c e = ground arith

  pub both_end : (c : ℕ) → round (calm last w [] [] c k) ≡ return c
  unfolding round switch_round
  both_end c = refl

-- What a mismatch leads to.
abbrev pub retried : (last : Option Bytes) (w : Bytes) → ℕ → Round
retried none w k = return 0
retried (some []) w k = continue (searching w [] k (some []) k)
retried (some (x ∷ q)) w k = continue (searching w q k (some (x ∷ q)) k)

module _ (w : Bytes) (k : ℕ) where
  pub misfit_round :
      (last : Option Bytes) (a : ℕ) (p : Bytes) (d : ℕ) (s : Bytes) (c : ℕ)
      → a ≢ b'*'
      → a ≢ b'%'
      → a ≢ backslash
      → a ≢ 0
      → fits a d ≡ false
      → round (calm last w (a ∷ p) (d ∷ s) c k) ≡ retried last w k
  unfolding round switch_round
  misfit_round none a p d s c h1 h2 h3 h4 f = ground arith
  misfit_round (some []) a p d s c h1 h2 h3 h4 f = ground arith
  misfit_round (some (x ∷ q)) a p d s c h1 h2 h3 h4 f = ground arith

  pub letter_end :
      (last : Option Bytes) (a : ℕ) (p : Bytes) (c : ℕ)
      → a ≢ b'*'
      → a ≢ b'?'
      → a ≢ b'%'
      → a ≢ backslash
      → a ≢ 0
      → round (calm last w (a ∷ p) [] c k) ≡ retried last w k
  unfolding round switch_round
  letter_end none a p c h1 h2 h3 h4 h5 = ground (arith, tolower_ne a)
  letter_end (some []) a p c h1 h2 h3 h4 h5 = ground (arith, tolower_ne a)
  letter_end (some (x ∷ q)) a p c h1 h2 h3 h4 h5 = ground (arith, tolower_ne a)

  pub pattern_end :
      (last : Option Bytes) (d : ℕ) (s : Bytes) (c : ℕ)
      → d ≢ 0
      → round (calm last w [] (d ∷ s) c k) ≡ retried last w k
  unfolding round switch_round
  pattern_end none d s c h = ground (arith, tolower_ne d)
  pattern_end (some []) d s c h = ground (arith, tolower_ne d)
  pattern_end (some (x ∷ q)) d s c h = ground (arith, tolower_ne d)
