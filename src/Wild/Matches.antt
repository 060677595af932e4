-- ===== src/Wild/Matches.antt =====
-- What it means that a text matches a pattern of `*`, `?` and regular characters, with no order of
-- search in it.
use tek_nap.Common.{
  ℕ, ◌+◌, ◌≤◌, ◌≡◌, ◌≢◌, refl, ◌⊎◌, [], ◌∷◌, ◌==◌, if◌then◌else◌, Bytes, length, arith,
}
use tek_nap.Wild.{tolower}

-- A pattern's character, no asterisk, that stands for the text's character.
pub record Fits (c d : ℕ) : Type 0 where
  pub no_star : c ≢ b'*'
  pub same : (c ≡ b'?') ⊎ (tolower d ≡ tolower c)

pub data Matches : Bytes → Bytes → Type 0 where
  nil : Matches [] []
  leave : {c : ℕ} {p s : Bytes} → c ≡ b'*' → Matches p s → Matches (c ∷ p) s
  take : {c d : ℕ} {p s : Bytes} → c ≡ b'*' → Matches (c ∷ p) s → Matches (c ∷ p) (d ∷ s)
  one : {c d : ℕ} {p s : Bytes} → Fits c d → Matches p s → Matches (c ∷ p) (d ∷ s)

-- An asterisk in front of the pattern.
abbrev pub starred : Bytes → Bytes
starred p = b'*' ∷ p

-- The characters that the text must have at least, and those that count in the value of a match.
unfoldable pub need : Bytes → ℕ
need [] = 0
need (c ∷ p) = let n = need p in if c == b'*' then n else n + 1

unfoldable pub letters : Bytes → ℕ
letters [] = 0
letters (c ∷ p) = let n = letters p in if c == b'*' then n else if c == b'?' then n else n + 1

pub need-le-length : {p s : Bytes} → Matches p s → need p ≤ length s
unfolding need
need-le-length nil = omega arith
need-le-length (leave {c} e m) = ground (arith, need-le-length m)
need-le-length (take {c} e m) = ground (arith, need-le-length m)
need-le-length (one {c} f m) = ground (arith, need-le-length m, f.no_star)

pub one_inv : {c d : ℕ} {p s : Bytes} → c ≢ b'*' → Matches (c ∷ p) (d ∷ s) → Fits c d × Matches p s
one_inv n (leave e m) = absurd (n e)
one_inv n (take e m) = absurd (n e)
one_inv n (one f m) = (f, m)

pub leave_all : {p s : Bytes} → Matches p s → Matches (starred p) s
leave_all m = leave refl m

pub must_take :
    {p : Bytes} {d : ℕ} {s : Bytes}
    → Matches (starred p) (d ∷ s)
    → ¬ Matches p (d ∷ s)
    → Matches (starred p) s
must_take (leave e m) n = absurd (n m)
must_take (take e m) n = m
must_take (one f m) n = absurd (f.no_star refl)

pub two_stars : {p s : Bytes} → Matches (starred (starred p)) s → Matches (starred p) s
two_stars (leave e m) = m
two_stars (take e m) = take refl (two_stars m)
two_stars (one f m) = absurd (f.no_star refl)

-- Why the first fitting place after an asterisk loses nothing: the rest begins behind it anyway.
pub drop_one :
    {c d : ℕ} {p : Bytes} (s : Bytes)
    → c ≢ b'*'
    → Matches (starred (c ∷ p)) (d ∷ s)
    → Matches (starred p) s
drop_one s n (leave e (leave e' m)) = absurd (n e')
drop_one s n (leave e (take e' m)) = absurd (n e')
drop_one s n (leave e (one f m)) = leave refl m
drop_one [] n (take e (leave e' (leave e'' m))) = absurd (n e'')
drop_one (x ∷ s) n (take e m) = take refl (drop_one s n m)
drop_one s n (one f m) = absurd (f.no_star refl)

pub nil_at_end : {c : ℕ} {p : Bytes} → c ≢ b'*' → ¬ Matches (starred (c ∷ p)) []
nil_at_end n (leave e (leave e' m)) = n e'
