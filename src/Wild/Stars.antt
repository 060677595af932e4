-- ===== src/Wild/Stars.antt =====
-- A row of asterisks is as good as one.
use tek_nap.Common.{
  ◌≤◌, ◌≡◌, refl, inl, inr, ◌↔◌, [], ◌∷◌, ◌==◌, Bytes, length, arith, sym, true, Bool-cases, ==_iff,
  subst,
}
use tek_nap.Wild.{deref}
use tek_nap.Wild.Matches.{Matches, nil, leave, take, one, starred, letters, two_stars}
use tek_nap.Wild.Loop.{Plain, NotStarred, skip_stars}

pub all_starred : (s : Bytes) → Matches (starred []) s
all_starred [] = leave refl nil
all_starred (d ∷ s) = take refl (all_starred s)

pub length-skip_stars-le : (p : Bytes) → length (skip_stars p) ≤ length p
unfolding skip_stars
length-skip_stars-le [] = omega arith
length-skip_stars-le (c ∷ p) = ground (arith, length-skip_stars-le p)

pub letters-skip_stars : (p : Bytes) → letters (skip_stars p) ≡ letters p
unfolding skip_stars letters
letters-skip_stars [] = refl
letters-skip_stars (c ∷ p) = ground (arith, letters-skip_stars p)

pub skip_stars-NotStarred : (p : Bytes) → NotStarred (skip_stars p)
unfolding skip_stars
skip_stars-NotStarred [] = tt
skip_stars-NotStarred (c ∷ p) = elim (Bool-cases (c == b'*')) [
  | inl e ↦ rw e (skip_stars-NotStarred p)
  | inr e ↦ rw e (λ z. ground arith)
]

pub skip_stars-Plain : (p : Bytes) → Plain p → Plain (skip_stars p)
unfolding skip_stars
skip_stars-Plain [] h = tt
skip_stars-Plain (c ∷ p) h = elim (Bool-cases (c == b'*')) [
  | inl e ↦ rw e (skip_stars-Plain p h.1)
  | inr e ↦ rw e h
]

pub deref_end : (p : Bytes) → Plain p → (deref p == 0) ≡ true → p ≡ []
deref_end [] h e = refl
deref_end (c ∷ p) h e = absurd (h.0.0 ((==_iff c 0).0 e))

starred_mono :
    {p q s : Bytes}
    → ((t : Bytes) → Matches p t → Matches q t)
    → Matches (starred p) s
    → Matches (starred q) s
starred_mono {s} f (leave e m) = leave refl (f s m)
starred_mono f (take e m) = take refl (starred_mono f m)
starred_mono f (one g m) = absurd (g.no_star refl)

starred_twice : {p s : Bytes} → Matches (starred p) s → Matches (starred (starred p)) s
starred_twice m = leave refl m

pub skip_stars_iff : (p s : Bytes) → Matches (starred p) s ↔ Matches (starred (skip_stars p)) s
unfolding skip_stars
skip_stars_iff [] s = (λ m. m, λ m. m)
skip_stars_iff (c ∷ p) s = elim (Bool-cases (c == b'*')) [
  | inl e ↦
      let z : b'*' ≡ c = sym ((==_iff c b'*').0 e) in
      rw e (
        subst (λ t. Matches (starred (t ∷ p)) s ↔ Matches (starred (skip_stars p)) s) z
          (
            λ m. (skip_stars_iff p s).0 (two_stars m),
            λ m. starred_twice ((skip_stars_iff p s).1 m),
          ))
  | inr e ↦ rw e (λ m. m, λ m. m)
]
