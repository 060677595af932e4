-- ===== src/Wild/Steps.antt =====
-- The rounds of `new_match` that search, retry and meet an asterisk keep what holds between them.
use tek_nap.Common.{
  ℕ, suc, ◌+◌, ◌*◌, ◌≤◌, ◌≡◌, ◌≢◌, refl, inl, inr, ◌↔◌, [], ◌∷◌, ◌==◌, if◌then◌else◌, Bytes, length,
  arith, sym, true, Option, some, Bool-cases, subst, ap,
}
use tek_nap.Wild.{return, continue, round, deref}
use tek_nap.Wild.Matches.{
  Matches, leave, take, one, starred, need, letters, need-le-length, one_inv, must_take, drop_one,
  nil_at_end,
}
use tek_nap.Wild.Stars.{
  all_starred, length-skip_stars-le, letters-skip_stars, skip_stars-NotStarred, skip_stars-Plain,
  deref_end, skip_stars_iff,
}
use tek_nap.Wild.Loop.{
  Plain, Text, searching, fits, skip_stars, retried, search_end, search_hit, search_miss,
}
use tek_nap.Wild.Rounds.{fits-Fits, Fits-fits, Searching, Matching, search_good, match_good, Next}

module _ (G : Type 0) (total K : ℕ) where
  pub search-Next :
      (f : ℕ) (w s : Bytes) (c : ℕ) (l : Option Bytes) (k : ℕ)
      → Searching G total K (suc f) w s c
      → Next G total K f (round (searching w s c l k))
  search-Next f [] s c l k i = absurd (i.some_letter refl)
  search-Next f (a ∷ w) [] c l k i =
      rw (search_end (a ∷ w) c l k) (inr (refl, λ g. nil_at_end i.not_starred (i.goal.1 g)))
  search-Next f (a ∷ w) (d ∷ s) c l k i = elim (Bool-cases (fits a d)) [
    | inl e ↦ rw (search_hit a w d s c l k i.plain.0.2 i.text.0 e) (
        match_good (a ∷ w) d s (a ∷ w) (d ∷ s) c c (record {
          plain_w = i.plain;
          plain_p = i.plain;
          text_q = i.text.1;
          text_s = i.text;
          goal = i.goal;
          down = λ m. m;
          now = λ m. i.goal.0 (leave refl m);
          later = i.goal.1;
          some_letter = i.some_letter;
          not_starred = i.not_starred;
          size = omega arith;
          near = omega arith;
          moved = inr i.not_starred;
          fuel = omega arith;
          bound_w = i.bound;
          bound_p = i.bound;
          value = i.value;
          value_w = i.value;
        }))
    | inr e ↦ rw (search_miss a w d s c l k i.plain.0.2 i.text.0 e) (
        search_good (a ∷ w) s c l k (record {
          plain = i.plain;
          text = i.text.1;
          goal = (
            λ m. i.goal.0 (take refl m),
            λ g. must_take (i.goal.1 g) (λ m. cc (Fits-fits a d (one_inv i.not_starred m).0)),
          );
          some_letter = i.some_letter;
          not_starred = i.not_starred;
          fuel = omega arith;
          bound = i.bound;
          value = i.value;
        }))
  ]

  -- No pattern character but an asterisk matches where the text ends.
  pub not_nil : {a : ℕ} {p : Bytes} → a ≢ b'*' → ¬ Matches (a ∷ p) []
  not_nil n (leave e m) = n e

  -- A mismatch after a fit for an asterisk: the asterisk takes one more character.
  pub retry-Next :
      (f : ℕ) (w : Bytes) (x : ℕ) (q p s : Bytes) (c k : ℕ)
      → Matching G total K (suc f) w x q p s c k
      → ¬ Matches p s
      → Next G total K f (retried (some (x ∷ q)) w k)
  retry-Next f w x q p s c k i n = search_good w q k (some (x ∷ q)) k (record {
    plain = i.plain_w;
    text = i.text_q;
    goal = (λ m. i.goal.0 (take refl m), λ g. must_take (i.goal.1 g) (λ m. n (i.down m)));
    some_letter = i.some_letter;
    not_starred = i.not_starred;
    fuel = omega arith;
    bound = i.bound_w;
    value = i.value_w;
  })

  -- An asterisk in the pattern, from a state that looks for nothing.
  pub star-Next :
      (f : ℕ) (a : ℕ) (p s : Bytes) (c : ℕ)
      → a ≡ b'*'
      → Plain (a ∷ p)
      → Text s
      → Matches (a ∷ p) s ↔ G
      → length s * K + 1 ≤ f
      → length p + 3 ≤ K
      → c + letters (a ∷ p) ≡ total
      → Next G total K f (
          if deref (skip_stars p) == 0
          then return c
          else continue (searching (skip_stars p) s c (some s) c))
  unfolding letters
  star-Next f a p s c e h t goal fuel bound value =
      let goal' : Matches (starred (skip_stars p)) s ↔ G = (
        λ m. goal.0 (subst (λ z. Matches (z ∷ p) s) (sym e) ((skip_stars_iff p s).1 m)),
        λ g. (skip_stars_iff p s).0 (subst (λ z. Matches (z ∷ p) s) e (goal.1 g)),
      ) in
      let value' : c + letters (skip_stars p) ≡ total = ground (arith, letters-skip_stars p) in
      elim (Bool-cases (deref (skip_stars p) == 0)) [
        | inl z ↦
            let none_left = deref_end (skip_stars p) (skip_stars-Plain p h.1) z in
            rw z (inl (ground arith, goal'.0 (rw none_left (all_starred s))))
        | inr z ↦ rw z (
            search_good (skip_stars p) s c (some s) c (record {
              plain = skip_stars-Plain p h.1;
              text = t;
              goal = goal';
              some_letter = λ n. cc (ap (λ q. deref q == 0) n);
              not_starred = skip_stars-NotStarred p;
              fuel = fuel;
              bound = omega (arith, length-skip_stars-le p);
              value = value';
            }))
      ]

  -- The text ends where the pattern wants a character: no later place can fit.
  pub match_end :
      (f : ℕ) (w : Bytes) (x : ℕ) (q : Bytes) (a : ℕ) (p : Bytes) (c k : ℕ)
      → a ≢ b'*'
      → Matching G total K (suc f) w x q (a ∷ p) [] c k
      → ¬ G
  unfolding need
  match_end f w x q a p c k na i g =
      let m : Matches (starred w) q = must_take (i.goal.1 g) (λ m. not_nil na (i.down m)) in
      ground (arith, need-le-length m, i.size)

  pub match_fit :
      (f : ℕ) (w : Bytes) (x : ℕ) (q : Bytes) (a : ℕ) (p : Bytes) (d : ℕ) (s : Bytes) (c k : ℕ)
      → a ≢ b'*'
      → fits a d ≡ true
      → Matching G total K (suc f) w x q (a ∷ p) (d ∷ s) c k
      → Matching G total K f w x q p s (if a == b'?' then c else c + 1) k
  unfolding need letters
  match_fit f w x q a p d s c k na e i = record {
    plain_w = i.plain_w;
    plain_p = i.plain_p.1;
    text_q = i.text_q;
    text_s = i.text_s.1;
    goal = i.goal;
    down = λ m. (one_inv na (i.down m)).1;
    now = λ m. i.now (one (fits-Fits a d na e) m);
    later = λ g. drop_one s na (i.later g);
    some_letter = i.some_letter;
    not_starred = i.not_starred;
    size = ground (arith, i.size);
    near = omega (arith, i.near);
    moved = inl (omega (arith, i.near));
    fuel = omega (arith, i.fuel);
    bound_w = i.bound_w;
    bound_p = omega (arith, i.bound_p);
    value = ground (arith, i.value);
    value_w = i.value_w;
  }
