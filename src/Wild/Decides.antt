-- ===== src/Wild/Decides.antt =====
-- `new_match` decides whether the text matches, and returns the value of the match.
use tek_nap.Common.{
  ℕ, zero, suc, ◌+◌, ◌*◌, ◌≤◌, ◌≡◌, ◌≢◌, refl, inl, inr, [], ◌∷◌, ◌==◌, if◌then◌else◌, Bytes,
  length, arith, sym, true, none, some, Bool-cases, ==_iff, subst,
}
use tek_nap.Wild.{State, Round, return, continue, round, rounds, new_match}
use tek_nap.Wild.Matches.{Matches, nil, one, starred, letters, one_inv, two_stars}
use tek_nap.Wild.Loop.{
  Plain, Text, fresh, matching, fits, star_round, fit_round, question_end, both_end, misfit_round,
  letter_end, pattern_end,
}
use tek_nap.Wild.Rounds.{
  fits-Fits, Fits-fits, Answers, Matching, Fresh, Good, search_good, match_good, fresh_good, Next,
}
use tek_nap.Wild.Steps.{search-Next, not_nil, retry-Next, star-Next, match_end, match_fit}

module _ (G : Type 0) (total K : ℕ) where
  match_star :
      (f : ℕ) (w : Bytes) (x : ℕ) (q : Bytes) (a : ℕ) (p s : Bytes) (c k : ℕ)
      → a ≡ b'*'
      → Matching G total K (suc f) w x q (a ∷ p) s c k
      → Next G total K f (round (matching w (x ∷ q) (a ∷ p) s c k))
  match_star f w x q a p s c k e i = rw (star_round (some (x ∷ q)) w k a p s c e i.plain_p) (
      star-Next G total K f a p s c e i.plain_p i.text_s
        (
          i.now,
          λ g.
              subst (λ z. Matches (z ∷ p) s) (sym e)
                (two_stars (subst (λ z. Matches (starred (z ∷ p)) s) e (i.later g))),
        )
        (short (elim i.moved [ inl h ↦ h | inr h ↦ absurd (h e) ])) (omega (arith, i.bound_p))
        i.value)
    where
      short : length s ≤ length q → length s * K + 1 ≤ f
      short h = let m : length s * K ≤ length q * K = grind arith in omega (arith, i.fuel)

  match_other :
      (f : ℕ) (w : Bytes) (x : ℕ) (q : Bytes) (a : ℕ) (p s : Bytes) (c k : ℕ)
      → a ≢ b'*'
      → Matching G total K (suc f) w x q (a ∷ p) s c k
      → Next G total K f (round (matching w (x ∷ q) (a ∷ p) s c k))
  match_other f w x q a p [] c k na i = elim (Bool-cases (a == b'?')) [
    | inl e ↦
        rw (question_end (some (x ∷ q)) w k a p c ((==_iff a b'?').0 e))
          (inr (refl, match_end G total K f w x q a p c k na i))
    | inr e ↦
        let (a0, ap', ab) = i.plain_p.0 in
        rw (letter_end w k (some (x ∷ q)) a p c na (ground arith) ap' ab a0)
          (retry-Next G total K f w x q (a ∷ p) [] c k i (not_nil G total K na))
  ]
  match_other f w x q a p (d ∷ s) c k na i =
      let (a0, ap', ab) = i.plain_p.0 in
      elim (Bool-cases (fits a d)) [
        | inl e ↦
            rw (fit_round (some (x ∷ q)) w k a p d s c na ap' ab a0 i.text_s.0 e)
              (match_good w x q p s _ k (match_fit G total K f w x q a p d s c k na e i))
        | inr e ↦ rw (misfit_round w k (some (x ∷ q)) a p d s c na ap' ab a0 e) (
            retry-Next G total K f w x q (a ∷ p) (d ∷ s) c k i
              (λ m. cc (Fits-fits a d (one_inv na m).0)))
      ]

  match-Next :
      (f : ℕ) (w : Bytes) (x : ℕ) (q p s : Bytes) (c k : ℕ)
      → Matching G total K (suc f) w x q p s c k
      → Next G total K f (round (matching w (x ∷ q) p s c k))
  unfolding letters
  match-Next f w x q [] [] c k i =
      rw (both_end (some (x ∷ q)) w k c) (inl (omega (arith, i.value), i.now nil))
  match-Next f w x q [] (d ∷ s) c k i =
      rw (pattern_end w k (some (x ∷ q)) d s c i.text_s.0)
        (retry-Next G total K f w x q [] (d ∷ s) c k i (λ m. elim m [ ]))
  match-Next f w x q (a ∷ p) s c k i = elim (Bool-cases (a == b'*')) [
    | inl e ↦ match_star f w x q a p s c k ((==_iff a b'*').0 e) i
    | inr e ↦ match_other f w x q a p s c k (λ z. cc ((==_iff a b'*').1 z)) i
  ]

  Fresh-fit :
      (f : ℕ) (a : ℕ) (p : Bytes) (d : ℕ) (s : Bytes) (c : ℕ)
      → a ≢ b'*'
      → fits a d ≡ true
      → Fresh G total K (suc f) (a ∷ p) (d ∷ s) c
      → Fresh G total K f p s (if a == b'?' then c else c + 1)
  unfolding letters
  Fresh-fit f a p d s c na e i = record {
    plain = i.plain.1;
    text = i.text.1;
    goal = (λ m. i.goal.0 (one (fits-Fits a d na e) m), λ g. (one_inv na (i.goal.1 g)).1);
    fuel = omega (arith, i.fuel, i.bound);
    bound = omega (arith, i.bound);
    value = ground (arith, i.value);
  }

  fresh_other :
      (f : ℕ) (a : ℕ) (p s : Bytes) (c : ℕ)
      → a ≢ b'*'
      → Fresh G total K (suc f) (a ∷ p) s c
      → Next G total K f (round (fresh (a ∷ p) s c))
  fresh_other f a p [] c na i =
      let (a0, ap', ab) = i.plain.0 in
      elim (Bool-cases (a == b'?')) [
        | inl e ↦
            rw (question_end none [] 0 a p c ((==_iff a b'?').0 e))
              (inr (refl, λ g. not_nil G total K na (i.goal.1 g)))
        | inr e ↦
            rw (letter_end [] 0 none a p c na (ground arith) ap' ab a0)
              (inr (refl, λ g. not_nil G total K na (i.goal.1 g)))
      ]
  fresh_other f a p (d ∷ s) c na i =
      let (a0, ap', ab) = i.plain.0 in
      elim (Bool-cases (fits a d)) [
        | inl e ↦
            rw (fit_round none [] 0 a p d s c na ap' ab a0 i.text.0 e)
              (fresh_good p s _ (Fresh-fit f a p d s c na e i))
        | inr e ↦
            rw (misfit_round [] 0 none a p d s c na ap' ab a0 e)
              (inr (refl, λ g. cc (Fits-fits a d (one_inv na (i.goal.1 g)).0)))
      ]

  fresh-Next :
      (f : ℕ) (p s : Bytes) (c : ℕ)
      → Fresh G total K (suc f) p s c
      → Next G total K f (round (fresh p s c))
  unfolding letters
  fresh-Next f [] [] c i = rw (both_end none [] 0 c) (inl (omega (arith, i.value), i.goal.0 nil))
  fresh-Next f [] (d ∷ s) c i =
      rw (pattern_end [] 0 none d s c i.text.0) (inr (refl, λ g. elim (i.goal.1 g) [ ]))
  fresh-Next f (a ∷ p) s c i = elim (Bool-cases (a == b'*')) [
    | inl e ↦
        let z : a ≡ b'*' = (==_iff a b'*').0 e in
        rw (star_round none [] 0 a p s c z i.plain) (
          star-Next G total K f a p s c z i.plain i.text i.goal (omega (arith, i.fuel))
            (omega (arith, i.bound)) i.value)
    | inr e ↦ fresh_other f a p s c (λ z. cc ((==_iff a b'*').1 z)) i
  ]

  Good-Next : {f : ℕ} {t : State} → Good G total K (suc f) t → Next G total K f (round t)
  Good-Next {f} (search_good w s c l k i) = search-Next G total K f w s c l k i
  Good-Next {f} (match_good w x q p s c k i) = match-Next f w x q p s c k i
  Good-Next {f} (fresh_good p s c i) = fresh-Next f p s c i

  Good-pos : {t : State} → ¬ Good G total K 0 t
  Good-pos (search_good w s c l k i) = omega (arith, i.fuel)
  Good-pos (match_good w x q p s c k i) = omega (arith, i.fuel)
  Good-pos (fresh_good p s c i) = omega (arith, i.fuel)

  rounds-Answers : (f : ℕ) (t : State) → Good G total K f t → Answers G total (rounds f t)
  unfolding rounds
  rounds-Answers zero t g = absurd (Good-pos g)
  rounds-Answers (suc f) t g = follow (round t) (Good-Next g) (rounds-Answers f)
    where
      follow :
          (r : Round)
          → Next G total K f r
          → ((u : State) → Good G total K f u → Answers G total (rounds f u))
          → Answers G total (elim r [ return n ↦ n | continue u ↦ rounds f u ])
      follow (return n) h ih = h
      follow (continue u) h ih = ih u h

-- On a pattern of `*`, `?` and regular characters, and a text, whose sizes keep it below its limit of
-- rounds, `new_match` returns one more than the number of regular characters in the pattern if the
-- text matches, and zero if it does not.
pub new_match-Answers :
    (p s : Bytes)
    → Plain p
    → Text s
    → length s * (length p + 3) + length p + 2 ≤ 100001
    → Answers (Matches p s) (suc (letters p)) (new_match p s)
unfolding new_match
new_match-Answers p s hp hs size =
    rounds-Answers (Matches p s) (suc (letters p)) (length p + 3) 100001 (fresh p s 1) (
      fresh_good p s 1 (record {
        plain = hp;
        text = hs;
        goal = (λ m. m, λ m. m);
        fuel = size;
        bound = omega arith;
        value = omega arith;
      }))
