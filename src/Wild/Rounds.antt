-- ===== src/Wild/Rounds.antt =====
-- What holds of the states of `new_match` between its rounds.
use tek_nap.Common.{
  ℕ, ◌+◌, ◌*◌, ◌≤◌, ◌≡◌, ◌≢◌, ◌⊎◌, inl, inr, ◌↔◌, [], ◌∷◌, Bytes, length, arith, true, Option,
}
use tek_nap.Wild.{State, Round, return, continue}
use tek_nap.Wild.Matches.{Fits, Matches, starred, need, letters}
use tek_nap.Wild.Loop.{Plain, Text, NotStarred, fresh, searching, matching, fits}

pub fits-Fits : (a d : ℕ) → a ≢ b'*' → fits a d ≡ true → Fits a d
fits-Fits a d h f = record { no_star = h; same = ground arith }

pub Fits-fits : (a d : ℕ) → Fits a d → fits a d ≡ true
Fits-fits a d f = elim f.same [ inl e ↦ ground arith | inr e ↦ ground arith ]

-- The value that is returned: that of the match if there is one, and zero if there is none.
abbrev pub Answers : Type 0 → ℕ → ℕ → Type 0
Answers G total r = ((r ≡ total) × G) ⊎ ((r ≡ 0) × (¬ G))

module _ (G : Type 0) (total K : ℕ) where
  pub record Searching (f : ℕ) (w s : Bytes) (c : ℕ) : Type 0 where
    pub plain : Plain w
    pub text : Text s
    pub goal : Matches (starred w) s ↔ G
    pub some_letter : w ≢ []
    pub not_starred : NotStarred w
    pub fuel : length s * K + 1 ≤ f
    pub bound : length w + 3 ≤ K
    pub value : c + letters w ≡ total

  pub record Matching (f : ℕ) (w : Bytes) (x : ℕ) (q p s : Bytes) (c k : ℕ) : Type 0 where
    pub plain_w : Plain w
    pub plain_p : Plain p
    pub text_q : Text q
    pub text_s : Text s
    pub goal : Matches (starred w) (x ∷ q) ↔ G
    pub down : Matches w (x ∷ q) → Matches p s
    pub now : Matches p s → G
    pub later : G → Matches (starred p) s
    pub some_letter : w ≢ []
    pub not_starred : NotStarred w
    pub size : need w + length s ≡ need p + length q + 1
    pub near : length s ≤ length q + 1
    pub moved : (length s ≤ length q) ⊎ NotStarred p
    pub fuel : length q * K + length p + 3 ≤ f
    pub bound_w : length w + 3 ≤ K
    pub bound_p : length p + 3 ≤ K
    pub value : c + letters p ≡ total
    pub value_w : k + letters w ≡ total

  pub record Fresh (f : ℕ) (p s : Bytes) (c : ℕ) : Type 0 where
    pub plain : Plain p
    pub text : Text s
    pub goal : Matches p s ↔ G
    pub fuel : length s * K + length p + 2 ≤ f
    pub bound : length p + 3 ≤ K
    pub value : c + letters p ≡ total

  -- The states from which the loop answers rightly within `f` rounds.
  pub data Good (f : ℕ) : State → Type 0 where
    search_good :
        (w s : Bytes) (c : ℕ) (l : Option Bytes) (k : ℕ)
        → Searching f w s c
        → Good f (searching w s c l k)
    match_good :
        (w : Bytes) (x : ℕ) (q p s : Bytes) (c k : ℕ)
        → Matching f w x q p s c k
        → Good f (matching w (x ∷ q) p s c k)
    fresh_good : (p s : Bytes) (c : ℕ) → Fresh f p s c → Good f (fresh p s c)

  abbrev pub Next : ℕ → Round → Type 0
  Next f (return n) = Answers G total n
  Next f (continue t) = Good f t
