-- ===== src/LinkedList/Find.antt =====
-- `find_in_list_ext` and `remove_from_list_ext`.
use tek_nap.Common.{
  ℕ, zero, suc, ◌<◌, ◌≤◌, ◌≡◌, ◌≢◌, refl, Bytes, Bool, true, false, some, [], ◌∷◌, ◌++◌, ◌∙◌, sym,
  subst, ap, length, ◌==◌, arith, Bool-cases, inl, inr, ◌⊎◌, All, ltb,
}
use tek_nap.Common.Int.{is_zero, pos_part}
use tek_nap.LinkedList.Memory.{Ptr, null, Memory, ◌>>=◌, load-some}
use tek_nap.LinkedList.{Compare, find_same, find_best, find_in_list_ext}
use tek_nap.LinkedList.Link.{is_null}
use tek_nap.LinkedList.Chain.{Item, Items, Chain}

-- The address that a search without wildcards returns: that of the first item that compares equal.
pub data First (cmp_func : Compare) (name : Bytes) : Ptr → Items → Type 0 where
  missing : First cmp_func name null []
  here :
      {x : Ptr} {nm : Bytes} {xs : Items}
      → is_zero (cmp_func nm name) ≡ true
      → First cmp_func name x ((x, nm) ∷ xs)
  later :
      {p x : Ptr} {nm : Bytes} {xs : Items}
      → is_zero (cmp_func nm name) ≡ false
      → First cmp_func name p xs
      → First cmp_func name p ((x, nm) ∷ xs)

find_same-First :
    (dble : Bool) (cmp_func : Compare) (name : Bytes) (xs : Items) (fuel : ℕ) (m : Memory)
    (b tmp : Ptr)
    → length xs < fuel
    → Chain dble m b tmp xs
    → (p : Ptr) × (find_same fuel cmp_func name tmp m ≡ some (p, m)) × First cmp_func name p xs
unfolding find_same
find_same-First dble cmp_func name xs zero m b tmp f ch = absurd (omega arith)
find_same-First dble cmp_func name [] (suc fuel) m b tmp f ch =
    let z : (tmp == null) ≡ true = ground arith in (null, rw z, missing)
find_same-First dble cmp_func name ((x, nm) ∷ xs) (suc fuel) m b tmp f
      (e, nx, ox, c, at, n, bk, rest) =
    let nt : tmp ≢ null = λ z. nx (sym e ∙ z) in
    elim (Bool-cases (is_zero (cmp_func nm name))) [
      | inl g ↦ (
        tmp,
        rw (is_null tmp nt, ◌>>=◌, load-some tmp m c nt (ap m e ∙ at), n, g),
        subst (λ t. First cmp_func name t ((x, nm) ∷ xs)) (sym e) (here g),
      )
      | inr g ↦
          let (p, run, d) =
            find_same-First dble cmp_func name xs fuel m x c.next (omega arith) rest in
          (p, rw (is_null tmp nt, ◌>>=◌, load-some tmp m c nt (ap m e ∙ at), n, g, run), later g d)
    ]

module _ (cmp_func : Compare) (name : Bytes) where
  -- The value that the comparison gives to an item.
  abbrev pub grade : Item → ℕ
  grade x = pos_part (cmp_func x.1 name)

  -- The search kept what it had, or found the first item of the best value.
  abbrev pub Graded : (match : Ptr) (best : ℕ) (xs : Items) → Ptr → Type 0
  Graded match best xs r =
      ((r ≡ match) × All (λ x. grade x ≤ best) xs)
      ⊎ ((ys zs : Items) × (nm : Bytes) × (xs ≡ ys ++ (r, nm) ∷ zs)
          × (best < grade (r, nm))
          × All (λ x. grade x < grade (r, nm)) ys
          × All (λ x. grade x ≤ grade (r, nm)) zs)

  Graded-better :
      (match : Ptr) (best : ℕ) (x : Item) (xs : Items) (r : Ptr)
      → best < grade x
      → Graded x.0 (grade x) xs r
      → Graded match best (x ∷ xs) r
  Graded-better match best x xs r h (inl (e, all)) =
      inr ([], xs, x.1, ap (λ p. (p, x.1) ∷ xs) (sym e), h, tt, all)
  Graded-better match best x xs r h (inr (ys, zs, nm, e, lt, below, le)) =
      inr (x ∷ ys, zs, nm, ap (λ t. x ∷ t) e, omega arith, (lt, below), le)

  Graded-worse :
      (match : Ptr) (best : ℕ) (x : Item) (xs : Items) (r : Ptr)
      → grade x ≤ best
      → Graded match best xs r
      → Graded match best (x ∷ xs) r
  Graded-worse match best x xs r h (inl (e, all)) = inl (e, (h, all))
  Graded-worse match best x xs r h (inr (ys, zs, nm, e, lt, below, le)) =
      inr (x ∷ ys, zs, nm, ap (λ t. x ∷ t) e, lt, (omega arith, below), le)

  find_best-Graded :
      (dble : Bool) (xs : Items) (fuel : ℕ) (m : Memory) (b tmp match : Ptr) (best : ℕ)
      → length xs < fuel
      → Chain dble m b tmp xs
      → (r : Ptr) × (find_best fuel cmp_func name tmp match best m ≡ some (r, m))
        × Graded match best xs r
  unfolding find_best
  find_best-Graded dble xs zero m b tmp match best f ch = absurd (omega arith)
  find_best-Graded dble [] (suc fuel) m b tmp match best f ch =
      let z : (tmp == null) ≡ true = ground arith in (match, rw z, inl (refl, tt))
  find_best-Graded dble ((x, nm) ∷ xs) (suc fuel) m b tmp match best f
        (e, nx, ox, c, at, n, bk, rest) =
      let nt : tmp ≢ null = λ z. nx (sym e ∙ z) in
      elim (Bool-cases (ltb best (grade (x, nm)))) [
        | inl g ↦
            let (r, run, d) =
              find_best-Graded dble xs fuel m x c.next tmp (grade (x, nm)) (omega arith) rest in
            (
              r,
              rw (is_null tmp nt, ◌>>=◌, load-some tmp m c nt (ap m e ∙ at), n, g, run),
              Graded-better match best (x, nm) xs r (ground arith)
                  (subst (λ t. Graded t (grade (x, nm)) xs r) e d),
            )
        | inr g ↦
            let (r, run, d) =
              find_best-Graded dble xs fuel m x c.next match best (omega arith) rest in
            (
              r,
              rw (is_null tmp nt, ◌>>=◌, load-some tmp m c nt (ap m e ∙ at), n, g, run),
              Graded-worse match best (x, nm) xs r (ground arith) d,
            )
      ]

  -- What `find_in_list_ext` must return on a list of these items.
  abbrev pub Found : Bool → Items → Ptr → Type 0
  Found true xs r = Graded null 0 xs r
  Found false xs r = First cmp_func name r xs

  -- `find_in_list_ext`, on a well-formed list and with more fuel than it has structures, changes
  -- nothing and returns the first structure that compares equal, or in a search with wildcards the
  -- first one of the best value above zero; and a null pointer where there is none.
  pub find_in_list_ext-Found :
      (wild dble : Bool) (xs : Items) (fuel : ℕ) (m : Memory) (list : Ptr)
      → length xs < fuel
      → Chain dble m null list xs
      → (r : Ptr) × (find_in_list_ext fuel list name wild cmp_func m ≡ some (r, m))
        × Found wild xs r
  unfolding find_in_list_ext
  find_in_list_ext-Found true dble xs fuel m list f ch =
      find_best-Graded dble xs fuel m null list null 0 f ch
  find_in_list_ext-Found false dble xs fuel m list f ch =
      find_same-First dble cmp_func name xs fuel m null list f ch
