-- ===== src/LinkedList/Remove.antt =====
-- `remove_from_list_ext` takes the first structure that compares equal out of a list.
use tek_nap.Common.{
  ℕ, zero, suc, ◌<◌, ◌≡◌, ◌≢◌, refl, Bytes, true, false, some, [], ◌∷◌, ◌∙◌, sym, subst, ap, length,
  ◌==◌, if◌then◌else◌, arith, Bool-cases, inl, inr,
}
use tek_nap.Common.Int.{is_zero}
use tek_nap.LinkedList.Memory.{
  Ptr, null, Cell, Memory, ◌>>=◌, write, write_self, write_ne, load-some, set_next-some,
}
use tek_nap.LinkedList.{Compare, remove_loop, remove_from_list_ext}
use tek_nap.LinkedList.Link.{is_null}
use tek_nap.LinkedList.Chain.{Items, Absent, Chain, Chain-write}
use tek_nap.LinkedList.Find.{First, missing, here, later}

module _ (cmp_func : Compare) (name : Bytes) where
  -- The list without the first item that compares equal.
  unfoldable pub remove : Items → Items
  remove [] = []
  remove (x ∷ xs) = let rest = remove xs in if is_zero (cmp_func x.1 name) then xs else x ∷ rest

  Absent-remove : (q : Ptr) (xs : Items) → Absent q xs → Absent q (remove xs)
  unfolding remove
  Absent-remove q [] o = tt
  Absent-remove q (x ∷ xs) o = ground (arith, Absent-remove q xs)

  Chain-from :
      (m : Memory) (b b' p : Ptr) (xs : Items) → Chain false m b p xs → Chain false m b' p xs
  Chain-from m b b' p [] h = h
  Chain-from m b b' p (x ∷ xs) h = h

  -- What the loop leaves of the part of the list from `l` on.
  record Cut (m m' : Memory) (l : Ptr) (lc : Cell) (xs : Items) : Type 0 where
    cell : Cell
    at : m' l ≡ some cell
    same_name : cell.name ≡ lc.name
    chain : Chain false m' l cell.next (remove xs)
    outside : (q : Ptr) → q ≢ l → Absent q xs → m' q ≡ m q

  remove_walk :
      (xs : Items) (fuel : ℕ) (m : Memory) (list l : Ptr) (lc : Cell)
      → length xs < fuel
      → l ≢ null
      → m l ≡ some lc
      → Absent l xs
      → Chain false m l lc.next xs
      → (m' : Memory) × (r : Ptr) × (remove_loop fuel cmp_func name list lc.next l m
          ≡ some ((list, r), m'))
        × First cmp_func name r xs
        × Cut m m' l lc xs
  unfolding remove_loop remove
  remove_walk xs zero m list l lc f nl at_l ol ch = absurd (omega arith)
  remove_walk [] (suc fuel) m list l lc f nl at_l ol ch =
      let z : (lc.next == null) ≡ true = ground arith in
      (
        m,
        null,
        rw z,
        missing,
        record { cell = lc; at = at_l; same_name = refl; chain = ch; outside = λ q h o. refl },
      )
  remove_walk ((x, nm) ∷ xs) (suc fuel) m list l lc f nl at_l ol (e, nx, ox, c, at, n, bk, rest) =
      let nt : lc.next ≢ null = λ z. nx (sym e ∙ z) in
      let at_t : m lc.next ≡ some c = ap m e ∙ at in
      elim (Bool-cases (is_zero (cmp_func nm name))) [
        | inl g ↦
            let lc' : Cell = record lc { next = c.next } in
            (
              write m l lc',
              lc.next,
              rw (
                is_null lc.next nt,
                ◌>>=◌,
                load-some lc.next m c nt at_t,
                n,
                g,
                is_null l nl,
                set_next-some l c.next m lc nl at_l,
              ),
              subst (λ t. First cmp_func name t ((x, nm) ∷ xs)) (sym e) (here g),
              record {
                cell = lc';
                at = write_self m l lc';
                same_name = refl;
                chain =
                    rw g (
                      Chain-write false m l c.next xs l lc' ol.1 (Chain-from m x l c.next xs rest));
                outside = λ q h o. write_ne m l q lc' h;
              },
            )
        | inr g ↦
            let (m', r, run, d, k) =
              remove_walk xs fuel m list lc.next c (omega arith) nt at_t
                (subst (λ t. Absent t xs) (sym e) ox)
                (subst (λ t. Chain false m t c.next xs) (sym e) rest) in
            (
              m',
              r,
              rw (is_null lc.next nt, ◌>>=◌, load-some lc.next m c nt at_t, n, g, run),
              later g d,
              record {
                cell = lc;
                at = k.outside l (λ z. ol.0 (z ∙ e)) ol.1 ∙ at_l;
                same_name = refl;
                chain = rw g (
                  e,
                  nx,
                  Absent-remove x xs ox,
                  k.cell,
                  sym (ap m' e) ∙ k.at,
                  k.same_name ∙ n,
                  tt,
                  subst (λ t. Chain false m' t k.cell.next (remove xs)) e k.chain,
                );
                outside = λ q h o. k.outside q (λ z. o.0 (z ∙ e)) o.1;
              },
            )
      ]

  -- The run ended well: the memory holds the list without the item, and is as it was elsewhere.
  pub record Removed (m m' : Memory) (list' : Ptr) (xs : Items) : Type 0 where
    pub chain : Chain false m' null list' (remove xs)
    pub outside : (q : Ptr) → Absent q xs → m' q ≡ m q

  -- `remove_from_list_ext`, on a well-formed list and with more fuel than it has structures, returns
  -- the first structure that compares equal, or a null pointer if there is none, leaves the list
  -- without that structure, and writes to nothing outside of the list.
  pub remove_from_list_ext-Removed :
      (xs : Items) (fuel : ℕ) (m : Memory) (list : Ptr)
      → length xs < fuel
      → Chain false m null list xs
      → (m' : Memory) × (list' r : Ptr) × (remove_from_list_ext fuel list name cmp_func m
          ≡ some ((list', r), m'))
        × First cmp_func name r xs
        × Removed m m' list' xs
  unfolding remove_from_list_ext remove
  remove_from_list_ext-Removed xs zero m list f ch = absurd (omega arith)
  remove_from_list_ext-Removed [] (suc fuel) m list f ch =
      let z : (list == null) ≡ true = ground arith in
      (m, list, null, rw z, missing, record { chain = ch; outside = λ q o. refl })
  remove_from_list_ext-Removed ((x, nm) ∷ xs) (suc fuel) m list f (e, nx, ox, c, at, n, bk, rest) =
      let nl : list ≢ null = λ z. nx (sym e ∙ z) in
      let at_l : m list ≡ some c = ap m e ∙ at in
      elim (Bool-cases (is_zero (cmp_func nm name))) [
        | inl g ↦ (
          m,
          c.next,
          list,
          rw (is_null list nl, ◌>>=◌, load-some list m c nl at_l, n, g),
          subst (λ t. First cmp_func name t ((x, nm) ∷ xs)) (sym e) (here g),
          record { chain = rw g (Chain-from m x null c.next xs rest); outside = λ q o. refl },
        )
        | inr g ↦
            let (m', r, run, d, k) =
              remove_walk xs fuel m list list c (omega arith) nl at_l
                (subst (λ t. Absent t xs) (sym e) ox)
                (subst (λ t. Chain false m t c.next xs) (sym e) rest) in
            (
              m',
              list,
              r,
              rw (is_null list nl, ◌>>=◌, load-some list m c nl at_l, n, g, run),
              later g d,
              record {
                chain = rw g (
                  e,
                  nx,
                  Absent-remove x xs ox,
                  k.cell,
                  sym (ap m' e) ∙ k.at,
                  k.same_name ∙ n,
                  tt,
                  subst (λ t. Chain false m' t k.cell.next (remove xs)) e k.chain,
                );
                outside = λ q o. k.outside q (λ z. o.0 (z ∙ e)) o.1;
              },
            )
      ]
