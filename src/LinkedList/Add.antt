-- ===== src/LinkedList/Add.antt =====
-- `add_to_list_ext` puts the structure in front of the first one that compares after it.
use tek_nap.Common.{
  ℕ, zero, suc, ◌<◌, ◌≡◌, ◌≢◌, refl, Bool, true, false, some, [], ◌∷◌, ◌∙◌, sym, subst, ap, length,
  ◌==◌, if◌then◌else◌, arith, Bool-cases, inl, inr,
}
use tek_nap.Common.Int.{is_pos}
use tek_nap.LinkedList.Memory.{Ptr, null, Cell, Memory, M, ◌>>=◌, load-some}
use tek_nap.LinkedList.{Compare, find_slot, finish}
use tek_nap.LinkedList.Link.{Linked, finish-Linked, is_null}
use tek_nap.LinkedList.Chain.{Item, Items, Absent, Back, Chain, Chain-cong}

-- The list with the item put in front of the first one that compares after it.
unfoldable pub insert : Compare → Item → Items → Items
insert cmp_func a [] = a ∷ []
insert cmp_func a (x ∷ xs) =
    let rest = insert cmp_func a xs in if is_pos (cmp_func x.1 a.1) then a ∷ x ∷ xs else x ∷ rest

pub Absent-insert :
    (cmp_func : Compare) (q : Ptr) (a : Item) (xs : Items)
    → q ≢ a.0
    → Absent q xs
    → Absent q (insert cmp_func a xs)
unfolding insert
Absent-insert cmp_func q a [] h o = (h, tt)
Absent-insert cmp_func q a (x ∷ xs) h o = ground (arith, Absent-insert cmp_func q a xs)

Linked-Chain :
    (dble : Bool) (m m' : Memory) (last tmp a : Ptr) (lc ac : Cell) (xs : Items)
    → Linked dble m m' last tmp a lc ac
    → Absent a xs
    → Absent last xs
    → Chain dble m last tmp xs
    → Chain dble m' a tmp xs
Linked-Chain dble m m' last tmp a lc ac [] w oa ol h = h
Linked-Chain dble m m' last tmp a lc ac ((x, nm) ∷ xs) w oa ol (e, ne, out, c, at, n, bk, rest) =
    let nt : tmp ≢ null = λ z. ne (sym e ∙ z) in
    let (c', at', n', next', bk') = w.at_tmp c nt (ap m e ∙ at) in
    (
      e,
      ne,
      out,
      c',
      sym (ap m' e) ∙ at',
      n' ∙ n,
      bk',
      subst (λ q. Chain dble m' x q xs) (sym next')
          (Chain-cong dble m m' x c.next xs
            (λ q no.
              w.others q (λ z. no (subst (λ t. Absent t xs) (sym z) ol.1))
                (λ z. no (subst (λ t. Absent t xs) (sym z) oa.1))
                (λ _ z. no (subst (λ t. Absent t xs) (sym (z ∙ e)) out)))
            rest),
    )

pub Back-next :
    (dble : Bool) (b q : Ptr) (c : Cell) → Back dble b c → Back dble b (record c { next = q })
Back-next true b q c h = h
Back-next false b q c h = tt

Chain-ne :
    (dble : Bool) (m : Memory) (b p q : Ptr) (xs : Items)
    → Chain dble m b p xs
    → Absent q xs
    → p ≢ null
    → q ≢ p
Chain-ne dble m b p q [] ch o n = absurd (n ch)
Chain-ne dble m b p q ((x, nm) ∷ xs) ch o n = λ e. o.0 (e ∙ ch.0)

module _ (dble : Bool) (cmp_func : Compare) (a : Ptr) (ac : Cell) (list : Ptr) (na : a ≢ null) where
  -- The run from the loop's state `last`, `tmp` to the end.
  abbrev pub rest_of : ℕ → (tmp last : Ptr) → M Ptr
  rest_of fuel tmp last = do
    slot ← find_slot fuel cmp_func ac.name tmp last
    finish dble list a slot

  -- What the run leaves of the part of the list from `l` on.
  pub record Done (m m' : Memory) (b l : Ptr) (lc : Cell) (xs : Items) : Type 0 where
    pub cell : Cell
    pub at : m' l ≡ some cell
    pub same_name : cell.name ≡ lc.name
    pub same_back : Back dble b cell
    pub chain : Chain dble m' l cell.next (insert cmp_func (a, ac.name) xs)
    pub outside : (q : Ptr) → q ≢ l → q ≢ a → Absent q xs → m' q ≡ m q

  Linked-Done :
      (m m' : Memory) (b l tmp : Ptr) (lc : Cell) (xs : Items)
      → Linked dble m m' l tmp a lc ac
      → Back dble b lc
      → Absent a xs
      → Absent l xs
      → Chain dble m l tmp xs
      → insert cmp_func (a, ac.name) xs ≡ (a, ac.name) ∷ xs
      → Done m m' b l lc xs
  Linked-Done m m' b l tmp lc xs w bk oa ol ch e =
      let (c, at, n, next, back) = w.at_add in
      record {
        cell = record lc { next = a };
        at = w.at_last;
        same_name = refl;
        same_back = Back-next dble b a lc bk;
        chain = rw e (
          refl,
          na,
          oa,
          c,
          at,
          n,
          back,
          subst (λ q. Chain dble m' a q xs) (sym next)
              (Linked-Chain dble m m' l tmp a lc ac xs w oa ol ch),
        );
        outside = λ q h1 h2 o. w.others q h1 h2 (Chain-ne dble m l tmp q xs ch o);
      }

  -- From a structure `l` that does not compare after the new one, the run ends and links the new
  -- structure into the part of the list behind `l`.
  pub walk :
      (xs : Items) (fuel : ℕ) (m : Memory) (b l : Ptr) (lc : Cell)
      → length xs < fuel
      → l ≢ null
      → l ≢ a
      → m l ≡ some lc
      → m a ≡ some ac
      → Back dble b lc
      → Absent a xs
      → Absent l xs
      → Chain dble m l lc.next xs
      → (m' : Memory) × (rest_of fuel lc.next l m ≡ some (list, m')) × Done m m' b l lc xs
  unfolding find_slot insert
  walk xs zero m b l lc f nl la at_l at_a bk oa ol ch = absurd (omega arith)
  walk [] (suc fuel) m b l lc f nl la at_l at_a bk oa ol ch =
      let (m', run, w) = finish-Linked m l a lc ac list nl na la at_l at_a dble lc.next (inl ch) in
      let z : (lc.next == null) ≡ true = ground arith in
      (m', rw (z, run), Linked-Done m m' b l lc.next lc [] w bk oa ol ch refl)
  walk ((x, nm) ∷ xs) (suc fuel) m b l lc f nl la at_l at_a bk oa ol
        (e, nx, ox, c, at, n, bc, rest) =
      let nt : lc.next ≢ null = λ z. nx (sym e ∙ z) in
      let at_t : m lc.next ≡ some c = ap m e ∙ at in
      elim (Bool-cases (is_pos (cmp_func nm ac.name))) [
        | inl p ↦
            let (m', run, w) =
              finish-Linked m l a lc ac list nl na la at_l at_a dble lc.next
                (inr (c, nt, λ z. ol.0 (sym z ∙ e), λ z. oa.0 (sym z ∙ e), at_t)) in
            (
              m',
              rw (is_null lc.next nt, ◌>>=◌, load-some lc.next m c nt at_t, n, p, run),
              Linked-Done m m' b l lc.next lc ((x, nm) ∷ xs) w bk oa ol
                  (e, nx, ox, c, at, n, bc, rest) (rw p),
            )
        | inr p ↦
            let (m', run, d) =
              walk xs fuel m l lc.next c (omega arith) nt (λ z. oa.0 (sym z ∙ e)) at_t at_a bc oa.1
                (subst (λ t. Absent t xs) (sym e) ox)
                (subst (λ t. Chain dble m t c.next xs) (sym e) rest) in
            (
              m',
              rw (is_null lc.next nt, ◌>>=◌, load-some lc.next m c nt at_t, n, p, run),
              record {
                cell = lc;
                at = d.outside l (λ z. ol.0 (z ∙ e)) la ol.1 ∙ at_l;
                same_name = refl;
                same_back = bk;
                chain = rw p (
                  e,
                  nx,
                  Absent-insert cmp_func x (a, ac.name) xs (λ z. oa.0 (sym z)) ox,
                  d.cell,
                  sym (ap m' e) ∙ d.at,
                  d.same_name ∙ n,
                  d.same_back,
                  subst (λ t. Chain dble m' t d.cell.next (insert cmp_func (a, ac.name) xs)) e
                      d.chain,
                );
                outside = λ q h1 h2 o. d.outside q (λ z. o.0 (z ∙ e)) h2 o.1;
              },
            )
      ]
