-- ===== src/LinkedList/Front.antt =====
-- `add_to_list_ext` as a whole: the new structure is the first one, or goes behind the first one.
use tek_nap.Common.{
  ℕ, zero, suc, ◌<◌, ◌≡◌, ◌≢◌, refl, Bytes, Bool, true, false, not, ◌&&◌, some, [], ◌∷◌, ◌∙◌, sym,
  subst, ap, length, ◌==◌, arith, Bool-cases, inl, inr,
}
use tek_nap.Common.Int.{is_pos}
use tek_nap.LinkedList.Memory.{
  Ptr, null, Cell, Memory, ◌>>=◌, write, write_self, write_ne, load-some, set_next-some,
  set_prev-some,
}
use tek_nap.LinkedList.{Compare, find_slot, link_in, finish, add_to_list_ext}
use tek_nap.LinkedList.Link.{is_null}
use tek_nap.LinkedList.Chain.{Item, Items, Absent, Back, Chain, Chain-write}
use tek_nap.LinkedList.Add.{insert, walk, Back-next, Absent-insert}

-- The run ended well: the memory holds the list with the item, and is as it was elsewhere.
pub record Added (dble : Bool) (cmp_func : Compare) (m m' : Memory) (list' : Ptr) (a : Item)
    (xs : Items) : Type 0 where
  pub chain : Chain dble m' null list' (insert cmp_func a xs)
  pub outside : (q : Ptr) → q ≢ a.0 → Absent q xs → m' q ≡ m q

module _ (cmp_func : Compare) (a : Ptr) (ac : Cell) (na : a ≢ null) where
  front_nil :
      (dble : Bool) (m : Memory) (list : Ptr)
      → list ≡ null
      → m a ≡ some ac
      → Back dble null ac
      → (m' : Memory) × (finish dble list a (null, list) m ≡ some (a, m'))
        × Added dble cmp_func m m' a (a, ac.name) []
  unfolding finish link_in insert
  front_nil dble m list e at_a bk =
      let m' : Memory = write m a (record ac { next = list }) in
      let z : (dble && not (list == null)) ≡ false = ground arith in
      (
        m',
        rw (z, ◌>>=◌, set_next-some a list m ac na at_a),
        record {
          chain = (
            refl,
            na,
            tt,
            record ac { next = list },
            write_self m a _,
            refl,
            Back-next dble null list ac bk,
            e,
          );
          outside = λ q h o. write_ne m a q _ h;
        },
      )

  -- The new structure goes in front of the first one, whose back pointer is set in a double list.
  front_single :
      (m : Memory) (list : Ptr) (xs : Items)
      → m a ≡ some ac
      → Absent a xs
      → insert cmp_func (a, ac.name) xs ≡ (a, ac.name) ∷ xs
      → Chain false m null list xs
      → (m' : Memory) × (finish false list a (null, list) m ≡ some (a, m'))
        × Added false cmp_func m m' a (a, ac.name) xs
  unfolding finish link_in
  front_single m list xs at_a oa e ch =
      let m' : Memory = write m a (record ac { next = list }) in
      (
        m',
        rw (finish, link_in, ◌>>=◌, set_next-some a list m ac na at_a),
        record {
          chain = rw e (
            refl,
            na,
            oa,
            record ac { next = list },
            write_self m a _,
            refl,
            tt,
            Chain-single list m' xs (Chain-write false m null list xs a _ oa ch),
          );
          outside = λ q h o. write_ne m a q _ h;
        },
      )
    where
      Chain-single :
          (p : Ptr) (g : Memory) (ys : Items) → Chain false g null p ys → Chain false g a p ys
      Chain-single p g [] h = h
      Chain-single p g (y ∷ ys) h = h

  front_double :
      (m : Memory) (list : Ptr) (x : Ptr) (nm : Bytes) (xs : Items)
      → m a ≡ some ac
      → Back true null ac
      → Absent a ((x, nm) ∷ xs)
      → insert cmp_func (a, ac.name) ((x, nm) ∷ xs) ≡ (a, ac.name) ∷ (x, nm) ∷ xs
      → Chain true m null list ((x, nm) ∷ xs)
      → (m' : Memory) × (finish true list a (null, list) m ≡ some (a, m'))
        × Added true cmp_func m m' a (a, ac.name) ((x, nm) ∷ xs)
  unfolding finish link_in
  front_double m list x nm xs at_a bk oa e (p, nx, ox, c, at, n, bc, rest) =
      let nl : list ≢ null = λ z. nx (sym p ∙ z) in
      let al : a ≢ list = λ z. oa.0 (z ∙ p) in
      let c1 : Cell = record c { prev = a } in
      let m1 : Memory = write m list c1 in
      let m2 : Memory = write m1 a (record ac { next = list }) in
      let at_a1 : m1 a ≡ some ac = write_ne m list a c1 al ∙ at_a in
      let rest1 : Chain true m1 x c.next xs =
        Chain-write true m x c.next xs list c1 (subst (λ t. Absent t xs) (sym p) ox) rest in
      (
        m2,
        rw (
          is_null list nl,
          set_prev-some list a m c nl (ap m p ∙ at),
          ◌>>=◌,
          set_next-some a list m1 ac na at_a1,
        ),
        record {
          chain = rw e (
            refl,
            na,
            oa,
            record ac { next = list },
            write_self m1 a _,
            refl,
            bk,
            (
              p,
              nx,
              ox,
              c1,
              write_ne m1 a x _ (λ z. oa.0 (sym z)) ∙ ap m1 (sym p) ∙ write_self m list c1,
              n,
              refl,
              Chain-write true m1 x c.next xs a _ oa.1 rest1,
            ),
          );
          outside = λ q h o. write_ne m1 a q _ h ∙ write_ne m list q c1 (λ z. o.0 (z ∙ p));
        },
      )

  front :
      (dble : Bool) (m : Memory) (list : Ptr) (x : Ptr) (nm : Bytes) (xs : Items)
      → m a ≡ some ac
      → Back dble null ac
      → Absent a ((x, nm) ∷ xs)
      → insert cmp_func (a, ac.name) ((x, nm) ∷ xs) ≡ (a, ac.name) ∷ (x, nm) ∷ xs
      → Chain dble m null list ((x, nm) ∷ xs)
      → (m' : Memory) × (finish dble list a (null, list) m ≡ some (a, m'))
        × Added dble cmp_func m m' a (a, ac.name) ((x, nm) ∷ xs)
  front true m list x nm xs at_a bk oa e ch = front_double m list x nm xs at_a bk oa e ch
  front false m list x nm xs at_a bk oa e ch = front_single m list ((x, nm) ∷ xs) at_a oa e ch

-- `add_to_list_ext`, with more fuel than there are structures, keeps a well-formed list and puts the
-- new structure in front of the first one that compares after it, writing to no other structure;
-- the list may be linked both ways, and then the new structure's `prev` must be null before.
pub add_to_list_ext-Added :
    (dble : Bool) (cmp_func : Compare) (fuel : ℕ) (m : Memory) (list a : Ptr) (ac : Cell)
    (xs : Items)
    → length xs < fuel
    → a ≢ null
    → m a ≡ some ac
    → Back dble null ac
    → Absent a xs
    → Chain dble m null list xs
    → (m' : Memory) × (list' : Ptr) × (add_to_list_ext fuel list a dble cmp_func m
        ≡ some (list', m'))
      × Added dble cmp_func m m' list' (a, ac.name) xs
unfolding add_to_list_ext insert find_slot
add_to_list_ext-Added dble cmp_func zero m list a ac xs f na at_a bk oa ch = absurd (omega arith)
add_to_list_ext-Added dble cmp_func (suc fuel) m list a ac [] f na at_a bk oa ch =
    let (m', run, w) = front_nil cmp_func a ac na dble m list ch at_a bk in
    let z : (list == null) ≡ true = ground arith in
    (m', a, rw (load-some a m ac na at_a, ◌>>=◌, z, run), w)
add_to_list_ext-Added dble cmp_func (suc fuel) m list a ac ((x, nm) ∷ xs) f na at_a bk oa
      (p, nx, ox, c, at, n, bc, rest) =
    let nl : list ≢ null = λ z. nx (sym p ∙ z) in
    let at_l : m list ≡ some c = ap m p ∙ at in
    elim (Bool-cases (is_pos (cmp_func nm ac.name))) [
      | inl g ↦
          let (m', run, w) =
            front cmp_func a ac na dble m list x nm xs at_a bk oa (rw g)
              (p, nx, ox, c, at, n, bc, rest) in
          (
            m',
            a,
            rw (
              load-some a m ac na at_a,
              ◌>>=◌,
              is_null list nl,
              load-some list m c nl at_l,
              n,
              g,
              run,
            ),
            w,
          )
      | inr g ↦
          let (m', run, d) =
            walk dble cmp_func a ac list na xs fuel m null list c (omega arith) nl
              (λ z. oa.0 (sym z ∙ p)) at_l at_a bc oa.1 (subst (λ t. Absent t xs) (sym p) ox)
              (subst (λ t. Chain dble m t c.next xs) (sym p) rest) in
          (
            m',
            list,
            rw (
              load-some a m ac na at_a,
              ◌>>=◌,
              is_null list nl,
              load-some list m c nl at_l,
              n,
              g,
              run,
            ),
            record {
              chain = rw g (
                p,
                nx,
                Absent-insert cmp_func x (a, ac.name) xs (λ z. oa.0 (sym z)) ox,
                d.cell,
                sym (ap m' p) ∙ d.at,
                d.same_name ∙ n,
                d.same_back,
                subst (λ t. Chain dble m' t d.cell.next (insert cmp_func (a, ac.name) xs)) p
                    d.chain,
              );
              outside = λ q h o. d.outside q (λ z. o.0 (z ∙ p)) h o.1;
            },
          )
    ]
