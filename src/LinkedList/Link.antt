-- ===== src/LinkedList/Link.antt =====
-- The pointer writes of `add_to_list_ext`, and what they leave at each address.
use tek_nap.Common.{
  ◌≡◌, ◌≢◌, refl, Bool, true, false, some, ◌∙◌, sym, subst, ◌==◌, arith, inl, inr, ◌⊎◌,
}
use tek_nap.LinkedList.Memory.{
  Ptr, null, Cell, Memory, ◌>>=◌, write, write_self, write_ne, set_next-some, set_prev-some,
}
use tek_nap.LinkedList.{finish}
use tek_nap.LinkedList.Chain.{Back}

-- What linking `a` in between `last` and `tmp` leaves at each address.
pub record Linked (dble : Bool) (m m' : Memory) (last tmp a : Ptr) (lc ac : Cell) : Type 0 where
  pub at_last : m' last ≡ some (record lc { next = a })
  pub at_add : (c : Cell) × (m' a ≡ some c) × (c.name ≡ ac.name) × (c.next ≡ tmp) × Back dble last c
  pub at_tmp :
      (tc : Cell)
      → tmp ≢ null
      → m tmp ≡ some tc
      → (c : Cell) × (m' tmp ≡ some c) × (c.name ≡ tc.name) × (c.next ≡ tc.next) × Back dble a c
  pub others : (q : Ptr) → q ≢ last → q ≢ a → (tmp ≢ null → q ≢ tmp) → m' q ≡ m q

pub is_null : (p : Ptr) → p ≢ null → (p == null) ≡ false
is_null p h = ground arith

module _ (m : Memory) (last a : Ptr) (lc ac : Cell) (list : Ptr) (nl : last ≢ null) (na : a ≢ null)
    (la : last ≢ a) (at_l : m last ≡ some lc) (at_a : m a ≡ some ac) where
  run-single :
      (tmp : Ptr)
      → finish false list a (last, tmp) m
        ≡ some (list, write (write m last (record lc { next = a })) a (record ac { next = tmp }))
  unfolding finish
  run-single tmp =
      let m1 = write m last (record lc { next = a }) in
      let at_a1 : m1 a ≡ some ac = write_ne m last a _ (λ e. la (sym e)) ∙ at_a in
      rw (
        is_null last nl,
        set_next-some last a m lc nl at_l,
        ◌>>=◌,
        set_next-some a tmp m1 ac na at_a1,
      )

  run-end :
      finish true list a (last, null) m
      ≡ some (
        list,
        write
            (write (write m last (record lc { next = a })) a (record ac { prev = last }))
            a
            (record ac { prev = last; next = null }),
      )
  unfolding finish
  run-end =
      let m1 = write m last (record lc { next = a }) in
      let ac2 = record ac { prev = last } in
      let m2 = write m1 a ac2 in
      let at_a1 : m1 a ≡ some ac = write_ne m last a _ (λ e. la (sym e)) ∙ at_a in
      rw (
        is_null last nl,
        set_next-some last a m lc nl at_l,
        ◌>>=◌,
        set_prev-some a last m1 ac na at_a1,
        set_next-some a null m2 ac2 na (write_self m1 a ac2),
      )

  run-double :
      (tmp : Ptr) (tc : Cell)
      → tmp ≢ null
      → tmp ≢ last
      → tmp ≢ a
      → m tmp ≡ some tc
      → finish true list a (last, tmp) m
        ≡ some (
          list,
          write
              (write
                (write (write m last (record lc { next = a })) a (record ac { prev = last }))
                tmp
                (record tc { prev = a }))
              a
              (record ac { prev = last; next = tmp }),
        )
  unfolding finish
  run-double tmp tc nt tl ta at_t =
      let m1 = write m last (record lc { next = a }) in
      let ac2 = record ac { prev = last } in
      let m2 = write m1 a ac2 in
      let m3 = write m2 tmp (record tc { prev = a }) in
      let at_a1 : m1 a ≡ some ac = write_ne m last a _ (λ e. la (sym e)) ∙ at_a in
      let at_t2 : m2 tmp ≡ some tc = write_ne m1 a tmp _ ta ∙ write_ne m last tmp _ tl ∙ at_t in
      let at_a3 : m3 a ≡ some ac2 = write_ne m2 tmp a _ (λ e. ta (sym e)) ∙ write_self m1 a ac2 in
      rw (
        is_null last nl,
        set_next-some last a m lc nl at_l,
        ◌>>=◌,
        set_prev-some a last m1 ac na at_a1,
        is_null tmp nt,
        set_prev-some tmp a m2 tc nt at_t2,
        set_next-some a tmp m3 ac2 na at_a3,
      )

  -- Where the search loop stopped: behind the last structure, or at one that the memory holds.
  abbrev pub Stop : Ptr → Type 0
  Stop tmp =
      (tmp ≡ null) ⊎ ((tc : Cell) × (tmp ≢ null) × (tmp ≢ last) × (tmp ≢ a) × (m tmp ≡ some tc))

  pub finish-Linked :
      (dble : Bool) (tmp : Ptr)
      → Stop tmp
      → (m' : Memory) × (finish dble list a (last, tmp) m ≡ some (list, m'))
        × Linked dble m m' last tmp a lc ac
  unfolding write
  finish-Linked false tmp (inl e) = (
    _,
    run-single tmp,
    record {
      at_last = ground arith;
      at_add = (record ac { next = tmp }, ground arith, refl, refl, tt);
      at_tmp = λ tc n e'. absurd (n e);
      others = λ q h1 h2 h3. ground arith;
    },
  )
  finish-Linked false tmp (inr (tc, nt, tl, ta, at_t)) = (
    _,
    run-single tmp,
    record {
      at_last = ground arith;
      at_add = (record ac { next = tmp }, ground arith, refl, refl, tt);
      at_tmp = λ tc n e'. (tc, ground arith, refl, refl, tt);
      others = λ q h1 h2 h3. ground arith;
    },
  )
  finish-Linked true tmp (inl e) =
      let m2 = write (write m last (record lc { next = a })) a (record ac { prev = last }) in
      let m3 = write m2 a (record ac { prev = last; next = null }) in
      (
        m3,
        subst (λ t. finish true list a (last, t) m ≡ some (list, m3)) (sym e) run-end,
        record {
          at_last = ground arith;
          at_add = (record ac { prev = last; next = null }, ground arith, refl, sym e, refl);
          at_tmp = λ tc n e'. absurd (n e);
          others = λ q h1 h2 h3. ground arith;
        },
      )
  finish-Linked true tmp (inr (tc, nt, tl, ta, at_t)) = (
    _,
    run-double tmp tc nt tl ta at_t,
    record {
      at_last = ground arith;
      at_add = (record ac { prev = last; next = tmp }, ground arith, refl, refl, refl);
      at_tmp = λ tc' n e'. (record tc { prev = a }, ground arith, ground arith, ground arith, refl);
      others = λ q h1 h2 h3. let h = h3 nt in ground arith;
    },
  )
