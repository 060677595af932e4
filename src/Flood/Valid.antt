-- ===== src/Flood/Valid.antt =====
-- `check_flooding` comes to an end inside of its table, and keeps it well formed.
use tek_nap.Common.{
  ℕ, zero, suc, ◌+◌, ◌%◌, ◌≤◌, ◌<◌, ◌≡◌, ◌≢◌, refl, ◌⊎◌, inl, inr, List, [], ◌∷◌, ◌==◌, Bool, true,
  false, not, ◌&&◌, Option, none, some, arith, sym, ◌∙◌, Bool-cases, length, get_elem?, set,
  replicate, get_elem?-some, length-set, length-replicate, Option-cases, Bytes, ==_iff,
}
use native.Mathlib.Nat.{mod-eq_of_lt, mod_self, mod-lt}
use native.Mathlib.Decide.{dec_lt}
use tek_nap.Common.Int.{ℤ, pos}
use tek_nap.Flood.Table.{FloodType, Flooding, Flood, done, blank, find_user, is_user, type_is}
use tek_nap.Flood.{
  Call, resize_table, next_place, first_message, add_user, count_message, look_up, search_table,
  is_none, check_flooding,
}

-- The table has `users` entries and the place is one of them, or there is no table yet.
pub record Valid (s : Flood) : Type 0 where
  pub table :
      ((s.users ≡ 0) × (s.place ≡ 0))
      ⊎ ((flood : List Flooding) × (s.flood ≡ some flood)
          × (length flood ≡ s.users)
          × (s.place < s.users))

step-mod :
    (p u : ℕ) → p < u → ((p + 1 ≡ u) × ((p + 1) % u ≡ 0)) ⊎ ((p + 1 < u) × ((p + 1) % u ≡ p + 1))
step-mod p u h = elim (dec_lt (p + 1) u) [
  | yes l ↦ inr (l, mod-eq_of_lt l)
  | no n ↦ let e : p + 1 ≡ u = omega arith in inl (e, rw e (mod_self u))
]

not_both : (x y : Bool) → not x && not y ≡ true → y ≡ true → ⊥
not_both x y h e = ground arith

-- From a place of the table the loop is back at `old_pos` within a round for each entry.
next_place-some :
    (fuel users old_pos : ℕ) (flood : List Flooding) (place : ℕ)
    → length flood ≡ users
    → place < users
    → old_pos < users
    → (old_pos ≤ place → old_pos + users ≤ place + fuel)
    → (place < old_pos → old_pos ≤ place + fuel)
    → (p : ℕ) × (next_place fuel users old_pos flood place ≡ done p) × (p < users)
unfolding next_place
next_place-some zero users old flood place l h o a b = elim (dec_lt place old) [
  | yes p ↦ absurd (omega (arith, b p))
  | no p ↦ absurd (omega (arith, a (omega arith)))
]
next_place-some (suc fuel) users old flood place l h o a b =
    let next : ℕ = (place + 1) % users in
    let lt : next < users = mod-lt (place + 1) (omega arith) in
    let (e, at) = get_elem?-some flood next (omega arith) in
    elim (Bool-cases (not (e.floods == 0) && not (next == old))) [
      | inr stop ↦ (next, rw (at, stop), lt)
      | inl go ↦
          let ne : next ≢ old =
            λ z. not_both (e.floods == 0) (next == old) go ((==_iff next old).1 z) in
          let w = step-mod place users h in
          let (p, run, r) =
            next_place-some fuel users old flood next l lt o (λ q. around w a ne q)
              (λ q. ahead w a b ne q) in
          (p, rw (at, go, run), r)
    ]
  where
    around :
        {n : ℕ}
        → ((place + 1 ≡ users) × (n ≡ 0)) ⊎ ((place + 1 < users) × (n ≡ place + 1))
        → (old ≤ place → old + users ≤ place + suc fuel)
        → n ≢ old
        → old ≤ n
        → old + users ≤ n + fuel
    around (inl (e, z)) a ne q = absurd (ne (omega arith))
    around (inr (l, e)) a ne q =
        let p : old ≤ place =
          (let d : old ≢ place + 1 = (λ z. ne (omega arith)) in omega (arith, d)) in
        omega (arith, a p)

    ahead :
        {n : ℕ}
        → ((place + 1 ≡ users) × (n ≡ 0)) ⊎ ((place + 1 < users) × (n ≡ place + 1))
        → (old ≤ place → old + users ≤ place + suc fuel)
        → (place < old → old ≤ place + suc fuel)
        → n ≢ old
        → n < old
        → old ≤ n + fuel
    ahead (inl (e, z)) a b ne q = omega (arith, a (omega arith))
    ahead (inr (l, e)) a b ne q = omega (arith, b (omega arith))

find_user-lt :
    (nick : Bytes) (chan : Option Bytes) (type : FloodType) (server : Option ℕ) (es : List Flooding)
    (i j : ℕ)
    → find_user nick chan type server es i ≡ some j
    → j < i + length es
unfolding find_user
find_user-lt nick chan type server [] i j h = cc
find_user-lt nick chan type server (e ∷ es) i j h =
    elim (Bool-cases (is_user nick chan type server e)) [
      | inl y ↦ let z : i ≡ j = cc (rw y at h) in omega arith
      | inr n ↦ omega (arith, find_user-lt nick chan type server es (i + 1) j (rw n at h))
    ]

find_user-blank :
    (nick : Bytes) (chan : Option Bytes) (type : FloodType) (server : Option ℕ) (n i : ℕ)
    → find_user nick chan type server (replicate n blank) i ≡ none
unfolding find_user is_user blank type_is
find_user-blank nick chan type server zero i = refl
find_user-blank nick chan type server (suc n) i = find_user-blank nick chan type server n (i + 1)

get_elem?-replicate : (n i : ℕ) → i < n → get_elem? (replicate n blank) i ≡ some blank
get_elem?-replicate zero i h = absurd (omega arith)
get_elem?-replicate (suc n) zero h = refl
get_elem?-replicate (suc n) (suc i) h = get_elem?-replicate n i (omega arith)

next_place-blank :
    (fuel n old place : ℕ)
    → 0 < n
    → (p : ℕ) × (next_place (suc fuel) n old (replicate n blank) place ≡ done p) × (p < n)
unfolding next_place blank
next_place-blank fuel n old place h =
    let lt : (place + 1) % n < n = mod-lt (place + 1) h in
    ((place + 1) % n, rw (get_elem?-replicate n ((place + 1) % n) lt), lt)

-- The user's branch, on a table of the right size with a place to go to.
search_table-some :
    (fuel : ℕ) (c : Call) (s : Flood) (flood : List Flooding)
    → s.flood ≡ some flood
    → length flood ≡ s.users
    → (p : ℕ) × (next_place fuel s.users s.place flood s.place ≡ done p) × (p < s.users)
    → (find_user c.nick c.chan c.type c.server flood 0 ≡ none) ⊎ (s.place < s.users)
    → (s' : Flood) × (r : ℤ) × (search_table fuel c s ≡ done (s', r))
      × Valid s'
      × (s'.users ≡ s.users)
unfolding search_table look_up add_user
search_table-some fuel c s flood q l (p, run, lt) or =
    elim (Option-cases (find_user c.nick c.chan c.type c.server flood 0)) [
      | inl e ↦
          let (x, at) = get_elem?-some flood p (omega arith) in
          let t : List Flooding = set flood p (first_message c x) in
          (
            record s { place = p; flood = some t },
            pos 1,
            rw (q, e, run, at),
            record { table = inr (t, refl, length-set flood p (first_message c x) ∙ l, lt) },
            refl,
          )
      | inr (i, e) ↦
          let li : i < 0 + length flood = find_user-lt c.nick c.chan c.type c.server flood 0 i e in
          let (x, at) = get_elem?-some flood i (omega arith) in
          let u = count_message c x in
          let t : List Flooding = set flood i u.0 in
          (
            record s { flood = some t },
            u.1,
            rw (q, e, at),
            record {
              table = inr (
                t,
                refl,
                length-set flood i u.0 ∙ l,
                elim or [ inl z ↦ absurd (cc z) | inr z ↦ z ],
              );
            },
            refl,
          )
    ]

-- `check_flooding`, on a well-formed state, with the variable FLOOD_USERS above zero and more fuel
-- than its value, comes to an end and reads no entry outside of its table, whatever the sizes of
-- the table before and after, and leaves a well-formed state; connected, the table then has that
-- many entries.
pub check_flooding-Valid :
    (fuel : ℕ) (c : Call) (s : Flood)
    → Valid s
    → c.flood_users ≢ 0
    → c.flood_users < fuel
    → (s' : Flood) × (r : ℤ) × (check_flooding fuel c s ≡ done (s', r))
      × Valid s'
      × (is_none c.server ≡ false → s'.users ≡ c.flood_users)
unfolding check_flooding resize_table
check_flooding-Valid zero c s v n f = absurd (omega arith)
check_flooding-Valid (suc fuel) c s v n f = elim (Bool-cases (is_none c.server)) [
  | inl off ↦ (s, pos 0, rw off, v, λ on. cc)
  | inr on ↦
      let z : (c.flood_users == 0) ≡ false = ground arith in
      let (s', r, run, v', u) = connected in (s', r, rw (on, z, run), v', λ _. u)
]
  where
    connected :
        (s' : Flood) × (r : ℤ) × (search_table (suc fuel) c (resize_table c.flood_users s)
          ≡ done (s', r))
        × Valid s'
        × (s'.users ≡ c.flood_users)
    connected = elim (Bool-cases (s.users == c.flood_users)) [
      | inl y ↦
          let e : s.users ≡ c.flood_users = ground arith in
          elim v.table [
            | inl k ↦ absurd (n (sym e ∙ k.0))
            | inr (flood, q, l, lt) ↦
                let np =
                  next_place-some (suc fuel) s.users s.place flood s.place l lt lt
                    (λ h. omega arith) (λ h. omega arith) in
                let (s', r, run, v', u) = search_table-some (suc fuel) c s flood q l np (inr lt) in
                (s', r, rw (y, run), v', u ∙ e)
          ]
      | inr d ↦
          let s1 : Flood = record s {
            users = c.flood_users;
            flood = some (replicate c.flood_users blank);
          } in
          let np = next_place-blank fuel c.flood_users s.place s.place (omega (arith, n)) in
          let (s', r, run, v', u) =
            search_table-some (suc fuel) c s1 (replicate c.flood_users blank) refl
              (length-replicate c.flood_users blank) np
              (inl (find_user-blank c.nick c.chan c.type c.server c.flood_users 0)) in
          (s', r, rw (d, run), v', u)
    ]
