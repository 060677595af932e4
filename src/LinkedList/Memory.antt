-- ===== src/LinkedList/Memory.antt =====
-- The memory that holds the structures of source/list.c, and commands that read and write it.
use tek_nap.Common.{ℕ, ◌≡◌, ◌≢◌, Bytes, Option, none, some, ◌==◌, if◌then◌else◌, arith}

abbrev pub Ptr : Type 0
Ptr = ℕ

abbrev pub null : Ptr
null = 0

-- `List`: the members that the routines know of.
pub record Cell : Type 0 where
  pub name : Bytes
  pub next : Ptr
  pub prev : Ptr

-- What is stored at an address, if a structure is.
abbrev pub Memory : Type 0
Memory = Ptr → Option Cell

-- `none` is a fault, a read through a null or a dangling pointer, or a loop that ran out of fuel.
abbrev pub M : Type 0 → Type 0
M A = Memory → Option (A × Memory)

abbrev pub pure : {A : Type 0} → A → M A
pure a m = some (a, m)

infixl 5 ◌>>=◌ ◌>>◌
abbrev pub ◌>>=◌ : {A B : Type 0} → M A → (A → M B) → M B
◌>>=◌ c f m = elim (c m) [ none ↦ none | some (a, m') ↦ f a m' ]

abbrev pub ◌>>◌ : {B : Type 0} → M (Unit {0}) → M B → M B
c >> k = c >>= λ _. k

unfoldable pub write : Memory → Ptr → Cell → Memory
write m p c q = if q == p then some c else m q

-- `*p`
unfoldable pub load : Ptr → M Cell
load p m = if p == null then none else elim (m p) [ none ↦ none | some c ↦ some (c, m) ]

store : Ptr → Cell → M (Unit {0})
store p c m = some (tt, write m p c)

-- `p->next = q`
unfoldable pub set_next : Ptr → Ptr → M (Unit {0})
unfolding store
set_next p q = do c ← load p; store p (record c { next = q })

-- `p->prev = q`
unfoldable pub set_prev : Ptr → Ptr → M (Unit {0})
unfolding store
set_prev p q = do c ← load p; store p (record c { prev = q })

pub load-some : (p : Ptr) (m : Memory) (c : Cell) → p ≢ null → m p ≡ some c → load p m ≡ some (c, m)
unfolding load
load-some p m c h e = ground arith

pub set_next-some :
    (p q : Ptr) (m : Memory) (c : Cell)
    → p ≢ null
    → m p ≡ some c
    → set_next p q m ≡ some (tt, write m p (record c { next = q }))
unfolding set_next
set_next-some p q m c h e = rw (load-some p m c h e, ◌>>=◌)

pub set_prev-some :
    (p q : Ptr) (m : Memory) (c : Cell)
    → p ≢ null
    → m p ≡ some c
    → set_prev p q m ≡ some (tt, write m p (record c { prev = q }))
unfolding set_prev
set_prev-some p q m c h e = rw (load-some p m c h e, ◌>>=◌)

pub write_self : (m : Memory) (p : Ptr) (c : Cell) → write m p c p ≡ some c
unfolding write
write_self m p c = ground arith

pub write_ne : (m : Memory) (p q : Ptr) (c : Cell) → q ≢ p → write m p c q ≡ m q
unfolding write
write_ne m p q c h = ground arith
