-- ===== src/LinkedList/Chain.antt =====
-- A well-formed list in memory, as the sequence of its addresses and names.
use tek_nap.Common.{◌≡◌, ◌≢◌, refl, Bytes, Bool, true, false, some, List, [], ◌∷◌, ◌∙◌, sym, subst}
use tek_nap.LinkedList.Memory.{Ptr, null, Cell, Memory, write, write_ne}

abbrev pub Item : Type 0
Item = Ptr × Bytes

abbrev pub Items : Type 0
Items = List Item

-- The address stands nowhere in the list.
abbrev pub Absent : Ptr → Items → Type 0
Absent p [] = Unit
Absent p ((x, nm) ∷ xs) = (p ≢ x) × Absent p xs

-- In a doubly linked list the cell points back to `b`.
abbrev pub Back : Bool → Ptr → Cell → Type 0
Back true b c = c.prev ≡ b
Back false b c = Unit

-- From `p` on the memory holds the items, each at an address of its own, up to a null pointer.
-- `b` is the address of the structure before `p`.
abbrev pub Chain : Bool → Memory → (b p : Ptr) → Items → Type 0
Chain dble m b p [] = p ≡ null
Chain dble m b p ((x, nm) ∷ xs) =
    (p ≡ x)
    × (x ≢ null)
    × Absent x xs
    × (c : Cell) × (m x ≡ some c)
    × (c.name ≡ nm)
    × Back dble b c
    × Chain dble m x c.next xs

pub Chain-cong :
    (dble : Bool) (m m' : Memory) (b p : Ptr) (xs : Items)
    → ((q : Ptr) → ¬ Absent q xs → m' q ≡ m q)
    → Chain dble m b p xs
    → Chain dble m' b p xs
Chain-cong dble m m' b p [] same h = h
Chain-cong dble m m' b p ((x, nm) ∷ xs) same (e, ne, out, c, at, n, bk, rest) = (
  e,
  ne,
  out,
  c,
  same x (λ o. o.0 refl) ∙ at,
  n,
  bk,
  Chain-cong dble m m' x c.next xs (λ q o. same q (λ o'. o o'.1)) rest,
)

-- A write outside of the list leaves it as it is.
pub Chain-write :
    (dble : Bool) (m : Memory) (b p : Ptr) (xs : Items) (a : Ptr) (c : Cell)
    → Absent a xs
    → Chain dble m b p xs
    → Chain dble (write m a c) b p xs
Chain-write dble m b p xs a c out h =
    Chain-cong dble m (write m a c) b p xs
      (λ q no. write_ne m a q c (λ e. no (subst (λ t. Absent t xs) (sym e) out))) h
