-- ===== src/Alist/Valid.antt =====
-- What holds of an array between the calls, and the reads and writes that it makes safe.
use tek_nap.Common.{
  ℕ, ◌<◌, ◌≡◌, ◌≢◌, refl, ◌⊎◌, Option, some, length, get_elem?, set, sym, length-set,
  get_elem?-set_self, get_elem?-set_ne, get_elem?-some, lt→ltb,
}
use tek_nap.Alist.Slots.{Item, Array, read, write}

-- The slots are those that are allocated, the items fill the first ones, and one more is free, but
-- in an array that was never used.
pub record Valid (a : Array) : Type 0 where
  pub sized : length a.slots ≡ a.total_max
  pub room : (a.max < a.total_max) ⊎ ((a.max ≡ 0) × (a.total_max ≡ 0))
  pub filled : (i : ℕ) → i < a.max → (item : Item) × (get_elem? a.slots i ≡ some (some item))

-- `a'` is `a` with `item` in slot `i`.
pub record Written (a a' : Array) (i : ℕ) (item : Option Item) : Type 0 where
  pub done : write a i item ≡ some a'
  pub same_max : a'.max ≡ a.max
  pub same_total : a'.total_max ≡ a.total_max
  pub same_length : length a'.slots ≡ length a.slots
  pub at : get_elem? a'.slots i ≡ some item
  pub others : (j : ℕ) → j ≢ i → get_elem? a'.slots j ≡ get_elem? a.slots j

pub write-Written :
    (a : Array) (i : ℕ) (item : Option Item)
    → i < length a.slots
    → (a' : Array) × Written a a' i item
unfolding write
write-Written a i item h = (
  record a { slots = set a.slots i item },
  record {
    done = rw (lt→ltb i (length a.slots) h);
    same_max = refl;
    same_total = refl;
    same_length = length-set a.slots i item;
    at = get_elem?-set_self a.slots i item h;
    others = λ j ne. get_elem?-set_ne a.slots item (λ e. ne (sym e));
  },
)

pub read-some :
    (a : Array) (i : ℕ)
    → i < length a.slots
    → (slot : Option Item) × (read a i ≡ some slot) × (get_elem? a.slots i ≡ some slot)
unfolding read
read-some a i h = let (x, e) = get_elem?-some a.slots i h in (x, e, e)
