-- ===== src/Tests/Lists.antt =====
-- source/list.c: a memory with a list of two structures, and a third one that is not in it.
use tek_nap.Common.{◌≡◌, refl, codes, arith, ◌∷◌, [], some, none, ◌==◌, if◌then◌else◌, true, false}
use tek_nap.LinkedList.Memory.{Ptr, null, Cell, Memory}
use tek_nap.LinkedList.Chain.{Items, Absent, Chain}
use tek_nap.LinkedList.Front.{Added, add_to_list_ext-Added}
use tek_nap.LinkedList.Find.{Found, First, find_in_list_ext-Found}
use tek_nap.LinkedList.Remove.{Removed, remove_from_list_ext-Removed}
use tek_nap.LinkedList.Sorted.{IsSorted, AllText, PutIn, add_to_list-IsSorted}
use tek_nap.LinkedList.{
  add_to_list, add_to_list_ext, list_stricmp, list_strnicmp, find_in_list_ext, remove_from_list_ext,
}
use tek_nap.Text.Case.{my_stricmp, fold}

abbrev cell_a : Cell
cell_a = record { name = codes "a"; next = 2; prev = 0 }

abbrev cell_b : Cell
cell_b = record { name = codes "b"; next = 0; prev = 0 }

abbrev cell_c : Cell
cell_c = record { name = codes "c"; next = 0; prev = 1 }

abbrev memory : Memory
memory p =
    if p == 1
    then some cell_a
    else if p == 2
    then some cell_c
    else if p == 3
    then some cell_b
    else none

abbrev items : Items
items = (1, codes "a") ∷ (2, codes "c") ∷ []

two_linked : Chain true memory null 1 items
two_linked = (
  refl,
  omega arith,
  (omega arith, tt),
  cell_a,
  refl,
  refl,
  refl,
  (refl, omega arith, tt, cell_c, refl, refl, refl, refl),
)

one_way : Chain false memory null 1 items
one_way = (
  refl,
  omega arith,
  (omega arith, tt),
  cell_a,
  refl,
  refl,
  tt,
  (refl, omega arith, tt, cell_c, refl, refl, tt, refl),
)

three-Absent : Absent 3 items
three-Absent = (omega arith, (omega arith, tt))

add_to_list_ext-Added_example :
    (m' : Memory) × (list' : Ptr) × (add_to_list_ext 3 1 3 true my_stricmp memory
      ≡ some (list', m'))
    × Added true my_stricmp memory m' list' (3, codes "b") items
add_to_list_ext-Added_example =
    add_to_list_ext-Added true my_stricmp 3 memory 1 3 cell_b items (omega arith) (omega arith) refl
      refl three-Absent two_linked

names_ok : AllText items
names_ok = (((omega arith, omega arith), tt), (((omega arith, omega arith), tt), tt))

sorted : IsSorted items
unfolding my_stricmp fold
sorted = (refl, tt)

add_to_list-IsSorted_example :
    (m' : Memory) × (list' : Ptr) × (ys : Items) × (add_to_list 3 1 3 memory ≡ some (list', m'))
    × Chain false m' null list' ys
    × IsSorted ys
    × PutIn (3, codes "b") items ys
add_to_list-IsSorted_example =
    add_to_list-IsSorted 3 memory 1 3 cell_b items (omega arith) (omega arith) refl three-Absent
      one_way names_ok sorted

find_in_list_ext-Found_example :
    (r : Ptr) × (find_in_list_ext 3 1 (codes "c") false list_strnicmp memory ≡ some (r, memory))
    × Found list_strnicmp (codes "c") false items r
find_in_list_ext-Found_example =
    find_in_list_ext-Found list_strnicmp (codes "c") false false items 3 memory 1 (omega arith)
      one_way

remove_from_list_ext-Removed_example :
    (m' : Memory) × (list' r : Ptr) × (remove_from_list_ext 3 1 (codes "C") list_stricmp memory
      ≡ some ((list', r), m'))
    × First list_stricmp (codes "C") r items
    × Removed list_stricmp (codes "C") memory m' list' items
remove_from_list_ext-Removed_example =
    remove_from_list_ext-Removed list_stricmp (codes "C") items 3 memory 1 (omega arith) one_way
