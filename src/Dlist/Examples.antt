-- ===== src/Dlist/Examples.antt =====
-- The theorems of Dlist at a concrete heap.
use libshl.Base.{[], arith, false, if◌then◌else◌, length, refl, some, suc, ℕ, ◌==◌, ◌∷◌, ◌≡◌}
use libshl.Dlist.{Heap, dlist_link, dlist_linked, dlist_unlink, for_each, for_each_reverse, null}
use libshl.Dlist.Link.{dlist_link_lem}
use libshl.Dlist.Reverse.{backward, for_each-for_each_reverse}
use libshl.Dlist.Ring.{IsList}
use libshl.Dlist.Unlink.{dlist_unlink_lem}

-- A list with its head at 1 and the elements 2 and 3.
abbrev two_elements : Heap
two_elements = record {
  next = λ p. if p == 1 then 2 else if p == 2 then 3 else if p == 3 then 1 else 0;
  prev = λ p. if p == 1 then 3 else if p == 2 then 1 else if p == 3 then 2 else 0;
}

two_elements-IsList : IsList two_elements 1 (2 ∷ 3 ∷ [])
two_elements-IsList = record {
  chain = (refl, refl, (refl, refl, (refl, refl)));
  distinct = ((omega arith, (omega arith, tt)), ((omega arith, tt), (tt, tt)));
  not_null = (omega arith, (omega arith, (omega arith, tt)));
}

for_each-for_each_reverse_example :
    (for_each (suc (length {A = ℕ} (2 ∷ 3 ∷ []))) 1 two_elements ≡ some (2 ∷ 3 ∷ []))
    × (for_each_reverse (suc (length {A = ℕ} (2 ∷ 3 ∷ []))) 1 two_elements
        ≡ some (backward (2 ∷ 3 ∷ [])))
for_each-for_each_reverse_example =
    for_each-for_each_reverse {h = two_elements} {head = 1} {xs = 2 ∷ 3 ∷ []} two_elements-IsList

dlist_link_lem_example : IsList (dlist_link 1 4 two_elements) 1 (4 ∷ 2 ∷ 3 ∷ [])
dlist_link_lem_example =
    dlist_link_lem {h = two_elements} {head = 1} {xs = 2 ∷ 3 ∷ []} 4 two_elements-IsList
      (omega arith) (omega arith, (omega arith, (omega arith, tt)))

dlist_unlink_lem_example :
    IsList (dlist_unlink 2 two_elements) 1 (3 ∷ [])
    × ((dlist_unlink 2 two_elements).next 2 ≡ null)
    × ((dlist_unlink 2 two_elements).prev 2 ≡ null)
    × (dlist_linked 2 (dlist_unlink 2 two_elements) ≡ false)
dlist_unlink_lem_example =
    dlist_unlink_lem {h = two_elements} {head = 1} [] 2 (3 ∷ []) two_elements-IsList
