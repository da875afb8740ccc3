-- ===== src/Dlist.antt =====
-- src/shl_dlist.h: circular doubly linked lists. An element is an address, and the two links of all
-- elements are the heap; NULL is address 0.
pub mod Ring
pub mod Reverse
pub mod Link
pub mod Unlink
pub mod Loops
mod Examples
use libshl.Base.{
  Bool, List, Option, [], if◌then◌else◌, none, not, some, suc, zero, ℕ, ◌&&◌, ◌==◌, ◌∷◌,
}

-- `struct shl_dlist` at each address
pub record Heap : Type 0 where
  pub next : ℕ → ℕ
  pub prev : ℕ → ℕ

abbrev pub null : ℕ
null = 0

-- A write of one link.
abbrev pub update : (ℕ → ℕ) → ℕ → ℕ → ℕ → ℕ
update f p v q = if p == q then v else f q

abbrev pub set_next : ℕ → ℕ → Heap → Heap
set_next p v h = record h { next = update h.next p v }

abbrev pub set_prev : ℕ → ℕ → Heap → Heap
set_prev p v h = record h { prev = update h.prev p v }

-- `shl_dlist_init`
unfoldable pub dlist_init : ℕ → Heap → Heap
dlist_init list h = set_prev list list (set_next list list h)

-- `shl_dlist__link`; its four writes in order
unfoldable pub link_between : ℕ → ℕ → ℕ → Heap → Heap
link_between prev next n h = set_next prev n (set_prev n prev (set_next n next (set_prev next n h)))

-- `shl_dlist_link`
unfoldable pub dlist_link : ℕ → ℕ → Heap → Heap
unfolding link_between
dlist_link head n h = link_between head (h.next head) n h

-- `shl_dlist_link_tail`
unfoldable pub dlist_link_tail : ℕ → ℕ → Heap → Heap
unfolding link_between
dlist_link_tail head n h = link_between (h.prev head) head n h

-- `shl_dlist__unlink`
unfoldable pub unlink_between : ℕ → ℕ → Heap → Heap
unlink_between prev next h = set_next prev next (set_prev next prev h)

-- `shl_dlist_unlink`
unfoldable pub dlist_unlink : ℕ → Heap → Heap
unfolding unlink_between
dlist_unlink e h =
    if not (h.prev e == null) && not (h.next e == null)
    then set_next e null (set_prev e null (unlink_between (h.prev e) (h.next e) h))
    else h

-- `shl_dlist_linked`
unfoldable pub dlist_linked : ℕ → Heap → Bool
dlist_linked e h = not (h.next e == null) && not (h.prev e == null)

-- `shl_dlist_empty`
unfoldable pub dlist_empty : ℕ → Heap → Bool
dlist_empty head h = h.next head == head

-- `shl_dlist_first`
unfoldable pub dlist_first : ℕ → Heap → ℕ
dlist_first head h = h.next head

-- `shl_dlist_last`
unfoldable pub dlist_last : ℕ → Heap → ℕ
dlist_last head h = h.prev head

-- `shl_dlist_for_each`: the elements that the loop visits, from `iter` on. `none` means that the
-- fuel ran out.
unfoldable pub for_each_from : ℕ → ℕ → ℕ → Heap → Option (List ℕ)
for_each_from zero iter head h = none
for_each_from (suc fuel) iter head h =
    if iter == head
    then some []
    else elim (for_each_from fuel (h.next iter) head h) [ none ↦ none | some xs ↦ some (iter ∷ xs) ]

unfoldable pub for_each : ℕ → ℕ → Heap → Option (List ℕ)
unfolding for_each_from
for_each fuel head h = for_each_from fuel (h.next head) head h

-- `shl_dlist_for_each_reverse`
unfoldable pub for_each_reverse_from : ℕ → ℕ → ℕ → Heap → Option (List ℕ)
for_each_reverse_from zero iter head h = none
for_each_reverse_from (suc fuel) iter head h =
    if iter == head then some [] else elim (for_each_reverse_from fuel (h.prev iter) head h) [
      | none ↦ none
      | some xs ↦ some (iter ∷ xs)
    ]

unfoldable pub for_each_reverse : ℕ → ℕ → Heap → Option (List ℕ)
unfolding for_each_reverse_from
for_each_reverse fuel head h = for_each_reverse_from fuel (h.prev head) head h
