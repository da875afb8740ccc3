-- ===== src/Dlist/Loops.antt =====
-- src/shl_dlist.h: the loops that start behind an element, and those whose body may unlink the
-- element that it is at. `none` means that the fuel ran out.
use libshl.Base.{List, Option, [], if◌then◌else◌, none, not, some, suc, zero, ℕ, ◌&&◌, ◌==◌, ◌∷◌}
use libshl.Dlist.{Heap}

-- `shl_dlist_for_each_but_one`
unfoldable pub but_one_from : ℕ → ℕ → ℕ → ℕ → Heap → Option (List ℕ)
but_one_from zero iter start head h = none
but_one_from (suc fuel) iter start head h =
    let following =
      if h.next iter == head && not (start == head) then h.next (h.next iter) else h.next iter in
    if iter == start then some [] else elim (but_one_from fuel following start head h) [
      | none ↦ none
      | some xs ↦ some (iter ∷ xs)
    ]

unfoldable pub for_each_but_one : ℕ → ℕ → ℕ → Heap → Option (List ℕ)
for_each_but_one fuel start head h =
    but_one_from fuel (if h.next start == head then h.next (h.next start) else h.next start) start
      head h

-- `shl_dlist_for_each_safe`, with its body: the elements it visits, and the heap behind it.
unfoldable pub safe_from : (ℕ → Heap → Heap) → ℕ → ℕ → ℕ → ℕ → Heap → Option (List ℕ × Heap)
safe_from body zero iter tmp head h = none
safe_from body (suc fuel) iter tmp head h =
    if iter == head
    then some ([], h)
    else elim (safe_from body fuel tmp ((body iter h).next tmp) head (body iter h)) [
      | none ↦ none
      | some (xs, h') ↦ some (iter ∷ xs, h')
    ]

unfoldable pub for_each_safe : (ℕ → Heap → Heap) → ℕ → ℕ → Heap → Option (List ℕ × Heap)
for_each_safe body fuel head h = safe_from body fuel (h.next head) (h.next (h.next head)) head h
