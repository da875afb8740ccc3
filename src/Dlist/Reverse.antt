-- ===== src/Dlist/Reverse.antt =====
-- The loop that goes backward.
use libshl.Base.{
  All, All-append, List, [], ap, arith, length, length-append, refl, some, suc, sym, zero, ℕ, ◌++◌,
  ◌∙◌, ◌∷◌, ◌≡◌, ◌≢◌,
}
use libshl.Dlist.{Heap, for_each, for_each_from, for_each_reverse, for_each_reverse_from}
use libshl.Dlist.Ring.{Chain, Chain-join, IsList, for_each_from-Chain, for_each_lem}

-- The list seen from behind.
abbrev pub backward : List ℕ → List ℕ
backward [] = []
backward (x ∷ xs) = backward xs ++ (x ∷ [])

-- The heap with its links exchanged.
abbrev mirror : Heap → Heap
mirror h = record { next = h.prev; prev = h.next }

Chain-mirror :
    (h : Heap) (a : ℕ) (xs : List ℕ) (z : ℕ) → Chain h a xs z → Chain (mirror h) z (backward xs) a
Chain-mirror h a [] z (n, p) = (p, n)
Chain-mirror h a (x ∷ xs) z (n, p, c) =
    Chain-join (mirror h) z (backward xs) x [] a (Chain-mirror h x xs z c) (p, n)

All-backward : (P : ℕ → Type 0) (xs : List ℕ) → All P xs → All P (backward xs)
All-backward P [] a = tt
All-backward P (x ∷ xs) (p, a) = All-append P (backward xs) (x ∷ []) (All-backward P xs a) (p, tt)

length-backward : (xs : List ℕ) → length (backward xs) ≡ length xs
length-backward [] = refl
length-backward (x ∷ xs) = omega (arith, length-append (backward xs) (x ∷ []), length-backward xs)

for_each_reverse_from-mirror :
    (fuel iter head : ℕ) (h : Heap)
    → for_each_reverse_from fuel iter head h ≡ for_each_from fuel iter head (mirror h)
unfolding for_each_reverse_from for_each_from
for_each_reverse_from-mirror zero iter head h = refl
for_each_reverse_from-mirror (suc fuel) iter head h =
    rw (for_each_reverse_from-mirror fuel (h.prev iter) head h) refl

-- Over a list `shl_dlist_for_each` ends and visits the elements in order, and
-- `shl_dlist_for_each_reverse` ends and visits them from the last to the first.
pub for_each-for_each_reverse :
    {h : Heap} {head : ℕ} {xs : List ℕ}
    → IsList h head xs
    → (for_each (suc (length xs)) head h ≡ some xs)
      × (for_each_reverse (suc (length xs)) head h ≡ some (backward xs))
unfolding for_each_reverse
for_each-for_each_reverse {h} {head} {xs} l = (
  for_each_lem l,
  for_each_reverse_from-mirror (suc (length xs)) (h.prev head) head h
      ∙ ap (λ n. for_each_from (suc n) (h.prev head) head (mirror h)) (sym (length-backward xs))
      ∙ for_each_from-Chain (mirror h) head (backward xs) head (Chain-mirror h head xs head l.chain)
          (All-backward (λ y. y ≢ head) xs l.distinct.0),
)
