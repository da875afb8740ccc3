-- ===== src/Dlist/Ring.antt =====
-- A circle of elements on the heap, and what a loop over it visits.
use libshl.Base.{
  ==_refl, All, All-append, All-split, List, [], ap, arith, length, some, suc, sym, ℕ, ◌++◌, ◌∷◌,
  ◌≡◌, ◌≢◌,
}
use libshl.Dlist.{Heap, for_each, for_each_from, null}

-- `next` leads from `a` through `xs` to `z`, and `prev` leads back.
abbrev pub Chain : Heap → ℕ → List ℕ → ℕ → Type 0
Chain h a [] z = (h.next a ≡ z) × (h.prev z ≡ a)
Chain h a (x ∷ xs) z = (h.next a ≡ x) × (h.prev x ≡ a) × Chain h x xs z

abbrev pub Distinct : List ℕ → Type 0
Distinct [] = Unit
Distinct (x ∷ xs) = All (λ y. y ≢ x) xs × Distinct xs

-- `head` is the head of a list with the elements `xs`, in order.
pub record IsList (h : Heap) (head : ℕ) (xs : List ℕ) : Type 0 where
  pub chain : Chain h head xs head
  pub distinct : Distinct (head ∷ xs)
  pub not_null : All (λ y. y ≢ null) (head ∷ xs)

pub Chain-split :
    (h : Heap) (a : ℕ) (ys : List ℕ) (q : ℕ) (zs : List ℕ) (z : ℕ)
    → Chain h a (ys ++ (q ∷ zs)) z
    → Chain h a ys q × Chain h q zs z
Chain-split h a [] q zs z (n, p, c) = ((n, p), c)
Chain-split h a (y ∷ ys) q zs z (n, p, c) =
    let (l, r) = Chain-split h y ys q zs z c in ((n, p, l), r)

pub Chain-join :
    (h : Heap) (a : ℕ) (ys : List ℕ) (q : ℕ) (zs : List ℕ) (z : ℕ)
    → Chain h a ys q
    → Chain h q zs z
    → Chain h a (ys ++ (q ∷ zs)) z
Chain-join h a [] q zs z (n, p) c = (n, p, c)
Chain-join h a (y ∷ ys) q zs z (n, p, l) c = (n, p, Chain-join h y ys q zs z l c)

-- A circle seen from another of its elements.
pub Chain-rotate :
    (h : Heap) (p : ℕ) (ys : List ℕ) (q : ℕ) (zs : List ℕ)
    → Chain h p (ys ++ (q ∷ zs)) p
    → Chain h q (zs ++ (p ∷ ys)) q
Chain-rotate h p ys q zs c =
    let (l, r) = Chain-split h p ys q zs p c in Chain-join h q zs p ys q r l

-- The parts of a list of distinct elements, and back.
abbrev pub Apart : List ℕ → List ℕ → Type 0
Apart xs ys = All (λ x. All (λ y. y ≢ x) ys) xs

Distinct-split : (xs ys : List ℕ) → Distinct (xs ++ ys) → Distinct xs × Distinct ys × Apart xs ys
Distinct-split [] ys d = (tt, d, tt)
Distinct-split (x ∷ xs) ys (a, d) =
    let (l, r) = All-split (λ y. y ≢ x) xs ys a in
    let (dx, dy, ap) = Distinct-split xs ys d in ((l, dx), dy, (r, ap))

Distinct-join : (xs ys : List ℕ) → Distinct xs → Distinct ys → Apart xs ys → Distinct (xs ++ ys)
Distinct-join [] ys dx dy a = dy
Distinct-join (x ∷ xs) ys (n, dx) dy (m, a) =
    (All-append (λ y. y ≢ x) xs ys n m, Distinct-join xs ys dx dy a)

Apart-cons : (ys xs : List ℕ) (x : ℕ) → All (λ y. y ≢ x) ys → Apart ys xs → Apart ys (x ∷ xs)
Apart-cons [] xs x h a = tt
Apart-cons (y ∷ ys) xs x (n, h) (m, a) = ((λ e. n (sym e), m), Apart-cons ys xs x h a)

Apart-nil : (ys : List ℕ) → Apart ys []
Apart-nil [] = tt
Apart-nil (y ∷ ys) = (tt, Apart-nil ys)

pub Apart-comm : (xs ys : List ℕ) → Apart xs ys → Apart ys xs
Apart-comm [] ys a = Apart-nil ys
Apart-comm (x ∷ xs) ys (m, a) = Apart-cons ys xs x m (Apart-comm xs ys a)

pub Distinct-swap : (xs ys : List ℕ) → Distinct (xs ++ ys) → Distinct (ys ++ xs)
Distinct-swap xs ys d =
    let (dx, dy, a) = Distinct-split xs ys d in Distinct-join ys xs dy dx (Apart-comm xs ys a)

-- A loop from an element on visits what is left up to the head.
pub for_each_from-Chain :
    (h : Heap) (a : ℕ) (xs : List ℕ) (head : ℕ)
    → Chain h a xs head
    → All (λ y. y ≢ head) xs
    → for_each_from (suc (length xs)) (h.next a) head h ≡ some xs
unfolding for_each_from
for_each_from-Chain h a [] head (n, p) d = rw (n, ==_refl)
for_each_from-Chain h a (x ∷ xs) head (n, p, c) (ne, d) =
    ground (arith, for_each_from-Chain h x xs head c d)

-- `shl_dlist_for_each` ends and visits the elements in order.
pub for_each_lem :
    {h : Heap} {head : ℕ} {xs : List ℕ}
    → IsList h head xs
    → for_each (suc (length xs)) head h ≡ some xs
unfolding for_each
for_each_lem {h} {head} {xs} l = for_each_from-Chain h head xs head l.chain l.distinct.0
