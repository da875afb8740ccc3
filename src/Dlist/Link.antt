-- ===== src/Dlist/Link.antt =====
-- Linking and unlinking elements.
use libshl.Base.{
  All, All-append, All-split, List, [], append_assoc, arith, subst, sym, ℕ, ◌++◌, ◌∷◌, ◌≡◌, ◌≢◌,
}
use libshl.Dlist.{Heap, dlist_link, dlist_link_tail, link_between, null, set_next, set_prev}
use libshl.Dlist.Ring.{Chain, Chain-rotate, Chain-split, Distinct, Distinct-swap, IsList}

-- A chain does not see writes elsewhere.
pub Chain-set_next :
    (h : Heap) (p v a : ℕ) (xs : List ℕ) (z : ℕ)
    → All (λ y. y ≢ p) (a ∷ xs)
    → Chain h a xs z
    → Chain (set_next p v h) a xs z
Chain-set_next h p v a [] z (n, _) (e, f) = (ground arith, f)
Chain-set_next h p v a (x ∷ xs) z (n, m) (e, f, c) =
    (ground arith, f, Chain-set_next h p v x xs z m c)

pub Chain-set_prev :
    (h : Heap) (p v a : ℕ) (xs : List ℕ) (z : ℕ)
    → All (λ y. y ≢ p) xs
    → z ≢ p
    → Chain h a xs z
    → Chain (set_prev p v h) a xs z
Chain-set_prev h p v a [] z _ nz (e, f) = (e, ground arith)
Chain-set_prev h p v a (x ∷ xs) z (n, m) nz (e, f, c) =
    (e, ground arith, Chain-set_prev h p v x xs z m nz c)

-- A new element behind `p` in a circle.
link_after :
    (h : Heap) (p n : ℕ) (cs : List ℕ)
    → Chain h p cs p
    → Distinct (n ∷ p ∷ cs)
    → Chain (link_between p (h.next p) n h) p (n ∷ cs) p
unfolding link_between
link_after h p n [] (e, f) ((pn, _), _) = ground arith
link_after h p n (c ∷ cs) (e, f, ch) ((pn, (cn, ns)), ((cp, ps), (ds, _))) =
    subst (λ q. Chain (link_between p q n h) p (n ∷ c ∷ cs) p) (sym e)
      (
        ground arith,
        ground arith,
        (
          ground arith,
          ground arith,
          Chain-set_next h3 p n c cs p (cp, ps)
              (Chain-set_prev h2 n p c cs p ns pn (
                Chain-set_next h1 n c c cs p (cn, ns)
                  (Chain-set_prev h c n c cs p ds (λ q. cp (sym q)) ch))),
        ),
      )
  where
    h1 : Heap
    h1 = set_prev c n h

    h2 : Heap
    h2 = set_next n c h1

    h3 : Heap
    h3 = set_prev n p h2

-- `shl_dlist_link` puts a new element in front of the list.
pub dlist_link_lem :
    {h : Heap} {head : ℕ} {xs : List ℕ} (n : ℕ)
    → IsList h head xs
    → n ≢ null
    → All (λ y. y ≢ n) (head ∷ xs)
    → IsList (dlist_link head n h) head (n ∷ xs)
unfolding dlist_link
dlist_link_lem {h} {head} {xs} n l nn fresh = record {
  chain = link_after h head n xs l.chain (fresh, l.distinct);
  distinct = ((λ e. fresh.0 (sym e), l.distinct.0), (fresh.1, l.distinct.1));
  not_null = (l.not_null.0, (nn, l.not_null.1));
}

-- The last element, at which a circle closes.
pub data Last : List ℕ → Type 0 where
  none_left : Last []
  last : (ys : List ℕ) (q : ℕ) → Last (ys ++ (q ∷ []))

pub Last-view : (xs : List ℕ) → Last xs
Last-view [] = none_left
Last-view (x ∷ xs) = go x xs (Last-view xs)
  where
    go : (y : ℕ) (ys : List ℕ) → Last ys → Last (y ∷ ys)
    go y [] none_left = last [] y
    go y _ (last zs q) = last (y ∷ zs) q

prev_last : (h : Heap) (a : ℕ) (ys : List ℕ) (q z : ℕ) → Chain h a (ys ++ (q ∷ [])) z → h.prev z ≡ q
prev_last h a ys q z c = (Chain-split h a ys q [] z c).1.1

-- A new element in front of the head, by the last element.
link_before :
    (h : Heap) (head n : ℕ) (xs : List ℕ)
    → Last xs
    → Chain h head xs head
    → Distinct (n ∷ head ∷ xs)
    → Chain (link_between (h.prev head) head n h) head (xs ++ (n ∷ [])) head
link_before h head n _ none_left (e, f) d =
    subst (λ p. Chain (link_between p head n h) head (n ∷ []) head) (sym f)
      (subst (λ q. Chain (link_between head q n h) head (n ∷ []) head) e
        (link_after h head n [] (e, f) d))
link_before h head n _ (last ys q) c (fresh, d) =
    let (l, r) = Chain-split h head ys q [] head c in
    subst (λ p. Chain (link_between p head n h) head ((ys ++ (q ∷ [])) ++ (n ∷ [])) head) (sym r.1)
      (subst (λ ts. Chain (link_between q head n h) head ts head)
        (sym (append_assoc ys (q ∷ []) (n ∷ [])))
        (Chain-rotate (link_between q head n h) q (n ∷ []) head ys (
          subst (λ t. Chain (link_between q t n h) q (n ∷ head ∷ ys) q) r.0
            (link_after h q n (head ∷ ys) (Chain-rotate h head ys q [] c) (turned_fresh, turned)))))
  where
    turned : Distinct (q ∷ head ∷ ys)
    turned = Distinct-swap (head ∷ ys) (q ∷ []) d

    turned_fresh : All (λ y. y ≢ n) (q ∷ head ∷ ys)
    turned_fresh = let (a, b) = All-split (λ y. y ≢ n) (head ∷ ys) (q ∷ []) fresh in (b.0, a)

-- `shl_dlist_link_tail` puts a new element behind the list.
pub dlist_link_tail_lem :
    {h : Heap} {head : ℕ} {xs : List ℕ} (n : ℕ)
    → IsList h head xs
    → n ≢ null
    → All (λ y. y ≢ n) (head ∷ xs)
    → IsList (dlist_link_tail head n h) head (xs ++ (n ∷ []))
unfolding dlist_link_tail
dlist_link_tail_lem {h} {head} {xs} n l nn fresh = record {
  chain = link_before h head n xs (Last-view xs) l.chain (fresh, l.distinct);
  distinct = Distinct-swap (n ∷ []) (head ∷ xs) (fresh, l.distinct);
  not_null = (l.not_null.0, All-append (λ y. y ≢ null) xs (n ∷ []) l.not_null.1 (nn, tt));
}
