-- ===== src/Dlist/Unlink.antt =====
-- Taking an element out of its list.
use mathlib.Core.Path.{subst₂}
use libshl.Base.{
  All, All-append, All-split, List, [], ap, append-nil, arith, false, subst, sym, ℕ, ◌++◌, ◌∙◌, ◌∷◌,
  ◌≡◌, ◌≢◌,
}
use libshl.Dlist.{Heap, dlist_linked, dlist_unlink, null, set_next, set_prev, unlink_between}
use libshl.Dlist.Link.{Chain-set_next, Chain-set_prev, Last, Last-view, last, none_left}
use libshl.Dlist.Ring.{
  Chain, Chain-join, Chain-rotate, Chain-split, Distinct, Distinct-swap, IsList,
}

-- The circle closes over an element that is taken out.
close_circle :
    (h : Heap) (e c : ℕ) (cs : List ℕ)
    → Last cs
    → Chain h e (c ∷ cs) e
    → Distinct (e ∷ c ∷ cs)
    → Chain (unlink_between (h.prev e) (h.next e) h) c cs c
unfolding unlink_between
close_circle h e c _ none_left (n, p, (n2, p2)) d =
    subst₂ (λ x y. Chain (unlink_between x y h) c [] c) (sym p2) (sym n) (ground arith)
close_circle h e c _ (last ds q) (n, p, ch) (de, (dc, dd)) =
    let (l, r) = Chain-split h c ds q [] e ch in
    subst₂ (λ x y. Chain (unlink_between x y h) c (ds ++ (q ∷ [])) c) (sym r.1) (sym n)
      (Chain-join h2 c ds q [] c
        (Chain-set_next h1 q c c ds q (λ t. qc (sym t), before_q)
          (Chain-set_prev h c q c ds q others qc l))
        (ground arith, ground arith))
  where
    h1 : Heap
    h1 = set_prev c q h

    h2 : Heap
    h2 = set_next q c h1

    others : All (λ y. y ≢ c) ds
    others = (All-split (λ y. y ≢ c) ds (q ∷ []) dc).0

    qc : q ≢ c
    qc = (All-split (λ y. y ≢ c) ds (q ∷ []) dc).1.0

    before_q : All (λ y. y ≢ q) ds
    before_q = (Distinct-swap ds (q ∷ []) dd).0

-- The element's own links are cleared.
module _ (h : Heap) (e : ℕ) (linked : h.prev e ≢ null) (linked' : h.next e ≢ null) where
  abbrev cleared : Heap
  cleared = set_next e null (set_prev e null (unlink_between (h.prev e) (h.next e) h))

  dlist_unlink-cleared : dlist_unlink e h ≡ cleared
  unfolding dlist_unlink
  dlist_unlink-cleared = ground arith

  unlinked_circle :
      (c : ℕ) (cs : List ℕ)
      → Chain h e (c ∷ cs) e
      → Distinct (e ∷ c ∷ cs)
      → Chain (dlist_unlink e h) c cs c
  unlinked_circle c cs ch (de, dd) =
      subst (λ g. Chain g c cs c) (sym dlist_unlink-cleared)
        (Chain-set_next (set_prev e null (unlink_between (h.prev e) (h.next e) h)) e null c cs c de
          (Chain-set_prev (unlink_between (h.prev e) (h.next e) h) e null c cs c de.1 de.0
            (close_circle h e c cs (Last-view cs) ch (de, dd))))

  -- The circle as the head sees it.
  seen_from_head :
      (head : ℕ) (ys zs : List ℕ)
      → Chain h e (zs ++ (head ∷ ys)) e
      → Distinct (e ∷ (zs ++ (head ∷ ys)))
      → Chain (dlist_unlink e h) head (ys ++ zs) head
  seen_from_head head ys [] ch d =
      subst (λ t. Chain (dlist_unlink e h) head t head) (sym (append-nil ys))
        (unlinked_circle head ys ch d)
  seen_from_head head ys (z ∷ zs) ch d =
      Chain-rotate (dlist_unlink e h) z zs head ys (unlinked_circle z (zs ++ (head ∷ ys)) ch d)

-- Where a chain through other addresses than NULL leads from, and where it leads back from.
next_not_null :
    (h : Heap) (a : ℕ) (ws : List ℕ) (z : ℕ)
    → Chain h a ws z
    → All (λ y. y ≢ null) ws
    → z ≢ null
    → h.next a ≢ null
next_not_null h a [] z (n, p) _ nz e = nz (sym n ∙ e)
next_not_null h a (w ∷ ws) z (n, p, c) (nw, _) nz e = nw (sym n ∙ e)

prev_not_null :
    (h : Heap) (a : ℕ) (ws : List ℕ) (z : ℕ)
    → Chain h a ws z
    → All (λ y. y ≢ null) ws
    → a ≢ null
    → h.prev z ≢ null
prev_not_null h a [] z (n, p) _ na e = na (sym p ∙ e)
prev_not_null h a (w ∷ ws) z (n, p, c) (nw, m) na e = prev_not_null h w ws z c m nw e

unlinked :
    (h : Heap) (e : ℕ) (a : h.prev e ≢ null) (b : h.next e ≢ null)
    → dlist_linked e (dlist_unlink e h) ≡ false
unlinked h e a b =
    ap (dlist_linked e) (dlist_unlink-cleared h e a b) ∙ unfold dlist_linked in ground arith

unlinked_next :
    (h : Heap) (e : ℕ) (a : h.prev e ≢ null) (b : h.next e ≢ null)
    → (dlist_unlink e h).next e ≡ null
unlinked_next h e a b = ap (λ g. g.next e) (dlist_unlink-cleared h e a b) ∙ ground arith

unlinked_prev :
    (h : Heap) (e : ℕ) (a : h.prev e ≢ null) (b : h.next e ≢ null)
    → (dlist_unlink e h).prev e ≡ null
unlinked_prev h e a b = ap (λ g. g.prev e) (dlist_unlink-cleared h e a b) ∙ ground arith

-- `shl_dlist_unlink` takes an element out of its list, wherever it stands, writes NULL to both of its
-- links, so that it is not linked, and leaves the others in order.
pub dlist_unlink_lem :
    {h : Heap} {head : ℕ} (ys : List ℕ) (e : ℕ) (zs : List ℕ)
    → IsList h head (ys ++ (e ∷ zs))
    → IsList (dlist_unlink e h) head (ys ++ zs)
      × ((dlist_unlink e h).next e ≡ null)
      × ((dlist_unlink e h).prev e ≡ null)
      × (dlist_linked e (dlist_unlink e h) ≡ false)
dlist_unlink_lem {h} {head} ys e zs l =
    let (before, after) = Chain-split h head ys e zs head l.chain in
    let (no_ys, (no_e, no_zs)) = All-split (λ y. y ≢ null) ys (e ∷ zs) l.not_null.1 in
    let back = prev_not_null h head ys e before no_ys l.not_null.0 in
    let forth = next_not_null h e zs head after no_zs l.not_null.0 in
    let turned : Distinct (e ∷ (zs ++ (head ∷ ys))) =
      Distinct-swap (head ∷ ys) (e ∷ zs) l.distinct in
    (
      record {
        chain =
            seen_from_head h e back forth head ys zs (Chain-rotate h head ys e zs l.chain) turned;
        distinct = Distinct-swap zs (head ∷ ys) turned.1;
        not_null = (l.not_null.0, All-append (λ y. y ≢ null) ys zs no_ys no_zs);
      },
      unlinked_next h e back forth,
      unlinked_prev h e back forth,
      unlinked h e back forth,
    )
