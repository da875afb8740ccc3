-- ===== src/Trie/Visited.antt =====
-- `shl_trie_visit` visits the entries with the prefix: the search finds their subtree.
use libshl.Base.{
  Bool, Bool-cases, List, [], ap, append-nil, ap₂, arith, false, if◌then◌else◌, inl, inr, leb,
  leb→le, length, ltb, ltb→lt, refl, some, suc, sym, true, zero, ℕ, ◌*◌, ◌++◌, ◌<◌, ◌∙◌, ◌≡◌, ◌≢◌,
  ◌≤◌,
}
use libshl.Trie.{Node, entry, goes_right, node}
use libshl.Trie.Marks.{get_node-node, is_node-entry, is_node-node}
use libshl.Trie.Placed.{Placed, Stored, fork_at, pointer, rounds, tip, tips}
use libshl.Trie.Position.{Agree, IsKey, bit_at, position}
use libshl.Trie.Prefix.{
  Agree-byte_at, starts_with, starts_with-false, starts_with_same, with_prefix, with_prefix-append,
}
use libshl.Trie.Traverse.{Memory}
use libshl.Trie.Valid.{
  Keys, Keys-closest, Keys-map, Valid, Valid-IsKey, branch, entries, left_bit, right_bit,
}
use libshl.Trie.Visit.{Labels, visit_search}

Keys-zip :
    {P Q R : List ℕ → Type 0} (t : Node)
    → ((a : List ℕ) → P a → Q a → R a)
    → Keys P t
    → Keys Q t
    → Keys R t
Keys-zip (entry e) f p q = f e.key p q
Keys-zip (node byte otherbits l r) f (pl, pr) (ql, qr) = (Keys-zip l f pl ql, Keys-zip r f pr qr)

module _ (lab : Labels) where
  -- The trie that a memory holds.
  abbrev pub erase : Placed → Node
  erase (tip e) = entry (record { addr = e; key = lab.key e })
  erase (fork_at a l r) = node (lab.byte a) (lab.otherbits a) (erase l) (erase r)

  tips-entries :
      (prefix : List ℕ) (t : Placed)
      → Keys (λ k. starts_with prefix k ≡ true) (erase t)
      → with_prefix prefix (entries (erase t)) ≡ tips t
  tips-entries prefix (tip e) h = rw h refl
  tips-entries prefix (fork_at a l r) (hl, hr) =
      with_prefix-append prefix (entries (erase l)) (entries (erase r))
      ∙ ap₂ (λ x y. x ++ y) (tips-entries prefix l hl) (tips-entries prefix r hr)

  none_entries :
      (prefix : List ℕ) (t : Placed)
      → Keys (λ k. starts_with prefix k ≡ false) (erase t)
      → with_prefix prefix (entries (erase t)) ≡ []
  none_entries prefix (tip e) h = rw h refl
  none_entries prefix (fork_at a l r) (hl, hr) =
      with_prefix-append prefix (entries (erase l)) (entries (erase r))
      ∙ ap₂ (λ x y. x ++ y) (none_entries prefix l hl) (none_entries prefix r hr)

  module _ (prefix : List ℕ) where
    -- The child that the search goes on with, and the entry and the top at its end.
    abbrev pub turn : ℕ → Bool
    turn a = goes_right (lab.byte a) (lab.otherbits a) prefix

    abbrev pub within : ℕ → Bool
    within a = ltb (lab.byte a) (length prefix)

    abbrev pub descend : Placed → Placed → ℕ × Placed
    descend (tip e) top = (e, top)
    descend (fork_at a l r) top =
        if turn a
        then descend r (if within a then r else top)
        else descend l (if within a then l else top)

    -- The search in the memory.
    pub visit_search-descend :
        (m : Memory) (t top : Placed) (fuel : ℕ)
        → Stored m t
        → rounds t ≤ suc fuel
        → visit_search fuel lab m prefix (pointer t) (pointer top)
          ≡ some ((descend t top).0, pointer (descend t top).1)
    unfolding visit_search
    visit_search-descend m (tip e) top zero (h, ne) le = rw (is_node-entry h) refl
    visit_search-descend m (tip e) top (suc fuel) (h, ne) le = rw (is_node-entry h) refl
    visit_search-descend m (fork_at a l r) top zero s le = absurd (omega arith)
    visit_search-descend m (fork_at a l r) top (suc fuel) (h, vl, vr, d, sl, sr) le =
        rw (is_node-node h.aligned, get_node-node h.aligned, h.left, h.right)
          (go (turn a) (within a) (λ t. visit_search-descend m l t fuel sl (omega arith))
            (λ t. visit_search-descend m r t fuel sr (omega arith)))
      where
        go :
            (b i : Bool)
            → ((t : Placed)
                → visit_search fuel lab m prefix (pointer l) (pointer t)
                  ≡ some ((descend l t).0, pointer (descend l t).1))
            → ((t : Placed)
                → visit_search fuel lab m prefix (pointer r) (pointer t)
                  ≡ some ((descend r t).0, pointer (descend r t).1))
            → visit_search fuel lab m prefix
                (if b then pointer r else pointer l)
                (if i then if b then pointer r else pointer l else pointer top)
              ≡ some (
                (if b
                    then descend r (if i then r else top)
                    else descend l (if i then l else top)).0,
                pointer
                    (if b
                      then descend r (if i then r else top)
                      else descend l (if i then l else top)).1,
              )
        go true true il ir = ir r
        go true false il ir = ir top
        go false true il ir = il l
        go false false il ir = il top

    -- Below a node behind the prefix the top stays as it is.
    top_stays :
        (p : ℕ) (w : List ℕ) (t top : Placed)
        → Valid (erase t)
        → Keys (λ a. Agree p a w) (erase t)
        → length prefix * 8 ≤ p
        → (descend t top).1 ≡ top
    top_stays p w (tip e) top v g le = refl
    top_stays p w (fork_at a l r) top (branch k w' lt e vl vr zl zr al ar) (gl, gr) le =
        go (turn a) (within a) outside (top_stays p w l top vl gl le) (top_stays p w r top vr gr le)
      where
        here : ℕ
        here = position (lab.byte a) k

        behind : p ≤ here
        behind = elim (Bool-cases (leb p here)) [
          | inl q ↦ leb→le p here q
          | inr q ↦
              let lt_p : here < p = ground arith in
              absurd (
                omega (
                  arith,
                  Keys-closest (λ x. bit_at x here ≡ 0) [] (erase l) zl,
                  Keys-closest (λ x. bit_at x here ≡ 1) [] (erase r) zr,
                  Keys-closest (λ x. Agree p x w) [] (erase l) gl here lt_p,
                  Keys-closest (λ x. Agree p x w) [] (erase r) gr here lt_p,
                ))
        ]

        outside : within a ≡ false
        outside = ground (arith, behind, lt)

        go :
            (b i : Bool)
            → i ≡ false
            → (descend l top).1 ≡ top
            → (descend r top).1 ≡ top
            → (if b then descend r (if i then r else top) else descend l (if i then l else top)).1
              ≡ top
        go true true q il ir = cc
        go false true q il ir = cc
        go true false q il ir = ir
        go false false q il ir = il

    Keys-descend :
        (P : List ℕ → Type 0) (t top : Placed) → Keys P (erase t) → P (lab.key (descend t top).0)
    Keys-descend P (tip e) top h = h
    Keys-descend P (fork_at a l r) top (hl, hr) =
        go (turn a) (λ u. Keys-descend P l u hl) (λ u. Keys-descend P r u hr)
      where
        go :
            (b : Bool)
            → ((u : Placed) → P (lab.key (descend l u).0))
            → ((u : Placed) → P (lab.key (descend r u).0))
            → P (
                lab.key
                  (if b
                    then descend r (if within a then r else top)
                    else descend l (if within a then l else top)).0)
        go true il ir = ir _
        go false il ir = il _

    -- What the visit hands out, from the end of the search.
    abbrev pub selected : ℕ × Placed → List ℕ
    selected d = if starts_with prefix (lab.key d.0) then tips d.1 else []

    -- All entries behind the prefix have it, or none has.
    together :
        (t : Placed) (p : ℕ) (w : List ℕ) (c : ℕ)
        → IsKey prefix
        → Keys IsKey (erase t)
        → Keys (λ x. Agree p x w) (erase t)
        → length prefix * 8 ≤ p
        → IsKey (lab.key c)
        → Agree p (lab.key c) w
        → with_prefix prefix (entries (erase t)) ≡ selected (c, t)
    together t p w c hp hk g le hc gc =
        go (starts_with prefix (lab.key c)) (Keys-zip (erase t) same hk g)
      where
        same :
            (x : List ℕ)
            → IsKey x
            → Agree p x w
            → starts_with prefix x ≡ starts_with prefix (lab.key c)
        same x hx gx = starts_with_same prefix x (lab.key c) hp hx hc (λ i lt.
            Agree-byte_at p x (lab.key c) i hx hc (λ q b. gx q b ∙ sym (gc q b)) (omega arith))

        go :
            (b : Bool)
            → Keys (λ x. starts_with prefix x ≡ b) (erase t)
            → with_prefix prefix (entries (erase t)) ≡ (if b then tips t else [])
        go true k = tips-entries prefix t k
        go false k = none_entries prefix t k

    pub with_prefix-selected :
        (t : Placed)
        → IsKey prefix
        → Valid (erase t)
        → with_prefix prefix (entries (erase t)) ≡ selected (descend t t)
    with_prefix-selected (tip e) hp v = refl
    with_prefix-selected (fork_at a l r) hp (branch k w lt e vl vr zl zr al ar) =
        go (turn a) (within a) refl refl (with_prefix-selected l hp vl)
          (with_prefix-selected r hp vr)
      where
        here : ℕ
        here = position (lab.byte a) k

        missing :
            (u : Placed) (x y : ℕ)
            → bit_at prefix (position (lab.byte a) k) ≡ y
            → x ≢ y
            → within a ≡ true
            → Keys (λ s. bit_at s (position (lab.byte a) k) ≡ x) (erase u)
            → with_prefix prefix (entries (erase u)) ≡ []
        missing u x y f ne i h = none_entries prefix u (
            Keys-map (erase u)
              (λ s z.
                starts_with-false prefix s (lab.byte a) k lt (ltb→lt (lab.byte a) (length prefix) i)
                  (λ q. ne (sym z ∙ q ∙ f)))
              h)

        behind :
            (c : ℕ)
            → within a ≡ false
            → IsKey (lab.key c)
            → Agree (position (lab.byte a) k) (lab.key c) w
            → with_prefix prefix (entries (erase (fork_at a l r))) ≡ selected (c, fork_at a l r)
        behind c i hc gc =
            together (fork_at a l r) (position (lab.byte a) k) w c hp
              (Valid-IsKey vl, Valid-IsKey vr) (al, ar) (ground (arith, i)) hc gc

        go :
            (b i : Bool)
            → turn a ≡ b
            → within a ≡ i
            → with_prefix prefix (entries (erase l)) ≡ selected (descend l l)
            → with_prefix prefix (entries (erase r)) ≡ selected (descend r r)
            → with_prefix prefix (entries (erase l) ++ entries (erase r))
              ≡ selected (
                  if b
                  then descend r (if i then r else fork_at a l r)
                  else descend l (if i then l else fork_at a l r))
        go true true g i il ir =
            with_prefix-append prefix (entries (erase l)) (entries (erase r))
            ∙ ap₂ (λ x y. x ++ y)
                (missing l 0 1 (right_bit (lab.byte a) (lab.otherbits a) k prefix lt e hp g)
                  (omega arith) i zl)
                ir
        go false true g i il ir =
            with_prefix-append prefix (entries (erase l)) (entries (erase r))
            ∙ ap₂ (λ x y. x ++ y) il
                (missing r 1 0 (left_bit (lab.byte a) (lab.otherbits a) k prefix lt e hp g)
                  (omega arith) i zr)
            ∙ append-nil (selected (descend l l))
        go true false g i il ir =
            behind (descend r (fork_at a l r)).0 i
              (Keys-descend IsKey r (fork_at a l r) (Valid-IsKey vr))
              (Keys-descend (λ x. Agree (position (lab.byte a) k) x w) r (fork_at a l r) ar)
            ∙ ap (λ u. selected ((descend r (fork_at a l r)).0, u))
                (sym (
                  top_stays (position (lab.byte a) k) w r (fork_at a l r) vr ar
                    (ground (arith, i))))
        go false false g i il ir =
            behind (descend l (fork_at a l r)).0 i
              (Keys-descend IsKey l (fork_at a l r) (Valid-IsKey vl))
              (Keys-descend (λ x. Agree (position (lab.byte a) k) x w) l (fork_at a l r) al)
            ∙ ap (λ u. selected ((descend l (fork_at a l r)).0, u))
                (sym (
                  top_stays (position (lab.byte a) k) w l (fork_at a l r) vl al
                    (ground (arith, i))))
