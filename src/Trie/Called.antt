-- ===== src/Trie/Called.antt =====
-- The entries that the callback of `shl_trie_visit` gets.
use libshl.Base.{
  Bool, List, [], ap, arith, false, if◌then◌else◌, length, refl, some, suc, sym, true, zero, ℕ, ◌+◌,
  ◌-◌, ◌<◌, ◌==◌, ◌∙◌, ◌∷◌, ◌≡◌, ◌≢◌, ◌≤◌,
}
use libshl.Trie.Marks.{IsAligned, get_entry-entry, is_node-entry}
use libshl.Trie.Passes.{walk-Passes}
use libshl.Trie.Placed.{Placed, Stored, fork_at, pointer, pointer-ne_zero, rounds, tip, tips}
use libshl.Trie.Position.{IsKey}
use libshl.Trie.Prefix.{prefix_matches-starts_with, starts_with, with_prefix}
use libshl.Trie.Tag.{get_entry, make_entry}
use libshl.Trie.Traverse.{Ended, Memory, Walk, finished, trie_traverse, walk, walk_step}
use libshl.Trie.Valid.{Valid, entries}
use libshl.Trie.Visit.{Labels, prefix_matches, trie_visit, visit_search}
use libshl.Trie.Visited.{
  descend, erase, selected, turn, visit_search-descend, with_prefix-selected, within,
}
use libshl.Trie.Walks.{walk_at}

module _ (lab : Labels) (prefix : List ℕ) (m : Memory) where
  -- The end of the search stays within what it has seen.
  module _ (P : Placed → Type 0) (left : (a : ℕ) (l r : Placed) → P (fork_at a l r) → P l)
      (right : (a : ℕ) (l r : Placed) → P (fork_at a l r) → P r) where
    descend-tip : (t top : Placed) → P t → P (tip (descend lab prefix t top).0)
    descend-tip (tip e) top h = h
    descend-tip (fork_at a l r) top h =
        go (turn lab prefix a) (λ u. descend-tip l u (left a l r h))
          (λ u. descend-tip r u (right a l r h))
      where
        go :
            (b : Bool)
            → ((u : Placed) → P (tip (descend lab prefix l u).0))
            → ((u : Placed) → P (tip (descend lab prefix r u).0))
            → P (
                tip
                  (if b
                    then descend lab prefix r (if within lab prefix a then r else top)
                    else descend lab prefix l (if within lab prefix a then l else top)).0)
        go true il ir = ir _
        go false il ir = il _

    descend-top : (t top : Placed) → P t → P top → P (descend lab prefix t top).1
    descend-top (tip e) top h g = g
    descend-top (fork_at a l r) top h g =
        go (turn lab prefix a) (within lab prefix a) (descend-top l l (left a l r h) (left a l r h))
          (descend-top l top (left a l r h) g) (descend-top r r (right a l r h) (right a l r h))
          (descend-top r top (right a l r h) g)
      where
        go :
            (b i : Bool)
            → P (descend lab prefix l l).1
            → P (descend lab prefix l top).1
            → P (descend lab prefix r r).1
            → P (descend lab prefix r top).1
            → P
                (if b
                  then descend lab prefix r (if i then r else top)
                  else descend lab prefix l (if i then l else top)).1
        go true true ll lt rr rt = rr
        go true false ll lt rr rt = rt
        go false true ll lt rr rt = ll
        go false false ll lt rr rt = lt

-- At NULL the loop ends.
walk_null :
    (k p : ℕ) (x : Memory) (c : List ℕ)
    → walk k false (walk_at 0 p x c) ≡ finished (walk_at 0 p x c)
unfolding walk
walk_null zero p x c = refl
walk_null (suc k) p x c = refl

-- More rounds than are needed do no harm.
trie_traverse_enough :
    (t : Placed) (m : Memory) (fuel : ℕ)
    → Stored m t
    → rounds t ≤ fuel
    → trie_traverse fuel false (pointer t) m
      ≡ finished (record { iter = 0; parent = pointer t; memory = m; calls = tips t })
unfolding trie_traverse walk
trie_traverse_enough t m fuel s le =
    let p =
      walk-Passes false t 0 m [] (record { low_bit = omega arith; bounded = omega arith }) s in
    ap (λ n. walk n false (walk_at (pointer t) 0 m [])) more
    ∙ p.path (fuel - rounds t)
    ∙ walk_null (fuel - rounds t) (pointer t) p.after (tips t)
    ∙ ap (λ x. finished (record { iter = 0; parent = pointer t; memory = x; calls = tips t }))
        (p.effect.restored refl)
  where
    more : fuel ≡ rounds t + (fuel - rounds t)
    more = omega arith

-- For a valid trie in memory, with nodes and entries as for the traversal, a prefix that is not empty
-- and has no byte 0, and as many rounds as a traversal has: `shl_trie_visit` with the prefix ends and calls the callback for exactly the entries whose keys
-- start with the prefix, in the order of the trie, and leaves the memory as it was.
pub trie_visit-with_prefix :
    (lab : Labels) (trie : ℕ) (t : Placed) (prefix : List ℕ) (m : Memory) (fuel : ℕ)
    → Stored m t
    → Valid (erase lab t)
    → IsKey prefix
    → 0 < length prefix
    → rounds t ≤ fuel
    → (w : Walk) × (trie_visit fuel lab trie (pointer t) prefix m ≡ finished w)
      × (w.calls ≡ with_prefix prefix (entries (erase lab t)))
      × (w.memory ≡ m)
unfolding trie_visit
trie_visit-with_prefix lab trie t prefix m fuel s v hp pos le =
    let (w, e, c, q) = result (starts_with prefix (lab.key (descend lab prefix t t).0)) refl in
    (w, searched ∙ e, c, q)
  where
    last : ℕ
    last = (descend lab prefix t t).0

    top : Placed
    top = (descend lab prefix t t).1

    top_fits : Stored m (descend lab prefix t t).1 × (rounds (descend lab prefix t t).1 ≤ fuel)
    top_fits =
        descend-top lab prefix m (λ u. Stored m u × (rounds u ≤ fuel))
          (λ a l r h. (h.0.4, omega (arith, h.1))) (λ a l r h. (h.0.5, omega (arith, h.1))) t t
          (s, le) (s, le)

    last_fits : IsAligned (descend lab prefix t t).0 × ((descend lab prefix t t).0 ≢ 0)
    last_fits = descend-tip lab prefix m (λ u. Stored m u) (λ a l r h. h.4) (λ a l r h. h.5) t t s

    nothing : Ended
    nothing = finished (walk_at 0 0 m [])

    found :
        visit_search fuel lab m prefix (pointer t) (pointer t)
        ≡ some ((descend lab prefix t t).0, pointer (descend lab prefix t t).1)
    found = visit_search-descend lab prefix m t t fuel s (omega arith)

    root_set : (pointer t == 0) ≡ false
    root_set = ground (arith, pointer-ne_zero m t s)

    longer : (length prefix == 0) ≡ false
    longer = ground arith

    compared :
        prefix_matches prefix 0 (lab.key (get_entry (descend lab prefix t t).0))
        ≡ starts_with prefix (lab.key (descend lab prefix t t).0)
    compared =
        ap (λ e. prefix_matches prefix 0 (lab.key e)) (get_entry-entry last_fits.0)
        ∙ prefix_matches-starts_with prefix 0 (lab.key (descend lab prefix t t).0) hp

    searched : trie_visit fuel lab trie (pointer t) prefix m ≡ (
        if starts_with prefix (lab.key (descend lab prefix t t).0)
        then trie_traverse fuel false (pointer (descend lab prefix t t).1) m
        else finished (walk_at 0 0 m []))
    searched = rw (root_set, longer, found, compared) refl

    listed :
        with_prefix prefix (entries (erase lab t)) ≡ selected lab prefix (descend lab prefix t t)
    listed = with_prefix-selected lab prefix t hp v

    result :
        (b : Bool)
        → starts_with prefix (lab.key (descend lab prefix t t).0) ≡ b
        → (w : Walk) × ((if b
              then trie_traverse fuel false (pointer (descend lab prefix t t).1) m
              else finished (walk_at 0 0 m []))
            ≡ finished w)
          × (w.calls ≡ with_prefix prefix (entries (erase lab t)))
          × (w.memory ≡ m)
    result true e = (
      walk_at 0 (pointer (descend lab prefix t t).1) m (tips (descend lab prefix t t).1),
      trie_traverse_enough (descend lab prefix t t).1 m fuel top_fits.0 top_fits.1,
      sym (listed ∙ rw e refl),
      refl,
    )
    result false e = (walk_at 0 0 m [], refl, sym (listed ∙ rw e refl), refl)

-- For a trie that is not empty, behind an aligned pointer that is not NULL: without a prefix
-- `shl_trie_visit` does not visit the trie: it calls the callback once, for the
-- address of the `struct shl_trie` as if that were an entry.
pub trie_visit_no_prefix :
    (lab : Labels) (trie root : ℕ) (m : Memory) (fuel : ℕ)
    → IsAligned trie
    → trie ≢ 0
    → root ≢ 0
    → trie_visit (suc fuel) lab trie root [] m
      ≡ finished (record { iter = 0; parent = trie; memory = m; calls = trie ∷ [] })
unfolding trie_visit trie_traverse walk walk_step make_entry
trie_visit_no_prefix lab trie root m fuel h ne nz =
    rw (root_set, is_node-entry h, get_entry-entry h, trie_set) (walk_null fuel trie m (trie ∷ []))
  where
    root_set : (root == 0) ≡ false
    root_set = ground arith

    trie_set : (trie == 0) ≡ false
    trie_set = ground arith
