-- ===== src/Trie/Passes.antt =====
-- A walk passes through every subtree, by induction on it.
use libshl.Base.{
  All, All-append, All-split, Bool, List, [], ap, append_assoc, arith, false, if◌then◌else◌, refl,
  suc, sym, true, ℕ, ◌++◌, ◌+◌, ◌∙◌, ◌≡◌, ◌≢◌,
}
use libshl.Dlist.Ring.{Apart-comm}
use libshl.Trie.Marks.{IsUnmarked, node-IsUnmarked}
use libshl.Trie.Placed.{
  All-map, All-zip, Avoids, Holds, Placed, Same, Same-trans, Stored, Stored-Same, fork_at, forks,
  pointer, pointer-IsUnmarked, rounds, tip, tips,
}
use libshl.Trie.Tag.{mark_visited}
use libshl.Trie.Traverse.{Memory, finished, release, set_child0, set_child1, trie_traverse, walk}
use libshl.Trie.Walks.{
  Passes, Same-left, Same-set_child0, Same-set_child1, across, back, down, left_live, put_back,
  tip_step, walk-round, walk_at,
}

-- Addresses that avoid the nodes of `l` and of `r`, from the other side.
avoid_left : (l r : Placed) → All (λ b. Avoids b r) (forks l) → All (λ b. Avoids b l) (forks r)
avoid_left l r d = Apart-comm (forks l) (forks r) d

module _ (frees : Bool) (up a : ℕ) (l r : Placed) (m : Memory) (c : List ℕ) (u : IsUnmarked up)
    (h : Holds m a (pointer l) (pointer r)) (vl : Avoids a l) (vr : Avoids a r)
    (d : All (λ b. Avoids b r) (forks l)) (sl : Stored m l) (sr : Stored m r) where
  -- The memory with which the walk goes into the left child.
  abbrev entered : Memory
  entered = set_child0 a (mark_visited up) m

  entered-Stored : Stored entered l
  entered-Stored =
      Stored-Same m entered l
        (All-map (forks l) (λ b n. Same-set_child0 m a (mark_visited up) b n) vl) sl

  module _ (left : Passes frees (suc a) l entered c) where
    -- The memory with which it goes into the right child.
    abbrev crossed : Memory
    crossed = set_child0 a (pointer l) (set_child1 a (mark_visited up) left.after)

    left_at : Same entered left.after a
    left_at = left.effect.outside a vl

    crossed-Same : (b : ℕ) → b ≢ a → Avoids b l → Same m crossed b
    crossed-Same b n v = Same-trans (Same-set_child0 m a (mark_visited up) b n) (
        Same-trans (left.effect.outside b v) (
          Same-trans (Same-set_child1 left.after a (mark_visited up) b n)
            (Same-set_child0 (set_child1 a (mark_visited up) left.after) a (pointer l) b n)))

    crossed-Stored : Stored crossed r
    crossed-Stored =
        Stored-Same m crossed r (All-zip (forks r) crossed-Same vr (avoid_left l r d)) sr

    module _ (right : Passes frees (suc a) r crossed (c ++ tips l)) where
      -- The memory at the end.
      abbrev left_behind : Memory
      left_behind = if frees then release a right.after else set_child1 a (pointer r) right.after

      right_at : Same crossed right.after a
      right_at = right.effect.outside a vr

      live_left : left.after.live a ≡ true
      live_left = left_at.same_live ∙ h.allocated

      path :
          (k : ℕ)
          → walk (rounds (fork_at a l r) + k) frees (walk_at (suc a) up m c)
            ≡ walk k frees (walk_at up (suc a) left_behind (c ++ (tips l ++ tips r)))
      path k =
          ap (λ n. walk n frees (walk_at (suc a) up m c)) first
          ∙ walk-round (rounds l + suc (rounds r + suc k)) frees _ _ (omega arith)
              (down frees h.aligned m c h.allocated ul ur up h.left h.right)
          ∙ left.path (suc (rounds r + suc k))
          ∙ walk-round (rounds r + suc k) frees _ _ (omega arith) (
              across frees h.aligned left.after (c ++ tips l) live_left ul ur up u
                (left_at.same0 ∙ ground arith) (left_at.same1 ∙ h.right))
          ∙ right.path (suc k)
          ∙ walk-round k frees _ _ (omega arith) (
              back frees h.aligned right.after ((c ++ tips l) ++ tips r)
                (right_at.same_live ∙ live_left) ul ur up u (right_at.same1 ∙ ground arith))
          ∙ ap (λ x. walk k frees (walk_at up (suc a) left_behind x))
              (append_assoc c (tips l) (tips r))
        where
          first : rounds (fork_at a l r) + k ≡ suc (rounds l + suc (rounds r + suc k))
          first = omega arith

          ul : IsUnmarked (pointer l)
          ul = pointer-IsUnmarked m l sl

          ur : IsUnmarked (pointer r)
          ur = pointer-IsUnmarked m r sr

      restored : frees ≡ false → left_behind ≡ m
      restored e =
          ap (λ b. if b then release a right.after else set_child1 a (pointer r) right.after) e
          ∙ ap (set_child1 a (pointer r)) (right.effect.restored e)
          ∙ ap
              (λ x.
                set_child1 a (pointer r)
                  (set_child0 a (pointer l) (set_child1 a (mark_visited up) x)))
              (left.effect.restored e)
          ∙ put_back m a (pointer l) (pointer r) (mark_visited up) h.left h.right

      released : frees ≡ true → All (λ b. left_behind.live b ≡ false) (forks (fork_at a l r))
      released e = (
        rw e (ground arith),
        All-append (λ b. left_behind.live b ≡ false) (forks l) (forks r)
            (All-zip (forks l) kept d (left.effect.released e))
            (All-map (forks r) (λ b f. left_live frees right.after a (pointer r) b f)
              (right.effect.released e)),
      )
        where
          kept : (b : ℕ) → Avoids b r → left.after.live b ≡ false → left_behind.live b ≡ false
          kept b v f =
              left_live frees right.after a (pointer r) b ((right.effect.outside b v).same_live ∙ f)

      outside : (b : ℕ) → Avoids b (fork_at a l r) → Same m left_behind b
      outside b (ne, v) =
          let (wl, wr) = All-split (λ x. x ≢ b) (forks l) (forks r) v in
          Same-trans (crossed-Same b (λ q. ne (sym q)) wl) (
            Same-trans (right.effect.outside b wr)
              (Same-left frees right.after a (pointer r) b (λ q. ne (sym q))))

      fork-Passes : Passes frees up (fork_at a l r) m c
      fork-Passes = record {
        after = left_behind;
        path = path;
        effect = record { outside = outside; restored = restored; released = released };
      }

pub walk-Passes :
    (frees : Bool) (t : Placed) (up : ℕ) (m : Memory) (c : List ℕ)
    → IsUnmarked up
    → Stored m t
    → Passes frees up t m c
walk-Passes frees (tip e) up m c u (h, ne) = record {
  after = m;
  path = λ k.
      ap (λ n. walk n frees (walk_at e up m c)) (one k)
      ∙ walk-round k frees _ _ ne (tip_step frees h up m c);
  effect = record {
    outside = λ b v. record { same0 = refl; same1 = refl; same_live = refl };
    restored = λ q. refl;
    released = λ q. tt;
  };
}
  where
    one : (k : ℕ) → 1 + k ≡ suc k
    one k = omega arith
walk-Passes frees (fork_at a l r) up m c u (h, vl, vr, d, sl, sr) =
    let first =
      walk-Passes frees l (suc a) (entered frees up a l r m c u h vl vr d sl sr) c
        (node-IsUnmarked h.aligned) (entered-Stored frees up a l r m c u h vl vr d sl sr) in
    let second =
      walk-Passes frees r (suc a) (crossed frees up a l r m c u h vl vr d sl sr first) (c ++ tips l)
        (node-IsUnmarked h.aligned) (crossed-Stored frees up a l r m c u h vl vr d sl sr first) in
    fork-Passes frees up a l r m c u h vl vr d sl sr first second

-- For a subtree in memory, with allocated and aligned nodes that are all different and aligned entries
-- that are not NULL: `shl_trie_traverse` ends within the given rounds and touches no node that is freed. It calls the
-- callback for every entry of the subtree once, from left to right. Without SHL_TRIE_FREE all
-- pointers are then as they were; with it every node of the subtree is freed. Nodes outside are left
-- alone.
pub trie_traverse_lem :
    (frees : Bool) (t : Placed) (m : Memory)
    → Stored m t
    → (m' : Memory) × (trie_traverse (rounds t) frees (pointer t) m
        ≡ finished (record { iter = 0; parent = pointer t; memory = m'; calls = tips t }))
      × (frees ≡ false → m' ≡ m)
      × (frees ≡ true → All (λ b. m'.live b ≡ false) (forks t))
      × ((b : ℕ) → Avoids b t → Same m m' b)
unfolding trie_traverse
trie_traverse_lem frees t m s =
    let p =
      walk-Passes frees t 0 m [] (record { low_bit = omega arith; bounded = omega arith }) s in
    (
      p.after,
      ap (λ n. walk n frees (walk_at (pointer t) 0 m [])) none_left
          ∙ p.path 0
          ∙ unfold walk in refl,
      p.effect.restored,
      p.effect.released,
      p.effect.outside,
    )
  where
    none_left : rounds t ≡ rounds t + 0
    none_left = omega arith
