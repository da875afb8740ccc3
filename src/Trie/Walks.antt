-- ===== src/Trie/Walks.antt =====
-- The walk through a trie in memory ends, visits the entries from left to right, and puts the
-- pointers back or frees every node once.
use mathlib.Core.Path.{fun_ext}
use libshl.Base.{
  ==→eq, All, Bool, Bool-cases, List, Option, [], ap, ap₂, arith, false, if◌then◌else◌, inl, inr,
  none, refl, some, suc, true, ℕ, ◌++◌, ◌+◌, ◌==◌, ◌∙◌, ◌∷◌, ◌≡◌, ◌≢◌,
}
use libshl.Trie.Marks.{
  IsAligned, IsUnmarked, clear_visited-mark_visited, clear_visited-unmarked, get_entry-entry,
  get_node-node, is_node-entry, is_node-node, is_visited-mark_visited, is_visited-unmarked,
  make_node-suc,
}
use libshl.Trie.Placed.{Avoids, Placed, Same, forks, pointer, rounds, tips}
use libshl.Trie.Tag.{make_entry, mark_visited}
use libshl.Trie.Traverse.{
  Ended, Memory, Walk, faulted, node_step, release, set_child0, set_child1, update, walk, walk_step,
}

abbrev pub walk_at : ℕ → ℕ → Memory → List ℕ → Walk
walk_at i p m c = record { iter = i; parent = p; memory = m; calls = c }

pub walk-round :
    (k : ℕ) (frees : Bool) (s s' : Walk)
    → s.iter ≢ 0
    → walk_step frees s ≡ some s'
    → walk (suc k) frees s ≡ walk k frees s'
unfolding walk
walk-round k frees s s' ne e = ground (
  arith,
  ap {B = Ended}
      (λ (o : Option Walk). elim o as (λ x. Ended) [ none ↦ faulted | some u ↦ walk k frees u ]) e,
)

module _ (frees : Bool) {a : ℕ} (h : IsAligned a) where
  pub tip_step :
      (p : ℕ) (m : Memory) (c : List ℕ)
      → walk_step frees (walk_at a p m c) ≡ some (walk_at p a m (c ++ (a ∷ [])))
  unfolding walk_step make_entry
  tip_step p m c = rw (is_node-entry h, get_entry-entry h) refl

  fork_step :
      (p : ℕ) (m : Memory) (c : List ℕ)
      → walk_step frees (walk_at (suc a) p m c) ≡ node_step frees a (walk_at (suc a) p m c)
  unfolding walk_step
  fork_step p m c = rw (is_node-node h, get_node-node h) refl

  module _ (m : Memory) (c : List ℕ) {p q : ℕ} (live : m.live a ≡ true) (u : IsUnmarked p)
      (w : IsUnmarked q) where
    -- Into the left child.
    pub down :
        (up : ℕ)
        → m.child0 a ≡ p
        → m.child1 a ≡ q
        → walk_step frees (walk_at (suc a) up m c)
          ≡ some (walk_at p (suc a) (set_child0 a (mark_visited up) m) c)
    down up e f = fork_step up m c ∙ chosen
      where
        chosen :
            node_step frees a (walk_at (suc a) up m c)
            ≡ some (walk_at p (suc a) (set_child0 a (mark_visited up) m) c)
        chosen =
            unfold node_step in
            rw (live, f, is_visited-unmarked w, e, is_visited-unmarked u, make_node-suc h) refl

    -- From the left child to the right one; `p` is the left child.
    pub across :
        (up : ℕ)
        → IsUnmarked up
        → m.child0 a ≡ mark_visited up
        → m.child1 a ≡ q
        → walk_step frees (walk_at (suc a) p m c)
          ≡ some (walk_at q (suc a) (set_child0 a p (set_child1 a (mark_visited up) m)) c)
    across up v e f = fork_step p m c ∙ chosen
      where
        chosen :
            node_step frees a (walk_at (suc a) p m c)
            ≡ some (walk_at q (suc a) (set_child0 a p (set_child1 a (mark_visited up) m)) c)
        chosen =
            unfold node_step in
            rw
              (
                live,
                f,
                is_visited-unmarked w,
                e,
                is_visited-mark_visited v,
                clear_visited-unmarked u,
                make_node-suc h,
              )
              refl

    -- Back from the right child, which is `q`.
    pub back :
        (up : ℕ)
        → IsUnmarked up
        → m.child1 a ≡ mark_visited up
        → walk_step frees (walk_at (suc a) q m c)
          ≡ some (walk_at up (suc a) (if frees then release a m else set_child1 a q m) c)
    back up v e = fork_step q m c ∙ chosen
      where
        chosen :
            node_step frees a (walk_at (suc a) q m c)
            ≡ some (walk_at up (suc a) (if frees then release a m else set_child1 a q m) c)
        chosen =
            unfold node_step in
            rw
              (
                live,
                e,
                is_visited-mark_visited v,
                clear_visited-mark_visited v,
                clear_visited-unmarked w,
                make_node-suc h,
              )
              refl

-- What a walk through a subtree leaves behind.
pub record After (frees : Bool) (m : Memory) (t : Placed) (m' : Memory) : Type 0 where
  pub outside : (b : ℕ) → Avoids b t → Same m m' b
  pub restored : frees ≡ false → m' ≡ m
  pub released : frees ≡ true → All (λ b. m'.live b ≡ false) (forks t)

-- The walk through a subtree, from its pointer back to the parent.
pub record Passes (frees : Bool) (up : ℕ) (t : Placed) (m : Memory) (c : List ℕ) : Type 0 where
  pub after : Memory
  pub path :
      (k : ℕ)
      → walk (rounds t + k) frees (walk_at (pointer t) up m c)
        ≡ walk k frees (walk_at up (pointer t) after (c ++ tips t))
  pub effect : After frees m t after

pub Same-set_child0 : (m : Memory) (a v b : ℕ) → b ≢ a → Same m (set_child0 a v m) b
Same-set_child0 m a v b ne = record { same0 = ground arith; same1 = refl; same_live = refl }

pub Same-set_child1 : (m : Memory) (a v b : ℕ) → b ≢ a → Same m (set_child1 a v m) b
Same-set_child1 m a v b ne = record { same0 = refl; same1 = ground arith; same_live = refl }

pub Same-left :
    (frees : Bool) (m : Memory) (a v b : ℕ)
    → b ≢ a
    → Same m (if frees then release a m else set_child1 a v m) b
Same-left true m a v b ne = record { same0 = refl; same1 = refl; same_live = ground arith }
Same-left false m a v b ne = Same-set_child1 m a v b ne

pub left_live :
    (frees : Bool) (m : Memory) (a v b : ℕ)
    → m.live b ≡ false
    → (if frees then release a m else set_child1 a v m).live b ≡ false
left_live true m a v b e = ground arith
left_live false m a v b e = e

-- The writes at one node cancel out.
pub put_back :
    (m : Memory) (a p q v : ℕ)
    → m.child0 a ≡ p
    → m.child1 a ≡ q
    → set_child1 a q (set_child0 a p (set_child1 a v (set_child0 a v m))) ≡ m
put_back m a p q v e f =
    ap₂ (λ x y. record m { child0 = x; child1 = y }) (fun_ext λ b. same0 b) (fun_ext λ b. same1 b)
  where
    same0 : (b : ℕ) → update (update m.child0 a v) a p b ≡ m.child0 b
    same0 b = elim (Bool-cases (a == b)) [
      | inl t ↦ ground (arith, ap m.child0 (==→eq a b t))
      | inr t ↦ ground arith
    ]

    same1 : (b : ℕ) → update (update m.child1 a v) a q b ≡ m.child1 b
    same1 b = elim (Bool-cases (a == b)) [
      | inl t ↦ ground (arith, ap m.child1 (==→eq a b t))
      | inr t ↦ ground arith
    ]
