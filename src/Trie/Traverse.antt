-- ===== src/Trie/Traverse.antt =====
-- src/shl_trie.c, `shl_trie_traverse` and `shl_trie_clear`, on the memory of the nodes: the loop goes
-- down by storing the way back in the children that it has taken.
use libshl.Base.{
  Bool, List, Option, [], false, if◌then◌else◌, none, not, some, suc, true, zero, ℕ, ◌++◌, ◌==◌,
  ◌∷◌,
}
use libshl.Trie.Tag.{
  clear_visited, get_entry, get_node, is_node, is_visited, make_entry, make_node, mark_visited,
}

-- `node->childs` at each address, and whether the node there is allocated.
pub record Memory : Type 0 where
  pub child0 : ℕ → ℕ
  pub child1 : ℕ → ℕ
  pub live : ℕ → Bool

abbrev pub update {ℓ} : {A : Type ℓ} → (ℕ → A) → ℕ → A → ℕ → A
update f p v q = if p == q then v else f q

abbrev pub set_child0 : ℕ → ℕ → Memory → Memory
set_child0 p v m = record m { child0 = update m.child0 p v }

abbrev pub set_child1 : ℕ → ℕ → Memory → Memory
set_child1 p v m = record m { child1 = update m.child1 p v }

-- `free`
abbrev pub release : ℕ → Memory → Memory
release p m = record m { live = update m.live p false }

-- The variables of `shl_trie_traverse`, and the entries that `do_cb` got, in order.
pub record Walk : Type 0 where
  pub iter : ℕ
  pub parent : ℕ
  pub memory : Memory
  pub calls : List ℕ

-- The branch for a node at `n`, in the three states that its children tell; `none` is a use of a
-- node that is freed. `frees` is `flags & SHL_TRIE_FREE`.
unfoldable pub node_step : Bool → ℕ → Walk → Option Walk
node_step frees n s =
    if not (s.memory.live n)
    then none
    else if is_visited (s.memory.child1 n)
    then some (record s {
      iter = clear_visited (s.memory.child1 n);
      parent = make_node n;
      memory = if frees then release n s.memory else set_child1 n (clear_visited s.parent) s.memory;
    })
    else if is_visited (s.memory.child0 n)
    then some (record s {
      iter = s.memory.child1 n;
      parent = make_node n;
      memory = set_child0 n (clear_visited s.parent) (set_child1 n (s.memory.child0 n) s.memory);
    })
    else some (record s {
      iter = s.memory.child0 n;
      parent = make_node n;
      memory = set_child0 n (mark_visited s.parent) s.memory;
    })

-- One round of the loop.
unfoldable pub walk_step : Bool → Walk → Option Walk
walk_step frees s =
    if is_node s.iter
    then node_step frees (get_node s.iter) s
    else some (record s {
      iter = s.parent;
      parent = make_entry (get_entry s.iter);
      calls = s.calls ++ (get_entry s.iter ∷ []);
    })

-- How the loop ends: at NULL, at a use of a freed node, or because the fuel ran out.
pub data Ended : Type 0 where
  finished : Walk → Ended
  faulted : Ended
  unfinished : Ended

unfoldable pub walk : ℕ → Bool → Walk → Ended
walk zero frees s = if s.iter == 0 then finished s else unfinished
walk (suc fuel) frees s =
    if s.iter == 0
    then finished s
    else elim (walk_step frees s) [ none ↦ faulted | some s' ↦ walk fuel frees s' ]

-- `shl_trie_traverse`, with a callback
unfoldable pub trie_traverse : ℕ → Bool → ℕ → Memory → Ended
trie_traverse fuel frees sub_trie m =
    walk fuel frees (record { iter = sub_trie; parent = 0; memory = m; calls = [] })

-- `shl_trie_clear`: the walk, and the new root.
unfoldable pub trie_clear : ℕ → ℕ → Memory → Ended × ℕ
trie_clear fuel root m = (trie_traverse fuel true root m, 0)
