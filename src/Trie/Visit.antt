-- ===== src/Trie/Visit.antt =====
-- src/shl_trie.c, `shl_trie_visit`, on the memory of the nodes.
use libshl.Base.{
  Bool, List, Option, [], false, if◌then◌else◌, length, ltb, none, some, suc, true, zero, ℕ, ◌+◌,
  ◌==◌, ◌∷◌,
}
use libshl.Trie.{byte_at, goes_right}
use libshl.Trie.Tag.{get_entry, get_node, is_node}
use libshl.Trie.Traverse.{Ended, Memory, finished, trie_traverse, unfinished}

-- What the loops only read: `byte` and `otherbits` of a node, and the key of an entry.
pub record Labels : Type 0 where
  pub byte : ℕ → ℕ
  pub otherbits : ℕ → ℕ
  pub key : ℕ → List ℕ

-- The search for the closest entry (`iter`) and for the subtree with the prefix (`top`); `none`
-- means that the fuel ran out.
unfoldable pub visit_search : ℕ → Labels → Memory → List ℕ → ℕ → ℕ → Option (ℕ × ℕ)
visit_search zero lab m prefix iter top = if is_node iter then none else some (iter, top)
visit_search (suc fuel) lab m prefix iter top =
    let n = get_node iter in
    let following =
      if goes_right (lab.byte n) (lab.otherbits n) prefix then m.child1 n else m.child0 n in
    let rest =
      visit_search fuel lab m prefix following
        (if ltb (lab.byte n) (length prefix) then following else top) in
    if is_node iter then rest else some (iter, top)

-- The comparison of the prefix with the key of the closest entry.
unfoldable pub prefix_matches : List ℕ → ℕ → List ℕ → Bool
prefix_matches [] i key = true
prefix_matches (c ∷ prefix) i key =
    if c == byte_at key i then prefix_matches prefix (i + 1) key else false

-- `shl_trie_visit`; `trie` is the address of the `struct shl_trie`, and an empty list is a prefix
-- that is NULL or of length 0.
unfoldable pub trie_visit : ℕ → Labels → ℕ → ℕ → List ℕ → Memory → Ended
trie_visit fuel lab trie root prefix m =
    let nothing = finished (record { iter = 0; parent = 0; memory = m; calls = [] }) in
    if root == 0
    then nothing
    else if length prefix == 0
    then trie_traverse fuel false trie m
    else elim (visit_search fuel lab m prefix root root) [
      | none ↦ unfinished
      | some (iter, top) ↦
          if prefix_matches prefix 0 (lab.key (get_entry iter))
          then trie_traverse fuel false top m
          else nothing
    ]
