-- ===== src/Trie/Tag.antt =====
-- src/shl_trie.c: the marks in the two lowest bits of a pointer. A pointer is its address, with 64
-- bits.
use libshl.Base.{Bool, bit_and, bit_or, not, ℕ, ◌-◌, ◌==◌, ◌^◌}

-- `shl_trie_is_node`
unfoldable pub is_node : ℕ → Bool
is_node ptr = not (bit_and ptr 1 == 0)

-- `shl_trie_get_node`
unfoldable pub get_node : ℕ → ℕ
get_node ptr = bit_and ptr (2 ^ 64 - 1 - 3)

-- `shl_trie_get_entry`
unfoldable pub get_entry : ℕ → ℕ
get_entry ptr = bit_and ptr (2 ^ 64 - 1 - 2)

-- `shl_trie_make_node`
unfoldable pub make_node : ℕ → ℕ
make_node address = bit_or address 1

-- `shl_trie_make_entry`
unfoldable pub make_entry : ℕ → ℕ
make_entry address = address

-- `shl_trie_is_visited`
unfoldable pub is_visited : ℕ → Bool
is_visited ptr = not (bit_and ptr 2 == 0)

-- `shl_trie_clear_visited`
unfoldable pub clear_visited : ℕ → ℕ
clear_visited ptr = bit_and ptr (2 ^ 64 - 1 - 2)

-- `shl_trie_mark_visited`
unfoldable pub mark_visited : ℕ → ℕ
mark_visited ptr = bit_or ptr 2
