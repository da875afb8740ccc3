-- ===== src/Trie/Examples.antt =====
-- The theorems of Trie at concrete tries.
use libshl.Trie.Valid.{contents}
use libshl.Base.{
  All, [], arith, false, if◌then◌else◌, none, refl, some, suc, true, zero, ℕ, ◌%◌, ◌<◌, ◌==◌, ◌^◌,
  ◌∷◌, ◌≡◌,
}
use libshl.Base.Memory.{ok}
use libshl.Trie.{
  Entry, Trie, check_alignment, closest, direction, entry, first_difference, fork, goes_right,
  insert_at, insert_new, new_otherbits, node, same_key, trie_insert, trie_lookup, trie_remove,
}
use libshl.Trie.Called.{trie_visit-with_prefix, trie_visit_no_prefix}
use libshl.Trie.Lookup.{find, trie_lookup-find}
use libshl.Trie.Map.{Inserts, trie_insert-Inserts, trie_lookup-trie_insert, trie_remove_lem}
use libshl.Trie.Marks.{IsAligned}
use libshl.Trie.Passes.{trie_traverse_lem}
use libshl.Trie.Placed.{Avoids, Placed, Same, Stored, fork_at, forks, pointer, rounds, tip, tips}
use libshl.Trie.Position.{IsKey, bit_at}
use libshl.Trie.Prefix.{with_prefix}
use libshl.Trie.Traverse.{Memory, Walk, finished, trie_traverse}
use libshl.Trie.Valid.{IsTrie, branch, entries, leaf}
use libshl.Trie.Visit.{Labels, trie_visit}
use libshl.Trie.Visited.{erase}

abbrev entry_a : Entry
entry_a = record { addr = 4096; key = b'a' ∷ [] }

abbrev entry_b : Entry
entry_b = record { addr = 8192; key = b'b' ∷ b'z' ∷ [] }

abbrev entry_c : Entry
entry_c = record { addr = 12288; key = b'a' ∷ b'x' ∷ [] }

-- A trie with the keys a and bz; their first difference is in bit 1 of byte 0.
abbrev two_keys : Trie
two_keys = some (node 0 253 (entry entry_a) (entry entry_b))

entry_a-IsKey : IsKey entry_a.key
entry_a-IsKey = ((omega arith, omega arith), tt)

entry_b-IsKey : IsKey entry_b.key
entry_b-IsKey = ((omega arith, omega arith), ((omega arith, omega arith), tt))

entry_c-IsKey : IsKey entry_c.key
entry_c-IsKey = ((omega arith, omega arith), ((omega arith, omega arith), tt))

agree : (q : ℕ) → q < 6 → bit_at entry_b.key q ≡ bit_at entry_a.key q
agree zero lt = refl
agree (suc zero) lt = refl
agree (suc (suc zero)) lt = refl
agree (suc (suc (suc zero))) lt = refl
agree (suc (suc (suc (suc zero)))) lt = refl
agree (suc (suc (suc (suc (suc zero))))) lt = refl
agree (suc (suc (suc (suc (suc (suc q)))))) lt = absurd (omega arith)

two_keys-IsTrie : IsTrie two_keys
two_keys-IsTrie =
    branch 1 entry_a.key (omega arith) (omega arith) (leaf entry_a-IsKey) (leaf entry_b-IsKey) refl
      refl (λ p lt. refl) agree

trie_lookup-find_example : trie_lookup two_keys entry_b.key ≡ find entry_b.key (contents two_keys)
trie_lookup-find_example = trie_lookup-find two_keys entry_b.key two_keys-IsTrie entry_b-IsKey

trie_insert-Inserts_example : Inserts true two_keys entry_c (trie_insert true two_keys entry_c)
trie_insert-Inserts_example =
    trie_insert-Inserts true two_keys entry_c two_keys-IsTrie entry_c-IsKey

trie_remove_lem_example :
    ((trie_remove two_keys entry_a.key).0 ≡ trie_lookup two_keys entry_a.key)
    × IsTrie (trie_remove two_keys entry_a.key).1
    × (trie_lookup (trie_remove two_keys entry_a.key).1 entry_b.key
        ≡ (if same_key entry_b.key entry_a.key then none else trie_lookup two_keys entry_b.key))
trie_remove_lem_example =
    trie_remove_lem two_keys entry_a.key entry_b.key two_keys-IsTrie entry_a-IsKey entry_b-IsKey

-- The trie behind the insertion of ax, which differs from a in bit 6 of byte 1.
abbrev three_keys : Trie
three_keys = some (node 0 253 (node 1 191 (entry entry_a) (entry entry_c)) (entry entry_b))

inserted : trie_insert true two_keys entry_c ≡ ok three_keys
unfolding trie_insert insert_new insert_at fork new_otherbits first_difference check_alignment
    closest goes_right direction
inserted = refl

trie_lookup-trie_insert_example :
    trie_lookup three_keys entry_a.key
    ≡ (if same_key entry_a.key entry_c.key then some entry_c else trie_lookup two_keys entry_a.key)
trie_lookup-trie_insert_example =
    trie_lookup-trie_insert true two_keys three_keys entry_c entry_a.key two_keys-IsTrie
      entry_c-IsKey entry_a-IsKey inserted

-- The trie with the keys a and bz in memory, its node at 16384.
abbrev placed : Placed
placed = fork_at 16384 (tip 4096) (tip 8192)

abbrev stored_at : Memory
stored_at = record { child0 = λ a. 4096; child1 = λ a. 8192; live = λ a. true }

abbrev labels : Labels
labels = record {
  byte = λ a. 0;
  otherbits = λ a. 253;
  key = λ e. if e == 4096 then b'a' ∷ [] else b'b' ∷ b'z' ∷ [];
}

aligned : (a : ℕ) → a % 4 ≡ 0 → a < 2 ^ 64 → IsAligned a
aligned a e h = record { low_bits = e; bounded = h }

stored_at-Stored : Stored stored_at placed
stored_at-Stored = (
  record {
    aligned = aligned 16384 refl (omega arith);
    allocated = refl;
    left = refl;
    right = refl;
  },
  tt,
  tt,
  tt,
  (aligned 4096 refl (omega arith), omega arith),
  (aligned 8192 refl (omega arith), omega arith),
)

trie_traverse_lem_example :
    (m' : Memory) × (trie_traverse (rounds placed) true (pointer placed) stored_at
      ≡ finished (record { iter = 0; parent = pointer placed; memory = m'; calls = tips placed }))
    × (true ≡ false → m' ≡ stored_at)
    × (true ≡ true → All (λ b. m'.live b ≡ false) (forks placed))
    × ((b : ℕ) → Avoids b placed → Same stored_at m' b)
trie_traverse_lem_example = trie_traverse_lem true placed stored_at stored_at-Stored

trie_visit-with_prefix_example :
    (w : Walk) × (trie_visit 7 labels 512 (pointer placed) (b'b' ∷ []) stored_at ≡ finished w)
    × (w.calls ≡ with_prefix (b'b' ∷ []) (entries (erase labels placed)))
    × (w.memory ≡ stored_at)
trie_visit-with_prefix_example =
    trie_visit-with_prefix labels 512 placed (b'b' ∷ []) stored_at 7 stored_at-Stored
      two_keys-IsTrie ((omega arith, omega arith), tt) (omega arith) (omega arith)

trie_visit_no_prefix_example :
    trie_visit 4 labels 512 (pointer placed) [] stored_at
    ≡ finished (record { iter = 0; parent = 512; memory = stored_at; calls = 512 ∷ [] })
trie_visit_no_prefix_example =
    trie_visit_no_prefix labels 512 (pointer placed) stored_at 3 (aligned 512 refl (omega arith))
      (omega arith) (omega arith)
