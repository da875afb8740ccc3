-- ===== src/Trie.antt =====
-- src/shl_trie.h and src/shl_trie.c: crit-bit tries. A tagged pointer is a constructor, and a walk
-- that follows `where` through the nodes is a recursion that rebuilds the nodes on its way. Keys are
-- C strings: lists of bytes other than 0, and `keylen` is their length.
pub mod Tag
pub mod Marks
pub mod Traverse
pub mod Placed
pub mod Walks
pub mod Passes
pub mod Visit
pub mod Prefix
pub mod Visited
pub mod Called
pub mod Mask
pub mod Position
pub mod Valid
pub mod Lookup
pub mod Difference
pub mod Inserted
pub mod Fork
pub mod Insert
pub mod Map
pub mod Remove
mod Examples
use libshl.Base.{
  Bool, List, Option, [], bit_and, bit_or, bit_xor, false, get_or, if◌then◌else◌, length, ltb, none,
  some, suc, true, zero, ℕ, ◌&&◌, ◌+◌, ◌-◌, ◌/◌, ◌==◌, ◌||◌, ◌∷◌,
}
use libshl.Base.Memory.{Outcome, ealready, efault, enomem, err, ok}

-- `struct shl_trie_entry`: the user's object, by the address of its key pointer and by its key.
pub record Entry : Type 0 where
  pub addr : ℕ
  pub key : List ℕ

-- An entry, or a `struct shl_trie_node` with `byte`, `otherbits` and its two children.
pub data Node : Type 0 where
  entry : Entry → Node
  node : ℕ → ℕ → Node → Node → Node

-- `struct shl_trie`; `none` is a root that is NULL.
abbrev pub Trie : Type 0
Trie = Option Node

-- `node->byte < keylen ? key[node->byte] : 0`
abbrev pub byte_at : List ℕ → ℕ → ℕ
byte_at key i = get_or key i 0

-- `(1 + (uint16_t)(otherbits | c)) >> 8`
unfoldable pub direction : ℕ → ℕ → ℕ
direction otherbits c = (1 + bit_or otherbits c) / 256

-- The child that a walk goes on with.
unfoldable pub goes_right : ℕ → ℕ → List ℕ → Bool
goes_right byte otherbits key = if direction otherbits (byte_at key byte) == 0 then false else true

-- The first loop of `shl_trie_lookup` and `shl_trie_insert`: the closest entry.
unfoldable pub closest : List ℕ → Node → Entry
closest key (entry e) = e
closest key (node byte otherbits l r) =
    if goes_right byte otherbits key then closest key r else closest key l

-- `!strcmp(a, b)`
unfoldable pub same_key : List ℕ → List ℕ → Bool
same_key [] [] = true
same_key [] (y ∷ ys) = false
same_key (x ∷ xs) [] = false
same_key (x ∷ xs) (y ∷ ys) = x == y && same_key xs ys

-- `shl_trie_lookup`
unfoldable pub trie_lookup : Trie → List ℕ → Option Entry
trie_lookup none key = none
trie_lookup (some t) key = if same_key key (closest key t).key then some (closest key t) else none

-- `shl_check_alignment`
unfoldable pub check_alignment : ℕ → Bool
check_alignment addr = bit_and addr 3 == 0

-- The search for the first byte that differs: its index and the exclusive or there. The first
-- argument counts the bytes of the key that are left.
unfoldable pub first_difference : ℕ → ℕ → List ℕ → List ℕ → Option (ℕ × ℕ)
first_difference zero i ekey key = if byte_at ekey i == 0 then none else some (i, byte_at ekey i)
first_difference (suc n) i ekey key =
    if byte_at ekey i == byte_at key i
    then first_difference n (i + 1) ekey key
    else some (i, bit_xor (byte_at ekey i) (byte_at key i))

-- The four assignments to `newotherbits` behind `insert_new`.
unfoldable pub new_otherbits : ℕ → ℕ
new_otherbits x =
    let x1 = bit_or x (x / 2) in
    let x2 = bit_or x1 (x1 / 4) in
    let x3 = bit_or x2 (x2 / 16) in bit_xor (bit_and x3 (255 - x3 / 2)) 255

-- The new node over the old subtree `t`.
unfoldable pub fork : ℕ → ℕ → ℕ → Entry → Node → Node
fork newbyte newotherbits newdirection e t =
    if newdirection == 0
    then node newbyte newotherbits t (entry e)
    else node newbyte newotherbits (entry e) t

-- The second loop of `shl_trie_insert`, and the writes behind it.
unfoldable pub insert_at : ℕ → ℕ → ℕ → Entry → Node → Node
insert_at newbyte newotherbits newdirection e (entry x) =
    fork newbyte newotherbits newdirection e (entry x)
insert_at newbyte newotherbits newdirection e (node byte otherbits l r) =
    if ltb newbyte byte || byte == newbyte && ltb newotherbits otherbits
    then fork newbyte newotherbits newdirection e (node byte otherbits l r)
    else if goes_right byte otherbits e.key
    then node byte otherbits l (insert_at newbyte newotherbits newdirection e r)
    else node byte otherbits (insert_at newbyte newotherbits newdirection e l) r

-- `shl_trie_insert` behind the search, with what the search found.
unfoldable pub insert_new : Bool → Entry → Node → Entry → ℕ × ℕ → Outcome Trie
insert_new alloc e t c (newbyte, x) =
    let ob = new_otherbits x in
    if alloc
    then ok (some (insert_at newbyte ob (direction ob (byte_at c.key newbyte)) e t))
    else err enomem

-- `shl_trie_insert`: the new trie, -EFAULT, -EALREADY or -ENOMEM. `alloc` says whether
-- `posix_memalign` succeeds.
unfoldable pub trie_insert : Bool → Trie → Entry → Outcome Trie
trie_insert alloc none e = if check_alignment e.addr then ok (some (entry e)) else err efault
trie_insert alloc (some t) e =
    if check_alignment e.addr
    then elim (first_difference (length e.key) 0 (closest e.key t).key e.key) [
      | none ↦ err ealready
      | some d ↦ insert_new alloc e t (closest e.key t) d
    ]
    else err efault

-- What is left of a subtree from which an entry is removed.
pub data Removed : Type 0 where
  absent : Removed
  gone : Entry → Removed
  kept : Entry → Node → Removed

-- The child's place is taken by what is left of it, or by its sibling.
unfoldable pub relink : (Node → Node) → Node → Removed → Removed
relink rebuild sibling absent = absent
relink rebuild sibling (gone e) = kept e sibling
relink rebuild sibling (kept e t) = kept e (rebuild t)

-- The walk of `shl_trie_remove`, and the unlinking behind it.
unfoldable pub remove_from : List ℕ → Node → Removed
remove_from key (entry e) = if same_key key e.key then gone e else absent
remove_from key (node byte otherbits l r) =
    let right = relink (node byte otherbits l) l (remove_from key r) in
    let left = relink (λ t. node byte otherbits t r) r (remove_from key l) in
    if goes_right byte otherbits key then right else left

-- `shl_trie_remove`: the entry that was unlinked, if any, and the trie.
unfoldable pub trie_remove : Trie → List ℕ → Option Entry × Trie
trie_remove none key = (none, none)
trie_remove (some t) key = elim (remove_from key t) [
  | absent ↦ (none, some t)
  | gone e ↦ (some e, none)
  | kept e t' ↦ (some e, some t')
]
