-- ===== src/Trie/Marks.antt =====
-- The marks in the two lowest bits of a pointer do not disturb the address.
use libshl.Base.{
  ap, arith, bit_and, bit_or, false, suc, true, ℕ, ◌%◌, ◌*◌, ◌+◌, ◌-◌, ◌/◌, ◌<◌, ◌^◌, ◌∙◌, ◌≡◌,
}
use libshl.Base.Bits.{and_split, bit_and_mask}
use libshl.Base.Or.{bit_or-zero, or_split}
use libshl.Trie.Tag.{
  clear_visited, get_entry, get_node, is_node, is_visited, make_entry, make_node, mark_visited,
}

-- The address of a node or an entry, which the alignment leaves at 0 in its two lowest bits.
pub record IsAligned (address : ℕ) : Type 0 where
  pub low_bits : address % 4 ≡ 0
  pub bounded : address < 2 ^ 64

-- A pointer without the second mark.
pub record IsUnmarked (ptr : ℕ) : Type 0 where
  pub low_bit : ptr % 4 < 2
  pub bounded : ptr < 2 ^ 64

bit_and-one : (x : ℕ) → bit_and x 1 ≡ x % 2
bit_and-one x = bit_and_mask 1 x

bit_and-two : (x : ℕ) → bit_and x 2 ≡ x / 2 % 2 * 2
bit_and-two x = omega (arith, and_split x 2, bit_and-one (x / 2))

bit_and-high : (x : ℕ) → x < 2 ^ 64 → bit_and x (2 ^ 64 - 1 - 3) ≡ x - x % 4
bit_and-high x h = omega (
  arith,
  and_split x (2 ^ 64 - 1 - 3),
  and_split (x / 2) (2 ^ 63 - 2),
  bit_and_mask 62 (x / 2 / 2),
)

bit_and-not_two : (x : ℕ) → x < 2 ^ 64 → bit_and x (2 ^ 64 - 1 - 2) ≡ x - x / 2 % 2 * 2
bit_and-not_two x h = omega (
  arith,
  and_split x (2 ^ 64 - 1 - 2),
  and_split (x / 2) (2 ^ 63 - 2),
  bit_and_mask 62 (x / 2 / 2),
)

bit_or-one : (x : ℕ) → bit_or x 1 ≡ x - x % 2 + 1
bit_or-one x = omega (arith, or_split x 1, bit_or-zero (x / 2))

bit_or-two : (x : ℕ) → bit_or x 2 ≡ x - x / 2 % 2 * 2 + 2
bit_or-two x = omega (arith, or_split x 2, bit_or-one (x / 2))

module _ {a : ℕ} (h : IsAligned a) where
  pub make_node-suc : make_node a ≡ suc a
  unfolding make_node
  make_node-suc = omega (arith, bit_or-one a, h.low_bits)

  pub is_node-entry : is_node a ≡ false
  unfolding is_node
  is_node-entry = ground (arith, bit_and-one a, h.low_bits)

  pub is_node-node : is_node (suc a) ≡ true
  unfolding is_node
  is_node-node = ground (arith, bit_and-one (suc a), h.low_bits)

  pub get_node-node : get_node (suc a) ≡ a
  unfolding get_node
  get_node-node = omega (arith, bit_and-high (suc a), h.low_bits, h.bounded)

  pub get_entry-entry : get_entry a ≡ a
  unfolding get_entry
  get_entry-entry = omega (arith, bit_and-not_two a, h.low_bits, h.bounded)

  pub entry-IsUnmarked : IsUnmarked a
  entry-IsUnmarked = record { low_bit = omega (arith, h.low_bits); bounded = h.bounded }

  pub node-IsUnmarked : IsUnmarked (suc a)
  node-IsUnmarked = record {
    low_bit = omega (arith, h.low_bits);
    bounded = omega (arith, h.low_bits, h.bounded);
  }

module _ {p : ℕ} (h : IsUnmarked p) where
  pub is_visited-unmarked : is_visited p ≡ false
  unfolding is_visited
  is_visited-unmarked = ground (arith, bit_and-two p, h.low_bit)

  pub is_visited-mark_visited : is_visited (mark_visited p) ≡ true
  unfolding is_visited mark_visited
  is_visited-mark_visited = ground (arith, bit_and-two (bit_or p 2), bit_or-two p, h.low_bit)

  pub clear_visited-unmarked : clear_visited p ≡ p
  unfolding clear_visited
  clear_visited-unmarked = omega (arith, bit_and-not_two p, h.low_bit, h.bounded)

  pub clear_visited-mark_visited : clear_visited (mark_visited p) ≡ p
  unfolding clear_visited mark_visited
  clear_visited-mark_visited =
      omega (arith, bit_and-not_two (bit_or p 2), bit_or-two p, h.low_bit, h.bounded)

-- Every mark can be set, tested and removed, and what is behind it is the pointer from before: for
-- aligned addresses of nodes and entries, the kind of a pointer is recovered, and the mark of a
-- visit is.
pub marks_lem :
    (a p : ℕ)
    → IsAligned a
    → IsUnmarked p
    → (get_node (make_node a) ≡ a)
      × (is_node (make_node a) ≡ true)
      × (is_node (make_entry a) ≡ false)
      × (get_entry (make_entry a) ≡ a)
      × (is_visited p ≡ false)
      × (is_visited (mark_visited p) ≡ true)
      × (clear_visited (mark_visited p) ≡ p)
      × (clear_visited p ≡ p)
unfolding make_entry
marks_lem a p h u = (
  ap get_node (make_node-suc h) ∙ get_node-node h,
  ap is_node (make_node-suc h) ∙ is_node-node h,
  is_node-entry h,
  get_entry-entry h,
  is_visited-unmarked u,
  is_visited-mark_visited u,
  clear_visited-mark_visited u,
  clear_visited-unmarked u,
)
