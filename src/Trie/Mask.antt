-- ===== src/Trie/Mask.antt =====
-- `otherbits` is a byte with one bit unset: which direction it gives, and how an insertion finds it.
use libshl.Base.{
  ==→eq, Bool, Bool-cases, ap, arith, false, if◌then◌else◌, inl, inr, leb, ltb, refl, suc, true,
  zero, ℕ, ◌%◌, ◌-◌, ◌/◌, ◌<◌, ◌==◌, ◌^◌, ◌≡◌, ◌≤◌,
}
use libshl.Macro.{bit_length}
use libshl.Trie.{direction, new_otherbits}

-- Bit `k` of a byte.
abbrev pub bit : ℕ → ℕ → ℕ
bit k c = c / 2 ^ k % 2

-- A table of tests, checked up to its last row.
table : (ℕ → Bool) → ℕ → Bool
table row zero = row zero
table row (suc last) = if row (suc last) then table row last else false

row-table : (row : ℕ → Bool) {last : ℕ} (i : ℕ) → table row last ≡ true → i ≤ last → row i ≡ true
unfolding table
row-table row {last = zero} zero h le = h
row-table row {last = zero} (suc i) h le = absurd (omega arith)
row-table row {last = suc last} i h le = elim (Bool-cases (i == suc last)) [
  | inl e ↦ ground (arith, ap row (==→eq i (suc last) e))
  | inr e ↦ row-table row {last = last} i (ground arith) (ground arith)
]

abbrev direction_row : ℕ → ℕ → Bool
direction_row k c = direction (255 - 2 ^ k) c == bit k c

direction_table : table (λ k. table (direction_row k) 255) 7 ≡ true
unfolding table direction
direction_table = refl

-- The direction at a node is the bit that its mask leaves unset.
pub direction-bit : (k c : ℕ) → k < 8 → c < 256 → direction (255 - 2 ^ k) c ≡ bit k c
direction-bit k c h p = ==→eq (direction (255 - 2 ^ k) c) (bit k c) (
    row-table (direction_row k) {last = 255} c
      (row-table (λ j. table (direction_row j) 255) {last = 7} k direction_table (omega arith))
      (omega arith))

abbrev otherbits_row : ℕ → Bool
otherbits_row x = if x == 0 then true else new_otherbits x == 255 - 2 ^ (bit_length 8 x - 1)

otherbits_table : table otherbits_row 255 ≡ true
unfolding table new_otherbits bit_length
otherbits_table = refl

-- The mask of an insertion leaves the highest bit of the difference unset.
pub new_otherbits-bit_length :
    (x : ℕ) → 0 < x → x < 256 → new_otherbits x ≡ 255 - 2 ^ (bit_length 8 x - 1)
new_otherbits-bit_length x p h =
    ground (arith, row-table otherbits_row {last = 255} x otherbits_table (omega arith))

abbrev order_row : ℕ → ℕ → Bool
order_row k j = if ltb (255 - 2 ^ k) (255 - 2 ^ j) then ltb j k else leb k j

order_table : table (λ k. table (order_row k) 7) 7 ≡ true
unfolding table
order_table = refl

-- A larger mask stands for a lower bit.
pub mask_order : (k j : ℕ) → k < 8 → j < 8 → ltb (255 - 2 ^ k) (255 - 2 ^ j) ≡ ltb j k
mask_order k j h p = ground (
  arith,
  row-table (order_row k) {last = 7} j
      (row-table (λ i. table (order_row i) 7) {last = 7} k order_table (omega arith)) (omega arith),
)
