-- ===== src/Trie/Valid.antt =====
-- What a trie holds, and the invariant of its nodes.
use libshl.Base.{
  Bool-cases, List, [], ap, arith, false, if◌then◌else◌, inl, inr, none, refl, some, sym, true, ℕ,
  ◌++◌, ◌-◌, ◌<◌, ◌==◌, ◌^◌, ◌∙◌, ◌∷◌, ◌≡◌, ◌≢◌,
}
use libshl.Trie.{Entry, Node, Trie, byte_at, closest, entry, goes_right, node, same_key}
use libshl.Trie.Mask.{direction-bit}
use libshl.Trie.Position.{Agree, IsKey, bit_at, bit_at-position, byte_at-lt, position}

-- The entries of a trie, from left to right.
abbrev pub entries : Node → List Entry
entries (entry e) = e ∷ []
entries (node byte otherbits l r) = entries l ++ entries r

-- A predicate holds of every key.
abbrev pub Keys : (List ℕ → Type 0) → Node → Type 0
Keys P (entry e) = P e.key
Keys P (node byte otherbits l r) = Keys P l × Keys P r

-- At a node all keys agree before its bit (with some key `w`), and the bit is 0 on the left and 1
-- on the right.
pub data Valid : Node → Type 0 where
  leaf : {e : Entry} → IsKey e.key → Valid (entry e)
  branch :
      {byte otherbits : ℕ} {l r : Node} (k : ℕ) (w : List ℕ)
      → k < 8
      → otherbits ≡ 255 - 2 ^ k
      → Valid l
      → Valid r
      → Keys (λ a. bit_at a (position byte k) ≡ 0) l
      → Keys (λ a. bit_at a (position byte k) ≡ 1) r
      → Keys (λ a. Agree (position byte k) a w) l
      → Keys (λ a. Agree (position byte k) a w) r
      → Valid (node byte otherbits l r)

abbrev pub IsTrie : Trie → Type 0
IsTrie none = Unit
IsTrie (some t) = Valid t

abbrev pub contents : Trie → List Entry
contents none = []
contents (some t) = entries t

pub Keys-map : {P Q : List ℕ → Type 0} (t : Node) → ((a : List ℕ) → P a → Q a) → Keys P t → Keys Q t
Keys-map (entry e) f h = f e.key h
Keys-map (node byte otherbits l r) f (h, g) = (Keys-map l f h, Keys-map r f g)

pub Valid-IsKey : {t : Node} → Valid t → Keys IsKey t
Valid-IsKey (leaf h) = h
Valid-IsKey (branch k w lt e vl vr zl zr al ar) = (Valid-IsKey vl, Valid-IsKey vr)

-- The closest entry is one of the trie's.
pub Keys-closest :
    (P : List ℕ → Type 0) (key : List ℕ) (t : Node) → Keys P t → P (closest key t).key
unfolding closest
Keys-closest P key (entry e) h = h
Keys-closest P key (node byte otherbits l r) (h, g) =
    elim (goes_right byte otherbits key)
      as (λ b. P (if b then closest key r else closest key l).key) [
        | true ↦ Keys-closest P key r g
        | false ↦ Keys-closest P key l h
      ]

-- A walk goes right where the key's bit is 1.
pub goes_right-bit_at :
    (byte k : ℕ) (key : List ℕ)
    → k < 8
    → IsKey key
    → goes_right byte (255 - 2 ^ k) key
      ≡ (if bit_at key (position byte k) == 0 then false else true)
unfolding goes_right
goes_right-bit_at byte k key h v =
    ap (λ t. if t == 0 then false else true)
      (direction-bit k (byte_at key byte) h (byte_at-lt key byte v)
        ∙ sym (bit_at-position key byte k h))

pub bit_at-le_one : (key : List ℕ) (p : ℕ) → bit_at key p < 2
bit_at-le_one key p = omega arith

-- The bit of a key at a node where its walk goes right, and where it goes left.
pub right_bit :
    (byte otherbits k : ℕ) (key : List ℕ)
    → k < 8
    → otherbits ≡ 255 - 2 ^ k
    → IsKey key
    → goes_right byte otherbits key ≡ true
    → bit_at key (position byte k) ≡ 1
right_bit byte otherbits k key h e v g = ground (
  arith,
  bit_at-le_one key (position byte k),
  goes_right-bit_at byte k key h v,
  ap (λ o. goes_right byte o key) e,
)

pub left_bit :
    (byte otherbits k : ℕ) (key : List ℕ)
    → k < 8
    → otherbits ≡ 255 - 2 ^ k
    → IsKey key
    → goes_right byte otherbits key ≡ false
    → bit_at key (position byte k) ≡ 0
left_bit byte otherbits k key h e v g =
    ground (arith, goes_right-bit_at byte k key h v, ap (λ o. goes_right byte o key) e)

-- `strcmp` tells keys apart.
pub same_key→eq : (a b : List ℕ) → same_key a b ≡ true → a ≡ b
unfolding same_key
same_key→eq [] [] h = refl
same_key→eq [] (y ∷ ys) h = cc
same_key→eq (x ∷ xs) [] h = cc
same_key→eq (x ∷ xs) (y ∷ ys) h = ground (arith, same_key→eq xs ys)

pub same_key_refl : (a : List ℕ) → same_key a a ≡ true
unfolding same_key
same_key_refl [] = refl
same_key_refl (x ∷ xs) = ground (arith, same_key_refl xs)

-- Keys that differ in a bit are told apart.
pub same_key-false : (a b : List ℕ) (p : ℕ) → bit_at a p ≢ bit_at b p → same_key a b ≡ false
same_key-false a b p ne = elim (Bool-cases (same_key a b)) [
  | inl e ↦ absurd (ne (ap (λ t. bit_at t p) (same_key→eq a b e)))
  | inr e ↦ e
]
