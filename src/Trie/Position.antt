-- ===== src/Trie/Position.antt =====
-- The bits of a key in the order of the trie: byte by byte, each from its highest bit on.
use native.Mathlib.Nat.{pow-suc}
use libshl.Base.{
  ==→eq, All, Bool-cases, List, [], ap, ap₂, arith, bit_xor, inl, inr, ltb, ltb→lt, subst, suc, sym,
  zero, ℕ, ◌%◌, ◌*◌, ◌+◌, ◌-◌, ◌/◌, ◌<◌, ◌==◌, ◌^◌, ◌∙◌, ◌∷◌, ◌≡◌, ◌≢◌, ◌≤◌,
}
use libshl.Base.Xor.{bit_xor-div, bit_xor-eq_one, bit_xor-eq_zero, div_pow_suc, zero-bit_xor}
use libshl.Macro.Align.{bit_length_bounds}
use libshl.Trie.{byte_at, new_otherbits}
use libshl.Trie.Mask.{bit, new_otherbits-bit_length}

abbrev pub IsKey : List ℕ → Type 0
IsKey key = All (λ c. (0 < c) × (c < 256)) key

-- The bit at a position; behind its end a key has zeros.
abbrev pub bit_at : List ℕ → ℕ → ℕ
bit_at key p = bit (7 - p % 8) (byte_at key (p / 8))

-- The position of bit `k` of a byte.
abbrev pub position : ℕ → ℕ → ℕ
position byte k = byte * 8 + (7 - k)

-- Two keys have the same bits before a position.
abbrev pub Agree : ℕ → List ℕ → List ℕ → Type 0
Agree p a b = (q : ℕ) → q < p → bit_at a q ≡ bit_at b q

pub bit_at-position :
    (key : List ℕ) (byte k : ℕ) → k < 8 → bit_at key (position byte k) ≡ bit k (byte_at key byte)
bit_at-position key byte k h = ap₂ (λ i j. bit i (byte_at key j)) low high
  where
    low : 7 - position byte k % 8 ≡ k
    low = omega arith

    high : position byte k / 8 ≡ byte
    high = omega arith

pub byte_at-lt : (key : List ℕ) (i : ℕ) → IsKey key → byte_at key i < 256
byte_at-lt [] i h = omega arith
byte_at-lt (c ∷ cs) zero h = omega arith
byte_at-lt (c ∷ cs) (suc i) h = byte_at-lt cs i h.1

-- Where the higher parts of two bytes are equal, so are the bits in them.
high_bits :
    (k a b d : ℕ) → a / 2 ^ suc k ≡ b / 2 ^ suc k → a / 2 ^ (suc k + d) ≡ b / 2 ^ (suc k + d)
high_bits k a b zero e = ap (λ t. a / 2 ^ t) flat ∙ e ∙ ap (λ t. b / 2 ^ t) (sym flat)
  where
    flat : suc k + 0 ≡ suc k
    flat = omega arith
high_bits k a b (suc d) e =
    ap (λ t. a / 2 ^ t) up
    ∙ div_pow_suc a (suc k + d)
    ∙ ap (λ t. t / 2) (high_bits k a b d e)
    ∙ sym (div_pow_suc b (suc k + d))
    ∙ ap (λ t. b / 2 ^ t) (sym up)
  where
    up : suc k + suc d ≡ suc (suc k + d)
    up = omega arith

-- Two keys agree before a position in byte `i` if the bytes before are equal, and the higher bits
-- of that byte.
pub Agree-of_bytes :
    (a b : List ℕ) (i k : ℕ)
    → k < 8
    → ((j : ℕ) → j < i → byte_at a j ≡ byte_at b j)
    → byte_at a i / 2 ^ suc k ≡ byte_at b i / 2 ^ suc k
    → Agree (position i k) a b
Agree-of_bytes a b i k h low high q lt = elim (Bool-cases (ltb (q / 8) i)) [
  | inl f ↦ ap (bit (7 - q % 8)) (low (q / 8) (ltb→lt (q / 8) i f))
  | inr f ↦ in_byte (ground arith) (ground arith)
]
  where
    in_byte : q / 8 ≡ i → suc k ≤ 7 - q % 8 → bit_at a q ≡ bit_at b q
    in_byte e le =
        ap (λ t. bit (7 - q % 8) (byte_at a t)) e
        ∙ ap (λ t. t % 2)
            (subst (λ t. byte_at a i / 2 ^ t ≡ byte_at b i / 2 ^ t) shift
              (high_bits k (byte_at a i) (byte_at b i) (7 - q % 8 - suc k) high))
        ∙ ap (λ t. bit (7 - q % 8) (byte_at b t)) (sym e)
      where
        shift : suc k + (7 - q % 8 - suc k) ≡ 7 - q % 8
        shift = omega arith

-- The bit that an insertion finds for two bytes that differ.
pub top_difference :
    (a b : ℕ)
    → a < 256
    → b < 256
    → a ≢ b
    → (k : ℕ) × (k < 8)
      × (new_otherbits (bit_xor a b) ≡ 255 - 2 ^ k)
      × (a / 2 ^ suc k ≡ b / 2 ^ suc k)
      × (bit k a ≢ bit k b)
top_difference a b p q ne =
    let (n, e, lt, lo, hi) = bit_length_bounds 8 (bit_xor a b) pos small in
    let (high, low) =
      bit_xor-eq_one (a / 2 ^ n) (b / 2 ^ n) (sym (bit_xor-div n a b) ∙ one n lo hi) in
    (
      n,
      lt,
      new_otherbits-bit_length (bit_xor a b) pos small
          ∙ ap (λ t. 255 - 2 ^ t) (ap (λ t. t - 1) e ∙ back n),
      div_pow_suc a n ∙ high ∙ sym (div_pow_suc b n),
      low,
    )
  where
    pos : 0 < bit_xor a b
    pos = elim (Bool-cases (bit_xor a b == 0)) [
      | inl f ↦ absurd (ne (bit_xor-eq_zero a b (==→eq (bit_xor a b) 0 f)))
      | inr f ↦ ground arith
    ]

    small : bit_xor a b < 2 ^ 8
    small = omega (arith, bit_xor-div 8 a b, ap₂ bit_xor zero_a zero_b, zero-bit_xor 0)
      where
        zero_a : a / 2 ^ 8 ≡ 0
        zero_a = omega arith

        zero_b : b / 2 ^ 8 ≡ 0
        zero_b = omega arith

    one : (n : ℕ) → 2 ^ n ≤ bit_xor a b → bit_xor a b < 2 ^ suc n → bit_xor a b / 2 ^ n ≡ 1
    one n lo hi = grind (arith, pow-suc 2 n)

    back : (n : ℕ) → suc n - 1 ≡ n
    back n = omega arith
