-- ===== src/Base/Xor.antt =====
-- `bit_xor` from its digit recursion, shifts of it, and tables over a small range.
use native.Mathlib.Nat.{pow-suc, div-div-eq-div-mul}
use libshl.Base.{
  ap, ap₂, arith, bit_xor, refl, suc, sym, zero, ℕ, ◌%◌, ◌*◌, ◌+◌, ◌/◌, ◌<◌, ◌^◌, ◌∙◌, ◌≡◌, ◌≢◌,
  ◌≤◌,
}
use libshl.Base.Digits.{digits_split}
use Prim.Native.Nat.{differ, bit_xor-bitwise}

pub zero-bit_xor : (b : ℕ) → bit_xor 0 b ≡ b
zero-bit_xor b = bit_xor-bitwise 0 b

-- The lowest digits, 0 if they are equal.
xor_split : (a b : ℕ) → bit_xor a b ≡ bit_xor (a / 2) (b / 2) * 2 + differ (a % 2) (b % 2)
xor_split zero b = omega (arith, zero-bit_xor b, zero-bit_xor (b / 2))
xor_split (suc a) b =
    bit_xor-bitwise (suc a) b
    ∙ digits_split (λ t. t) differ a b
    ∙ ap (λ t. t * 2 + differ (suc a % 2) (b % 2)) (sym (bit_xor-bitwise (suc a / 2) (b / 2)))

differ_bit : (a b : ℕ) → differ (a % 2) (b % 2) < 2
differ_bit a b = go (a % 2) (b % 2) (omega arith) (omega arith)
  where
    go : (x y : ℕ) → x < 2 → y < 2 → differ x y < 2
    go x y p q = grind arith

xor_half : (a b : ℕ) → bit_xor a b / 2 ≡ bit_xor (a / 2) (b / 2)
xor_half a b = omega (arith, xor_split a b, differ_bit a b)

pub div_pow_suc : (a k : ℕ) → a / 2 ^ suc k ≡ a / 2 ^ k / 2
div_pow_suc a k = ap (λ t. a / t) (pow-suc 2 k) ∙ sym (div-div-eq-div-mul a (2 ^ k) 2)

whole : (a : ℕ) → a / 2 ^ 0 ≡ a
whole a = omega arith

-- A shift of an exclusive or.
pub bit_xor-div : (k a b : ℕ) → bit_xor a b / 2 ^ k ≡ bit_xor (a / 2 ^ k) (b / 2 ^ k)
bit_xor-div zero a b = whole (bit_xor a b) ∙ ap₂ bit_xor (sym (whole a)) (sym (whole b))
bit_xor-div (suc k) a b =
    div_pow_suc (bit_xor a b) k
    ∙ ap (λ t. t / 2) (bit_xor-div k a b)
    ∙ xor_half (a / 2 ^ k) (b / 2 ^ k)
    ∙ ap₂ bit_xor (sym (div_pow_suc a k)) (sym (div_pow_suc b k))

differ-zero : (x y : ℕ) → differ x y ≡ 0 → x ≡ y
differ-zero zero y e = sym e
differ-zero (suc x) zero e = e
differ-zero (suc x) (suc y) e = ap suc (differ-zero x y e)

differ_self : (x : ℕ) → differ x x ≡ 0
differ_self zero = refl
differ_self (suc x) = differ_self x

xor_zero_fuel : (n a b : ℕ) → a ≤ n → bit_xor a b ≡ 0 → a ≡ b
xor_zero_fuel n zero b h e = omega (arith, zero-bit_xor b)
xor_zero_fuel zero (suc a) b h e = absurd (omega arith)
xor_zero_fuel (suc n) (suc a) b h e = omega (
  arith,
  xor_split (suc a) b,
  xor_zero_fuel n (suc a / 2) (b / 2) (omega arith) (omega (arith, xor_split (suc a) b)),
  differ-zero (suc a % 2) (b % 2) (omega (arith, xor_split (suc a) b)),
)

-- The exclusive or is 0 only for equal numbers.
pub bit_xor-eq_zero : (a b : ℕ) → bit_xor a b ≡ 0 → a ≡ b
bit_xor-eq_zero a b e = xor_zero_fuel a a b (omega arith) e

-- An exclusive or of 1: the lowest digits differ, and the others are equal.
pub bit_xor-eq_one : (a b : ℕ) → bit_xor a b ≡ 1 → (a / 2 ≡ b / 2) × (a % 2 ≢ b % 2)
bit_xor-eq_one a b e = (
  bit_xor-eq_zero (a / 2) (b / 2) (omega (arith, xor_split a b, differ_bit a b)),
  λ same. absurd (omega (arith, xor_split a b, equal (a % 2) (b % 2) same)),
)
  where
    equal : (x y : ℕ) → x ≡ y → differ x y ≡ 0
    equal x y s = ap (differ x) (sym s) ∙ differ_self x

xor_right_fuel : (n a : ℕ) → a ≤ n → bit_xor a 0 ≡ a
xor_right_fuel n zero h = zero-bit_xor 0
xor_right_fuel zero (suc a) h = absurd (omega arith)
xor_right_fuel (suc n) (suc a) h =
    omega (arith, xor_split (suc a) 0, xor_right_fuel n (suc a / 2) (omega arith), low (suc a % 2))
  where
    low : (x : ℕ) → differ x 0 ≡ x
    low zero = refl
    low (suc x) = refl

pub bit_xor-zero : (a : ℕ) → bit_xor a 0 ≡ a
bit_xor-zero a = xor_right_fuel a a (omega arith)
