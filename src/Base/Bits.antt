-- ===== src/Base/Bits.antt =====
-- `x & (2^k - 1)` as a remainder, from the digit recursion of `bit_and`.
use Prim.Native.Nat.{bit_and-bitwise}
use libshl.Base.Digits.{digits_split}
use native.Mathlib.Nat.{pow-suc}
use libshl.Base.{
  ℕ, zero, suc, ◌+◌, ◌-◌, ◌*◌, ◌/◌, ◌%◌, ◌^◌, ◌≤◌, ◌<◌, min, bit_and, ◌≡◌, sym, ap, ◌∙◌, arith,
}

pub zero-bit_and : (b : ℕ) → bit_and 0 b ≡ 0
zero-bit_and b = bit_and-bitwise 0 b

-- The lowest digit apart from the others.
pub and_split : (a b : ℕ) → bit_and a b ≡ bit_and (a / 2) (b / 2) * 2 + min (a % 2) (b % 2)
and_split zero b = zero-bit_and b ∙ omega (arith, zero-bit_and (b / 2))
and_split (suc a) b =
    bit_and-bitwise (suc a) b
    ∙ digits_split (λ _. zero) min a b
    ∙ ap (λ t. t * 2 + min (suc a % 2) (b % 2)) (sym (bit_and-bitwise (suc a / 2) (b / 2)))

halves : (n a : ℕ) → a ≤ n → bit_and a 0 ≡ 0
halves zero a h = omega (arith, zero-bit_and a, ap (λ t. bit_and t 0) (none_below a h))
  where
    none_below : (x : ℕ) → x ≤ 0 → x ≡ 0
    none_below x q = omega arith
halves (suc n) a h = omega (arith, and_split a 0, halves n (a / 2) (omega arith))

pub bit_and-zero : (a : ℕ) → bit_and a 0 ≡ 0
bit_and-zero a = halves a a (omega arith)

pub pow_pos : (k : ℕ) → 0 < 2 ^ k
pow_pos zero = omega arith
pow_pos (suc k) = omega (arith, pow_pos k, pow-suc 2 k)

mod_double : (a p : ℕ) → 0 < p → a % (p * 2) ≡ a / 2 % p * 2 + a % 2
mod_double a p h = grind arith

-- A mask of `k` ones is the remainder by `2 ^ k`.
pub bit_and_mask : (k a : ℕ) → bit_and a (2 ^ k - 1) ≡ a % 2 ^ k
bit_and_mask zero a = omega (arith, bit_and-zero a)
bit_and_mask (suc k) a = omega (
  arith,
  and_split a (2 ^ suc k - 1),
  pow-suc 2 k,
  pow_pos k,
  half,
  bit_and_mask k (a / 2),
  ap (λ t. a % t) (pow-suc 2 k),
  mod_double a (2 ^ k) (pow_pos k),
)
  where
    half : bit_and (a / 2) ((2 ^ suc k - 1) / 2) ≡ bit_and (a / 2) (2 ^ k - 1)
    half = ap (λ t. bit_and (a / 2) t) (omega (arith, pow-suc 2 k, pow_pos k))
