-- ===== src/Base/Or.antt =====
-- `x | y` from the digit recursion of `bit_or`.
use Prim.Native.Nat.{bit_or-bitwise}
use libshl.Base.Digits.{digits_split}
use libshl.Base.{ℕ, zero, suc, ◌+◌, ◌*◌, ◌/◌, ◌%◌, ◌≤◌, max, bit_or, ◌≡◌, sym, ap, ◌∙◌, arith}

pub zero-bit_or : (b : ℕ) → bit_or 0 b ≡ b
zero-bit_or b = bit_or-bitwise 0 b

-- The lowest digit apart from the others.
pub or_split : (a b : ℕ) → bit_or a b ≡ bit_or (a / 2) (b / 2) * 2 + max (a % 2) (b % 2)
or_split zero b = zero-bit_or b ∙ omega (arith, zero-bit_or (b / 2))
or_split (suc a) b =
    bit_or-bitwise (suc a) b
    ∙ digits_split (λ t. t) max a b
    ∙ ap (λ t. t * 2 + max (suc a % 2) (b % 2)) (sym (bit_or-bitwise (suc a / 2) (b / 2)))

or_halves : (n a : ℕ) → a ≤ n → bit_or a 0 ≡ a
or_halves n zero h = zero-bit_or 0
or_halves zero (suc a) h = absurd (omega arith)
or_halves (suc n) (suc a) h =
    omega (arith, or_split (suc a) 0, or_halves n (suc a / 2) (omega arith))

pub bit_or-zero : (a : ℕ) → bit_or a 0 ≡ a
bit_or-zero a = or_halves a a (omega arith)
