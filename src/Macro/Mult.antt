-- ===== src/Macro/Mult.antt =====
-- The multiplications return the product exactly when it fits, and an error otherwise.
use native.Mathlib.Nat.{mod-eq_of_lt}
use libshl.Base.{arith, if◌then◌else◌, leb, ℕ, ◌*◌, ◌-◌, ◌/◌, ◌<◌, ◌^◌, ◌≡◌, ◌≤◌}
use libshl.Base.Memory.{Outcome, erange, err, ok}
use libshl.Macro.{
  mult_u, mult_u16, mult_u32, mult_u64, mult_u8, mult_ul, mult_ull, real_mult, upcast_mult,
}

-- What a checked multiplication promises.
abbrev pub checked_product : ℕ → ℕ → ℕ → Outcome ℕ
checked_product maximum val factor =
    if leb (val * factor) maximum then ok (val * factor) else err erange

le-div : (a b m : ℕ) → 0 < b → a ≤ m / b → a * b ≤ m
le-div a b m p h = grind arith

div-lt : (a b m : ℕ) → 0 < b → m / b < a → m < a * b
div-lt a b m p h = grind arith

real_mult-checked : (m a b : ℕ) → real_mult m a b ≡ checked_product m a b
unfolding real_mult
real_mult-checked m a b = ground (arith, le-div a b m, div-lt a b m)

upcast_mult-checked : (w m a b : ℕ) → a * b < w → upcast_mult w m a b ≡ checked_product m a b
unfolding upcast_mult
upcast_mult-checked w m a b h = rw (mod-eq_of_lt h)

product_lt : (a b m : ℕ) → a < m → b < m → a * b < m * m
product_lt a b m p q = grind arith

-- Each of the checked multiplications of unsigned integers, for arguments of its width, gives the
-- product when the product fits the width, and -ERANGE when it does not; `unsigned long` has 64 bits.
pub mult_exact :
    (a b : ℕ)
    → (mult_ull a b ≡ checked_product (2 ^ 64 - 1) a b)
      × (mult_ul a b ≡ checked_product (2 ^ 64 - 1) a b)
      × (mult_u64 a b ≡ checked_product (2 ^ 64 - 1) a b)
      × (a < 2 ^ 32 → b < 2 ^ 32 → mult_u32 a b ≡ checked_product (2 ^ 32 - 1) a b)
      × (a < 2 ^ 32 → b < 2 ^ 32 → mult_u a b ≡ checked_product (2 ^ 32 - 1) a b)
      × (a < 2 ^ 16 → b < 2 ^ 16 → mult_u16 a b ≡ checked_product (2 ^ 16 - 1) a b)
      × (a < 2 ^ 8 → b < 2 ^ 8 → mult_u8 a b ≡ checked_product (2 ^ 8 - 1) a b)
unfolding mult_ull mult_ul mult_u64 mult_u32 mult_u mult_u16 mult_u8
mult_exact a b = (
  real_mult-checked (2 ^ 64 - 1) a b,
  real_mult-checked (2 ^ 64 - 1) a b,
  real_mult-checked (2 ^ 64 - 1) a b,
  λ p q. upcast_mult-checked (2 ^ 64) (2 ^ 32 - 1) a b (product_lt a b (2 ^ 32) p q),
  λ p q. upcast_mult-checked (2 ^ 64) (2 ^ 32 - 1) a b (product_lt a b (2 ^ 32) p q),
  λ p q. upcast_mult-checked (2 ^ 32) (2 ^ 16 - 1) a b (product_lt a b (2 ^ 16) p q),
  λ p q. upcast_mult-checked (2 ^ 16) (2 ^ 8 - 1) a b (product_lt a b (2 ^ 8) p q),
)
