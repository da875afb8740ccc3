-- ===== src/Base/Digits.antt =====
-- The recursion over binary digits that the operations on bits stand for: fuel beyond the first
-- number changes nothing, and the lowest digit comes apart from the others.
use Prim.Native.Nat.{digits}
use libshl.Base.{ℕ, zero, suc, ◌+◌, ◌-◌, ◌*◌, ◌/◌, ◌%◌, ◌≤◌, ◌≡◌, refl, ap, ◌∙◌, arith}

module _ (z : ℕ → ℕ) (f : ℕ → ℕ → ℕ) where
  -- One more unit of fuel.
  one_more : (fuel a b : ℕ) → a ≤ fuel → digits z f (suc fuel) a b ≡ digits z f fuel a b
  one_more zero zero b h = refl
  one_more (suc fuel) zero b h = refl
  one_more (suc fuel) (suc a) b h =
      ap (λ t. t * 2 + f (suc a % 2) (b % 2)) (one_more fuel (suc a / 2) (b / 2) (omega arith))
  one_more zero (suc a) b h = absurd (omega arith)

  more : (k a b : ℕ) → digits z f (k + a) a b ≡ digits z f a a b
  more zero a b = ap (λ n. digits z f n a b) (omega arith)
  more (suc k) a b =
      ap (λ n. digits z f n a b) sum ∙ one_more (k + a) a b (omega arith) ∙ more k a b
    where
      sum : suc k + a ≡ suc (k + a)
      sum = omega arith

  -- The digits of a positive number.
  pub digits_split :
      (a b : ℕ)
      → digits z f (suc a) (suc a) b
        ≡ digits z f (suc a / 2) (suc a / 2) (b / 2) * 2 + f (suc a % 2) (b % 2)
  digits_split a b =
      ap (λ t. t * 2 + f (suc a % 2) (b % 2))
        (ap (λ k. digits z f k (suc a / 2) (b / 2)) fuel ∙ more (a - suc a / 2) (suc a / 2) (b / 2))
    where
      fuel : a ≡ (a - suc a / 2) + suc a / 2
      fuel = omega arith
