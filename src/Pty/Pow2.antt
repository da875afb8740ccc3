-- ===== src/Pty/Pow2.antt =====
-- `ring_pow2` rounds up to a power of two: what its shifts do to each bit.
use native.Mathlib.Nat.{pow-suc, div-div-eq-div-mul}
use libshl.Base.{
  ==→eq, Bool-cases, ap, ap₂, arith, bit_or, false, if◌then◌else◌, inl, inr, ltb, ltb→lt, max, refl,
  subst, suc, sym, zero, ℕ, ◌%◌, ◌*◌, ◌+◌, ◌-◌, ◌/◌, ◌<◌, ◌==◌, ◌^◌, ◌∙◌, ◌≡◌, ◌≤◌,
}
use libshl.Base.Bits.{pow_pos}
use libshl.Base.Or.{or_split}
use libshl.Base.Word.{sub_size}
use libshl.Base.Xor.{div_pow_suc}
use libshl.Macro.Align.{IsPower2Above, bit_length_bounds, pow_mono}
use libshl.Pty.{pow2_loop, ring_pow2}

-- Bit `k` of a number.
abbrev bit_of : ℕ → ℕ → ℕ
bit_of x k = x / 2 ^ k % 2

pow_sum : (k i : ℕ) → 2 ^ (k + i) ≡ 2 ^ k * 2 ^ i
pow_sum k zero = ap (λ n. 2 ^ n) {y = k} (omega arith) ∙ omega arith
pow_sum k (suc i) =
    ap (λ n. 2 ^ n) sum
    ∙ pow-suc 2 (k + i)
    ∙ ap (λ t. t * 2) (pow_sum k i)
    ∙ regroup (2 ^ k) (2 ^ i)
    ∙ ap (λ t. 2 ^ k * t) (sym (pow-suc 2 i))
  where
    sum : k + suc i ≡ suc (k + i)
    sum = omega arith

    regroup : (a b : ℕ) → a * b * 2 ≡ a * (b * 2)
    regroup a b = grind arith

pub div_pow_sum : (x k i : ℕ) → x / 2 ^ (k + i) ≡ x / 2 ^ k / 2 ^ i
div_pow_sum x k i = ap (λ t. x / t) (pow_sum k i) ∙ sym (div-div-eq-div-mul x (2 ^ k) (2 ^ i))

div_pow_swap : (x k i : ℕ) → x / 2 ^ i / 2 ^ k ≡ x / 2 ^ k / 2 ^ i
div_pow_swap x k i =
    sym (div_pow_sum x i k) ∙ ap (λ n. x / 2 ^ n) {y = k + i} (omega arith) ∙ div_pow_sum x k i

or_half : (a b : ℕ) → bit_or a b / 2 ≡ bit_or (a / 2) (b / 2)
or_half a b = omega (arith, or_split a b, low)
  where
    low : max (a % 2) (b % 2) < 2
    low = omega arith

bit_or-div : (k a b : ℕ) → bit_or a b / 2 ^ k ≡ bit_or (a / 2 ^ k) (b / 2 ^ k)
bit_or-div zero a b = whole (bit_or a b) ∙ ap₂ bit_or (sym (whole a)) (sym (whole b))
  where
    whole : (x : ℕ) → x / 2 ^ 0 ≡ x
    whole x = omega arith
bit_or-div (suc k) a b =
    div_pow_suc (bit_or a b) k
    ∙ ap (λ t. t / 2) (bit_or-div k a b)
    ∙ or_half (a / 2 ^ k) (b / 2 ^ k)
    ∙ ap₂ bit_or (sym (div_pow_suc a k)) (sym (div_pow_suc b k))

bit_of-bit_or : (a b k : ℕ) → bit_of (bit_or a b) k ≡ max (bit_of a k) (bit_of b k)
bit_of-bit_or a b k =
    ap (λ t. t % 2) (bit_or-div k a b) ∙ omega (arith, or_split (a / 2 ^ k) (b / 2 ^ k))

-- Numbers with equal bits are equal.
bit_of-ext : (n a b : ℕ) → a ≤ n → b ≤ n → ((k : ℕ) → bit_of a k ≡ bit_of b k) → a ≡ b
bit_of-ext zero a b p q h = omega arith
bit_of-ext (suc n) a b p q h = omega (
  arith,
  h 0,
  bit_of-ext n (a / 2) (b / 2) (omega arith) (omega arith)
      (λ k. half a k ∙ h (suc k) ∙ sym (half b k)),
)
  where
    half : (x k : ℕ) → bit_of (x / 2) k ≡ bit_of x (suc k)
    half x k = ap (λ t. t % 2) (div_pow_swap x k 1 ∙ sym (div_pow_suc x k))

-- A bit of `y` is set where one of the `i` bits of `x` from there on is.
abbrev Smeared : ℕ → ℕ → ℕ → Type 0
Smeared i x y = (k : ℕ) → bit_of y k ≡ (if x / 2 ^ k % 2 ^ i == 0 then 0 else 1)

abbrev smear : ℕ → ℕ → ℕ
smear i v = bit_or v (v / 2 ^ i)

mod_square : (z q : ℕ) → 0 < q → z % (q * q) ≡ z / q % q * q + z % q
mod_square z q h = omega (
  arith,
  parts z q,
  parts z (q * q),
  ap (λ t. t * q) (parts (z / q) q),
  spread (z / q / q) (z / q % q) q,
  ap (λ t. t * (q * q)) (div-div-eq-div-mul z q q),
)
  where
    parts : (a b : ℕ) → a ≡ a / b * b + a % b
    parts a b = grind arith

    spread : (a b c : ℕ) → (a * c + b) * c ≡ a * (c * c) + b * c
    spread a b c = grind arith

mod_zero :
    (z q : ℕ)
    → 0 < q
    → max (if z % q == 0 then 0 else 1) (if z / q % q == 0 then 0 else 1)
      ≡ (if z % (q * q) == 0 then 0 else 1)
mod_zero z q h = rw (mod_square z q h) (cases (z % q) (z / q % q))
  where
    product : (a b : ℕ) → 0 < a → 0 < b → 0 < a * b
    product a b p r = grind arith

    cases :
        (a b : ℕ)
        → max (if a == 0 then 0 else 1) (if b == 0 then 0 else 1)
          ≡ (if b * q + a == 0 then 0 else 1)
    cases a b = ground (arith, product b q)

Smeared-smear : (i j x y : ℕ) → j ≡ i + i → Smeared i x y → Smeared j x (smear i y)
Smeared-smear i j x y e h k =
    bit_of-bit_or y (y / 2 ^ i) k
    ∙ ap₂ max (h k) (
        ap (λ t. t % 2) (sym (div_pow_sum y i k) ∙ ap (λ n. y / 2 ^ n) {y = k + i} (omega arith))
        ∙ h (k + i)
        ∙ ap (λ t. if t % 2 ^ i == 0 then 0 else 1) (div_pow_sum x k i))
    ∙ mod_zero (x / 2 ^ k) (2 ^ i) (pow_pos i)
    ∙ ap (λ t. if x / 2 ^ k % t == 0 then 0 else 1) (sym (ap (λ n. 2 ^ n) e ∙ pow_sum i i))

-- The shifts of the loop.
pow2_loop-smear :
    (v : ℕ) → pow2_loop 7 1 v ≡ smear 32 (smear 16 (smear 8 (smear 4 (smear 2 (smear 1 v)))))
unfolding pow2_loop
pow2_loop-smear v = refl

pow2_loop-Smeared : (v : ℕ) → Smeared 64 v (pow2_loop 7 1 v)
pow2_loop-Smeared v = subst (Smeared 64 v) (sym (pow2_loop-smear v)) (
    Smeared-smear 32 64 v _ (omega arith) (
      Smeared-smear 16 32 v _ (omega arith) (
        Smeared-smear 8 16 v _ (omega arith) (
          Smeared-smear 4 8 v _ (omega arith)
            (Smeared-smear 2 4 v _ (omega arith) (Smeared-smear 1 2 v v (omega arith) first))))))
  where
    first : Smeared 1 v v
    first k = ground arith

-- The bits of a row of ones.
bit_of-ones : (n k : ℕ) → bit_of (2 ^ n - 1) k ≡ (if ltb k n then 1 else 0)
bit_of-ones n zero = elim (Bool-cases (ltb 0 n)) [
  | inl e ↦ rw e (odd n (ltb→lt 0 n e))
  | inr e ↦ rw e (ap (λ m. bit_of (2 ^ m - 1) 0) {y = 0} (ground arith))
]
  where
    odd : (n : ℕ) → 0 < n → (2 ^ n - 1) / 2 ^ 0 % 2 ≡ 1
    odd zero h = absurd (omega arith)
    odd (suc n) h = omega (arith, pow-suc 2 n, pow_pos n)
bit_of-ones zero (suc k) = ap (λ t. t % 2) (zero_div (2 ^ suc k) (pow_pos (suc k))) ∙ ground arith
  where
    zero_div : (q : ℕ) → 0 < q → 0 / q ≡ 0
    zero_div q h = grind arith
bit_of-ones (suc n) (suc k) =
    ap (λ t. t % 2)
      (div_pow_suc (2 ^ suc n - 1) k
        ∙ sym (div_pow_swap (2 ^ suc n - 1) k 1)
        ∙ ap (λ t. t / 2 ^ k) half)
    ∙ bit_of-ones n k
    ∙ ground arith
  where
    half : (2 ^ suc n - 1) / 2 ^ 1 ≡ 2 ^ n - 1
    half = omega (arith, pow-suc 2 n, pow_pos n)

-- Behind the loop all bits up to the highest are set.
pow2_loop-ones :
    (x n : ℕ) → x < 2 ^ 64 → 2 ^ n ≤ x → x < 2 ^ suc n → pow2_loop 7 1 x ≡ 2 ^ suc n - 1
pow2_loop-ones x n small lo hi =
    bit_of-ext (pow2_loop 7 1 x + (2 ^ suc n - 1)) _ _ (omega arith) (omega arith)
      (λ k. pow2_loop-Smeared x k ∙ bits k ∙ sym (bit_of-ones (suc n) k))
  where
    above : (z q : ℕ) → 0 < q → q ≤ z → 0 < z / q
    above z q p h = grind arith

    below : (z q : ℕ) → z < q → z / q ≡ 0
    below z q h = grind arith

    smaller : (z q : ℕ) → z / q ≤ z
    smaller z q = grind arith

    bits :
        (k : ℕ)
        → ◌≡◌ {A = ℕ} (if x / 2 ^ k % 2 ^ 64 == 0 then 0 else 1) (if ltb k (suc n) then 1 else 0)
    bits k = elim (Bool-cases (ltb k (suc n))) [
      | inl e ↦ ground (arith, above x (2 ^ k) (pow_pos k), pow_mono k n, smaller x (2 ^ k))
      | inr e ↦ ground (arith, below x (2 ^ k), pow_mono (suc n) k)
    ]

-- `ring_pow2` gives the least power of two that is not below its argument, from 1 to 2^63.
pub ring_pow2-IsPower2Above : (v : ℕ) → 0 < v → v ≤ 2 ^ 63 → IsPower2Above v (ring_pow2 v)
unfolding ring_pow2 pow2_loop
ring_pow2-IsPower2Above v pos le = elim (Bool-cases (v == 1)) [
  | inl e ↦ subst (λ t. IsPower2Above t (ring_pow2 t)) (sym (==→eq v 1 e)) one
  | inr e ↦
      let (n, b, lt, lo, hi) = bit_length_bounds 64 (sub_size v 1) (ground arith) (omega arith) in
      let small : suc n < 64 = below n lo lt in
      let result : ring_pow2 v ≡ 2 ^ suc n = rounded n lo hi small in
      record {
        exponent = suc n;
        power = result;
        fits = small;
        above = omega (arith, result);
        least = omega (arith, result, pow-suc 2 n, lower e);
      }
]
  where
    one : IsPower2Above 1 (ring_pow2 1)
    one = record {
      exponent = 0;
      power = refl;
      fits = omega arith;
      above = omega arith;
      least = omega arith;
    }

    lower : (v == 1) ≡ false → 1 < v
    lower e = ground arith

    below : (n : ℕ) → 2 ^ n ≤ sub_size v 1 → n < 64 → suc n < 64
    below n lo lt = elim (Bool-cases (n == 63)) [
      | inl t ↦ absurd (omega (arith, subst (λ k. 2 ^ k ≤ sub_size v 1) (==→eq n 63 t) lo))
      | inr f ↦ ground arith
    ]

    rounded :
        (n : ℕ)
        → 2 ^ n ≤ sub_size v 1
        → sub_size v 1 < 2 ^ suc n
        → suc n < 64
        → ring_pow2 v ≡ 2 ^ suc n
    rounded n lo hi small = ground (
      arith,
      pow2_loop-ones (sub_size v 1) n (omega arith) lo hi,
      pow_mono (suc n) 63 (omega arith),
      pow_pos (suc n),
    )
