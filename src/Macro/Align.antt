-- ===== src/Macro/Align.antt =====
-- `SHL_ALIGN_POWER2`: which arguments it serves, and what it returns.
use native.Mathlib.Nat.{pow-suc}
use libshl.Base.{
  ==→eq, Bool-cases, ap, arith, inl, inr, leb, leb→le, ltb, ltb→lt, lt→ltb, none, refl, some, subst,
  suc, zero, ℕ, ◌*◌, ◌-◌, ◌/◌, ◌<◌, ◌==◌, ◌^◌, ◌↔◌, ◌∙◌, ◌≡◌, ◌≢◌, ◌≤◌, ◌⊎◌,
}
use libshl.Base.Bits.{pow_pos}
use libshl.Base.Word.{sub_size}
use libshl.Macro.{align_power2, bit_length, clzll, shl_one}

-- The value lies between two powers of two.
pub bit_length_bounds :
    (f x : ℕ)
    → 0 < x
    → x < 2 ^ f
    → (n : ℕ) × (bit_length f x ≡ suc n) × (n < f) × (2 ^ n ≤ x) × (x < 2 ^ suc n)
unfolding bit_length
bit_length_bounds zero x p h = absurd (omega arith)
bit_length_bounds (suc f) x p h = elim (Bool-cases (x / 2 == 0)) [
  | inl e ↦ (
    0,
    ground (arith, ==→eq (x / 2) 0 e, one f (x / 2) (==→eq (x / 2) 0 e)),
    omega arith,
    omega arith,
    omega (arith, ==→eq (x / 2) 0 e),
  )
  | inr e ↦
      let p2 : 0 < x / 2 = ground arith in
      let (n, q, lt, lo, hi) = bit_length_bounds f (x / 2) p2 (omega (arith, pow-suc 2 f)) in
      (
        suc n,
        ground arith,
        omega arith,
        omega (arith, pow-suc 2 n),
        omega (arith, pow-suc 2 n, pow-suc 2 (suc n)),
      )
]
  where
    one : (g y : ℕ) → y ≡ 0 → bit_length g y ≡ 0
    one zero y e = omega arith
    one (suc g) y e = ground arith

-- `p` is the least power of two that is at least `u`, and a `size_t`.
pub record IsPower2Above (u p : ℕ) : Type 0 where
  pub exponent : ℕ
  pub power : p ≡ 2 ^ exponent
  pub fits : exponent < 64
  pub above : u ≤ p
  pub least : p < 2 * u

-- The shift is by the length of `u - 1`.
align_power2-bit_length :
    (u n : ℕ)
    → sub_size u 1 ≢ 0
    → bit_length 64 (sub_size u 1) ≡ suc n
    → n < 64
    → align_power2 u ≡ shl_one (suc n)
unfolding align_power2 clzll
align_power2-bit_length u n ne e h = ground (arith, ap (λ k. shl_one (64 - (64 - k))) e, shift)
  where
    shift : shl_one (64 - (64 - suc n)) ≡ shl_one (suc n)
    shift = ap shl_one (omega arith)

shl_one_small : (s : ℕ) → s < 64 → shl_one s ≡ some (2 ^ s)
unfolding shl_one
shl_one_small s h = rw (lt→ltb s 64 h)

shl_one_big : (s : ℕ) → 64 ≤ s → shl_one s ≡ none
unfolding shl_one
shl_one_big s h = elim (Bool-cases (ltb s 64)) [
  | inl t ↦ absurd (omega (arith, ltb→lt s 64 t))
  | inr f ↦ rw f
]

-- `SHL_ALIGN_POWER2` on 2 … 2^63 gives the least power of two that is not below its argument.
pub align_power2-IsPower2Above :
    (u : ℕ) → 2 ≤ u → u ≤ 2 ^ 63 → (p : ℕ) × (align_power2 u ≡ some p) × IsPower2Above u p
align_power2-IsPower2Above u lo hi =
    let (n, e, lt, low, high) = bit_length_bounds 64 (sub_size u 1) (omega arith) (omega arith) in
    let small : suc n < 64 = below n low lt in
    (
      2 ^ suc n,
      align_power2-bit_length u n (omega arith) e lt ∙ shl_one_small (suc n) small,
      record {
        exponent = suc n;
        power = refl;
        fits = small;
        above = omega arith;
        least = omega (arith, pow-suc 2 n);
      },
    )
  where
    below : (n : ℕ) → 2 ^ n ≤ sub_size u 1 → n < 64 → suc n < 64
    below n low lt = elim (Bool-cases (n == 63)) [
      | inl t ↦ absurd (omega (arith, subst (λ k. 2 ^ k ≤ sub_size u 1) (==→eq n 63 t) low))
      | inr f ↦ ground arith
    ]

pub pow_mono : (n m : ℕ) → n ≤ m → 2 ^ n ≤ 2 ^ m
pow_mono n zero h = ground arith
pow_mono zero (suc m) h = omega (arith, pow_pos (suc m))
pow_mono (suc n) (suc m) h = omega (arith, pow_mono n m (omega arith), pow-suc 2 n, pow-suc 2 m)

align_power2_one : align_power2 1 ≡ none
unfolding align_power2 clzll
align_power2_one = refl

-- Above 2^63 the shift is by 64.
align_power2_wide : (u : ℕ) → 2 ^ 63 ≤ sub_size u 1 → align_power2 u ≡ none
align_power2_wide u h =
    let (n, e, lt, low, high) = bit_length_bounds 64 (sub_size u 1) (omega arith) (omega arith) in
    align_power2-bit_length u n (omega arith) e lt ∙ shl_one_big (suc n) (wide n high lt)
  where
    wide : (n : ℕ) → sub_size u 1 < 2 ^ suc n → n < 64 → 64 ≤ suc n
    wide n high lt = elim (Bool-cases (ltb n 63)) [
      | inl t ↦ absurd (omega (arith, pow_mono n 62 (omega (arith, ltb→lt n 63 t)), pow-suc 2 n))
      | inr f ↦ ground arith
    ]

-- `SHL_ALIGN_POWER2` has no defined result exactly on 0, on 1 and above 2^63, where its comment
-- promises 0 (and the callers test for 0).
pub align_power2_undefined :
    (u : ℕ) → u < 2 ^ 64 → (align_power2 u ≡ none) ↔ ((u ≤ 1) ⊎ (2 ^ 63 < u))
align_power2_undefined u h = (undefined_only, undefined_there)
  where
    undefined_only : align_power2 u ≡ none → (u ≤ 1) ⊎ (2 ^ 63 < u)
    undefined_only e = elim (Bool-cases (leb u 1)) [
      | inl t ↦ inl (leb→le u 1 t)
      | inr f ↦ elim (Bool-cases (ltb (2 ^ 63) u)) [
        | inl t ↦ inr (ltb→lt (2 ^ 63) u t)
        | inr g ↦
            let (p, q, r) = align_power2-IsPower2Above u (ground arith) (ground arith) in cc (e, q)
      ]
    ]

    undefined_there : (u ≤ 1) ⊎ (2 ^ 63 < u) → align_power2 u ≡ none
    undefined_there (inl low) = elim (Bool-cases (u == 0)) [
      | inl t ↦ align_power2_wide u (omega (arith, ==→eq u 0 t))
      | inr f ↦ one (ground arith)
    ]
      where
        one : u ≡ 1 → align_power2 u ≡ none
        one e = rw e align_power2_one
    undefined_there (inr high) = align_power2_wide u (omega arith)
