-- ===== src/Macro/Examples.antt =====
-- The theorems of Macro at concrete values.
use libshl.Base.{arith, none, some, ℕ, ◌-◌, ◌<◌, ◌^◌, ◌↔◌, ◌≡◌, ◌≤◌, ◌⊎◌}
use libshl.Macro.{align_power2, mult_u, mult_u16, mult_u32, mult_u64, mult_u8, mult_ul, mult_ull}
use libshl.Macro.Align.{IsPower2Above, align_power2-IsPower2Above, align_power2_undefined}
use libshl.Macro.Mult.{checked_product, mult_exact}

align_power2-IsPower2Above_example : (p : ℕ) × (align_power2 4097 ≡ some p) × IsPower2Above 4097 p
align_power2-IsPower2Above_example = align_power2-IsPower2Above 4097 (omega arith) (omega arith)

align_power2_undefined_example : (align_power2 1 ≡ none) ↔ ((1 ≤ 1) ⊎ (2 ^ 63 < 1))
align_power2_undefined_example = align_power2_undefined 1 (omega arith)

mult_exact_example :
    (mult_ull 6 7 ≡ checked_product (2 ^ 64 - 1) 6 7)
    × (mult_ul 6 7 ≡ checked_product (2 ^ 64 - 1) 6 7)
    × (mult_u64 6 7 ≡ checked_product (2 ^ 64 - 1) 6 7)
    × (6 < 2 ^ 32 → 7 < 2 ^ 32 → mult_u32 6 7 ≡ checked_product (2 ^ 32 - 1) 6 7)
    × (6 < 2 ^ 32 → 7 < 2 ^ 32 → mult_u 6 7 ≡ checked_product (2 ^ 32 - 1) 6 7)
    × (6 < 2 ^ 16 → 7 < 2 ^ 16 → mult_u16 6 7 ≡ checked_product (2 ^ 16 - 1) 6 7)
    × (6 < 2 ^ 8 → 7 < 2 ^ 8 → mult_u8 6 7 ≡ checked_product (2 ^ 8 - 1) 6 7)
mult_exact_example = mult_exact 6 7
