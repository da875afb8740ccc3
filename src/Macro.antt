-- ===== src/Macro.antt =====
-- src/shl_macro.h: minimum, maximum, clamping, the next power of two, and multiplications that
-- report an overflow. `unsigned int` has 32 bits and `size_t`, `unsigned long` and
-- `unsigned long long` have 64.
pub mod Align
pub mod Mult
mod Examples
use libshl.Base.{
  ℕ, zero, suc, ◌+◌, ◌-◌, ◌*◌, ◌/◌, ◌%◌, ◌^◌, Bool, ◌||◌, Option, none, some, ltb, leb, ◌==◌,
  if◌then◌else◌,
}
use libshl.Base.Word.{size_max, sub_size}
use libshl.Base.Memory.{Outcome, ok, err, erange}

unfoldable pub shl_max : ℕ → ℕ → ℕ
shl_max a b = if ltb b a then a else b

unfoldable pub shl_min : ℕ → ℕ → ℕ
shl_min a b = if ltb a b then a else b

unfoldable pub shl_clamp : ℕ → ℕ → ℕ → ℕ
shl_clamp v l h = if ltb h v then h else if ltb v l then l else v

-- The number of significant bits of a value below `2 ^ fuel`.
unfoldable pub bit_length : ℕ → ℕ → ℕ
bit_length zero x = 0
bit_length (suc fuel) x = let rest = bit_length fuel (x / 2) in if x == 0 then 0 else suc rest

-- `__builtin_clzll`; its result at 0 is undefined (`none`).
unfoldable pub clzll : ℕ → Option ℕ
clzll x = if x == 0 then none else some (64 - bit_length 64 x)

-- `1ULL << s`; a shift by 64 or more is undefined (`none`).
unfoldable pub shl_one : ℕ → Option ℕ
shl_one s = if ltb s 64 then some (2 ^ s) else none

-- `SHL_ALIGN_POWER2`
unfoldable pub align_power2 : ℕ → Option ℕ
align_power2 u = elim (clzll (sub_size u 1)) [ none ↦ none | some c ↦ shl_one (64 - c) ]

-- `SHL__REAL_MULT`: the new value of `*_val`; at an error `*_val` is not written.
unfoldable pub real_mult : ℕ → ℕ → ℕ → Outcome ℕ
real_mult maximum val factor =
    if factor == 0 || leb val (maximum / factor) then ok (val * factor) else err erange

-- `SHL__UPCAST_MULT`, with the number of values of the wider type.
unfoldable pub upcast_mult : ℕ → ℕ → ℕ → ℕ → Outcome ℕ
upcast_mult wide maximum val factor =
    let v = val * factor % wide in if leb v maximum then ok v else err erange

unfoldable pub mult_ull : ℕ → ℕ → Outcome ℕ
unfolding real_mult
mult_ull val factor = real_mult size_max val factor

unfoldable pub mult_ul : ℕ → ℕ → Outcome ℕ
unfolding mult_ull
mult_ul val factor = mult_ull val factor

unfoldable pub mult_u : ℕ → ℕ → Outcome ℕ
unfolding upcast_mult
mult_u val factor = upcast_mult (2 ^ 64) (2 ^ 32 - 1) val factor

unfoldable pub mult_u64 : ℕ → ℕ → Outcome ℕ
unfolding real_mult
mult_u64 val factor = real_mult size_max val factor

unfoldable pub mult_u32 : ℕ → ℕ → Outcome ℕ
unfolding upcast_mult
mult_u32 val factor = upcast_mult (2 ^ 64) (2 ^ 32 - 1) val factor

-- `uint_fast32_t` and `uint_fast16_t` at the widths that the standard grants.
unfoldable pub mult_u16 : ℕ → ℕ → Outcome ℕ
unfolding upcast_mult
mult_u16 val factor = upcast_mult (2 ^ 32) (2 ^ 16 - 1) val factor

unfoldable pub mult_u8 : ℕ → ℕ → Outcome ℕ
unfolding upcast_mult
mult_u8 val factor = upcast_mult (2 ^ 16) (2 ^ 8 - 1) val factor
