-- ===== src/Ring/Valid.antt =====
-- The representation invariant of a ring, and the mask as a remainder.
use native.Mathlib.Nat.{mod-eq_of_lt, mod-eq-sub-mod}
use libshl.Base.{
  ap, arith, bit_and, if◌then◌else◌, inl, inr, length, ltb, sym, ℕ, ◌%◌, ◌+◌, ◌-◌, ◌<◌, ◌^◌, ◌∙◌,
  ◌≡◌, ◌≤◌, ◌⊎◌,
}
use libshl.Base.Bits.{bit_and_mask, pow_pos, zero-bit_and}
use libshl.Base.Word.{sub_size}
use libshl.Macro.Align.{pow_mono}
use libshl.Ring.{Ring, ring_mask}

-- The size is 0 or a power of two below 2^64.
abbrev pub IsRingSize : ℕ → Type 0
IsRingSize n = (n ≡ 0) ⊎ ((k : ℕ) × (n ≡ 2 ^ k) × (k < 64))

pub record IsValid (r : Ring) : Type 0 where
  pub storage : length r.buf ≡ r.size
  pub power : IsRingSize r.size
  pub bounded : r.size ≤ 2 ^ 63
  pub start_in : (r.start < r.size) ⊎ ((r.start ≡ 0) × (r.size ≡ 0))
  pub used_in : r.used ≤ r.size

pub power_bound : (k : ℕ) → k < 64 → 2 ^ k ≤ 2 ^ 63
power_bound k h = pow_mono k 63 (omega arith)

-- The next position, without a division.
abbrev pub wrap : ℕ → ℕ → ℕ
wrap size v = if ltb v size then v else v - size

mod-wrap : (v n : ℕ) → 0 < n → v < n + n → v % n ≡ wrap n v
mod-wrap v n p h = ground (
  arith,
  λ (q : v < n). mod-eq_of_lt q,
  λ (q : n ≤ v). mod-eq-sub-mod {n = v} {m = n} q,
  λ (q : v - n < n). mod-eq_of_lt q,
)

-- The mask takes the index back into the buffer.
pub ring_mask-wrap :
    {r : Ring} (v : ℕ)
    → IsValid r
    → 0 < r.size
    → v < r.size + r.size
    → ring_mask r v ≡ wrap r.size v
unfolding ring_mask
ring_mask-wrap {r} v h p q = masked h.power ∙ mod-wrap v r.size p q
  where
    masked : IsRingSize r.size → bit_and v (sub_size r.size 1) ≡ v % r.size
    masked (inl e) = absurd (omega arith)
    masked (inr (k, e, lt)) =
        ap (bit_and v) (omega (arith, power_bound k lt, pow_pos k))
        ∙ bit_and_mask k v
        ∙ ap (λ t. v % t) (sym e)

-- An empty ring with no buffer keeps its start at 0.
pub ring_mask-zero : (r : Ring) (v : ℕ) → v ≡ 0 → ring_mask r v ≡ 0
unfolding ring_mask
ring_mask-zero r v e = rw e (zero-bit_and (sub_size r.size 1))
