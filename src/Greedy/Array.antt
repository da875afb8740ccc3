-- ===== src/Greedy/Array.antt =====
-- The greedy allocations of arrays, whose element size is multiplied without a check.
use libshl.Base.{
  Bool-cases, List, Option, arith, get_or, inl, inr, leb, leb→le, length, le→leb, none, refl, some,
  subst, sym, ℕ, ◌*◌, ◌<◌, ◌^◌, ◌∙◌, ◌≡◌, ◌≤◌,
}
use libshl.Base.Memory.{Allocator, IsAllocator, enomem, err, ok}
use libshl.Buf.Bytes.{bytes}
use libshl.Greedy.{Block, greedy_realloc_t, mul_size, realloc_block}
use libshl.Greedy.Grow.{Reallocates}
use libshl.Macro.{align_power2, shl_max}
use libshl.Macro.Align.{IsPower2Above, align_power2-IsPower2Above}

-- The array `b` after it has grown to hold `need` elements of `ts` bytes.
pub record GrownArray (b : Block) (need ts : ℕ) (b' : Block) : Type 0 where
  pub storage : length b'.mem ≡ b'.size * ts
  pub enough : need ≤ b'.size
  pub kept : (i : ℕ) → i < b.size * ts → get_or b'.mem i 0 ≡ get_or b.mem i 0

greedy_realloc_t-align :
    (a : Allocator) (b : Block) (need ts p : ℕ)
    → b.size < need
    → 0 < ts
    → align_power2 (shl_max 64 need) ≡ some p
    → 0 < p
    → greedy_realloc_t a b need ts ≡ realloc_block a b (mul_size p ts) p
unfolding greedy_realloc_t
greedy_realloc_t-align a b need ts p lt tp e pos = ground arith

greedy_realloc_t_enough :
    (a : Allocator) (b : Block) (need ts : ℕ) → need ≤ b.size → greedy_realloc_t a b need ts ≡ ok b
unfolding greedy_realloc_t
greedy_realloc_t_enough a b need ts h = rw (le→leb need b.size h)

max_bounds :
    (n : ℕ) → n ≤ 2 ^ 63 → (2 ≤ shl_max 64 n) × (shl_max 64 n ≤ 2 ^ 63) × (n ≤ shl_max 64 n)
unfolding shl_max
max_bounds n h = ground arith

realloc_block-Reallocates :
    (a : Allocator) (b : Block) (bytes p : ℕ) (P : Block → Type 0)
    → ((q : List ℕ) → a.realloc b.mem bytes ≡ some q → P (record { mem = q; size = p }))
    → Reallocates a P (realloc_block a b bytes p)
unfolding realloc_block
realloc_block-Reallocates a b bytes p P f = go (a.realloc b.mem bytes) refl
  where
    go :
        (m : Option (List ℕ))
        → a.realloc b.mem bytes ≡ m
        → Reallocates a P
            (elim m [ none ↦ err enomem | some q ↦ ok (record { mem = q; size = p }) ])
    go none e = (refl, b.mem, bytes, e)
    go (some q) e = f q e

module _ (a : Allocator) (h : IsAllocator a) (b : Block) (need ts : ℕ) (le : need ≤ 2 ^ 63)
    (pos : 0 < ts) where
  -- What holds of every block that `realloc` may give holds of a growing call.
  growing :
      (P : Block → Type 0)
      → b.size < need
      → ((p : ℕ) (q : List ℕ)
          → IsPower2Above (shl_max 64 need) p
          → a.realloc b.mem (mul_size p ts) ≡ some q
          → P (record { mem = q; size = p }))
      → Reallocates a P (greedy_realloc_t a b need ts)
  growing P lt f =
      let (lo, hi, above) = max_bounds need le in
      let (p, e, up) = align_power2-IsPower2Above (shl_max 64 need) lo hi in
      subst (Reallocates a P)
        (sym (greedy_realloc_t-align a b need ts p lt pos e (omega (arith, up.above))))
        (realloc_block-Reallocates a b (mul_size p ts) p P (λ q r. f p q up r))

  -- For at most 2^63 elements of a size that is not 0, with a block as large as its count says, and
  -- where twice the number asked for, or 128 if that is more, times the element size is at most 2^64:
  -- `shl_greedy_realloc_t` gives room for the elements that were asked for and keeps all bytes, or
  -- NULL because `realloc` failed.
  pub greedy_realloc_t-GrownArray :
      length b.mem ≡ b.size * ts
      → 2 * shl_max 64 need * ts ≤ 2 ^ 64
      → Reallocates a (GrownArray b need ts) (greedy_realloc_t a b need ts)
  greedy_realloc_t-GrownArray s fits = elim (Bool-cases (leb need b.size)) [
    | inl f ↦
        subst (Reallocates a (GrownArray b need ts))
          (sym (greedy_realloc_t_enough a b need ts (leb→le need b.size f)))
          (record { storage = s; enough = leb→le need b.size f; kept = λ i lt. refl })
    | inr f ↦
        growing (GrownArray b need ts) (ground arith) (λ p q up r. grown (ground arith) p q up r)
  ]
    where
      grown :
          b.size < need
          → (p : ℕ) (q : List ℕ) → IsPower2Above (shl_max 64 need) p
          → a.realloc b.mem (mul_size p ts) ≡ some q
          → GrownArray b need ts (record { mem = q; size = p })
      grown small p q up r =
          let (lo, hi, above) = max_bounds need le in
          let exact : mul_size p ts ≡ p * ts =
            whole p (lt_product p (2 * shl_max 64 need) ts pos up.least) in
          let more : b.size * ts ≤ p * ts = product_mono b.size p ts (omega (arith, up.above)) in
          record {
            storage = h.realloc_length b.mem (mul_size p ts) q r ∙ exact;
            enough = omega (arith, up.above);
            kept = λ i lt. h.realloc_keeps b.mem (mul_size p ts) q i r (omega (arith, exact, more));
          }
        where
          lt_product : (x y t : ℕ) → 0 < t → x < y → x * t < y * t
          lt_product x y t q l = grind arith

          product_mono : (x y t : ℕ) → x ≤ y → x * t ≤ y * t
          product_mono x y t l = grind arith

          whole : (x : ℕ) → x * ts < 2 * shl_max 64 need * ts → mul_size x ts ≡ x * ts
          whole x l = omega arith

  -- Where more elements are asked for than are there, at most 2^63, of a size that is not 0, and they
  -- take 2^64 bytes or more, the product wraps round: `shl_greedy_realloc_t` returns a block that is
  -- smaller than the count that it records, or NULL because `realloc` failed.
  pub greedy_realloc_t_too_small :
      b.size < need
      → 2 ^ 64 ≤ need * ts
      → Reallocates a (λ b'. length b'.mem < b'.size * ts) (greedy_realloc_t a b need ts)
  greedy_realloc_t_too_small small wide = growing (λ b'. length b'.mem < b'.size * ts) small short
    where
      short :
          (p : ℕ) (q : List ℕ)
          → IsPower2Above (shl_max 64 need) p
          → a.realloc b.mem (mul_size p ts) ≡ some q
          → length q < p * ts
      short p q up r =
          let (lo, hi, above) = max_bounds need le in
          let more : need * ts ≤ p * ts = product_mono need p ts (omega (arith, up.above)) in
          omega (arith, h.realloc_length b.mem (mul_size p ts) q r, more)
        where
          product_mono : (x y t : ℕ) → x ≤ y → x * t ≤ y * t
          product_mono x y t l = grind arith
