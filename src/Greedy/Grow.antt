-- ===== src/Greedy/Grow.antt =====
-- What the greedy allocations of bytes promise.
use libshl.Base.{
  Bool, Bool-cases, List, Option, arith, false, get_or, if◌then◌else◌, inl, inr, leb, leb→le,
  length, length-replicate, ltb, none, refl, replicate, some, subst, suc, sym, true, zero, ℕ, ◌&&◌,
  ◌+◌, ◌-◌, ◌<◌, ◌^◌, ◌∙◌, ◌≡◌, ◌≤◌,
}
use libshl.Base.Memory.{
  Allocator, IsAllocator, Outcome, enomem, err, get_or-blit, length-blit, ok, undefined,
}
use libshl.Base.Word.{sub_size}
use libshl.Greedy.{Block, greedy_realloc, greedy_realloc0, realloc_block, zero_from}
use libshl.Macro.{align_power2, shl_max}
use libshl.Macro.Align.{align_power2-IsPower2Above}
use libshl.Ring.Valid.{power_bound}

-- How an allocation ends: well, in a state that satisfies `P`, or with -ENOMEM after a `realloc`
-- that failed.
abbrev pub Reallocates {ℓ} : {A : Type ℓ} → Allocator → (A → Type 0) → Outcome A → Type 0
Reallocates a P (ok x) = P x
Reallocates a P (err e) = (e ≡ enomem) × (old : List ℕ) × (n : ℕ) × (a.realloc old n ≡ none)
Reallocates a P undefined = ⊥

-- The block `b` after it has grown to hold `need` bytes.
pub record Grown (b : Block) (need : ℕ) (b' : Block) : Type 0 where
  pub storage : length b'.mem ≡ b'.size
  pub enough : need ≤ b'.size
  pub larger : b.size ≤ b'.size
  pub bounded : b'.size ≤ 2 ^ 63
  pub kept : (i : ℕ) → i < b.size → get_or b'.mem i 0 ≡ get_or b.mem i 0

-- A request that is served in place, and one that is served by `realloc`.
greedy_realloc-align :
    (a : Allocator) (b : Block) (need p : ℕ)
    → b.size < need
    → align_power2 (shl_max 64 need) ≡ some p
    → 0 < p
    → greedy_realloc a b need ≡ realloc_block a b p p
unfolding greedy_realloc
greedy_realloc-align a b need p lt e pos = ground arith

-- The bytes that are new are 0.
abbrev pub Zeroed : Block → Block → Type 0
Zeroed b q = (i : ℕ) → b.size ≤ i → i < q.size → get_or q.mem i 0 ≡ 0

abbrev zeroed : Block → Block → Block
zeroed b p =
    if ltb b.size p.size
    then record p { mem = zero_from p.mem b.size (sub_size p.size b.size) }
    else p

get_or-zero_from :
    (p : List ℕ) (from n i : ℕ)
    → from + n ≤ length p
    → get_or (zero_from p from n) i 0 ≡ (if leb from i && ltb i (from + n) then 0 else get_or p i 0)
get_or-zero_from p from n i h = ground (
  arith,
  get_or-blit p from (replicate n 0) i,
  length-replicate {A = ℕ} n 0,
  get_or-replicate n (i - from),
)
  where
    get_or-replicate : (m j : ℕ) → get_or {A = ℕ} (replicate m 0) j 0 ≡ 0
    get_or-replicate zero j = refl
    get_or-replicate (suc m) zero = refl
    get_or-replicate (suc m) (suc j) = get_or-replicate m j

zeroed-Grown :
    (b : Block) (need : ℕ) (p : Block)
    → length b.mem ≡ b.size
    → Grown b need p
    → Grown b need (zeroed b p) × Zeroed b (zeroed b p)
zeroed-Grown b need p s g = go (ltb b.size p.size) refl
  where
    room : b.size + sub_size p.size b.size ≡ p.size
    room = omega (arith, g.larger, g.bounded)

    within : b.size + sub_size p.size b.size ≤ length p.mem
    within = omega (arith, room, g.storage)

    fill : Block
    fill = record p { mem = zero_from p.mem b.size (sub_size p.size b.size) }

    go :
        (t : Bool)
        → ltb b.size p.size ≡ t
        → Grown b need (if t then fill else p) × Zeroed b (if t then fill else p)
    go false t = (g, λ i le lt. absurd (ground arith))
    go true t = (
      record {
        storage =
            length-blit p.mem b.size (replicate (sub_size p.size b.size) 0)
              (omega (arith, within, length-replicate {A = ℕ} (sub_size p.size b.size) 0))
            ∙ g.storage;
        enough = g.enough;
        larger = g.larger;
        bounded = g.bounded;
        kept = λ i il.
            ground
              (arith, get_or-zero_from p.mem b.size (sub_size p.size b.size) i within, g.kept i il);
      },
      λ i le lt.
          ground (arith, room, get_or-zero_from p.mem b.size (sub_size p.size b.size) i within),
    )

module _ (a : Allocator) (h : IsAllocator a) where
  realloc_block-Grown :
      (b : Block) (need p : ℕ)
      → length b.mem ≡ b.size
      → b.size < need
      → need ≤ p
      → p ≤ 2 ^ 63
      → Reallocates a (Grown b need) (realloc_block a b p p)
  unfolding realloc_block
  realloc_block-Grown b need p s lt le small = go (a.realloc b.mem p) refl
    where
      go :
          (m : Option (List ℕ))
          → a.realloc b.mem p ≡ m
          → Reallocates a
              (Grown b need)
              (elim m [ none ↦ err enomem | some q ↦ ok (record { mem = q; size = p }) ])
      go none e = (refl, b.mem, p, e)
      go (some q) e = record {
        storage = h.realloc_length b.mem p q e;
        enough = le;
        larger = omega arith;
        bounded = small;
        kept = λ i il. h.realloc_keeps b.mem p q i e (omega arith);
      }

  -- `shl_greedy_realloc` gives room for what was asked for, up to 2^63 bytes, and keeps all bytes of
  -- the block, or returns NULL because `realloc` failed.
  pub greedy_realloc-Grown :
      (b : Block) (need : ℕ)
      → length b.mem ≡ b.size
      → b.size ≤ 2 ^ 63
      → need ≤ 2 ^ 63
      → Reallocates a (Grown b need) (greedy_realloc a b need)
  greedy_realloc-Grown b need s small le = elim (Bool-cases (leb need b.size)) [
    | inl f ↦ subst (Reallocates a (Grown b need)) (sym (in_place f)) (record {
      storage = s;
      enough = leb→le need b.size f;
      larger = omega arith;
      bounded = small;
      kept = λ i il. refl;
    })
    | inr f ↦
        let (p, e, up) =
          align_power2-IsPower2Above (shl_max 64 need) (large need) (bounded need le) in
        subst (Reallocates a (Grown b need))
          (sym (greedy_realloc-align a b need p (ground arith) e (omega (arith, up, large need))))
          (realloc_block-Grown b need p s (ground arith) (omega (arith, up, above need))
            (omega (arith, up, power_bound up.exponent up.fits)))
  ]
    where
      in_place : leb need b.size ≡ true → greedy_realloc a b need ≡ ok b
      in_place f = unfold greedy_realloc in rw f

      large : (n : ℕ) → 2 ≤ shl_max 64 n
      large n = unfold shl_max in ground arith

      above : (n : ℕ) → n ≤ shl_max 64 n
      above n = unfold shl_max in ground arith

      bounded : (n : ℕ) → n ≤ 2 ^ 63 → shl_max 64 n ≤ 2 ^ 63
      bounded n q = unfold shl_max in ground arith

  -- `shl_greedy_realloc0` promises the same, and that all new bytes are 0.
  pub greedy_realloc0-zeroes :
      (b : Block) (need : ℕ)
      → length b.mem ≡ b.size
      → b.size ≤ 2 ^ 63
      → need ≤ 2 ^ 63
      → Reallocates a (λ q. Grown b need q × Zeroed b q) (greedy_realloc0 a b need)
  unfolding greedy_realloc0
  greedy_realloc0-zeroes b need s small le =
      go (greedy_realloc a b need) (greedy_realloc-Grown b need s small le)
    where
      go :
          (o : Outcome Block)
          → Reallocates a (Grown b need) o
          → Reallocates a
              (λ q. Grown b need q × Zeroed b q)
              (elim o [
                | ok p ↦ ok (
                    if ltb b.size p.size
                    then record p { mem = zero_from p.mem b.size (sub_size p.size b.size) }
                    else p)
                | err e ↦ err e
                | undefined ↦ undefined
              ])
      go (ok p) g = zeroed-Grown b need p s g
      go (err e) g = g
      go undefined g = g
