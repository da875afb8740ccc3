-- ===== src/Base/Memory.antt =====
-- Blocks of memory as lists of bytes, the error numbers, and the C library's allocator, which is a
-- parameter of the model.
use libshl.Base.{
  List, Option, ap, arith, drop, get_or, get_or-append, get_or-drop, get_or-take, if◌then◌else◌,
  leb, length, length-append, length-drop, length-replicate, length-take, le→leb, list_ext, ltb,
  min, none, replicate, some, sym, take, ℕ, ◌++◌, ◌+◌, ◌-◌, ◌<◌, ◌∙◌, ◌≡◌, ◌≤◌,
}

pub data Errno : Type 0 where
  enomem einval erange ealready efault enotdir enodev eagain : Errno
  errno : ℕ → Errno

-- What a call of the C code gives: a value, a negative error number, or behaviour that the C
-- standard leaves undefined.
pub data Outcome {ℓ} (A : Type ℓ) : Type ℓ where
  ok : A → Outcome A
  err : Errno → Outcome A
  undefined : Outcome A

-- What a system call answers: -1 with `errno`, or a value.
pub data Answer {ℓ} (A : Type ℓ) : Type ℓ where
  failed : ℕ → Answer A
  gave : A → Answer A

-- `malloc` and `realloc`; `none` is NULL.
pub record Allocator : Type 0 where
  pub malloc : ℕ → Option (List ℕ)
  pub realloc : List ℕ → ℕ → Option (List ℕ)

-- What the C standard says of them: a block has the size that was asked for, and `realloc` keeps
-- the bytes up to the smaller of the two sizes.
pub record IsAllocator (a : Allocator) : Type 0 where
  pub malloc_length : (n : ℕ) (b : List ℕ) → a.malloc n ≡ some b → length b ≡ n
  pub realloc_length : (old : List ℕ) (n : ℕ) (b : List ℕ) → a.realloc old n ≡ some b → length b ≡ n
  pub realloc_keeps :
      (old : List ℕ) (n : ℕ) (b : List ℕ) (i : ℕ)
      → a.realloc old n ≡ some b
      → i < min (length old) n
      → get_or b i 0 ≡ get_or old i 0

-- `memcpy(&buf[off], src, length src)`
abbrev pub blit : List ℕ → ℕ → List ℕ → List ℕ
blit buf off src = take off buf ++ (src ++ drop (off + length src) buf)

-- A copy that C defines only inside the block; `none` is a copy that runs past its end.
abbrev pub write_at : List ℕ → ℕ → List ℕ → Option (List ℕ)
write_at buf off src = if leb (off + length src) (length buf) then some (blit buf off src) else none

pub write_at_inside :
    (buf : List ℕ) (off : ℕ) (src : List ℕ)
    → off + length src ≤ length buf
    → write_at buf off src ≡ some (blit buf off src)
write_at_inside buf off src h = rw (le→leb (off + length src) (length buf) h)

-- the `n` bytes from `&buf[off]` on
abbrev pub slice : List ℕ → ℕ → ℕ → List ℕ
slice buf off n = take n (drop off buf)

-- A copy that stays inside the block keeps its size.
pub length-blit :
    (buf : List ℕ) (off : ℕ) (src : List ℕ)
    → off + length src ≤ length buf
    → length (blit buf off src) ≡ length buf
length-blit buf off src h = omega (
  arith,
  length-append (take off buf) (src ++ drop (off + length src) buf),
  length-append src (drop (off + length src) buf),
  length-take off buf,
  length-drop (off + length src) buf,
)

-- What stands in a block after a copy.
pub get_or-blit :
    (buf : List ℕ) (off : ℕ) (src : List ℕ) (i : ℕ)
    → off + length src ≤ length buf
    → get_or (blit buf off src) i 0 ≡ (
        if ltb i off
        then get_or buf i 0
        else if ltb i (off + length src)
        then get_or src (i - off) 0
        else get_or buf i 0)
get_or-blit buf off src i h = ground (
  arith,
  get_or-append 0 (take off buf) (src ++ drop (off + length src) buf) i,
  get_or-append 0 src (drop (off + length src) buf) (i - off),
  length-take off buf,
  get_or-take 0 off buf i,
  get_or-drop 0 (off + length src) buf (i - off - length src),
)

pub length-slice : (buf : List ℕ) (off n : ℕ) → off + n ≤ length buf → length (slice buf off n) ≡ n
length-slice buf off n h = omega (arith, length-take n (drop off buf), length-drop off buf)

pub get_or-slice :
    (buf : List ℕ) (off n i : ℕ) → i < n → get_or (slice buf off n) i 0 ≡ get_or buf (off + i) 0
get_or-slice buf off n i h =
    ground (arith, get_or-take 0 n (drop off buf) i, get_or-drop 0 off buf i)

-- Two copies, one behind the other, at the front of a block.
pub blit-blit :
    (b s t : List ℕ)
    → length s + length t ≤ length b
    → blit (blit b 0 s) (length s) t ≡ blit b 0 (s ++ t)
blit-blit b s t h = list_ext 0 _ _ lengths bytes
  where
    lengths : length (blit (blit b 0 s) (length s) t) ≡ length (blit b 0 (s ++ t))
    lengths = omega (
      arith,
      length-blit (blit b 0 s) (length s) t,
      length-blit b 0 s,
      length-blit b 0 (s ++ t),
      length-append s t,
    )

    bytes :
        (i : ℕ)
        → i < length (blit (blit b 0 s) (length s) t)
        → get_or (blit (blit b 0 s) (length s) t) i 0 ≡ get_or (blit b 0 (s ++ t)) i 0
    bytes i p = ground (
      arith,
      get_or-blit (blit b 0 s) (length s) t i,
      length-blit b 0 s,
      get_or-blit b 0 s i,
      get_or-blit b 0 (s ++ t) i,
      length-append s t,
      get_or-append 0 s t i,
    )

-- An allocator that never fails, and one that always does.
abbrev pub resized : List ℕ → ℕ → List ℕ
resized old n = take n (old ++ replicate n 0)

abbrev pub generous : Allocator
generous = record { malloc = λ n. some (replicate n 0); realloc = λ old n. some (resized old n) }

abbrev pub exhausted : Allocator
exhausted = record { malloc = λ n. none; realloc = λ old n. none }

some_inj : {x y : List ℕ} → some x ≡ some y → x ≡ y
some_inj e = cc

pub generous-IsAllocator : IsAllocator generous
generous-IsAllocator = record {
  malloc_length = λ n b e. ap length (sym (some_inj e)) ∙ length-replicate n 0;
  realloc_length = λ old n b e. ap length (sym (some_inj e)) ∙ length-resized old n;
  realloc_keeps = λ old n b i e lt. ap (λ t. get_or t i 0) (sym (some_inj e)) ∙ kept old n i lt;
}
  where
    length-resized : (old : List ℕ) (n : ℕ) → length (resized old n) ≡ n
    length-resized old n = omega (
      arith,
      length-take n (old ++ replicate n 0),
      length-append old (replicate n 0),
      length-replicate {A = ℕ} n 0,
    )

    kept :
        (old : List ℕ) (n i : ℕ)
        → i < min (length old) n
        → get_or (resized old n) i 0 ≡ get_or old i 0
    kept old n i lt =
        ground
          (arith, get_or-take 0 n (old ++ replicate n 0) i, get_or-append 0 old (replicate n 0) i)
