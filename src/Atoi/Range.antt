-- ===== src/Atoi/Range.antt =====
-- Which numerals are read exactly, and what happens to the others.
use libshl.Atoi.{atoi_ulln, ctoi}
use libshl.Atoi.Equivalence.{atoi_ulln-plain, plain, plain_step, reported}
use libshl.Atoi.Value.{ctoi-lt, digits_of, value, value-ge}
use libshl.Base.{
  All, Bool-cases, List, Option, [], ap, ap₂, arith, false, inl, inr, leb, leb→le, length,
  length-append, none, refl, some, true, ℕ, ◌*◌, ◌++◌, ◌+◌, ◌<◌, ◌^◌, ◌∙◌, ◌∷◌, ◌≡◌, ◌≤◌,
}
use libshl.Base.Memory.{Outcome, erange, err, ok, undefined}
use libshl.Base.Word.{size_max}

-- A number that fits is kept exactly.
plain_fits :
    (base v : ℕ) (cs : List ℕ)
    → 0 < base
    → value base v cs ≤ size_max
    → plain base cs (some v) ≡ some (value base v cs)
plain_fits base v [] p h = refl
plain_fits base v (c ∷ cs) p h = ap (plain base cs) kept ∙ plain_fits base (v * base + c) cs p h
  where
    kept : plain_step base c (some v) ≡ some (v * base + c)
    kept = ground (arith, value-ge base (v * base + c) cs p)

-- A numeral whose number fits 64 bits is read exactly: the status is 0, `*out` is the number and
-- `*next` points behind its digits.
pub atoi_ulln_exact :
    (str : List ℕ) (base : ℕ)
    → 0 < base
    → base ≤ 36
    → value base 0 (digits_of base str) ≤ size_max
    → atoi_ulln str base ≡ record {
      status = none;
      next = length (digits_of base str);
      out = value base 0 (digits_of base str);
    }
atoi_ulln_exact str base p b h =
    atoi_ulln-plain str base p b
    ∙ ap (reported (length (digits_of base str))) (plain_fits base 0 (digits_of base str) p h)

plain-none : (base : ℕ) (cs : List ℕ) → plain base cs none ≡ none
plain-none base [] = refl
plain-none base (c ∷ cs) = plain-none base cs

-- Where 2^64 is a multiple of the base no digit can be dropped.
no_room_for_digit :
    (base c v q : ℕ) → base * q ≡ 2 ^ 64 → c < base → v * base ≤ size_max → v * base + c ≤ size_max
no_room_for_digit base c v q e d h = grind (arith, lt_of_mul)
  where
    lt_of_mul : v < q
    lt_of_mul = grind arith

plain_overflow :
    (base q v : ℕ) (cs : List ℕ)
    → base * q ≡ 2 ^ 64
    → 0 < base
    → All (λ c. c < base) cs
    → v ≤ size_max
    → size_max < value base v cs
    → plain base cs (some v) ≡ none
plain_overflow base q v [] e p d b h = absurd (omega arith)
plain_overflow base q v (c ∷ cs) e p (d, ds) b h = elim (Bool-cases (leb (v * base) size_max)) [
  | inl f ↦ ap (plain base cs) (kept f) ∙ plain_overflow base q (v * base + c) cs e p ds (fits f) h
  | inr f ↦ ap (plain base cs) (lost f) ∙ plain-none base cs
]
  where
    fits : leb (v * base) size_max ≡ true → v * base + c ≤ size_max
    fits f = no_room_for_digit base c v q e d (leb→le (v * base) size_max f)

    kept : leb (v * base) size_max ≡ true → plain_step base c (some v) ≡ some (v * base + c)
    kept f = ground (arith, fits f)

    lost : leb (v * base) size_max ≡ false → plain_step base c (some v) ≡ none
    lost f = ground arith

digits_of-All : (base : ℕ) (str : List ℕ) → All (λ c. c < base) (digits_of base str)
digits_of-All base [] = tt
digits_of-All base (ch ∷ str) = go (ctoi ch base) refl (digits_of-All base str)
  where
    go :
        (x : Outcome ℕ)
        → ctoi ch base ≡ x
        → All (λ c. c < base) (digits_of base str)
        → All
            (λ c. c < base)
            (elim x [ ok c ↦ c ∷ digits_of base str | err e ↦ [] | undefined ↦ [] ])
    go (ok c) e ih = (ctoi-lt ch base c e, ih)
    go (err y) e ih = tt
    go undefined e ih = tt

-- In a base that divides 2^64 (2, 4, 8, 16 and 32) a numeral whose number does not fit 64 bits is
-- reported: the status is -ERANGE, `*out` is the largest number and `*next` still points behind the
-- digits.
pub atoi_ulln_overflow :
    (str : List ℕ) (base q : ℕ)
    → base * q ≡ 2 ^ 64
    → 0 < base
    → base ≤ 36
    → size_max < value base 0 (digits_of base str)
    → atoi_ulln str base
      ≡ record { status = some erange; next = length (digits_of base str); out = size_max }
atoi_ulln_overflow str base q e p b h =
    atoi_ulln-plain str base p b
    ∙ ap (reported (length (digits_of base str)))
        (plain_overflow base q 0 (digits_of base str) e p (digits_of-All base str) (omega arith) h)

plain-append :
    (base : ℕ) (cs ds : List ℕ) (o : Option ℕ)
    → plain base (cs ++ ds) o ≡ plain base ds (plain base cs o)
plain-append base [] ds o = refl
plain-append base (c ∷ cs) ds o = plain-append base cs ds (plain_step base c o)

-- In any other base the last digit may be dropped silently: where the number of the digits before
-- it, times the base, still fits 64 bits and the whole number does not, the status is 0 although
-- the number is out of range, and `*out` is the number with the last digit taken for 0.
pub atoi_ulln_drops_digit :
    (str : List ℕ) (base c : ℕ) (cs : List ℕ)
    → 0 < base
    → base ≤ 36
    → digits_of base str ≡ cs ++ (c ∷ [])
    → value base 0 cs * base ≤ size_max
    → size_max < value base 0 cs * base + c
    → atoi_ulln str base
      ≡ record { status = none; next = length cs + 1; out = value base 0 cs * base }
atoi_ulln_drops_digit str base c cs p b e low high =
    atoi_ulln-plain str base p b ∙ ap₂ reported lengths numbers
  where
    lengths : length (digits_of base str) ≡ length cs + 1
    lengths = ap length e ∙ length-append cs (c ∷ [])

    below : value base 0 cs ≤ size_max
    below = grind arith

    numbers : plain base (digits_of base str) (some 0) ≡ some (value base 0 cs * base)
    numbers =
        ap (λ t. plain base t (some 0)) e
        ∙ plain-append base cs (c ∷ []) (some 0)
        ∙ ap (plain_step base c) (plain_fits base 0 cs p below)
        ∙ dropped
      where
        dropped : plain_step base c (some (value base 0 cs)) ≡ some (value base 0 cs * base)
        dropped = ground arith
