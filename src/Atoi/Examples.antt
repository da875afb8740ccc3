-- ===== src/Atoi/Examples.antt =====
-- The theorems of Atoi at concrete numerals.
use libshl.Atoi.{atoi_ulln, ctoi}
use libshl.Atoi.Equivalence.{atoi_ulln-plain, plain, reported}
use libshl.Atoi.Range.{atoi_ulln_drops_digit, atoi_ulln_exact, atoi_ulln_overflow}
use libshl.Atoi.Value.{digits_of, value}
use libshl.Base.{
  List, [], arith, length, none, refl, replicate, some, ℕ, ◌*◌, ◌++◌, ◌+◌, ◌<◌, ◌^◌, ◌∷◌, ◌≡◌, ◌≤◌,
}
use libshl.Base.Memory.{erange}
use libshl.Base.Word.{size_max}

-- "4711!"
abbrev numeral : List ℕ
numeral = b'4' ∷ b'7' ∷ b'1' ∷ b'1' ∷ b'!' ∷ []

atoi_ulln-plain_example :
    atoi_ulln numeral 10
    ≡ reported (length (digits_of 10 numeral)) (plain 10 (digits_of 10 numeral) (some 0))
atoi_ulln-plain_example = atoi_ulln-plain numeral 10 (omega arith) (omega arith)

-- What the digits are.
numeral_digits : digits_of 10 numeral ≡ 4 ∷ 7 ∷ 1 ∷ 1 ∷ []
unfolding ctoi
numeral_digits = refl

abbrev NumeralFits : Type 0
NumeralFits = value 10 0 (digits_of 10 numeral) ≤ size_max

numeral_small : NumeralFits
numeral_small = rw numeral_digits (omega arith)

atoi_ulln_exact_example : atoi_ulln numeral 10 ≡ record {
  status = none;
  next = length (digits_of 10 numeral);
  out = value 10 0 (digits_of 10 numeral);
}
atoi_ulln_exact_example = atoi_ulln_exact numeral 10 (omega arith) (omega arith) numeral_small

-- "10000000000000000" in base 16: 2^64
abbrev wide : List ℕ
wide = b'1' ∷ replicate 16 b'0'

wide_digits : digits_of 16 wide ≡ 1 ∷ replicate 16 0
unfolding ctoi
wide_digits = refl

wide_overflows : size_max < value 16 0 (digits_of 16 wide)
wide_overflows = rw wide_digits (omega arith)

atoi_ulln_overflow_example :
    atoi_ulln wide 16
    ≡ record { status = some erange; next = length (digits_of 16 wide); out = size_max }
atoi_ulln_overflow_example =
    atoi_ulln_overflow wide 16 (2 ^ 60) (omega arith) (omega arith) (omega arith) wide_overflows

-- "18446744073709551616": 2^64
abbrev front : List ℕ
front = 1 ∷ 8 ∷ 4 ∷ 4 ∷ 6 ∷ 7 ∷ 4 ∷ 4 ∷ 0 ∷ 7 ∷ 3 ∷ 7 ∷ 0 ∷ 9 ∷ 5 ∷ 5 ∷ 1 ∷ 6 ∷ 1 ∷ []

abbrev too_large : List ℕ
too_large =
    b'1' ∷ b'8' ∷ b'4' ∷ b'4' ∷ b'6' ∷ b'7' ∷ b'4' ∷ b'4' ∷ b'0' ∷ b'7' ∷ b'3' ∷ b'7' ∷ b'0' ∷ b'9'
    ∷ b'5' ∷ b'5' ∷ b'1' ∷ b'6' ∷ b'1' ∷ b'6' ∷ []

too_large_digits : digits_of 10 too_large ≡ front ++ (6 ∷ [])
unfolding ctoi
too_large_digits = refl

atoi_ulln_drops_digit_example :
    atoi_ulln too_large 10
    ≡ record { status = none; next = length front + 1; out = value 10 0 front * 10 }
atoi_ulln_drops_digit_example =
    atoi_ulln_drops_digit too_large 10 6 front (omega arith) (omega arith) too_large_digits
      (omega arith) (omega arith)
