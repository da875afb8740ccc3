-- ===== src/Quote/Decode.antt =====
-- Decoding in place: it never writes past what it has read, nor a 0.
use libshl.Base.{
  All, All-append, List, [], arith, if◌then◌else◌, length, length-append, ℕ, ◌++◌, ◌+◌, ◌∷◌, ◌≢◌,
  ◌≤◌,
}
use libshl.Quote.{Mode, decode, decode_from, decode_mode, decode_out, plain_mode}

-- The characters that are owed to a backslash that was read.
abbrev pub owed : Mode → ℕ
owed m = if m.escaped then 1 else 0

decode_out-length :
    (m : Mode) (c : ℕ) → length (decode_out m c) + owed (decode_mode m c) ≤ 1 + owed m
unfolding decode_out decode_mode
decode_out-length m c = ground arith

decode_from-length : (m : Mode) (s : List ℕ) → length (decode_from m s) ≤ length s + owed m
unfolding decode_from
decode_from-length m [] = ground arith
decode_from-length m (c ∷ s) = omega (
  arith,
  decode_out-length m c,
  decode_from-length (decode_mode m c) s,
  length-append (decode_out m c) (decode_from (decode_mode m c) s),
)

-- The characters that the loop of `shl_qstr_decode_n` has written behind the part `s` of its input.
abbrev pub written : Mode → List ℕ → ℕ
written m [] = 0
written m (c ∷ s) = length (decode_out m c) + written (decode_mode m c) s

written_le : (m : Mode) (s : List ℕ) → written m s ≤ length s + owed m
written_le m [] = omega arith
written_le m (c ∷ s) = omega (arith, decode_out-length m c, written_le (decode_mode m c) s)

-- `shl_qstr_decode_n` works in place: at every point of its input it has written no more characters
-- than it has read, and the whole result is no longer than the input.
pub decode_in_place :
    (front back : List ℕ)
    → (written plain_mode front ≤ length front)
      × (length (decode (front ++ back)) ≤ length (front ++ back))
unfolding decode
decode_in_place front back = (
  omega (arith, written_le plain_mode front),
  omega (arith, decode_from-length plain_mode (front ++ back)),
)

decode_out-ne_zero : (m : Mode) (c : ℕ) → All (λ x. x ≢ 0) (decode_out m c)
unfolding decode_out
decode_out-ne_zero m c = ground arith

-- The result has no 0 in it, so that it is a C string.
pub decode-ne_zero : (m : Mode) (s : List ℕ) → All (λ x. x ≢ 0) (decode_from m s)
unfolding decode_from
decode-ne_zero m [] = ground arith
decode-ne_zero m (c ∷ s) =
    All-append (λ x. x ≢ 0) (decode_out m c) (decode_from (decode_mode m c) s)
      (decode_out-ne_zero m c) (decode-ne_zero (decode_mode m c) s)
