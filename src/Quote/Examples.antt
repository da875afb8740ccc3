-- ===== src/Quote/Examples.antt =====
-- The theorems of Quote at concrete strings.
use libshl.Base.{List, [], arith, inl, length, refl, true, ℕ, ◌++◌, ◌∷◌, ◌≡◌, ◌≤◌}
use libshl.Quote.{backslash, decode, encode, plain_mode, quote, single_quote, space}
use libshl.Quote.Decode.{decode_in_place, written}
use libshl.Quote.RoundTrip.{decode-encode}

-- a, a space, a backslash and a double quote
abbrev mixed : List ℕ
mixed = b'a' ∷ space ∷ backslash ∷ quote ∷ []

decode_in_place_example :
    (written plain_mode mixed ≤ length mixed)
    × (length (decode (mixed ++ (single_quote ∷ []))) ≤ length (mixed ++ (single_quote ∷ [])))
decode_in_place_example = decode_in_place mixed (single_quote ∷ [])

decode-encode_example : decode (encode true mixed) ≡ mixed
decode-encode_example = decode-encode true mixed (
  (omega arith, inl refl),
  ((omega arith, inl refl), ((omega arith, inl refl), ((omega arith, inl refl), tt))),
)
