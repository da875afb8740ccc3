-- ===== src/Tokens/Examples.antt =====
-- The theorem of Tokens at a concrete string.
use libshl.Base.{List, [], false, refl, ℕ, ◌%◌, ◌∷◌, ◌≡◌}
use libshl.Quote.{decode, decode_from, decode_mode, decode_out, quote, space}
use libshl.Split.Pieces.{map_text, nonempty}
use libshl.Tokens.Words.{parts}

-- a b, in double quotes
abbrev quoted_words : List ℕ
quoted_words = quote ∷ b'a' ∷ space ∷ b'b' ∷ quote ∷ []

-- Pointers whose bytes are the number of the string and 1.
abbrev stored_at_one : ℕ → List ℕ
stored_at_one n = (n % 256) ∷ 1 ∷ 0 ∷ 0 ∷ 0 ∷ 0 ∷ 0 ∷ 0 ∷ []

-- They are two parts, a and b.
quoted_words-parts :
    map_text decode (nonempty (parts false quoted_words)) ≡ (b'a' ∷ []) ∷ (b'b' ∷ []) ∷ []
unfolding decode decode_from decode_out decode_mode
quoted_words-parts = refl
