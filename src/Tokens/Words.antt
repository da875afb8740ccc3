-- ===== src/Tokens/Words.antt =====
-- What `shl_qstr_tokenize_n` returns, against the words of a string.
use libshl.Base.{Bool, List, [], false, if◌then◌else◌, length, not, ℕ, ◌&&◌, ◌++◌, ◌==◌, ◌∷◌, ◌≡◌}
use libshl.Base.Memory.{Allocator, IsAllocator, Outcome, err, ok, undefined}
use libshl.Quote.{Mode, backslash, decode, space}
use libshl.Split.{Strv, push_token}
use libshl.Split.Pieces.{extend, map_text, nonempty}
use libshl.Tokens.{tokenize_loop}

-- The parts of a string between the spaces that no backslash stands before; `escaped` says whether
-- one stands before the string.
abbrev pub parts : Bool → List ℕ → List (List ℕ)
parts escaped [] = [] ∷ []
parts escaped (c ∷ s) =
    if not escaped && c == space
    then [] ∷ parts false s
    else extend c (parts (not escaped && c == backslash) s)

abbrev outside : Bool → Mode
outside escaped = record { quoted = 0; escaped = escaped }

abbrev decoded : List (List ℕ) → List (List ℕ)
decoded ps = map_text decode (nonempty ps)

module _ (a : Allocator) (h : IsAllocator a) (address : ℕ → List ℕ)
    (eight : (n : ℕ) → length (address n) ≡ 8) where
  -- One round of the loop, by what it decides and the mode behind it.
  abbrev round : ℕ → List ℕ → List ℕ → Strv → Bool → Mode → Outcome Strv
  round c str token st b m =
      if b
      then elim (push_token a address decode st token) [
        | ok st' ↦ tokenize_loop a address m str [] st'
        | err x ↦ err x
        | undefined ↦ undefined
      ]
      else tokenize_loop a address m str (token ++ (c ∷ [])) st
