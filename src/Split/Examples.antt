-- ===== src/Split/Examples.antt =====
-- The theorems of Split at a concrete string.
use libshl.Base.{List, [], refl, ℕ, ◌%◌, ◌∷◌, ◌≡◌}
use libshl.Split.{is_sep}
use libshl.Split.Pieces.{nonempty, pieces}

-- ab,,c
abbrev commas : List ℕ
commas = b'a' ∷ b'b' ∷ b',' ∷ b',' ∷ b'c' ∷ []

-- Pointers whose bytes are the number of the string and 1.
abbrev stored_at_one : ℕ → List ℕ
stored_at_one n = (n % 256) ∷ 1 ∷ 0 ∷ 0 ∷ 0 ∷ 0 ∷ 0 ∷ 0 ∷ []

-- The parts are ab and c.
commas_parts : nonempty (pieces (is_sep (b',' ∷ [])) commas) ≡ (b'a' ∷ b'b' ∷ []) ∷ (b'c' ∷ []) ∷ []
unfolding is_sep
commas_parts = refl
