-- ===== src/Paths/Asked.antt =====
-- The directories that shl__mkdir_p asks for.
use libshl.Base.{All, List, Option, [], map, some, ℕ, ◌++◌, ◌∷◌, ◌≡◌}
use libshl.Base.Memory.{Outcome}
use libshl.Paths.Components.{components}
use libshl.Paths.Parents.{Made}
use libshl.Paths.Rounds.{IsFront, inits_from, kept}

-- `all`, and then the path.
abbrev pub AsksPath : Option (List ℕ) → List ℕ → Outcome ℕ → Option Made → Type 0
AsksPath prefix path result m =
    (all : List (List ℕ)) × (m
      ≡ some (record { asked = kept prefix all ++ (path ∷ []); result = result }))
    × (map components all ≡ inits_from [] (components path))
    × All (IsFront path) all
