-- ===== src/Paths/Examples.antt =====
-- The theorem of Paths at concrete paths.
use libshl.Base.{List, Option, [], arith, none, refl, some, ℕ, ◌∷◌, ◌≡◌}
use libshl.Base.Memory.{failed, gave, ok}
use libshl.Paths.{path_startswith, slash, startswith_loop}
use libshl.Paths.Parents.{mkdir_parents, parents_loop}
use libshl.Paths.Startswith.{Starts, path_startswith-Starts}

-- //usr/lib
abbrev usr_lib : List ℕ
usr_lib = slash ∷ slash ∷ b'u' ∷ b's' ∷ b'r' ∷ slash ∷ b'l' ∷ b'i' ∷ b'b' ∷ []

-- /usr/
abbrev usr : List ℕ
usr = slash ∷ b'u' ∷ b's' ∷ b'r' ∷ slash ∷ []

path_startswith-Starts_example :
    (r : Option (List ℕ)) × (path_startswith 6 (some usr_lib) (some usr) ≡ some r)
    × Starts usr_lib usr r
path_startswith-Starts_example = path_startswith-Starts 6 usr_lib usr (omega arith)

-- The rest is lib.
rest_of_usr : path_startswith 6 (some usr_lib) (some usr) ≡ some (some (b'l' ∷ b'i' ∷ b'b' ∷ []))
unfolding path_startswith startswith_loop
rest_of_usr = refl

-- /var/log//x
abbrev var_log : List ℕ
var_log = slash ∷ b'v' ∷ b'a' ∷ b'r' ∷ slash ∷ b'l' ∷ b'o' ∷ b'g' ∷ slash ∷ slash ∷ b'x' ∷ []

-- It asks for /var and for /var/log.
asked_for :
    mkdir_parents (λ t. gave 0) none 12 (λ t. failed 2) var_log
    ≡ some (record {
      asked =
          (slash ∷ b'v' ∷ b'a' ∷ b'r' ∷ [])
          ∷ (slash ∷ b'v' ∷ b'a' ∷ b'r' ∷ slash ∷ b'l' ∷ b'o' ∷ b'g' ∷ [])
          ∷ [];
      result = ok 0;
    })
unfolding mkdir_parents path_startswith parents_loop
asked_for = refl
