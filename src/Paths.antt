-- ===== src/Paths.antt =====
-- src/shl_util.c, shl__path_startswith. A path is the list of its bytes.
pub mod Components
pub mod Startswith
pub mod Parents
pub mod Ancestors
pub mod Rounds
pub mod Asked
mod Examples
use libshl.Base.{
  Bool, List, Option, [], false, if◌then◌else◌, length, none, not, some, suc, true, zero, ℕ, ◌==◌,
  ◌||◌, ◌∷◌,
}

abbrev pub slash : ℕ
slash = 47

-- `path[0] == '/'`
abbrev pub is_absolute : List ℕ → Bool
is_absolute [] = false
is_absolute (c ∷ path) = c == slash

-- `path + strspn(path, "/")`
abbrev pub skip_slashes : List ℕ → List ℕ
skip_slashes [] = []
skip_slashes (c ∷ path) = let rest = skip_slashes path in if c == slash then rest else c ∷ path

-- The first `strcspn(path, "/")` bytes, and what is behind them.
abbrev pub component : List ℕ → List ℕ
component [] = []
component (c ∷ path) = let rest = component path in if c == slash then [] else c ∷ rest

abbrev pub after_component : List ℕ → List ℕ
after_component [] = []
after_component (c ∷ path) =
    let rest = after_component path in if c == slash then c ∷ path else rest

-- `memcmp` of two components of one length, as whether it finds a difference
abbrev pub differs : List ℕ → List ℕ → Bool
differs [] ys = false
differs (x ∷ xs) [] = false
differs (x ∷ xs) (y ∷ ys) = let rest = differs xs ys in if x == y then rest else true

-- The loop of `shl__path_startswith`; the outer `none` means that the fuel ran out, the inner one is
-- NULL.
unfoldable pub startswith_loop : ℕ → List ℕ → List ℕ → Option (Option (List ℕ))
startswith_loop zero path prefix = none
startswith_loop (suc fuel) path prefix =
    let p = skip_slashes path in
    let q = skip_slashes prefix in
    let rest = startswith_loop fuel (after_component p) (after_component q) in
    if length q == 0
    then some (some p)
    else if length p == 0
    then some none
    else if not (length (component p) == length (component q))
        || differs (component p) (component q)
    then some none
    else rest

-- `!=` of two tests
abbrev pub other : Bool → Bool → Bool
other a b = if a then not b else b

-- `shl__path_startswith`; `none` is NULL.
unfoldable pub path_startswith : ℕ → Option (List ℕ) → Option (List ℕ) → Option (Option (List ℕ))
path_startswith fuel none prefix = some none
path_startswith fuel (some path) none = some (some path)
path_startswith fuel (some path) (some prefix) =
    let rest = startswith_loop fuel path prefix in
    if other (is_absolute path) (is_absolute prefix) then some none else rest
