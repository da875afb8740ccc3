-- ===== src/Paths/Parents.antt =====
-- src/shl_util.c, shl__is_dir, shl__mkdir_parents and shl__mkdir_p. What `stat` and `mkdir` answer for a
-- path is a parameter.
use libshl.Base.{
  Bool, List, Option, [], false, if◌then◌else◌, length, none, some, suc, true, zero, ℕ, ◌&&◌, ◌++◌,
  ◌==◌, ◌∷◌,
}
use libshl.Base.Memory.{Answer, Outcome, enotdir, err, errno, failed, gave, ok, undefined}
use libshl.Paths.{after_component, component, path_startswith, skip_slashes, slash}

-- The bytes that `strspn(path, "/")` counts.
abbrev pub slashes : List ℕ → List ℕ
slashes [] = []
slashes (c ∷ path) = let rest = slashes path in if c == slash then c ∷ rest else []

-- The bytes in front of the last slash, `none` without one: `strrchr` and `strndupa`.
abbrev pub before_last : List ℕ → Option (List ℕ)
before_last [] = none
before_last (c ∷ path) = elim (before_last path) [
  | some front ↦ some (c ∷ front)
  | none ↦ if c == slash then some [] else none
]

-- `prefix && shl__path_startswith(prefix, t)`
abbrev pub skips : Option (List ℕ) → List ℕ → Bool
skips none t = false
skips (some prefix) t = elim (path_startswith (suc (length t)) (some prefix) (some t)) [
  | none ↦ false
  | some none ↦ false
  | some (some rest) ↦ true
]

-- The directories that were asked for, in order, and the result.
pub record Made : Type 0 where
  pub asked : List (List ℕ)
  pub result : Outcome ℕ

-- EEXIST
abbrev pub eexist : ℕ
eexist = 17

-- `r < 0 && errno != EEXIST`
abbrev pub mkdir_error : Answer ℕ → Option ℕ
mkdir_error (failed e) = if e == eexist then none else some e
mkdir_error (gave r) = none

-- The tests of `shl__mkdir_parents` before its loop: the prefix, and the directory that the path is in.
abbrev pub started : Option (Option (List ℕ)) → Option Made → Option Made
started none loop = none
started (some none) loop = some (record { asked = []; result = err enotdir })
started (some (some rest)) loop = loop

abbrev pub below : (List ℕ → Answer Bool) → Option (List ℕ) → Option Made → Option Made
below is_dir none loop = some (record { asked = []; result = ok 0 })
below is_dir (some []) loop = some (record { asked = []; result = ok 0 })
below is_dir (some (c ∷ parent)) loop = elim (is_dir (c ∷ parent)) [
  | gave true ↦ some (record { asked = []; result = ok 0 })
  | gave false ↦ some (record { asked = []; result = err enotdir })
  | failed e ↦ loop
]

-- The result of the last `mkdir` of `shl__mkdir_p`, by the answers of `mkdir` and of `stat`.
abbrev pub last_result : Answer ℕ → Answer Bool → Outcome ℕ
last_result (gave r) is_dir = ok 0
last_result (failed e) (gave b) = if e == eexist && b then ok 0 else err (errno e)
last_result (failed e) (failed x) = err (errno (if e == eexist then x else e))

-- What `shl__mkdir_p` does after `shl__mkdir_parents`.
abbrev pub followed : Answer ℕ → Answer Bool → List ℕ → Option Made → Option Made
followed made is_dir path none = none
followed made is_dir path (some m) = elim m.result [
  | err e ↦ some m
  | undefined ↦ some m
  | ok x ↦ some (record { asked = m.asked ++ (path ∷ []); result = last_result made is_dir })
]

module _ (mkdir : List ℕ → Answer ℕ) (prefix : Option (List ℕ)) where
  -- The loop, at `p` in the path, with the bytes in front of it.
  unfoldable pub parents_loop : ℕ → List ℕ → List ℕ → Option Made
  parents_loop zero front p = none
  parents_loop (suc fuel) front p =
      let behind = after_component p in
      let t = front ++ component p in
      let rest = parents_loop fuel (t ++ slashes behind) (skip_slashes behind) in
      if length (skip_slashes behind) == 0
      then some (record { asked = []; result = ok 0 })
      else if skips prefix t
      then rest
      else elim (mkdir_error (mkdir t)) [
        | some e ↦ some (record { asked = t ∷ []; result = err (errno e) })
        | none ↦ elim rest [ none ↦ none | some m ↦ some (record m { asked = t ∷ m.asked }) ]
      ]

  -- `shl__mkdir_parents`; `is_dir` is what `stat` finds.
  unfoldable pub mkdir_parents : ℕ → (List ℕ → Answer Bool) → List ℕ → Option Made
  mkdir_parents fuel is_dir path =
      started (path_startswith fuel (some path) prefix)
        (below is_dir (before_last path) (parents_loop fuel (slashes path) (skip_slashes path)))

  -- `shl__mkdir_p`
  unfoldable pub mkdir_p : ℕ → (List ℕ → Answer Bool) → List ℕ → Option Made
  mkdir_p fuel is_dir path =
      followed (mkdir path) (is_dir path) path (mkdir_parents fuel is_dir path)
