-- ===== src/Paths/Components.antt =====
-- shl__path_startswith compares paths by their components.
use libshl.Base.{
  Bool, Bool-cases, List, [], ap, ap₂, arith, false, if◌then◌else◌, inl, inr, length, refl, sym,
  true, ℕ, ◌<◌, ◌==◌, ◌∙◌, ◌∷◌, ◌≡◌, ◌≤◌,
}
use libshl.Paths.{after_component, component, differs, skip_slashes, slash}
use libshl.Split.Pieces.{extend, nonempty, pieces}

-- The parts of a path between slashes, without the empty ones.
abbrev pub components : List ℕ → List (List ℕ)
components path = nonempty (pieces (λ c. c == slash) path)

pub components-skip_slashes : (path : List ℕ) → components (skip_slashes path) ≡ components path
components-skip_slashes [] = refl
components-skip_slashes (c ∷ path) = elim (Bool-cases (c == slash)) [
  | inl e ↦ rw e (components-skip_slashes path)
  | inr e ↦ rw (e, e) refl
]

-- The pieces behind the first one.
abbrev behind : List ℕ → List (List ℕ)
behind [] = []
behind (c ∷ path) = pieces (λ c. c == slash) path

pub pieces-component :
    (path : List ℕ) → pieces (λ c. c == slash) path ≡ component path ∷ behind (after_component path)
pieces-component [] = refl
pieces-component (c ∷ path) = elim (Bool-cases (c == slash)) [
  | inl e ↦ rw e refl
  | inr e ↦ rw e (ap (extend c) (pieces-component path))
]

components-after :
    (path : List ℕ) → nonempty (behind (after_component path)) ≡ components (after_component path)
components-after [] = refl
components-after (c ∷ path) = elim (Bool-cases (c == slash)) [
  | inl e ↦ rw (e, e) refl
  | inr e ↦ rw e (components-after path)
]

-- The first component of a path that does not begin with a slash.
pub components-first :
    (path : List ℕ)
    → 0 < length (component path)
    → components path ≡ component path ∷ components (after_component path)
components-first path pos =
    ap nonempty (pieces-component path)
    ∙ full (component path) (behind (after_component path)) pos
    ∙ ap (λ t. component path ∷ t) (components-after path)
  where
    full : (x : List ℕ) (xs : List (List ℕ)) → 0 < length x → nonempty (x ∷ xs) ≡ x ∷ nonempty xs
    full [] xs lt = absurd (omega arith)
    full (c ∷ x) xs lt = refl

pub component-skip_slashes :
    (path : List ℕ) → 0 < length (skip_slashes path) → 0 < length (component (skip_slashes path))
component-skip_slashes [] pos = pos
component-skip_slashes (c ∷ path) pos = go (component-skip_slashes path) (c == slash) refl pos
  where
    go :
        (0 < length (skip_slashes path) → 0 < length (component (skip_slashes path)))
        → (b : Bool) → (c == slash) ≡ b
        → 0 < length (if b then skip_slashes path else c ∷ path)
        → 0 < length (component (if b then skip_slashes path else c ∷ path))
    go later true e h = later h
    go later false e h = rw e (omega arith)

pub components-nil : (path : List ℕ) → length (skip_slashes path) ≡ 0 → components path ≡ []
components-nil path e =
    sym (components-skip_slashes path) ∙ ap components (nil (skip_slashes path) e)
  where
    nil : (x : List ℕ) → length x ≡ 0 → x ≡ []
    nil [] q = refl
    nil (c ∷ x) q = absurd (omega arith)

length-after : (path : List ℕ) → length (after_component path) ≤ length path
length-after [] = omega arith
length-after (c ∷ path) = ground (arith, length-after path)

pub length-skip : (path : List ℕ) → length (skip_slashes path) ≤ length path
length-skip [] = omega arith
length-skip (c ∷ path) = ground (arith, length-skip path)

pub after-shorter :
    (path : List ℕ) → 0 < length (component path) → length (after_component path) < length path
after-shorter [] pos = absurd (omega arith)
after-shorter (c ∷ path) pos = ground (arith, length-after path)

pub true-false : true ≡ false → ⊥
true-false e = cc

pub same_component : (xs ys : List ℕ) → length xs ≡ length ys → differs xs ys ≡ false → xs ≡ ys
same_component [] [] n e = refl
same_component [] (y ∷ ys) n e = absurd (omega arith)
same_component (x ∷ xs) [] n e = absurd (omega arith)
same_component (x ∷ xs) (y ∷ ys) n e = go (same_component xs ys (omega (arith, n))) (x == y) refl e
  where
    go :
        (differs xs ys ≡ false → xs ≡ ys)
        → (b : Bool) → (x == y) ≡ b
        → (if b then differs xs ys else true) ≡ false
        → x ∷ xs ≡ y ∷ ys
    go later true q h = ap₂ (λ c t. c ∷ t) (ground arith) (later h)
    go later false q h = absurd (true-false h)

pub differs_refl : (xs : List ℕ) → differs xs xs ≡ false
differs_refl [] = refl
differs_refl (x ∷ xs) = ground (arith, differs_refl xs)
