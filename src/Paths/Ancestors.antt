-- ===== src/Paths/Ancestors.antt =====
-- The components of the fronts of a path.
use libshl.Base.{
  Bool, Bool-cases, List, [], ap, append-nil, append_assoc, arith, false, if◌then◌else◌, inl, inr,
  length, refl, sym, true, ℕ, ◌++◌, ◌<◌, ◌==◌, ◌∙◌, ◌∷◌, ◌≡◌,
}
use libshl.Paths.{after_component, component, skip_slashes, slash}
use libshl.Paths.Components.{components, pieces-component}
use libshl.Paths.Parents.{slashes}
use libshl.Split.Pieces.{extend, nonempty, pieces}

pub split_slashes : (path : List ℕ) → path ≡ slashes path ++ skip_slashes path
split_slashes [] = refl
split_slashes (c ∷ path) = elim (Bool-cases (c == slash)) [
  | inl e ↦ rw e (ap (λ t. c ∷ t) (split_slashes path))
  | inr e ↦ rw e refl
]

pub split_component : (path : List ℕ) → path ≡ component path ++ after_component path
split_component [] = refl
split_component (c ∷ path) = elim (Bool-cases (c == slash)) [
  | inl e ↦ rw e refl
  | inr e ↦ rw e (ap (λ t. c ∷ t) (split_component path))
]

pub components-slashes : (path rest : List ℕ) → components (slashes path ++ rest) ≡ components rest
components-slashes [] rest = refl
components-slashes (c ∷ path) rest = elim (Bool-cases (c == slash)) [
  | inl e ↦ rw (e, e) (components-slashes path rest)
  | inr e ↦ rw e refl
]

extend-append :
    (c : ℕ) (path : List ℕ) (ys : List (List ℕ))
    → extend c (pieces (λ d. d == slash) path ++ ys)
      ≡ extend c (pieces (λ d. d == slash) path) ++ ys
extend-append c path ys = rw (pieces-component path) refl

pieces-append :
    (path rest : List ℕ)
    → pieces (λ d. d == slash) (path ++ (slash ∷ rest))
      ≡ pieces (λ d. d == slash) path ++ pieces (λ d. d == slash) rest
pieces-append [] rest = refl
pieces-append (c ∷ path) rest = elim (Bool-cases (c == slash)) [
  | inl e ↦ rw e (ap (λ t. [] ∷ t) (pieces-append path rest))
  | inr e ↦ rw e (
      ap (extend c) (pieces-append path rest)
      ∙ extend-append c path (pieces (λ d. d == slash) rest))
]

nonempty-append : (xs ys : List (List ℕ)) → nonempty (xs ++ ys) ≡ nonempty xs ++ nonempty ys
nonempty-append [] ys = refl
nonempty-append ([] ∷ xs) ys = nonempty-append xs ys
nonempty-append ((c ∷ x) ∷ xs) ys = ap (λ t. (c ∷ x) ∷ t) (nonempty-append xs ys)

components-append :
    (path rest : List ℕ) → components (path ++ (slash ∷ rest)) ≡ components path ++ components rest
components-append path rest =
    ap nonempty (pieces-append path rest)
    ∙ nonempty-append (pieces (λ d. d == slash) path) (pieces (λ d. d == slash) rest)

pub components-component :
    (path : List ℕ)
    → 0 < length (component path)
    → components (component path) ≡ component path ∷ []
components-component path pos = ap nonempty (one path) ∙ full (component path) pos
  where
    one : (x : List ℕ) → pieces (λ d. d == slash) (component x) ≡ component x ∷ []
    one [] = refl
    one (c ∷ x) = elim (Bool-cases (c == slash)) [
      | inl e ↦ rw e refl
      | inr e ↦ rw e (rw e (ap (extend c) (one x)))
    ]

    full : (x : List ℕ) → 0 < length x → nonempty (x ∷ []) ≡ x ∷ []
    full [] lt = absurd (omega arith)
    full (c ∷ x) lt = refl

pub skip_slashes_idem : (path : List ℕ) → skip_slashes (skip_slashes path) ≡ skip_slashes path
skip_slashes_idem [] = refl
skip_slashes_idem (c ∷ path) = elim (Bool-cases (c == slash)) [
  | inl e ↦ rw e (skip_slashes_idem path)
  | inr e ↦ rw e (rw e refl)
]

-- What follows a component begins with a slash.
pub after-slash :
    (path : List ℕ)
    → 0 < length (after_component path)
    → (rest : List ℕ) × (after_component path ≡ slash ∷ rest)
after-slash [] pos = absurd (omega arith)
after-slash (c ∷ path) pos = go (after-slash path) (c == slash) refl pos
  where
    go :
        (0 < length (after_component path)
          → (rest : List ℕ) × (after_component path ≡ slash ∷ rest))
        → (b : Bool) → (c == slash) ≡ b
        → 0 < length (if b then c ∷ path else after_component path)
        → (rest : List ℕ) × ((if b then c ∷ path else after_component path) ≡ slash ∷ rest)
    go later true e h = (path, ap (λ d. d ∷ path) (ground arith))
    go later false e h = later h

-- A front that ends between components.
abbrev pub Boundary : List ℕ → Type 0
Boundary front = (rest : List ℕ) → components (front ++ rest) ≡ components front ++ components rest

pub components-none : (path : List ℕ) → components (slashes path) ≡ []
components-none path = ap components (sym (append-nil (slashes path))) ∙ components-slashes path []

pub Boundary-slashes : (path : List ℕ) → Boundary (slashes path)
Boundary-slashes path rest =
    components-slashes path rest ∙ ap (λ t. t ++ components rest) (sym (components-none path))

-- The front behind a component and its slashes.
module _ (t behind : List ℕ) (starts : (rest : List ℕ) × (behind ≡ slash ∷ rest)) where
  slashes-behind : slashes behind ≡ slash ∷ slashes starts.0
  slashes-behind = ap slashes starts.1

  pub components-front : components (t ++ slashes behind) ≡ components t
  components-front =
      ap (λ x. components (t ++ x)) slashes-behind
      ∙ components-append t (slashes starts.0)
      ∙ ap (λ x. components t ++ x)
          (ap components (sym (append-nil (slashes starts.0))) ∙ components-slashes starts.0 [])
      ∙ append-nil (components t)

  pub Boundary-front : Boundary (t ++ slashes behind)
  Boundary-front rest =
      ap components (append_assoc t (slashes behind) rest)
      ∙ ap (λ x. components (t ++ (x ++ rest))) slashes-behind
      ∙ components-append t (slashes starts.0 ++ rest)
      ∙ ap (λ x. components t ++ x) (components-slashes starts.0 rest)
      ∙ ap (λ x. x ++ components rest) (sym components-front)
