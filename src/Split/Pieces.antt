-- ===== src/Split/Pieces.antt =====
-- The parts of a string between its cuts.
use libshl.Base.{
  Bool, List, [], ap, append_assoc, false, if◌then◌else◌, refl, true, ℕ, ◌++◌, ◌∷◌, ◌≡◌,
}
use libshl.Split.{same_text}

-- The parts of a string between its cuts; `cut` says where they are.
abbrev pub extend : ℕ → List (List ℕ) → List (List ℕ)
extend c [] = (c ∷ []) ∷ []
extend c (p ∷ ps) = (c ∷ p) ∷ ps

abbrev pub pieces : (ℕ → Bool) → List ℕ → List (List ℕ)
pieces cut [] = [] ∷ []
pieces cut (c ∷ s) = if cut c then [] ∷ pieces cut s else extend c (pieces cut s)

abbrev pub nonempty : List (List ℕ) → List (List ℕ)
nonempty [] = []
nonempty ([] ∷ ps) = nonempty ps
nonempty ((c ∷ p) ∷ ps) = (c ∷ p) ∷ nonempty ps

-- The text in front of the first part.
abbrev pub glue : List ℕ → List (List ℕ) → List (List ℕ)
glue token [] = token ∷ []
glue token (p ∷ ps) = (token ++ p) ∷ ps

pub glue-extend :
    (token : List ℕ) (c : ℕ) (ps : List (List ℕ))
    → glue (token ++ (c ∷ [])) ps ≡ glue token (extend c ps)
glue-extend token c [] = refl
glue-extend token c (p ∷ ps) = ap (λ t. t ∷ ps) (append_assoc token (c ∷ []) p)

abbrev pub map_text : (List ℕ → List ℕ) → List (List ℕ) → List (List ℕ)
map_text f [] = []
map_text f (x ∷ xs) = f x ∷ map_text f xs

pub nonempty-cut :
    (token : List ℕ) (ps : List (List ℕ))
    → nonempty (token ∷ ps) ≡ nonempty (token ∷ []) ++ nonempty ps
nonempty-cut [] ps = refl
nonempty-cut (c ∷ token) ps = refl

pub glue-nil : (cut : ℕ → Bool) (s : List ℕ) → glue [] (pieces cut s) ≡ pieces cut s
glue-nil cut [] = refl
glue-nil cut (c ∷ s) =
    elim (cut c)
      as (λ b.
        glue [] (if b then [] ∷ pieces cut s else extend c (pieces cut s))
        ≡ (if b then [] ∷ pieces cut s else extend c (pieces cut s))) [
          | true ↦ refl
          | false ↦ extended (pieces cut s)
        ]
  where
    extended : (ps : List (List ℕ)) → glue [] (extend c ps) ≡ extend c ps
    extended [] = refl
    extended (p ∷ ps) = refl

pub map_same : (xs : List (List ℕ)) → map_text same_text xs ≡ xs
map_same [] = refl
map_same (x ∷ xs) = ap (λ t. x ∷ t) (map_same xs)
