-- ===== src/Paths/Rounds.antt =====
-- The rounds of the loop of shl__mkdir_parents, against the fronts of the path.
use libshl.Base.{
  All, Bool-cases, List, Option, [], ap, append_assoc, ap₂, arith, false, if◌then◌else◌, inl, inr,
  length, map, none, refl, some, subst, suc, sym, zero, ℕ, ◌++◌, ◌<◌, ◌==◌, ◌∙◌, ◌∷◌, ◌≡◌,
}
use libshl.Base.Memory.{Answer, err, errno, ok}
use libshl.Paths.{after_component, component, skip_slashes, slash}
use libshl.Paths.Ancestors.{
  Boundary, Boundary-front, after-slash, components-component, components-front, skip_slashes_idem,
  split_component, split_slashes,
}
use libshl.Paths.Components.{
  after-shorter, component-skip_slashes, components, components-first, components-nil,
  components-skip_slashes, length-skip,
}
use libshl.Paths.Parents.{Made, mkdir_error, parents_loop, skips, slashes}
use libshl.Paths.Startswith.{unrolled}

-- The initial segments that go past `segment`, up to the last but one.
abbrev pub inits_from : List (List ℕ) → List (List ℕ) → List (List (List ℕ))
inits_from segment [] = []
inits_from segment (x ∷ []) = []
inits_from segment (x ∷ (y ∷ ys)) =
    (segment ++ (x ∷ [])) ∷ inits_from (segment ++ (x ∷ [])) (y ∷ ys)

-- The directories that are not skipped.
abbrev pub kept : Option (List ℕ) → List (List ℕ) → List (List ℕ)
kept prefix [] = []
kept prefix (t ∷ ts) = let rest = kept prefix ts in if skips prefix t then rest else t ∷ rest

-- `t` is what stands in front of a slash of the path.
abbrev pub IsFront : List ℕ → List ℕ → Type 0
IsFront path t = (rest : List ℕ) × (path ≡ t ++ (slash ∷ rest))

-- `all` are fronts of the path, one for each initial segment of its components.
abbrev pub Asks : List ℕ → Option (List ℕ) → List (List ℕ) → List (List ℕ) → Option Made → Type 0
Asks path prefix segment cs m =
    (all : List (List ℕ)) × (m ≡ some (record { asked = kept prefix all; result = ok 0 }))
    × (map components all ≡ inits_from segment cs)
    × All (IsFront path) all

module _ (mkdir : List ℕ → Answer ℕ) (prefix : Option (List ℕ))
    (makes : (t : List ℕ) → mkdir_error (mkdir t) ≡ none) (path : List ℕ) where
  -- One round that goes on.
  abbrev asked_first : List ℕ → Option Made → Option Made
  asked_first t rest = if skips prefix t then rest else elim (mkdir_error (mkdir t)) [
    | some e ↦ some (record { asked = t ∷ []; result = err (errno e) })
    | none ↦ elim rest [ none ↦ none | some m ↦ some (record m { asked = t ∷ m.asked }) ]
  ]

  asked_first-kept :
      (t : List ℕ) (all : List (List ℕ))
      → asked_first t (some (record { asked = kept prefix all; result = ok 0 }))
        ≡ some (record { asked = kept prefix (t ∷ all); result = ok 0 })
  asked_first-kept t all = elim (Bool-cases (skips prefix t)) [
    | inl e ↦ rw e refl
    | inr e ↦ rw (e, makes t) refl
  ]

  module _ (front w : List ℕ) (b : Boundary front) (pos : 0 < length (component w)) where
    abbrev t : List ℕ
    t = front ++ component w

    abbrev onward : List ℕ
    onward = skip_slashes (after_component w)

    components-t : components (front ++ component w) ≡ components front ++ (component w ∷ [])
    components-t = b (component w) ∙ ap (λ x. components front ++ x) (components-component w pos)

    no_more :
        length (skip_slashes (after_component w)) ≡ 0
        → inits_from (components front) (components w) ≡ []
    no_more e =
        ap (inits_from (components front)) (
          components-first w pos ∙ ap (λ x. component w ∷ x) (components-nil (after_component w) e))

    one_more :
        0 < length (skip_slashes (after_component w))
        → inits_from (components front) (components w)
          ≡ (components front ++ (component w ∷ []))
            ∷ inits_from
                (components front ++ (component w ∷ []))
                (components (skip_slashes (after_component w)))
    one_more more =
        ap (inits_from (components front))
          (components-first w pos ∙ ap (λ x. component w ∷ x) (unrolled (after_component w) more))
        ∙ ap
            (λ x.
              (components front ++ (component w ∷ []))
              ∷ inits_from (components front ++ (component w ∷ [])) x)
            (sym (unrolled (after_component w) more)
              ∙ sym (components-skip_slashes (after_component w)))

    begins :
        0 < length (skip_slashes (after_component w))
        → (rest : List ℕ) × (after_component w ≡ slash ∷ rest)
    begins more = after-slash w (omega (arith, length-skip (after_component w)))

    module _ (whole : path ≡ front ++ w) where
      whole_t : path ≡ (front ++ component w) ++ after_component w
      whole_t =
          whole
          ∙ ap (λ x. front ++ x) (split_component w)
          ∙ sym (append_assoc front (component w) (after_component w))

      whole_onward :
          path
          ≡ ((front ++ component w) ++ slashes (after_component w))
            ++ skip_slashes (after_component w)
      whole_onward =
          whole_t
          ∙ ap (λ x. (front ++ component w) ++ x) (split_slashes (after_component w))
          ∙ sym (
              append_assoc (front ++ component w) (slashes (after_component w))
                (skip_slashes (after_component w)))

      t-IsFront :
          0 < length (skip_slashes (after_component w)) → IsFront path (front ++ component w)
      t-IsFront more =
          let (rest, e) = begins more in (rest, whole_t ∙ ap (λ x. (front ++ component w) ++ x) e)

    round :
        (fuel : ℕ)
        → path ≡ front ++ w
        → (0 < length (skip_slashes (after_component w))
            → Asks path prefix
                (components (t ++ slashes (after_component w)))
                (components onward)
                (parents_loop mkdir prefix fuel (t ++ slashes (after_component w)) onward))
        → Asks path prefix
            (components front)
            (components w)
            (parents_loop mkdir prefix (suc fuel) front w)
    unfolding parents_loop
    round fuel whole later = elim (Bool-cases (length (skip_slashes (after_component w)) == 0)) [
      | inl e ↦ ([], rw e refl, sym (no_more (ground arith)), tt)
      | inr e ↦ onwards e (ground arith) (later (ground arith))
    ]
      where
        onwards :
            (length (skip_slashes (after_component w)) == 0) ≡ false
            → 0 < length (skip_slashes (after_component w))
            → Asks path prefix
                (components (t ++ slashes (after_component w)))
                (components onward)
                (parents_loop mkdir prefix fuel (t ++ slashes (after_component w)) onward)
            → Asks path prefix
                (components front)
                (components w)
                (parents_loop mkdir prefix (suc fuel) front w)
        onwards e more (all, q, r, f) = (
          t ∷ all,
          rw e (ap (asked_first t) q ∙ asked_first-kept t all),
          ap₂ (λ x y. x ∷ y) components-t
                (r
                  ∙ ap (λ x. inits_from x (components onward))
                      (components-front t (after_component w) (begins more) ∙ components-t))
              ∙ sym (one_more more),
          (t-IsFront whole more, f),
        )

  pub parents_loop-Asks :
      (fuel : ℕ) (front p : List ℕ)
      → length p < fuel
      → Boundary front
      → skip_slashes p ≡ p
      → path ≡ front ++ p
      → Asks path prefix (components front) (components p) (parents_loop mkdir prefix fuel front p)
  parents_loop-Asks zero front p h b s w = absurd (omega arith)
  parents_loop-Asks (suc fuel) front [] h b s w = unfold parents_loop in ([], refl, refl, tt)
  parents_loop-Asks (suc fuel) front (c ∷ p) h b s w = round front (c ∷ p) b starts fuel w (λ more.
      parents_loop-Asks fuel (t front (c ∷ p) b starts ++ slashes (after_component (c ∷ p)))
        (skip_slashes (after_component (c ∷ p)))
        (omega (arith, after-shorter (c ∷ p) starts, length-skip (after_component (c ∷ p))))
        (Boundary-front (t front (c ∷ p) b starts) (after_component (c ∷ p))
          (begins front (c ∷ p) b starts more))
        (skip_slashes_idem (after_component (c ∷ p))) (whole_onward front (c ∷ p) b starts w))
    where
      starts : 0 < length (component (c ∷ p))
      starts =
          subst (λ x. 0 < length (component x)) s
            (component-skip_slashes (c ∷ p) (subst (λ x. 0 < length x) (sym s) (omega arith)))
