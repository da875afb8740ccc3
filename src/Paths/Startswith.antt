-- ===== src/Paths/Startswith.antt =====
-- A path starts with a prefix if its components do.
use libshl.Base.{
  Bool, Bool-cases, List, Option, [], ap, ap₂, arith, false, if◌then◌else◌, inl, inr, length, none,
  not, refl, some, suc, sym, true, zero, ℕ, ◌++◌, ◌<◌, ◌==◌, ◌||◌, ◌∙◌, ◌∷◌, ◌≡◌, ◌≢◌,
}
use libshl.Paths.{
  after_component, component, differs, is_absolute, other, path_startswith, skip_slashes,
  startswith_loop,
}
use libshl.Paths.Components.{
  after-shorter, component-skip_slashes, components, components-first, components-nil,
  components-skip_slashes, differs_refl, length-skip, same_component, true-false,
}

-- What the loop finds: the rest of the path behind the components of the prefix, or that they are
-- not its first ones.
abbrev pub Leaves : List ℕ → List ℕ → Option (List ℕ) → Type 0
Leaves path prefix (some rest) = components path ≡ components prefix ++ components rest
Leaves path prefix none = (cs : List (List ℕ)) → components path ≢ components prefix ++ cs

cons-head : {x y : List ℕ} {xs ys : List (List ℕ)} → x ∷ xs ≡ y ∷ ys → x ≡ y
cons-head e = cc

cons-tail : {x y : List ℕ} {xs ys : List (List ℕ)} → x ∷ xs ≡ y ∷ ys → xs ≡ ys
cons-tail e = cc

nil-cons : {y : List ℕ} {ys : List (List ℕ)} → [] ≡ y ∷ ys → ⊥
nil-cons e = cc

-- The components of a path that goes on.
pub unrolled :
    (path : List ℕ)
    → 0 < length (skip_slashes path)
    → components path
      ≡ component (skip_slashes path) ∷ components (after_component (skip_slashes path))
unrolled path pos =
    sym (components-skip_slashes path)
    ∙ components-first (skip_slashes path) (component-skip_slashes path pos)

module _ (path prefix : List ℕ) (more : 0 < length (skip_slashes path))
    (wanted : 0 < length (skip_slashes prefix)) where
  abbrev p : List ℕ
  p = skip_slashes path

  abbrev q : List ℕ
  q = skip_slashes prefix

  unequal : component p ≢ component q → Leaves path prefix none
  unequal ne cs e =
      ne (cons-head (sym (unrolled path more) ∙ e ∙ ap (λ t. t ++ cs) (unrolled prefix wanted)))

  equal :
      component p ≡ component q
      → (r : Option (List ℕ)) → Leaves (after_component p) (after_component q) r
      → Leaves path prefix r
  equal e none h = λ cs f.
      h cs (cons-tail (sym (unrolled path more) ∙ f ∙ ap (λ t. t ++ cs) (unrolled prefix wanted)))
  equal e (some rest) h =
      unrolled path more
      ∙ ap₂ (λ c t. c ∷ t) e h
      ∙ ap (λ t. t ++ components rest) (sym (unrolled prefix wanted))

-- What the comparison tells.
abbrev unlike : List ℕ → List ℕ → Bool
unlike x y = not (length x == length y) || differs x y

unlike-false : (x y : List ℕ) → unlike x y ≡ false → x ≡ y
unlike-false x y e = elim (Bool-cases (length x == length y)) [
  | inl n ↦ same_component x y (ground arith) (go (length x == length y) (differs x y) n e)
  | inr n ↦ absurd (wrong (length x == length y) (differs x y) n e)
]
  where
    go : (b d : Bool) → b ≡ true → (not b || d) ≡ false → d ≡ false
    go true d q h = h
    go false d q h = absurd (true-false h)

    wrong : (b d : Bool) → b ≡ false → (not b || d) ≡ false → ⊥
    wrong true d q h = true-false q
    wrong false d q h = true-false h

unlike_refl : (x : List ℕ) → unlike x x ≡ false
unlike_refl x = ground (arith, differs_refl x)

shorter :
    (prefix : List ℕ) (fuel : ℕ)
    → 0 < length (skip_slashes prefix)
    → length prefix < suc fuel
    → length (after_component (skip_slashes prefix)) < fuel
shorter prefix fuel pos h = omega (
  arith,
  after-shorter (skip_slashes prefix) (component-skip_slashes prefix pos),
  length-skip prefix,
)

startswith_loop-Leaves :
    (fuel : ℕ) (path prefix : List ℕ)
    → length prefix < fuel
    → (r : Option (List ℕ)) × (startswith_loop fuel path prefix ≡ some r) × Leaves path prefix r
unfolding startswith_loop
startswith_loop-Leaves zero path prefix h = absurd (omega arith)
startswith_loop-Leaves (suc fuel) path prefix h =
    elim (Bool-cases (length (skip_slashes prefix) == 0)) [
      | inl e ↦ (
        some (skip_slashes path),
        rw e refl,
        sym (components-skip_slashes path)
            ∙ ap (λ t. t ++ components (skip_slashes path))
                (sym (components-nil prefix (ground arith))),
      )
      | inr e ↦ elim (Bool-cases (length (skip_slashes path) == 0)) [
        | inl f ↦ (
          none,
          rw (e, f) refl,
          λ cs g. nil-cons (
              sym (components-nil path (ground arith))
              ∙ g
              ∙ ap (λ t. t ++ cs) (unrolled prefix (ground arith))),
        )
        | inr f ↦
            elim (Bool-cases
              (unlike (component (skip_slashes path)) (component (skip_slashes prefix)))) [
                | inl d ↦ (
                  none,
                  rw (e, f, d) refl,
                  unequal path prefix (ground arith) (ground arith) (λ g. true-false (
                      sym d
                      ∙ ap (unlike (component (skip_slashes path))) (sym g)
                      ∙ unlike_refl (component (skip_slashes path)))),
                )
                | inr d ↦
                    let (r, g, l) =
                      startswith_loop-Leaves fuel (after_component (skip_slashes path))
                        (after_component (skip_slashes prefix))
                        (shorter prefix fuel (ground arith) h) in
                    (
                      r,
                      rw (e, f, d) g,
                      equal path prefix (ground arith) (ground arith)
                          (unlike-false (component (skip_slashes path))
                            (component (skip_slashes prefix)) d)
                          r l,
                    )
              ]
      ]
    ]

-- What the paths themselves tell: both are absolute or neither is, and the components of the prefix
-- come first.
abbrev pub Starts : List ℕ → List ℕ → Option (List ℕ) → Type 0
Starts path prefix (some rest) =
    (is_absolute path ≡ is_absolute prefix)
    × (components path ≡ components prefix ++ components rest)
Starts path prefix none =
    is_absolute path ≡ is_absolute prefix
    → (cs : List (List ℕ)) → components path ≢ components prefix ++ cs

-- With as many rounds as the prefix has bytes, and one more, `shl__path_startswith` ends. It returns
-- NULL exactly when one path is absolute and the other is not, or the components of the prefix are
-- not the first ones of the path; how many slashes stand between them does not matter. Else it
-- returns the rest of the path, whose components are the others.
pub path_startswith-Starts :
    (fuel : ℕ) (path prefix : List ℕ)
    → length prefix < fuel
    → (r : Option (List ℕ)) × (path_startswith fuel (some path) (some prefix) ≡ some r)
      × Starts path prefix r
unfolding path_startswith
path_startswith-Starts fuel path prefix h =
    go (is_absolute path) (is_absolute prefix) refl refl (startswith_loop-Leaves fuel path prefix h)
  where
    found :
        is_absolute path ≡ is_absolute prefix
        → (r : Option (List ℕ)) → Leaves path prefix r
        → Starts path prefix r
    found e none l = λ q. l
    found e (some rest) l = (e, l)

    go :
        (a b : Bool)
        → is_absolute path ≡ a
        → is_absolute prefix ≡ b
        → ((r : Option (List ℕ)) × (startswith_loop fuel path prefix ≡ some r)
            × Leaves path prefix r)
        → (r : Option (List ℕ)) × ((if other a b
              then some none
              else startswith_loop fuel path prefix)
            ≡ some r)
          × Starts path prefix r
    go true true q s (r, e, l) = (r, e, found (q ∙ sym s) r l)
    go false false q s (r, e, l) = (r, e, found (q ∙ sym s) r l)
    go true false q s l = (none, refl, λ f. absurd (true-false (sym q ∙ f ∙ s)))
    go false true q s l = (none, refl, λ f. absurd (true-false (sym s ∙ sym f ∙ q)))
