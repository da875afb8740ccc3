-- ===== src/Split/Fill.antt =====
-- Filling an array of strings: one push, one token, and the whole array.
use libshl.Greedy.Grow.{Grown}
use libshl.Base.{
  Bool-cases, List, Option, [], ap, append-nil, append_assoc, ap₂, arith, drop, drop-length,
  drop_append, false, get_or, inl, inr, length, length-append, length-drop, length-take, ltb,
  ltb→lt, none, refl, replicate, some, subst, suc, sym, take, take_append, ℕ, ◌*◌, ◌++◌, ◌+◌, ◌<◌,
  ◌==◌, ◌^◌, ◌∙◌, ◌∷◌, ◌≡◌, ◌≤◌, ◌⊎◌,
}
use libshl.Base.Memory.{
  Allocator, IsAllocator, Outcome, blit, enomem, err, get_or-blit, length-blit, ok, slice,
  undefined, write_at, write_at_inside,
}
use libshl.Base.Word.{add_size}
use libshl.Greedy.{Block, greedy_realloc0}
use libshl.Greedy.Grow.{Reallocates, Zeroed, greedy_realloc0-zeroes}
use libshl.Split.{
  Strv, copy_text, fill_strv, finish_strv, push_token, store_pointer, strv_need, strv_push,
}
use libshl.Split.Pieces.{map_text, nonempty}

-- How filling an array ends: well, with -ENOMEM for lack of memory, or, where the text of a string
-- could not be allocated, undefined.
abbrev pub Fills {ℓ} : {A : Type ℓ} → Allocator → (A → Type 0) → Outcome A → Type 0
Fills a P (ok x) = P x
Fills a P (err e) =
    (e ≡ enomem)
    × (((n : ℕ) × (a.malloc n ≡ none)) ⊎ ((old : List ℕ) × (n : ℕ) × (a.realloc old n ≡ none)))
Fills a P undefined = (n : ℕ) × (a.malloc n ≡ none)

-- The first `n` pointers of a block are those of the texts.
abbrev pub Written : (ℕ → List ℕ) → List ℕ → ℕ → Type 0
Written address mem n =
    (i j : ℕ) → i < n → j < 8 → get_or mem (i * 8 + j) 0 ≡ get_or (address i) j 0

-- The block keeps its size, has room for the pointers and the final NULL, and holds the pointers.
abbrev pub IsStored : (ℕ → List ℕ) → Strv → Type 0
IsStored address st =
    (length st.strv.mem ≡ st.strv.size)
    × (st.strv.size ≤ 2 ^ 63)
    × ((length st.items + 1) * 8 ≤ length st.strv.mem)
    × Written address st.strv.mem (length st.items)

-- `st'` holds the strings `ws` behind those of `st`.
abbrev pub Holds : (ℕ → List ℕ) → Strv → List (List ℕ) → Strv → Type 0
Holds address st ws st' = IsStored address st' × (st'.items ≡ st.items ++ ws)

-- A block of the right size takes the text and the final 0.
copy_text_fits :
    (ns str : List ℕ) → length ns ≡ length str + 1 → copy_text ns str ≡ some (str ++ (0 ∷ []))
unfolding copy_text
copy_text_fits ns str h =
    ap then_zero (write_at_inside ns 0 str (omega (arith, h)))
    ∙ write_at_inside (str ++ drop (0 + length str) ns) (length str) (0 ∷ []) (
        omega
          (arith, h, length-append str (drop (0 + length str) ns), length-drop (0 + length str) ns))
    ∙ ap₂ (λ x y. some (x ++ (0 ∷ y))) (take_append str (drop (0 + length str) ns)) nothing_left
  where
    then_zero : Option (List ℕ) → Option (List ℕ)
    then_zero o = elim o [ none ↦ none | some text ↦ write_at text (length str) (0 ∷ []) ]

    nothing_left :
        drop (length str + length {A = ℕ} (0 ∷ [])) (str ++ drop (0 + length str) ns) ≡ []
    nothing_left =
        drop-length (str ++ drop (0 + length str) ns) (length str + length {A = ℕ} (0 ∷ [])) (
          omega (
            arith,
            h,
            length-append str (drop (0 + length str) ns),
            length-drop (0 + length str) ns,
          ))

module _ (a : Allocator) (h : IsAllocator a) (address : ℕ → List ℕ)
    (eight : (n : ℕ) → length (address n) ≡ 8) (conv : List ℕ → List ℕ) where
  -- What is done with the text, and with the block for it.
  abbrev placed : Block → Strv → List ℕ → Option (List ℕ) → Outcome Strv
  placed p st str o = elim o [
    | none ↦ undefined
    | some text ↦ store_pointer address p st.items (conv (take (length str) text))
  ]

  abbrev copied : Block → Strv → List ℕ → Option (List ℕ) → Outcome Strv
  copied p st str m = elim m [ none ↦ undefined | some ns ↦ placed p st str (copy_text ns str) ]

  -- A pointer behind the others.
  Written-store :
      (mem : List ℕ) (n : ℕ)
      → (n + 1) * 8 ≤ length mem
      → Written address mem n
      → Written address (blit mem (n * 8) (address n)) (n + 1)
  Written-store mem n room w i j lt small = elim (Bool-cases (ltb i n)) [
    | inl e ↦
        get_or-blit mem (n * 8) (address n) (i * 8 + j) (omega (arith, eight n))
        ∙ ground (arith, w i j (ltb→lt i n e) small)
    | inr e ↦ last (ground arith)
  ]
    where
      last : i ≡ n → get_or (blit mem (n * 8) (address n)) (i * 8 + j) 0 ≡ get_or (address i) j 0
      last q =
          get_or-blit mem (n * 8) (address n) (i * 8 + j) (omega (arith, eight n))
          ∙ ground (arith, eight n, q, ap (λ k. get_or (address k) j 0) q)

  store_pointer-Holds :
      (st : Strv) (text : List ℕ) (p : Block)
      → length p.mem ≡ p.size
      → p.size ≤ 2 ^ 63
      → (length st.items + 2) * 8 ≤ p.size
      → Written address p.mem (length st.items)
      → Fills a (Holds address st (text ∷ [])) (store_pointer address p st.items text)
  unfolding store_pointer
  store_pointer-Holds st text p s b room w =
      subst (λ o. Fills a (Holds address st (text ∷ [])) (stored o))
        (sym (write_at_inside p.mem (length st.items * 8) (address (length st.items)) inside))
        ((same ∙ s, b, omega (arith, s, same, length-append st.items (text ∷ [])), written), refl)
    where
      stored : Option (List ℕ) → Outcome Strv
      stored o = elim o [
        | none ↦ undefined
        | some mem ↦
            ok (record {
              strv = record { mem = mem; size = p.size };
              items = st.items ++ (text ∷ []);
            })
      ]

      inside : length st.items * 8 + length (address (length st.items)) ≤ length p.mem
      inside = omega (arith, s, eight (length st.items))

      same : length (blit p.mem (length st.items * 8) (address (length st.items))) ≡ length p.mem
      same = length-blit p.mem (length st.items * 8) (address (length st.items)) inside

      written :
          Written address
            (blit p.mem (length st.items * 8) (address (length st.items)))
            (length (st.items ++ (text ∷ [])))
      written =
          subst (Written address (blit p.mem (length st.items * 8) (address (length st.items))))
            (sym (length-append st.items (text ∷ [])))
            (Written-store p.mem (length st.items) (omega (arith, s)) w)

  copied-Holds :
      (st : Strv) (str : List ℕ) (p : Block)
      → length str + 1 < 2 ^ 64
      → length p.mem ≡ p.size
      → p.size ≤ 2 ^ 63
      → (length st.items + 2) * 8 ≤ p.size
      → Written address p.mem (length st.items)
      → Fills a
          (Holds address st (conv str ∷ []))
          (copied p st str (a.malloc (add_size (length str) 1)))
  copied-Holds st str p small s b room w = go (a.malloc (add_size (length str) 1)) refl
    where
      go :
          (m : Option (List ℕ))
          → a.malloc (add_size (length str) 1) ≡ m
          → Fills a (Holds address st (conv str ∷ [])) (copied p st str m)
      go none e = (add_size (length str) 1, e)
      go (some ns) e =
          subst (λ o. Fills a (Holds address st (conv str ∷ [])) (placed p st str o))
            (sym (copy_text_fits ns str (omega (arith, h.malloc_length _ ns e))))
            (subst
              (λ t.
                Fills a (Holds address st (conv str ∷ []))
                  (store_pointer address p st.items (conv t)))
              (sym (take_append str (0 ∷ []))) (store_pointer-Holds st (conv str) p s b room w))

  strv_push-Holds :
      (st : Strv) (str : List ℕ)
      → IsStored address st
      → length st.items < 2 ^ 59
      → length str < 2 ^ 59
      → Fills a (Holds address st (conv str ∷ [])) (strv_push a address conv st str)
  unfolding strv_push strv_need
  strv_push-Holds st str (s, b, r, w) small short =
      go (greedy_realloc0 a st.strv (strv_need (length st.items)))
        (greedy_realloc0-zeroes a h st.strv (strv_need (length st.items)) s b (omega arith))
    where
      go :
          (o : Outcome Block)
          → Reallocates a (λ q. Grown st.strv (strv_need (length st.items)) q × Zeroed st.strv q) o
          → Fills a (Holds address st (conv str ∷ [])) (elim o [
            | ok p ↦ copied p st str (a.malloc (add_size (length str) 1))
            | err e ↦ err enomem
            | undefined ↦ undefined
          ])
      go (ok p) (g, z) =
          copied-Holds st str p (omega arith) g.storage g.bounded (omega (arith, g.enough))
            (λ i j lt small'. g.kept (i * 8 + j) (omega (arith, s, r)) ∙ w i j lt small')
      go (err e) (f, old, n, x) = (refl, inr (old, n, x))
      go undefined bad = absurd bad

  -- A token is stored unless it is empty.
  pub push_token-Holds :
      (st : Strv) (token : List ℕ)
      → IsStored address st
      → length st.items < 2 ^ 59
      → length token < 2 ^ 59
      → Fills a
          (Holds address st (map_text conv (nonempty (token ∷ []))))
          (push_token a address conv st token)
  unfolding push_token
  push_token-Holds st [] s small short = (s, sym (append-nil st.items))
  push_token-Holds st (c ∷ token) s small short =
      rw (full, Fills) (strv_push-Holds st (c ∷ token) s small short)
    where
      full : (length (c ∷ token) == 0) ≡ false
      full = ground arith

  -- A token and what the rest of a loop stores behind it.
  pub push_token-then :
      (st : Strv) (token : List ℕ) (ws : List (List ℕ)) (f : Strv → Outcome Strv)
      → IsStored address st
      → length st.items < 2 ^ 59
      → length token < 2 ^ 59
      → ((st' : Strv)
          → IsStored address st'
          → length st'.items ≤ suc (length st.items)
          → Fills a (Holds address st' ws) (f st'))
      → Fills a
          (Holds address st (map_text conv (nonempty (token ∷ [])) ++ ws))
          (elim (push_token a address conv st token) [
            | ok st' ↦ f st'
            | err e ↦ err e
            | undefined ↦ undefined
          ])
  push_token-then st token ws f s small short next =
      go (push_token a address conv st token) (push_token-Holds st token s small short)
    where
      one : (t : List ℕ) → length (map_text conv (nonempty (t ∷ []))) ≤ 1
      one [] = omega arith
      one (c ∷ t) = omega arith

      go :
          (o : Outcome Strv)
          → Fills a (Holds address st (map_text conv (nonempty (token ∷ [])))) o
          → Fills a
              (Holds address st (map_text conv (nonempty (token ∷ [])) ++ ws))
              (elim o [ ok st' ↦ f st' | err e ↦ err e | undefined ↦ undefined ])
      go (ok st') (g, e) = extended (f st') (next st' g count)
        where
          count : length st'.items ≤ suc (length st.items)
          count = omega (
            arith,
            ap length e,
            length-append st.items (map_text conv (nonempty (token ∷ []))),
            one token,
          )

          extended :
              (o : Outcome Strv)
              → Fills a (Holds address st' ws) o
              → Fills a (Holds address st (map_text conv (nonempty (token ∷ [])) ++ ws)) o
          extended (ok x) (i, q) = (
            i,
            q
                ∙ ap (λ t. t ++ ws) e
                ∙ append_assoc st.items (map_text conv (nonempty (token ∷ []))) ws,
          )
          extended (err x) q = q
          extended undefined q = q
      go (err x) q = q
      go undefined q = q

-- The array that a function returns: the strings, and a block with their pointers and a final NULL.
abbrev pub Filled : Allocator → (ℕ → List ℕ) → List (List ℕ) → Outcome Strv → Type 0
Filled a address ws (ok st) =
    (st.items ≡ ws)
    × (length ws < 2 ^ 31)
    × Written address st.strv.mem (length ws)
    × (slice st.strv.mem (length ws * 8) 8 ≡ replicate 8 0)
Filled a address ws (err e) =
    (e ≡ enomem)
    × ((2 ^ 31 ≤ length ws)
        ⊎ ((n : ℕ) × (a.malloc n ≡ none))
        ⊎ ((old : List ℕ) × (n : ℕ) × (a.realloc old n ≡ none)))
Filled a address ws undefined = (n : ℕ) × (a.malloc n ≡ none)

abbrev first_array : List ℕ → Strv
first_array b = record { strv = record { mem = b; size = 8 }; items = [] }

-- The final NULL behind `n` pointers.
Written-end :
    (address : ℕ → List ℕ) (mem : List ℕ) (n : ℕ)
    → (n + 1) * 8 ≤ length mem
    → Written address mem n
    → Written address (blit mem (n * 8) (replicate 8 0)) n
Written-end address mem n room w i j lt small =
    get_or-blit mem (n * 8) (replicate 8 0) (i * 8 + j) (omega arith)
    ∙ ground (arith, w i j lt small)

slice-end :
    (mem : List ℕ) (n : ℕ)
    → (n + 1) * 8 ≤ length mem
    → slice (blit mem (n * 8) (replicate 8 0)) (n * 8) 8 ≡ replicate 8 0
slice-end mem n room =
    ap (λ k. take 8 (drop k (take (n * 8) mem ++ (replicate 8 0 ++ rest))))
      (omega (arith, length-take (n * 8) mem))
    ∙ ap (take 8) (drop_append (take (n * 8) mem) (replicate 8 0 ++ rest))
    ∙ take_append (replicate 8 0) rest
  where
    rest : List ℕ
    rest = drop (n * 8 + length {A = ℕ} (replicate 8 0)) mem

-- Every body that stores `ws` gives an array of `ws`.
pub fill_strv-Filled :
    (a : Allocator) (h : IsAllocator a) (address : ℕ → List ℕ) (fill : Strv → Outcome Strv)
    (ws : List (List ℕ))
    → ((b : List ℕ)
        → a.malloc 8 ≡ some b
        → Fills a
            (Holds address (record { strv = record { mem = b; size = 8 }; items = [] }) ws)
            (fill (record { strv = record { mem = b; size = 8 }; items = [] })))
    → Filled a address ws (fill_strv a address fill)
unfolding fill_strv
fill_strv-Filled a h address fill ws holds = go (a.malloc 8) refl
  where
    ended :
        (st : Strv)
        → IsStored address st
        → st.items ≡ ws
        → length ws < 2 ^ 31
        → (o : Option (List ℕ)) → o ≡ some (blit st.strv.mem (length st.items * 8) (replicate 8 0))
        → Filled a address ws (elim o [
          | none ↦ undefined
          | some mem ↦ ok (record st { strv = record { mem = mem; size = st.strv.size } })
        ])
    ended st (s, b, r, w) e lt o q =
        subst
          (λ o. Filled a address ws (elim o [
            | none ↦ undefined
            | some mem ↦ ok (record st { strv = record { mem = mem; size = st.strv.size } })
          ]))
          (sym q)
          (
            e,
            lt,
            subst (Written address (blit st.strv.mem (length st.items * 8) (replicate 8 0)))
                (ap length e) (Written-end address st.strv.mem (length st.items) r w),
            ap (λ n. slice (blit st.strv.mem (length st.items * 8) (replicate 8 0)) (n * 8) 8)
                  (sym (ap length e))
                ∙ slice-end st.strv.mem (length st.items) r,
          )

    counted :
        (b : List ℕ) (o : Outcome Strv)
        → Fills a (Holds address (first_array b) ws) o
        → Filled a address ws
            (elim o [ ok st ↦ finish_strv st | err e ↦ err e | undefined ↦ undefined ])
    counted b (ok st) (g, e) =
        unfold finish_strv in
        elim (Bool-cases (ltb (length st.items) (2 ^ 31))) [
          | inl t ↦
              rw (t, Filled)
                (ended st g e (omega (arith, ap length e, ltb→lt (length st.items) (2 ^ 31) t)) _ (
                  write_at_inside st.strv.mem (length st.items * 8) (replicate 8 0)
                    (omega (arith, g.2))))
          | inr f ↦ rw (f, Filled) (refl, inl (ground (arith, ap length e)))
        ]
    counted b (err x) (e, inl m) = (e, inr (inl m))
    counted b (err x) (e, inr m) = (e, inr (inr m))
    counted b undefined m = m

    go :
        (m : Option (List ℕ))
        → a.malloc 8 ≡ m
        → Filled a address ws (elim m [
          | none ↦ err enomem
          | some b ↦ elim (fill (first_array b)) [
            | ok st ↦ finish_strv st
            | err e ↦ err e
            | undefined ↦ undefined
          ]
        ])
    go none e = (refl, inr (inl (8, e)))
    go (some b) e = counted b (fill (first_array b)) (holds b e)
