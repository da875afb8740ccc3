-- ===== src/Strings/Join.antt =====
-- What `shl_strcat` and `shl_strjoin` write.
use libshl.Base.{
  List, Option, [], ap, append-nil, append_assoc, ap₂, arith, drop, drop-length, false, leb, length,
  length-append, length-drop, none, refl, some, subst, suc, sym, take_append, ℕ, ◌++◌, ◌+◌, ◌<◌,
  ◌^◌, ◌∙◌, ◌∷◌, ◌≡◌, ◌≤◌,
}
use libshl.Base.Memory.{
  Allocator, IsAllocator, Outcome, blit, err, ok, undefined, write_at, write_at_inside,
}
use libshl.Base.Word.{add_size}
use libshl.Strings.{join_copy, join_length, put_both, put_string, strcat, strjoin, text_of}

abbrev pub concat_text : List (List ℕ) → List ℕ
concat_text [] = []
concat_text (s ∷ ss) = s ++ concat_text ss

drop_sum : (xs ys : List ℕ) (n : ℕ) → drop (length xs + n) (xs ++ ys) ≡ drop n ys
drop_sum [] ys n = ap (λ k. drop k ys) (omega arith)
drop_sum (x ∷ xs) ys n = ap (λ k. drop k (x ∷ (xs ++ ys))) sum ∙ drop_sum xs ys n
  where
    sum : length (x ∷ xs) + n ≡ suc (length xs + n)
    sum = omega arith

-- A copy behind `front`.
blit-append :
    (front rest s : List ℕ)
    → blit (front ++ rest) (length front) s ≡ front ++ (s ++ drop (length s) rest)
blit-append front rest s =
    ap₂ (λ x y. x ++ (s ++ y)) (take_append front rest) (drop_sum front rest (length s))

-- A checked copy behind `front` that fits.
write_at-append :
    (front rest s : List ℕ)
    → length s ≤ length rest
    → write_at (front ++ rest) (length front) s ≡ some (front ++ (s ++ drop (length s) rest))
write_at-append front rest s h =
    write_at_inside (front ++ rest) (length front) s (omega (arith, length-append front rest))
    ∙ ap some (blit-append front rest s)

-- What follows a copy.
abbrev ended : Option (List ℕ) → Outcome (Option (List ℕ))
ended o = elim o [ none ↦ undefined | some str ↦ ok (some str) ]

join_copy-concat :
    (args : List (List ℕ)) (front rest : List ℕ)
    → length rest ≡ length (concat_text args) + 1
    → join_copy (front ++ rest) (length front) args
      ≡ ok (some (front ++ (concat_text args ++ (0 ∷ []))))
unfolding join_copy
join_copy-concat [] front rest h =
    ap ended (write_at-append front rest (0 ∷ []) (omega (arith, h)))
    ∙ ap (λ t. ok (some (front ++ (0 ∷ t))))
        (drop-length rest (length {A = ℕ} (0 ∷ [])) (omega arith))
join_copy-concat (arg ∷ args) front rest h =
    ap onward (
      write_at-append front rest (arg ++ (0 ∷ []))
        (omega (arith, h, length-append arg (0 ∷ []), length-append arg (concat_text args)))
      ∙ ap some regroup)
    ∙ ap
        (λ n.
          join_copy ((front ++ arg) ++ ((0 ∷ []) ++ drop (length (arg ++ (0 ∷ []))) rest)) n args)
        (sym (length-append front arg))
    ∙ join_copy-concat args (front ++ arg) ((0 ∷ []) ++ drop (length (arg ++ (0 ∷ []))) rest) left
    ∙ ap (λ t. ok (some t))
        (append_assoc front arg _
          ∙ ap (λ t. front ++ t) (sym (append_assoc arg (concat_text args) (0 ∷ []))))
  where
    onward : Option (List ℕ) → Outcome (Option (List ℕ))
    onward o = elim o [
      | none ↦ undefined
      | some str ↦ join_copy str (length front + length arg) args
    ]

    regroup :
        front ++ ((arg ++ (0 ∷ [])) ++ drop (length (arg ++ (0 ∷ []))) rest)
        ≡ (front ++ arg) ++ ((0 ∷ []) ++ drop (length (arg ++ (0 ∷ []))) rest)
    regroup =
        ap (λ t. front ++ t) (append_assoc arg (0 ∷ []) (drop (length (arg ++ (0 ∷ []))) rest))
        ∙ sym (append_assoc front arg _)

    left : length ((0 ∷ []) ++ drop (length (arg ++ (0 ∷ []))) rest) ≡ length (concat_text args) + 1
    left = omega (
      arith,
      length-drop (length (arg ++ (0 ∷ []))) rest,
      length-append arg (0 ∷ []),
      length-append arg (concat_text args),
    )

join_length-concat :
    (args : List (List ℕ)) (len : ℕ)
    → len + length (concat_text args) < 2 ^ 64
    → join_length len args ≡ some (len + length (concat_text args))
unfolding join_length
join_length-concat [] len h = ap some (omega arith)
join_length-concat (arg ∷ args) len h =
    ground (arith, join_length-concat args (len + length arg), length-append arg (concat_text args))

-- A block with the text and a final 0, or NULL because `malloc` failed.
abbrev pub IsText : Allocator → List ℕ → Outcome (Option (List ℕ)) → Type 0
IsText a text (ok (some str)) = str ≡ text ++ (0 ∷ [])
IsText a text (ok none) = (n : ℕ) × (a.malloc n ≡ none)
IsText a text (err e) = ⊥
IsText a text undefined = ⊥

-- `shl_strjoin` returns a block with its arguments one behind the other and a final 0, or NULL
-- because `malloc` failed, and writes nothing past the end of the block; the lengths and the 0 fit a
-- `size_t`.
pub strjoin-concat :
    (a : Allocator) (args : List (List ℕ))
    → IsAllocator a
    → length (concat_text args) + 1 < 2 ^ 64
    → IsText a (concat_text args) (strjoin a args)
unfolding strjoin
strjoin-concat a args h small =
    subst (λ o. IsText a (concat_text args) (joined o))
      (sym (join_length-concat args 0 (omega arith)))
      (go (a.malloc (add_size (0 + length (concat_text args)) 1)) refl)
  where
    joined : Option ℕ → Outcome (Option (List ℕ))
    joined o = elim o [
      | none ↦ ok none
      | some len ↦ elim (a.malloc (add_size len 1)) [
        | none ↦ ok none
        | some str ↦ join_copy str 0 args
      ]
    ]

    go :
        (m : Option (List ℕ))
        → a.malloc (add_size (0 + length (concat_text args)) 1) ≡ m
        → IsText a (concat_text args) (elim m [ none ↦ ok none | some str ↦ join_copy str 0 args ])
    go none e = (add_size (0 + length (concat_text args)) 1, e)
    go (some str) e =
        subst (IsText a (concat_text args))
          (sym (join_copy-concat args [] str (omega (arith, h.malloc_length _ str e)))) refl

-- The block behind both copies.
put_both-append :
    (str first second : List ℕ)
    → length str ≡ length first + length second + 1
    → put_both str first second ≡ ok (some ((first ++ second) ++ (0 ∷ [])))
unfolding put_both
put_both-append str first second e =
    ap then_second (
      write_at-append [] str (first ++ (0 ∷ [])) (omega (arith, e, length-append first (0 ∷ [])))
      ∙ ap some (append_assoc first (0 ∷ []) (drop (length (first ++ (0 ∷ []))) str)))
    ∙ ap ended (
        write_at-append first ((0 ∷ []) ++ drop (length (first ++ (0 ∷ []))) str)
          (second ++ (0 ∷ [])) (omega (arith, left, length-append second (0 ∷ []))))
    ∙ ap (λ t. ok (some (first ++ ((second ++ (0 ∷ [])) ++ t)))) nothing_left
    ∙ ap (λ t. ok (some t))
        (ap (λ t. first ++ t) (append-nil (second ++ (0 ∷ [])))
          ∙ sym (append_assoc first second (0 ∷ [])))
  where
    then_second : Option (List ℕ) → Outcome (Option (List ℕ))
    then_second o = elim o [
      | none ↦ undefined
      | some str' ↦ elim (put_string str' (length first) second) [
        | none ↦ undefined
        | some str'' ↦ ok (some str'')
      ]
    ]

    left : length ((0 ∷ []) ++ drop (length (first ++ (0 ∷ []))) str) ≡ length second + 1
    left =
        omega (arith, e, length-drop (length (first ++ (0 ∷ []))) str, length-append first (0 ∷ []))

    nothing_left :
        drop (length (second ++ (0 ∷ []))) ((0 ∷ []) ++ drop (length (first ++ (0 ∷ []))) str) ≡ []
    nothing_left =
        drop-length ((0 ∷ []) ++ drop (length (first ++ (0 ∷ []))) str)
          (length (second ++ (0 ∷ []))) (omega (arith, left, length-append second (0 ∷ [])))

-- `shl_strcat` returns a block with both texts, NULL standing for an empty one, and a final 0, or
-- NULL because `malloc` failed; the lengths and the 0 fit a `size_t`.
pub strcat-append :
    (a : Allocator) (first second : Option (List ℕ))
    → IsAllocator a
    → length (text_of first) + length (text_of second) + 1 < 2 ^ 64
    → IsText a (text_of first ++ text_of second) (strcat a first second)
unfolding strcat
strcat-append a first second h small = rw (fits, IsText) (go (a.malloc need) refl)
  where
    need : ℕ
    need = add_size (add_size (length (text_of first)) (length (text_of second))) 1

    fits :
        leb
          (add_size (add_size (length (text_of first)) (length (text_of second))) 1)
          (length (text_of first))
        ≡ false
    fits = ground arith

    go :
        (m : Option (List ℕ))
        → a.malloc (add_size (add_size (length (text_of first)) (length (text_of second))) 1) ≡ m
        → IsText a
            (text_of first ++ text_of second)
            (elim m [ none ↦ ok none | some str ↦ put_both str (text_of first) (text_of second) ])
    go none e = (_, e)
    go (some str) e =
        subst (IsText a (text_of first ++ text_of second))
          (sym (
            put_both-append str (text_of first) (text_of second)
              (omega (arith, h.malloc_length _ str e))))
          refl
