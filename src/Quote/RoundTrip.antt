-- ===== src/Quote/RoundTrip.antt =====
-- Decoding what `shl__qstr_encode` wrote.
use libshl.Base.{
  All, Bool, Bool-cases, List, [], ap, append-nil, ap₂, arith, false, if◌then◌else◌, inl, inr, refl,
  subst, sym, true, ℕ, ◌++◌, ◌==◌, ◌||◌, ◌∙◌, ◌∷◌, ◌≡◌, ◌≢◌, ◌⊎◌,
}
use libshl.Quote.{
  Mode, backslash, decode, decode_from, decode_mode, decode_out, encode, encode_chars, plain_mode,
  quote, single_quote, unescape_char,
}

-- What can be written: no 0, and no single quote unless the whole is quoted.
abbrev pub Writable : Bool → List ℕ → Type 0
Writable need_quote s = All (λ c. (c ≢ 0) × ((need_quote ≡ true) ⊎ (c ≢ single_quote))) s

-- The mode inside the encoded text.
abbrev inside : ℕ → Mode
inside q = record { quoted = q; escaped = false }

pub decode_step :
    (m : Mode) (c : ℕ) (s o : List ℕ) (m' : Mode)
    → decode_out m c ≡ o
    → decode_mode m c ≡ m'
    → decode_from m (c ∷ s) ≡ o ++ decode_from m' s
unfolding decode_from
decode_step m c s o m' e f = ap₂ (λ x y. x ++ decode_from y s) e f

abbrev after_backslash : ℕ → Mode
after_backslash q = record { quoted = q; escaped = true }

backslash_out : (q : ℕ) → decode_out (inside q) backslash ≡ []
unfolding decode_out
backslash_out q = ground arith

backslash_mode : (q : ℕ) → decode_mode (inside q) backslash ≡ after_backslash q
unfolding decode_mode
backslash_mode q = ground arith

escaped_out : (q c : ℕ) → (c ≡ backslash) ⊎ (c ≡ quote) → decode_out (after_backslash q) c ≡ c ∷ []
unfolding decode_out unescape_char
escaped_out q c (inl e) = subst (λ x. decode_out (after_backslash q) x ≡ x ∷ []) (sym e) refl
escaped_out q c (inr e) = subst (λ x. decode_out (after_backslash q) x ≡ x ∷ []) (sym e) refl

escaped_mode : (q c : ℕ) → decode_mode (after_backslash q) c ≡ inside q
unfolding decode_mode
escaped_mode q c = refl

-- One character, in each of the two ways that it is written.
decode_escape :
    (q c : ℕ) (rest : List ℕ)
    → (c ≡ backslash) ⊎ (c ≡ quote)
    → decode_from (inside q) (backslash ∷ c ∷ rest) ≡ c ∷ decode_from (inside q) rest
decode_escape q c rest h =
    decode_step (inside q) backslash (c ∷ rest) [] (after_backslash q) (backslash_out q)
      (backslash_mode q)
    ∙ decode_step (after_backslash q) c rest (c ∷ []) (inside q) (escaped_out q c h)
        (escaped_mode q c)

plain_out :
    (q c : ℕ)
    → c ≢ 0
    → c ≢ backslash
    → c ≢ quote
    → (q ≡ quote) ⊎ (c ≢ single_quote)
    → decode_out (inside q) c ≡ c ∷ []
unfolding decode_out
plain_out q c a b d h = ground arith

plain_mode_kept :
    (q c : ℕ)
    → c ≢ backslash
    → c ≢ quote
    → (q ≡ quote) ⊎ (c ≢ single_quote)
    → decode_mode (inside q) c ≡ inside q
unfolding decode_mode
plain_mode_kept q c b d h = ground arith

decode_plain :
    (q c : ℕ) (rest : List ℕ)
    → c ≢ 0
    → c ≢ backslash
    → c ≢ quote
    → (q ≡ quote) ⊎ (c ≢ single_quote)
    → decode_from (inside q) (c ∷ rest) ≡ c ∷ decode_from (inside q) rest
decode_plain q c rest a b d h =
    decode_step (inside q) c rest (c ∷ []) (inside q) (plain_out q c a b d h)
      (plain_mode_kept q c b d h)

abbrev quote_of : Bool → ℕ
quote_of need_quote = if need_quote then quote else 0

decode_chars :
    (b : Bool) (s tail : List ℕ)
    → Writable b s
    → decode_from (inside (quote_of b)) (encode_chars s ++ tail)
      ≡ s ++ decode_from (inside (quote_of b)) tail
unfolding encode_chars
decode_chars b [] tail h = refl
decode_chars b (c ∷ s) tail ((nz, sq), h) = elim (Bool-cases (c == backslash || c == quote)) [
  | inl e ↦
      rw (e, ◌++◌)
        (decode_escape (quote_of b) c (encode_chars s ++ tail) (ground arith)
          ∙ ap (λ t. c ∷ t) (decode_chars b s tail h))
  | inr e ↦
      rw (e, ◌++◌)
        (decode_plain (quote_of b) c (encode_chars s ++ tail) nz (ground arith) (ground arith)
            (allowed b sq)
          ∙ ap (λ t. c ∷ t) (decode_chars b s tail h))
]
  where
    allowed :
        (x : Bool) → (x ≡ true) ⊎ (c ≢ single_quote) → (quote_of x ≡ quote) ⊎ (c ≢ single_quote)
    allowed true g = inl refl
    allowed false (inl g) = absurd (cc)
    allowed false (inr g) = inr g

-- Decoding gives back every string that `shl__qstr_encode` wrote, if the string has no 0 in it and,
-- where it was written without quotes, no single quote.
pub decode-encode : (b : Bool) (s : List ℕ) → Writable b s → decode (encode b s) ≡ s
unfolding decode encode
decode-encode false s h =
    ap (decode_from plain_mode) (sym (append-nil (encode_chars s)))
    ∙ decode_chars false s [] h
    ∙ ap (λ t. s ++ t) ended
    ∙ append-nil s
  where
    ended : decode_from plain_mode [] ≡ []
    ended = unfold decode_from in refl
decode-encode true s h =
    opened ∙ decode_chars true s (quote ∷ []) h ∙ ap (λ t. s ++ t) closed ∙ append-nil s
  where
    opened :
        decode_from plain_mode ((quote ∷ encode_chars s) ++ (quote ∷ []))
        ≡ decode_from (inside quote) (encode_chars s ++ (quote ∷ []))
    opened = unfold decode_from decode_out decode_mode in refl

    closed : decode_from (inside quote) (quote ∷ []) ≡ []
    closed = unfold decode_from decode_out decode_mode in refl
