-- ===== src/Trie/Prefix.antt =====
-- Prefixes of keys, by their characters and by their bits.
use libshl.Base.{
  ==→eq, Bool, Bool-cases, List, [], ap, ap₂, arith, drop, false, if◌then◌else◌, inl, inr, length,
  refl, suc, sym, true, zero, ℕ, ◌&&◌, ◌*◌, ◌++◌, ◌+◌, ◌<◌, ◌==◌, ◌∙◌, ◌∷◌, ◌≡◌, ◌≢◌, ◌≤◌,
}
use libshl.Trie.{Entry, byte_at}
use libshl.Trie.Mask.{bit}
use libshl.Trie.Position.{
  Agree, IsKey, bit_at, bit_at-position, byte_at-lt, position, top_difference,
}
use libshl.Trie.Visit.{prefix_matches}

-- The specification: a string starts with another.
abbrev pub starts_with : List ℕ → List ℕ → Bool
starts_with [] key = true
starts_with (c ∷ prefix) [] = false
starts_with (c ∷ prefix) (x ∷ key) = c == x && starts_with prefix key

-- The addresses of the entries with the prefix, in their order.
abbrev pub with_prefix : List ℕ → List Entry → List ℕ
with_prefix prefix [] = []
with_prefix prefix (e ∷ es) =
    if starts_with prefix e.key then e.addr ∷ with_prefix prefix es else with_prefix prefix es

pub with_prefix-append :
    (prefix : List ℕ) (xs ys : List Entry)
    → with_prefix prefix (xs ++ ys) ≡ with_prefix prefix xs ++ with_prefix prefix ys
with_prefix-append prefix [] ys = refl
with_prefix-append prefix (x ∷ xs) ys = ground (arith, with_prefix-append prefix xs ys)

byte_at-drop : (i : ℕ) (key : List ℕ) → byte_at key i ≡ byte_at (drop i key) 0
byte_at-drop zero key = refl
byte_at-drop (suc i) [] = refl
byte_at-drop (suc i) (x ∷ key) = byte_at-drop i key

drop-suc : (i : ℕ) (key : List ℕ) → drop (suc i) key ≡ drop 1 (drop i key)
drop-suc zero key = refl
drop-suc (suc i) [] = refl
drop-suc (suc i) (x ∷ key) = drop-suc i key

starts_with-cons :
    (c : ℕ) (prefix rest : List ℕ)
    → 0 < c
    → starts_with (c ∷ prefix) rest
      ≡ (if c == byte_at rest 0 then starts_with prefix (drop 1 rest) else false)
starts_with-cons c prefix [] pos = ground arith
starts_with-cons c prefix (x ∷ rest) pos = ground arith

-- The loop of the code compares from an index on.
pub prefix_matches-starts_with :
    (prefix : List ℕ) (i : ℕ) (key : List ℕ)
    → IsKey prefix
    → prefix_matches prefix i key ≡ starts_with prefix (drop i key)
unfolding prefix_matches
prefix_matches-starts_with [] i key h = refl
prefix_matches-starts_with (c ∷ prefix) i key ((pos, small), h) =
    ap₂ (λ x b. if c == x then b else false) (byte_at-drop i key)
      (prefix_matches-starts_with prefix (i + 1) key h ∙ ap (starts_with prefix) rest)
    ∙ sym (starts_with-cons c prefix (drop i key) pos)
  where
    rest : drop (i + 1) key ≡ drop 1 (drop i key)
    rest = ap (λ n. drop n key) {y = suc i} (omega arith) ∙ drop-suc i key

-- Two keys with equal bytes at the indexes of a prefix start with it together.
pub starts_with_same :
    (prefix a b : List ℕ)
    → IsKey prefix
    → IsKey a
    → IsKey b
    → ((i : ℕ) → i < length prefix → byte_at a i ≡ byte_at b i)
    → starts_with prefix a ≡ starts_with prefix b
starts_with_same [] a b h ha hb e = refl
starts_with_same (c ∷ prefix) [] [] h ha hb e = refl
starts_with_same (c ∷ prefix) [] (y ∷ b) h ha ((py, ly), hb) e =
    absurd (omega (arith, e 0 (omega arith)))
starts_with_same (c ∷ prefix) (x ∷ a) [] h ((px, lx), ha) hb e =
    absurd (omega (arith, e 0 (omega arith)))
starts_with_same (c ∷ prefix) (x ∷ a) (y ∷ b) (hc, h) (hx, ha) (hy, hb) e =
    ap₂ (λ t u. (c == t) && u) (e 0 (omega arith))
      (starts_with_same prefix a b h ha hb (λ i lt. e (suc i) (omega arith)))

-- A key with the prefix has its bytes.
pub byte_at-starts_with :
    (prefix key : List ℕ) (i : ℕ)
    → starts_with prefix key ≡ true
    → i < length prefix
    → byte_at key i ≡ byte_at prefix i
byte_at-starts_with [] key i s lt = absurd (omega arith)
byte_at-starts_with (c ∷ prefix) [] i s lt = cc
byte_at-starts_with (c ∷ prefix) (x ∷ key) zero s lt = ground arith
byte_at-starts_with (c ∷ prefix) (x ∷ key) (suc i) s lt =
    byte_at-starts_with prefix key i (ground arith) (omega arith)

-- A key that differs from the prefix in a bit of it does not have it.
pub starts_with-false :
    (prefix key : List ℕ) (byte k : ℕ)
    → k < 8
    → byte < length prefix
    → bit_at key (position byte k) ≢ bit_at prefix (position byte k)
    → starts_with prefix key ≡ false
starts_with-false prefix key byte k h lt ne = elim (Bool-cases (starts_with prefix key)) [
  | inl e ↦ absurd (
      ne (
        bit_at-position key byte k h
        ∙ ap (bit k) (byte_at-starts_with prefix key byte e lt)
        ∙ sym (bit_at-position prefix byte k h)))
  | inr e ↦ e
]

-- Keys that agree before a position agree in the bytes before it.
pub Agree-byte_at :
    (p : ℕ) (a b : List ℕ) (i : ℕ)
    → IsKey a
    → IsKey b
    → Agree p a b
    → i * 8 + 8 ≤ p
    → byte_at a i ≡ byte_at b i
Agree-byte_at p a b i ha hb g le = elim (Bool-cases (byte_at a i == byte_at b i)) [
  | inl e ↦ ==→eq (byte_at a i) (byte_at b i) e
  | inr e ↦
      let (k, lt, o, hi, ne) =
        top_difference (byte_at a i) (byte_at b i) (byte_at-lt a i ha) (byte_at-lt b i hb)
          (ground arith) in
      absurd (
        ne (
          sym (bit_at-position a i k lt)
          ∙ g (position i k) (omega arith)
          ∙ bit_at-position b i k lt))
]
