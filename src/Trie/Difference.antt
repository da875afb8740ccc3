-- ===== src/Trie/Difference.antt =====
-- The search of an insertion for the first byte that differs.
use mathlib.Core.Path.{subst₂}
use libshl.Base.{
  ==→eq, Bool-cases, List, Option, [], ap, ap₂, arith, bit_xor, inl, inr, length, none, refl, some,
  suc, sym, zero, ℕ, ◌+◌, ◌<◌, ◌==◌, ◌∙◌, ◌∷◌, ◌≡◌, ◌≢◌, ◌≤◌,
}
use libshl.Base.Xor.{bit_xor-zero}
use libshl.Trie.{byte_at, first_difference}
use libshl.Trie.Position.{IsKey}

pub record Difference (ekey key : List ℕ) (i x : ℕ) : Type 0 where
  pub equal_before : (j : ℕ) → j < i → byte_at ekey j ≡ byte_at key j
  pub differs : byte_at ekey i ≢ byte_at key i
  pub is_xor : x ≡ bit_xor (byte_at ekey i) (byte_at key i)

past_end : (key : List ℕ) (i : ℕ) → length key ≤ i → byte_at key i ≡ 0
past_end [] i h = refl
past_end (c ∷ cs) zero h = absurd (omega arith)
past_end (c ∷ cs) (suc i) h = past_end cs i (omega arith)

found_at :
    (i x : ℕ) (ekey key : List ℕ) {j y : ℕ}
    → ◌≡◌ {A = Option (ℕ × ℕ)} (some (i, x)) (some (j, y))
    → Difference ekey key i x
    → Difference ekey key j y
found_at i x ekey key {j} {y} e d = subst₂ (Difference ekey key) i_eq x_eq d
  where
    i_eq : i ≡ j
    i_eq = cc

    x_eq : x ≡ y
    x_eq = cc

below_suc :
    (ekey key : List ℕ) (i : ℕ)
    → ((m : ℕ) → m < i → byte_at ekey m ≡ byte_at key m)
    → byte_at ekey i ≡ byte_at key i
    → (m : ℕ) → m < i + 1
    → byte_at ekey m ≡ byte_at key m
below_suc ekey key i eq e m lt = elim (Bool-cases (m == i)) [
  | inl f ↦ ap (byte_at ekey) (==→eq m i f) ∙ e ∙ ap (byte_at key) (sym (==→eq m i f))
  | inr f ↦ eq m (ground arith)
]

pub first_difference-Difference :
    (n i : ℕ) (ekey key : List ℕ) (j x : ℕ)
    → length key ≤ n + i
    → ((m : ℕ) → m < i → byte_at ekey m ≡ byte_at key m)
    → first_difference n i ekey key ≡ some (j, x)
    → Difference ekey key j x
unfolding first_difference
first_difference-Difference zero i ekey key j x h eq e = elim (Bool-cases (byte_at ekey i == 0)) [
  | inl f ↦ ground arith
  | inr f ↦ found_at i (byte_at ekey i) ekey key (ground arith) (record {
    equal_before = eq;
    differs = λ s. ground (arith, past_end key i (omega arith));
    is_xor =
        sym (bit_xor-zero (byte_at ekey i))
        ∙ ap (bit_xor (byte_at ekey i)) (sym (past_end key i (omega arith)));
  })
]
first_difference-Difference (suc n) i ekey key j x h eq e =
    elim (Bool-cases (byte_at ekey i == byte_at key i)) [
      | inl f ↦
          first_difference-Difference n (i + 1) ekey key j x (omega arith)
            (below_suc ekey key i eq (==→eq (byte_at ekey i) (byte_at key i) f)) (ground arith)
      | inr f ↦
          found_at i (bit_xor (byte_at ekey i) (byte_at key i)) ekey key (ground arith)
            (record { equal_before = eq; differs = λ s. ground arith; is_xor = refl })
    ]

-- The keys as strings, read byte by byte up to the end of both.
pub first_difference-none :
    (n i : ℕ) (ekey key : List ℕ)
    → length key ≤ n + i
    → ((m : ℕ) → m < i → byte_at ekey m ≡ byte_at key m)
    → first_difference n i ekey key ≡ none
    → (m : ℕ) → m ≤ n + i
    → byte_at ekey m ≡ byte_at key m
unfolding first_difference
first_difference-none zero i ekey key h eq e m le = elim (Bool-cases (byte_at ekey i == 0)) [
  | inl f ↦
      below_suc ekey key i eq (==→eq (byte_at ekey i) 0 f ∙ sym (past_end key i (omega arith))) m
        (omega arith)
  | inr f ↦ ground arith
]
first_difference-none (suc n) i ekey key h eq e m le =
    elim (Bool-cases (byte_at ekey i == byte_at key i)) [
      | inl f ↦
          first_difference-none n (i + 1) ekey key (omega arith)
            (below_suc ekey key i eq (==→eq (byte_at ekey i) (byte_at key i) f)) (ground arith) m
            (omega arith)
      | inr f ↦ ground arith
    ]

-- Keys with the same bytes up to the end of the second are equal.
keys_equal :
    (a b : List ℕ)
    → IsKey a
    → IsKey b
    → ((m : ℕ) → m ≤ length b → byte_at a m ≡ byte_at b m)
    → a ≡ b
keys_equal [] [] ha hb h = refl
keys_equal [] (y ∷ ys) ha (hy, _) h = absurd (omega (arith, h 0 (omega arith)))
keys_equal (x ∷ xs) [] (hx, _) hb h = absurd (omega (arith, h 0 (omega arith)))
keys_equal (x ∷ xs) (y ∷ ys) (hx, hxs) (hy, hys) h =
    ap₂ ◌∷◌ (h 0 (omega arith)) (keys_equal xs ys hxs hys (λ m le. h (suc m) (omega arith)))

pub first_difference_same :
    (ekey key : List ℕ)
    → IsKey ekey
    → IsKey key
    → first_difference (length key) 0 ekey key ≡ none
    → ekey ≡ key
first_difference_same ekey key he hk e = keys_equal ekey key he hk (λ m le.
    first_difference-none (length key) 0 ekey key (omega arith) (λ j lt. absurd (omega arith)) e m
      (omega arith))
