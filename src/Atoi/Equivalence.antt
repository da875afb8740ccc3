-- ===== src/Atoi/Equivalence.antt =====
-- The loop with its two widths against one with a single 64-bit number.
use libshl.Atoi.{
  Acc, Parsed, atoi_loop, atoi_result, atoi_step, atoi_ulln, ctoi, huge_step, start_acc,
}
use libshl.Atoi.Value.{ctoi-lt, digits_of}
use libshl.Base.{
  List, Option, [], arith, false, if◌then◌else◌, inl, inr, leb, length, none, refl, some, subst,
  sym, true, ℕ, ◌*◌, ◌+◌, ◌<◌, ◌^◌, ◌∷◌, ◌≡◌, ◌≤◌, ◌⊎◌,
}
use libshl.Base.Memory.{Outcome, erange, err, ok, undefined}
use libshl.Base.Word.{size_max}
use libshl.Macro.Mult.{mult_exact}

-- One digit more. Behind a product that does not fit all is lost (`none`, -ERANGE); a sum that does
-- not fit drops the digit.
abbrev pub plain_step : ℕ → ℕ → Option ℕ → Option ℕ
plain_step base c none = none
plain_step base c (some v) =
    if leb (v * base) size_max
    then if leb (v * base + c) size_max then some (v * base + c) else some (v * base)
    else none

abbrev pub plain : ℕ → List ℕ → Option ℕ → Option ℕ
plain base [] o = o
plain base (c ∷ cs) o = plain base cs (plain_step base c o)

-- The variables of the loop stand for the number.
abbrev pub Stands : Acc → Option ℕ → Type 0
Stands s none = s.failed ≡ true
Stands s (some v) =
    (s.failed ≡ false)
    × (v < 2 ^ 64)
    × (((s.huge ≡ true) × (s.val2 ≡ v)) ⊎ ((s.huge ≡ false) × (s.val1 ≡ v) × (v < 2 ^ 32)))

huge_step-Stands :
    (base c v : ℕ) (s : Acc)
    → base ≤ 36
    → c < base
    → s.huge ≡ true
    → s.val2 ≡ v
    → v < 2 ^ 64
    → Stands (huge_step base c s) (plain_step base c (some v))
unfolding huge_step
huge_step-Stands base c v s b d h e lt =
    subst (λ w. Stands (huge_step base c s) (plain_step base c (some w))) e
      (ground (arith, (mult_exact s.val2 base).0))

-- Within 32 bits: a sum that fits stays there, anything else goes on in 64 bits from the old value.
small_step-Stands :
    (base c : ℕ) (s : Acc)
    → base ≤ 36
    → c < base
    → s.failed ≡ false
    → s.huge ≡ false
    → s.val1 < 2 ^ 32
    → Stands (atoi_step base c s) (plain_step base c (some s.val1))
unfolding atoi_step
small_step-Stands base c s b d f h small = ground (
  arith,
  (mult_exact s.val1 base).3 small (omega arith),
  huge_step-Stands base c s.val1 (record s { huge = true; val1 = s.val1 * base; val2 = s.val1 }) b d
      refl refl (omega arith),
  huge_step-Stands base c s.val1 (record s { huge = true; val2 = s.val1 }) b d refl refl
      (omega arith),
)

atoi_step-Stands :
    (base c : ℕ) (s : Acc) (o : Option ℕ)
    → base ≤ 36
    → c < base
    → Stands s o
    → Stands (atoi_step base c s) (plain_step base c o)
atoi_step-Stands base c s none b d h = unfold atoi_step in ground arith
atoi_step-Stands base c s (some v) b d (f, lt, inl (h, e)) =
    subst (λ t. Stands t (plain_step base c (some v))) (sym (to_huge f h))
      (huge_step-Stands base c v s b d h e lt)
  where
    to_huge : s.failed ≡ false → s.huge ≡ true → atoi_step base c s ≡ huge_step base c s
    to_huge p q = unfold atoi_step in simp (p, q)
atoi_step-Stands base c s (some v) b d (f, lt, inr (h, e, small)) =
    subst (λ w. Stands (atoi_step base c s) (plain_step base c (some w))) e
      (small_step-Stands base c s b d f h (omega arith))

-- What the loop ends with, against the digits that it read.
abbrev pub Ends : ℕ → List ℕ → ℕ → Option ℕ → Acc × ℕ → Type 0
Ends base cs pos o (s, n) = Stands s (plain base cs o) × (n ≡ pos + length cs)

-- At the end of the loop the variables stand for the number that the digits give.
pub atoi_loop-Ends :
    (base : ℕ) (str : List ℕ) (pos : ℕ) (s : Acc) (o : Option ℕ)
    → base ≤ 36
    → Stands s o
    → Ends base (digits_of base str) pos o (atoi_loop base str pos s)
unfolding atoi_loop
atoi_loop-Ends base [] pos s o b h = (h, omega arith)
atoi_loop-Ends base (ch ∷ str) pos s o b h = go (ctoi ch base) refl (λ c lt.
    atoi_loop-Ends base str (pos + 1) (atoi_step base c s) (plain_step base c o) b
      (atoi_step-Stands base c s o b lt h))
  where
    go :
        (x : Outcome ℕ)
        → ctoi ch base ≡ x
        → ((c : ℕ)
            → c < base
            → Ends base
                (digits_of base str)
                (pos + 1)
                (plain_step base c o)
                (atoi_loop base str (pos + 1) (atoi_step base c s)))
        → Ends base
            (elim x [ ok c ↦ c ∷ digits_of base str | err e ↦ [] | undefined ↦ [] ])
            pos
            o
            (elim x [
              | ok c ↦ atoi_loop base str (pos + 1) (atoi_step base c s)
              | err e ↦ (s, pos)
              | undefined ↦ (s, pos)
            ])
    go (ok c) e ih = let (st, n) = ih c (ctoi-lt ch base c e) in (st, omega arith)
    go (err x) e ih = (h, omega arith)
    go undefined e ih = (h, omega arith)

-- The result that the C code writes for a number that was kept exactly.
abbrev pub reported : ℕ → Option ℕ → Parsed
reported next none = record { status = some erange; next = next; out = size_max }
reported next (some v) = record { status = none; next = next; out = v }

atoi_result-reported :
    (base skipped : ℕ) (cs : List ℕ) (r : Acc × ℕ)
    → Ends base cs 0 (some 0) r
    → atoi_result skipped r ≡ reported (skipped + length cs) (plain base cs (some 0))
unfolding atoi_result
atoi_result-reported base skipped cs (s, n) (h, e) = go (plain base cs (some 0)) h
  where
    go : (o : Option ℕ) → Stands s o → atoi_result skipped (s, n) ≡ reported (skipped + length cs) o
    go none f = ground arith
    go (some v) (f, lt, inl (g, w)) = ground arith
    go (some v) (f, lt, inr (g, w, small)) = ground arith

-- For every base up to 36 but 0, the code with its 32-bit and 64-bit phases returns what a loop with
-- one 64-bit number gives, and `*next` points behind the digits. That loop multiplies by the base and
-- reports an overflow where the product does not fit; where the product fits and adding the digit
-- would wrap round, it drops the digit and reports nothing, against the comment in the code that
-- overflows are always reported.
pub atoi_ulln-plain :
    (str : List ℕ) (base : ℕ)
    → 0 < base
    → base ≤ 36
    → atoi_ulln str base
      ≡ reported (length (digits_of base str)) (plain base (digits_of base str) (some 0))
unfolding atoi_ulln
atoi_ulln-plain str base pos b = ground (
  arith,
  atoi_result-reported base 0 (digits_of base str) (atoi_loop base str 0 start_acc),
  atoi_loop-Ends base str 0 start_acc (some 0) b (refl, omega arith, inr (refl, refl, omega arith)),
)
