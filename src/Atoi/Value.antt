-- ===== src/Atoi/Value.antt =====
-- What a numeral stands for: its leading digits, and their value.
use libshl.Atoi.{ctoi}
use libshl.Base.{List, [], arith, ℕ, ◌*◌, ◌+◌, ◌<◌, ◌∷◌, ◌≡◌, ◌≤◌}
use libshl.Base.Memory.{err, ok, undefined}

-- The digits at the front of a string.
abbrev pub digits_of : ℕ → List ℕ → List ℕ
digits_of base [] = []
digits_of base (ch ∷ str) = elim (ctoi ch base) [
  | ok c ↦ c ∷ digits_of base str
  | err e ↦ []
  | undefined ↦ []
]

-- The number that digits stand for, read behind the number `v`.
abbrev pub value : ℕ → ℕ → List ℕ → ℕ
value base v [] = v
value base v (c ∷ cs) = value base (v * base + c) cs

-- A digit is below its base.
pub ctoi-lt : (ch base c : ℕ) → ctoi ch base ≡ ok c → c < base
unfolding ctoi
ctoi-lt ch base c e = ground arith

pub value-ge : (base v : ℕ) (cs : List ℕ) → 0 < base → v ≤ value base v cs
value-ge base v [] h = omega arith
value-ge base v (c ∷ cs) h = omega (arith, value-ge base (v * base + c) cs h, grows base v h)
  where
    grows : (b w : ℕ) → 0 < b → w ≤ w * b
    grows b w p = grind arith
