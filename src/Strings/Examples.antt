-- ===== src/Strings/Examples.antt =====
-- The theorems of Strings at concrete values.
use libshl.Base.{List, [], arith, length, min, ℕ, ◌-◌, ◌∷◌, ◌≡◌}
use libshl.Base.Memory.{generous, generous-IsAllocator}
use libshl.Strings.{Ratelimit, ratelimit_define, strjoin}
use libshl.Strings.Join.{IsText, concat_text, strjoin-concat}
use libshl.Strings.Limit.{passed, ratelimit_define-passed, ratelimit_test-passed}

-- Three passes of four, of which one is used.
abbrev limited : Ratelimit
limited = record { interval = 10; begin = 100; burst = 4; num = 1 }

ratelimit_test-passed_example :
    passed limited (101 ∷ 102 ∷ 103 ∷ 104 ∷ [])
    ≡ min (4 - 1) (length {A = ℕ} (101 ∷ 102 ∷ 103 ∷ 104 ∷ []))
ratelimit_test-passed_example =
    ratelimit_test-passed limited (101 ∷ 102 ∷ 103 ∷ 104 ∷ []) (omega arith) (omega arith)
      (omega arith) (omega arith) (omega arith) (omega arith)
      (omega arith, (omega arith, (omega arith, (omega arith, tt))))

ratelimit_define-passed_example :
    passed (ratelimit_define 10 1) (5 ∷ 6 ∷ 7 ∷ []) ≡ length {A = ℕ} (5 ∷ 6 ∷ 7 ∷ [])
ratelimit_define-passed_example = ratelimit_define-passed 10 1 (5 ∷ 6 ∷ 7 ∷ [])

abbrev two_texts : List (List ℕ)
two_texts = (b'a' ∷ b'b' ∷ []) ∷ (b'c' ∷ []) ∷ []

strjoin-concat_example : IsText generous (concat_text two_texts) (strjoin generous two_texts)
strjoin-concat_example = strjoin-concat generous two_texts generous-IsAllocator (omega arith)
