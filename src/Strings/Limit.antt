-- ===== src/Strings/Limit.antt =====
-- What `shl_ratelimit_test` lets pass.
use libshl.Base.{
  All, Bool, Bool-cases, List, [], ap, arith, false, if◌then◌else◌, inl, inr, length, ltb, min,
  refl, suc, true, ℕ, ◌%◌, ◌+◌, ◌-◌, ◌<◌, ◌^◌, ◌∙◌, ◌∷◌, ◌≡◌, ◌≤◌,
}
use libshl.Strings.{Ratelimit, ratelimit_define, ratelimit_test}

-- The number of calls that pass, at the given times.
abbrev pub passed : Ratelimit → List ℕ → ℕ
passed r [] = 0
passed r (ts ∷ times) =
    let rest = passed (ratelimit_test r ts).1 times in
    if (ratelimit_test r ts).0 then suc rest else rest

passed-cons :
    (r : Ratelimit) (ts : ℕ) (times : List ℕ) (b : Bool) (r' : Ratelimit)
    → ratelimit_test r ts ≡ (b, r')
    → passed r (ts ∷ times) ≡ (if b then suc (passed r' times) else passed r' times)
passed-cons r ts times b r' e = ap (λ x. if x.0 then suc (passed x.1 times) else passed x.1 times) e

-- Inside an interval that has begun, exactly as many calls pass as the burst still allows, whatever
-- the number of calls. The times lie within the interval, which ends below 2^64.
pub ratelimit_test-passed :
    (r : Ratelimit) (times : List ℕ)
    → 0 < r.interval
    → 0 < r.begin
    → r.begin + r.interval < 2 ^ 64
    → 0 < r.burst
    → r.burst < 2 ^ 32
    → r.num ≤ r.burst
    → All (λ ts. ts ≤ r.begin + r.interval) times
    → passed r times ≡ min (r.burst - r.num) (length times)
ratelimit_test-passed r [] i b s p w n h = omega arith
ratelimit_test-passed r (ts ∷ times) i b s p w n (h, hs) = elim (Bool-cases (ltb r.num r.burst)) [
  | inl e ↦
      passed-cons r ts times true (record r { num = r.num + 1 }) (admitted e)
      ∙ ap suc
          (ratelimit_test-passed (record r { num = r.num + 1 }) times i b s p w (ground arith) hs)
      ∙ ground arith
  | inr e ↦
      passed-cons r ts times false r (refused e)
      ∙ ratelimit_test-passed r times i b s p w n hs
      ∙ ground arith
]
  where
    admitted : ltb r.num r.burst ≡ true → ratelimit_test r ts ≡ (true, record r { num = r.num + 1 })
    admitted e =
        unfold ratelimit_test in
        ground (
          arith,
          i,
          b,
          s,
          p,
          w,
          h,
          ap {B = Bool × Ratelimit} (λ k. (true, record r { num = k })) small,
        )
      where
        small : (r.num + 1) % 2 ^ 32 ≡ r.num + 1
        small = ground arith

    refused : ltb r.num r.burst ≡ false → ratelimit_test r ts ≡ (false, r)
    refused e = unfold ratelimit_test in ground (arith, i, b, s, p, w, h)

-- A limit from `SHL_RATELIMIT_DEFINE` limits nothing: every call passes, whatever the burst.
pub ratelimit_define-passed :
    (interval burst : ℕ) (times : List ℕ)
    → passed (ratelimit_define interval burst) times ≡ length times
ratelimit_define-passed interval burst [] = refl
ratelimit_define-passed interval burst (ts ∷ times) =
    passed-cons (ratelimit_define interval burst) ts times true (ratelimit_define interval burst)
      always
    ∙ ap suc (ratelimit_define-passed interval burst times)
    ∙ ground arith
  where
    always :
        ratelimit_test (ratelimit_define interval burst) ts
        ≡ (true, ratelimit_define interval burst)
    always = unfold ratelimit_test in ground arith
