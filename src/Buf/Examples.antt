-- ===== src/Buf/Examples.antt =====
-- The theorems of Buf at a concrete buffer.
use libshl.Buf.Bytes.{IsValid}
use libshl.Base.{[], arith, refl, ◌++◌, ◌∷◌, ◌≡◌}
use libshl.Base.Memory.{generous, generous-IsAllocator}
use libshl.Buf.{Buf, buf_push}
use libshl.Buf.Bytes.{buf_push-appends, bytes}
use libshl.Greedy.Grow.{Reallocates}

abbrev three : Buf
three = record { buf = 1 ∷ 2 ∷ 3 ∷ 0 ∷ []; size = 4; used = 3 }

three-IsValid : IsValid three
three-IsValid = record { storage = refl; bounded = omega arith; used_in = omega arith }

buf_push-appends_example :
    Reallocates generous
      (λ b'. IsValid b' × (bytes b' ≡ bytes three ++ (4 ∷ 5 ∷ [])))
      (buf_push generous three (4 ∷ 5 ∷ []))
buf_push-appends_example =
    buf_push-appends generous {b = three} (4 ∷ 5 ∷ []) generous-IsAllocator three-IsValid
      (omega arith)
