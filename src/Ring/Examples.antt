-- ===== src/Ring/Examples.antt =====
-- The theorems of Ring at concrete rings.
use libshl.Ring.Contents.{contents, gather}
use libshl.Ring.Valid.{IsValid}
use libshl.Base.{List, [], arith, inl, inr, length, refl, some, ◌∷◌, ◌≡◌, ◌≤◌}
use libshl.Base.Memory.{IsAllocator, exhausted, generous, generous-IsAllocator}
use libshl.Ring.{Ring, ring_peek}
use libshl.Ring.Contents.{ring_peek_lem}
use libshl.Ring.Fifo.{Op, Reply, Run, copy, get_size, pull, push, ring_run, ring_run-Run}

-- A ring of four bytes that holds three and has wrapped round.
abbrev wrapped : Ring
wrapped = record { buf = 30 ∷ 0 ∷ 10 ∷ 20 ∷ []; size = 4; start = 2; used = 3 }

wrapped-IsValid : IsValid wrapped
wrapped-IsValid = record {
  storage = refl;
  power = inr (2, refl, omega arith);
  bounded = omega arith;
  start_in = inl (omega arith);
  used_in = omega arith;
}

abbrev calls : List Op
calls = push generous (1 ∷ 2 ∷ 3 ∷ []) ∷ pull 2 ∷ push exhausted (4 ∷ []) ∷ copy 9 ∷ get_size ∷ []

exhausted-IsAllocator : IsAllocator exhausted
exhausted-IsAllocator = record {
  malloc_length = λ n b e. cc;
  realloc_length = λ old n b e. cc;
  realloc_keeps = λ old n b i e lt. cc;
}

ring_run-Run_example :
    (xs : List Reply) × (r' : Ring) × (ring_run wrapped calls ≡ some (xs, r'))
    × IsValid r'
    × Run (contents wrapped) calls xs (contents r')
ring_run-Run_example =
    ring_run-Run {r = wrapped} calls wrapped-IsValid
      (generous-IsAllocator, (exhausted-IsAllocator, tt)) (omega arith)

ring_peek_lem_example :
    (gather wrapped.buf (ring_peek wrapped) ≡ contents wrapped) × (length (ring_peek wrapped) ≤ 2)
ring_peek_lem_example = ring_peek_lem {r = wrapped} wrapped-IsValid
