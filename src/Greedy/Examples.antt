-- ===== src/Greedy/Examples.antt =====
-- The theorems of Greedy at concrete blocks.
use libshl.Greedy.Grow.{Grown}
use libshl.Base.{[], arith, length, refl, ◌*◌, ◌+◌, ◌<◌, ◌^◌, ◌∷◌, ◌≤◌}
use libshl.Base.Memory.{generous, generous-IsAllocator}
use libshl.Greedy.{Block, greedy_realloc, greedy_realloc_t}
use libshl.Greedy.Array.{GrownArray, greedy_realloc_t-GrownArray, greedy_realloc_t_too_small}
use libshl.Greedy.Grow.{Reallocates, greedy_realloc-Grown}
use libshl.Macro.{shl_max}

abbrev two_bytes : Block
two_bytes = record { mem = 5 ∷ 6 ∷ []; size = 2 }

greedy_realloc-Grown_example :
    Reallocates generous (Grown two_bytes 100) (greedy_realloc generous two_bytes 100)
greedy_realloc-Grown_example =
    greedy_realloc-Grown generous generous-IsAllocator two_bytes 100 refl (omega arith)
      (omega arith)

-- One element of two bytes.
abbrev one_pair : Block
one_pair = record { mem = 5 ∷ 6 ∷ []; size = 1 }

pairs_fit : 2 * shl_max 64 100 * 2 ≤ 2 ^ 64
unfolding shl_max
pairs_fit = omega arith

greedy_realloc_t-GrownArray_example :
    Reallocates generous (GrownArray one_pair 100 2) (greedy_realloc_t generous one_pair 100 2)
greedy_realloc_t-GrownArray_example =
    greedy_realloc_t-GrownArray generous generous-IsAllocator one_pair 100 2 (omega arith)
      (omega arith) refl pairs_fit

-- No elements of 2^58 + 1 bytes; 64 of them are 2^64 + 64 bytes, and 64 bytes are given.
abbrev no_elements : Block
no_elements = record { mem = []; size = 0 }

greedy_realloc_t_too_small_example :
    Reallocates generous
      (λ b'. length b'.mem < b'.size * (2 ^ 58 + 1))
      (greedy_realloc_t generous no_elements 64 (2 ^ 58 + 1))
greedy_realloc_t_too_small_example =
    greedy_realloc_t_too_small generous generous-IsAllocator no_elements 64 (2 ^ 58 + 1)
      (omega arith) (omega arith) (omega arith) (omega arith)
