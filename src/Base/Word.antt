-- ===== src/Base/Word.antt =====
-- Unsigned 64-bit arithmetic (`size_t`, `unsigned long`, `unsigned long long`, `uint64_t`), with
-- its wrap-around written out.
use libshl.Base.{ℕ, ◌+◌, ◌-◌, ◌%◌, ◌^◌, ◌<◌}

abbrev pub size_max : ℕ
size_max = 2 ^ 64 - 1

abbrev pub IsSize : ℕ → Type 0
IsSize n = n < 2 ^ 64

abbrev pub add_size : ℕ → ℕ → ℕ
add_size a b = (a + b) % 2 ^ 64

abbrev pub sub_size : ℕ → ℕ → ℕ
sub_size a b = (a + 2 ^ 64 - b) % 2 ^ 64
