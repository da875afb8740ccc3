-- ===== src/Greedy.antt =====
-- src/shl_util.c, "Greedy Realloc": arrays that grow to powers of two. The two variables that a call
-- updates, `*mem` and `*size`, are a block. NULL is -ENOMEM here: the callers turn it into that.
pub mod Grow
pub mod Array
mod Examples
use libshl.Base.{List, if◌then◌else◌, leb, ltb, none, replicate, some, ℕ, ◌%◌, ◌*◌, ◌==◌, ◌^◌}
use libshl.Base.Memory.{Allocator, Outcome, blit, enomem, err, ok, undefined}
use libshl.Base.Word.{sub_size}
use libshl.Macro.{align_power2, shl_max}

-- `*mem` and `*size` (or `*arr` and `*cnt`)
pub record Block : Type 0 where
  pub mem : List ℕ
  pub size : ℕ

-- `shl_memzero(&p[from], n)`
abbrev pub zero_from : List ℕ → ℕ → ℕ → List ℕ
zero_from p from n = blit p from (replicate n 0)

-- `size_t` multiplication
abbrev pub mul_size : ℕ → ℕ → ℕ
mul_size a b = a * b % 2 ^ 64

module _ (a : Allocator) where
  -- `realloc` to `bytes` bytes, and the two writes behind it.
  unfoldable pub realloc_block : Block → ℕ → ℕ → Outcome Block
  realloc_block b bytes nsize = elim (a.realloc b.mem bytes) [
    | none ↦ err enomem
    | some p ↦ ok (record { mem = p; size = nsize })
  ]

  -- `shl_greedy_realloc`
  unfoldable pub greedy_realloc : Block → ℕ → Outcome Block
  unfolding realloc_block
  greedy_realloc b need = if leb need b.size then ok b else elim (align_power2 (shl_max 64 need)) [
    | none ↦ undefined
    | some nsize ↦ if nsize == 0 then err enomem else realloc_block b nsize nsize
  ]

  -- `shl_greedy_realloc0`
  unfoldable pub greedy_realloc0 : Block → ℕ → Outcome Block
  greedy_realloc0 b need = elim (greedy_realloc b need) [
    | ok p ↦ ok (
        if ltb b.size p.size
        then record p { mem = zero_from p.mem b.size (sub_size p.size b.size) }
        else p)
    | err e ↦ err e
    | undefined ↦ undefined
  ]

  -- `shl_greedy_realloc_t`
  unfoldable pub greedy_realloc_t : Block → ℕ → ℕ → Outcome Block
  unfolding realloc_block
  greedy_realloc_t b need ts =
      if leb need b.size
      then ok b
      else if ts == 0
      then err enomem
      else elim (align_power2 (shl_max 64 need)) [
        | none ↦ undefined
        | some ncnt ↦ if ncnt == 0 then err enomem else realloc_block b (mul_size ncnt ts) ncnt
      ]

  -- `shl_greedy_realloc0_t`
  unfoldable pub greedy_realloc0_t : Block → ℕ → ℕ → Outcome Block
  greedy_realloc0_t b need ts = elim (greedy_realloc_t b need ts) [
    | ok p ↦ ok (
        if ltb b.size p.size
        then record p {
          mem = zero_from p.mem (mul_size b.size ts) (mul_size (sub_size p.size b.size) ts);
        }
        else p)
    | err e ↦ err e
    | undefined ↦ undefined
  ]
