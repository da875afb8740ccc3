-- ===== src/Buf.antt =====
-- src/shl_buf.h: a buffer of bytes over the greedy allocations.
pub mod Bytes
mod Examples
use libshl.Base.{List, [], if◌then◌else◌, leb, length, ℕ, ◌==◌}
use libshl.Base.Memory.{Allocator, Outcome, blit, enomem, err, ok, slice, undefined}
use libshl.Base.Word.{add_size, sub_size}
use libshl.Greedy.{Block, greedy_realloc}
use libshl.Macro.{shl_min}

-- `struct shl_buf`; its first two fields are the block that `shl_greedy_realloc` updates.
pub record Buf : Type 0 where
  pub buf : List ℕ
  pub size : ℕ
  pub used : ℕ

-- `shl_buf_flush`
unfoldable pub buf_flush : Buf → Buf
buf_flush b = record b { used = 0 }

-- `shl_buf_clear`
unfoldable pub buf_clear : Buf → Buf
buf_clear b = record { buf = []; size = 0; used = 0 }

-- `shl_buf_get_data`
unfoldable pub buf_get_data : Buf → List ℕ
buf_get_data b = b.buf

-- `shl_buf_get_size`
unfoldable pub buf_get_size : Buf → ℕ
buf_get_size b = b.used

-- The writes of `shl_buf_push`, in the block that has room for them.
unfoldable pub buf_write : ℕ → List ℕ → Block → Buf
buf_write used d p = record {
  buf = blit p.mem used d;
  size = p.size;
  used = add_size used (length d);
}

-- `shl_buf_push`, for the bytes `d[0 .. l)`
unfoldable pub buf_push : Allocator → Buf → List ℕ → Outcome Buf
buf_push a b d =
    if length d == 0
    then ok b
    else if leb (add_size b.used (length d)) b.used
    then err enomem
    else elim (greedy_realloc a (record { mem = b.buf; size = b.size })
        (add_size b.used (length d))) [
          | ok p ↦ ok (buf_write b.used d p)
          | err e ↦ err e
          | undefined ↦ undefined
        ]

-- `shl_buf_pop`
unfoldable pub buf_pop : Buf → ℕ → Buf
unfolding shl_min
buf_pop b l = record b { used = sub_size b.used (shl_min b.used l) }

-- `shl_buf_pull`; `memmove` writes what was read before.
unfoldable pub buf_pull : Buf → ℕ → Buf
unfolding shl_min
buf_pull b l =
    let n = shl_min b.used l in
    record b { buf = blit b.buf 0 (slice b.buf n (sub_size b.used n)); used = sub_size b.used n }
