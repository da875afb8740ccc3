-- ===== src/Ring.antt =====
-- src/shl_ring.h and src/shl_ring.c: a ring of bytes that grows. A function that updates `*r`
-- returns the new ring; at an error the ring is left as it was. `memcpy` between blocks is
-- `Memory.blit`.
pub mod Valid
pub mod Contents
pub mod Place
pub mod Push
pub mod Pull
pub mod Fifo
mod Examples
use libshl.Base.{
  List, [], bit_and, drop, if◌then◌else◌, leb, length, ltb, none, some, take, ℕ, ◌++◌, ◌==◌, ◌∷◌,
}
use libshl.Base.Memory.{Allocator, Outcome, blit, enomem, err, ok, slice, undefined}
use libshl.Base.Word.{add_size, sub_size}
use libshl.Macro.{align_power2}

-- `struct shl_ring`
pub record Ring : Type 0 where
  pub buf : List ℕ
  pub size : ℕ
  pub start : ℕ
  pub used : ℕ

-- A zeroed ring, as `shl_ring_clear` leaves it.
abbrev pub empty_ring : Ring
empty_ring = record { buf = []; size = 0; start = 0; used = 0 }

-- `RING_MASK`
unfoldable pub ring_mask : Ring → ℕ → ℕ
ring_mask r v = bit_and v (sub_size r.size 1)

-- `shl_ring_flush`
unfoldable pub ring_flush : Ring → Ring
ring_flush r = record r { start = 0; used = 0 }

-- `shl_ring_clear`
unfoldable pub ring_clear : Ring → Ring
ring_clear r = empty_ring

-- `struct iovec`, its base as an offset in the buffer
pub record Iovec : Type 0 where
  pub iov_base : ℕ
  pub iov_len : ℕ

-- `shl_ring_peek`: the vectors that are filled; their number is returned.
unfoldable pub ring_peek : Ring → List Iovec
ring_peek r =
    if r.used == 0
    then []
    else if leb (add_size r.start r.used) r.size
    then record { iov_base = r.start; iov_len = r.used } ∷ []
    else record { iov_base = r.start; iov_len = sub_size r.size r.start }
      ∷ record { iov_base = 0; iov_len = sub_size r.used (sub_size r.size r.start) }
      ∷ []

-- The bytes that `shl_ring_copy` and `ring_resize` read, at most up to the end of the buffer and
-- then on from its front.
unfoldable pub read_wrapped : Ring → ℕ → List ℕ
read_wrapped r n =
    let l = sub_size r.size r.start in
    if leb n l then slice r.buf r.start n else slice r.buf r.start l ++ slice r.buf 0 (sub_size n l)

-- `shl_ring_copy`: the number that is returned, and the bytes that are written to `buf`.
unfoldable pub ring_copy : Ring → ℕ → ℕ × List ℕ
ring_copy r size =
    let n = if ltb r.used size then r.used else size in
    (n, if ltb 0 n then read_wrapped r n else [])

-- The new block of `ring_resize`, once it is filled.
unfoldable pub resized_buf : Ring → List ℕ → List ℕ
resized_buf r b =
    let l = sub_size r.size r.start in
    if ltb 0 r.used
    then if leb r.used l
      then blit b 0 (slice r.buf r.start r.used)
      else blit (blit b 0 (slice r.buf r.start l)) l (slice r.buf 0 (sub_size r.used l))
    else b

-- The writes of `shl_ring_push` at `pos`.
unfoldable pub pushed_buf : List ℕ → ℕ → ℕ → List ℕ → List ℕ
pushed_buf buf size pos u8 =
    let l = sub_size size pos in
    if leb (length u8) l then blit buf pos u8 else blit (blit buf pos (take l u8)) 0 (drop l u8)

-- `shl_ring_push` behind `ring_grow`.
unfoldable pub ring_place : Ring → List ℕ → Ring
ring_place r u8 = record r {
  buf = pushed_buf r.buf r.size (ring_mask r (add_size r.start r.used)) u8;
  used = add_size r.used (length u8);
}

module _ (a : Allocator) where
  -- `ring_resize`
  unfoldable pub ring_resize : Ring → ℕ → Outcome Ring
  ring_resize r nsize = elim (a.malloc nsize) [
    | none ↦ err enomem
    | some b ↦ ok (record { buf = resized_buf r b; size = nsize; start = 0; used = r.used })
  ]

  -- `ring_grow` once the sum is known not to wrap
  unfoldable pub ring_grow_to : Ring → ℕ → Outcome Ring
  ring_grow_to r need = elim (align_power2 (if ltb need 4096 then 4096 else need)) [
    | none ↦ undefined
    | some p ↦ if p == 0 then err enomem else ring_resize r p
  ]

  -- `ring_grow`
  unfoldable pub ring_grow : Ring → ℕ → Outcome Ring
  ring_grow r add =
      if leb add (sub_size r.size r.used)
      then ok r
      else if leb (add_size r.used add) r.used
      then err enomem
      else ring_grow_to r (add_size r.used add)

  -- `shl_ring_push`, for the bytes `u8[0 .. size)`
  unfoldable pub ring_push : Ring → List ℕ → Outcome Ring
  ring_push r u8 = if length u8 == 0 then ok r else elim (ring_grow r (length u8)) [
    | ok r' ↦ ok (ring_place r' u8)
    | err e ↦ err e
    | undefined ↦ undefined
  ]

-- `shl_ring_pull`
unfoldable pub ring_pull : Ring → ℕ → Ring
ring_pull r size =
    let n = if ltb r.used size then r.used else size in
    record r { start = ring_mask r (add_size r.start n); used = sub_size r.used n }

-- `shl_ring_get_size`
unfoldable pub ring_get_size : Ring → ℕ
ring_get_size r = r.used
