-- ===== src/Pty.antt =====
-- src/shl_pty.c, "Ring Buffer": the ring of a PTY. It has an end position in place of a count, so
-- that its last byte is never filled.
pub mod Pow2
pub mod Contents
pub mod Push
pub mod Grow
pub mod Object
pub mod Calls
pub mod Session
pub mod Reads
pub mod References
pub mod Open
pub mod Descriptors
pub mod Forked
pub mod Opened
pub mod Retry
pub mod Bridge
mod Examples
use libshl.Base.{
  List, [], bit_and, bit_or, drop, if◌then◌else◌, leb, length, ltb, none, some, suc, take, zero, ℕ,
  ◌*◌, ◌/◌, ◌==◌, ◌^◌, ◌∷◌,
}
use libshl.Base.Memory.{Allocator, Outcome, blit, enomem, err, ok, slice, undefined}
use libshl.Base.Word.{add_size, sub_size}
use libshl.Ring.{Iovec}

-- `struct ring`
pub record PtyRing : Type 0 where
  pub buf : List ℕ
  pub size : ℕ
  pub start : ℕ
  pub end : ℕ

-- `RING_MASK`
unfoldable pub pty_mask : PtyRing → ℕ → ℕ
pty_mask r v = bit_and v (sub_size r.size 1)

-- The new block of `ring_resize`, once it is filled, and the new end.
unfoldable pub pty_resized : PtyRing → List ℕ → List ℕ × ℕ
pty_resized r b =
    if r.end == r.start
    then (b, 0)
    else if ltb r.start r.end
    then (blit b 0 (slice r.buf r.start (sub_size r.end r.start)), sub_size r.end r.start)
    else (
      blit (blit b 0 (slice r.buf r.start (sub_size r.size r.start))) (sub_size r.size r.start)
          (slice r.buf 0 r.end),
      add_size r.end (sub_size r.size r.start),
    )

-- The loop of `ring_pow2`; the fuel counts its rounds, which double `i`.
unfoldable pub pow2_loop : ℕ → ℕ → ℕ → ℕ
pow2_loop zero i v = v
pow2_loop (suc fuel) i v =
    let rest = pow2_loop fuel (i * 2) (bit_or v (v / 2 ^ i)) in if ltb i 64 then rest else v

-- `ring_pow2`
unfoldable pub ring_pow2 : ℕ → ℕ
ring_pow2 v = if v == 0 then 4096 else add_size (pow2_loop 7 1 (sub_size v 1)) 1

-- The free bytes that `ring_grow` counts, the one that stays free among them.
unfoldable pub pty_room : PtyRing → ℕ
pty_room r =
    if ltb r.end r.start then sub_size r.start r.end else sub_size (add_size r.start r.size) r.end

module _ (a : Allocator) where
  -- `ring_resize`
  unfoldable pub pty_ring_resize : PtyRing → ℕ → Outcome PtyRing
  pty_ring_resize r nsize = elim (a.malloc nsize) [
    | none ↦ err enomem
    | some b ↦
        ok
          (record { buf = (pty_resized r b).0; size = nsize; start = 0; end = (pty_resized r b).1 })
  ]

  -- `ring_grow`
  unfoldable pub pty_ring_grow : PtyRing → ℕ → Outcome PtyRing
  pty_ring_grow r add =
      if ltb add (pty_room r)
      then ok r
      else let len = ring_pow2 (add_size (sub_size (add_size r.size add) (pty_room r)) 1) in
        if leb len r.size then err enomem else pty_ring_resize r len

-- The first copy of `ring_push`: the ring after it, and the bytes that are left.
unfoldable pub pty_push_end : PtyRing → List ℕ → PtyRing × List ℕ
pty_push_end r u8 =
    if leb r.start r.end
    then (let room = sub_size r.size r.end in
        let l = if ltb (length u8) room then length u8 else room in
        (
          record r { buf = blit r.buf r.end (take l u8); end = pty_mask r (add_size r.end l) },
          drop l u8,
        ))
    else (r, u8)

-- The second one.
unfoldable pub pty_push_front : PtyRing × List ℕ → PtyRing
pty_push_front (r, u8) =
    if length u8 == 0
    then r
    else record r { buf = blit r.buf r.end u8; end = pty_mask r (add_size r.end (length u8)) }

-- `ring_push`
unfoldable pub pty_ring_push : Allocator → PtyRing → List ℕ → Outcome PtyRing
pty_ring_push a r u8 = elim (pty_ring_grow a r (length u8)) [
  | ok r' ↦ ok (pty_push_front (pty_push_end r' u8))
  | err e ↦ err e
  | undefined ↦ undefined
]

-- `ring_peek`: the vectors that count.
unfoldable pub pty_ring_peek : PtyRing → List Iovec
pty_ring_peek r =
    if ltb r.start r.end
    then record { iov_base = r.start; iov_len = sub_size r.end r.start } ∷ []
    else if ltb r.end r.start
    then record { iov_base = r.start; iov_len = sub_size r.size r.start }
      ∷ (if r.end == 0 then [] else record { iov_base = 0; iov_len = r.end } ∷ [])
    else []

-- The first part of `ring_pop`, up to the end of the buffer: the new start, and what is left of `len`.
unfoldable pub pty_pop_end : PtyRing → ℕ → ℕ × ℕ
pty_pop_end r len =
    if ltb r.end r.start
    then (let room = sub_size r.size r.start in
        let l = if ltb len room then len else room in
        (pty_mask r (add_size r.start l), sub_size len l))
    else (r.start, len)

-- The second part.
unfoldable pub pty_pop_front : PtyRing → ℕ × ℕ → PtyRing
pty_pop_front r (s, left) =
    if left == 0
    then record r { start = s }
    else let held = sub_size r.end s in
      let l = if ltb held left then held else left in record r { start = pty_mask r (add_size s l) }

-- `ring_pop`
unfoldable pub pty_ring_pop : PtyRing → ℕ → PtyRing
pty_ring_pop r len = pty_pop_front r (pty_pop_end r len)
