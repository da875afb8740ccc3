-- ===== src/Pty/Grow.antt =====
-- The growth of the ring of a PTY, and `ring_push` as a whole.
use libshl.Ring.Push.{Succeeds}
use libshl.Base.{
  Bool-cases, List, ap, arith, false, if◌then◌else◌, inl, inr, leb, length, ltb, refl, ℕ, ◌++◌, ◌+◌,
  ◌-◌, ◌<◌, ◌^◌, ◌∙◌, ◌≡◌, ◌≤◌,
}
use libshl.Base.Memory.{Allocator, IsAllocator, Outcome, enomem, err, ok, undefined}
use libshl.Base.Word.{add_size, sub_size}
use libshl.Macro.Align.{IsPower2Above}
use libshl.Pty.{
  PtyRing, pty_push_end, pty_push_front, pty_ring_grow, pty_ring_push, pty_ring_resize, pty_room,
  ring_pow2,
}
use libshl.Pty.Contents.{IsPtyRing, Resized, held_bytes, length-held_bytes, pty_ring_resize_lem}
use libshl.Pty.Pow2.{ring_pow2-IsPower2Above}
use libshl.Pty.Push.{pty_push-appends}
use libshl.Ring.Valid.{power_bound}

module _ {r : PtyRing} (v : IsPtyRing r) where
  -- What `ring_grow` counts is what is not held.
  pty_room-held_bytes : pty_room r ≡ r.size - length (held_bytes r)
  unfolding pty_room
  pty_room-held_bytes = ground (arith, v, length-held_bytes v)

  pub held_bytes-le : length (held_bytes r) ≤ r.size
  held_bytes-le = ground (arith, v, length-held_bytes v)

-- A ring with the same bytes and the given room, one byte more included.
abbrev Roomy : PtyRing → ℕ → PtyRing → Type 0
Roomy r add r' =
    IsPtyRing r' × (held_bytes r' ≡ held_bytes r) × (length (held_bytes r') + add < r'.size)

module _ (a : Allocator) (h : IsAllocator a) where
  pty_ring_grow-Roomy :
      {r : PtyRing} (add : ℕ)
      → IsPtyRing r
      → length (held_bytes r) + add < 2 ^ 63
      → Succeeds a (Roomy r add) (pty_ring_grow a r add)
  unfolding pty_ring_grow
  pty_ring_grow-Roomy {r} add v small = elim (Bool-cases (ltb add (pty_room r))) [
    | inl e ↦ rw e (v, refl, ground (arith, pty_room-held_bytes v))
    | inr e ↦ rw e (resized e)
  ]
    where
      need : ℕ
      need = add_size (sub_size (add_size r.size add) (pty_room r)) 1

      need-held :
          add_size (sub_size (add_size r.size add) (pty_room r)) 1 ≡ length (held_bytes r) + add + 1
      need-held = omega (arith, v, pty_room-held_bytes v, held_bytes-le v)

      resized :
          ltb add (pty_room r) ≡ false
          → Succeeds a (Roomy r add) (
              if leb (ring_pow2 (add_size (sub_size (add_size r.size add) (pty_room r)) 1)) r.size
              then err enomem
              else pty_ring_resize a r
                  (ring_pow2 (add_size (sub_size (add_size r.size add) (pty_room r)) 1)))
      resized e = rw need-held (
          go (ring_pow2 (length (held_bytes r) + add + 1))
            (ring_pow2-IsPower2Above (length (held_bytes r) + add + 1) (omega arith) (omega arith)))
        where
          full : r.size ≤ length (held_bytes r) + add
          full = ground (arith, pty_room-held_bytes v)

          weaken :
              (p : ℕ)
              → length (held_bytes r) + add < p
              → (o : Outcome PtyRing) → Succeeds a (Resized r p) o
              → Succeeds a (Roomy r add) o
          weaken p lt (ok r') (i, s, q) = (i, s, omega (arith, q, ap length s))
          weaken p lt (err x) q = q
          weaken p lt undefined q = q

          go :
              (p : ℕ)
              → IsPower2Above (length (held_bytes r) + add + 1) p
              → Succeeds a
                  (Roomy r add)
                  (if leb p r.size then err enomem else pty_ring_resize a r p)
          go p up = rw above (
              weaken p (omega (arith, up.above)) (pty_ring_resize a r p) (
                pty_ring_resize_lem a p h v (omega (arith, up.above))
                  (inr (up.exponent, up.power, up.fits))
                  (omega (arith, up.power, power_bound up.exponent up.fits))))
            where
              above : leb p r.size ≡ false
              above = ground (arith, up.above, full)

  -- `ring_push` appends exactly the given bytes and keeps the invariant, or returns -ENOMEM because
  -- an allocation failed; it is defined for fewer than 2^63 bytes in all.
  pub pty_ring_push-appends :
      {r : PtyRing} (u8 : List ℕ)
      → IsPtyRing r
      → length (held_bytes r) + length u8 < 2 ^ 63
      → Succeeds a
          (λ r'. IsPtyRing r' × (held_bytes r' ≡ held_bytes r ++ u8))
          (pty_ring_push a r u8)
  unfolding pty_ring_push
  pty_ring_push-appends {r} u8 v small =
      go (pty_ring_grow a r (length u8)) (pty_ring_grow-Roomy (length u8) v small)
    where
      go :
          (o : Outcome PtyRing)
          → Succeeds a (Roomy r (length u8)) o
          → Succeeds a
              (λ r'. IsPtyRing r' × (held_bytes r' ≡ held_bytes r ++ u8))
              (elim o [
                | ok r' ↦ ok (pty_push_front (pty_push_end r' u8))
                | err e ↦ err e
                | undefined ↦ undefined
              ])
      go (ok r') (i, s, room) =
          let (w, e) = pty_push-appends u8 i room in (w, e ∙ ap (λ t. t ++ u8) s)
      go (err x) q = q
      go undefined q = q
