-- ===== src/Ring/Place.antt =====
-- The copies of `shl_ring_push`: the new bytes behind the old ones, round the end of the buffer.
use libshl.Base.{
  List, ap, arith, drop, get_or, get_or-append, get_or-drop, get_or-take, if◌then◌else◌, inl, leb,
  length, length-append, length-drop, length-take, list_ext, ltb, refl, sym, take, ℕ, ◌&&◌, ◌++◌,
  ◌+◌, ◌-◌, ◌<◌, ◌^◌, ◌∙◌, ◌≡◌, ◌≤◌,
}
use libshl.Base.Memory.{blit, get_or-blit, length-blit}
use libshl.Base.Word.{add_size}
use libshl.Ring.{Ring, pushed_buf, ring_mask, ring_place}
use libshl.Ring.Contents.{contents, get_or-contents, length-contents}
use libshl.Ring.Valid.{IsValid, ring_mask-wrap, wrap}

-- Where the two copies put the bytes of `u8`.
module _ (buf : List ℕ) (size pos : ℕ) (u8 : List ℕ) where
  pub length-pushed_buf :
      length buf ≡ size
      → size ≤ 2 ^ 63
      → pos < size
      → length u8 ≤ size
      → length (pushed_buf buf size pos u8) ≡ size
  unfolding pushed_buf
  length-pushed_buf h b p q = ground (
    arith,
    length-blit buf pos u8,
    length-blit buf pos (take (size - pos) u8),
    length-take (size - pos) u8,
    length-drop (size - pos) u8,
    length-blit (blit buf pos (take (size - pos) u8)) 0 (drop (size - pos) u8),
  )

  pub get_or-pushed_buf :
      (j : ℕ)
      → length buf ≡ size
      → size ≤ 2 ^ 63
      → pos < size
      → length u8 ≤ size
      → j < size
      → get_or (pushed_buf buf size pos u8) j 0 ≡ (
          if leb pos j && ltb j (pos + length u8)
          then get_or u8 (j - pos) 0
          else if ltb (j + size) (pos + length u8)
          then get_or u8 (j + size - pos) 0
          else get_or buf j 0)
  unfolding pushed_buf
  get_or-pushed_buf j h b p q lt = ground (
    arith,
    get_or-blit buf pos u8 j,
    length-blit buf pos (take (size - pos) u8),
    length-take (size - pos) u8,
    length-drop (size - pos) u8,
    get_or-blit buf pos (take (size - pos) u8) j,
    get_or-blit (blit buf pos (take (size - pos) u8)) 0 (drop (size - pos) u8) j,
    get_or-take 0 (size - pos) u8 (j - pos),
    get_or-drop 0 (size - pos) u8 j,
  )

-- The fields of the ring after the copies.
module _ {r : Ring} (u8 : List ℕ) (v : IsValid r) (some_room : 0 < r.size)
    (fits : r.used + length u8 ≤ r.size) where
  place_pos : ring_mask r (add_size r.start r.used) ≡ wrap r.size (r.start + r.used)
  place_pos =
      ap (ring_mask r) (omega (arith, v))
      ∙ ring_mask-wrap (r.start + r.used) v some_room (omega (arith, v))

  place_buf : (ring_place r u8).buf ≡ pushed_buf r.buf r.size (wrap r.size (r.start + r.used)) u8
  unfolding ring_place
  place_buf = ap (λ p. pushed_buf r.buf r.size p u8) place_pos

  place_used : (ring_place r u8).used ≡ r.used + length u8
  unfolding ring_place
  place_used = omega (arith, v)

  place_pos_lt : wrap r.size (r.start + r.used) < r.size
  place_pos_lt = ground (arith, v)

  pub ring_place-IsValid : IsValid (ring_place r u8)
  ring_place-IsValid = record {
    storage =
        ap length place_buf
        ∙ length-pushed_buf r.buf r.size _ u8 v.storage v.bounded place_pos_lt (omega arith)
        ∙ sym same_size;
    power = rw same_size v.power;
    bounded = rw same_size v.bounded;
    start_in = inl (rw (same_size, same_start) (omega (arith, v)));
    used_in = rw (same_size, place_used) fits;
  }
    where
      same_size : (ring_place r u8).size ≡ r.size
      same_size = unfold ring_place in refl

      same_start : (ring_place r u8).start ≡ r.start
      same_start = unfold ring_place in refl

  placed_bytes :
      (i : ℕ)
      → i < r.used + length u8
      → get_or
          (pushed_buf r.buf r.size (wrap r.size (r.start + r.used)) u8)
          (wrap r.size (r.start + i))
          0
        ≡ get_or (contents r ++ u8) i 0
  placed_bytes i h = ground (
    arith,
    v,
    place_pos_lt,
    get_or-pushed_buf r.buf r.size (wrap r.size (r.start + r.used)) u8 (wrap r.size (r.start + i)),
    get_or-append 0 (contents r) u8 i,
    length-contents v,
    get_or-contents v i,
  )

  pub contents-ring_place : contents (ring_place r u8) ≡ contents r ++ u8
  unfolding ring_place
  contents-ring_place = list_ext 0 _ _ lengths bytes
    where
      lengths : length (contents (ring_place r u8)) ≡ length (contents r ++ u8)
      lengths = omega (
        arith,
        length-contents ring_place-IsValid,
        length-contents v,
        length-append (contents r) u8,
        place_used,
      )

      bytes :
          (i : ℕ)
          → i < length (contents (ring_place r u8))
          → get_or (contents (ring_place r u8)) i 0 ≡ get_or (contents r ++ u8) i 0
      bytes i p =
          let q : i < r.used + length u8 =
            omega (arith, length-contents ring_place-IsValid, place_used) in
          get_or-contents ring_place-IsValid i (omega (arith, place_used))
          ∙ ap (λ t. get_or t (wrap r.size (r.start + i)) 0) place_buf
          ∙ placed_bytes i q
