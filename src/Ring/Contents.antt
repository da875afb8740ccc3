-- ===== src/Ring/Contents.antt =====
-- The bytes that a ring holds, oldest first, independently of how the code copies them, and what
-- `shl_ring_copy` and `shl_ring_peek` show of them.
use libshl.Base.{
  List, [], append-nil, arith, drop, get_or, get_or-append, get_or-drop, get_or-take, length,
  length-append, length-drop, length-take, list_ext, min, take, take-length, ℕ, ◌++◌, ◌+◌, ◌-◌, ◌<◌,
  ◌∷◌, ◌≡◌, ◌≤◌,
}
use libshl.Base.Memory.{get_or-slice, length-slice, slice}
use libshl.Ring.{Iovec, Ring, read_wrapped, ring_copy, ring_peek}
use libshl.Ring.Valid.{IsValid, wrap}

-- The buffer turned so that its start comes first, cut to the bytes in use.
abbrev pub contents : Ring → List ℕ
contents r = take r.used (drop r.start r.buf ++ take r.start r.buf)

module _ {r : Ring} (v : IsValid r) where
  pub length-contents : length (contents r) ≡ r.used
  length-contents = omega (
    arith,
    v,
    length-take r.used (drop r.start r.buf ++ take r.start r.buf),
    length-append (drop r.start r.buf) (take r.start r.buf),
    length-drop r.start r.buf,
    length-take r.start r.buf,
  )

  -- The byte at `i` stands at `start + i`, taken round.
  pub get_or-contents :
      (i : ℕ) → i < r.used → get_or (contents r) i 0 ≡ get_or r.buf (wrap r.size (r.start + i)) 0
  get_or-contents i h = ground (
    arith,
    v,
    get_or-take 0 r.used (drop r.start r.buf ++ take r.start r.buf) i h,
    get_or-append 0 (drop r.start r.buf) (take r.start r.buf) i,
    length-drop r.start r.buf,
    get_or-drop 0 r.start r.buf i,
    get_or-take 0 r.start r.buf (i - (r.size - r.start)),
  )

  -- Reading up to the end of the buffer and on from its front gives the oldest bytes.
  pub read_wrapped-contents : (n : ℕ) → n ≤ r.used → read_wrapped r n ≡ take n (contents r)
  unfolding read_wrapped
  read_wrapped-contents n h = list_ext 0 _ _ lengths bytes
    where
      lengths : length (read_wrapped r n) ≡ length (take n (contents r))
      lengths = ground (
        arith,
        v,
        length-contents,
        length-take n (contents r),
        length-slice r.buf r.start n,
        length-slice r.buf r.start (r.size - r.start),
        length-slice r.buf 0 (n - (r.size - r.start)),
        length-append (slice r.buf r.start (r.size - r.start))
            (slice r.buf 0 (n - (r.size - r.start))),
      )

      bytes :
          (i : ℕ)
          → i < length (read_wrapped r n)
          → get_or (read_wrapped r n) i 0 ≡ get_or (take n (contents r)) i 0
      bytes i p =
          let q : i < n = omega (arith, lengths, length-take n (contents r), length-contents) in
          ground (
            arith,
            v,
            q,
            get_or-take 0 n (contents r) i q,
            get_or-contents i,
            get_or-slice r.buf r.start n i,
            get_or-append 0 (slice r.buf r.start (r.size - r.start))
                (slice r.buf 0 (n - (r.size - r.start))) i,
            length-slice r.buf r.start (r.size - r.start),
            get_or-slice r.buf r.start (r.size - r.start) i,
            get_or-slice r.buf 0 (n - (r.size - r.start)) (i - (r.size - r.start)),
          )

-- `shl_ring_copy` returns the smaller of the size asked for and the number of bytes held, and
-- copies that many bytes in order, oldest first.
pub ring_copy_lem :
    {r : Ring} (size : ℕ)
    → IsValid r
    → ring_copy r size ≡ (min size r.used, take (min size r.used) (contents r))
unfolding ring_copy
ring_copy_lem {r} size v =
    ground (arith, read_wrapped-contents v size, read_wrapped-contents v r.used, v)

-- The bytes that a vector points at.
abbrev pub gather : List ℕ → List Iovec → List ℕ
gather buf [] = []
gather buf (x ∷ xs) = slice buf x.iov_base x.iov_len ++ gather buf xs

-- The vectors of `shl_ring_peek` point at all bytes held, in order, and there are never more than
-- two of them.
pub ring_peek_lem :
    {r : Ring} → IsValid r → (gather r.buf (ring_peek r) ≡ contents r) × (length (ring_peek r) ≤ 2)
unfolding ring_peek read_wrapped
ring_peek_lem {r} v = ground (
  arith,
  v,
  read_wrapped-contents v r.used,
  take-length (contents r) r.used,
  length-contents v,
  append-nil (slice r.buf r.start r.used),
  append-nil (slice r.buf 0 (r.used - (r.size - r.start))),
)
