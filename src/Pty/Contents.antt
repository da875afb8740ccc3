-- ===== src/Pty/Contents.antt =====
-- The bytes that the ring of a PTY holds, oldest first, and what its operations do to them.
use libshl.Ring.Contents.{gather}
use libshl.Ring.Push.{Succeeds}
use libshl.Base.{
  Bool-cases, List, Option, [], ap, append-nil, arith, drop, get_or, get_or-append, get_or-drop,
  if◌then◌else◌, inl, inr, leb, length, length-append, length-drop, list_ext, ltb, min, none, refl,
  some, subst, sym, take_append, ℕ, ◌++◌, ◌+◌, ◌-◌, ◌<◌, ◌==◌, ◌^◌, ◌∙◌, ◌≡◌, ◌≤◌, ◌⊎◌,
}
use libshl.Base.Bits.{zero-bit_and}
use libshl.Base.Memory.{
  Allocator, IsAllocator, blit, blit-blit, enomem, err, get_or-slice, length-blit, length-slice, ok,
  slice,
}
use libshl.Base.Word.{sub_size}
use libshl.Pty.{
  PtyRing, pty_mask, pty_pop_end, pty_pop_front, pty_resized, pty_ring_peek, pty_ring_pop,
  pty_ring_resize,
}
use libshl.Ring.{ring_mask}
use libshl.Ring.Valid.{IsRingSize, ring_mask-wrap, wrap}

pub record IsPtyRing (r : PtyRing) : Type 0 where
  pub storage : length r.buf ≡ r.size
  pub power : IsRingSize r.size
  pub bounded : r.size ≤ 2 ^ 63
  pub inside :
      ((r.start < r.size) × (r.end < r.size)) ⊎ ((r.size ≡ 0) × (r.start ≡ 0) × (r.end ≡ 0))

-- From the start up to the end, or up to the end of the buffer and on from its front.
abbrev pub held_bytes : PtyRing → List ℕ
held_bytes r =
    if leb r.start r.end
    then slice r.buf r.start (r.end - r.start)
    else slice r.buf r.start (r.size - r.start) ++ slice r.buf 0 r.end

slice-zero : (buf : List ℕ) (off : ℕ) → slice buf off 0 ≡ []
slice-zero buf off = refl

-- The mask takes the index back into the buffer.
pub pty_mask-wrap :
    {r : PtyRing} (v : ℕ)
    → IsPtyRing r
    → 0 < r.size
    → v < r.size + r.size
    → pty_mask r v ≡ wrap r.size v
unfolding pty_mask ring_mask
pty_mask-wrap {r} v p pos lt =
    ring_mask-wrap {r = record { buf = r.buf; size = r.size; start = 0; used = 0 }} v
      (record {
        storage = p.storage;
        power = p.power;
        bounded = p.bounded;
        start_in = inl pos;
        used_in = omega arith;
      })
      pos lt

module _ {r : PtyRing} (v : IsPtyRing r) where
  pub length-held_bytes :
      length (held_bytes r)
      ≡ (if leb r.start r.end then r.end - r.start else r.size - r.start + r.end)
  length-held_bytes = ground (
    arith,
    v,
    length-slice r.buf r.start (r.end - r.start),
    length-slice r.buf r.start (r.size - r.start),
    length-slice r.buf 0 r.end,
    length-append (slice r.buf r.start (r.size - r.start)) (slice r.buf 0 r.end),
  )

  -- The byte at `i` stands at `start + i`, taken round.
  pub get_or-held_bytes :
      (i : ℕ)
      → i < length (held_bytes r)
      → get_or (held_bytes r) i 0 ≡ get_or r.buf (wrap r.size (r.start + i)) 0
  get_or-held_bytes i h = ground (
    arith,
    v,
    length-held_bytes,
    get_or-slice r.buf r.start (r.end - r.start) i,
    get_or-append 0 (slice r.buf r.start (r.size - r.start)) (slice r.buf 0 r.end) i,
    length-slice r.buf r.start (r.size - r.start),
    get_or-slice r.buf r.start (r.size - r.start) i,
    get_or-slice r.buf 0 r.end (i - (r.size - r.start)),
  )

  -- What `ring_resize` writes.
  pub pty_resized-held_bytes :
      (b : List ℕ)
      → length (held_bytes r) ≤ length b
      → pty_resized r b ≡ (blit b 0 (held_bytes r), length (held_bytes r))
  unfolding pty_resized
  pty_resized-held_bytes b room = elim (Bool-cases (r.end == r.start)) [
    | inl e ↦ ground (arith, v, length-held_bytes)
    | inr e ↦ ground (
      arith,
      v,
      length-held_bytes,
      blit-blit b (slice r.buf r.start (r.size - r.start)) (slice r.buf 0 r.end),
      length-slice r.buf r.start (r.size - r.start),
      length-slice r.buf 0 r.end,
    )
  ]

  -- The first part of `ring_pop`.
  pub pty_pop_end-wrap :
      (len : ℕ)
      → len < 2 ^ 64
      → pty_pop_end r len ≡ (
          if ltb r.end r.start
          then (
            wrap r.size (r.start + min len (r.size - r.start)),
            len - min len (r.size - r.start),
          )
          else (r.start, len))
  unfolding pty_pop_end
  pty_pop_end-wrap len small = elim (Bool-cases (ltb r.end r.start)) [
    | inl e ↦ ground (arith, v, pty_mask-wrap {r = r} (r.start + min len (r.size - r.start)) v)
    | inr e ↦ rw e refl
  ]

-- `ring_peek` returns vectors that point at all bytes held, in order: none for an empty ring, and
-- at most two.
pub pty_ring_peek_lem :
    {r : PtyRing}
    → IsPtyRing r
    → (gather r.buf (pty_ring_peek r) ≡ held_bytes r)
      × (length (pty_ring_peek r) ≤ 2)
      × (r.start ≡ r.end → pty_ring_peek r ≡ [])
unfolding pty_ring_peek
pty_ring_peek_lem {r} v = (
  ground (
    arith,
    v,
    append-nil (slice r.buf r.start (r.end - r.start)),
    append-nil (slice r.buf r.start (r.size - r.start)),
    append-nil (slice r.buf 0 r.end),
  ),
  ground (arith, v),
  λ e. ground (arith, v),
)

-- The ring `r` in a block of another size.
abbrev pub Resized : PtyRing → ℕ → PtyRing → Type 0
Resized r nsize r' = IsPtyRing r' × (held_bytes r' ≡ held_bytes r) × (r'.size ≡ nsize)

abbrev moved_to : ℕ → List ℕ × ℕ → PtyRing
moved_to nsize (b, n) = record { buf = b; size = nsize; start = 0; end = n }

-- A ring is copied into a block of any size that has room, and holds the same bytes; or -ENOMEM is
-- returned because `malloc` failed.
pub pty_ring_resize_lem :
    (a : Allocator) {r : PtyRing} (nsize : ℕ)
    → IsAllocator a
    → IsPtyRing r
    → length (held_bytes r) < nsize
    → IsRingSize nsize
    → nsize ≤ 2 ^ 63
    → Succeeds a (Resized r nsize) (pty_ring_resize a r nsize)
unfolding pty_ring_resize
pty_ring_resize_lem a {r} nsize h v room p small = go (a.malloc nsize) refl
  where
    placed :
        (b : List ℕ)
        → length b ≡ nsize
        → Resized r nsize (moved_to nsize (blit b 0 (held_bytes r), length (held_bytes r)))
    placed b n = (
      record {
        storage = length-blit b 0 (held_bytes r) (omega arith) ∙ n;
        power = p;
        bounded = small;
        inside = inl (omega arith, room);
      },
      ground (arith, take_append (held_bytes r) (drop (length (held_bytes r)) b)),
      refl,
    )

    go :
        (m : Option (List ℕ))
        → a.malloc nsize ≡ m
        → Succeeds a
            (Resized r nsize)
            (elim m [ none ↦ err enomem | some b ↦ ok (moved_to nsize (pty_resized r b)) ])
    go none e = (refl, nsize, e)
    go (some b) e =
        let n : length b ≡ nsize = h.malloc_length nsize b e in
        subst (λ x. Resized r nsize (moved_to nsize x))
          (sym (pty_resized-held_bytes v b (omega arith))) (placed b n)

-- The start behind `ring_pop`.
abbrev popped_start : PtyRing → ℕ → ℕ
popped_start r len =
    if ltb r.end r.start
    then if ltb len (r.size - r.start) then r.start + len else min (len - (r.size - r.start)) r.end
    else r.start + min len (r.end - r.start)

pub pty_mask_small : {r : PtyRing} (i : ℕ) → IsPtyRing r → (i < r.size) ⊎ (i ≡ 0) → pty_mask r i ≡ i
pty_mask_small {r} i v (inl lt) =
    pty_mask-wrap {r = r} i v (omega arith) (omega arith) ∙ ground arith
pty_mask_small {r} i v (inr e) = unfold pty_mask in rw e (zero-bit_and (sub_size r.size 1))

pty_ring_pop-start :
    {r : PtyRing} (len : ℕ)
    → IsPtyRing r
    → len < 2 ^ 64
    → pty_ring_pop r len ≡ record r { start = popped_start r len }
unfolding pty_ring_pop pty_pop_front
pty_ring_pop-start {r} len v small = elim (Bool-cases (ltb r.end r.start)) [
  | inl e ↦
      ap (pty_pop_front r) (pty_pop_end-wrap v len small)
      ∙ ground (arith, v, pty_mask_small {r = r} (min (len - (r.size - r.start)) r.end) v)
  | inr e ↦
      ap (pty_pop_front r) (pty_pop_end-wrap v len small)
      ∙ ground (arith, v, pty_mask_small {r = r} (r.start + min len (r.end - r.start)) v)
]

module _ {r : PtyRing} (len : ℕ) (v : IsPtyRing r) where
  abbrev popped : PtyRing
  popped = record r { start = popped_start r len }

  popped-IsPtyRing : IsPtyRing popped
  popped-IsPtyRing = record {
    storage = v.storage;
    power = v.power;
    bounded = v.bounded;
    inside = ground (arith, v);
  }

  held_bytes-popped : held_bytes popped ≡ drop len (held_bytes r)
  held_bytes-popped = list_ext 0 _ _ lengths bytes
    where
      lengths : length (held_bytes popped) ≡ length (drop len (held_bytes r))
      lengths = ground (
        arith,
        v,
        length-held_bytes v,
        length-held_bytes popped-IsPtyRing,
        length-drop len (held_bytes r),
      )

      bytes :
          (i : ℕ)
          → i < length (held_bytes popped)
          → get_or (held_bytes popped) i 0 ≡ get_or (drop len (held_bytes r)) i 0
      bytes i h =
          let q : len + i < length (held_bytes r) =
            omega (arith, lengths, length-drop len (held_bytes r)) in
          get_or-held_bytes popped-IsPtyRing i h
          ∙ ap (λ k. get_or r.buf k 0) (ground (arith, v, q, length-held_bytes v))
          ∙ sym (get_or-held_bytes v (len + i) q)
          ∙ sym (get_or-drop 0 len (held_bytes r) i)

-- `ring_pop` removes the oldest bytes, as many as were asked for, or all, and keeps the invariant.
pub pty_ring_pop_lem :
    {r : PtyRing} (len : ℕ)
    → IsPtyRing r
    → len < 2 ^ 64
    → IsPtyRing (pty_ring_pop r len) × (held_bytes (pty_ring_pop r len) ≡ drop len (held_bytes r))
pty_ring_pop_lem {r} len v small =
    subst (λ x. IsPtyRing x × (held_bytes x ≡ drop len (held_bytes r)))
      (sym (pty_ring_pop-start len v small)) (popped-IsPtyRing len v, held_bytes-popped len v)
