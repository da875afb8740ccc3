-- ===== src/Buf/Bytes.antt =====
-- A buffer as the list of the bytes that it holds.
use libshl.Greedy.Grow.{Grown}
use libshl.Base.{
  Bool-cases, List, [], ap, append-nil, arith, drop, drop-length, get_or, get_or-append,
  get_or-drop, get_or-take, if◌then◌else◌, inl, inr, length, length-append, length-drop,
  length-take, list_ext, ltb, ltb→lt, subst, sym, take, take-take, ℕ, ◌++◌, ◌+◌, ◌-◌, ◌<◌, ◌^◌, ◌∙◌,
  ◌∷◌, ◌≡◌, ◌≤◌,
}
use libshl.Base.Memory.{
  Allocator, IsAllocator, Outcome, blit, err, get_or-blit, get_or-slice, length-blit, length-slice,
  ok, slice, undefined,
}
use libshl.Base.Word.{add_size, sub_size}
use libshl.Buf.{Buf, buf_pop, buf_pull, buf_push, buf_write}
use libshl.Greedy.{Block, greedy_realloc}
use libshl.Greedy.Grow.{Reallocates, greedy_realloc-Grown}

pub record IsValid (b : Buf) : Type 0 where
  pub storage : length b.buf ≡ b.size
  pub bounded : b.size ≤ 2 ^ 63
  pub used_in : b.used ≤ b.size

-- The bytes in use.
abbrev pub bytes : Buf → List ℕ
bytes b = take b.used b.buf

length-bytes : {b : Buf} → IsValid b → length (bytes b) ≡ b.used
length-bytes {b} v = omega (arith, v, length-take b.used b.buf)

get_or-bytes : (b : Buf) (i : ℕ) → i < b.used → get_or (bytes b) i 0 ≡ get_or b.buf i 0
get_or-bytes b i h = get_or-take 0 b.used b.buf i h

-- The copy into a grown block appends.
module _ {b : Buf} {p : Block} (d : List ℕ) (v : IsValid b)
    (g : Grown (record { mem = b.buf; size = b.size }) (b.used + length d) p) where
  written_used : (buf_write b.used d p).used ≡ b.used + length d
  unfolding buf_write
  written_used = omega (arith, g.bounded, g.enough)

  buf_write-IsValid : IsValid (buf_write b.used d p)
  unfolding buf_write
  buf_write-IsValid = record {
    storage = length-blit p.mem b.used d (omega (arith, g.storage, g.enough)) ∙ g.storage;
    bounded = g.bounded;
    used_in = omega (arith, g.enough, g.bounded);
  }

  bytes-buf_write : bytes (buf_write b.used d p) ≡ bytes b ++ d
  bytes-buf_write = list_ext 0 _ _ lengths same
    where
      lengths : length (bytes (buf_write b.used d p)) ≡ length (bytes b ++ d)
      lengths = omega (
        arith,
        length-bytes buf_write-IsValid,
        written_used,
        length-append (bytes b) d,
        length-bytes v,
      )

      same :
          (i : ℕ)
          → i < length (bytes (buf_write b.used d p))
          → get_or (bytes (buf_write b.used d p)) i 0 ≡ get_or (bytes b ++ d) i 0
      same i h =
          let lt : i < b.used + length d =
            omega (arith, length-bytes buf_write-IsValid, written_used) in
          get_or-bytes (buf_write b.used d p) i (omega (arith, written_used)) ∙ at i lt
        where
          at :
              (i : ℕ)
              → i < b.used + length d
              → get_or (buf_write b.used d p).buf i 0 ≡ get_or (bytes b ++ d) i 0
          at i lt =
              unfold buf_write in
              ground (
                arith,
                get_or-blit p.mem b.used d i (omega (arith, g.storage, g.enough)),
                get_or-append 0 (bytes b) d i,
                length-bytes v,
                get_or-bytes b i,
                g.kept i,
                v.used_in,
              )

-- `shl_buf_push` appends exactly the given bytes and keeps the invariant, or returns -ENOMEM because
-- `realloc` failed; it is defined for up to 2^63 bytes in all.
pub buf_push-appends :
    (a : Allocator) {b : Buf} (d : List ℕ)
    → IsAllocator a
    → IsValid b
    → b.used + length d ≤ 2 ^ 63
    → Reallocates a (λ b'. IsValid b' × (bytes b' ≡ bytes b ++ d)) (buf_push a b d)
unfolding buf_push
buf_push-appends a {b} [] h v small = (v, sym (append-nil (bytes b)))
buf_push-appends a {b} (x ∷ xs) h v small =
    subst (Reallocates a (λ b'. IsValid b' × (bytes b' ≡ bytes b ++ (x ∷ xs)))) (sym reaches) (
      go (greedy_realloc a block (b.used + length (x ∷ xs)))
        (greedy_realloc-Grown a h block (b.used + length (x ∷ xs)) v.storage v.bounded small))
  where
    block : Block
    block = record { mem = b.buf; size = b.size }

    written : Outcome Block → Outcome Buf
    written o = elim o [
      | ok p ↦ ok (buf_write b.used (x ∷ xs) p)
      | err e ↦ err e
      | undefined ↦ undefined
    ]

    reaches : buf_push a b (x ∷ xs) ≡ written (greedy_realloc a block (b.used + length (x ∷ xs)))
    reaches = ground (arith, v, ap (λ n. written (greedy_realloc a block n)) no_wrap)
      where
        no_wrap : add_size b.used (length (x ∷ xs)) ≡ b.used + length (x ∷ xs)
        no_wrap = omega arith

    go :
        (o : Outcome Block)
        → Reallocates a (Grown block (b.used + length (x ∷ xs))) o
        → Reallocates a (λ b'. IsValid b' × (bytes b' ≡ bytes b ++ (x ∷ xs))) (written o)
    go (ok p) g = (buf_write-IsValid (x ∷ xs) v g, bytes-buf_write (x ∷ xs) v g)
    go (err e) g = g
    go undefined g = g

-- `shl_buf_pop` drops the last bytes, as many as were asked for, or all, and keeps the invariant.
pub buf_pop_lem :
    {b : Buf} (l : ℕ)
    → IsValid b
    → IsValid (buf_pop b l) × (bytes (buf_pop b l) ≡ take (length (bytes b) - l) (bytes b))
unfolding buf_pop
buf_pop_lem {b} l v = (
  record { storage = v.storage; bounded = v.bounded; used_in = ground (arith, v) },
  ap (λ k. take k b.buf) left
      ∙ sym (take-take (length (bytes b) - l) b.used b.buf (omega (arith, length-bytes v))),
)
  where
    left : sub_size b.used (if ltb b.used l then b.used else l) ≡ length (bytes b) - l
    left = ground (arith, v, length-bytes v)

module _ (buf : List ℕ) (n used : ℕ) (le : n ≤ used) (within : used ≤ length buf) where
  moved : List ℕ
  moved = blit buf 0 (slice buf n (used - n))

  length-moved : length moved ≡ length buf
  unfolding moved
  length-moved =
      length-blit buf 0 (slice buf n (used - n)) (omega (arith, length-slice buf n (used - n)))

  take-moved : take (used - n) moved ≡ drop n (take used buf)
  take-moved = list_ext 0 _ _ lengths same
    where
      lengths : length (take (used - n) moved) ≡ length (drop n (take used buf))
      lengths = omega (
        arith,
        length-take (used - n) moved,
        length-moved,
        length-drop n (take used buf),
        length-take used buf,
      )

      at : (i : ℕ) → i < used - n → get_or moved i 0 ≡ get_or buf (n + i) 0
      at i lt =
          unfold moved in
          ground (
            arith,
            get_or-blit buf 0 (slice buf n (used - n)) i,
            length-slice buf n (used - n),
            get_or-slice buf n (used - n) i,
          )

      same :
          (i : ℕ)
          → i < length (take (used - n) moved)
          → get_or (take (used - n) moved) i 0 ≡ get_or (drop n (take used buf)) i 0
      same i h =
          let lt : i < used - n = omega (arith, length-take (used - n) moved) in
          get_or-take 0 (used - n) moved i lt
          ∙ at i lt
          ∙ sym (get_or-take 0 used buf (n + i) (omega arith))
          ∙ sym (get_or-drop 0 n (take used buf) i)

-- `shl_buf_pull` drops the first bytes, as many as were asked for, or all, and keeps the invariant.
pub buf_pull_lem :
    {b : Buf} (l : ℕ)
    → IsValid b
    → IsValid (buf_pull b l) × (bytes (buf_pull b l) ≡ drop l (bytes b))
unfolding buf_pull moved
buf_pull_lem {b} l v = (
  record {
    storage =
        ap (λ k. length (blit b.buf 0 (slice b.buf n k))) left
        ∙ length-moved b.buf n b.used small within
        ∙ v.storage;
    bounded = v.bounded;
    used_in = ground (arith, v);
  },
  ap (λ k. take k (blit b.buf 0 (slice b.buf n k))) left
      ∙ take-moved b.buf n b.used small within
      ∙ all_or_l,
)
  where
    n : ℕ
    n = if ltb b.used l then b.used else l

    small : n ≤ b.used
    small = ground arith

    within : b.used ≤ length b.buf
    within = omega (arith, v)

    left : sub_size b.used n ≡ b.used - n
    left = ground (arith, v)

    all_or_l : drop n (bytes b) ≡ drop l (bytes b)
    all_or_l = elim (Bool-cases (ltb b.used l)) [
      | inl f ↦ rw f (
          drop-length (bytes b) b.used (omega (arith, length-bytes v))
          ∙ sym (drop-length (bytes b) l (omega (arith, length-bytes v, ltb→lt b.used l f))))
      | inr f ↦ rw f
    ]
