-- ===== src/Pty/Push.antt =====
-- The two copies of `ring_push`, by way of the ring of shl_ring.c.
use libshl.Ring.Valid.{IsValid}
use libshl.Ring.Contents.{contents}
use libshl.Base.{
  Bool-cases, List, [], ap, ap₂, arith, drop, drop-length, false, get_or, if◌then◌else◌, inl, inr,
  leb, leb→le, length, length-drop, list_ext, ltb, min, refl, subst, sym, take, take-append-drop,
  take-length, true, ℕ, ◌++◌, ◌+◌, ◌-◌, ◌<◌, ◌==◌, ◌∙◌, ◌∷◌, ◌≡◌, ◌≤◌, ◌⊎◌,
}
use libshl.Base.Memory.{blit}
use libshl.Base.Word.{add_size, sub_size}
use libshl.Pty.{PtyRing, pty_mask, pty_push_end, pty_push_front}
use libshl.Pty.Contents.{
  IsPtyRing, get_or-held_bytes, held_bytes, length-held_bytes, pty_mask-wrap, pty_mask_small,
}
use libshl.Ring.{Ring, pushed_buf, ring_mask, ring_place}
use libshl.Ring.Contents.{get_or-contents, length-contents}
use libshl.Ring.Place.{contents-ring_place, length-pushed_buf}
use libshl.Ring.Valid.{ring_mask-wrap, wrap}

-- The same bytes in the other representation.
abbrev counted : PtyRing → Ring
counted r = record { buf = r.buf; size = r.size; start = r.start; used = length (held_bytes r) }

module _ {r : PtyRing} (v : IsPtyRing r) where
  pub counted-IsValid : IsValid (counted r)
  counted-IsValid = record {
    storage = v.storage;
    power = v.power;
    bounded = v.bounded;
    start_in = ground (arith, v);
    used_in = ground (arith, v, length-held_bytes v);
  }

  contents-counted : contents (counted r) ≡ held_bytes r
  contents-counted = list_ext 0 _ _ (length-contents counted-IsValid) bytes
    where
      bytes :
          (i : ℕ)
          → i < length (contents (counted r))
          → get_or (contents (counted r)) i 0 ≡ get_or (held_bytes r) i 0
      bytes i h =
          let q : i < length (held_bytes r) = omega (arith, length-contents counted-IsValid) in
          get_or-contents counted-IsValid i q ∙ sym (get_or-held_bytes v i q)

-- The ring behind both copies.
abbrev extended : PtyRing → List ℕ → PtyRing
extended r u8 = record r {
  buf = pushed_buf r.buf r.size r.end u8;
  end = wrap r.size (r.end + length u8);
}

module _ {r : PtyRing} (u8 : List ℕ) (v : IsPtyRing r)
    (room : length (held_bytes r) + length u8 < r.size) where
  -- The first copy, by the number of bytes that it takes.
  abbrev first_copy : ℕ → ℕ → PtyRing × List ℕ
  first_copy l m = (record r { buf = blit r.buf r.end (take l u8); end = m }, drop l u8)

  push_end-first_copy :
      (l : ℕ)
      → leb r.start r.end ≡ true
      → 0 < r.size
      → r.end < r.size
      → l ≡ min (length u8) (r.size - r.end)
      → pty_push_end r u8 ≡ first_copy l (wrap r.size (r.end + l))
  unfolding pty_push_end
  push_end-first_copy l e pos inside q =
      started
      ∙ ap (first_copy l) (
          ap (pty_mask r) (omega (arith, v))
          ∙ pty_mask-wrap {r = r} (r.end + l) v pos (omega (arith, v)))
    where
      count :
          (if ltb (length u8) (sub_size r.size r.end) then length u8 else sub_size r.size r.end) ≡ l
      count = ground (arith, v)

      started : pty_push_end r u8 ≡ first_copy l (pty_mask r (add_size r.end l))
      started =
          unfold pty_push_end in rw e (ap (λ k. first_copy k (pty_mask r (add_size r.end k))) count)

  -- The second one, for bytes that are left.
  push_front-rest :
      (q : PtyRing) (rest : List ℕ)
      → 0 < length rest
      → pty_push_front (q, rest)
        ≡ record q { buf = blit q.buf q.end rest; end = pty_mask q (add_size q.end (length rest)) }
  unfolding pty_push_front
  push_front-rest q [] pos = absurd (omega arith)
  push_front-rest q (x ∷ rest) pos = ground arith

  push_shape : pty_push_front (pty_push_end r u8) ≡ extended r u8
  push_shape = elim v.inside [
    | inl (a, b) ↦ elim (Bool-cases (leb r.start r.end)) [
      | inl e ↦ elim (Bool-cases (leb (length u8) (r.size - r.end))) [
        | inl f ↦ one_copy a b e (leb→le (length u8) (r.size - r.end) f)
        | inr f ↦ two_copies a b e (ground arith)
      ]
      | inr e ↦ in_front a b e
    ]
    | inr (a, b, c) ↦ absurd (omega arith)
  ]
    where
      one_copy :
          r.start < r.size
          → r.end < r.size
          → leb r.start r.end ≡ true
          → length u8 ≤ r.size - r.end
          → pty_push_front (pty_push_end r u8) ≡ extended r u8
      one_copy a b e f =
          ap pty_push_front (push_end-first_copy (length u8) e (omega arith) b (omega arith))
          ∙ ap pty_push_front (
              ap₂
                (λ t d.
                  (record r { buf = blit r.buf r.end t; end = wrap r.size (r.end + length u8) }, d))
                (take-length u8 (length u8) (omega arith))
                (drop-length u8 (length u8) (omega arith)))
          ∙ unfold pty_push_front pushed_buf in ground (arith, v)

      two_copies :
          r.start < r.size
          → r.end < r.size
          → leb r.start r.end ≡ true
          → r.size - r.end < length u8
          → pty_push_front (pty_push_end r u8) ≡ extended r u8
      two_copies a b e f =
          ap pty_push_front (push_end-first_copy (r.size - r.end) e (omega arith) b (omega arith))
          ∙ push_front-rest (first_copy (r.size - r.end) (wrap r.size (r.end + (r.size - r.end)))).0
              (drop (r.size - r.end) u8) (omega (arith, length-drop (r.size - r.end) u8))
          ∙ ap₂ (λ t m. record r { buf = t; end = m }) bufs ends
        where
          same_mask :
              (k : ℕ)
              → pty_mask (first_copy (r.size - r.end) (wrap r.size (r.end + (r.size - r.end)))).0 k
                ≡ pty_mask r k
          same_mask k = unfold pty_mask in refl

          front : wrap r.size (r.end + (r.size - r.end)) ≡ 0
          front = ground (arith, v)

          bufs :
              blit
                (blit r.buf r.end (take (r.size - r.end) u8))
                (wrap r.size (r.end + (r.size - r.end)))
                (drop (r.size - r.end) u8)
              ≡ pushed_buf r.buf r.size r.end u8
          bufs = rw front (unfold pushed_buf in ground (arith, v))

          ends :
              pty_mask (first_copy (r.size - r.end) (wrap r.size (r.end + (r.size - r.end)))).0 (
                add_size
                  (wrap r.size (r.end + (r.size - r.end)))
                  (length (drop (r.size - r.end) u8)))
              ≡ wrap r.size (r.end + length u8)
          ends =
              same_mask _
              ∙ ap (pty_mask r)
                  {x = add_size (wrap r.size (r.end + (r.size - r.end)))
                    (length (drop (r.size - r.end) u8))}
                  {y = length u8 - (r.size - r.end)}
                  (omega (arith, v, front, length-drop (r.size - r.end) u8))
              ∙ pty_mask_small {r = r} (length u8 - (r.size - r.end)) v
                  (inl (ground (arith, v, length-held_bytes v)))
              ∙ ground (arith, v, length-held_bytes v)

      in_front :
          r.start < r.size
          → r.end < r.size
          → leb r.start r.end ≡ false
          → pty_push_front (pty_push_end r u8) ≡ extended r u8
      in_front a b e = kept ∙ front_copy (Bool-cases (length u8 == 0))
        where
          kept : pty_push_front (pty_push_end r u8) ≡ pty_push_front (r, u8)
          kept = unfold pty_push_end in rw e refl

          fits : r.end + length u8 < r.size
          fits = ground (arith, v, length-held_bytes v)

          same_buf :
              length u8 ≤ r.size - r.end → pushed_buf r.buf r.size r.end u8 ≡ blit r.buf r.end u8
          same_buf q = unfold pushed_buf in ground (arith, v)

          nothing : r.end ≡ r.end + 0
          nothing = omega arith

          no_bytes : u8 ≡ [] → r ≡ record r { buf = blit r.buf r.end u8; end = r.end + length u8 }
          no_bytes q = rw q (
              ap₂ (λ t m. record r { buf = t; end = m })
                (sym (take-append-drop r.end r.buf)
                  ∙ ap (λ k. take r.end r.buf ++ drop k r.buf) nothing)
                nothing)

          front_copy :
              ((length u8 == 0) ≡ true) ⊎ ((length u8 == 0) ≡ false)
              → pty_push_front (r, u8) ≡ extended r u8
          front_copy c =
              front_written c
              ∙ ap₂ (λ t m. record r { buf = t; end = m }) (sym (same_buf (omega (arith, fits))))
                  (ground (arith, fits))
            where
              front_written :
                  ((length u8 == 0) ≡ true) ⊎ ((length u8 == 0) ≡ false)
                  → pty_push_front (r, u8)
                    ≡ record r { buf = blit r.buf r.end u8; end = r.end + length u8 }
              front_written (inl z) =
                  unfold pty_push_front in rw z (no_bytes (sym (take-length u8 0 (ground arith))))
              front_written (inr z) =
                  push_front-rest r u8 (ground arith)
                  ∙ ap (λ m. record r { buf = blit r.buf r.end u8; end = m })
                      (ap (pty_mask r) (omega (arith, v))
                        ∙ pty_mask_small {r = r} (r.end + length u8) v (inl fits))

  end_mask : ring_mask (counted r) (add_size r.start (length (held_bytes r))) ≡ r.end
  end_mask =
      ap (ring_mask (counted r)) (omega (arith, v))
      ∙ ring_mask-wrap (r.start + length (held_bytes r)) (counted-IsValid v) (omega arith)
          (omega (arith, v))
      ∙ ground (arith, v, length-held_bytes v)

  extended-IsPtyRing : IsPtyRing (extended r u8)
  extended-IsPtyRing = record {
    storage =
        length-pushed_buf r.buf r.size r.end u8 v.storage v.bounded (omega (arith, v))
          (omega arith);
    power = v.power;
    bounded = v.bounded;
    inside = ground (arith, v);
  }

  extended-ring_place : counted (extended r u8) ≡ ring_place (counted r) u8
  unfolding ring_place
  extended-ring_place =
      ap₂ (λ p k. record (counted r) { buf = pushed_buf r.buf r.size p u8; used = k })
        (sym end_mask)
        (ground (arith, v, length-held_bytes v, length-held_bytes extended-IsPtyRing))

  -- The copies of `ring_push` append the bytes where there is room for them and one byte more.
  pub pty_push-appends :
      IsPtyRing (pty_push_front (pty_push_end r u8))
      × (held_bytes (pty_push_front (pty_push_end r u8)) ≡ held_bytes r ++ u8)
  pty_push-appends =
      subst (λ x. IsPtyRing x × (held_bytes x ≡ held_bytes r ++ u8)) (sym push_shape)
        (
          extended-IsPtyRing,
          sym (contents-counted extended-IsPtyRing)
              ∙ ap contents extended-ring_place
              ∙ contents-ring_place u8 (counted-IsValid v) (omega arith) (omega arith)
              ∙ ap (λ t. t ++ u8) (contents-counted v),
        )
