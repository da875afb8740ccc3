-- ===== src/Ring/Push.antt =====
-- `ring_resize`, `ring_grow` and `shl_ring_push` against the bytes held.
use libshl.Base.{
  Bool-cases, List, Option, [], ap, append-nil, arith, drop, false, if◌then◌else◌, inl, inr, leb,
  length, length-append, length-drop, ltb, none, refl, some, subst, sym, take, take_append,
  take-length, ℕ, ◌++◌, ◌+◌, ◌-◌, ◌<◌, ◌==◌, ◌^◌, ◌∙◌, ◌∷◌, ◌≡◌, ◌≤◌,
}
use libshl.Base.Memory.{
  Allocator, IsAllocator, Outcome, blit, blit-blit, enomem, err, length-slice, ok, slice, undefined,
}
use libshl.Base.Word.{add_size, sub_size}
use libshl.Macro.{align_power2}
use libshl.Macro.Align.{IsPower2Above, align_power2-IsPower2Above}
use libshl.Ring.{
  Ring, read_wrapped, resized_buf, ring_grow, ring_grow_to, ring_place, ring_push, ring_resize,
}
use libshl.Ring.Contents.{contents, length-contents, read_wrapped-contents}
use libshl.Ring.Place.{contents-ring_place, ring_place-IsValid}
use libshl.Ring.Valid.{IsRingSize, IsValid, power_bound}

-- Copying a ring's bytes to the front of a larger block keeps them.
module _ {r : Ring} (b : List ℕ) (v : IsValid r) (room : r.used ≤ length b) where
  resized_buf-read : resized_buf r b ≡ blit b 0 (read_wrapped r r.used)
  unfolding resized_buf read_wrapped
  resized_buf-read = elim (Bool-cases (leb r.used (sub_size r.size r.start))) [
    | inl e ↦ ground arith
    | inr e ↦ ground (
      arith,
      v,
      blit-blit b (slice r.buf r.start (r.size - r.start))
          (slice r.buf 0 (r.used - (r.size - r.start))),
      length-slice r.buf r.start (r.size - r.start),
      length-slice r.buf 0 (r.used - (r.size - r.start)),
    )
  ]

  resized_buf-contents : resized_buf r b ≡ contents r ++ drop r.used b
  resized_buf-contents =
      resized_buf-read
      ∙ ap (blit b 0) (
          read_wrapped-contents v r.used (omega arith)
          ∙ take-length (contents r) r.used (omega (arith, length-contents v)))
      ∙ ap (λ k. contents r ++ drop k b) (omega (arith, length-contents v))

  contents-resized :
      (p : ℕ)
      → contents (record { buf = resized_buf r b; size = p; start = 0; used = r.used }) ≡ contents r
  contents-resized p =
      ap (λ t. take r.used (t ++ [])) resized_buf-contents
      ∙ ap (take r.used) (append-nil (contents r ++ drop r.used b))
      ∙ ap (λ k. take k (contents r ++ drop r.used b)) (sym (length-contents v))
      ∙ take_append (contents r) (drop r.used b)

  length-resized_buf : length (resized_buf r b) ≡ length b
  length-resized_buf =
      ap length resized_buf-contents
      ∙ length-append (contents r) (drop r.used b)
      ∙ omega (arith, length-contents v, length-drop r.used b)

-- How a call that may fail for lack of memory ends: well, in a state that satisfies `P`, or with
-- -ENOMEM after a `malloc` that failed.
abbrev pub Succeeds {ℓ} : {A : Type ℓ} → Allocator → (A → Type 0) → Outcome A → Type 0
Succeeds a P (ok x) = P x
Succeeds a P (err e) = (e ≡ enomem) × (n : ℕ) × (a.malloc n ≡ none)
Succeeds a P undefined = ⊥

-- A valid ring with the same bytes and the given room.
pub record Grown (r : Ring) (add : ℕ) (r' : Ring) : Type 0 where
  pub valid : IsValid r'
  pub same : contents r' ≡ contents r
  pub room : r'.used + add ≤ r'.size
  pub same_used : r'.used ≡ r.used

module _ (a : Allocator) (h : IsAllocator a) where
  ring_resize-Grown :
      {r : Ring} (add p : ℕ)
      → IsValid r
      → r.used + add ≤ p
      → IsRingSize p
      → p ≤ 2 ^ 63
      → 0 < p
      → Succeeds a (Grown r add) (ring_resize a r p)
  unfolding ring_resize
  ring_resize-Grown {r} add p v fits q small pos = go (a.malloc p) refl
    where
      go :
          (m : Option (List ℕ))
          → a.malloc p ≡ m
          → Succeeds a (Grown r add) (elim m [
            | none ↦ err enomem
            | some b ↦ ok (record { buf = resized_buf r b; size = p; start = 0; used = r.used })
          ])
      go none e = (refl, p, e)
      go (some b) e =
          let n : length b ≡ p = h.malloc_length p b e in
          record {
            valid = record {
              storage = length-resized_buf b v (omega arith) ∙ n;
              power = q;
              bounded = small;
              start_in = inl pos;
              used_in = omega arith;
            };
            same = contents-resized b v (omega arith) p;
            room = fits;
            same_used = refl;
          }

  ring_grow_to-ring_resize :
      (r : Ring) (need p : ℕ)
      → align_power2 (if ltb need 4096 then 4096 else need) ≡ some p
      → 0 < p
      → ring_grow_to a r need ≡ ring_resize a r p
  unfolding ring_grow_to
  ring_grow_to-ring_resize r need p e pos = ground arith

  ring_grow_to-Grown :
      {r : Ring} (add need : ℕ)
      → IsValid r
      → need ≡ r.used + add
      → need ≤ 2 ^ 63
      → Succeeds a (Grown r add) (ring_grow_to a r need)
  ring_grow_to-Grown {r} add need v e small = go (
      align_power2-IsPower2Above (if ltb need 4096 then 4096 else need) (ground arith)
        (ground arith))
    where
      go :
          ((p : ℕ) × (align_power2 (if ltb need 4096 then 4096 else need) ≡ some p)
            × IsPower2Above (if ltb need 4096 then 4096 else need) p)
          → Succeeds a (Grown r add) (ring_grow_to a r need)
      go (p, g, up) =
          subst (Succeeds a (Grown r add))
            (sym (ring_grow_to-ring_resize r need p g (ground (arith, up))))
            (ring_resize-Grown add p v (ground (arith, up)) (inr (up.exponent, up.power, up.fits))
              (omega (arith, up, power_bound up.exponent up.fits)) (ground (arith, up)))

  ring_grow-Grown :
      {r : Ring} (add : ℕ)
      → IsValid r
      → 0 < add
      → r.used + add ≤ 2 ^ 63
      → Succeeds a (Grown r add) (ring_grow a r add)
  unfolding ring_grow
  ring_grow-Grown {r} add v pos small = elim (Bool-cases (leb add (sub_size r.size r.used))) [
    | inl e ↦
        rw (e, Succeeds)
          (record { valid = v; same = refl; room = ground (arith, v); same_used = refl })
    | inr e ↦
        rw (e, Succeeds)
          (elim (Bool-cases (leb (add_size r.used add) r.used)) [
            | inl f ↦ absurd (ground (arith, v))
            | inr f ↦
                rw (f, Succeeds)
                  (ring_grow_to-Grown add (add_size r.used add) v (omega arith) (omega arith))
          ])
  ]

  -- `shl_ring_push` appends exactly the given bytes and keeps the invariant, or returns -ENOMEM
  -- because an allocation failed; it is defined for up to 2^63 bytes in all.
  pub ring_push-appends :
      {r : Ring} (u8 : List ℕ)
      → IsValid r
      → r.used + length u8 ≤ 2 ^ 63
      → Succeeds a (λ r'. IsValid r' × (contents r' ≡ contents r ++ u8)) (ring_push a r u8)
  unfolding ring_push
  ring_push-appends {r} [] v small = (v, sym (append-nil (contents r)))
  ring_push-appends {r} (x ∷ xs) v small =
      rw (nonempty, Succeeds)
        (placed (ring_grow a r (length (x ∷ xs)))
          (ring_grow-Grown (length (x ∷ xs)) v (omega arith) small))
    where
      nonempty : (length (x ∷ xs) == 0) ≡ false
      nonempty = ground arith

      placed :
          (o : Outcome Ring)
          → Succeeds a (Grown r (length (x ∷ xs))) o
          → Succeeds a
              (λ r'. IsValid r' × (contents r' ≡ contents r ++ (x ∷ xs)))
              (elim o [
                | ok r' ↦ ok (ring_place r' (x ∷ xs))
                | err e ↦ err e
                | undefined ↦ undefined
              ])
      placed (ok r') g = (
        ring_place-IsValid (x ∷ xs) g.valid (omega (arith, g)) g.room,
        contents-ring_place (x ∷ xs) g.valid (omega (arith, g)) g.room
            ∙ ap (λ t. t ++ (x ∷ xs)) g.same,
      )
      placed (err e) g = g
      placed undefined g = g
