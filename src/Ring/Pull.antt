-- ===== src/Ring/Pull.antt =====
-- Removing bytes from the front.
use libshl.Base.{
  Bool-cases, ap, ap₂, arith, drop, get_or, get_or-drop, if◌then◌else◌, inl, inr, length,
  length-drop, list_ext, ltb, min, refl, sym, ℕ, ◌+◌, ◌-◌, ◌<◌, ◌==◌, ◌∙◌, ◌≡◌,
}
use libshl.Ring.{Ring, ring_mask, ring_pull}
use libshl.Ring.Contents.{contents, get_or-contents, length-contents}
use libshl.Ring.Valid.{IsValid, ring_mask-wrap, ring_mask-zero, wrap}

module _ {r : Ring} (n : ℕ) (v : IsValid r) where
  abbrev pub taken : ℕ
  taken = if ltb r.used n then r.used else n

  taken-min : taken ≡ min r.used n
  taken-min = ground arith

  -- A ring with no buffer keeps its start at 0.
  pulled_start : (ring_pull r n).start ≡ (if 0 == r.size then 0 else wrap r.size (r.start + taken))
  unfolding ring_pull
  pulled_start = elim (Bool-cases (0 == r.size)) [
    | inl e ↦ rw e (ring_mask-zero r _ (ground (arith, v)))
    | inr e ↦ rw e (
        ap (ring_mask r) (ground (arith, v))
        ∙ ring_mask-wrap (r.start + taken) v (ground arith) (ground (arith, v)))
  ]

  pub pulled_used : (ring_pull r n).used ≡ r.used - taken
  unfolding ring_pull
  pulled_used = ground (arith, v)

  pub ring_pull-IsValid : IsValid (ring_pull r n)
  unfolding ring_pull
  ring_pull-IsValid = record {
    storage = v.storage;
    power = v.power;
    bounded = v.bounded;
    start_in = ground (arith, v, pulled_start, taken-min);
    used_in = omega (arith, v, pulled_used);
  }

  pulled_size : (ring_pull r n).size ≡ r.size
  unfolding ring_pull
  pulled_size = refl

  pulled_buf : (ring_pull r n).buf ≡ r.buf
  unfolding ring_pull
  pulled_buf = refl

  pulled_length : length (contents (ring_pull r n)) ≡ r.used - min r.used n
  pulled_length = omega (arith, length-contents ring_pull-IsValid, pulled_used, taken-min)

  pulled_index :
      (i : ℕ)
      → i < r.used - min r.used n
      → wrap r.size ((ring_pull r n).start + i) ≡ wrap r.size (r.start + (n + i))
  pulled_index i h = ground (arith, v, pulled_start, taken-min)

  -- `shl_ring_pull` removes the oldest bytes, as many as were asked for, or all.
  pub contents-ring_pull : contents (ring_pull r n) ≡ drop n (contents r)
  contents-ring_pull = list_ext 0 _ _ lengths bytes
    where
      lengths : length (contents (ring_pull r n)) ≡ length (drop n (contents r))
      lengths = omega (arith, pulled_length, length-drop n (contents r), length-contents v)

      bytes :
          (i : ℕ)
          → i < length (contents (ring_pull r n))
          → get_or (contents (ring_pull r n)) i 0 ≡ get_or (drop n (contents r)) i 0
      bytes i p =
          let q : i < r.used - min r.used n = omega (arith, pulled_length) in
          get_or-contents ring_pull-IsValid i (omega (arith, pulled_used, taken-min))
          ∙ ap₂ (λ b k. get_or b k 0) pulled_buf
              (ap (λ s. wrap s ((ring_pull r n).start + i)) pulled_size ∙ pulled_index i q)
          ∙ sym (get_or-contents v (n + i) (omega arith))
          ∙ sym (get_or-drop 0 n (contents r) i)
