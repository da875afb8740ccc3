-- ===== src/Pty/References.antt =====
-- The references of a PTY.
use libshl.Base.{
  List, Option, [], ap, append-nil, arith, false, length, none, refl, some, suc, zero, ℕ, ◌++◌, ◌+◌,
  ◌<◌, ◌==◌, ◌^◌, ◌∙◌, ◌∷◌, ◌≡◌,
}
use libshl.Base.Word.{sub_size}
use libshl.Pty.Object.{
  Effect, ShlPty, closes, frees_pty, frees_ring, shl_pty_close, shl_pty_ref, shl_pty_unref,
}

-- A client takes a reference, or drops one.
pub data RefCall : Type 0 where
  take_ref : RefCall
  drop_ref : RefCall

-- The effects before those of the calls that follow.
abbrev effected :
    List Effect → Option (Option ShlPty × List Effect) → Option (Option ShlPty × List Effect)
effected before none = none
effected before (some (o, effects)) = some (o, before ++ effects)

-- A sequence of calls from an object or a freed one: the object after it and all effects; `none` is
-- a call on a freed object.
unfoldable pub pty_refs : Option ShlPty → List RefCall → Option (Option ShlPty × List Effect)
pty_refs o [] = some (o, [])
pty_refs none (c ∷ cs) = none
pty_refs (some pty) (take_ref ∷ cs) = pty_refs (some (shl_pty_ref pty)) cs
pty_refs (some pty) (drop_ref ∷ cs) =
    let (o, effects) = shl_pty_unref pty in effected effects (pty_refs o cs)

-- The references that clients hold; `none` is a call of one who holds none.
abbrev pub references : ℕ → List RefCall → Option ℕ
references n [] = some n
references zero (c ∷ cs) = none
references (suc n) (take_ref ∷ cs) = references (suc (suc n)) cs
references (suc n) (drop_ref ∷ cs) = references n cs

-- The effects of the end of an object.
abbrev pub destroyed : Option ℕ → List Effect
destroyed none = frees_ring ∷ frees_pty ∷ []
destroyed (some fd) = closes fd ∷ frees_ring ∷ frees_pty ∷ []

-- What remains of an object that has `n` references.
abbrev pub remains : ShlPty → ℕ → Option ShlPty × List Effect
remains pty zero = (none, destroyed pty.fd)
remains pty (suc n) = (some (record pty { ref = suc n }), [])

nonzero : (n : ℕ) → (suc n == 0) ≡ false
nonzero n = ground arith

none-some : {x : ℕ} → none ≡ some x → ⊥
none-some e = cc

some_inj : {x y : ℕ} → some x ≡ some y → x ≡ y
some_inj e = cc

abbrev joined : List RefCall → Option ShlPty × List Effect → Option (Option ShlPty × List Effect)
joined cs (o, before) = effected before (pty_refs o cs)

module _ (pty : ShlPty) where
  shl_pty_ref-suc :
      (n : ℕ)
      → suc (suc n) < 2 ^ 64
      → shl_pty_ref (record pty { ref = suc n }) ≡ record pty { ref = suc (suc n) }
  unfolding shl_pty_ref
  shl_pty_ref-suc n small = rw (nonzero n) (ap (λ k. record pty { ref = k }) (omega arith))

  shl_pty_unref_last : shl_pty_unref (record pty { ref = 1 }) ≡ remains pty 0
  unfolding shl_pty_unref shl_pty_close
  shl_pty_unref_last = go pty.fd
    where
      go : (fd : Option ℕ) → shl_pty_unref (record pty { ref = 1; fd = fd }) ≡ (none, destroyed fd)
      go none = refl
      go (some fd) = refl

  shl_pty_unref-suc :
      (n : ℕ) → suc n < 2 ^ 64 → shl_pty_unref (record pty { ref = suc n }) ≡ remains pty n
  unfolding shl_pty_unref
  shl_pty_unref-suc zero small = shl_pty_unref_last
  shl_pty_unref-suc (suc n) small = rw (nonzero (suc n)) (rw less (rw (nonzero n) refl))
    where
      less : sub_size (suc (suc n)) 1 ≡ suc n
      less = omega arith

  pty_refs-suc :
      (n : ℕ) (cs : List RefCall) (k : ℕ)
      → references (suc n) cs ≡ some k
      → suc n + length cs < 2 ^ 64
      → pty_refs (some (record pty { ref = suc n })) cs ≡ some (remains pty k)
  unfolding pty_refs
  pty_refs-suc n [] k e small = ap (λ j. some (remains pty j)) (some_inj e)
  pty_refs-suc n (take_ref ∷ cs) k e small =
      ap (λ p. pty_refs (some p) cs) (shl_pty_ref-suc n (omega arith))
      ∙ pty_refs-suc (suc n) cs k e (omega arith)
  pty_refs-suc zero (drop_ref ∷ []) k e small =
      ap (joined []) shl_pty_unref_last
      ∙ ap (λ t. some (none, t)) (append-nil (destroyed pty.fd))
      ∙ ap (λ j. some (remains pty j)) (some_inj e)
  pty_refs-suc zero (drop_ref ∷ c ∷ cs) k e small = absurd (none-some e)
  pty_refs-suc (suc n) (drop_ref ∷ cs) k e small =
      ap (joined cs) (shl_pty_unref-suc (suc n) (omega arith))
      ∙ ap (effected []) (pty_refs-suc n cs k e (omega arith))

-- Any clients of an object that take and drop references, none of them one that it does not hold,
-- and fewer than 2^64 in all: while references are left the object lives, counts them, and nothing is
-- closed or freed; with the last one the descriptor is closed if it is open, and the ring and the
-- object are freed, each once.
pub pty_refs_lem :
    (pty : ShlPty) (cs : List RefCall) (k : ℕ)
    → 0 < pty.ref
    → references pty.ref cs ≡ some k
    → pty.ref + length cs < 2 ^ 64
    → pty_refs (some pty) cs ≡ some (remains pty k)
pty_refs_lem pty cs k pos e small = go pty.ref refl pos e
  where
    go :
        (n : ℕ)
        → pty.ref ≡ n
        → 0 < n
        → references n cs ≡ some k
        → pty_refs (some pty) cs ≡ some (remains pty k)
    go zero q z r = absurd (omega arith)
    go (suc n) q z r =
        ap (λ j. pty_refs (some (record pty { ref = j })) cs) q
        ∙ pty_refs-suc pty n cs k r (omega arith)
