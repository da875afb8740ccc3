-- ===== src/Pty/Reads.antt =====
-- How much a dispatch reads.
use libshl.Base.{
  Bool, Bool-cases, List, [], ap, arith, false, if◌then◌else◌, inl, inr, length, refl, subst, suc,
  sym, true, zero, ℕ, ◌+◌, ◌<◌, ◌==◌, ◌∙◌, ◌∷◌, ◌≡◌, ◌⊎◌,
}
use libshl.Base.Memory.{Answer, Outcome, eagain, err, failed, gave, ok}
use libshl.Pty.Object.{ShlPty, pty_read, pty_read_loop, shl_pty_dispatch}

-- The reads from number `i` on gave `calls`, none of them empty.
abbrev pub Gave : (ℕ → Answer (List ℕ)) → ℕ → List (List ℕ) → Type 0
Gave read i [] = Unit
Gave read i (b ∷ calls) = (read i ≡ gave b) × (0 < length b) × Gave read (suc i) calls

-- A read that failed, or that gave nothing.
abbrev pub Stops : Answer (List ℕ) → Type 0
Stops (failed e) = Unit
Stops (gave b) = length b ≡ 0

-- What `num` reads from number `i` on give.
abbrev Ends : (ℕ → Answer (List ℕ)) → ℕ → ℕ → List (List ℕ) × Bool → Type 0
Ends read num i (calls, spent) =
    Gave read i calls
    × (((spent ≡ true) × (length calls ≡ num))
        ⊎ ((spent ≡ false) × (length calls < num) × Stops (read (i + length calls))))

-- What one read adds.
abbrev full : List ℕ → Bool → List (List ℕ) × Bool → List (List ℕ) × Bool
full b empty rest = if empty then ([], false) else (b ∷ rest.0, rest.1)

pty_read_loop-Ends :
    (read : ℕ → Answer (List ℕ)) (num i : ℕ) → Ends read num i (pty_read_loop read num i)
unfolding pty_read_loop
pty_read_loop-Ends read zero i = (tt, inl (refl, refl))
pty_read_loop-Ends read (suc num) i =
    go (read i) refl (pty_read_loop read num (suc i)) (pty_read_loop-Ends read num (suc i))
  where
    go :
        (a : Answer (List ℕ))
        → read i ≡ a
        → (rest : List (List ℕ) × Bool) → Ends read num (suc i) rest
        → Ends read
            (suc num)
            i
            (elim a [ failed e ↦ ([], false) | gave b ↦ full b (length b == 0) rest ])
    go (failed x) e rest q =
        (tt, inr (refl, omega arith, subst Stops (sym e ∙ ap read (omega arith)) tt))
    go (gave b) e rest q = elim (Bool-cases (length b == 0)) [
      | inl z ↦
          subst (λ t. Ends read (suc num) i (full b t rest)) (sym z)
            (
              tt,
              inr (refl, omega arith, subst Stops (sym e ∙ ap read (omega arith)) (ground arith)),
            )
      | inr z ↦
          subst (λ t. Ends read (suc num) i (full b t rest)) (sym z)
            (
              (e, ground arith, q.0),
              elim q.1 [
                | inl (s, n) ↦ inl (s, omega arith)
                | inr (s, n, w) ↦ inr (s, omega arith, subst (λ k. Stops (read k)) (omega arith) w)
              ],
            )
    ]

true-false : true ≡ false → ⊥
true-false e = cc

-- The callback gets what the first reads gave, in order, none of it empty. There are 50 such reads
-- and -EAGAIN is returned, or there are fewer, the next read failed or gave nothing, and 0 is returned.
pub shl_pty_dispatch-reads :
    (read : ℕ → Answer (List ℕ)) (writev : List ℕ → Answer ℕ) (pty : ShlPty)
    → Gave read 0 (shl_pty_dispatch read writev pty).input
      × ((((shl_pty_dispatch read writev pty).result ≡ err eagain)
            × (length (shl_pty_dispatch read writev pty).input ≡ 50))
          ⊎ (((shl_pty_dispatch read writev pty).result ≡ ok 0)
              × (length (shl_pty_dispatch read writev pty).input < 50)
              × Stops (read (length (shl_pty_dispatch read writev pty).input))))
unfolding shl_pty_dispatch pty_read
shl_pty_dispatch-reads read writev pty = go (pty_read_loop read 50 0) (pty_read_loop-Ends read 50 0)
  where
    result : Bool → Outcome ℕ
    result spent = if spent then err eagain else ok 0

    go :
        (l : List (List ℕ) × Bool)
        → Ends read 50 0 l
        → Gave read 0 l.0
          × (((result l.1 ≡ err eagain) × (length l.0 ≡ 50))
              ⊎ ((result l.1 ≡ ok 0) × (length l.0 < 50) × Stops (read (length l.0))))
    go (calls, true) (g, inl (s, n)) = (g, inl (refl, n))
    go (calls, true) (g, inr (s, n, w)) = absurd (true-false s)
    go (calls, false) (g, inl (s, n)) = absurd (true-false (sym s))
    go (calls, false) (g, inr (s, n, w)) =
        (g, inr (refl, n, subst (λ k. Stops (read k)) (omega arith) w))
