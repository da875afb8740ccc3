-- ===== src/Pty/Descriptors.antt =====
-- What the functions behind `shl_pty_open` do to the descriptors of a process.
use libshl.Base.{
  Bool-cases, List, [], ap, arith, false, inl, inr, refl, subst, suc, true, zero, ℕ, ◌<◌, ◌==◌, ◌∙◌,
  ◌∷◌, ◌≡◌, ◌≤◌,
}
use libshl.Base.Memory.{Answer, Outcome, err, failed, gave, ok, undefined}
use libshl.Pty.Open.{
  ChildSystem, Process, System, add_fd, attempt, close_fd, pty_init_child, pty_setup_child, remove,
}

-- `n` is not among the descriptors.
abbrev pub Fresh : ℕ → List ℕ → Type 0
Fresh n [] = Unit
Fresh n (x ∷ xs) = ((n == x) ≡ false) × Fresh n xs

-- An answer that gives a value gives one with the property.
abbrev pub Gives {ℓ} : {A : Type ℓ} → (A → Type 0) → Answer A → Type 0
Gives P (failed e) = Unit
Gives P (gave a) = P a

-- The system gives only descriptors that are not open, in the parent and in the child, which has the
-- descriptor and the writing end of the pipe; and those of the pipe are not standard ones.
abbrev pub IsSystem : System → List ℕ → Type 0
IsSystem s fds =
    Gives
      (λ fd.
        Fresh fd fds
        × Gives
            (λ comm.
              Fresh comm.0 (fd ∷ fds)
              × Fresh comm.1 (comm.0 ∷ fd ∷ fds)
              × (2 < comm.1)
              × Gives (λ slave. Fresh slave (comm.1 ∷ fd ∷ fds)) s.child.open_slave)
            s.pipe2)
      s.posix_openpt

remove-Fresh : (n : ℕ) (xs : List ℕ) → Fresh n xs → remove n xs ≡ xs
remove-Fresh n [] h = refl
remove-Fresh n (x ∷ xs) (e, h) = rw e (ap (λ t. x ∷ t) (remove-Fresh n xs h))

pub remove_head : (n : ℕ) (xs : List ℕ) → Fresh n xs → remove n (n ∷ xs) ≡ xs
remove_head n xs h = rw (same n) (remove-Fresh n xs h)
  where
    same : (k : ℕ) → (k == k) ≡ true
    same k = ground arith

pub remove_other : (n x : ℕ) (xs : List ℕ) → (n == x) ≡ false → remove n (x ∷ xs) ≡ x ∷ remove n xs
remove_other n x xs e = rw e refl

pub Fresh-remove : (n m : ℕ) (xs : List ℕ) → Fresh n xs → Fresh n (remove m xs)
Fresh-remove n m [] h = tt
Fresh-remove n m (x ∷ xs) (e, h) = elim (Bool-cases (m == x)) [
  | inl q ↦ rw q (Fresh-remove n m xs h)
  | inr q ↦ rw q (e, Fresh-remove n m xs h)
]

pub eq_comm : (n m : ℕ) → (n == m) ≡ false → (m == n) ≡ false
eq_comm n m e = ground arith

-- The descriptors but the standard ones.
abbrev pub above_std : List ℕ → List ℕ
above_std xs = remove 2 (remove 1 (remove 0 xs))

-- The descriptors when the standard ones are replaced.
abbrev pub std : List ℕ → List ℕ
std xs = 2 ∷ 1 ∷ 0 ∷ above_std xs

above_std_high : (x : ℕ) (xs : List ℕ) → 2 < x → above_std (x ∷ xs) ≡ x ∷ above_std xs
above_std_high x xs h = ground arith

pub above_std_low : (x : ℕ) (xs : List ℕ) → x ≤ 2 → above_std (x ∷ xs) ≡ above_std xs
above_std_low zero xs h = refl
above_std_low (suc zero) xs h = refl
above_std_low (suc (suc zero)) xs h = refl
above_std_low (suc (suc (suc x))) xs h = absurd (omega arith)

remove_high :
    (n : ℕ) (xs : List ℕ) → 2 < n → remove n (std xs) ≡ 2 ∷ 1 ∷ 0 ∷ remove n (above_std xs)
remove_high n xs h = ground arith

pub remove-std : (n : ℕ) (xs : List ℕ) → 2 < n → Fresh n xs → remove n (std (n ∷ xs)) ≡ std xs
remove-std n xs h f =
    remove_high n (n ∷ xs) h
    ∙ ap (λ t. 2 ∷ 1 ∷ 0 ∷ t)
        (ap (remove n) (above_std_high n xs h)
          ∙ remove_head n (above_std xs)
              (Fresh-remove n 2 _ (Fresh-remove n 1 _ (Fresh-remove n 0 xs f))))

-- The end of `pty_init_child`, which opens nothing but what it returns.
abbrev pub Inits : ChildSystem → Process → Outcome ℕ × Process → Type 0
Inits s p (ok slave, q) = (s.open_slave ≡ gave slave) × (q ≡ add_fd slave p)
Inits s p (err e, q) = q ≡ p
Inits s p (undefined, q) = ⊥

abbrev pub Sets : Process → Outcome ℕ × Process → Type 0
Sets p (ok x, q) = q ≡ record p { fds = std p.fds }
Sets p (err e, q) = Unit
Sets p (undefined, q) = ⊥

module _ (s : ChildSystem) (p : Process) where
  attempt-Inits :
      (a : Answer ℕ) (undo : Process) (k : ℕ → Outcome ℕ × Process)
      → undo ≡ p
      → ((r : ℕ) → a ≡ gave r → Inits s p (k r))
      → Inits s p (attempt a undo k)
  attempt-Inits (failed e) undo k u h = u
  attempt-Inits (gave r) undo k u h = h r refl

  pub pty_init_child-Inits :
      Gives (λ slave. Fresh slave p.fds) s.open_slave → Inits s p (pty_init_child s p)
  unfolding pty_init_child
  pty_init_child-Inits h = attempt-Inits s.sigprocmask p _ refl (λ r _.
      attempt-Inits s.grantpt p _ refl (λ r _. attempt-Inits s.unlockpt p _ refl (λ r _.
        attempt-Inits s.ptsname p _ refl (λ r _. attempt-Inits s.open_slave p _ refl (λ slave e.
          attempt-Inits s.setsid _ _ (closed slave (subst (Gives _) e h)) (λ r _.
            attempt-Inits s.tiocsctty _ _ (closed slave (subst (Gives _) e h))
              (λ r _. (e, refl))))))))
    where
      closed : (slave : ℕ) → Fresh slave p.fds → close_fd slave (add_fd slave p) ≡ p
      closed slave f = ap (λ t. record p { fds = t }) (remove_head slave p.fds f)

  attempt-Sets :
      (a : Answer ℕ) (undo : Process) (k : ℕ → Outcome ℕ × Process)
      → ((r : ℕ) → Sets p (k r))
      → Sets p (attempt a undo k)
  attempt-Sets (failed e) undo k h = tt
  attempt-Sets (gave r) undo k h = h r

  pub pty_setup_child-Sets : (w h : ℕ) → Sets p (pty_setup_child s w h p)
  unfolding pty_setup_child
  pty_setup_child-Sets w h = attempt-Sets s.tcgetattr p _ (λ r. attempt-Sets s.tcsetattr p _ (λ r.
      attempt-Sets (s.tiocswinsz w h) p _ (λ r.
        attempt-Sets (s.dup2 0) p _
          (λ r. attempt-Sets (s.dup2 1) _ _ (λ r. attempt-Sets (s.dup2 2) _ _ (λ r. refl))))))
