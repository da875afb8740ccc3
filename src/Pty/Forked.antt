-- ===== src/Pty/Forked.antt =====
-- How `shl_pty_open` leaves the process from the fork on.
use libshl.Base.{
  Bool, Bool-cases, List, Option, [], ap, ap₂, arith, false, if◌then◌else◌, inl, inr, ltb, none,
  refl, some, subst, suc, sym, true, ℕ, ◌-◌, ◌<◌, ◌==◌, ◌∙◌, ◌∷◌, ◌≡◌, ◌⊎◌,
}
use libshl.Base.Memory.{Answer, Outcome, einval, err, errno, failed, gave, ok, undefined}
use libshl.Pty.Descriptors.{
  Fresh, Gives, Inits, Sets, above_std_low, eq_comm, pty_init_child-Inits, pty_setup_child-Sets,
  remove-std, remove_head, remove_other, std,
}
use libshl.Pty.Object.{ShlPty}
use libshl.Pty.Open.{
  Opening, Process, System, add_fd, close_fd, exited, free_block, in_child, open_child, open_forked,
  open_parent, opened, pty_init_child, pty_recv, pty_send, pty_setup_child, refused, remove,
  shl_pty_setup, waiting,
}
use libshl.Quote.Decode.{written}

-- The object that `shl_pty_open` makes.
abbrev pub new_pty : ℕ → ℕ → ShlPty
new_pty fd pid = record {
  ref = 1;
  fd = some fd;
  child = pid;
  out_buf = record { buf = []; size = 0; start = 0; end = 0 };
}

-- An error leaves the process as it was. The parent of a child that has set itself up holds the object
-- with one reference, its block and the master descriptor, and nothing else. The child holds no
-- block, and the descriptors from before, the standard ones replaced. It exits otherwise. Only what
-- the system keeps asking to try again is waited for.
abbrev pub Ends : System → Process → Opening → Type 0
Ends s p (refused e q) = q ≡ p
Ends s p (opened pty pid q) =
    (s.forked ≡ gave pid)
    × (pty_recv s.read ≡ some shl_pty_setup)
    × (fd : ℕ) × (s.posix_openpt ≡ gave fd)
    × (pty ≡ new_pty fd pid)
    × (q ≡ record { fds = fd ∷ p.fds; blocks = suc p.blocks })
Ends s p (in_child q) = (s.forked ≡ gave 0) × (q ≡ record p { fds = std p.fds })
Ends s p exited = s.forked ≡ gave 0
Ends s p waiting = (pty_recv s.read ≡ none) ⊎ (pty_send s.child.write ≡ none)

module _ (s : System) (p : Process) (fd : ℕ) (comm : ℕ × ℕ) (at_fd : Fresh fd p.fds)
    (at_0 : Fresh comm.0 (fd ∷ p.fds)) (at_1 : Fresh comm.1 (comm.0 ∷ fd ∷ p.fds))
    (high : 2 < comm.1)
    (at_slave : Gives (λ slave. Fresh slave (comm.1 ∷ fd ∷ p.fds)) s.child.open_slave)
    (given : s.posix_openpt ≡ gave fd) where
  -- The process at the fork.
  abbrev forking : Process
  forking = record { fds = comm.1 ∷ comm.0 ∷ fd ∷ p.fds; blocks = suc p.blocks }

  freed : suc p.blocks - 1 ≡ p.blocks
  freed = omega arith

  closed_parent : remove comm.0 (remove comm.1 forking.fds) ≡ fd ∷ p.fds
  closed_parent =
      ap (remove comm.0) (remove_head comm.1 (comm.0 ∷ fd ∷ p.fds) at_1)
      ∙ remove_head comm.0 (fd ∷ p.fds) at_0

  closed_0 : remove comm.0 forking.fds ≡ comm.1 ∷ fd ∷ p.fds
  closed_0 =
      remove_other comm.0 comm.1 (comm.0 ∷ fd ∷ p.fds) (eq_comm comm.1 comm.0 at_1.0)
      ∙ ap (λ t. comm.1 ∷ t) (remove_head comm.0 (fd ∷ p.fds) at_0)

  closed_all : remove fd (fd ∷ p.fds) ≡ p.fds
  closed_all = remove_head fd p.fds at_fd

  left_with :
      {xs ys : List ℕ}
      → xs ≡ ys
      → record { fds = xs; blocks = suc p.blocks - 1 } ≡ record p { fds = ys }
  left_with e = ap₂ (λ x k. record { fds = x; blocks = k }) e freed

  open_parent-Ends :
      (pid : ℕ) → s.forked ≡ gave pid → Ends s p (open_parent s.read comm fd pid forking)
  unfolding open_parent
  open_parent-Ends pid e = go (pty_recv s.read) refl
    where
      chosen : Bool → Opening
      chosen b =
          if b
          then opened (new_pty fd pid) pid (close_fd comm.0 (close_fd comm.1 forking))
          else refused einval (free_block (close_fd fd (close_fd comm.0 (close_fd comm.1 forking))))

      go :
          (r : Option ℕ)
          → pty_recv s.read ≡ r
          → Ends s p (elim r [ none ↦ waiting | some d ↦ chosen (d == shl_pty_setup) ])
      go none q = inl q
      go (some d) q = elim (Bool-cases (d == shl_pty_setup)) [
        | inl c ↦
            subst (λ b. Ends s p (chosen b)) (sym c)
              (
                e,
                q ∙ ap (λ k. some k) (ground arith),
                fd,
                given,
                refl,
                ap (λ x. record { fds = x; blocks = suc p.blocks }) closed_parent,
              )
        | inr c ↦
            subst (λ b. Ends s p (chosen b)) (sym c)
              (left_with (ap (remove fd) closed_parent ∙ closed_all))
      ]

  -- The descriptors of the child at its end.
  closed_child :
      (slave : ℕ)
      → Fresh slave (comm.1 ∷ fd ∷ p.fds)
      → remove comm.1 (
          if ltb 2 slave
          then remove slave (std (slave ∷ comm.1 ∷ p.fds))
          else std (slave ∷ comm.1 ∷ p.fds))
        ≡ std p.fds
  closed_child slave f =
      ap (remove comm.1) (elim (Bool-cases (ltb 2 slave)) [
        | inl e ↦ ap kept e ∙ remove-std slave (comm.1 ∷ p.fds) (ground arith) (f.0, f.1.1)
        | inr e ↦
            ap kept e
            ∙ ap (λ t. 2 ∷ 1 ∷ 0 ∷ t) (above_std_low slave (comm.1 ∷ p.fds) (ground arith))
      ])
      ∙ remove-std comm.1 p.fds high at_1.1.1
    where
      kept : Bool → List ℕ
      kept b =
          if b then remove slave (std (slave ∷ comm.1 ∷ p.fds)) else std (slave ∷ comm.1 ∷ p.fds)

  -- The child without its block and the reading end of the pipe.
  abbrev child : Process
  child = record { fds = comm.1 ∷ fd ∷ p.fds; blocks = p.blocks }

  closed_fd :
      (slave : ℕ)
      → Fresh slave (comm.1 ∷ fd ∷ p.fds)
      → remove fd (slave ∷ comm.1 ∷ fd ∷ p.fds) ≡ slave ∷ comm.1 ∷ p.fds
  closed_fd slave f =
      remove_other fd slave (comm.1 ∷ fd ∷ p.fds) (eq_comm slave fd f.1.0)
      ∙ ap (λ t. slave ∷ t)
          (remove_other fd comm.1 (fd ∷ p.fds) (eq_comm comm.1 fd at_1.1.0)
            ∙ ap (λ t. comm.1 ∷ t) closed_all)

  -- The child with its terminal on the standard descriptors.
  abbrev set_up : ℕ → Process
  set_up slave = record { fds = std (slave ∷ comm.1 ∷ p.fds); blocks = p.blocks }

  module _ (w h : ℕ) (e : s.forked ≡ gave 0) where
    abbrev finish : ℕ → Outcome ℕ × Process → Opening
    finish slave r = elim r.0 [
      | err x ↦ exited
      | undefined ↦ exited
      | ok x ↦ elim (pty_send s.child.write) [
        | none ↦ waiting
        | some written ↦
            in_child (close_fd comm.1 (if ltb 2 slave then close_fd slave r.1 else r.1))
      ]
    ]

    finish-Ends :
        (slave : ℕ)
        → Fresh slave (comm.1 ∷ fd ∷ p.fds)
        → (start : Process) → start ≡ record { fds = slave ∷ comm.1 ∷ p.fds; blocks = p.blocks }
        → (r : Outcome ℕ × Process) → Sets start r
        → Ends s p (finish slave r)
    finish-Ends slave f start q (ok x, after) z = go (pty_send s.child.write) refl
      where
        stdio : Process → Process
        stdio t = record t { fds = std t.fds }

        same : after ≡ set_up slave
        same = z ∙ ap stdio q

        kept : Bool → Process → Process
        kept b t = close_fd comm.1 (if b then close_fd slave t else t)

        ended :
            (b : Bool)
            → remove comm.1 (if b then remove slave (set_up slave).fds else (set_up slave).fds)
              ≡ std p.fds
            → kept b (set_up slave) ≡ record p { fds = std p.fds }
        ended true n = ap (λ t. record { fds = t; blocks = p.blocks }) n
        ended false n = ap (λ t. record { fds = t; blocks = p.blocks }) n

        go :
            (o : Option (Outcome ℕ))
            → pty_send s.child.write ≡ o
            → Ends s p (elim o [
              | none ↦ waiting
              | some written ↦
                  in_child (close_fd comm.1 (if ltb 2 slave then close_fd slave after else after))
            ])
        go none n = inr n
        go (some written) n =
            (e, ap (kept (ltb 2 slave)) same ∙ ended (ltb 2 slave) (closed_child slave f))
    finish-Ends slave f start q (err x, after) z = e
    finish-Ends slave f start q (undefined, after) z = absurd z

    open_child-Ends : Ends s p (open_child s.child w h comm fd forking)
    unfolding open_child
    open_child-Ends =
        go (free_block (close_fd comm.0 forking)) (left_with closed_0)
          (pty_init_child s.child (free_block (close_fd comm.0 forking)))
          (pty_init_child-Inits s.child (free_block (close_fd comm.0 forking)) (
            subst (λ t. Gives (λ slave. Fresh slave t) s.child.open_slave) (sym closed_0) at_slave))
      where
        go :
            (start : Process)
            → start ≡ child
            → (r : Outcome ℕ × Process) → Inits s.child start r
            → Ends s p (elim r.0 [
              | err x ↦ exited
              | undefined ↦ exited
              | ok slave ↦ finish slave (pty_setup_child s.child w h (close_fd fd r.1))
            ])
        go start q (ok slave, after) (o, z) =
            finish-Ends slave fresh (close_fd fd after) same
              (pty_setup_child s.child w h (close_fd fd after))
              (pty_setup_child-Sets s.child (close_fd fd after) w h)
          where
            fresh : Fresh slave (comm.1 ∷ fd ∷ p.fds)
            fresh = subst (Gives (λ k. Fresh k (comm.1 ∷ fd ∷ p.fds))) o at_slave

            same : close_fd fd after ≡ record { fds = slave ∷ comm.1 ∷ p.fds; blocks = p.blocks }
            same =
                ap (close_fd fd) (z ∙ ap (add_fd slave) q)
                ∙ ap (λ t. record { fds = t; blocks = p.blocks }) (closed_fd slave fresh)
        go start q (err x, after) z = e
        go start q (undefined, after) z = absurd z

  pub open_forked-Ends : (w h : ℕ) → Ends s p (open_forked s w h comm fd forking)
  unfolding open_forked
  open_forked-Ends w h = go s.forked refl
    where
      branch : ℕ → Bool → Opening
      branch pid b =
          if b
          then open_child s.child w h comm fd forking
          else open_parent s.read comm fd pid forking

      go :
          (f : Answer ℕ)
          → s.forked ≡ f
          → Ends s p (elim f [
            | failed e ↦
                refused
                  (errno e)
                  (free_block (close_fd fd (close_fd comm.1 (close_fd comm.0 forking))))
            | gave pid ↦ branch pid (pid == 0)
          ])
      go (failed x) e = left_with (
          ap (λ t. remove fd (remove comm.1 t)) closed_0
          ∙ ap (remove fd) (remove_head comm.1 (fd ∷ p.fds) at_1.1)
          ∙ closed_all)
      go (gave pid) e = elim (Bool-cases (pid == 0)) [
        | inl c ↦
            subst (λ b. Ends s p (branch pid b)) (sym c)
              (open_child-Ends w h (e ∙ ap gave (ground arith)))
        | inr c ↦ subst (λ b. Ends s p (branch pid b)) (sym c) (open_parent-Ends pid e)
      ]
