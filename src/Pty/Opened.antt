-- ===== src/Pty/Opened.antt =====
-- How `shl_pty_open` leaves the process.
use libshl.Base.{
  Bool, ap, ap₂, arith, false, if◌then◌else◌, not, refl, suc, true, ℕ, ◌-◌, ◌<◌, ◌∷◌, ◌≡◌,
}
use libshl.Base.Memory.{Answer, enomem, errno, failed, gave}
use libshl.Pty.Descriptors.{Fresh, Gives, IsSystem, remove_head}
use libshl.Pty.Forked.{Ends, open_forked-Ends}
use libshl.Pty.Open.{Process, System, open_forked, refused, remove, shl_pty_open}

-- For a system that gives only descriptors that are not open, and a writing end of the pipe that is
-- not a standard descriptor: an error of `shl_pty_open` leaves the descriptors and blocks of the
-- process as they were. The parent of a child that has set itself up holds the object, with one
-- reference, its block and the master descriptor, and nothing else. A child that returns holds no
-- block, and the descriptors from before with the standard ones replaced; otherwise it exits. The
-- call waits only if all answers of the pipe ask for another try.
pub shl_pty_open-Ends :
    (s : System) (term_width term_height : ℕ) (p : Process)
    → IsSystem s p.fds
    → Ends s p (shl_pty_open s term_width term_height p)
unfolding shl_pty_open
shl_pty_open-Ends s w h p i = allocated s.calloc
  where
    piped :
        (fd : ℕ)
        → s.posix_openpt ≡ gave fd
        → Fresh fd p.fds
        → (c : Answer (ℕ × ℕ))
        → Gives
            (λ comm.
              Fresh comm.0 (fd ∷ p.fds)
              × Fresh comm.1 (comm.0 ∷ fd ∷ p.fds)
              × (2 < comm.1)
              × Gives (λ slave. Fresh slave (comm.1 ∷ fd ∷ p.fds)) s.child.open_slave)
            c
        → Ends s p (elim c [
          | failed e ↦
              refused (errno e) (record { fds = remove fd (fd ∷ p.fds); blocks = suc p.blocks - 1 })
          | gave comm ↦
              open_forked s w h comm fd
                (record { fds = comm.1 ∷ comm.0 ∷ fd ∷ p.fds; blocks = suc p.blocks })
        ])
    piped fd e f (failed x) g =
        ap₂ (λ x k. record { fds = x; blocks = k }) (remove_head fd p.fds f) (omega arith)
    piped fd e f (gave comm) (c0, c1, high, slave) =
        open_forked-Ends s p fd comm f c0 c1 high slave e w h

    master :
        (a : Answer ℕ)
        → s.posix_openpt ≡ a
        → Gives
            (λ fd.
              Fresh fd p.fds
              × Gives
                  (λ comm.
                    Fresh comm.0 (fd ∷ p.fds)
                    × Fresh comm.1 (comm.0 ∷ fd ∷ p.fds)
                    × (2 < comm.1)
                    × Gives (λ slave. Fresh slave (comm.1 ∷ fd ∷ p.fds)) s.child.open_slave)
                  s.pipe2)
            a
        → Ends s p (elim a [
          | failed e ↦ refused (errno e) (record { fds = p.fds; blocks = suc p.blocks - 1 })
          | gave fd ↦ elim s.pipe2 [
            | failed e ↦
                refused
                  (errno e)
                  (record { fds = remove fd (fd ∷ p.fds); blocks = suc p.blocks - 1 })
            | gave comm ↦
                open_forked s w h comm fd
                  (record { fds = comm.1 ∷ comm.0 ∷ fd ∷ p.fds; blocks = suc p.blocks })
          ]
        ])
    master (failed x) e g = ap (λ k. record { fds = p.fds; blocks = k }) (omega arith)
    master (gave fd) e (f, g) = piped fd e f s.pipe2 g

    allocated :
        (b : Bool)
        → Ends s p (
            if not b then refused enomem p else elim s.posix_openpt [
              | failed e ↦ refused (errno e) (record { fds = p.fds; blocks = suc p.blocks - 1 })
              | gave fd ↦ elim s.pipe2 [
                | failed e ↦
                    refused
                      (errno e)
                      (record { fds = remove fd (fd ∷ p.fds); blocks = suc p.blocks - 1 })
                | gave comm ↦
                    open_forked s w h comm fd
                      (record { fds = comm.1 ∷ comm.0 ∷ fd ∷ p.fds; blocks = suc p.blocks })
              ]
            ])
    allocated false = refl
    allocated true = master s.posix_openpt refl i
