-- ===== src/Pty/Open.antt =====
-- src/shl_pty.c, `shl_pty_open` and what it calls, in the parent and in the child. What the system
-- answers is a parameter; the model keeps the descriptors and blocks of the process.
use libshl.Base.{
  Bool, List, Option, [], if◌then◌else◌, ltb, none, not, some, suc, true, ℕ, ◌-◌, ◌==◌, ◌∷◌,
}
use libshl.Base.Memory.{
  Answer, Errno, Outcome, einval, enomem, err, errno, failed, gave, ok, undefined,
}
use libshl.Pty.Object.{ShlPty}
use libshl.Quote.Decode.{written}

-- The open descriptors of a process, and how many blocks it has allocated.
pub record Process : Type 0 where
  pub fds : List ℕ
  pub blocks : ℕ

abbrev pub remove : ℕ → List ℕ → List ℕ
remove n [] = []
remove n (x ∷ xs) = let rest = remove n xs in if n == x then rest else x ∷ rest

abbrev pub add_fd : ℕ → Process → Process
add_fd fd p = record p { fds = fd ∷ p.fds }

-- `close`
abbrev pub close_fd : ℕ → Process → Process
close_fd fd p = record p { fds = remove fd p.fds }

-- `dup2` of another descriptor onto `fd`, which is closed first if it is open
abbrev pub dup_fd : ℕ → Process → Process
dup_fd fd p = add_fd fd (close_fd fd p)

-- `free`
abbrev pub free_block : Process → Process
free_block p = record p { blocks = p.blocks - 1 }

abbrev eintr_number : ℕ
eintr_number = 4

abbrev eagain_number : ℕ
eagain_number = 11

-- What asks for another try.
abbrev pub is_retry : ℕ → Bool
is_retry e = if e == eintr_number then true else e == eagain_number

-- `SHL_PTY_FAILED` and `SHL_PTY_SETUP`
abbrev pub shl_pty_failed : ℕ
shl_pty_failed = 0

abbrev pub shl_pty_setup : ℕ
shl_pty_setup = 1

-- `pty_recv`, with the answers of `read` in order: a byte, or `none` at the end of the pipe. The
-- result is `none` if every answer asks for another try.
unfoldable pub pty_recv : List (Answer (Option ℕ)) → Option ℕ
pty_recv [] = none
pty_recv (failed e ∷ answers) =
    let rest = pty_recv answers in if is_retry e then rest else some shl_pty_failed
pty_recv (gave none ∷ answers) = some shl_pty_failed
pty_recv (gave (some d) ∷ answers) = some d

-- `pty_send`, with the answers of `write` in order
unfoldable pub pty_send : List (Answer ℕ) → Option (Outcome ℕ)
pty_send [] = none
pty_send (failed e ∷ answers) =
    let rest = pty_send answers in if is_retry e then rest else some (err einval)
pty_send (gave r ∷ answers) = some (if r == 1 then ok 0 else err einval)

-- What the system answers to the child; `dup2` gives the descriptor that it is asked for, or fails.
pub record ChildSystem : Type 0 where
  pub sigprocmask : Answer ℕ
  pub grantpt : Answer ℕ
  pub unlockpt : Answer ℕ
  pub ptsname : Answer ℕ
  pub open_slave : Answer ℕ
  pub setsid : Answer ℕ
  pub tiocsctty : Answer ℕ
  pub tcgetattr : Answer ℕ
  pub tcsetattr : Answer ℕ
  pub tiocswinsz : ℕ → ℕ → Answer ℕ
  pub dup2 : ℕ → Answer ℕ
  pub write : List (Answer ℕ)

-- A call whose failure is returned as `-errno`, with what is done before.
abbrev pub attempt {ℓ} :
    {A : Type ℓ} → Answer A → Process → (A → Outcome ℕ × Process) → Outcome ℕ × Process
attempt (failed e) undo k = (err (errno e), undo)
attempt (gave a) undo k = k a

-- `pty_init_child`
unfoldable pub pty_init_child : ChildSystem → Process → Outcome ℕ × Process
pty_init_child s p = attempt s.sigprocmask p (λ r. attempt s.grantpt p (λ r.
    attempt s.unlockpt p (λ r. attempt s.ptsname p (λ slave_name. attempt s.open_slave p (λ slave.
      attempt s.setsid (close_fd slave (add_fd slave p)) (λ pid.
        attempt s.tiocsctty (close_fd slave (add_fd slave p))
          (λ r. (ok slave, add_fd slave p))))))))

-- `pty_setup_child`
unfoldable pub pty_setup_child : ChildSystem → ℕ → ℕ → Process → Outcome ℕ × Process
pty_setup_child s term_width term_height p = attempt s.tcgetattr p (λ r. attempt s.tcsetattr p (λ r.
    attempt (s.tiocswinsz term_width term_height) p (λ r. attempt (s.dup2 0) p (λ r.
      attempt (s.dup2 1) (dup_fd 0 p) (λ r.
        attempt (s.dup2 2) (dup_fd 1 (dup_fd 0 p))
          (λ r. (ok 0, dup_fd 2 (dup_fd 1 (dup_fd 0 p)))))))))

-- How `shl_pty_open` ends: with an error, with an object and the child's number, in the child, by the
-- exit of the child, or not at all as far as the answers go.
pub data Opening : Type 0 where
  refused : Errno → Process → Opening
  opened : ShlPty → ℕ → Process → Opening
  in_child : Process → Opening
  exited : Opening
  waiting : Opening

-- The child, from the pipe and the descriptor on.
unfoldable pub open_child : ChildSystem → ℕ → ℕ → ℕ × ℕ → ℕ → Process → Opening
open_child s term_width term_height comm fd p =
    let (r, q) = pty_init_child s (free_block (close_fd comm.0 p)) in
    elim r [
      | err e ↦ exited
      | undefined ↦ exited
      | ok slave ↦
          let (t, q') = pty_setup_child s term_width term_height (close_fd fd q) in
          elim t [
            | err e ↦ exited
            | undefined ↦ exited
            | ok x ↦ elim (pty_send s.write) [
              | none ↦ waiting
              | some written ↦
                  in_child (close_fd comm.1 (if ltb 2 slave then close_fd slave q' else q'))
            ]
          ]
    ]

-- The parent, from the pipe and the descriptor on.
unfoldable pub open_parent : List (Answer (Option ℕ)) → ℕ × ℕ → ℕ → ℕ → Process → Opening
open_parent read comm fd pid p = elim (pty_recv read) [
  | none ↦ waiting
  | some d ↦
      if d == shl_pty_setup
      then opened
          (record {
            ref = 1;
            fd = some fd;
            child = pid;
            out_buf = record { buf = []; size = 0; start = 0; end = 0 };
          })
          pid (close_fd comm.0 (close_fd comm.1 p))
      else refused einval (free_block (close_fd fd (close_fd comm.0 (close_fd comm.1 p))))
]

-- What the system answers to `shl_pty_open`; `fork` gives 0 in the child.
pub record System : Type 0 where
  pub calloc : Bool
  pub posix_openpt : Answer ℕ
  pub pipe2 : Answer (ℕ × ℕ)
  pub forked : Answer ℕ
  pub read : List (Answer (Option ℕ))
  pub child : ChildSystem

-- `shl_pty_open` from the fork on
unfoldable pub open_forked : System → ℕ → ℕ → ℕ × ℕ → ℕ → Process → Opening
open_forked s term_width term_height comm fd p = elim s.forked [
  | failed e ↦ refused (errno e) (free_block (close_fd fd (close_fd comm.1 (close_fd comm.0 p))))
  | gave pid ↦
      if pid == 0
      then open_child s.child term_width term_height comm fd p
      else open_parent s.read comm fd pid p
]

-- `shl_pty_open`
unfoldable pub shl_pty_open : System → ℕ → ℕ → Process → Opening
shl_pty_open s term_width term_height p =
    if not s.calloc
    then refused enomem p
    else let q = record p { blocks = suc p.blocks } in
      elim s.posix_openpt [
        | failed e ↦ refused (errno e) (free_block q)
        | gave fd ↦ elim s.pipe2 [
          | failed e ↦ refused (errno e) (free_block (close_fd fd (add_fd fd q)))
          | gave comm ↦
              open_forked s term_width term_height comm fd
                (add_fd comm.1 (add_fd comm.0 (add_fd fd q)))
        ]
      ]
