-- ===== src/Pty/Retry.antt =====
-- The loops of `pty_recv` and `pty_send`, and what is left of an object that is closed.
use libshl.Base.{
  List, Option, [], ap, arith, false, if◌then◌else◌, inl, inr, none, refl, some, true, ℕ, ◌++◌,
  ◌==◌, ◌∷◌, ◌≡◌, ◌≢◌, ◌⊎◌,
}
use libshl.Base.Memory.{Allocator, Answer, Outcome, einval, enodev, err, failed, gave, ok}
use libshl.Pty.Object.{
  Request, ShlPty, closes, shl_pty_close, shl_pty_is_open, shl_pty_resize, shl_pty_signal,
  shl_pty_write,
}
use libshl.Pty.Open.{is_retry, pty_recv, pty_send, shl_pty_failed}

-- EINTR and EAGAIN, the errors after which the call is to be tried again.
abbrev pub IsTransient : ℕ → Type 0
IsTransient e = (e ≡ 4) ⊎ (e ≡ 11)

is_retry-IsTransient : (e : ℕ) → IsTransient e → is_retry e ≡ true
is_retry-IsTransient e (inl q) = ap is_retry q
is_retry-IsTransient e (inr q) = ap is_retry q

is_retry_other : (e : ℕ) → e ≢ 4 → e ≢ 11 → is_retry e ≡ false
is_retry_other e n m = ground arith

-- Answers that all ask for another try.
abbrev pub AllRetry {ℓ} : {A : Type ℓ} → List (Answer A) → Type 0
AllRetry [] = Unit
AllRetry (failed e ∷ answers) = IsTransient e × AllRetry answers
AllRetry (gave a ∷ answers) = ⊥

-- An answer that ends the loops.
abbrev pub IsFinal {ℓ} : {A : Type ℓ} → Answer A → Type 0
IsFinal (failed e) = (e ≢ 4) × (e ≢ 11)
IsFinal (gave a) = Unit

-- What `pty_recv` makes of it.
abbrev pub received : Answer (Option ℕ) → ℕ
received (failed e) = shl_pty_failed
received (gave none) = shl_pty_failed
received (gave (some d)) = d

-- What `pty_send` makes of it.
abbrev pub sent : Answer ℕ → Outcome ℕ
sent (failed e) = err einval
sent (gave r) = if r == 1 then ok 0 else err einval

pty_recv-retries :
    (skipped : List (Answer (Option ℕ))) (a : Answer (Option ℕ)) (later : List (Answer (Option ℕ)))
    → AllRetry skipped
    → IsFinal a
    → pty_recv (skipped ++ (a ∷ later)) ≡ some (received a)
unfolding pty_recv
pty_recv-retries [] (failed e) later h f = rw (is_retry_other e f.0 f.1) refl
pty_recv-retries [] (gave none) later h f = refl
pty_recv-retries [] (gave (some d)) later h f = refl
pty_recv-retries (failed e ∷ skipped) a later (q, h) f =
    rw (is_retry-IsTransient e q) (pty_recv-retries skipped a later h f)
pty_recv-retries (gave d ∷ skipped) a later h f = absurd h

pty_send-retries :
    (skipped : List (Answer ℕ)) (a : Answer ℕ) (later : List (Answer ℕ))
    → AllRetry skipped
    → IsFinal a
    → pty_send (skipped ++ (a ∷ later)) ≡ some (sent a)
unfolding pty_send
pty_send-retries [] (failed e) later h f = rw (is_retry_other e f.0 f.1) refl
pty_send-retries [] (gave r) later h f = refl
pty_send-retries (failed e ∷ skipped) a later (q, h) f =
    rw (is_retry-IsTransient e q) (pty_send-retries skipped a later h f)
pty_send-retries (gave d ∷ skipped) a later h f = absurd h

-- However often reads and writes of one byte fail with EINTR or EAGAIN: `pty_recv` gives what
-- the first other answer of `read` makes, the byte, or SHL_PTY_FAILED at an error or the end of the
-- pipe; and `pty_send` succeeds if the first other answer of `write` is 1, and gives -EINVAL if not.
pub pty_recv-pty_send :
    (unread : List (Answer (Option ℕ))) (a : Answer (Option ℕ)) (later : List (Answer (Option ℕ)))
    (unwritten : List (Answer ℕ)) (b : Answer ℕ) (after : List (Answer ℕ))
    → AllRetry unread
    → IsFinal a
    → AllRetry unwritten
    → IsFinal b
    → (pty_recv (unread ++ (a ∷ later)) ≡ some (received a))
      × (pty_send (unwritten ++ (b ∷ after)) ≡ some (sent b))
pty_recv-pty_send unread a later unwritten b after h f g i =
    (pty_recv-retries unread a later h f, pty_send-retries unwritten b after g i)

-- What an object does whose descriptor is closed.
abbrev pub Refuses : ShlPty → Type 0
Refuses pty =
    (shl_pty_is_open pty ≡ false)
    × (shl_pty_close pty ≡ (pty, []))
    × ((a : Allocator) (u8 : List ℕ) → shl_pty_write a pty u8 ≡ err enodev)
    × ((ioctl : ℕ → Request → Answer ℕ) (sig : ℕ) → shl_pty_signal ioctl pty sig ≡ err enodev)
    × ((ioctl : ℕ → Request → Answer ℕ) (w h : ℕ) → shl_pty_resize ioctl pty w h ≡ err enodev)

closed-Refuses : (pty : ShlPty) → pty.fd ≡ none → Refuses pty
unfolding shl_pty_is_open shl_pty_close shl_pty_write shl_pty_signal shl_pty_resize
closed-Refuses pty e = rw e (refl, refl, λ a u8. refl, λ ioctl sig. refl, λ ioctl w h. refl)

-- `shl_pty_close` closes the descriptor of an open object, once, keeps the bytes that are held, and
-- leaves an object that is not open, closes nothing when it is closed again, and refuses bytes,
-- signals and sizes with -ENODEV, whatever the allocator and `ioctl` would answer.
pub shl_pty_close-Refuses :
    (pty : ShlPty)
    → Refuses (shl_pty_close pty).0
      × ((shl_pty_close pty).0.out_buf ≡ pty.out_buf)
      × ((fd : ℕ) → pty.fd ≡ some fd → (shl_pty_close pty).1 ≡ closes fd ∷ [])
unfolding shl_pty_close
shl_pty_close-Refuses pty =
    (closed-Refuses (shl_pty_close pty).0 (is_none pty.fd), same pty.fd, λ fd e. rw e refl)
  where
    is_none : (fd : Option ℕ) → (shl_pty_close (record pty { fd = fd })).0.fd ≡ none
    is_none none = refl
    is_none (some fd) = refl

    same : (fd : Option ℕ) → (shl_pty_close (record pty { fd = fd })).0.out_buf ≡ pty.out_buf
    same none = refl
    same (some fd) = refl
