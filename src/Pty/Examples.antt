-- ===== src/Pty/Examples.antt =====
-- The theorems of Pty at a concrete ring.
use libshl.Base.{
  List, Option, [], ap, arith, if◌then◌else◌, inl, inr, length, none, refl, some, suc, sym, true,
  zero, ℕ, ◌<◌, ◌==◌, ◌∙◌, ◌∷◌, ◌≡◌, ◌≤◌, ◌⊎◌,
}
use libshl.Base.Memory.{Answer, eagain, err, failed, gave, generous, generous-IsAllocator, ok}
use libshl.Macro.Align.{IsPower2Above}
use libshl.Pty.{PtyRing, ring_pow2}
use libshl.Pty.Bridge.{
  Control, RefusesTwice, eexist_number, epoll_ctl_add, epoll_ctl_del, epoll_ctl_mod,
  shl_pty_bridge_add, shl_pty_bridge_dispatch, shl_pty_bridge_dispatch-adds, shl_pty_get_fd,
}
use libshl.Pty.Calls.{Behaves, Call, closing, dispatches, pty_session, total_growth, writes}
use libshl.Pty.Contents.{IsPtyRing}
use libshl.Pty.Descriptors.{IsSystem}
use libshl.Pty.Forked.{Ends, new_pty}
use libshl.Pty.Object.{ShlPty, closes, shl_pty_close, shl_pty_dispatch}
use libshl.Pty.Open.{
  ChildSystem, Process, System, open_forked, open_parent, opened, pty_recv, pty_send, shl_pty_open,
}
use libshl.Pty.Opened.{shl_pty_open-Ends}
use libshl.Pty.Pow2.{ring_pow2-IsPower2Above}
use libshl.Pty.Reads.{Gave, Stops, shl_pty_dispatch-reads}
use libshl.Pty.References.{drop_ref, pty_refs, pty_refs_lem, remains, take_ref}
use libshl.Pty.Retry.{Refuses, pty_recv-pty_send, received, sent, shl_pty_close-Refuses}
use libshl.Pty.Session.{pty_session-Behaves}

-- A ring of four bytes that holds two and has wrapped round.
abbrev turned : PtyRing
turned = record { buf = 20 ∷ 0 ∷ 0 ∷ 10 ∷ []; size = 4; start = 3; end = 1 }

turned-IsPtyRing : IsPtyRing turned
turned-IsPtyRing = record {
  storage = refl;
  power = inr (2, refl, omega arith);
  bounded = omega arith;
  inside = inl (omega arith, omega arith);
}

ring_pow2-IsPower2Above_example : IsPower2Above 5 (ring_pow2 5)
ring_pow2-IsPower2Above_example = ring_pow2-IsPower2Above 5 (omega arith) (omega arith)

-- An open object with that ring and two references.
abbrev pty : ShlPty
pty = record { ref = 2; fd = some 7; child = 100; out_buf = turned }

-- A `writev` that takes one byte at most, and a `read` that gives two bytes once.
abbrev one_byte : List ℕ → Answer ℕ
one_byte [] = gave 0
one_byte (x ∷ bs) = gave 1

gave_inj : {x y : ℕ} → gave x ≡ gave y → x ≡ y
gave_inj e = cc

one_byte-bounded : (bs : List ℕ) (r : ℕ) → one_byte bs ≡ gave r → r ≤ length bs
one_byte-bounded [] r e = omega (arith, gave_inj e)
one_byte-bounded (x ∷ bs) r e = omega (arith, gave_inj e)

abbrev two_bytes : ℕ → Answer (List ℕ)
two_bytes zero = gave (1 ∷ 2 ∷ [])
two_bytes (suc i) = failed 11

abbrev calls : List Call
calls =
    writes generous (7 ∷ 8 ∷ [])
    ∷ dispatches two_bytes one_byte
    ∷ closing
    ∷ writes generous (9 ∷ [])
    ∷ []

pty_session-Behaves_example : Behaves turned (total_growth calls) (pty_session pty calls)
pty_session-Behaves_example =
    pty_session-Behaves pty calls turned-IsPtyRing
      (generous-IsAllocator, (one_byte-bounded, (tt, (generous-IsAllocator, tt)))) (omega arith)

shl_pty_dispatch-reads_example :
    Gave two_bytes 0 (shl_pty_dispatch two_bytes one_byte pty).input
    × ((((shl_pty_dispatch two_bytes one_byte pty).result ≡ err eagain)
          × (length (shl_pty_dispatch two_bytes one_byte pty).input ≡ 50))
        ⊎ (((shl_pty_dispatch two_bytes one_byte pty).result ≡ ok 0)
            × (length (shl_pty_dispatch two_bytes one_byte pty).input < 50)
            × Stops (two_bytes (length (shl_pty_dispatch two_bytes one_byte pty).input))))
shl_pty_dispatch-reads_example = shl_pty_dispatch-reads two_bytes one_byte pty

pty_refs_lem_example :
    pty_refs (some pty) (drop_ref ∷ take_ref ∷ drop_ref ∷ drop_ref ∷ []) ≡ some (remains pty 0)
pty_refs_lem_example =
    pty_refs_lem pty (drop_ref ∷ take_ref ∷ drop_ref ∷ drop_ref ∷ []) 0 (omega arith) refl
      (omega arith)

-- A system whose child opens its terminal and sets it up.
abbrev child : ChildSystem
child = record {
  sigprocmask = gave 0;
  grantpt = gave 0;
  unlockpt = gave 0;
  ptsname = gave 0;
  open_slave = gave 6;
  setsid = gave 101;
  tiocsctty = gave 0;
  tcgetattr = gave 0;
  tcsetattr = gave 0;
  tiocswinsz = λ w h. gave 0;
  dup2 = λ fd. gave fd;
  write = gave 1 ∷ [];
}

abbrev forked_at : ℕ → System
forked_at pid = record {
  calloc = true;
  posix_openpt = gave 3;
  pipe2 = gave (4, 5);
  forked = gave pid;
  read = failed 4 ∷ gave (some 1) ∷ [];
  child = child;
}

abbrev process : Process
process = record { fds = 0 ∷ 1 ∷ 2 ∷ []; blocks = 0 }

forked_at-IsSystem : (pid : ℕ) → IsSystem (forked_at pid) process.fds
forked_at-IsSystem pid = (
  (refl, (refl, (refl, tt))),
  (
    (refl, (refl, (refl, (refl, tt)))),
    (refl, (refl, (refl, (refl, (refl, tt))))),
    omega arith,
    (refl, (refl, (refl, (refl, (refl, tt))))),
  ),
)

shl_pty_open-Ends_example :
    Ends (forked_at 101) process (shl_pty_open (forked_at 101) 80 24 process)
shl_pty_open-Ends_example = shl_pty_open-Ends (forked_at 101) 80 24 process (forked_at-IsSystem 101)

-- The parent then holds the object and the master descriptor.
opened_101 :
    shl_pty_open (forked_at 101) 80 24 process
    ≡ opened (new_pty 3 101) 101 (record { fds = 3 ∷ 0 ∷ 1 ∷ 2 ∷ []; blocks = 1 })
unfolding shl_pty_open open_forked open_parent pty_recv
opened_101 = refl

pty_recv-pty_send_example :
    (pty_recv (failed 4 ∷ gave (some 1) ∷ []) ≡ some (received (gave (some 1))))
    × (pty_send (failed 11 ∷ gave 1 ∷ []) ≡ some (sent (gave 1)))
pty_recv-pty_send_example =
    pty_recv-pty_send (failed 4 ∷ []) (gave (some 1)) [] (failed 11 ∷ []) (gave 1) [] (inl refl, tt)
      tt (inr refl, tt) tt

shl_pty_close-Refuses_example :
    Refuses (shl_pty_close pty).0
    × ((shl_pty_close pty).0.out_buf ≡ pty.out_buf)
    × ((fd : ℕ) → pty.fd ≡ some fd → (shl_pty_close pty).1 ≡ closes fd ∷ [])
shl_pty_close-Refuses_example = shl_pty_close-Refuses pty

-- An epoll set that has at most one descriptor.
abbrev one_set : Option ℕ → Control → Answer (Option ℕ)
one_set s (epoll_ctl_add none) = failed 9
one_set none (epoll_ctl_add (some fd)) = gave (some fd)
one_set (some old) (epoll_ctl_add (some fd)) = failed (if old == fd then eexist_number else 28)
one_set s (epoll_ctl_mod fd) = gave s
one_set s (epoll_ctl_del fd) = gave none

gave_some : {x : ℕ} {s : Option ℕ} → gave (some x) ≡ gave s → some x ≡ s
gave_some e = cc

failed_gave : {x : ℕ} {s : Option ℕ} → failed x ≡ gave s → ⊥
failed_gave e = cc

one_set-RefusesTwice : RefusesTwice (Option ℕ) one_set
one_set-RefusesTwice s s' none e = absurd (failed_gave e)
one_set-RefusesTwice none s' (some fd) e =
    ap (λ t. one_set t (epoll_ctl_add (some fd))) (sym (gave_some e)) ∙ ground arith
one_set-RefusesTwice (some old) s' (some fd) e = absurd (failed_gave e)

-- A `read` that never stops giving a byte.
abbrev endless : ℕ → Answer (List ℕ)
endless i = gave (1 ∷ [])

shl_pty_bridge_dispatch-adds_example :
    (let r =
        shl_pty_bridge_dispatch (Option ℕ) one_set (some 7) (gave (some pty)) endless one_byte in
      (r.result ≡ ok 0)
      × (r.dispatched ≡ some (shl_pty_dispatch endless one_byte pty))
      × (r.set ≡ some 7)
      × (((length (shl_pty_dispatch endless one_byte pty).input ≡ 50)
            × (r.requests ≡ epoll_ctl_add pty.fd ∷ [])
            × (one_set (some 7) (epoll_ctl_add pty.fd) ≡ failed eexist_number))
          ⊎ ((length (shl_pty_dispatch endless one_byte pty).input < 50) × (r.requests ≡ []))))
shl_pty_bridge_dispatch-adds_example =
    shl_pty_bridge_dispatch-adds (Option ℕ) one_set one_set-RefusesTwice none (some 7) endless
      one_byte pty (unfold shl_pty_bridge_add shl_pty_get_fd in refl)
