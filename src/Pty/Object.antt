-- ===== src/Pty/Object.antt =====
-- src/shl_pty.c, "PTY": an open connection, its references, and how it moves bytes. What `read`,
-- `writev` and `ioctl` answer are parameters.
use libshl.Ring.Contents.{gather}
use libshl.Base.{
  Bool, List, Option, [], false, if◌then◌else◌, length, none, not, some, suc, take, true, zero, ℕ,
  ◌++◌, ◌==◌, ◌∷◌,
}
use libshl.Base.Memory.{
  Allocator, Answer, Outcome, eagain, enodev, err, errno, failed, gave, ok, undefined,
}
use libshl.Base.Word.{add_size, sub_size}
use libshl.Pty.{PtyRing, pty_ring_peek, pty_ring_pop, pty_ring_push}

-- `struct shl_pty`; a closed `fd` is `none`.
pub record ShlPty : Type 0 where
  pub ref : ℕ
  pub fd : Option ℕ
  pub child : ℕ
  pub out_buf : PtyRing

-- What a call does to the process: it closes a descriptor, frees the block of the ring, or frees
-- the object.
pub data Effect : Type 0 where
  closes : ℕ → Effect
  frees_ring : Effect
  frees_pty : Effect

-- `shl_pty_is_open`
unfoldable pub shl_pty_is_open : ShlPty → Bool
shl_pty_is_open pty = elim pty.fd [ none ↦ false | some fd ↦ true ]

-- `shl_pty_close`
unfoldable pub shl_pty_close : ShlPty → ShlPty × List Effect
shl_pty_close pty = elim pty.fd [
  | none ↦ (pty, [])
  | some fd ↦ (record pty { fd = none }, closes fd ∷ [])
]

-- `shl_pty_ref`, for a pointer that is not NULL
unfoldable pub shl_pty_ref : ShlPty → ShlPty
shl_pty_ref pty = if pty.ref == 0 then pty else record pty { ref = add_size pty.ref 1 }

-- `shl_pty_unref`, for a pointer that is not NULL; `none` is an object that is freed.
unfoldable pub shl_pty_unref : ShlPty → Option ShlPty × List Effect
shl_pty_unref pty =
    if pty.ref == 0
    then (some pty, [])
    else let left = record pty { ref = sub_size pty.ref 1 } in
      if not (left.ref == 0)
      then (some left, [])
      else (none, (shl_pty_close left).1 ++ (frees_ring ∷ frees_pty ∷ []))

-- `pty_write`: the bytes that `writev` took, and the object. The answer of `writev` depends on the
-- bytes that it is given.
unfoldable pub pty_write : (List ℕ → Answer ℕ) → ShlPty → List ℕ × ShlPty
pty_write writev pty =
    let vec = pty_ring_peek pty.out_buf in
    if length vec == 0 then ([], pty) else elim (writev (gather pty.out_buf.buf vec)) [
      | failed e ↦ ([], pty)
      | gave r ↦
          (take r (gather pty.out_buf.buf vec), record pty { out_buf = pty_ring_pop pty.out_buf r })
    ]

-- The loop of `pty_read` from its read number `i` on, `num` more of which are allowed: the
-- arguments of the callback, and whether `num` has come down to 0.
unfoldable pub pty_read_loop : (ℕ → Answer (List ℕ)) → ℕ → ℕ → List (List ℕ) × Bool
pty_read_loop read zero i = ([], true)
pty_read_loop read (suc num) i =
    let (calls, spent) = pty_read_loop read num (suc i) in
    elim (read i) [
      | failed e ↦ ([], false)
      | gave got ↦ if length got == 0 then ([], false) else (got ∷ calls, spent)
    ]

-- `pty_read`
unfoldable pub pty_read : (ℕ → Answer (List ℕ)) → List (List ℕ) × Outcome ℕ
pty_read read =
    let (calls, spent) = pty_read_loop read 50 0 in (calls, if spent then err eagain else ok 0)

-- What a dispatch does: the arguments of the callback, the bytes that were written, the object, and
-- the result.
pub record Dispatched : Type 0 where
  pub input : List (List ℕ)
  pub output : List ℕ
  pub pty : ShlPty
  pub result : Outcome ℕ

-- `shl_pty_dispatch`
unfoldable pub shl_pty_dispatch : (ℕ → Answer (List ℕ)) → (List ℕ → Answer ℕ) → ShlPty → Dispatched
shl_pty_dispatch read writev pty = record {
  input = (pty_read read).0;
  output = (pty_write writev pty).0;
  pty = (pty_write writev pty).1;
  result = (pty_read read).1;
}

-- `shl_pty_write`
unfoldable pub shl_pty_write : Allocator → ShlPty → List ℕ → Outcome ShlPty
shl_pty_write a pty u8 =
    if not (shl_pty_is_open pty) then err enodev else elim (pty_ring_push a pty.out_buf u8) [
      | ok r ↦ ok (record pty { out_buf = r })
      | err e ↦ err e
      | undefined ↦ undefined
    ]

-- `(r < 0) ? -errno : 0`
unfoldable pub checked : Answer ℕ → Outcome ℕ
checked (failed e) = err (errno e)
checked (gave x) = ok 0

-- The requests of `ioctl` that the code makes.
pub data Request : Type 0 where
  ioctl_tiocsig : ℕ → Request
  ioctl_tiocswinsz : ℕ → ℕ → Request

-- `shl_pty_signal`
unfoldable pub shl_pty_signal : (ℕ → Request → Answer ℕ) → ShlPty → ℕ → Outcome ℕ
shl_pty_signal ioctl pty sig = elim pty.fd [
  | none ↦ err enodev
  | some fd ↦ checked (ioctl fd (ioctl_tiocsig sig))
]

-- `shl_pty_resize`
unfoldable pub shl_pty_resize : (ℕ → Request → Answer ℕ) → ShlPty → ℕ → ℕ → Outcome ℕ
shl_pty_resize ioctl pty term_width term_height = elim pty.fd [
  | none ↦ err enodev
  | some fd ↦ checked (ioctl fd (ioctl_tiocswinsz term_width term_height))
]
