-- ===== src/Pty/Calls.antt =====
-- The calls of a client on a PTY, and what they do to the bytes.
use libshl.Base.{List, Option, [], length, none, some, ℕ, ◌++◌, ◌+◌, ◌∷◌, ◌≡◌, ◌≤◌}
use libshl.Base.Memory.{Allocator, Answer, IsAllocator, err, gave, ok, undefined}
use libshl.Pty.{PtyRing}
use libshl.Pty.Contents.{IsPtyRing, held_bytes}
use libshl.Pty.Object.{ShlPty, shl_pty_close, shl_pty_dispatch, shl_pty_write}

-- The calls of a client, each with what the allocator and the system answer at that time.
pub data Call : Type 0 where
  writes : Allocator → List ℕ → Call
  dispatches : (ℕ → Answer (List ℕ)) → (List ℕ → Answer ℕ) → Call
  closing : Call

-- The bytes that the object accepted, and those that went into `fd`.
pub record Traffic : Type 0 where
  pub accepted : List ℕ
  pub output : List ℕ

-- One call; `none` is undefined behaviour.
unfoldable pub pty_call : ShlPty → Call → Option (Traffic × ShlPty)
pty_call pty (writes a u8) = elim (shl_pty_write a pty u8) [
  | ok pty' ↦ some (record { accepted = u8; output = [] }, pty')
  | err e ↦ some (record { accepted = []; output = [] }, pty)
  | undefined ↦ none
]
pty_call pty (dispatches read writev) =
    let d = shl_pty_dispatch read writev pty in
    some (record { accepted = []; output = d.output }, d.pty)
pty_call pty closing = some (record { accepted = []; output = [] }, (shl_pty_close pty).0)

-- A sequence of calls, and all their bytes.
unfoldable pub pty_session : ShlPty → List Call → Option (Traffic × ShlPty)
pty_session pty [] = some (record { accepted = []; output = [] }, pty)
pty_session pty (c ∷ cs) = elim (pty_call pty c) [
  | none ↦ none
  | some (t, pty') ↦ elim (pty_session pty' cs) [
    | none ↦ none
    | some (ts, pty'') ↦
        some
          (record { accepted = t.accepted ++ ts.accepted; output = t.output ++ ts.output }, pty'')
  ]
]

-- The allocator keeps the C standard's promises, and `writev` takes no more than it is given.
abbrev pub IsLawful : Call → Type 0
IsLawful (writes a u8) = IsAllocator a
IsLawful (dispatches read writev) =
    (bytes : List ℕ) (r : ℕ) → writev bytes ≡ gave r → r ≤ length bytes
IsLawful closing = Unit

abbrev pub AreLawful : List Call → Type 0
AreLawful [] = Unit
AreLawful (c ∷ cs) = IsLawful c × AreLawful cs

-- The bytes that a call may add.
abbrev pub growth : Call → ℕ
growth (writes a u8) = length u8
growth (dispatches read writev) = 0
growth closing = 0

abbrev pub total_growth : List Call → ℕ
total_growth [] = 0
total_growth (c ∷ cs) = growth c + total_growth cs

-- No byte is lost, doubled or moved: what went out, and then what is held, is what was held, and then
-- what was accepted.
abbrev pub Conserves : PtyRing → Traffic × ShlPty → Type 0
Conserves r (t, pty') =
    IsPtyRing pty'.out_buf × (t.output ++ held_bytes pty'.out_buf ≡ held_bytes r ++ t.accepted)

-- The call is defined, conserves the bytes, and accepts no more than it brings.
abbrev pub Behaves : PtyRing → ℕ → Option (Traffic × ShlPty) → Type 0
Behaves r n none = ⊥
Behaves r n (some (t, pty')) = Conserves r (t, pty') × (length t.accepted ≤ n)
