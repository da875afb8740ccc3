-- ===== src/Pty/Session.antt =====
-- What a client's calls on an open PTY do to the bytes that it writes.
use libshl.Ring.Contents.{gather}
use libshl.Ring.Push.{Succeeds}
use libshl.Base.{
  Bool, List, Option, [], ap, append-nil, append_assoc, ap₂, arith, false, if◌then◌else◌, length,
  length-append, none, not, refl, some, sym, take, take-append-drop, true, ℕ, ◌++◌, ◌+◌, ◌<◌, ◌==◌,
  ◌^◌, ◌∙◌, ◌∷◌, ◌≡◌, ◌≤◌,
}
use libshl.Base.Memory.{
  Allocator, Answer, IsAllocator, Outcome, enodev, err, failed, gave, ok, undefined,
}
use libshl.Pty.{PtyRing, pty_ring_peek, pty_ring_pop, pty_ring_push}
use libshl.Pty.Calls.{
  AreLawful, Behaves, Call, Conserves, IsLawful, Traffic, closing, dispatches, growth, pty_call,
  pty_session, total_growth, writes,
}
use libshl.Pty.Contents.{IsPtyRing, held_bytes, pty_ring_peek_lem, pty_ring_pop_lem}
use libshl.Pty.Grow.{held_bytes-le, pty_ring_push-appends}
use libshl.Pty.Object.{
  Effect, ShlPty, closes, pty_write, shl_pty_close, shl_pty_dispatch, shl_pty_is_open,
  shl_pty_write,
}

module _ (pty : ShlPty) (v : IsPtyRing pty.out_buf) where
  idle : (n : ℕ) → Behaves pty.out_buf n (some (record { accepted = []; output = [] }, pty))
  idle n = ((v, sym (append-nil (held_bytes pty.out_buf))), omega arith)

  pty_call-dispatch :
      (read : ℕ → Answer (List ℕ)) (writev : List ℕ → Answer ℕ)
      → IsLawful (dispatches read writev)
      → Behaves pty.out_buf 0 (pty_call pty (dispatches read writev))
  unfolding pty_call shl_pty_dispatch pty_write
  pty_call-dispatch read writev bound =
      go (length (pty_ring_peek pty.out_buf) == 0)
        (gather pty.out_buf.buf (pty_ring_peek pty.out_buf)) (pty_ring_peek_lem v).0
        (writev (gather pty.out_buf.buf (pty_ring_peek pty.out_buf))) refl
    where
      sent : Bool → List ℕ → Answer ℕ → List ℕ × ShlPty
      sent b held w = if b then ([], pty) else elim w [
        | failed e ↦ ([], pty)
        | gave r ↦ (take r held, record pty { out_buf = pty_ring_pop pty.out_buf r })
      ]

      go :
          (b : Bool) (held : List ℕ)
          → held ≡ held_bytes pty.out_buf
          → (w : Answer ℕ) → writev held ≡ w
          → Behaves pty.out_buf 0
              (some (record { accepted = []; output = (sent b held w).0 }, (sent b held w).1))
      go true held e w q = idle 0
      go false held e (failed x) q = idle 0
      go false held e (gave r) q =
          let (i, d) =
            pty_ring_pop_lem r v
              (omega (arith, bound held r q, ap length e, held_bytes-le v, v.bounded)) in
          (
            (
              i,
              ap₂ (λ x y. take r x ++ y) e d
                  ∙ take-append-drop r (held_bytes pty.out_buf)
                  ∙ sym (append-nil (held_bytes pty.out_buf)),
            ),
            omega arith,
          )

  pty_call-write :
      (a : Allocator) (u8 : List ℕ)
      → IsAllocator a
      → length (held_bytes pty.out_buf) + length u8 < 2 ^ 63
      → Behaves pty.out_buf (length u8) (pty_call pty (writes a u8))
  unfolding pty_call shl_pty_write
  pty_call-write a u8 h small =
      guarded (shl_pty_is_open pty) (pty_ring_push a pty.out_buf u8)
        (pty_ring_push-appends a h u8 v small)
    where
      go :
          (o : Outcome PtyRing)
          → Succeeds a (λ r'. IsPtyRing r' × (held_bytes r' ≡ held_bytes pty.out_buf ++ u8)) o
          → Behaves pty.out_buf
              (length u8)
              (elim (elim o as (λ x. Outcome ShlPty) [
                | ok r ↦ ok (record pty { out_buf = r })
                | err e ↦ err e
                | undefined ↦ undefined
              ])
                as (λ x. Option (Traffic × ShlPty)) [
                  | ok pty' ↦ some (record { accepted = u8; output = [] }, pty')
                  | err e ↦ some (record { accepted = []; output = [] }, pty)
                  | undefined ↦ none
                ])
      go (ok r) q = (q, omega arith)
      go (err e) q = idle (length u8)
      go undefined q = q

      guarded :
          (b : Bool) (o : Outcome PtyRing)
          → Succeeds a (λ r'. IsPtyRing r' × (held_bytes r' ≡ held_bytes pty.out_buf ++ u8)) o
          → Behaves pty.out_buf
              (length u8)
              (elim (if not b then err enodev else elim o as (λ x. Outcome ShlPty) [
                | ok r ↦ ok (record pty { out_buf = r })
                | err e ↦ err e
                | undefined ↦ undefined
              ])
                as (λ x. Option (Traffic × ShlPty)) [
                  | ok pty' ↦ some (record { accepted = u8; output = [] }, pty')
                  | err e ↦ some (record { accepted = []; output = [] }, pty)
                  | undefined ↦ none
                ])
      guarded true o q = go o q
      guarded false o q = idle (length u8)

  pty_call-close : Behaves pty.out_buf 0 (pty_call pty closing)
  unfolding pty_call shl_pty_close
  pty_call-close = go pty.fd
    where
      go :
          (fd : Option ℕ)
          → Behaves pty.out_buf 0 (
              some (
                record { accepted = []; output = [] },
                (elim fd as (λ x. ShlPty × List Effect) [
                  | none ↦ (pty, [])
                  | some n ↦ (record pty { fd = none }, closes n ∷ [])
                ]).0,
              ))
      go none = idle 0
      go (some n) = idle 0

  pty_call-Behaves :
      (c : Call)
      → IsLawful c
      → length (held_bytes pty.out_buf) + growth c < 2 ^ 63
      → Behaves pty.out_buf (growth c) (pty_call pty c)
  pty_call-Behaves (writes a u8) h small = pty_call-write a u8 h small
  pty_call-Behaves (dispatches read writev) h small = pty_call-dispatch read writev h
  pty_call-Behaves closing h small = pty_call-close

-- Two calls after each other.
Conserves-trans :
    (r : PtyRing) (t u : Traffic) (p q : ShlPty)
    → Conserves r (t, p)
    → Conserves p.out_buf (u, q)
    → Conserves r (record { accepted = t.accepted ++ u.accepted; output = t.output ++ u.output }, q)
Conserves-trans r t u p q (i, e) (j, f) = (
  j,
  append_assoc t.output u.output (held_bytes q.out_buf)
      ∙ ap (λ x. t.output ++ x) f
      ∙ sym (append_assoc t.output (held_bytes p.out_buf) u.accepted)
      ∙ ap (λ x. x ++ u.accepted) e
      ∙ append_assoc (held_bytes r) t.accepted u.accepted,
)

-- For any sequence of writes, dispatches and closes on an object with a valid ring, with fewer than
-- 2^63 bytes in all, whose allocators keep the C standard's promises and whose `writev` takes no more
-- than it is given: no call is undefined, the ring stays valid, and the bytes that went into the
-- descriptor, followed by those that are held, are those held at first, followed by those that
-- the writes accepted, in order.
pub pty_session-Behaves :
    (pty : ShlPty) (cs : List Call)
    → IsPtyRing pty.out_buf
    → AreLawful cs
    → length (held_bytes pty.out_buf) + total_growth cs < 2 ^ 63
    → Behaves pty.out_buf (total_growth cs) (pty_session pty cs)
unfolding pty_session
pty_session-Behaves pty [] v h small = idle pty v 0
pty_session-Behaves pty (c ∷ cs) v (h, hs) small =
    first (pty_call pty c) (pty_call-Behaves pty v c h (omega arith))
      (λ pty' i le. pty_session-Behaves pty' cs i hs le)
  where
    rest :
        (t : Traffic) (pty' : ShlPty)
        → Conserves pty.out_buf (t, pty')
        → length t.accepted ≤ growth c
        → (o : Option (Traffic × ShlPty)) → Behaves pty'.out_buf (total_growth cs) o
        → Behaves pty.out_buf (growth c + total_growth cs) (elim o [
          | none ↦ none
          | some (ts, pty'') ↦ some (
            record { accepted = t.accepted ++ ts.accepted; output = t.output ++ ts.output },
            pty'',
          )
        ])
    rest t pty' q le none b = b
    rest t pty' q le (some (ts, pty'')) (q', le') = (
      Conserves-trans pty.out_buf t ts pty' pty'' q q',
      omega (arith, length-append t.accepted ts.accepted),
    )

    first :
        (o : Option (Traffic × ShlPty))
        → Behaves pty.out_buf (growth c) o
        → ((pty' : ShlPty)
            → IsPtyRing pty'.out_buf
            → length (held_bytes pty'.out_buf) + total_growth cs < 2 ^ 63
            → Behaves pty'.out_buf (total_growth cs) (pty_session pty' cs))
        → Behaves pty.out_buf (growth c + total_growth cs) (elim o [
          | none ↦ none
          | some (t, pty') ↦ elim (pty_session pty' cs) [
            | none ↦ none
            | some (ts, pty'') ↦ some (
              record { accepted = t.accepted ++ ts.accepted; output = t.output ++ ts.output },
              pty'',
            )
          ]
        ])
    first none b later = b
    first (some (t, pty')) (q, le) later = rest t pty' q le (pty_session pty' cs) (
        later pty' q.0 (
          omega (
            arith,
            le,
            ap length q.1,
            length-append t.output (held_bytes pty'.out_buf),
            length-append (held_bytes pty.out_buf) t.accepted,
          )))
