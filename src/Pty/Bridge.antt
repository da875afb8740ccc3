-- ===== src/Pty/Bridge.antt =====
-- src/shl_pty.c, "PTY Bridge": objects behind one epoll descriptor. What `epoll_wait` and `epoll_ctl`
-- answer are parameters; the model keeps the requests.
use libshl.Ring.Contents.{gather}
use libshl.Base.{
  Bool, List, Option, [], ap, false, if◌then◌else◌, inl, inr, length, none, refl, some, take, true,
  ℕ, ◌<◌, ◌==◌, ◌∙◌, ◌∷◌, ◌≡◌, ◌⊎◌,
}
use libshl.Base.Memory.{Answer, Errno, Outcome, eagain, err, errno, failed, gave, ok}
use libshl.Pty.{pty_ring_peek, pty_ring_pop}
use libshl.Pty.Object.{Dispatched, ShlPty, pty_write, shl_pty_dispatch}
use libshl.Pty.Open.{is_retry}
use libshl.Pty.Reads.{shl_pty_dispatch-reads}

-- The requests of `epoll_ctl`, all with EPOLLIN | EPOLLOUT | EPOLLET; a closed descriptor is `none`.
pub data Control : Type 0 where
  epoll_ctl_add : Option ℕ → Control
  epoll_ctl_mod : Option ℕ → Control
  epoll_ctl_del : Option ℕ → Control

-- `shl_pty_get_fd`
unfoldable pub shl_pty_get_fd : ShlPty → Option ℕ
shl_pty_get_fd pty = pty.fd

-- `shl_pty_bridge_new`
unfoldable pub shl_pty_bridge_new : Answer ℕ → Outcome ℕ
shl_pty_bridge_new (failed e) = err (errno e)
shl_pty_bridge_new (gave fd) = ok fd

-- `epoll_ctl` on the set of an epoll descriptor: the set after it, or an error, which leaves the set
-- as it was. `S` is what the kernel keeps.
module _ (S : Type 0) (epoll_ctl : S → Control → Answer S) where
  abbrev pub set_after : S → Control → S
  set_after s request = elim (epoll_ctl s request) [ failed e ↦ s | gave s' ↦ s' ]

  -- `shl_pty_bridge_add`
  unfoldable pub shl_pty_bridge_add : S → ShlPty → S × Outcome ℕ
  shl_pty_bridge_add s pty = elim (epoll_ctl s (epoll_ctl_add (shl_pty_get_fd pty))) [
    | failed e ↦ (s, err (errno e))
    | gave s' ↦ (s', ok 0)
  ]

  -- `shl_pty_bridge_remove`
  unfoldable pub shl_pty_bridge_remove : S → ShlPty → S
  shl_pty_bridge_remove s pty = set_after s (epoll_ctl_del (shl_pty_get_fd pty))

-- `r == -EAGAIN`
unfoldable pub is_again : Outcome ℕ → Bool
is_again (err eagain) = true
is_again _ = false

-- What a round of the bridge does: its result, its requests, the dispatch, and the set after it.
pub record Round (S : Type 0) : Type 0 where
  pub result : Outcome ℕ
  pub requests : List Control
  pub dispatched : Option Dispatched
  pub set : S

module _ (S : Type 0) (epoll_ctl : S → Control → Answer S) where
  -- `shl_pty_bridge_dispatch`; `epoll_wait` gives an object that is ready, or none in time.
  unfoldable pub shl_pty_bridge_dispatch :
      S → Answer (Option ShlPty) → (ℕ → Answer (List ℕ)) → (List ℕ → Answer ℕ) → Round S
  shl_pty_bridge_dispatch s (failed e) read writev = record {
    result = if is_retry e then ok 0 else err (errno e);
    requests = [];
    dispatched = none;
    set = s;
  }
  shl_pty_bridge_dispatch s (gave none) read writev = record {
    result = ok 0;
    requests = [];
    dispatched = none;
    set = s;
  }
  shl_pty_bridge_dispatch s (gave (some pty)) read writev =
      let d = shl_pty_dispatch read writev pty in
      let request = epoll_ctl_add (shl_pty_get_fd d.pty) in
      record {
        result = ok 0;
        requests = if is_again d.result then request ∷ [] else [];
        dispatched = some d;
        set = if is_again d.result then set_after S epoll_ctl s request else s;
      }

-- EEXIST
abbrev pub eexist_number : ℕ
eexist_number = 17

-- What the manual of epoll_ctl says of EPOLL_CTL_ADD: a descriptor that has been added is not added
-- again, but refused with EEXIST.
abbrev pub RefusesTwice : (S : Type 0) → (S → Control → Answer S) → Type 0
RefusesTwice S epoll_ctl =
    (s s' : S) (fd : Option ℕ)
    → epoll_ctl s (epoll_ctl_add fd) ≡ gave s'
    → epoll_ctl s' (epoll_ctl_add fd) ≡ failed eexist_number

pty_write-fd : (writev : List ℕ → Answer ℕ) (pty : ShlPty) → (pty_write writev pty).1.fd ≡ pty.fd
unfolding pty_write
pty_write-fd writev pty =
    go (length (pty_ring_peek pty.out_buf) == 0)
      (writev (gather pty.out_buf.buf (pty_ring_peek pty.out_buf)))
  where
    go :
        (b : Bool) (w : Answer ℕ)
        → (if b then ([], pty) else elim w as (λ x. List ℕ × ShlPty) [
          | failed e ↦ ([], pty)
          | gave r ↦ (
            take r (gather pty.out_buf.buf (pty_ring_peek pty.out_buf)),
            record pty { out_buf = pty_ring_pop pty.out_buf r },
          )
        ]).1.fd
          ≡ pty.fd
    go true w = refl
    go false (failed e) = refl
    go false (gave r) = refl

module _ (S : Type 0) (epoll_ctl : S → Control → Answer S) (twice : RefusesTwice S epoll_ctl) where
  added :
      (s s' : S) (pty : ShlPty)
      → shl_pty_bridge_add S epoll_ctl s pty ≡ (s', ok 0)
      → epoll_ctl s (epoll_ctl_add pty.fd) ≡ gave s'
  unfolding shl_pty_bridge_add shl_pty_get_fd
  added s s' pty e = go (epoll_ctl s (epoll_ctl_add pty.fd)) e
    where
      go :
          (o : Answer S)
          → elim o as (λ x. S × Outcome ℕ) [ failed x ↦ (s, err (errno x)) | gave t ↦ (t, ok 0) ]
            ≡ (s', ok 0)
          → o ≡ gave s'
      go (failed x) q = absurd (no_error (ap (λ p. p.1) q))
        where
          no_error : {y : Errno} → ◌≡◌ {A = Outcome ℕ} (err y) (ok 0) → ⊥
          no_error z = cc
      go (gave t) q = ap (λ p. gave p.0) q

  -- Behind a successful `shl_pty_bridge_add`, a ready object is dispatched, with what `shl_pty_dispatch`
  -- gives, and 0 is returned. After 50 reads that gave bytes the bridge makes one request,
  -- EPOLL_CTL_ADD of the object's descriptor, and not EPOLL_CTL_MOD: it is refused with EEXIST, as
  -- epoll documents, and the set stays as it was. After fewer it makes none.
  pub shl_pty_bridge_dispatch-adds :
      (s s' : S) (read : ℕ → Answer (List ℕ)) (writev : List ℕ → Answer ℕ) (pty : ShlPty)
      → shl_pty_bridge_add S epoll_ctl s pty ≡ (s', ok 0)
      → (let r = shl_pty_bridge_dispatch S epoll_ctl s' (gave (some pty)) read writev in
          (r.result ≡ ok 0)
          × (r.dispatched ≡ some (shl_pty_dispatch read writev pty))
          × (r.set ≡ s')
          × (((length (shl_pty_dispatch read writev pty).input ≡ 50)
                × (r.requests ≡ epoll_ctl_add pty.fd ∷ [])
                × (epoll_ctl s' (epoll_ctl_add pty.fd) ≡ failed eexist_number))
              ⊎ ((length (shl_pty_dispatch read writev pty).input < 50) × (r.requests ≡ []))))
  unfolding shl_pty_bridge_dispatch shl_pty_get_fd is_again
  shl_pty_bridge_dispatch-adds s s' read writev pty e = (
    refl,
    refl,
    unchanged (is_again (shl_pty_dispatch read writev pty).result),
    elim (shl_pty_dispatch-reads read writev pty).1 [
      | inl (q, n) ↦ inl (n, ap requests q ∙ ap (λ f. epoll_ctl_add f ∷ []) same, refused)
      | inr (q, n, w) ↦ inr (n, ap requests q)
    ],
  )
    where
      requests : Outcome ℕ → List Control
      requests o =
          if is_again o then epoll_ctl_add (shl_pty_dispatch read writev pty).pty.fd ∷ [] else []

      same : (shl_pty_dispatch read writev pty).pty.fd ≡ pty.fd
      same = unfold shl_pty_dispatch in pty_write-fd writev pty

      refused : epoll_ctl s' (epoll_ctl_add pty.fd) ≡ failed eexist_number
      refused = twice s s' pty.fd (added s s' pty e)

      kept : Answer S → S
      kept o = elim o [ failed x ↦ s' | gave t ↦ t ]

      unchanged :
          (b : Bool)
          → (if b
              then set_after S epoll_ctl s'
                  (epoll_ctl_add (shl_pty_dispatch read writev pty).pty.fd)
              else s')
            ≡ s'
      unchanged true = ap (λ f. set_after S epoll_ctl s' (epoll_ctl_add f)) same ∙ ap kept refused
      unchanged false = refl
