-- ===== src/Ring/Fifo.antt =====
-- A ring behind its calls is an unbounded queue of bytes whose insertions may fail for lack of
-- memory.
use libshl.Base.{
  List, Option, [], ap, arith, drop, inl, inr, length, length-append, min, none, refl, some, sym,
  take, take-min, ℕ, ◌++◌, ◌+◌, ◌^◌, ◌∷◌, ◌≡◌, ◌≤◌,
}
use libshl.Base.Memory.{Allocator, IsAllocator, Outcome, err, ok, undefined}
use libshl.Ring.{
  Ring, empty_ring, ring_clear, ring_copy, ring_flush, ring_get_size, ring_pull, ring_push,
}
use libshl.Ring.Contents.{contents, length-contents, ring_copy_lem}
use libshl.Ring.Pull.{contents-ring_pull, pulled_used, ring_pull-IsValid}
use libshl.Ring.Push.{Succeeds, ring_push-appends}
use libshl.Ring.Valid.{IsValid}

-- The calls of a client. Each push comes with the allocator as it is at that time.
pub data Op : Type 0 where
  push : Allocator → List ℕ → Op
  pull : ℕ → Op
  copy : ℕ → Op
  get_size : Op
  flush : Op
  clear : Op

-- What the client sees: a status, a copy of bytes, a size, or nothing.
pub data Reply : Type 0 where
  done : Reply
  no_memory : Reply
  copied : ℕ → List ℕ → Reply
  held : ℕ → Reply

-- The queue, oldest byte first.
pub data Step : List ℕ → Op → Reply → List ℕ → Type 0 where
  pushed : (q : List ℕ) (a : Allocator) (u8 : List ℕ) → Step q (push a u8) done (q ++ u8)
  refused :
      (q : List ℕ) (a : Allocator) (u8 : List ℕ)
      → (n : ℕ) × (a.malloc n ≡ none)
      → Step q (push a u8) no_memory q
  pulled : (q : List ℕ) (n : ℕ) → Step q (pull n) done (drop n q)
  read : (q : List ℕ) (n : ℕ) → Step q (copy n) (copied (min n (length q)) (take n q)) q
  measured : (q : List ℕ) → Step q get_size (held (length q)) q
  flushed : (q : List ℕ) → Step q flush done []
  cleared : (q : List ℕ) → Step q clear done []

pub data Run : List ℕ → List Op → List Reply → List ℕ → Type 0 where
  stop : (q : List ℕ) → Run q [] [] q
  next :
      {q q' q'' : List ℕ} {op : Op} {ops : List Op} {x : Reply} {xs : List Reply}
      → Step q op x q'
      → Run q' ops xs q''
      → Run q (op ∷ ops) (x ∷ xs) q''

-- One call on the ring; `none` is undefined behaviour.
unfoldable pub ring_step : Ring → Op → Option (Reply × Ring)
ring_step r (push a u8) = elim (ring_push a r u8) [
  | ok r' ↦ some (done, r')
  | err e ↦ some (no_memory, r)
  | undefined ↦ none
]
ring_step r (pull n) = some (done, ring_pull r n)
ring_step r (copy n) = some (copied (ring_copy r n).0 (ring_copy r n).1, r)
ring_step r get_size = some (held (ring_get_size r), r)
ring_step r flush = some (done, ring_flush r)
ring_step r clear = some (done, ring_clear r)

unfoldable pub ring_run : Ring → List Op → Option (List Reply × Ring)
ring_run r [] = some ([], r)
ring_run r (op ∷ ops) = elim (ring_step r op) [
  | none ↦ none
  | some (x, r') ↦ elim (ring_run r' ops) [ none ↦ none | some (xs, r'') ↦ some (x ∷ xs, r'') ]
]

-- The bytes that a call may add.
abbrev pub growth : Op → ℕ
growth (push a u8) = length u8
growth (pull n) = 0
growth (copy n) = 0
growth get_size = 0
growth flush = 0
growth clear = 0

abbrev pub total_growth : List Op → ℕ
total_growth [] = 0
total_growth (op ∷ ops) = growth op + total_growth ops

-- The allocators of the pushes keep the C standard's promises.
abbrev pub Lawful : List Op → Type 0
Lawful [] = Unit
Lawful (push a u8 ∷ ops) = IsAllocator a × Lawful ops
Lawful (pull n ∷ ops) = Lawful ops
Lawful (copy n ∷ ops) = Lawful ops
Lawful (get_size ∷ ops) = Lawful ops
Lawful (flush ∷ ops) = Lawful ops
Lawful (clear ∷ ops) = Lawful ops

pub ring_flush-IsValid : {r : Ring} → IsValid r → IsValid (ring_flush r)
unfolding ring_flush
ring_flush-IsValid v = record {
  storage = v.storage;
  power = v.power;
  bounded = v.bounded;
  start_in = omega (arith, v);
  used_in = omega arith;
}

pub empty_ring-IsValid : IsValid empty_ring
empty_ring-IsValid = record {
  storage = refl;
  power = inl refl;
  bounded = omega arith;
  start_in = inr (refl, refl);
  used_in = omega arith;
}

-- What one call does, at the ring and at its queue.
record Simulates (r : Ring) (op : Op) : Type 0 where
  reply : Reply
  after : Ring
  stepped : ring_step r op ≡ some (reply, after)
  valid : IsValid after
  abstract : Step (contents r) op reply (contents after)
  grows : after.used ≤ r.used + growth op

module _ {r : Ring} (v : IsValid r) where
  push_simulated :
      (a : Allocator) (u8 : List ℕ)
      → IsAllocator a
      → r.used + length u8 ≤ 2 ^ 63
      → Simulates r (push a u8)
  unfolding ring_step
  push_simulated a u8 h small = go (ring_push a r u8) refl (ring_push-appends a h u8 v small)
    where
      go :
          (o : Outcome Ring)
          → ring_push a r u8 ≡ o
          → Succeeds a (λ r'. IsValid r' × (contents r' ≡ contents r ++ u8)) o
          → Simulates r (push a u8)
      go (ok r') e (v', c) = record {
        reply = done;
        after = r';
        stepped = rw (e, ring_step);
        valid = v';
        abstract = rw c (pushed (contents r) a u8);
        grows = omega (
          arith,
          length-contents v,
          length-contents v',
          ap length c,
          length-append (contents r) u8,
        );
      }
      go (err x) e (x_mem, n, failed) = record {
        reply = no_memory;
        after = r;
        stepped = rw (e, ring_step);
        valid = v;
        abstract = refused (contents r) a u8 (n, failed);
        grows = omega arith;
      }
      go undefined e bad = absurd bad

  step_simulated : (op : Op) → Lawful (op ∷ []) → r.used + growth op ≤ 2 ^ 63 → Simulates r op
  unfolding ring_step ring_get_size ring_clear ring_flush
  step_simulated (push a u8) (h, _) small = push_simulated a u8 h small
  step_simulated (pull n) h small = record {
    reply = done;
    after = ring_pull r n;
    stepped = refl;
    valid = ring_pull-IsValid n v;
    abstract = rw (contents-ring_pull n v) (pulled (contents r) n);
    grows = omega (arith, pulled_used n v);
  }
  step_simulated (copy n) h small = record {
    reply = copied (min n (length (contents r))) (take n (contents r));
    after = r;
    stepped = ap (λ t. some (t, r)) copies;
    valid = v;
    abstract = read (contents r) n;
    grows = omega arith;
  }
    where
      copies :
          copied (ring_copy r n).0 (ring_copy r n).1
          ≡ copied (min n (length (contents r))) (take n (contents r))
      copies =
          rw (ring_copy_lem n v, length-contents v)
            (ap (copied (min n r.used)) (take-min n (contents r) r.used (length-contents v)))
  step_simulated get_size h small = record {
    reply = held (length (contents r));
    after = r;
    stepped = ap (λ k. some (held k, r)) (sym (length-contents v));
    valid = v;
    abstract = measured (contents r);
    grows = omega arith;
  }
  step_simulated flush h small = record {
    reply = done;
    after = ring_flush r;
    stepped = refl;
    valid = ring_flush-IsValid v;
    abstract = flushed (contents r);
    grows = omega arith;
  }
  step_simulated clear h small = record {
    reply = done;
    after = ring_clear r;
    stepped = refl;
    valid = empty_ring-IsValid;
    abstract = cleared (contents r);
    grows = omega arith;
  }

Lawful-split : (op : Op) (ops : List Op) → Lawful (op ∷ ops) → Lawful (op ∷ []) × Lawful ops
Lawful-split (push a u8) ops (h, t) = ((h, tt), t)
Lawful-split (pull n) ops h = (tt, h)
Lawful-split (copy n) ops h = (tt, h)
Lawful-split get_size ops h = (tt, h)
Lawful-split flush ops h = (tt, h)
Lawful-split clear ops h = (tt, h)

ring_run-cons :
    (r : Ring) (op : Op) (ops : List Op) {x : Reply} {r' : Ring} {xs : List Reply} {r'' : Ring}
    → ring_step r op ≡ some (x, r')
    → ring_run r' ops ≡ some (xs, r'')
    → ring_run r (op ∷ ops) ≡ some (x ∷ xs, r'')
unfolding ring_run
ring_run-cons r op ops e f = ground arith

-- Any sequence of calls on a valid ring has defined behaviour, as long as what the ring
-- holds and what is pushed are at most 2^63 bytes together, and what the client sees is a run of the queue: every push
-- either appends all its bytes or fails together with an allocation and changes nothing.
pub ring_run-Run :
    {r : Ring} (ops : List Op)
    → IsValid r
    → Lawful ops
    → r.used + total_growth ops ≤ 2 ^ 63
    → (xs : List Reply) × (r' : Ring) × (ring_run r ops ≡ some (xs, r'))
      × IsValid r'
      × Run (contents r) ops xs (contents r')
ring_run-Run {r} [] v h small = ([], r, unfold ring_run in refl, v, stop (contents r))
ring_run-Run {r} (op ∷ ops) v h small =
    let s = step_simulated v op (Lawful-split op ops h).0 (omega arith) in
    let (xs, r', e, v', steps) =
      ring_run-Run {r = s.after} ops s.valid (Lawful-split op ops h).1 (omega (arith, s.grows)) in
    (s.reply ∷ xs, r', ring_run-cons r op ops s.stepped e, v', next s.abstract steps)
