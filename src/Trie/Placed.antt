-- ===== src/Trie/Placed.antt =====
-- A trie in memory: which addresses it takes, and that it does not see writes elsewhere.
use libshl.Base.{All, All-split, List, [], arith, suc, true, ℕ, ◌++◌, ◌+◌, ◌∙◌, ◌∷◌, ◌≡◌, ◌≢◌}
use libshl.Trie.Marks.{IsAligned, IsUnmarked, entry-IsUnmarked, node-IsUnmarked}
use libshl.Trie.Traverse.{Memory}

-- A subtree by the addresses of its entries and nodes.
pub data Placed : Type 0 where
  tip : ℕ → Placed
  fork_at : ℕ → Placed → Placed → Placed

-- The pointer to it.
abbrev pub pointer : Placed → ℕ
pointer (tip e) = e
pointer (fork_at a l r) = suc a

-- Its entries from left to right, and its nodes.
abbrev pub tips : Placed → List ℕ
tips (tip e) = e ∷ []
tips (fork_at a l r) = tips l ++ tips r

abbrev pub forks : Placed → List ℕ
forks (tip e) = []
forks (fork_at a l r) = a ∷ (forks l ++ forks r)

abbrev pub Avoids : ℕ → Placed → Type 0
Avoids a t = All (λ b. b ≢ a) (forks t)

-- The rounds of the loop.
abbrev pub rounds : Placed → ℕ
rounds (tip e) = 1
rounds (fork_at a l r) = suc (rounds l + suc (rounds r + 1))

-- The memory holds the subtree, in nodes of its own.
pub record Holds (m : Memory) (a p q : ℕ) : Type 0 where
  pub aligned : IsAligned a
  pub allocated : m.live a ≡ true
  pub left : m.child0 a ≡ p
  pub right : m.child1 a ≡ q

abbrev pub Stored : Memory → Placed → Type 0
Stored m (tip e) = IsAligned e × (e ≢ 0)
Stored m (fork_at a l r) =
    Holds m a (pointer l) (pointer r)
    × Avoids a l
    × Avoids a r
    × All (λ b. Avoids b r) (forks l)
    × Stored m l
    × Stored m r

-- Two memories are equal at an address.
pub record Same (m m' : Memory) (a : ℕ) : Type 0 where
  pub same0 : m'.child0 a ≡ m.child0 a
  pub same1 : m'.child1 a ≡ m.child1 a
  pub same_live : m'.live a ≡ m.live a

pub Same-trans : {m m' m'' : Memory} {a : ℕ} → Same m m' a → Same m' m'' a → Same m m'' a
Same-trans s t = record {
  same0 = t.same0 ∙ s.same0;
  same1 = t.same1 ∙ s.same1;
  same_live = t.same_live ∙ s.same_live;
}

pub Stored-Same :
    (m m' : Memory) (t : Placed) → All (Same m m') (forks t) → Stored m t → Stored m' t
Stored-Same m m' (tip e) f s = s
Stored-Same m m' (fork_at a l r) (s, f) (h, vl, vr, d, sl, sr) =
    let (fl, fr) = All-split (Same m m') (forks l) (forks r) f in
    (
      record {
        aligned = h.aligned;
        allocated = s.same_live ∙ h.allocated;
        left = s.same0 ∙ h.left;
        right = s.same1 ∙ h.right;
      },
      vl,
      vr,
      d,
      Stored-Same m m' l fl sl,
      Stored-Same m m' r fr sr,
    )

pub pointer-IsUnmarked : (m : Memory) (t : Placed) → Stored m t → IsUnmarked (pointer t)
pointer-IsUnmarked m (tip e) (h, n) = entry-IsUnmarked h
pointer-IsUnmarked m (fork_at a l r) s = node-IsUnmarked (s.0).aligned

pub pointer-ne_zero : (m : Memory) (t : Placed) → Stored m t → pointer t ≢ 0
pointer-ne_zero m (tip e) (h, n) = n
pointer-ne_zero m (fork_at a l r) s = omega arith

-- From a predicate and addresses that avoid one another.
pub All-zip :
    {P Q R : ℕ → Type 0} (xs : List ℕ)
    → ((a : ℕ) → P a → Q a → R a)
    → All P xs
    → All Q xs
    → All R xs
All-zip [] f p q = tt
All-zip (x ∷ xs) f (p, ps) (q, qs) = (f x p q, All-zip xs f ps qs)

pub All-map : {P Q : ℕ → Type 0} (xs : List ℕ) → ((a : ℕ) → P a → Q a) → All P xs → All Q xs
All-map [] f p = tt
All-map (x ∷ xs) f (p, ps) = (f x p, All-map xs f ps)
