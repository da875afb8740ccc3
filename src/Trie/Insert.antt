-- ===== src/Trie/Insert.antt =====
-- The walk of `shl_trie_insert` keeps the invariant and adds one entry.
use libshl.Base.{
  Bool, List, ap, arith, false, if◌then◌else◌, ltb, refl, subst, sym, true, ℕ, ◌&&◌, ◌++◌, ◌-◌, ◌<◌,
  ◌==◌, ◌^◌, ◌||◌, ◌∙◌, ◌≡◌, ◌≢◌, ◌≤◌,
}
use libshl.Trie.{Entry, Node, byte_at, closest, direction, entry, fork, goes_right, insert_at, node}
use libshl.Trie.Fork.{Keys-fork, fork-Inserted, fork-Valid, goes_on_before, stops_before}
use libshl.Trie.Inserted.{Inserted, Inserted-left, Inserted-right}
use libshl.Trie.Position.{Agree, IsKey, bit_at, position}
use libshl.Trie.Valid.{Keys, Keys-closest, Keys-map, Valid, branch, entries, left_bit, right_bit}

-- The walk: a new entry `e` whose key first differs from the key `ck` at bit `k` of byte `nb`.
module _ (e : Entry) (ck : List ℕ) (nb k : ℕ) (small : k < 8) (e_key : IsKey e.key)
    (c_key : IsKey ck) (agree : Agree (position nb k) e.key ck)
    (differ : bit_at e.key (position nb k) ≢ bit_at ck (position nb k)) where
  pub insert_at-Inserted :
      (t : Node)
      → Inserted e
          (entries t)
          (entries (insert_at nb (255 - 2 ^ k) (direction (255 - 2 ^ k) (byte_at ck nb)) e t))
  unfolding insert_at
  insert_at-Inserted (entry x) = fork-Inserted e ck nb k small e_key c_key agree differ (entry x)
  insert_at-Inserted (node byte o l r) =
      go (ltb nb byte || byte == nb && ltb (255 - 2 ^ k) o) (goes_right byte o e.key)
        (insert_at-Inserted l) (insert_at-Inserted r)
    where
      go :
          (b c : Bool)
          → Inserted e
              (entries l)
              (entries (insert_at nb (255 - 2 ^ k) (direction (255 - 2 ^ k) (byte_at ck nb)) e l))
          → Inserted e
              (entries r)
              (entries (insert_at nb (255 - 2 ^ k) (direction (255 - 2 ^ k) (byte_at ck nb)) e r))
          → Inserted e (entries l ++ entries r) (
              entries (
                if b
                then fork nb
                    (255 - 2 ^ k)
                    (direction (255 - 2 ^ k) (byte_at ck nb))
                    e
                    (node byte o l r)
                else if c
                then node byte o l
                    (insert_at nb (255 - 2 ^ k) (direction (255 - 2 ^ k) (byte_at ck nb)) e r)
                else node byte o
                    (insert_at nb (255 - 2 ^ k) (direction (255 - 2 ^ k) (byte_at ck nb)) e l)
                    r))
      go true c il ir = fork-Inserted e ck nb k small e_key c_key agree differ (node byte o l r)
      go false true il ir = Inserted-left (entries l) ir
      go false false il ir = Inserted-right (entries r) il

  Keys-insert_at :
      (P : List ℕ → Type 0) (t : Node)
      → P e.key
      → Keys P t
      → Keys P (insert_at nb (255 - 2 ^ k) (direction (255 - 2 ^ k) (byte_at ck nb)) e t)
  unfolding insert_at
  Keys-insert_at P (entry x) p h =
      Keys-fork e ck nb k small e_key c_key agree differ P (entry x) p h
  Keys-insert_at P (node byte o l r) p (hl, hr) =
      go (ltb nb byte || byte == nb && ltb (255 - 2 ^ k) o) (goes_right byte o e.key)
        (Keys-insert_at P l p hl) (Keys-insert_at P r p hr)
    where
      go :
          (b c : Bool)
          → Keys P (insert_at nb (255 - 2 ^ k) (direction (255 - 2 ^ k) (byte_at ck nb)) e l)
          → Keys P (insert_at nb (255 - 2 ^ k) (direction (255 - 2 ^ k) (byte_at ck nb)) e r)
          → Keys P (
              if b
              then fork nb
                  (255 - 2 ^ k)
                  (direction (255 - 2 ^ k) (byte_at ck nb))
                  e
                  (node byte o l r)
              else if c
              then node byte o l
                  (insert_at nb (255 - 2 ^ k) (direction (255 - 2 ^ k) (byte_at ck nb)) e r)
              else node byte o
                  (insert_at nb (255 - 2 ^ k) (direction (255 - 2 ^ k) (byte_at ck nb)) e l)
                  r)
      go true c il ir =
          Keys-fork e ck nb k small e_key c_key agree differ P (node byte o l r) p (hl, hr)
      go false true il ir = (hl, ir)
      go false false il ir = (il, hr)

  -- One node of the walk: the new node goes above it, to its left or to its right.
  module _ (byte o : ℕ) (l r : Node) (j : ℕ) (w : List ℕ) (lt : j < 8) (eo : o ≡ 255 - 2 ^ j)
      (vl : Valid l) (vr : Valid r) (zl : Keys (λ a. bit_at a (position byte j) ≡ 0) l)
      (zr : Keys (λ a. bit_at a (position byte j) ≡ 1) r)
      (al : Keys (λ a. Agree (position byte j) a w) l)
      (ar : Keys (λ a. Agree (position byte j) a w) r)
      (c : (closest e.key (node byte o l r)).key ≡ ck) where
    near : Agree (position byte j) ck w
    near =
        subst (λ x. Agree (position byte j) x w) c
          (Keys-closest (λ a. Agree (position byte j) a w) e.key (node byte o l r) (al, ar))

    like_new : position byte j ≤ position nb k → Agree (position byte j) e.key w
    like_new le q p = agree q (omega arith) ∙ near q p

    above-Valid :
        position nb k < position byte j
        → Valid
            (fork nb (255 - 2 ^ k) (direction (255 - 2 ^ k) (byte_at ck nb)) e (node byte o l r))
    above-Valid h =
        fork-Valid e ck nb k small e_key c_key agree differ (node byte o l r)
          (branch j w lt eo vl vr zl zr al ar)
          (Keys-map (node byte o l r) (λ a g q p. g q (omega arith) ∙ sym (near q (omega arith)))
            (al, ar))
          (Keys-map (node byte o l r)
            (λ a g. g (position nb k) (omega arith) ∙ sym (near (position nb k) (omega arith)))
            (al, ar))

    right-Valid :
        position byte j ≤ position nb k
        → goes_right byte o e.key ≡ true
        → Valid (insert_at nb (255 - 2 ^ k) (direction (255 - 2 ^ k) (byte_at ck nb)) e r)
        → Valid (
            node byte o l
              (insert_at nb (255 - 2 ^ k) (direction (255 - 2 ^ k) (byte_at ck nb)) e r))
    right-Valid le g v =
        branch j w lt eo vl v zl
          (Keys-insert_at (λ a. bit_at a (position byte j) ≡ 1) r
            (right_bit byte o j e.key lt eo e_key g) zr)
          al (Keys-insert_at (λ a. Agree (position byte j) a w) r (like_new le) ar)

    left-Valid :
        position byte j ≤ position nb k
        → goes_right byte o e.key ≡ false
        → Valid (insert_at nb (255 - 2 ^ k) (direction (255 - 2 ^ k) (byte_at ck nb)) e l)
        → Valid (
            node byte o
              (insert_at nb (255 - 2 ^ k) (direction (255 - 2 ^ k) (byte_at ck nb)) e l)
              r)
    left-Valid le g v =
        branch j w lt eo v vr
          (Keys-insert_at (λ a. bit_at a (position byte j) ≡ 0) l
            (left_bit byte o j e.key lt eo e_key g) zl)
          zr (Keys-insert_at (λ a. Agree (position byte j) a w) l (like_new le) al) ar

  closest_right :
      (byte o : ℕ) (l r : Node)
      → goes_right byte o e.key ≡ true
      → closest e.key (node byte o l r) ≡ closest e.key r
  unfolding closest
  closest_right byte o l r g = rw g

  closest_left :
      (byte o : ℕ) (l r : Node)
      → goes_right byte o e.key ≡ false
      → closest e.key (node byte o l r) ≡ closest e.key l
  unfolding closest
  closest_left byte o l r g = rw g

  pub insert_at-Valid :
      (t : Node)
      → Valid t
      → (closest e.key t).key ≡ ck
      → Valid (insert_at nb (255 - 2 ^ k) (direction (255 - 2 ^ k) (byte_at ck nb)) e t)
  unfolding insert_at
  insert_at-Valid (entry x) v c =
      unfold closest in
      fork-Valid e ck nb k small e_key c_key agree differ (entry x) v
        (λ q lt. ap (λ a. bit_at a q) c) (ap (λ a. bit_at a (position nb k)) c)
  insert_at-Valid (node byte o l r) (branch j w lt eo vl vr zl zr al ar) c =
      go (ltb nb byte || byte == nb && ltb (255 - 2 ^ k) o) (goes_right byte o e.key) refl refl
        (λ d. insert_at-Valid l vl d) (λ d. insert_at-Valid r vr d)
    where
      go :
          (b g : Bool)
          → (ltb nb byte || byte == nb && ltb (255 - 2 ^ k) o) ≡ b
          → goes_right byte o e.key ≡ g
          → ((closest e.key l).key ≡ ck
              → Valid (insert_at nb (255 - 2 ^ k) (direction (255 - 2 ^ k) (byte_at ck nb)) e l))
          → ((closest e.key r).key ≡ ck
              → Valid (insert_at nb (255 - 2 ^ k) (direction (255 - 2 ^ k) (byte_at ck nb)) e r))
          → Valid (
              if b
              then fork nb
                  (255 - 2 ^ k)
                  (direction (255 - 2 ^ k) (byte_at ck nb))
                  e
                  (node byte o l r)
              else if g
              then node byte o l
                  (insert_at nb (255 - 2 ^ k) (direction (255 - 2 ^ k) (byte_at ck nb)) e r)
              else node byte o
                  (insert_at nb (255 - 2 ^ k) (direction (255 - 2 ^ k) (byte_at ck nb)) e l)
                  r)
      go true g s d il ir = above-Valid byte o l r j w lt eo vl vr zl zr al ar c (
          stops_before nb k byte j small lt
            (ap (λ x. ltb nb byte || byte == nb && ltb (255 - 2 ^ k) x) (sym eo) ∙ s))
      go false true s d il ir =
          right-Valid byte o l r j w lt eo vl vr zl zr al ar c
            (goes_on_before nb k byte j small lt
              (ap (λ x. ltb nb byte || byte == nb && ltb (255 - 2 ^ k) x) (sym eo) ∙ s))
            d (ir (ap (λ x. x.key) (sym (closest_right byte o l r d)) ∙ c))
      go false false s d il ir =
          left-Valid byte o l r j w lt eo vl vr zl zr al ar c
            (goes_on_before nb k byte j small lt
              (ap (λ x. ltb nb byte || byte == nb && ltb (255 - 2 ^ k) x) (sym eo) ∙ s))
            d (il (ap (λ x. x.key) (sym (closest_left byte o l r d)) ∙ c))
