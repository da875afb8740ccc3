-- ===== src/Trie/Fork.antt =====
-- Where an insertion puts its new node, and the new node itself.
use libshl.Base.{
  ==→eq, Bool-cases, List, [], append-nil, arith, false, if◌then◌else◌, inl, inr, ltb, refl, sym,
  true, ℕ, ◌&&◌, ◌-◌, ◌<◌, ◌==◌, ◌^◌, ◌||◌, ◌∙◌, ◌≡◌, ◌≢◌, ◌≤◌,
}
use libshl.Trie.{Entry, Node, byte_at, direction, entry, fork, node}
use libshl.Trie.Inserted.{Inserted}
use libshl.Trie.Mask.{direction-bit, mask_order}
use libshl.Trie.Position.{Agree, IsKey, bit_at, bit_at-position, byte_at-lt, position}
use libshl.Trie.Valid.{Keys, Keys-map, Valid, branch, entries, leaf}

-- A walk that reaches a node at or before the new position goes on; past it the new node goes in.
pub stops_before :
    (nb k byte j : ℕ)
    → k < 8
    → j < 8
    → (ltb nb byte || byte == nb && ltb (255 - 2 ^ k) (255 - 2 ^ j)) ≡ true
    → position nb k < position byte j
stops_before nb k byte j h p e = ground (arith, mask_order k j h p)

pub goes_on_before :
    (nb k byte j : ℕ)
    → k < 8
    → j < 8
    → (ltb nb byte || byte == nb && ltb (255 - 2 ^ k) (255 - 2 ^ j)) ≡ false
    → position byte j ≤ position nb k
goes_on_before nb k byte j h p e = ground (arith, mask_order k j h p)

-- A new entry `e` whose key first differs from the key `ck` at bit `k` of byte `nb`.
module _ (e : Entry) (ck : List ℕ) (nb k : ℕ) (small : k < 8) (e_key : IsKey e.key)
    (c_key : IsKey ck) (agree : Agree (position nb k) e.key ck)
    (differ : bit_at e.key (position nb k) ≢ bit_at ck (position nb k)) where
  abbrev pub ob : ℕ
  ob = 255 - 2 ^ k

  abbrev pub dir : ℕ
  dir = direction (255 - 2 ^ k) (byte_at ck nb)

  dir_bit : dir ≡ bit_at ck (position nb k)
  dir_bit =
      direction-bit k (byte_at ck nb) small (byte_at-lt ck nb c_key)
      ∙ sym (bit_at-position ck nb k small)

  -- The new node over a subtree whose keys are like `ck` up to the new bit.
  pub fork-Valid :
      (t : Node)
      → Valid t
      → Keys (λ a. Agree (position nb k) a ck) t
      → Keys (λ a. bit_at a (position nb k) ≡ bit_at ck (position nb k)) t
      → Valid (fork nb ob dir e t)
  unfolding fork
  fork-Valid t v ag same = elim (Bool-cases (dir == 0)) [
    | inl z ↦
        rw (z, fork)
          (branch k ck small refl v (leaf e_key)
            (Keys-map t (λ a q. q ∙ sym dir_bit ∙ ==→eq dir 0 z) same) (ground (arith, dir_bit)) ag
            agree)
    | inr z ↦
        rw (z, fork)
          (branch k ck small refl (leaf e_key) v (ground (arith, dir_bit))
            (Keys-map t (λ a q. q ∙ sym dir_bit ∙ one z) same) agree ag)
  ]
    where
      one : (dir == 0) ≡ false → dir ≡ 1
      one z = ground (arith, dir_bit)

  pub fork-Inserted : (t : Node) → Inserted e (entries t) (entries (fork nb ob dir e t))
  unfolding fork
  fork-Inserted t =
      elim (dir == 0)
        as (λ b.
          Inserted e (entries t)
            (entries (if b then node nb ob t (entry e) else node nb ob (entry e) t))) [
              | true ↦ record {
                before = entries t;
                after = [];
                without = sym (append-nil (entries t));
                with_it = refl;
              }
              | false ↦ record { before = []; after = entries t; without = refl; with_it = refl }
            ]

  pub Keys-fork :
      (P : List ℕ → Type 0) (t : Node) → P e.key → Keys P t → Keys P (fork nb ob dir e t)
  unfolding fork
  Keys-fork P t p h =
      elim (dir == 0)
        as (λ b. Keys P (if b then node nb ob t (entry e) else node nb ob (entry e) t)) [
          | true ↦ (h, p)
          | false ↦ (p, h)
        ]
