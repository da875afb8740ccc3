-- ===== src/Trie/Map.antt =====
-- A trie as a finite map from keys to entries: what its operations return, and what lookups find
-- after them.
use libshl.Base.{
  Bool, Bool-cases, List, Option, [], ap, arith, false, if◌then◌else◌, inl, inr, length, none, refl,
  some, subst, suc, sym, true, ℕ, ◌/◌, ◌<◌, ◌^◌, ◌∙◌, ◌∷◌, ◌≡◌, ◌≢◌,
}
use libshl.Base.Memory.{
  Outcome, eagain, ealready, efault, einval, enodev, enomem, enotdir, erange, err, errno, ok,
  undefined,
}
use libshl.Trie.{
  Entry, Node, Removed, Trie, absent, byte_at, check_alignment, closest, direction, entry,
  first_difference, gone, insert_at, insert_new, kept, new_otherbits, remove_from, same_key,
  trie_insert, trie_lookup, trie_remove,
}
use libshl.Trie.Difference.{Difference, first_difference-Difference, first_difference_same}
use libshl.Trie.Insert.{insert_at-Inserted, insert_at-Valid}
use libshl.Trie.Inserted.{Inserted}
use libshl.Trie.Lookup.{closest-find, find, find-append, or_else, trie_lookup-find}
use libshl.Trie.Mask.{bit}
use libshl.Trie.Position.{
  Agree, Agree-of_bytes, IsKey, bit_at, bit_at-position, byte_at-lt, position, top_difference,
}
use libshl.Trie.Remove.{Left, remove_from-Left}
use libshl.Trie.Valid.{
  IsTrie, Keys-closest, Valid, Valid-IsKey, contents, entries, leaf, same_key_refl, same_key→eq,
}

-- How an insertion ends.
abbrev pub Inserts : Bool → Trie → Entry → Outcome Trie → Type 0
Inserts alloc t e (ok t') =
    IsTrie t'
    × Inserted e (contents t) (contents t')
    × (find e.key (contents t) ≡ none)
    × (check_alignment e.addr ≡ true)
Inserts alloc t e (err enomem) = alloc ≡ false
Inserts alloc t e (err ealready) = (x : Entry) × (find e.key (contents t) ≡ some x)
Inserts alloc t e (err efault) = check_alignment e.addr ≡ false
Inserts alloc t e (err einval) = ⊥
Inserts alloc t e (err enodev) = ⊥
Inserts alloc t e (err eagain) = ⊥
Inserts alloc t e (err (errno n)) = ⊥
Inserts alloc t e (err erange) = ⊥
Inserts alloc t e (err enotdir) = ⊥
Inserts alloc t e undefined = ⊥

module _ (alloc : Bool) (t : Node) (e : Entry) (v : Valid t) (hk : IsKey e.key) where
  closest_key : IsKey (closest e.key t).key
  closest_key = Keys-closest IsKey e.key t (Valid-IsKey v)

  found_itself : (closest e.key t).key ≡ e.key → find e.key (entries t) ≡ some (closest e.key t)
  found_itself s = sym (closest-find e.key hk v) ∙ rw same
    where
      same : same_key e.key (closest e.key t).key ≡ true
      same = ap (same_key e.key) s ∙ same_key_refl e.key

  not_found : (closest e.key t).key ≢ e.key → find e.key (entries t) ≡ none
  not_found ne = sym (closest-find e.key hk v) ∙ rw different
    where
      different : same_key e.key (closest e.key t).key ≡ false
      different = elim (Bool-cases (same_key e.key (closest e.key t).key)) [
        | inl s ↦ absurd (ne (sym (same_key→eq e.key (closest e.key t).key s)))
        | inr s ↦ s
      ]

  -- The node that goes in at the first bit that differs.
  Inserted-node :
      (i x : ℕ)
      → Difference (closest e.key t).key e.key i x
      → Valid (
          insert_at i
            (new_otherbits x)
            (direction (new_otherbits x) (byte_at (closest e.key t).key i))
            e
            t)
        × Inserted e (entries t) (
            entries (
              insert_at i
                (new_otherbits x)
                (direction (new_otherbits x) (byte_at (closest e.key t).key i))
                e
                t))
  Inserted-node i x d =
      let (k, lt, mask, high, low) =
        top_difference (byte_at ck i) (byte_at e.key i) (byte_at-lt ck i closest_key)
          (byte_at-lt e.key i hk) d.differs in
      subst
        (λ o.
          Valid (insert_at i o (direction o (byte_at ck i)) e t)
          × Inserted e (entries t) (entries (insert_at i o (direction o (byte_at ck i)) e t)))
        (sym (ap new_otherbits d.is_xor ∙ mask))
        (
          insert_at-Valid e ck i k lt hk closest_key (agrees k lt high) (apart k lt low) t v refl,
          insert_at-Inserted e ck i k lt hk closest_key (agrees k lt high) (apart k lt low) t,
        )
    where
      ck : List ℕ
      ck = (closest e.key t).key

      agrees :
          (k : ℕ)
          → k < 8
          → byte_at ck i / 2 ^ suc k ≡ byte_at e.key i / 2 ^ suc k
          → Agree (position i k) e.key ck
      agrees k lt high =
          Agree-of_bytes e.key ck i k lt (λ m le. sym (d.equal_before m le)) (sym high)

      apart :
          (k : ℕ)
          → k < 8
          → bit k (byte_at ck i) ≢ bit k (byte_at e.key i)
          → bit_at e.key (position i k) ≢ bit_at ck (position i k)
      apart k lt low q =
          low (sym (bit_at-position ck i k lt) ∙ sym q ∙ bit_at-position e.key i k lt)

  insert_new-Inserts :
      (d : ℕ × ℕ)
      → first_difference (length e.key) 0 (closest e.key t).key e.key ≡ some d
      → check_alignment e.addr ≡ true
      → Inserts alloc (some t) e (insert_new alloc e t (closest e.key t) d)
  unfolding insert_new
  insert_new-Inserts (i, x) f al = go alloc refl
    where
      ck : List ℕ
      ck = (closest e.key t).key

      d : Difference ck e.key i x
      d =
          first_difference-Difference (length e.key) 0 ck e.key i x (omega arith)
            (λ m lt. absurd (omega arith)) f

      new_trie : Node
      new_trie = insert_at i (new_otherbits x) (direction (new_otherbits x) (byte_at ck i)) e t

      placed : Valid new_trie × Inserted e (entries t) (entries new_trie)
      placed = Inserted-node i x d

      go :
          (b : Bool)
          → alloc ≡ b
          → Inserts alloc (some t) e (if b then ok (some new_trie) else err enomem)
      go false a = a
      go true a = (placed.0, placed.1, not_found (λ s. d.differs (ap (λ z. byte_at z i) s)), al)

  trie_insert-some : Inserts alloc (some t) e (trie_insert alloc (some t) e)
  unfolding trie_insert
  trie_insert-some =
      go (check_alignment e.addr) refl
        (first_difference (length e.key) 0 (closest e.key t).key e.key) refl
    where
      go :
          (b : Bool)
          → check_alignment e.addr ≡ b
          → (d : Option (ℕ × ℕ)) → first_difference (length e.key) 0 (closest e.key t).key e.key ≡ d
          → Inserts alloc (some t) e (
              if b
              then (elim d [
                | none ↦ err ealready
                | some d ↦ insert_new alloc e t (closest e.key t) d
              ])
              else err efault)
      go false al d f = al
      go true al none f = (
        closest e.key t,
        found_itself (first_difference_same (closest e.key t).key e.key closest_key hk f),
      )
      go true al (some d) f = insert_new-Inserts d f al

-- `shl_trie_insert` either adds exactly the new entry and keeps the invariant, which it does only
-- if the key is new and the entry aligned, or leaves the trie alone: with -EFAULT for an unaligned
-- entry, with -EALREADY for a key that is there, with -ENOMEM if the allocation failed.
pub trie_insert-Inserts :
    (alloc : Bool) (t : Trie) (e : Entry)
    → IsTrie t
    → IsKey e.key
    → Inserts alloc t e (trie_insert alloc t e)
unfolding trie_insert
trie_insert-Inserts alloc none e v hk = go (check_alignment e.addr) refl
  where
    go :
        (b : Bool)
        → check_alignment e.addr ≡ b
        → Inserts alloc none e (if b then ok (some (entry e)) else err efault)
    go true al =
        (leaf hk, record { before = []; after = []; without = refl; with_it = refl }, refl, al)
    go false al = al
trie_insert-Inserts alloc (some t) e v hk = trie_insert-some alloc t e v hk

-- After an entry is put in, it is found under its key, and all other keys find what they found.
find-Inserted :
    (e : Entry) (xs ys : List Entry) (key : List ℕ)
    → Inserted e xs ys
    → find e.key xs ≡ none
    → find key ys ≡ (if same_key key e.key then some e else find key xs)
find-Inserted e xs ys key i n =
    ap (find key) i.with_it
    ∙ find-append key i.before (e ∷ i.after)
    ∙ go (same_key key e.key) refl
    ∙ ap (λ o. if same_key key e.key then some e else o)
        (sym (ap (find key) i.without ∙ find-append key i.before i.after))
  where
    none_left : (o p : Option Entry) → or_else o p ≡ none → o ≡ none
    none_left none p h = refl
    none_left (some x) p h = h

    go :
        (b : Bool)
        → same_key key e.key ≡ b
        → or_else (find key i.before) (if b then some e else find key i.after)
          ≡ (if b then some e else or_else (find key i.before) (find key i.after))
    go false s = refl
    go true s =
        ap (λ o. or_else o (some e))
          (none_left (find key i.before) (find key i.after) (
            sym (find-append key i.before i.after)
            ∙ sym (ap (find key) i.without)
            ∙ ap (λ z. find z xs) (same_key→eq key e.key s)
            ∙ n))

-- A lookup after a successful `shl_trie_insert` finds the new entry under its key, and under any
-- other key what it found before.
pub trie_lookup-trie_insert :
    (alloc : Bool) (t t' : Trie) (e : Entry) (key : List ℕ)
    → IsTrie t
    → IsKey e.key
    → IsKey key
    → trie_insert alloc t e ≡ ok t'
    → trie_lookup t' key ≡ (if same_key key e.key then some e else trie_lookup t key)
trie_lookup-trie_insert alloc t t' e key v hk hj q =
    let (v', i, n, al) = subst (Inserts alloc t e) q (trie_insert-Inserts alloc t e v hk) in
    trie_lookup-find t' key v' hj
    ∙ find-Inserted e (contents t) (contents t') key i n
    ∙ ap (λ o. if same_key key e.key then some e else o) (sym (trie_lookup-find t key v hj))

-- The parts of a removal, by what is left of the root.
record Removes (t : Trie) (key j : List ℕ) (out : Option Entry × Trie) : Type 0 where
  returned : out.0 ≡ find key (contents t)
  valid : IsTrie out.1
  found : find j (contents out.1) ≡ (if same_key j key then none else find j (contents t))

removed_Removes :
    (t : Node) (key j : List ℕ) (x : Removed)
    → Valid t
    → Left key t x
    → Removes (some t) key j (elim x [
      | absent ↦ (none, some t)
      | gone e ↦ (some e, none)
      | kept e t' ↦ (some e, some t')
    ])
removed_Removes t key j absent v h = record {
  returned = sym h;
  valid = v;
  found = go (same_key j key) refl;
}
  where
    go :
        (b : Bool)
        → same_key j key ≡ b
        → find j (entries t) ≡ (if b then none else find j (entries t))
    go true s = ap (λ z. find z (entries t)) (same_key→eq j key s) ∙ h
    go false s = refl
removed_Removes t key j (gone e) v (h, s) = record {
  returned = sym (ap (find key) h ∙ rw s);
  valid = tt;
  found = go (same_key j key) refl;
}
  where
    go : (b : Bool) → same_key j key ≡ b → none ≡ (if b then none else find j (entries t))
    go true q = refl
    go false q = sym (ap (find j) h ∙ rw other)
      where
        other : same_key j e.key ≡ false
        other = ap (same_key j) (sym (same_key→eq key e.key s)) ∙ q
removed_Removes t key j (kept e t') v (v', i, s, n) = record {
  returned = sym (find-Inserted e (entries t') (entries t) key i no_e ∙ rw s);
  valid = v';
  found = go (same_key j key) refl;
}
  where
    no_e : find e.key (entries t') ≡ none
    no_e = ap (λ z. find z (entries t')) (sym (same_key→eq key e.key s)) ∙ n

    go :
        (b : Bool)
        → same_key j key ≡ b
        → find j (entries t') ≡ (if b then none else find j (entries t))
    go true q = ap (λ z. find z (entries t')) (same_key→eq j key q) ∙ n
    go false q = sym (find-Inserted e (entries t') (entries t) j i no_e ∙ rw other)
      where
        other : same_key j e.key ≡ false
        other = ap (same_key j) (sym (same_key→eq key e.key s)) ∙ q

trie_remove-Removes :
    (t : Trie) (key j : List ℕ) → IsTrie t → IsKey key → Removes t key j (trie_remove t key)
unfolding trie_remove
trie_remove-Removes none key j v hk = record {
  returned = refl;
  valid = tt;
  found = go (same_key j key);
}
  where
    go : (b : Bool) → none ≡ (if b then none else find j [])
    go true = refl
    go false = refl
trie_remove-Removes (some t) key j v hk =
    removed_Removes t key j (remove_from key t) v (remove_from-Left key hk v)

-- `shl_trie_remove` returns what a lookup finds, keeps the invariant, and afterwards the key finds
-- nothing and any other key what it found before.
pub trie_remove_lem :
    (t : Trie) (key j : List ℕ)
    → IsTrie t
    → IsKey key
    → IsKey j
    → ((trie_remove t key).0 ≡ trie_lookup t key)
      × IsTrie (trie_remove t key).1
      × (trie_lookup (trie_remove t key).1 j ≡ (if same_key j key then none else trie_lookup t j))
trie_remove_lem t key j v hk hj =
    let r = trie_remove-Removes t key j v hk in
    (
      r.returned ∙ sym (trie_lookup-find t key v hk),
      r.valid,
      trie_lookup-find (trie_remove t key).1 j r.valid hj
          ∙ r.found
          ∙ ap (λ o. if same_key j key then none else o) (sym (trie_lookup-find t j v hj)),
    )
