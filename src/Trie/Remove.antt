-- ===== src/Trie/Remove.antt =====
-- `shl_trie_remove`: the entry that is unlinked, the invariant, and what is left.
use libshl.Base.{
  Bool, List, [], ap, append-nil, arith, false, if◌then◌else◌, none, refl, sym, true, ℕ, ◌++◌, ◌∙◌,
  ◌∷◌, ◌≡◌,
}
use libshl.Trie.{
  Entry, Node, Removed, absent, entry, goes_right, gone, kept, node, relink, remove_from, same_key,
}
use libshl.Trie.Inserted.{Inserted, Inserted-left, Inserted-right}
use libshl.Trie.Lookup.{find, find-append, find-none_bit, or_else}
use libshl.Trie.Position.{Agree, IsKey, bit_at, position}
use libshl.Trie.Valid.{Keys, Valid, branch, entries, leaf, left_bit, right_bit}

-- What is left of a subtree, in terms of its entries.
abbrev pub Left : List ℕ → Node → Removed → Type 0
Left key t absent = find key (entries t) ≡ none
Left key t (gone e) = (entries t ≡ e ∷ []) × (same_key key e.key ≡ true)
Left key t (kept e t') =
    Valid t'
    × Inserted e (entries t') (entries t)
    × (same_key key e.key ≡ true)
    × (find key (entries t') ≡ none)

-- A predicate on keys goes over to what is left.
abbrev pub LeftKeys : (List ℕ → Type 0) → Removed → Type 0
LeftKeys P absent = Unit
LeftKeys P (gone e) = Unit
LeftKeys P (kept e t) = Keys P t

remove_from-LeftKeys :
    (P : List ℕ → Type 0) (key : List ℕ) (t : Node) → Keys P t → LeftKeys P (remove_from key t)
unfolding remove_from relink
remove_from-LeftKeys P key (entry e) h =
    elim (same_key key e.key) as (λ b. LeftKeys P (if b then gone e else absent)) [
      | true ↦ tt
      | false ↦ tt
    ]
remove_from-LeftKeys P key (node byte o l r) (hl, hr) =
    elim (goes_right byte o key)
      as (λ b. LeftKeys P (
        if b
        then relink (node byte o l) l (remove_from key r)
        else relink (λ t. node byte o t r) r (remove_from key l))) [
          | true ↦ right (remove_from key r) (remove_from-LeftKeys P key r hr)
          | false ↦ left (remove_from key l) (remove_from-LeftKeys P key l hl)
        ]
  where
    right : (x : Removed) → LeftKeys P x → LeftKeys P (relink (node byte o l) l x)
    right absent h = tt
    right (gone e) h = hl
    right (kept e t) h = (hl, h)

    left : (x : Removed) → LeftKeys P x → LeftKeys P (relink (λ t. node byte o t r) r x)
    left absent h = tt
    left (gone e) h = hr
    left (kept e t) h = (h, hr)

find_right :
    (key : List ℕ) (xs ys : List Entry) → find key xs ≡ none → find key (xs ++ ys) ≡ find key ys
find_right key xs ys e = find-append key xs ys ∙ ap (λ o. or_else o (find key ys)) e

find_both :
    (key : List ℕ) (xs ys : List Entry)
    → find key xs ≡ none
    → find key ys ≡ none
    → find key (xs ++ ys) ≡ none
find_both key xs ys e f = find_right key xs ys e ∙ f

pub remove_from-Left :
    (key : List ℕ) {t : Node} → IsKey key → Valid t → Left key t (remove_from key t)
unfolding remove_from relink
remove_from-Left key hk (leaf {e = e} h) = go (same_key key e.key) refl
  where
    go : (b : Bool) → same_key key e.key ≡ b → Left key (entry e) (if b then gone e else absent)
    go true s = (refl, s)
    go false s = ground arith
remove_from-Left key hk
      (branch {byte = byte} {otherbits = o} {l = l} {r = r} k w lt e vl vr zl zr al ar) =
    go (goes_right byte o key) refl (remove_from-Left key hk vl) (remove_from-Left key hk vr)
  where
    go_right :
        goes_right byte o key ≡ true
        → (x : Removed) → Left key r x
        → LeftKeys (λ a. bit_at a (position byte k) ≡ 1) x
        → LeftKeys (λ a. Agree (position byte k) a w) x
        → Left key (node byte o l r) (relink (node byte o l) l x)
    go_right g x h b a = right x h b a
      where
        not_left : find key (entries l) ≡ none
        not_left =
            find-none_bit key l (position byte k) 1 0 (right_bit byte o k key lt e hk g)
              (omega arith) zl

        right :
            (x : Removed)
            → Left key r x
            → LeftKeys (λ a. bit_at a (position byte k) ≡ 1) x
            → LeftKeys (λ a. Agree (position byte k) a w) x
            → Left key (node byte o l r) (relink (node byte o l) l x)
        right absent h b a = find_both key (entries l) (entries r) not_left h
        right (gone x) (h, s) b a = (
          vl,
          record {
            before = entries l;
            after = [];
            without = sym (append-nil (entries l));
            with_it = ap (λ t. entries l ++ t) h;
          },
          s,
          not_left,
        )
        right (kept x t) (v, i, s, n) b a = (
          branch k w lt e vl v zl b al a,
          Inserted-left (entries l) i,
          s,
          find_both key (entries l) (entries t) not_left n,
        )

    go_left :
        goes_right byte o key ≡ false
        → (x : Removed) → Left key l x
        → LeftKeys (λ a. bit_at a (position byte k) ≡ 0) x
        → LeftKeys (λ a. Agree (position byte k) a w) x
        → Left key (node byte o l r) (relink (λ t. node byte o t r) r x)
    go_left g x h b a = left x h b a
      where
        not_right : find key (entries r) ≡ none
        not_right =
            find-none_bit key r (position byte k) 0 1 (left_bit byte o k key lt e hk g)
              (omega arith) zr

        left :
            (x : Removed)
            → Left key l x
            → LeftKeys (λ a. bit_at a (position byte k) ≡ 0) x
            → LeftKeys (λ a. Agree (position byte k) a w) x
            → Left key (node byte o l r) (relink (λ t. node byte o t r) r x)
        left absent h b a = find_both key (entries l) (entries r) h not_right
        left (gone x) (h, s) b a = (
          vr,
          record {
            before = [];
            after = entries r;
            without = refl;
            with_it = ap (λ t. t ++ entries r) h;
          },
          s,
          not_right,
        )
        left (kept x t) (v, i, s, n) b a = (
          branch k w lt e v vr b zr a ar,
          Inserted-right (entries r) i,
          s,
          find_both key (entries t) (entries r) n not_right,
        )

    go :
        (g : Bool)
        → goes_right byte o key ≡ g
        → Left key l (remove_from key l)
        → Left key r (remove_from key r)
        → Left key (node byte o l r) (
            if g
            then relink (node byte o l) l (remove_from key r)
            else relink (λ t. node byte o t r) r (remove_from key l))
    go true g il ir =
        go_right g (remove_from key r) ir
          (remove_from-LeftKeys (λ a. bit_at a (position byte k) ≡ 1) key r zr)
          (remove_from-LeftKeys (λ a. Agree (position byte k) a w) key r ar)
    go false g il ir =
        go_left g (remove_from key l) il
          (remove_from-LeftKeys (λ a. bit_at a (position byte k) ≡ 0) key l zl)
          (remove_from-LeftKeys (λ a. Agree (position byte k) a w) key l al)
