-- ===== src/Trie/Lookup.antt =====
-- `shl_trie_lookup` is a search through the list of the entries.
use libshl.Base.{
  Bool-cases, List, Option, [], ap, ap₂, arith, false, if◌then◌else◌, inl, inr, none, refl, some,
  sym, ℕ, ◌++◌, ◌∙◌, ◌∷◌, ◌≡◌, ◌≢◌,
}
use libshl.Trie.{Entry, Node, Trie, closest, entry, goes_right, node, same_key, trie_lookup}
use libshl.Trie.Position.{IsKey, bit_at, position}
use libshl.Trie.Valid.{
  IsTrie, Keys, Keys-map, Valid, branch, contents, entries, leaf, left_bit, right_bit,
  same_key-false,
}

-- The specification: the first entry with the key.
abbrev pub find : List ℕ → List Entry → Option Entry
find key [] = none
find key (e ∷ es) = if same_key key e.key then some e else find key es

abbrev pub or_else : Option Entry → Option Entry → Option Entry
or_else none o = o
or_else (some e) o = some e

pub find-append :
    (key : List ℕ) (xs ys : List Entry) → find key (xs ++ ys) ≡ or_else (find key xs) (find key ys)
find-append key [] ys = refl
find-append key (x ∷ xs) ys = ground (arith, find-append key xs ys)

-- A subtree none of whose keys is the key has no such entry.
pub find-none :
    (key : List ℕ) (t : Node) → Keys (λ a. same_key key a ≡ false) t → find key (entries t) ≡ none
find-none key (entry e) h = ground arith
find-none key (node byte otherbits l r) (h, g) =
    find-append key (entries l) (entries r) ∙ ap₂ or_else (find-none key l h) (find-none key r g)

-- All keys of a subtree differ from the key in one bit.
pub find-none_bit :
    (key : List ℕ) (t : Node) (p x y : ℕ)
    → bit_at key p ≡ x
    → x ≢ y
    → Keys (λ a. bit_at a p ≡ y) t
    → find key (entries t) ≡ none
find-none_bit key t p x y e ne h =
    find-none key t (Keys-map t (λ a q. same_key-false key a p (λ s. ne (sym e ∙ s ∙ q))) h)

or_else-none : (o : Option Entry) → or_else o none ≡ o
or_else-none none = refl
or_else-none (some e) = refl

pub closest-find :
    (key : List ℕ) {t : Node}
    → IsKey key
    → Valid t
    → (if same_key key (closest key t).key then some (closest key t) else none)
      ≡ find key (entries t)
unfolding closest
closest-find key hk (leaf h) = refl
closest-find key hk
      (branch {byte = byte} {otherbits = otherbits} {l = l} {r = r} k w lt e vl vr zl zr al ar) =
    elim (Bool-cases (goes_right byte otherbits key)) [
      | inl g ↦
          rw g (closest-find key hk vr)
          ∙ sym (
              find-append key (entries l) (entries r)
              ∙ ap (λ o. or_else o (find key (entries r)))
                  (find-none_bit key l (position byte k) 1 0
                    (right_bit byte otherbits k key lt e hk g) (omega arith) zl))
      | inr g ↦
          rw g (closest-find key hk vl)
          ∙ sym (
              find-append key (entries l) (entries r)
              ∙ ap (or_else (find key (entries l))) (
                  find-none_bit key r (position byte k) 0 1
                    (left_bit byte otherbits k key lt e hk g) (omega arith) zr)
              ∙ or_else-none (find key (entries l)))
    ]

-- `shl_trie_lookup` finds an entry exactly when one with the key is in the trie, and then that one.
pub trie_lookup-find :
    (t : Trie) (key : List ℕ) → IsTrie t → IsKey key → trie_lookup t key ≡ find key (contents t)
unfolding trie_lookup
trie_lookup-find none key v h = refl
trie_lookup-find (some t) key v h = closest-find key h v
