-- ===== src/Trie/Inserted.antt =====
-- A list with one entry more.
use libshl.Base.{List, ap, append_assoc, sym, ◌++◌, ◌∙◌, ◌∷◌, ◌≡◌}
use libshl.Trie.{Entry}

-- `ys` is `xs` with `e` put in somewhere.
pub record Inserted (e : Entry) (xs ys : List Entry) : Type 0 where
  pub before : List Entry
  pub after : List Entry
  pub without : xs ≡ before ++ after
  pub with_it : ys ≡ before ++ (e ∷ after)

pub Inserted-right :
    {e : Entry} {xs ys : List Entry} (zs : List Entry)
    → Inserted e xs ys
    → Inserted e (xs ++ zs) (ys ++ zs)
Inserted-right {e} zs i = record {
  before = i.before;
  after = i.after ++ zs;
  without = ap (λ t. t ++ zs) i.without ∙ append_assoc i.before i.after zs;
  with_it = ap (λ t. t ++ zs) i.with_it ∙ append_assoc i.before (e ∷ i.after) zs;
}

pub Inserted-left :
    {e : Entry} {xs ys : List Entry} (zs : List Entry)
    → Inserted e xs ys
    → Inserted e (zs ++ xs) (zs ++ ys)
Inserted-left {e} zs i = record {
  before = zs ++ i.before;
  after = i.after;
  without = ap (λ t. zs ++ t) i.without ∙ sym (append_assoc zs i.before i.after);
  with_it = ap (λ t. zs ++ t) i.with_it ∙ sym (append_assoc zs i.before (e ∷ i.after));
}
