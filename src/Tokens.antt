-- ===== src/Tokens.antt =====
-- src/shl_util.c, "Quoted Strings": `shl_qstr_tokenize_n`, on the array of strings of Split.
pub mod Words
mod Examples
use libshl.Base.{Bool, List, [], false, if◌then◌else◌, not, true, ℕ, ◌&&◌, ◌++◌, ◌==◌, ◌∷◌}
use libshl.Base.Memory.{Allocator, Outcome, err, ok, undefined}
use libshl.Quote.{Mode, backslash, decode, plain_mode, quote, single_quote, space}
use libshl.Split.{Strv, fill_strv, push_token}

-- The variables `quoted` and `escaped` after one character.
unfoldable pub tokenize_mode : Mode → ℕ → Mode
tokenize_mode m c =
    if m.escaped
    then record m { escaped = false }
    else if c == backslash
    then record m { escaped = true }
    else if not (m.quoted == 0)
    then if c == quote && m.quoted == quote
      then record m { quoted = 0 }
      else if c == single_quote && m.quoted == single_quote
      then record m { quoted = 0 }
      else m
    else if c == quote && m.quoted == quote
    then record m { quoted = quote }
    else if c == single_quote && m.quoted == single_quote
    then record m { quoted = single_quote }
    else m

-- Whether the character is reached by the test for a space, and is one.
unfoldable pub is_separator : Mode → ℕ → Bool
is_separator m c =
    if m.escaped
    then false
    else if c == backslash
    then false
    else if not (m.quoted == 0)
    then false
    else if c == quote && m.quoted == quote
    then false
    else if c == single_quote && m.quoted == single_quote
    then false
    else c == space

module _ (a : Allocator) (address : ℕ → List ℕ) where
  -- The loop of `shl_qstr_tokenize_n` and the trailing token behind it.
  unfoldable pub tokenize_loop : Mode → List ℕ → List ℕ → Strv → Outcome Strv
  tokenize_loop m [] token st = push_token a address decode st token
  tokenize_loop m (c ∷ str) token st =
      if is_separator m c
      then elim (push_token a address decode st token) [
        | ok st' ↦ tokenize_loop (tokenize_mode m c) str [] st'
        | err e ↦ err e
        | undefined ↦ undefined
      ]
      else tokenize_loop (tokenize_mode m c) str (token ++ (c ∷ [])) st

  -- `shl_qstr_tokenize_n`, for `out` other than NULL; the number of strings is returned.
  unfoldable pub qstr_tokenize_n : List ℕ → Outcome Strv
  qstr_tokenize_n str = fill_strv a address (tokenize_loop plain_mode str [])
