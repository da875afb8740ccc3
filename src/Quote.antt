-- ===== src/Quote.antt =====
-- src/shl_util.c, "Quoted Strings". A string is the list of its characters, without the final 0; a
-- string with a length may hold zeros.
pub mod Decode
pub mod RoundTrip
mod Examples
use libshl.Base.{
  Bool, List, [], false, if◌then◌else◌, length, ltb, not, true, ℕ, ◌%◌, ◌&&◌, ◌*◌, ◌++◌, ◌+◌, ◌==◌,
  ◌^◌, ◌||◌, ◌∷◌,
}
use libshl.Base.Memory.{Outcome, enomem, err, ok, undefined}
use libshl.Base.Word.{add_size}

-- `shl_qstr_unescape_char`; 0 for a character with no escape.
unfoldable pub unescape_char : ℕ → ℕ
unescape_char c =
    if c == b'a'
    then 7
    else if c == b'b'
    then 8
    else if c == b'f'
    then 12
    else if c == b'n'
    then 10
    else if c == b'r'
    then 13
    else if c == b't'
    then 9
    else if c == b'v'
    then 11
    else if c == b'"'
    then c
    else if c == 0x27
    then c
    else if c == 0x5c
    then c
    else 0

abbrev pub quote : ℕ
quote = 0x22

abbrev pub single_quote : ℕ
single_quote = 0x27

abbrev pub backslash : ℕ
backslash = 0x5c

abbrev pub space : ℕ
space = 0x20

-- The variables of the loop in `shl_qstr_decode_n`; `quoted` is 0 or the open quote.
pub record Mode : Type 0 where
  pub quoted : ℕ
  pub escaped : Bool

abbrev pub plain_mode : Mode
plain_mode = record { quoted = 0; escaped = false }

-- The characters that one round writes.
unfoldable pub decode_out : Mode → ℕ → List ℕ
decode_out m c =
    if m.escaped
    then if not (unescape_char c == 0)
      then unescape_char c ∷ []
      else if c == 0
      then []
      else backslash ∷ c ∷ []
    else if not (m.quoted == 0)
    then if c == backslash
      then []
      else if c == quote && m.quoted == quote
      then []
      else if c == single_quote && m.quoted == single_quote
      then []
      else if c == 0
      then []
      else c ∷ []
    else if c == backslash
    then []
    else if c == quote || c == single_quote
    then []
    else if c == 0
    then []
    else c ∷ []

-- The mode after it.
unfoldable pub decode_mode : Mode → ℕ → Mode
decode_mode m c =
    if m.escaped
    then record m { escaped = false }
    else if not (m.quoted == 0)
    then if c == backslash
      then record m { escaped = true }
      else if c == quote && m.quoted == quote
      then record m { quoted = 0 }
      else if c == single_quote && m.quoted == single_quote
      then record m { quoted = 0 }
      else m
    else if c == backslash
    then record m { escaped = true }
    else if c == quote || c == single_quote
    then record m { quoted = c }
    else m

-- The loop of `shl_qstr_decode_n` and the write of a last backslash behind it.
unfoldable pub decode_from : Mode → List ℕ → List ℕ
decode_from m [] = if m.escaped then backslash ∷ [] else []
decode_from m (c ∷ s) = decode_out m c ++ decode_from (decode_mode m c) s

-- `shl_qstr_decode_n`: the string that is written over the input.
unfoldable pub decode : List ℕ → List ℕ
decode s = decode_from plain_mode s

-- The loop of `shl__qstr_encode`
unfoldable pub encode_chars : List ℕ → List ℕ
encode_chars [] = []
encode_chars (c ∷ s) =
    if c == backslash || c == quote then backslash ∷ c ∷ encode_chars s else c ∷ encode_chars s

-- `shl__qstr_encode`; the length that it returns is that of the list.
unfoldable pub encode : Bool → List ℕ → List ℕ
encode need_quote s =
    if need_quote then (quote ∷ encode_chars s) ++ (quote ∷ []) else encode_chars s

-- The characters for which `shl__qstr_length` wants quotes.
unfoldable pub wants_quote : ℕ → Bool
wants_quote c = c == space || c == 9 || c == 10 || c == 11

-- `shl__qstr_length`: the length, and `*need_quote`.
unfoldable pub qstr_length : List ℕ → ℕ × Bool
qstr_length [] = (0, false)
qstr_length (c ∷ s) = ((qstr_length s).0 + 1, wants_quote c || (qstr_length s).1)

-- One round of the loop in `shl_qstr_join`: the line so far and the next string. `grows` says
-- whether `SHL_GREEDY_REALLOC_T` gives the room that it is asked for.
unfoldable pub join_step : (ℕ → Bool) → List ℕ → List ℕ → Outcome (List ℕ)
join_step grows line s =
    let (l, need_quote) = qstr_length s in
    let need = l * 2 % 2 ^ 64 in
    if ltb need l
    then err enomem
    else if ltb (add_size need (length line)) need
    then err enomem
    else let total = add_size need (length line) in
      if ltb (add_size total 4) (length line)
      then err enomem
      else if grows (add_size total 4)
      then ok (line ++ ((if length line == 0 then [] else space ∷ []) ++ encode need_quote s))
      else err enomem

unfoldable pub join_from : (ℕ → Bool) → List ℕ → List (List ℕ) → Outcome (List ℕ)
join_from grows line [] = ok line
join_from grows line (s ∷ ss) = elim (join_step grows line s) [
  | ok line' ↦ join_from grows line' ss
  | err e ↦ err e
  | undefined ↦ undefined
]

-- `shl_qstr_join`: the line; its length is returned, and must fit an `int`.
unfoldable pub qstr_join : (ℕ → Bool) → List (List ℕ) → Outcome (List ℕ)
unfolding join_from
qstr_join grows ss =
    if grows 1
    then elim (join_from grows [] ss) [
      | ok line ↦ if ltb (length line) (2 ^ 31) then ok line else err enomem
      | err e ↦ err e
      | undefined ↦ undefined
    ]
    else err enomem
