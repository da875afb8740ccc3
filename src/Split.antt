-- ===== src/Split.antt =====
-- src/shl_util.c, "String Helpers": `shl_strsplit_n` and `shl__split_push`, with the array of strings
-- that `shl_qstr_tokenize_n` fills as well. A string is the list of its characters.
pub mod Pieces
pub mod Fill
pub mod Words
mod Examples
use libshl.Base.{
  Bool, List, Option, [], false, if◌then◌else◌, length, ltb, none, replicate, some, take, true, ℕ,
  ◌%◌, ◌*◌, ◌++◌, ◌==◌, ◌^◌, ◌∷◌,
}
use libshl.Base.Memory.{Allocator, Outcome, enomem, err, ok, undefined, write_at}
use libshl.Base.Word.{add_size}
use libshl.Greedy.{Block, greedy_realloc0}

-- The array: its block, which the greedy allocation grows, and the texts of the strings that its first
-- `strv_num` pointers lead to.
pub record Strv : Type 0 where
  pub strv : Block
  pub items : List (List ℕ)

-- `(*strv_num + 2) * sizeof(**strv)`
unfoldable pub strv_need : ℕ → ℕ
strv_need num = add_size num 2 * 8 % 2 ^ 64

-- `memcpy(ns, str, len)` and `ns[len] = 0`; `none` is a write past the end of the block.
unfoldable pub copy_text : List ℕ → List ℕ → Option (List ℕ)
copy_text ns str = elim (write_at ns 0 str) [
  | none ↦ none
  | some text ↦ write_at text (length str) (0 ∷ [])
]

-- The test of the number of strings, which must fit an `int`, and the final NULL, which is eight bytes
-- 0. A write past the end of the block is undefined.
unfoldable pub finish_strv : Strv → Outcome Strv
finish_strv st =
    if ltb (length st.items) (2 ^ 31)
    then elim (write_at st.strv.mem (length st.items * 8) (replicate 8 0)) [
      | none ↦ undefined
      | some mem ↦ ok (record st { strv = record { mem = mem; size = st.strv.size } })
    ]
    else err enomem

-- `(*strv)[*strv_num] = ns` and `*strv_num += 1`, for the text behind `ns`; `address n` is the eight
-- bytes of the pointer that `malloc` gives for the string number `n`.
unfoldable pub store_pointer : (ℕ → List ℕ) → Block → List (List ℕ) → List ℕ → Outcome Strv
store_pointer address b items text =
    elim (write_at b.mem (length items * 8) (address (length items))) [
      | none ↦ undefined
      | some mem ↦
          ok (record { strv = record { mem = mem; size = b.size }; items = items ++ (text ∷ []) })
    ]

module _ (a : Allocator) (address : ℕ → List ℕ) (conv : List ℕ → List ℕ) where
  -- `shl__split_push`, and `shl__qstr_push`, which rewrites the text of the copy with `conv`. The
  -- result of the second `malloc` is not tested: a copy to NULL is undefined.
  unfoldable pub strv_push : Strv → List ℕ → Outcome Strv
  strv_push st str = elim (greedy_realloc0 a st.strv (strv_need (length st.items))) [
    | ok p ↦ elim (a.malloc (add_size (length str) 1)) [
      | none ↦ undefined
      | some ns ↦ elim (copy_text ns str) [
        | none ↦ undefined
        | some text ↦ store_pointer address p st.items (conv (take (length str) text))
      ]
    ]
    | err e ↦ err enomem
    | undefined ↦ undefined
  ]

  -- `if (pos != &str[i])` and the call under it; `token` is the text between the two.
  unfoldable pub push_token : Strv → List ℕ → Outcome Strv
  push_token st token = if length token == 0 then ok st else strv_push st token

-- The search through `sep`.
unfoldable pub is_sep : List ℕ → ℕ → Bool
is_sep [] c = false
is_sep (x ∷ sep) c = if c == x then true else is_sep sep c

abbrev pub same_text : List ℕ → List ℕ
same_text s = s

module _ (a : Allocator) (address : ℕ → List ℕ) where
  -- The loop of `shl_strsplit_n` and the trailing token behind it.
  unfoldable pub split_loop : List ℕ → List ℕ → List ℕ → Strv → Outcome Strv
  split_loop sep [] token st = push_token a address same_text st token
  split_loop sep (c ∷ str) token st =
      if is_sep sep c
      then elim (push_token a address same_text st token) [
        | ok st' ↦ split_loop sep str [] st'
        | err e ↦ err e
        | undefined ↦ undefined
      ]
      else split_loop sep str (token ++ (c ∷ [])) st

  -- The array of one pointer that both functions start with, the body `fill`, and
  -- the end. At an error all strings are freed.
  unfoldable pub fill_strv : (Strv → Outcome Strv) → Outcome Strv
  fill_strv fill = elim (a.malloc 8) [
    | none ↦ err enomem
    | some b ↦ elim (fill (record { strv = record { mem = b; size = 8 }; items = [] })) [
      | ok st ↦ finish_strv st
      | err e ↦ err e
      | undefined ↦ undefined
    ]
  ]

  -- `shl_strsplit_n`, for `out` and `sep` other than NULL; the number of strings is returned.
  unfoldable pub strsplit_n : List ℕ → List ℕ → Outcome Strv
  unfolding fill_strv
  strsplit_n str sep = fill_strv (split_loop sep str [])
