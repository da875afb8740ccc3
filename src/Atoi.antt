-- ===== src/Atoi.antt =====
-- src/shl_util.c, "Strict atoi": `shl_ctoi`, `shl__skip_base`, `shl_atoi_ulln` and its narrower
-- variants. The string with its length is a list of character codes; `*next` is given as the number
-- of characters before it.
pub mod Value
pub mod Equivalence
pub mod Range
mod Examples
use libshl.Base.{
  Bool, List, Option, [], drop, false, get_or, if◌then◌else◌, leb, length, ltb, none, some, true, ℕ,
  ◌%◌, ◌&&◌, ◌+◌, ◌-◌, ◌==◌, ◌^◌, ◌∷◌,
}
use libshl.Base.Memory.{Errno, Outcome, einval, erange, err, ok, undefined}
use libshl.Base.Word.{add_size, size_max}
use libshl.Macro.{mult_u32, mult_ull, shl_min}

-- `shl_ctoi`
unfoldable pub ctoi : ℕ → ℕ → Outcome ℕ
ctoi ch base =
    let check = λ (v : ℕ). if leb base v then err einval else ok v in
    if leb b'0' ch && leb ch b'9'
    then check (ch - b'0')
    else if leb b'a' ch && leb ch b'z'
    then check (ch - b'a' + 10)
    else if leb b'A' ch && leb ch b'Z'
    then check (ch - b'A' + 10)
    else err einval

abbrev pub is_ok {ℓ} : {A : Type ℓ} → Outcome A → Bool
is_ok (ok a) = true
is_ok (err e) = false
is_ok undefined = false

-- `shl__skip_base`: the base and the number of characters that are skipped.
unfoldable pub skip_base : List ℕ → ℕ × ℕ
unfolding ctoi
skip_base str =
    if ltb 1 (length str) && get_or str 0 0 == b'0' && is_ok (ctoi (get_or str 1 0) 8)
    then (8, 1)
    else if ltb 2 (length str)
        && get_or str 0 0 == b'0'
        && get_or str 1 0 == b'x'
        && is_ok (ctoi (get_or str 2 0) 16)
    then (16, 2)
    else (10, 0)

-- The variables of the loop; `failed` is `r < 0`.
pub record Acc : Type 0 where
  pub huge : Bool
  pub failed : Bool
  pub val1 : ℕ
  pub val2 : ℕ

abbrev pub start_acc : Acc
start_acc = record { huge = false; failed = false; val1 = 0; val2 = 0 }

-- The block under `if (huge)`.
unfoldable pub huge_step : ℕ → ℕ → Acc → Acc
huge_step base c s = elim (mult_ull s.val2 base) [
  | ok v ↦ record s { failed = false; val2 = if leb v (add_size v c) then add_size v c else v }
  | err e ↦ record s { failed = true }
  | undefined ↦ s
]

-- The body of the loop behind the digit test.
unfoldable pub atoi_step : ℕ → ℕ → Acc → Acc
atoi_step base c s =
    if s.failed then s else if s.huge then huge_step base c s else elim (mult_u32 s.val1 base) [
      | ok v ↦
          if leb v ((v + c) % 2 ^ 32)
          then record s { failed = false; val1 = (v + c) % 2 ^ 32; val2 = s.val1 }
          else huge_step base c (record s { huge = true; val1 = v; val2 = s.val1 })
      | err e ↦ huge_step base c (record s { huge = true; val2 = s.val1 })
      | undefined ↦ s
    ]

-- The loop: the variables at its end, and `pos`.
unfoldable pub atoi_loop : ℕ → List ℕ → ℕ → Acc → Acc × ℕ
atoi_loop base [] pos s = (s, pos)
atoi_loop base (ch ∷ str) pos s = elim (ctoi ch base) [
  | ok c ↦ atoi_loop base str (pos + 1) (atoi_step base c s)
  | err e ↦ (s, pos)
  | undefined ↦ (s, pos)
]

-- The status that is returned, `*next` and `*out`.
pub record Parsed : Type 0 where
  pub status : Option Errno
  pub next : ℕ
  pub out : ℕ

unfoldable pub atoi_result : ℕ → Acc × ℕ → Parsed
atoi_result skipped (s, pos) = record {
  status = if s.failed then some erange else none;
  next = skipped + pos;
  out = if s.failed then size_max else if s.huge then s.val2 else s.val1;
}

-- `shl_atoi_ulln`
unfoldable pub atoi_ulln : List ℕ → ℕ → Parsed
atoi_ulln str base =
    if ltb 36 base
    then record { status = some einval; next = 0; out = 0 }
    else if base == 0
    then (let (b, skipped) = skip_base str in
        atoi_result skipped (atoi_loop b (drop skipped str) 0 start_acc))
    else atoi_result 0 (atoi_loop base str 0 start_acc)

-- `shl_atoi_uln`, `shl_atoi_un` and `shl_atoi_zn` for the largest value of the type.
unfoldable pub atoi_narrow : ℕ → List ℕ → ℕ → Parsed
atoi_narrow maximum str base =
    let p = atoi_ulln str base in
    record p {
      status = elim p.status [
        | none ↦ if ltb maximum p.out then some erange else none
        | some e ↦ some e
      ];
      out = shl_min p.out maximum;
    }

unfoldable pub atoi_uln : List ℕ → ℕ → Parsed
unfolding atoi_narrow
atoi_uln str base = atoi_narrow size_max str base

unfoldable pub atoi_un : List ℕ → ℕ → Parsed
unfolding atoi_narrow
atoi_un str base = atoi_narrow (2 ^ 32 - 1) str base

unfoldable pub atoi_zn : List ℕ → ℕ → Parsed
unfolding atoi_narrow
atoi_zn str base = atoi_narrow size_max str base
