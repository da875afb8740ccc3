-- ===== src/Strings.antt =====
-- src/shl_util.c, "String Helpers" and "Ratelimit": `shl_strcat`, `shl_strjoin` and
-- `shl_ratelimit_test`. A string argument is the list of its characters, without the final 0; a
-- block that is returned has it.
pub mod Join
pub mod Limit
mod Examples
use libshl.Base.{
  Bool, List, Option, [], false, if◌then◌else◌, leb, length, ltb, none, some, true, ℕ, ◌%◌, ◌++◌,
  ◌+◌, ◌==◌, ◌^◌, ◌||◌, ◌∷◌,
}
use libshl.Base.Memory.{Allocator, Outcome, ok, undefined, write_at}
use libshl.Base.Word.{add_size}

-- The text of a pointer; NULL stands for "".
abbrev pub text_of : Option (List ℕ) → List ℕ
text_of none = []
text_of (some s) = s

-- `stpcpy` and `strcpy` to `&str[at]`; `none` is a copy that runs past the end of the block.
abbrev pub put_string : List ℕ → ℕ → List ℕ → Option (List ℕ)
put_string str at s = write_at str at (s ++ (0 ∷ []))

-- The two copies of `shl_strcat`.
unfoldable pub put_both : List ℕ → List ℕ → List ℕ → Outcome (Option (List ℕ))
put_both str first second = elim (put_string str 0 first) [
  | none ↦ undefined
  | some str' ↦ elim (put_string str' (length first) second) [
    | none ↦ undefined
    | some str'' ↦ ok (some str'')
  ]
]

-- `shl_strcat`; `none` is NULL.
unfoldable pub strcat : Allocator → Option (List ℕ) → Option (List ℕ) → Outcome (Option (List ℕ))
strcat a first second =
    let flen = length (text_of first) in
    let slen = length (text_of second) in
    if leb (add_size (add_size flen slen) 1) flen
    then ok none
    else elim (a.malloc (add_size (add_size flen slen) 1)) [
      | none ↦ ok none
      | some str ↦ put_both str (text_of first) (text_of second)
    ]

-- The first loop of `shl_strjoin`: the sum of the lengths behind `len`; `none` if it wraps round.
unfoldable pub join_length : ℕ → List (List ℕ) → Option ℕ
join_length len [] = some len
join_length len (arg ∷ args) =
    if ltb (add_size len (length arg)) len
    then none
    else join_length (add_size len (length arg)) args

-- The second loop, and the 0 behind it; `p` is given by its offset. A write past the end of the block
-- is undefined.
unfoldable pub join_copy : List ℕ → ℕ → List (List ℕ) → Outcome (Option (List ℕ))
join_copy str p [] = elim (write_at str p (0 ∷ [])) [
  | none ↦ undefined
  | some str' ↦ ok (some str')
]
join_copy str p (arg ∷ args) = elim (put_string str p arg) [
  | none ↦ undefined
  | some str' ↦ join_copy str' (p + length arg) args
]

-- `shl_strjoin`, for its arguments up to the NULL; `none` is NULL.
unfoldable pub strjoin : Allocator → List (List ℕ) → Outcome (Option (List ℕ))
strjoin a args = elim (join_length 0 args) [
  | none ↦ ok none
  | some len ↦ elim (a.malloc (add_size len 1)) [ none ↦ ok none | some str ↦ join_copy str 0 args ]
]

-- `struct shl_ratelimit`
pub record Ratelimit : Type 0 where
  pub interval : ℕ
  pub begin : ℕ
  pub burst : ℕ
  pub num : ℕ

-- `shl_ratelimit_test` at the time `ts`, for a pointer that is not NULL.
unfoldable pub ratelimit_test : Ratelimit → ℕ → Bool × Ratelimit
ratelimit_test r ts =
    if r.interval == 0 || r.burst == 0
    then (true, r)
    else if r.begin == 0 || ltb (add_size r.begin r.interval) ts
    then (true, record r { begin = ts; num = 1 })
    else if ltb r.num r.burst
    then (true, record r { num = (r.num + 1) % 2 ^ 32 })
    else (false, r)

-- `SHL_RATELIMIT_INIT`
abbrev pub ratelimit_init : ℕ → ℕ → Ratelimit
ratelimit_init interval burst = record { interval = interval; begin = 0; burst = burst; num = 0 }

-- `SHL_RATELIMIT_DEFINE`: its four values go to the fields in the order of the struct.
abbrev pub ratelimit_define : ℕ → ℕ → Ratelimit
ratelimit_define interval burst = record { interval = interval; begin = burst; burst = 0; num = 0 }

-- `SHL_RATELIMIT_RESET`
abbrev pub ratelimit_reset : Ratelimit → Ratelimit
ratelimit_reset r = record r { num = 0; begin = 0 }
