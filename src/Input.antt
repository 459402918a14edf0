-- ===== src/Input.antt =====
-- src/tools/clu_funcs.c: `wolfCLU_getline`, `wolfCLU_GetPassword` and `wolfCLU_GetStdinPassword`.
-- A stream is the bytes that are left of it. `realloc` is a parameter: it says of each size whether
-- it is granted. A write past the end of a buffer is the outcome `fault`.
pub mod Safe
pub mod Whole
pub mod Password
use wolf_clu.Base.{
  ℕ, zero, suc, ◌+◌, ◌-◌, ◌*◌, ◌^◌, Bool, true, false, not, ◌||◌, List, [], ◌∷◌, ◌++◌, Option, none,
  some, ◌==◌, leb, ltb, if◌then◌else◌, length, take, drop,
}
use wolf_clu.Base.Result.{Result, ok, err, fatal_error}
use wolf_clu.Text.{Bytes, codes, before, starts_with}
use wolf_clu.Text.Lines.{get_line}

-- `MAX_ENTRY_NAME`
abbrev pub max_entry_name : ℕ
max_entry_name = 64

-- `INT_MAX / 2`
abbrev pub half_int_max : ℕ
half_int_max = 2 ^ 30 - 1

-- The text without the newline at its end, none if there is no newline.
unfoldable pub chop_newline : Bytes → Option Bytes
chop_newline [] = none
chop_newline (c ∷ []) = if c == 10 then some [] else none
chop_newline (c ∷ d ∷ s) = elim (chop_newline (d ∷ s)) [ none ↦ none | some t ↦ some (c ∷ t) ]

-- What `wolfCLU_getline` leaves: `*lineptr`, whose length is returned, and `*len`, or
-- WOLFCLU_FATAL_ERROR, with what is left of the stream.
pub data ReadLine : Type 0 where
  line : Bytes → ℕ → Bytes → ReadLine
  no_line : Bytes → ReadLine
  fault out_of_fuel : ReadLine

-- The body of the loop behind the test of the size: the copy, and the test for a newline. `whole` is
-- what then stands in the buffer, `more` the next round.
unfoldable pub append_chunk : (ℕ → ReadLine) → Option ℕ → Bytes → Bytes → ReadLine
append_chunk more none whole rest = no_line rest
append_chunk more (some len) whole rest =
    if leb len (length whole)
    then fault
    else elim (chop_newline whole) [ some text ↦ line text len rest | none ↦ more len ]

module _ (realloc : ℕ → Bool) where
  -- `*len` when `used` bytes stand in the buffer and `more` shall follow, none for an error
  unfoldable pub grow : ℕ → ℕ → ℕ → Option ℕ
  grow len used more =
      if leb (len - used) more
      then if ltb half_int_max len then none else if realloc (2 * len) then some (2 * len) else none
      else some len

  -- `while (fgets(line, sizeof(line), fp) != NULL)`, with `*lineptr` and `*len`
  unfoldable pub getline_loop : ℕ → Bytes → ℕ → Bytes → ReadLine
  getline_loop zero buf len fp = out_of_fuel
  getline_loop (suc fuel) buf len [] = line buf len []
  getline_loop (suc fuel) buf len (c ∷ fp) =
      let (chunk, rest) = get_line (max_entry_name - 1) (c ∷ fp) in
      let text = before 0 chunk in
      append_chunk (λ len'. getline_loop fuel (buf ++ text) len' rest)
        (grow len (length buf) (length text)) (buf ++ text) rest

  -- `wolfCLU_getline`, when the first buffer is allocated
  unfoldable pub getline : Bytes → ReadLine
  getline fp = getline_loop (length fp + 1) [] max_entry_name fp

-- `strcspn(s, "\r\n")` bytes of the text
unfoldable pub before_line_end : Bytes → Bytes
before_line_end [] = []
before_line_end (c ∷ s) = if c == 13 || c == 10 then [] else c ∷ before_line_end s

-- `strstr(s, "\r\n") != NULL`
unfoldable pub has_crlf : Bytes → Bool
has_crlf [] = false
has_crlf (c ∷ s) = starts_with (c ∷ s) (13 ∷ 10 ∷ []) || has_crlf s

-- "span the string up to the first return line and chop it off"
unfoldable pub chop_line_end : Bytes → Bytes
chop_line_end password =
    before 10 (if has_crlf password then before_line_end password else password)

-- `fgets(password, size, stdin)`, none for NULL: the text and what is left of the stream
unfoldable pub fgets : ℕ → Bytes → Option (Bytes × Bytes)
fgets zero s = none
fgets (suc zero) s = some ([], s)
fgets (suc (suc n)) [] = none
fgets (suc (suc n)) (c ∷ s) = let (l, rest) = get_line (suc n) (c ∷ s) in some (before 0 l, rest)

-- `wolfCLU_GetPassword`: the password and what is left of the standard input
unfoldable pub get_password : ℕ → Bytes → Bytes → Result (Bytes × Bytes)
get_password zero arg stdin = err fatal_error
get_password (suc n) arg stdin =
    if starts_with arg (codes "stdin")
    then elim (fgets (suc n) stdin) [
      | none ↦ err fatal_error
      | some (text, rest) ↦ ok (chop_line_end text, rest)
    ]
    else if starts_with arg (codes "pass:")
    then ok (take n (drop 5 arg), stdin)
    else err fatal_error

-- `wolfCLU_GetStdinPassword`: the password and what is left of the standard input; the Boolean is
-- whether `HideEcho` succeeds.
unfoldable pub get_stdin_password : Bool → ℕ → Bytes → Result Bytes × Bytes
get_stdin_password false size stdin = (err fatal_error, stdin)
get_stdin_password true size stdin = elim (fgets size stdin) [
  | none ↦ (err fatal_error, stdin)
  | some (text, rest) ↦ (ok (before_line_end text), rest)
]
