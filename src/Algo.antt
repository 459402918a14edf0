-- ===== src/Algo.antt =====
-- src/tools/clu_funcs.c, `wolfCLU_parseAlgo` and `wolfCLU_getAlgo`: the cipher that a command line
-- names. The caller's `*alg`, `*mode` and `*size` are a state that is passed through.
pub mod Order
pub mod Sound
pub mod Select
pub mod Names
use wolf_clu.Base.{
  ℕ, zero, suc, ◌+◌, ◌<◌, Bool, true, false, not, ◌&&◌, ◌||◌, List, [], ◌∷◌, ◌++◌, Option, none,
  some, ◌==◌, ltb, leb, if◌then◌else◌, length, ℤ, pos, get_elem?,
}
use wolf_clu.Base.Result.{
  Result, ok, err, Err, fatal_error, user_input_error, memory_e, not_compiled_in,
}
use wolf_clu.Features.{Features}
use wolf_clu.Text.{Bytes, codes, bytes_eq, strncmp_eq, starts_with, strtok, atoi}
use wolf_clu.Args.{Argv, OptionEntry, Event, found_twice, given, Step, continue, leave, option_loop}

pub data Alg : Type 0 where
  aes128ctr aes192ctr aes256ctr aes128cbc aes192cbc aes256cbc : Alg
  camellia128cbc camellia192cbc camellia256cbc descbc : Alg

-- What the pointers `alg`, `mode` and `size` refer to; `none` for what the caller left unset.
pub record Target : Type 0 where
  pub alg : Option Alg
  pub mode : Option Bytes
  pub size : ℤ

-- `strncmp(token, accept[i], strlen(token)) == 0` for some entry
unfoldable pub accepts : List Bytes → Bytes → Bool
accepts [] token = false
accepts (a ∷ rest) token = strncmp_eq (length token) token a || accepts rest token

unfoldable pub accept_algs : Features → List Bytes
accept_algs f =
    codes "Algorithms: "
    ∷ ((if f.aes then codes "aes" ∷ [] else [])
        ++ ((if f.des3 then codes "3des" ∷ [] else [])
            ++ (if f.camellia then codes "camellia" ∷ [] else [])))

unfoldable pub accept_modes : Features → List Bytes
accept_modes f = codes "cbc" ∷ (if f.aes_counter then codes "ctr" ∷ [] else [])

-- `*size == n`
abbrev pub is_size : ℤ → ℕ → Bool
is_size (pos m) n = m == n
is_size _ n = false

-- `switch (*size)` with the cases 128, 192 and 256
unfoldable pub by_size : ℤ → Alg → Alg → Alg → Option Alg → Option Alg
by_size size a128 a192 a256 old =
    if is_size size 128
    then some a128
    else if is_size size 192
    then some a192
    else if is_size size 256
    then some a256
    else old

abbrev pub is_aes_size : ℤ → Bool
is_aes_size size = is_size size 128 || (is_size size 192 || is_size size 256)

abbrev pub is_des_size : ℤ → Bool
is_des_size size = is_size size 56 || (is_size size 112 || is_size size 168)

abbrev pub des3_block_size : ℕ
des3_block_size = 24

-- `sz[0]` is a digit; the token is never empty
unfoldable pub starts_digit : Bytes → Bool
starts_digit [] = false
starts_digit (c ∷ s) = not (ltb c b'0' || ltb b'9' c)

module _ (f : Features) where
  -- the AES branch: its `ret`, and the state with the new `*alg`
  unfoldable pub aes_branch : Bytes → Target → Result ℕ × Target
  aes_branch mode t =
      let cbc =
        if starts_with mode (codes "cbc")
        then by_size t.size aes128cbc aes192cbc aes256cbc t.alg
        else t.alg in
      let ctr =
        if starts_with mode (codes "ctr")
        then by_size t.size aes128ctr aes192ctr aes256ctr cbc
        else cbc in
      (if is_aes_size t.size then ok f.aes_block_size else err fatal_error, record t { alg = ctr })

  unfoldable pub des_branch : Target → Result ℕ × Target
  des_branch t = (
    if is_des_size t.size then ok des3_block_size else err fatal_error,
    record t { alg = some descbc },
  )

  unfoldable pub camellia_branch : Bytes → Target → Result ℕ × Target
  camellia_branch mode t =
      let cbc =
        if starts_with mode (codes "cbc")
        then by_size t.size camellia128cbc camellia192cbc camellia256cbc t.alg
        else t.alg in
      (
        if is_aes_size t.size then ok f.camellia_block_size else err fatal_error,
        record t { alg = cbc },
      )

  -- From `if (ret >= 0)` to the end: `alloc` says whether the allocation of `*mode` succeeds.
  unfoldable pub store_mode : Bool → Bytes → Result ℕ × Target → Result ℕ × Target
  store_mode alloc mode (ok n, t) =
      if alloc
      then (ok n, record t { mode = some mode })
      else (err memory_e, record t { mode = none })
  store_mode alloc mode (err e, t) = (err e, record t { mode = none })

  -- "checks key sizes for acceptability", and the rest
  unfoldable pub key_size : Bool → Bytes → Bytes → Target → Result ℕ × Target
  key_size alloc token mode t =
      if starts_with token (codes "aes")
      then if f.aes then store_mode alloc mode (aes_branch mode t) else (err not_compiled_in, t)
      else if starts_with token (codes "3des")
      then if f.des3 then store_mode alloc mode (des_branch t) else (err not_compiled_in, t)
      else if starts_with token (codes "camellia")
      then if f.camellia
        then store_mode alloc mode (camellia_branch mode t)
        else (err not_compiled_in, t)
      else store_mode alloc mode (err fatal_error, t)

  unfoldable pub check_names : Bool → Bool → Bytes → Bytes → Target → Result ℕ × Target
  check_names alloc name_check token mode t =
      if not name_check || not (accepts (accept_modes f) mode)
      then (err fatal_error, t)
      else key_size alloc token mode t

  -- the second and the third token, in either order
  unfoldable pub two_tokens : Bool → Bytes → Bytes → Bytes → Target → Result ℕ × Target
  two_tokens alloc token sz mode t =
      if starts_digit sz
      then check_names alloc true token mode (record t { size = atoi sz })
      else check_names alloc true token sz (record t { size = atoi mode })

  unfoldable pub after_name : Bool → Bytes → Bytes → Target → Result ℕ × Target
  after_name alloc token rest t = elim (strtok b'-' rest) [
    | none ↦ (err fatal_error, t)
    | some (sz, rest') ↦ elim (strtok b'-' rest') [
      | none ↦ (err fatal_error, t)
      | some (mode, _) ↦ two_tokens alloc token sz mode t
    ]
  ]

  -- `wolfCLU_parseAlgo`, for pointers that are not NULL
  unfoldable pub parse_algo : Bool → Bytes → Target → Result ℕ × Target
  parse_algo alloc name t = elim (strtok b'-' name) [
    | none ↦ (err fatal_error, t)
    | some (token, rest) ↦
        if accepts (accept_algs f) token
        then after_name alloc token rest t
        else elim (strtok b'-' rest) [
          | none ↦ (err fatal_error, t)
          | some (mode, _) ↦ check_names alloc false token mode t
        ]
  ]
