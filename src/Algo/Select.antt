-- ===== src/Algo/Select.antt =====
-- src/tools/clu_funcs.c: `wolfCLU_getAlgo` with `wolfCLU_oldAlgo`, and `wolfCLU_CipherTypeFromAlgo`.
use wolf_clu.Base.{
  ℕ, ◌+◌, Bool, false, List, [], ◌∷◌, ◌++◌, Option, none, some, ◌==◌, ltb, leb, if◌then◌else◌,
  length,
}
use mathlib.Core.Option
use wolf_clu.Base.Result.{Result, ok, err, fatal_error, user_input_error}
use wolf_clu.Features.{Features}
use wolf_clu.Text.{Bytes, codes, bytes_eq, strtok}
use wolf_clu.Args.{
  Argv, arg_at, OptionEntry, Event, found_twice, given, Step, continue, leave, option_loop,
}
use wolf_clu.Algo.{
  Alg, aes128ctr, aes192ctr, aes256ctr, aes128cbc, aes192cbc, aes256cbc, camellia128cbc,
  camellia192cbc, camellia256cbc, descbc, Target, parse_algo,
}

-- `algoName`, by the algorithm
abbrev pub algo_name : Alg → Bytes
algo_name aes128ctr = codes "-aes-128-ctr"
algo_name aes192ctr = codes "-aes-192-ctr"
algo_name aes256ctr = codes "-aes-256-ctr"
algo_name aes128cbc = codes "-aes-128-cbc"
algo_name aes192cbc = codes "-aes-192-cbc"
algo_name aes256cbc = codes "-aes-256-cbc"
algo_name camellia128cbc = codes "-camellia-128-cbc"
algo_name camellia192cbc = codes "-camellia-192-cbc"
algo_name camellia256cbc = codes "-camellia-256-cbc"
algo_name descbc = codes "-des-cbc"

-- `oldAlgoName`, with the entry of `algoName` at the same index
abbrev pub old_names : List (Bytes × Bytes)
old_names =
    (codes "-aes-ctr-128", algo_name aes128ctr)
    ∷ (codes "-aes-ctr-192", algo_name aes192ctr)
    ∷ (codes "-aes-ctr-256", algo_name aes256ctr)
    ∷ (codes "-aes-cbc-128", algo_name aes128cbc)
    ∷ (codes "-aes-cbc-192", algo_name aes192cbc)
    ∷ (codes "-aes-cbc-256", algo_name aes256cbc)
    ∷ []

-- the inner loop: each old name in turn is compared with what `argv[i]` is by then
unfoldable pub rename : List (Bytes × Bytes) → Bytes → Bytes
rename [] a = a
rename ((old, new) ∷ names) a = rename names (if bytes_eq a old then new else a)

-- `wolfCLU_oldAlgo`
unfoldable pub old_algo : Argv → Argv
old_algo [] = []
old_algo (none ∷ rest) = none ∷ old_algo rest
old_algo (some a ∷ rest) = some (rename old_names a) ∷ old_algo rest

pub data CryptOption : Type 0 where
  cipher : Alg → CryptOption
  decrypt : CryptOption

abbrev flag : Bytes → CryptOption → OptionEntry CryptOption
flag name v = record { name = name; has_arg = false; val = v }

-- `crypt_algo_options`
abbrev pub crypt_algo_options : List (OptionEntry CryptOption)
crypt_algo_options =
    flag (codes "-aes-128-ctr") (cipher aes128ctr)
    ∷ flag (codes "-aes-192-ctr") (cipher aes192ctr)
    ∷ flag (codes "-aes-256-ctr") (cipher aes256ctr)
    ∷ flag (codes "-aes-128-cbc") (cipher aes128cbc)
    ∷ flag (codes "-aes-192-cbc") (cipher aes192cbc)
    ∷ flag (codes "-aes-256-cbc") (cipher aes256cbc)
    ∷ flag (codes "-camellia-128-cbc") (cipher camellia128cbc)
    ∷ flag (codes "-camellia-192-cbc") (cipher camellia192cbc)
    ∷ flag (codes "-camellia-256-cbc") (cipher camellia256cbc)
    ∷ flag (codes "-des-cbc") (cipher descbc)
    ∷ flag (codes "-d") decrypt
    ∷ []

-- The locals of the option loop.
pub record Choice : Type 0 where
  pub ret : Result ℕ
  pub name : Bytes
  pub target : Target

unfoldable pub leading_dashes : Bytes → Bytes
leading_dashes [] = []
leading_dashes (c ∷ s) = if c == b'-' then c ∷ leading_dashes s else []

-- The C string that `strtok_r` leaves in the buffer: the delimiter behind the first token is now
-- NUL.
unfoldable pub cut_name : Bytes → Bytes
cut_name name = elim (strtok b'-' name) [
  | none ↦ name
  | some (token, _) ↦ leading_dashes name ++ token
]

module _ (f : Features) (alloc : Bool) where
  -- "if (XSTRLEN(name) > 0)": parse the name, and clear it
  unfoldable pub parse_name : Choice → Choice
  parse_name c =
      let (ret, target) = parse_algo f alloc c.name c.target in
      if ltb 0 (length c.name) then record c { ret = ret; name = []; target = target } else c

  -- the body of the option loop
  unfoldable pub crypt_option : Event CryptOption → Choice → Step Choice (Result ℕ × Target)
  crypt_option found_twice c = leave (err fatal_error, c.target)
  crypt_option (given (cipher a) _) c = continue (parse_name (record c { name = algo_name a }))
  crypt_option (given decrypt _) c = continue (parse_name c)

  abbrev pub outcome : Step Choice (Result ℕ × Target) → Result ℕ × Target
  outcome (continue c) = (c.ret, c.target)
  outcome (leave r) = r

  -- behind the first attempt, which read the name from `argv[2]`
  unfoldable pub next_check : Argv → Bytes → Result ℕ × Target → Option (Result ℕ × Target)
  next_check argv name (ok n, t) = some (ok n, t)
  next_check argv name (err e, t) = Option.map outcome (
      option_loop crypt_option argv 2 crypt_algo_options (length crypt_algo_options + 1) 0
        (record { ret = err e; name = cut_name name; target = t }))

  -- `wolfCLU_getAlgo`; `none` is a read through `argv[2]` where it is NULL.
  unfoldable pub get_algo : Argv → Target → Option (Result ℕ × Target)
  get_algo argv t = elim (arg_at (old_algo argv) 2) [
    | none ↦ none
    | some name ↦
        if leb 80 (length name)
        then some (err user_input_error, t)
        else next_check (old_algo argv) name (parse_algo f alloc name t)
  ]

-- The ciphers of wolfSSL's EVP layer that the source names.
pub record EvpCiphers (C : Type 0) : Type 0 where
  pub aes_128_ctr : C
  pub aes_192_ctr : C
  pub aes_256_ctr : C
  pub aes_128_cbc : C
  pub aes_192_cbc : C
  pub aes_256_cbc : C
  pub des_cbc : C

-- `wolfCLU_CipherTypeFromAlgo`; `none` is NULL.
unfoldable pub cipher_type_from_algo : {C : Type 0} → Features → EvpCiphers C → Alg → Option C
cipher_type_from_algo f evp aes128ctr = some evp.aes_128_ctr
cipher_type_from_algo f evp aes192ctr = some evp.aes_192_ctr
cipher_type_from_algo f evp aes256ctr = some evp.aes_256_ctr
cipher_type_from_algo f evp aes128cbc = some evp.aes_128_cbc
cipher_type_from_algo f evp aes192cbc = some evp.aes_192_cbc
cipher_type_from_algo f evp aes256cbc = some evp.aes_256_cbc
cipher_type_from_algo f evp descbc = if f.des3 then some evp.des_cbc else none
cipher_type_from_algo f evp _ = none
