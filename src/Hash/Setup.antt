-- ===== src/Hash/Setup.antt =====
-- src/hash/clu_hash_setup.c, `wolfCLU_hashSetup`, with all algorithms compiled in, and
-- src/hash/clu_alg_hash.c, `wolfCLU_algHashSetup`. Parameters: the sizes of the digests, and whether a
-- file can be opened for reading or writing.
pub mod Chosen
use wolf_clu.Base.{
  ℕ, zero, suc, ◌+◌, Bool, true, false, not, ◌&&◌, ◌||◌, List, [], ◌∷◌, Option, none, some, leb,
  if◌then◌else◌, length, ℤ, pos, negsuc, ltb,
}
use mathlib.Core.Option
use wolf_clu.Base.Result.{Err, fatal_error, user_input_error, not_compiled_in}
use wolf_clu.Text.{Bytes, codes, atoi}
use wolf_clu.Args.{
  Argv, arg_at, OptionEntry, Event, found_twice, given, Step, continue, leave, option_loop,
}
use wolf_clu.Main.{Mode, wolfclu_md5, wolfclu_cert_sha256, wolfclu_cert_sha384, wolfclu_cert_sha512}

pub data HashOption : Type 0 where
  opt_infile opt_outfile opt_help opt_md5 opt_sha opt_sha256 opt_sha384 opt_sha512 opt_base64enc
        opt_base64dec opt_blake :
      HashOption

abbrev flag : Bytes → HashOption → OptionEntry HashOption
flag name val = record { name = name; has_arg = false; val = val }

abbrev with_arg : Bytes → HashOption → OptionEntry HashOption
with_arg name val = record { name = name; has_arg = true; val = val }

abbrev pub hash_options : List (OptionEntry HashOption)
hash_options =
    with_arg (codes "-in") opt_infile
    ∷ with_arg (codes "-out") opt_outfile
    ∷ flag (codes "-h") opt_help
    ∷ flag (codes "-help") opt_help
    ∷ flag (codes "-md5") opt_md5
    ∷ flag (codes "-sha") opt_sha
    ∷ flag (codes "-sha256") opt_sha256
    ∷ flag (codes "-sha384") opt_sha384
    ∷ flag (codes "-sha512") opt_sha512
    ∷ flag (codes "-base64enc") opt_base64enc
    ∷ flag (codes "-base64dec") opt_base64dec
    ∷ with_arg (codes "-blake2b") opt_blake
    ∷ []

-- The sizes of the digests, WC_MD5_DIGEST_SIZE and so on.
pub record DigestSizes : Type 0 where
  pub md5_size : ℕ
  pub sha_size : ℕ
  pub sha256_size : ℕ
  pub sha384_size : ℕ
  pub sha512_size : ℕ

-- The locals of the loop; `failed` is `ret` with WOLFCLU_FATAL_ERROR.
pub record HashLocals : Type 0 where
  pub alg : Option Bytes
  pub size : ℤ
  pub in_file : Option Bytes
  pub out_file : Option Bytes
  pub failed : Bool

abbrev pub no_locals : HashLocals
no_locals = record { alg = none; size = pos 0; in_file = none; out_file = none; failed = false }

-- What the command goes on to do: the help, an error, or `wolfCLU_hash` with the name and the size of
-- the algorithm, the file to read and the file to write, none for the terminal.
pub data HashPlan : Type 0 where
  show_help : HashPlan
  hash_error : Err → HashPlan
  run_hash_with : Bytes → ℤ → Option Bytes → Option Bytes → HashPlan

-- the two ways out of the loop
pub data HashExit : Type 0 where
  exit_help exit_fatal : HashExit

-- "alg already set"
abbrev pub set_alg : Bytes → ℤ → HashLocals → Step HashLocals HashExit
set_alg name n s = elim s.alg [
  | none ↦ continue (record s { alg = some name; size = n })
  | some _ ↦ leave exit_fatal
]

-- `size < 1 || size > 64`
abbrev pub bad_blake_size : ℤ → Bool
bad_blake_size (negsuc n) = true
bad_blake_size (pos n) = ltb n 1 || ltb 64 n

-- `size = XATOI(optarg)`
abbrev pub blake_size : Option Bytes → ℤ → ℤ
blake_size none size = size
blake_size (some arg) size = atoi arg

-- "case WOLFCLU_BLAKE"
abbrev pub set_blake : ℤ → HashLocals → Step HashLocals HashExit
set_blake n s = elim s.alg [
  | none ↦
      continue
        (record s { alg = some (codes "blake2b"); size = n; failed = s.failed || bad_blake_size n })
  | some _ ↦ leave exit_fatal
]

module _ (sizes : DigestSizes) where
  -- the `switch` of `wolfCLU_hashSetup`
  unfoldable pub hash_option : Event HashOption → HashLocals → Step HashLocals HashExit
  hash_option found_twice s = leave exit_fatal
  hash_option (given opt_help _) s = leave exit_help
  hash_option (given opt_infile arg) s = continue (record s { in_file = arg })
  hash_option (given opt_outfile arg) s = continue (record s { out_file = arg })
  hash_option (given opt_md5 _) s = set_alg (codes "md5") (pos sizes.md5_size) s
  hash_option (given opt_sha _) s = set_alg (codes "sha") (pos sizes.sha_size) s
  hash_option (given opt_sha256 _) s = set_alg (codes "sha256") (pos sizes.sha256_size) s
  hash_option (given opt_sha384 _) s = set_alg (codes "sha384") (pos sizes.sha384_size) s
  hash_option (given opt_sha512 _) s = set_alg (codes "sha512") (pos sizes.sha512_size) s
  hash_option (given opt_base64enc _) s = set_alg (codes "base64enc") s.size s
  hash_option (given opt_base64dec _) s = set_alg (codes "base64dec") s.size s
  hash_option (given opt_blake arg) s = set_blake (blake_size arg s.size) s

-- `bioIn == NULL` or `bioOut == NULL` for a file that was named
abbrev pub cannot_open : (Bytes → Bool) → Option Bytes → Bool
cannot_open opens none = false
cannot_open opens (some name) = not (opens name)

module _ (sizes : DigestSizes) (opens creates : Bytes → Bool) where
  -- what follows the loop
  unfoldable pub after_hash_options : HashLocals → HashPlan
  after_hash_options s = elim s.alg [
    | none ↦ hash_error fatal_error
    | some name ↦
        if s.failed
        then hash_error fatal_error
        else if cannot_open opens s.in_file || cannot_open creates s.out_file
        then hash_error user_input_error
        else run_hash_with name s.size s.in_file s.out_file
  ]

  -- the plan of a run of the loop
  abbrev pub hash_plan_of : Step HashLocals HashExit → HashPlan
  hash_plan_of (leave exit_help) = show_help
  hash_plan_of (leave exit_fatal) = hash_error fatal_error
  hash_plan_of (continue s) = after_hash_options s

  -- `wolfCLU_hashSetup`; none if the fuel of the loop ran out
  unfoldable pub hash_setup : Argv → Option HashPlan
  hash_setup argv =
      Option.map hash_plan_of
        (option_loop (hash_option sizes) argv 1 hash_options (length hash_options + 1) 0 no_locals)

  -- `wolfCLU_algHashSetup` with the name and the size that the mode stands for
  abbrev pub alg_hash_with : Bytes → ℕ → Argv → HashPlan
  alg_hash_with name n argv =
      if leb 3 (length argv) && cannot_open opens (arg_at argv 2)
      then hash_error user_input_error
      else run_hash_with name (pos n) (arg_at argv 2) none

  unfoldable pub alg_hash_setup : Argv → Mode → HashPlan
  alg_hash_setup argv wolfclu_md5 = alg_hash_with (codes "md5") sizes.md5_size argv
  alg_hash_setup argv wolfclu_cert_sha256 = alg_hash_with (codes "sha256") sizes.sha256_size argv
  alg_hash_setup argv wolfclu_cert_sha384 = alg_hash_with (codes "sha384") sizes.sha384_size argv
  alg_hash_setup argv wolfclu_cert_sha512 = alg_hash_with (codes "sha512") sizes.sha512_size argv
  alg_hash_setup argv _ = hash_error not_compiled_in
