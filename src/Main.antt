-- ===== src/Main.antt =====
-- src/clu_main.c: the table of modes, `getMode` and `main`.
-- The commands are a parameter: what `main` runs, with which arguments, and what it does with the
-- result. `wolfSSL_Init` gives a Boolean. The responder is compiled in, and FIPS is not.
pub mod Modes
pub mod Dash
pub mod Exit
use wolf_clu.Base.{
  ℕ, Bool, true, false, ◌&&◌, List, [], ◌∷◌, Option, none, some, ◌==◌, if◌then◌else◌, length, ℤ,
  pos, negsuc, ltb_ℤ, ◌≤ℤ◌, not,
}
use wolf_clu.Text.{Bytes, codes, strncmp_eq}
use wolf_clu.Args.{
  Argv, index, twice, check_for_arg, OptionEntry, Event, found_twice, given, Answer, end_of_args,
  option, get_opt,
}

-- The constants of the table and of the `switch`; `version` is 'v'.
pub data Mode : Type 0 where
  wolfclu_ca wolfclu_encrypt wolfclu_decrypt wolfclu_crypt wolfclu_benchmark wolfclu_hash : Mode
  wolfclu_md5 wolfclu_cert_sha256 wolfclu_cert_sha384 wolfclu_cert_sha512 wolfclu_x509 : Mode
  wolfclu_request wolfclu_gen_key wolfclu_ecparam wolfclu_pkey wolfclu_rsa wolfclu_rsalegacy : Mode
  wolfclu_ecc wolfclu_ed25519 wolfclu_dilithium wolfclu_xmss wolfclu_xmssmt wolfclu_dgst : Mode
  wolfclu_verify wolfclu_pkcs7 wolfclu_pkcs8 wolfclu_pkcs12 wolfclu_crl wolfclu_client : Mode
  wolfclu_server wolfclu_rand wolfclu_dsa wolfclu_dh wolfclu_ocsp wolfclu_base64 : Mode
  wolfclu_help wolfclu_verbose version : Mode

module _ (n : Bytes) (m : Mode) where
  abbrev pub no_argument : OptionEntry Mode
  no_argument = record { name = n; has_arg = false; val = m }

  abbrev pub required_argument : OptionEntry Mode
  required_argument = record { name = n; has_arg = true; val = m }

-- `mode_options`
abbrev pub mode_options : List (OptionEntry Mode)
mode_options =
    no_argument (codes "ca") wolfclu_ca
    ∷ required_argument (codes "encrypt") wolfclu_encrypt
    ∷ required_argument (codes "decrypt") wolfclu_decrypt
    ∷ no_argument (codes "enc") wolfclu_crypt
    ∷ no_argument (codes "bench") wolfclu_benchmark
    ∷ required_argument (codes "hash") wolfclu_hash
    ∷ no_argument (codes "md5") wolfclu_md5
    ∷ no_argument (codes "sha256") wolfclu_cert_sha256
    ∷ no_argument (codes "sha384") wolfclu_cert_sha384
    ∷ no_argument (codes "sha512") wolfclu_cert_sha512
    ∷ no_argument (codes "x509") wolfclu_x509
    ∷ no_argument (codes "req") wolfclu_request
    ∷ required_argument (codes "genkey") wolfclu_gen_key
    ∷ no_argument (codes "ecparam") wolfclu_ecparam
    ∷ no_argument (codes "pkey") wolfclu_pkey
    ∷ no_argument (codes "rsa") wolfclu_rsa
    ∷ no_argument (codes "ecc") wolfclu_ecc
    ∷ no_argument (codes "ed25519") wolfclu_ed25519
    ∷ no_argument (codes "dilithium") wolfclu_dilithium
    ∷ no_argument (codes "ml-dsa") wolfclu_dilithium
    ∷ no_argument (codes "xmss") wolfclu_xmss
    ∷ no_argument (codes "xmssmt") wolfclu_xmssmt
    ∷ no_argument (codes "dgst") wolfclu_dgst
    ∷ no_argument (codes "verify") wolfclu_verify
    ∷ no_argument (codes "pkcs7") wolfclu_pkcs7
    ∷ no_argument (codes "pkcs8") wolfclu_pkcs8
    ∷ no_argument (codes "pkcs12") wolfclu_pkcs12
    ∷ no_argument (codes "crl") wolfclu_crl
    ∷ no_argument (codes "s_client") wolfclu_client
    ∷ no_argument (codes "s_server") wolfclu_server
    ∷ no_argument (codes "rand") wolfclu_rand
    ∷ no_argument (codes "dsaparam") wolfclu_dsa
    ∷ no_argument (codes "dhparam") wolfclu_dh
    ∷ no_argument (codes "ocsp") wolfclu_ocsp
    ∷ no_argument (codes "base64") wolfclu_base64
    ∷ no_argument (codes "help") wolfclu_help
    ∷ no_argument (codes "h") wolfclu_help
    ∷ no_argument (codes "v") version
    ∷ no_argument (codes "version") version
    ∷ []

-- What `flag` holds: the value of an entry, or WOLFCLU_FATAL_ERROR, ARG_FOUND_TWICE or END_OF_ARGS.
pub data Flag : Type 0 where
  mode : Mode → Flag
  fatal_flag arg_found_twice end_flag : Flag

-- the loop of `getMode`
unfoldable pub get_mode_from : List (OptionEntry Mode) → Bytes → Flag
get_mode_from [] arg = fatal_flag
get_mode_from (e ∷ es) arg =
    if length e.name == length arg && strncmp_eq (length arg) arg e.name
    then mode e.val
    else get_mode_from es arg

-- `getMode`
unfoldable pub get_mode : Option Bytes → Flag
get_mode none = fatal_flag
get_mode (some arg) = get_mode_from mode_options arg

-- "if -rsa was used then it is the older sign/verify version of rsa"
abbrev pub legacy : Flag → Flag
legacy (mode wolfclu_rsa) = mode wolfclu_rsalegacy
legacy f = f

-- what `wolfCLU_GetOpt` returns, as a flag
abbrev pub flag_of : Answer Mode → Flag
flag_of (end_of_args optind) = end_flag
flag_of (option found_twice optind) = arg_found_twice
flag_of (option (given m optarg) optind) = mode m

-- The flag and the arguments that the commands get: an '-' in front of `argv[1]` is cut off.
-- `argv[1][0]` of an empty string is the NUL.
unfoldable pub choose_mode : Argv → Flag × Argv
choose_mode (prog ∷ some (c ∷ a) ∷ rest) =
    if c == b'-' then (legacy (get_mode (some a)), prog ∷ some a ∷ rest) else (
      flag_of (get_opt (prog ∷ some (c ∷ a) ∷ rest) 0 mode_options 0),
      prog ∷ some (c ∷ a) ∷ rest,
    )
choose_mode argv = (flag_of (get_opt argv 0 mode_options 0), argv)

-- What the `switch` calls; `setup` has the action 'd' (true) or 'e', `alg_hash` the algorithm.
pub data Command : Type 0 where
  setup : Bool → Command
  alg_hash : Mode → Command
  ca_setup bench_setup hash_setup cert_setup request_setup gen_key_setup ecparam : Command
  p_key_setup dgst_setup x509_verify crl_verify rsa sign_verify_setup pkcs7 pkcs8 : Command
  pkcs12 client server rand dsa_param_setup dh_param_setup ocsp_setup base64_setup : Command
  print_help print_verbose_help print_version : Command

-- the `switch`; `none` for `default`
unfoldable pub command : Flag → Argv → Option Command
command (mode wolfclu_crypt) argv = elim (check_for_arg (some (codes "-d")) 2 argv) [
  | twice ↦ some (setup false)
  | index i ↦ some (setup (not (i == 0)))
]
command (mode wolfclu_encrypt) argv = some (setup false)
command (mode wolfclu_decrypt) argv = some (setup true)
command (mode wolfclu_ca) argv = some ca_setup
command (mode wolfclu_benchmark) argv = some bench_setup
command (mode wolfclu_hash) argv = some hash_setup
command (mode wolfclu_md5) argv = some (alg_hash wolfclu_md5)
command (mode wolfclu_cert_sha256) argv = some (alg_hash wolfclu_cert_sha256)
command (mode wolfclu_cert_sha384) argv = some (alg_hash wolfclu_cert_sha384)
command (mode wolfclu_cert_sha512) argv = some (alg_hash wolfclu_cert_sha512)
command (mode wolfclu_x509) argv = some cert_setup
command (mode wolfclu_request) argv = some request_setup
command (mode wolfclu_gen_key) argv = some gen_key_setup
command (mode wolfclu_ecparam) argv = some ecparam
command (mode wolfclu_pkey) argv = some p_key_setup
command (mode wolfclu_dgst) argv = some dgst_setup
command (mode wolfclu_verify) argv = some x509_verify
command (mode wolfclu_crl) argv = some crl_verify
command (mode wolfclu_rsa) argv = some rsa
command (mode wolfclu_rsalegacy) argv = some sign_verify_setup
command (mode wolfclu_ecc) argv = some sign_verify_setup
command (mode wolfclu_ed25519) argv = some sign_verify_setup
command (mode wolfclu_dilithium) argv = some sign_verify_setup
command (mode wolfclu_xmss) argv = some sign_verify_setup
command (mode wolfclu_xmssmt) argv = some sign_verify_setup
command (mode wolfclu_pkcs7) argv = some pkcs7
command (mode wolfclu_pkcs8) argv = some pkcs8
command (mode wolfclu_pkcs12) argv = some pkcs12
command (mode wolfclu_client) argv = some client
command (mode wolfclu_server) argv = some server
command (mode wolfclu_rand) argv = some rand
command (mode wolfclu_dsa) argv = some dsa_param_setup
command (mode wolfclu_dh) argv = some dh_param_setup
command (mode wolfclu_ocsp) argv = some ocsp_setup
command (mode wolfclu_base64) argv = some base64_setup
command (mode wolfclu_help) argv = some print_help
command (mode wolfclu_verbose) argv = some print_verbose_help
command (mode version) argv = some print_version
command f argv = none

-- `if (ret <= 0)`, and the last line
unfoldable pub exit_status : ℤ → ℤ
exit_status (negsuc n) = negsuc 0
exit_status (pos n) = if n == 0 then negsuc 0 else if n == 1 then pos 0 else pos n

-- The commands of the program: the `int` that a call returns.
module _ (call : Command → Argv → ℤ) where
  -- `ret` behind the `switch`; the help texts leave it at WOLFCLU_SUCCESS
  unfoldable pub run_command : Option Command → Argv → ℤ
  run_command none argv = negsuc 0
  run_command (some print_help) argv = pos 1
  run_command (some print_verbose_help) argv = pos 1
  run_command (some c) argv = call c argv

  -- `main`: its result is the exit status
  unfoldable pub main : Bool → Argv → ℤ
  main false argv = negsuc 0
  main true argv =
      let (flag, argv') = choose_mode argv in exit_status (run_command (command flag argv') argv')
