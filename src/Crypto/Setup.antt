-- ===== src/Crypto/Setup.antt =====
-- src/crypto/clu_crypto_setup.c: `wolfCLU_setup` behind the choice of the algorithm. Parameters:
-- `Base16_Decode`, the allocator of `wolfCLU_hexToBin`, the files (none for a file that cannot be
-- opened or read), and which digests wolfSSL knows; the other allocations succeed. `key_size` is in
-- bits, and at least 1.
pub mod Filename
pub mod Given
pub mod Keys
pub mod Ready
pub mod Settled
use wolf_clu.Base.{
  ℕ, zero, suc, ◌+◌, ◌-◌, ◌*◌, ◌/◌, Bool, true, false, not, ◌&&◌, ◌||◌, List, [], ◌∷◌, Option, none,
  some, ◌==◌, if◌then◌else◌, length, take, ltb, pos, pos_part,
}
use mathlib.Core.Option
use wolf_clu.Base.Result.{Err, fatal_error, memory_e, Result, ok, err}
use wolf_clu.Features.{Features}
use wolf_clu.Text.{Bytes, codes, after}
use wolf_clu.Text.Lines.{lacks}
use wolf_clu.Forms.{convert_to_lower}
use wolf_clu.Crypto.KeyFile.{load_hex_key, read_key}
use wolf_clu.Hex.{is_hex_digit, hex_to_bin}
use wolf_clu.Input.{before_line_end, fgets, get_password, get_stdin_password}
use wolf_clu.Algo.{Alg, camellia128cbc, camellia192cbc, camellia256cbc, descbc, Target}
use wolf_clu.Algo.Select.{get_algo, old_algo}
use wolf_clu.Args.{
  Argv, Found, twice, index, check_for_arg, Event, found_twice, given, Step, continue, leave,
  option_loop,
}
use wolf_clu.Crypto.{Settings, keytype_password, keytype_user}
use wolf_clu.Crypto.Options.{
  CryptOption, opt_digest, opt_infile, opt_outfile, opt_password, opt_key, opt_iv, opt_inkey,
  opt_output, opt_pbkdf2, opt_md, opt_decrypt, opt_debug, opt_base64, opt_nosalt,
  opt_password_source, crypt_options, Locals, start,
}

-- What `wolfCLU_readFilename` ends with: a name that is not empty with what is left of the standard
-- input, or the end of the input; the fuel may run out.
pub data Name : Type 0 where
  named : Bytes → Bytes → Name
  at_end out_of_fuel : Name

-- `wolfCLU_readFilename` on fuel
unfoldable pub read_filename : ℕ → ℕ → Bytes → Name
read_filename zero size stdin = out_of_fuel
read_filename (suc fuel) size stdin = elim (fgets size stdin) [
  | none ↦ at_end
  | some (text, rest) ↦
      let too_long = read_filename fuel size (after 10 rest) in
      let empty = read_filename fuel size rest in
      if lacks 10 text
      then too_long
      else if length (before_line_end text) == 0
      then empty
      else named (before_line_end text) rest
]

-- `ret > 0` for the result of `wolfCLU_checkForArg`
abbrev pub is_found : Found → Bool
is_found twice = false
is_found (index i) = ltb 0 i

-- What the program goes on to do.
pub data Plan : Type 0 where
  -- `wolfCLU_encrypt` or `wolfCLU_decrypt` if the Boolean is false
  run : Bool → Locals → Plan
  usage help : Plan
  failed : Err → Plan
  -- the fuel of `wolfCLU_readFilename` ran out
  stuck : Plan

-- `keyCheck` and `keyType` behind a key that is loaded
abbrev pub set_key : Result Bytes → Locals → Step Locals Err
set_key (err e) s = leave e
set_key (ok k) s = continue (record s { key = k; key_check = true; key_type = keytype_user })

-- the password and what is left of the standard input
abbrev pub set_password : Result (Bytes × Bytes) → Locals → Step Locals Err
set_password (err e) s = leave e
set_password (ok (p, rest)) s =
    continue
      (record s { pwd_key = p; pwd_key_chk = true; key_type = keytype_password; stdin = rest })

module _ (base16_decode : Bytes → ℕ → Result Bytes) (malloc : ℕ → Bool)
    (read_file : Bytes → Option Bytes) (knows : Option Bytes → Bool) (key_size block : ℕ) where
  -- "case WOLFCLU_IV", on the result of `wolfCLU_hexToBin`
  abbrev pub set_iv : Result (List Bytes) → Locals → Step Locals Err
  set_iv (ok (v ∷ _)) s =
      if length v == block
      then continue (record s { iv = v; iv_check = true })
      else leave fatal_error
  set_iv _ s = leave fatal_error

  -- the `switch` of `wolfCLU_setup`
  unfoldable pub crypt_option : Event CryptOption → Locals → Step Locals Err
  crypt_option found_twice s = leave fatal_error
  crypt_option (given opt_digest _) s = continue s
  crypt_option (given opt_infile arg) s = continue (record s { input = arg; in_check = true })
  crypt_option (given opt_output arg) s =
      continue (record s { input = Option.map convert_to_lower arg; in_check = true })
  crypt_option (given opt_outfile arg) s = continue (record s { output = arg; out_check = true })
  crypt_option (given opt_password none) s = leave fatal_error
  crypt_option (given opt_password (some arg)) s =
      set_password (ok (take (key_size - 1) arg, s.stdin)) s
  crypt_option (given opt_password_source none) s = leave fatal_error
  crypt_option (given opt_password_source (some arg)) s =
      set_password (get_password key_size arg s.stdin) s
  crypt_option (given opt_key none) s = leave fatal_error
  crypt_option (given opt_key (some arg)) s =
      set_key (load_hex_key base16_decode malloc key_size arg) s
  crypt_option (given opt_inkey none) s = leave fatal_error
  crypt_option (given opt_inkey (some arg)) s =
      set_key (read_key base16_decode malloc key_size (read_file arg)) s
  crypt_option (given opt_iv none) s = leave fatal_error
  crypt_option (given opt_iv (some arg)) s = set_iv (hex_to_bin base16_decode malloc (arg ∷ [])) s
  crypt_option (given opt_pbkdf2 _) s = continue (record s { pbkdf2 = true })
  crypt_option (given opt_md arg) s =
      if knows arg then continue (record s { digest = arg }) else leave fatal_error
  crypt_option (given opt_decrypt _) s = continue (record s { enc_check = false; dec_check = true })
  crypt_option (given opt_debug _) s = continue (record s { verbose = true })
  crypt_option (given opt_base64 _) s = continue (record s { is_base64 = true })
  crypt_option (given opt_nosalt _) s = continue (record s { no_salt = true })

-- The password is wiped if there is a key as well.
unfoldable pub wipe : Locals → Locals
wipe s = if s.pwd_key_chk && s.key_check then record s { pwd_key = [] } else s

-- The name of the output is read from the standard input if `-out` was not given; the Boolean is the
-- direction.
unfoldable pub ask_output : Bool → Locals → Plan
ask_output enc s =
    if s.out_check then run enc s else elim (read_filename (length s.stdin + 1) 256 s.stdin) [
      | named name rest ↦ run enc (record s { output = some name; stdin = rest })
      | at_end ↦ failed fatal_error
      | out_of_fuel ↦ stuck
    ]

-- `wolfCLU_evp_crypto` if `cphr != NULL`, which the first Boolean is, or else the legacy cipher
unfoldable pub run_cipher_of : Bool → Bool → Locals → Plan
run_cipher_of true enc s = run enc s
run_cipher_of false enc s = ask_output enc s

-- what is run behind all questions
unfoldable pub dispatch : Bool → Locals → Plan
dispatch evp s =
    if s.enc_check
    then run_cipher_of evp true (wipe s)
    else if s.dec_check
    then run_cipher_of evp false (wipe s)
    else usage

-- If `-in` was not set, the name of the file is read from the standard input.
unfoldable pub ask_input : Bool → Locals → Plan
ask_input evp s =
    if not s.in_check && s.enc_check
    then elim (read_filename (length s.stdin + 1) 256 s.stdin) [
      | named name rest ↦
          dispatch evp (record s { input = some name; in_check = true; stdin = rest })
      | at_end ↦ failed fatal_error
      | out_of_fuel ↦ stuck
    ]
    else dispatch evp s

-- The password is asked for on the standard input; the second Boolean is whether the echo can be hidden,
-- the number the size of the buffer.
unfoldable pub ask_password : Bool → Bool → ℕ → Locals → Plan
ask_password evp hide size s =
    let (answer, rest) = get_stdin_password hide size s.stdin in
    elim answer [
      | err e ↦ failed e
      | ok p ↦ ask_input evp (record s { pwd_key = p; pwd_key_chk = true; stdin = rest })
    ]

-- "Validate the flag combination", and what follows
unfoldable pub validate : Bool → Bool → ℕ → Locals → Plan
validate evp hide size s =
    if s.enc_check && s.dec_check
    then failed fatal_error
    else if not s.in_check && s.dec_check
    then failed fatal_error
    else if s.iv_check && not s.key_check
    then failed fatal_error
    else if s.key_check && not s.iv_check
    then failed fatal_error
    else if not s.pwd_key_chk && not s.key_check
    then if s.dec_check then failed fatal_error else ask_password evp hide size s
    else ask_input evp s

-- what follows the loop over the options
unfoldable pub after_options : Bool → Bool → ℕ → Option (Step Locals Err) → Option Plan
after_options evp hide size none = none
after_options evp hide size (some (leave e)) = some (failed e)
after_options evp hide size (some (continue s)) = some (validate evp hide size s)

-- the arguments of `wolfCLU_evp_crypto`
abbrev pub settings_of : Locals → Settings
settings_of s = record {
  key_type = s.key_type;
  no_salt = s.no_salt;
  pbkdf2 = s.pbkdf2;
  is_base64 = s.is_base64;
  password = s.pwd_key;
  key = s.key;
  iv = s.iv;
}

module _ (base16_decode : Bytes → ℕ → Result Bytes) (malloc : ℕ → Bool)
    (read_file : Bytes → Option Bytes) (knows : Option Bytes → Bool) (key_size block : ℕ) where
  -- `wolfCLU_setup` for encryption, if the second Boolean is true, or decryption, with an EVP cipher
  -- if the first is true; none if the fuel of the loop ran out
  unfoldable pub crypt_setup : Bool → Bool → Bool → Argv → Bytes → Option Plan
  crypt_setup evp enc hide argv stdin = after_options evp hide (key_size + block) (
      option_loop (crypt_option base16_decode malloc read_file knows key_size block) argv 1
        crypt_options (length crypt_options + 1) 0 (start enc stdin))

-- `wolfCLU_CipherTypeFromAlgo(alg) != NULL`
unfoldable pub has_evp : Features → Option Alg → Bool
has_evp f none = false
has_evp f (some camellia128cbc) = false
has_evp f (some camellia192cbc) = false
has_evp f (some camellia256cbc) = false
has_evp f (some descbc) = f.des3
has_evp f (some aes) = true

-- `wolfCLU_setup`: the help for "-h", the choice of the algorithm, which may rewrite the arguments,
-- and the rest. None is a read through NULL.
module _ (base16_decode : Bytes → ℕ → Result Bytes) (malloc : ℕ → Bool)
    (read_file : Bytes → Option Bytes) (knows : Option Bytes → Bool) (f : Features) where
  unfoldable pub setup_command : Bool → Bool → Argv → Bytes → Option Plan
  setup_command enc hide argv stdin =
      let no_target : Target = record { alg = none; mode = none; size = pos 0 } in
      if is_found (check_for_arg (some (codes "-h")) 2 argv)
      then some help
      else elim (get_algo f true argv no_target) [
        | none ↦ none
        | some (err e, t) ↦ some (failed fatal_error)
        | some (ok block, t) ↦
            crypt_setup base16_decode malloc read_file knows (pos_part t.size) block
              (has_evp f t.alg) enc hide (old_algo argv) stdin
      ]
