-- ===== src/Tests/Setup.antt =====
-- `wolfssl enc -aes-128-cbc` with a key, an IV and a password.
use wolf_clu.Base.{ℕ, Bool, true, false, [], ◌∷◌, ◌++◌, Option, none, some, ◌≡◌, refl}
use wolf_clu.Base.Result.{Result, ok}
use wolf_clu.Text.{Bytes, codes, strncmp_eq, before}
use wolf_clu.Text.Lines.{get_line}
use wolf_clu.Input.{fgets, before_line_end}
use wolf_clu.Forms.{convert_to_lower, to_lower}
use wolf_clu.Rand.Output.{hex_decode}
use wolf_clu.Crypto.KeyFile.{load_hex_key}
use wolf_clu.Hex.{hex_to_bin}
use wolf_clu.Args.{
  Argv, check_for_arg, check_from, is_match, is_help_like, get_opt, get_opt_from, entry_event,
  option_loop,
}
use wolf_clu.Crypto.{KeyType, keytype_none, keytype_password}
use wolf_clu.Crypto.Setup.{
  Plan, run, crypt_option, wipe, dispatch, run_cipher_of, ask_output, read_filename, ask_input,
  validate, after_options, crypt_setup,
}
use wolf_clu.Crypto.Setup.Given.{Secrets}
use wolf_clu.Crypto.Setup.Keys.{Settled}

abbrev decode : Bytes → ℕ → Result Bytes
decode h n = ok (hex_decode h)

abbrev always : ℕ → Bool
always n = true

abbrev no_file : Bytes → Option Bytes
no_file name = none

abbrev known : Option Bytes → Bool
known name = true

-- a key of 16 bits and an IV of two bytes, and a password behind "-k"
abbrev key_and_password : Argv
key_and_password =
    some (codes "wolfssl")
    ∷ some (codes "enc")
    ∷ some (codes "-aes-128-cbc")
    ∷ some (codes "-in")
    ∷ some (codes "a")
    ∷ some (codes "-key")
    ∷ some (codes "0102")
    ∷ some (codes "-iv")
    ∷ some (codes "0304")
    ∷ some (codes "-k")
    ∷ some (codes "secret")
    ∷ []

abbrev given_secrets : Secrets
given_secrets = record {
  given_key = some (1 ∷ 2 ∷ []);
  given_iv = some (3 ∷ 4 ∷ []);
  given_password = some (codes "secret");
  input_left = [];
}

-- the kind of key and the password of a plan
abbrev secret_of : Option Plan → KeyType × Bytes
secret_of (some (run enc s)) = (s.key_type, s.pwd_key)
secret_of _ = (keytype_none, codes "none")

password_is_empty :
    secret_of (crypt_setup decode always no_file known 16 2 true true true key_and_password [])
    ≡ (keytype_password, [])
unfolding crypt_setup option_loop get_opt get_opt_from entry_event check_for_arg check_from is_match
    is_help_like strncmp_eq crypt_option load_hex_key hex_to_bin validate ask_input dispatch
    run_cipher_of wipe after_options
password_is_empty = refl

-- the input of a plan
abbrev input_of : Option Plan → Option Bytes
input_of (some (run enc s)) = s.input
input_of _ = none

-- "-output" names the input
output_is_input :
    input_of (
      crypt_setup decode always no_file known 16 2 true true true
        (some (codes "wolfssl")
          ∷ some (codes "enc")
          ∷ some (codes "-aes-128-cbc")
          ∷ some (codes "-in")
          ∷ some (codes "a")
          ∷ some (codes "-output")
          ∷ some (codes "b")
          ∷ some (codes "-k")
          ∷ some (codes "secret")
          ∷ [])
        [])
    ≡ some (codes "b")
unfolding crypt_setup option_loop get_opt get_opt_from entry_event check_for_arg check_from is_match
    is_help_like strncmp_eq crypt_option load_hex_key hex_to_bin validate ask_input dispatch
    run_cipher_of wipe after_options convert_to_lower to_lower
output_is_input = refl

-- the output of a plan
abbrev output_of : Option Plan → Option Bytes
output_of (some (run enc s)) = s.output
output_of _ = none

-- Without an EVP cipher the name of the output is read from the second line, the first of which is
-- empty.
output_asked :
    output_of (
      crypt_setup decode always no_file known 16 2 false true true key_and_password
        (10 ∷ codes "o" ++ 10 ∷ []))
    ≡ some (codes "o")
unfolding crypt_setup option_loop get_opt get_opt_from entry_event check_for_arg check_from is_match
    is_help_like strncmp_eq crypt_option load_hex_key hex_to_bin validate ask_input dispatch
    run_cipher_of wipe after_options ask_output read_filename fgets get_line before before_line_end
output_asked = refl
