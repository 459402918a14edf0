-- ===== src/Crypto/Options.antt =====
-- src/crypto/clu_crypto_setup.c: `crypt_options`, in the source's order, and the locals that the
-- `switch` of `wolfCLU_setup` sets.
use wolf_clu.Base.{Bool, true, false, not, List, [], ◌∷◌, Option, none}
use wolf_clu.Text.{Bytes, codes}
use wolf_clu.Args.{OptionEntry}
use wolf_clu.Crypto.{KeyType, keytype_none}

-- `opt_digest` stands for the options of a digest's name, which the `switch` does not handle.
pub data CryptOption : Type 0 where
  opt_digest opt_infile opt_outfile opt_password opt_key opt_iv opt_inkey opt_output opt_pbkdf2
        opt_md opt_decrypt opt_debug opt_base64 opt_nosalt opt_password_source :
      CryptOption

abbrev flag : Bytes → CryptOption → OptionEntry CryptOption
flag name val = record { name = name; has_arg = false; val = val }

abbrev with_arg : Bytes → CryptOption → OptionEntry CryptOption
with_arg name val = record { name = name; has_arg = true; val = val }

abbrev pub crypt_options : List (OptionEntry CryptOption)
crypt_options =
    flag (codes "-sha") opt_digest
    ∷ flag (codes "-sha224") opt_digest
    ∷ flag (codes "-sha256") opt_digest
    ∷ flag (codes "-sha384") opt_digest
    ∷ flag (codes "-sha512") opt_digest
    ∷ with_arg (codes "-in") opt_infile
    ∷ with_arg (codes "-out") opt_outfile
    ∷ with_arg (codes "-pwd") opt_password
    ∷ with_arg (codes "-key") opt_key
    ∷ with_arg (codes "-iv") opt_iv
    ∷ with_arg (codes "-inkey") opt_inkey
    ∷ with_arg (codes "-output") opt_output
    ∷ flag (codes "-pbkdf2") opt_pbkdf2
    ∷ with_arg (codes "-md") opt_md
    ∷ flag (codes "-d") opt_decrypt
    ∷ flag (codes "-p") opt_debug
    ∷ with_arg (codes "-k") opt_password
    ∷ flag (codes "-base64") opt_base64
    ∷ flag (codes "-nosalt") opt_nosalt
    ∷ with_arg (codes "-pass") opt_password_source
    ∷ []

-- The locals; `input` and `output` are `in` and `out`, none for NULL, `stdin` is what is left of the
-- standard input.
pub record Locals : Type 0 where
  pub pwd_key : Bytes
  pub key : Bytes
  pub iv : Bytes
  pub key_type : KeyType
  pub pwd_key_chk : Bool
  pub key_check : Bool
  pub iv_check : Bool
  pub in_check : Bool
  pub out_check : Bool
  pub enc_check : Bool
  pub dec_check : Bool
  pub no_salt : Bool
  pub is_base64 : Bool
  pub pbkdf2 : Bool
  pub verbose : Bool
  pub input : Option Bytes
  pub output : Option Bytes
  pub digest : Option Bytes
  pub stdin : Bytes

-- The locals before the loop; `digest` is none for SHA-256, which no option names. `in` is an array
-- that is not filled.
abbrev pub start : Bool → Bytes → Locals
start enc stdin = record {
  pwd_key = [];
  key = [];
  iv = [];
  key_type = keytype_none;
  pwd_key_chk = false;
  key_check = false;
  iv_check = false;
  in_check = false;
  out_check = false;
  enc_check = enc;
  dec_check = not enc;
  no_salt = false;
  is_base64 = false;
  pbkdf2 = false;
  verbose = false;
  input = none;
  output = none;
  digest = none;
  stdin = stdin;
}
