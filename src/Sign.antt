-- ===== src/Sign.antt =====
-- src/sign-verify/clu_sign_verify_setup.c, `wolfCLU_sign_verify_setup`. Parameter: whether a file
-- exists, as `access` tells.
pub mod Ready
use wolf_clu.Base.{
  ℕ, suc, ◌+◌, ◌==◌, ltb, Bool, true, false, not, ◌&&◌, ◌||◌, List, [], ◌∷◌, Option, none, some,
  if◌then◌else◌, length,
}
use mathlib.Core.Option
use wolf_clu.Base.Result.{Err, Result, ok, err, fatal_error, user_input_error, input_file_error}
use wolf_clu.Text.{Bytes, codes}
use wolf_clu.Forms.{Form, der_form, check_inform}
use wolf_clu.Args.{
  Argv, OptionEntry, Event, found_twice, given, Step, continue, leave, option_loop, check_for_arg,
  twice, index,
}

-- RSA_SIG_VER and so on
pub data SigAlg : Type 0 where
  rsa_sig_ver ed25519_sig_ver ecc_sig_ver dilithium_sig_ver xmss_sig_ver xmssmt_sig_ver : SigAlg

-- `wolfCLU_checkForArg(name, strlen(name), argc, argv) > 0`
unfoldable pub has_word : Argv → Bytes → Bool
has_word argv name = elim (check_for_arg (some name) (length name) argv) [
  | twice ↦ false
  | index i ↦ ltb 0 i
]

-- the words that choose the algorithm
unfoldable pub alg_of : Argv → Option SigAlg
alg_of argv =
    if has_word argv (codes "rsa")
    then some rsa_sig_ver
    else if has_word argv (codes "ed25519")
    then some ed25519_sig_ver
    else if has_word argv (codes "ecc")
    then some ecc_sig_ver
    else if has_word argv (codes "dilithium")
    then some dilithium_sig_ver
    else if has_word argv (codes "ml-dsa")
    then some dilithium_sig_ver
    else if has_word argv (codes "xmss")
    then some xmss_sig_ver
    else if has_word argv (codes "xmssmt")
    then some xmssmt_sig_ver
    else none

pub data SignOption : Type 0 where
  opt_sign opt_verify opt_pubin opt_inkey opt_infile opt_outfile opt_sigfile opt_inform opt_help :
      SignOption

abbrev flag : Bytes → SignOption → OptionEntry SignOption
flag name val = record { name = name; has_arg = false; val = val }

abbrev with_arg : Bytes → SignOption → OptionEntry SignOption
with_arg name val = record { name = name; has_arg = true; val = val }

abbrev pub sign_verify_options : List (OptionEntry SignOption)
sign_verify_options =
    flag (codes "-sign") opt_sign
    ∷ flag (codes "-verify") opt_verify
    ∷ flag (codes "-pubin") opt_pubin
    ∷ with_arg (codes "-inkey") opt_inkey
    ∷ with_arg (codes "-in") opt_infile
    ∷ with_arg (codes "-out") opt_outfile
    ∷ with_arg (codes "-sigfile") opt_sigfile
    ∷ with_arg (codes "-inform") opt_inform
    ∷ flag (codes "-h") opt_help
    ∷ flag (codes "-help") opt_help
    ∷ []

pub record SignLocals : Type 0 where
  pub in_file : Option Bytes
  pub out_file : Option Bytes
  pub priv : Option Bytes
  pub sig : Option Bytes
  pub in_check : Bool
  pub sign_check : Bool
  pub verify_check : Bool
  pub pub_in_check : Bool
  pub help_check : Bool
  pub in_form : Form

abbrev pub no_sign_locals : SignLocals
no_sign_locals = record {
  in_file = none;
  out_file = none;
  priv = none;
  sig = none;
  in_check = false;
  sign_check = false;
  verify_check = false;
  pub_in_check = false;
  help_check = false;
  in_form = der_form;
}

-- What the command goes on to do: the help, an error, the call of `wolfCLU_sign_data` (with the input,
-- the output, the key and its format) or of `wolfCLU_verify_signature` (with the signature, the input,
-- the output, the key, whether it is a public one, and its format), or nothing, with success.
pub data SignPlan : Type 0 where
  sign_help no_work : SignPlan
  sign_error : Err → SignPlan
  sign_data : SigAlg → Option Bytes → Option Bytes → Option Bytes → Form → SignPlan
  verify_signature :
      SigAlg → Option Bytes → Option Bytes → Option Bytes → Option Bytes → Bool → Form → SignPlan

-- `file == NULL || access(file, F_OK) == -1`
abbrev pub is_missing : (Bytes → Bool) → Option Bytes → Bool
is_missing exists none = true
is_missing exists (some name) = not (exists name)

module _ (exists : Bytes → Bool) where
  -- the `switch`; an error leaves the loop
  unfoldable pub sign_option : Event SignOption → SignLocals → Step SignLocals Err
  sign_option found_twice s = leave fatal_error
  sign_option (given opt_help arg) s = continue (record s { help_check = true })
  sign_option (given opt_sign arg) s = continue (record s { sign_check = true })
  sign_option (given opt_verify arg) s = continue (record s { verify_check = true })
  sign_option (given opt_pubin arg) s = continue (record s { pub_in_check = true })
  sign_option (given opt_inkey arg) s =
      if is_missing exists arg then leave input_file_error else continue (record s { priv = arg })
  sign_option (given opt_infile arg) s =
      if is_missing exists arg
      then leave input_file_error
      else continue (record s { in_file = arg; in_check = true })
  sign_option (given opt_outfile arg) s = continue (record s { out_file = arg })
  sign_option (given opt_sigfile arg) s =
      if is_missing exists arg then leave input_file_error else continue (record s { sig = arg })
  sign_option (given opt_inform arg) s = elim (check_inform arg) [
    | ok form ↦ continue (record s { in_form = form })
    | err e ↦ leave fatal_error
  ]

-- `x == NULL`
abbrev pub is_null : Option Bytes → Bool
is_null none = true
is_null (some x) = false

-- "check that an output file was provided where one is required"
unfoldable pub needs_out : SigAlg → Bool → Bool
needs_out rsa_sig_ver verify_check = true
needs_out ecc_sig_ver verify_check = not verify_check
needs_out dilithium_sig_ver verify_check = not verify_check
needs_out xmss_sig_ver verify_check = not verify_check
needs_out xmssmt_sig_ver verify_check = not verify_check
needs_out ed25519_sig_ver verify_check = false

-- "input is required, except RSA verify which doesn't check the message"
unfoldable pub needs_in : SigAlg → Bool → Bool
needs_in rsa_sig_ver verify_check = not verify_check
needs_in alg verify_check = true

-- what follows the loop
unfoldable pub after_sign_options : SigAlg → SignLocals → SignPlan
after_sign_options alg s =
    if s.help_check
    then sign_help
    else if is_null s.priv
    then sign_error user_input_error
    else if s.verify_check && is_null s.sig
    then sign_error user_input_error
    else if is_null s.out_file && needs_out alg s.verify_check
    then sign_error fatal_error
    else if not s.in_check && needs_in alg s.verify_check
    then sign_error fatal_error
    else if s.sign_check
    then sign_data alg s.in_file s.out_file s.priv s.in_form
    else if s.verify_check
    then verify_signature alg s.sig s.in_file s.out_file s.priv s.pub_in_check s.in_form
    else no_work

module _ (exists : Bytes → Bool) where
  abbrev pub sign_plan_of : SigAlg → Step SignLocals Err → SignPlan
  sign_plan_of alg (leave e) = sign_error e
  sign_plan_of alg (continue s) = after_sign_options alg s

  -- `wolfCLU_sign_verify_setup` up to the call; none if the fuel of the loop ran out
  unfoldable pub sign_verify_setup : Argv → Option SignPlan
  sign_verify_setup argv = elim (alg_of argv) [
    | none ↦ some (sign_error fatal_error)
    | some alg ↦ Option.map (sign_plan_of alg) (
        option_loop (sign_option exists) argv 1 sign_verify_options (length sign_verify_options + 1)
          0 no_sign_locals)
  ]
