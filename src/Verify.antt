-- ===== src/Verify.antt =====
-- src/sign-verify/clu_x509_verify.c, `wolfCLU_x509Verify`. Parameters, from wolfSSL: the certificates
-- that are read from files, and what is found out about them. Allocations succeed.
pub mod Sound
use wolf_clu.Base.{
  ℕ, ◌+◌, ◌-◌, Bool, true, false, not, ◌&&◌, ◌||◌, List, [], ◌∷◌, Option, none, some, ◌==◌,
  if◌then◌else◌, length,
}
use mathlib.Core.Option
use wolf_clu.Text.{Bytes, codes, bytes_eq, strncmp_eq}
use wolf_clu.Args.{
  Argv, arg_at, twice, index, check_for_arg, OptionEntry, Event, found_twice, given, Step, continue,
  leave, option_loop,
}

pub data VerifyOption : Type 0 where
  opt_cafile opt_intermediate opt_check_crl opt_partial_chain opt_help : VerifyOption

abbrev flag : Bytes → VerifyOption → OptionEntry VerifyOption
flag name val = record { name = name; has_arg = false; val = val }

abbrev with_arg : Bytes → VerifyOption → OptionEntry VerifyOption
with_arg name val = record { name = name; has_arg = true; val = val }

abbrev pub verify_options : List (OptionEntry VerifyOption)
verify_options =
    with_arg (codes "-CAfile") opt_cafile
    ∷ with_arg (codes "-untrusted") opt_intermediate
    ∷ flag (codes "-crl_check") opt_check_crl
    ∷ flag (codes "-partial_chain") opt_partial_chain
    ∷ flag (codes "-help") opt_help
    ∷ flag (codes "-h") opt_help
    ∷ []

-- the store: the file that `wolfSSL_X509_LOOKUP_load_file` loaded, and the flags
pub record Store : Type 0 where
  pub loaded : Option Bytes
  pub crl_check : Bool
  pub partial_chain : Bool

-- `wolfSSL_PEM_read_bio_X509` and `wolfSSL_d2i_X509_bio` on a file, none also if it cannot be opened;
-- whether `wolfSSL_CertManagerVerify` has the error ASN_SELF_SIGNED_E; whether the file is loaded; and
-- `X509_STORE_CTX_init` and `X509_verify_cert` with the store, the certificate and the stack of one intermediate
pub record VerifyApi : Type 1 where
  pub Cert : Type 0
  pub read_pem : Bytes → Option Cert
  pub read_der : Bytes → Option Cert
  pub self_signed : Bytes → Bool
  pub load_file : Bytes → Bool
  pub verify_cert : Store → Cert → Option Cert → Bool

-- the locals; `failed` is that `ret` is WOLFCLU_FATAL_ERROR
pub record VerifyLocals : Type 0 where
  pub failed : Bool
  pub ca_cert : Option Bytes
  pub interm_cert : Option Bytes
  pub crl : Bool
  pub partial : Bool

abbrev pub no_verify_locals : VerifyLocals
no_verify_locals = record {
  failed = false;
  ca_cert = none;
  interm_cert = none;
  crl = false;
  partial = false;
}

-- What the command ends with; the last is that the pointer behind the last argument is read, a NULL.
pub data Verdict : Type 0 where
  verify_help verify_error verify_ok verify_fault : Verdict

-- `caCert == verifyCert`, which compares pointers: whether the value of the option is the last argument
unfoldable pub value_is_last : Bytes → Argv → Bool
value_is_last name argv = elim (check_for_arg (some name) (length name) argv) [
  | twice ↦ false
  | index i ↦ i + 2 == length argv
]

module _ (have_crl : Bool) (argv : Argv) where
  -- the `switch`; its case for -inform is left out, which the table does not have
  unfoldable pub verify_option : Event VerifyOption → VerifyLocals → Step VerifyLocals Verdict
  verify_option found_twice s = continue (record s { failed = true })
  verify_option (given opt_check_crl arg) s =
      continue (record s { crl = true; failed = s.failed || not have_crl })
  verify_option (given opt_cafile arg) s =
      continue
        (record s { ca_cert = arg; failed = s.failed || value_is_last (codes "-CAfile") argv })
  verify_option (given opt_intermediate arg) s =
      continue (record s {
        interm_cert = arg;
        failed = s.failed || value_is_last (codes "-untrusted") argv;
      })
  verify_option (given opt_partial_chain arg) s = continue (record s { partial = true })
  verify_option (given opt_help arg) s = leave verify_help

module _ (api : VerifyApi) where
  open api use {Cert, read_pem, read_der, self_signed, load_file, verify_cert}

  -- `load_cert_from_file`
  unfoldable pub load_cert_from_file : Bytes → Option Cert
  load_cert_from_file filename = elim (read_pem filename) [
    | none ↦ read_der filename
    | some cert ↦ some cert
  ]

  -- `if (ret == WOLFCLU_SUCCESS && intermCert)`: none if it cannot be loaded
  unfoldable pub load_intermediate : Option Bytes → Option (Option Cert)
  load_intermediate none = some none
  load_intermediate (some filename) = elim (load_cert_from_file filename) [
    | none ↦ none
    | some cert ↦ some (some cert)
  ]

  -- "Unless -partial_chain is passed as an argument -CAFile cannot be the same as the cert to verify"
  unfoldable pub ca_is_cert : VerifyLocals → Bytes → Bool
  ca_is_cert s cert = elim s.ca_cert [ none ↦ false | some ca ↦ not s.partial && bytes_eq ca cert ]

  -- "Confirm CA file is root CA unless partialChain enabled", and that it is loaded
  unfoldable pub ca_ready : VerifyLocals → Bool
  ca_ready s = elim s.ca_cert [
    | none ↦ true
    | some ca ↦ (s.partial || self_signed ca) && load_file ca
  ]

  abbrev pub store_of : VerifyLocals → Store
  store_of s = record { loaded = s.ca_cert; crl_check = s.crl; partial_chain = s.partial }

  -- what follows the loop, in the order of the code
  unfoldable pub verify_chain : Bytes → VerifyLocals → Verdict
  verify_chain name s =
      if s.failed || ca_is_cert s name then verify_error else elim (load_cert_from_file name) [
        | none ↦ verify_error
        | some cert ↦ elim (load_intermediate s.interm_cert) [
          | none ↦ verify_error
          | some intermediate ↦
              if ca_ready s && verify_cert (store_of s) cert intermediate
              then verify_ok
              else verify_error
        ]
      ]

  abbrev pub conclude_verify : Bytes → Step VerifyLocals Verdict → Verdict
  conclude_verify name (leave v) = v
  conclude_verify name (continue s) = verify_chain name s

  -- `wolfCLU_x509Verify`; none if the fuel of the loop ran out
  unfoldable pub x509_verify : Bool → Argv → Option Verdict
  x509_verify have_crl argv = elim (arg_at argv (length argv - 1)) [
    | none ↦ some verify_fault
    | some name ↦
        if strncmp_eq 2 (codes "-h") name
        then some verify_help
        else Option.map (conclude_verify name) (
            option_loop (verify_option have_crl argv) argv 1 verify_options
              (length verify_options + 1) 0 no_verify_locals)
  ]
