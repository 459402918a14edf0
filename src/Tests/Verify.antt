-- ===== src/Tests/Verify.antt =====
-- The command line `wolfssl verify -CAfile ca -crl_check cert`.
use wolf_clu.Base.{Bool, true, [], ◌∷◌, none, some, ◌≡◌, refl}
use wolf_clu.Text.{Bytes, codes, bytes_eq, strncmp_eq}
use wolf_clu.Args.{
  Argv, events, option_loop, get_opt, get_opt_from, entry_event, check_for_arg, check_from,
  is_help_like, is_match,
}
use wolf_clu.Verify.{
  VerifyApi, Verdict, verify_ok, verify_option, value_is_last, load_cert_from_file,
  load_intermediate, ca_is_cert, ca_ready, verify_chain, x509_verify, verify_options,
}
use wolf_clu.Verify.Sound.{Sound, x509_verify-Sound}

abbrev verify_argv : Argv
verify_argv =
    some (codes "wolfssl")
    ∷ some (codes "verify")
    ∷ some (codes "-CAfile")
    ∷ some (codes "ca")
    ∷ some (codes "-crl_check")
    ∷ some (codes "cert")
    ∷ []

unfoldable is_ca : Bytes → Bool
unfolding bytes_eq
is_ca name = bytes_eq name (codes "ca")

abbrev one_ca : VerifyApi
one_ca = record {
  Cert = Bytes;
  read_pem = λ name. none;
  read_der = λ name. some name;
  self_signed = is_ca;
  load_file = is_ca;
  verify_cert = λ store cert intermediate. store.crl_check;
}

cert_accepted :
    (v : Verdict) × (x509_verify one_ca true verify_argv ≡ some v)
    × Sound one_ca (codes "cert") (events verify_argv 1 verify_options) v
cert_accepted = x509_verify-Sound one_ca true verify_argv (codes "cert") refl

accepted_is_ok : x509_verify one_ca true verify_argv ≡ some verify_ok
unfolding x509_verify option_loop get_opt get_opt_from entry_event check_for_arg check_from
    is_help_like is_match strncmp_eq verify_option value_is_last load_cert_from_file
    load_intermediate ca_is_cert ca_ready verify_chain is_ca bytes_eq
accepted_is_ok = refl
