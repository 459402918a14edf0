-- ===== src/Ocsp/Options.antt =====
-- src/ocsp/clu_ocsp.c, `ocsp_options`, in the source's order. The options whose case in the `switch`
-- only says that they are not yet supported have one value.
use wolf_clu.Base.{true, false, List, [], ◌∷◌}
use wolf_clu.Text.{Bytes, codes}
use wolf_clu.Args.{OptionEntry}

pub data OcspOption : Type 0 where
  opt_help opt_ca_file opt_ca opt_nrequest opt_index opt_rsigner opt_rkey opt_url opt_port
        opt_no_nonce opt_cert opt_issuer opt_scgi opt_unsupported :
      OcspOption

abbrev flag : Bytes → OcspOption → OptionEntry OcspOption
flag name val = record { name = name; has_arg = false; val = val }

abbrev with_arg : Bytes → OcspOption → OptionEntry OcspOption
with_arg name val = record { name = name; has_arg = true; val = val }

abbrev pub ocsp_options : List (OptionEntry OcspOption)
ocsp_options =
    flag (codes "-help") opt_help
    ∷ flag (codes "-ignore_err") opt_unsupported
    ∷ with_arg (codes "-CAfile") opt_ca_file
    ∷ with_arg (codes "-CApath") opt_unsupported
    ∷ with_arg (codes "-CAstore") opt_unsupported
    ∷ flag (codes "-no-CAfile") opt_unsupported
    ∷ flag (codes "-no-CApath") opt_unsupported
    ∷ flag (codes "-no-CAstore") opt_unsupported
    ∷ with_arg (codes "-timeout") opt_unsupported
    ∷ flag (codes "-resp_no_certs") opt_unsupported
    ∷ with_arg (codes "-multi") opt_unsupported
    ∷ flag (codes "-no_certs") opt_unsupported
    ∷ flag (codes "-badsig") opt_unsupported
    ∷ with_arg (codes "-CA") opt_ca
    ∷ with_arg (codes "-nmin") opt_unsupported
    ∷ with_arg (codes "-nrequest") opt_nrequest
    ∷ with_arg (codes "-reqin") opt_unsupported
    ∷ with_arg (codes "-signer") opt_unsupported
    ∷ with_arg (codes "-sign_other") opt_unsupported
    ∷ with_arg (codes "-index") opt_index
    ∷ with_arg (codes "-ndays") opt_unsupported
    ∷ with_arg (codes "-rsigner") opt_rsigner
    ∷ with_arg (codes "-rkey") opt_rkey
    ∷ with_arg (codes "-passin") opt_unsupported
    ∷ with_arg (codes "-rother") opt_unsupported
    ∷ with_arg (codes "-rmd") opt_unsupported
    ∷ with_arg (codes "-rsigopt") opt_unsupported
    ∷ with_arg (codes "-header") opt_unsupported
    ∷ with_arg (codes "-rcid") opt_unsupported
    ∷ with_arg (codes "-url") opt_url
    ∷ with_arg (codes "-host") opt_unsupported
    ∷ with_arg (codes "-port") opt_port
    ∷ with_arg (codes "-path") opt_unsupported
    ∷ with_arg (codes "-proxy") opt_unsupported
    ∷ with_arg (codes "-no_proxy") opt_unsupported
    ∷ with_arg (codes "-out") opt_unsupported
    ∷ flag (codes "-noverify") opt_unsupported
    ∷ flag (codes "-nonce") opt_unsupported
    ∷ flag (codes "-no_nonce") opt_no_nonce
    ∷ flag (codes "-no_signature_verify") opt_unsupported
    ∷ flag (codes "-resp_key_id") opt_unsupported
    ∷ flag (codes "-no_cert_verify") opt_unsupported
    ∷ flag (codes "-text") opt_unsupported
    ∷ flag (codes "-req_text") opt_unsupported
    ∷ flag (codes "-resp_text") opt_unsupported
    ∷ flag (codes "-no_chain") opt_unsupported
    ∷ flag (codes "-no_cert_checks") opt_unsupported
    ∷ flag (codes "-no_explicit") opt_unsupported
    ∷ flag (codes "-trust_other") opt_unsupported
    ∷ flag (codes "-no_intern") opt_unsupported
    ∷ with_arg (codes "-respin") opt_unsupported
    ∷ with_arg (codes "-VAfile") opt_unsupported
    ∷ with_arg (codes "-verify_other") opt_unsupported
    ∷ with_arg (codes "-cert") opt_cert
    ∷ with_arg (codes "-serial") opt_unsupported
    ∷ with_arg (codes "-validity_period") opt_unsupported
    ∷ with_arg (codes "-signkey") opt_unsupported
    ∷ with_arg (codes "-reqout") opt_unsupported
    ∷ with_arg (codes "-respout") opt_unsupported
    ∷ with_arg (codes "-issuer") opt_issuer
    ∷ with_arg (codes "-status_age") opt_unsupported
    ∷ with_arg (codes "-policy") opt_unsupported
    ∷ with_arg (codes "-purpose") opt_unsupported
    ∷ with_arg (codes "-verify_name") opt_unsupported
    ∷ with_arg (codes "-verify_depth") opt_unsupported
    ∷ with_arg (codes "-auth_level") opt_unsupported
    ∷ with_arg (codes "-attime") opt_unsupported
    ∷ with_arg (codes "-verify_hostname") opt_unsupported
    ∷ with_arg (codes "-verify_email") opt_unsupported
    ∷ with_arg (codes "-verify_ip") opt_unsupported
    ∷ flag (codes "-ignore_critical") opt_unsupported
    ∷ flag (codes "-issuer_checks") opt_unsupported
    ∷ flag (codes "-crl_check") opt_unsupported
    ∷ flag (codes "-crl_check_all") opt_unsupported
    ∷ flag (codes "-policy_check") opt_unsupported
    ∷ flag (codes "-explicit_policy") opt_unsupported
    ∷ flag (codes "-inhibit_any") opt_unsupported
    ∷ flag (codes "-inhibit_map") opt_unsupported
    ∷ flag (codes "-x509_strict") opt_unsupported
    ∷ flag (codes "-extended_crl") opt_unsupported
    ∷ flag (codes "-use_deltas") opt_unsupported
    ∷ flag (codes "-policy_print") opt_unsupported
    ∷ flag (codes "-check_ss_sig") opt_unsupported
    ∷ flag (codes "-trusted_first") opt_unsupported
    ∷ flag (codes "-suiteB_128_only") opt_unsupported
    ∷ flag (codes "-suiteB_128") opt_unsupported
    ∷ flag (codes "-suiteB_192") opt_unsupported
    ∷ flag (codes "-partial_chain") opt_unsupported
    ∷ flag (codes "-no_alt_chains") opt_unsupported
    ∷ flag (codes "-no_check_time") opt_unsupported
    ∷ flag (codes "-allow_proxy_certs") opt_unsupported
    ∷ with_arg (codes "-provider-path") opt_unsupported
    ∷ with_arg (codes "-provider") opt_unsupported
    ∷ with_arg (codes "-propquery") opt_unsupported
    ∷ flag (codes "-scgi") opt_scgi
    ∷ []
