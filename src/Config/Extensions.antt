-- ===== src/Config/Extensions.antt =====
-- src/x509/clu_config.c: `wolfCLU_setAttributes`, `wolfCLU_parseSubjectKeyID`, `wolfCLU_parseExtension`,
-- `wolfCLU_setExtensions` and `wolfCLU_readConfig`. Parameters, from wolfSSL: the configuration that it
-- has loaded, and the operations on certificates and extensions. Allocations succeed.
pub mod Inline
use wolf_clu.Base.{
  ℕ, Bool, true, false, not, ◌&&◌, ◌||◌, List, [], ◌∷◌, ◌++◌, Option, none, some, ◌==◌,
  if◌then◌else◌, length,
}
use wolf_clu.Base.Result.{Result, ok, err, fatal_error}
use wolf_clu.Text.{Bytes, codes, starts_with, strncmp_eq}
use wolf_clu.Text.Words.{words}
use wolf_clu.Config.{CertApi, Conf, set_inline_alt_names, set_alt_names}
use wolf_clu.Config.Constraint.{Constraint, parse_basic_constraint}
use wolf_clu.Config.Usage.{KeyUse, Bits, key_use_flag}
use wolf_clu.Config.Names.{DisNids, set_dis_names}
use wolf_clu.Names.{NameApi}
use wolf_clu.Names.Asked.{Created, not_created}

-- what the code asks for by number
pub data Nid : Type 0 where
  basic_constraints subject_key_identifier authority_key_identifier key_usage : Nid

pub data Attribute : Type 0 where
  challenge_password unstructured_name : Attribute

-- What comes of the hash of the public key: there is no key, the hash or its string fails, or the
-- extension is made of it, where none stands for a NULL.
pub data KeyId (Extension : Type 0) : Type 0 where
  no_key not_hashed : KeyId Extension
  hashed : Option Extension → KeyId Extension

-- `wolfSSL_X509_EXTENSION_new` with its values, `wolfSSL_X509V3_EXT_i2d`,
-- `wc_SetSubjectKeyIdFromPublicKey_ex`, `wolfSSL_X509_add_ext`, `wolfSSL_X509_REQ_add1_attr_by_NID`,
-- `wolfSSL_X509_REQ_set_subject_name`, and the constants of key usages
pub record ExtensionApi (X509 Name : Type 0) : Type 1 where
  pub Extension : Type 0
  pub constraint_extension : Bool → Constraint → Extension
  pub usage_extension : Bool → Bits → Option Extension
  pub key_id_extension : Bool → X509 → KeyId Extension
  pub add_ext : Extension → X509 → Option X509
  pub add_attr : Attribute → Bytes → X509 → X509
  pub set_subject_name : Name → X509 → Option X509
  pub keyuse : KeyUse → Bits

-- `strstr(s, p) != NULL`
unfoldable pub contains : Bytes → Bytes → Bool
contains [] p = starts_with [] p
contains (c ∷ s) p = starts_with (c ∷ s) p || contains s p

module _ (cert : CertApi) (names : NameApi) (api : ExtensionApi cert.X509 names.Name) where
  open cert use {X509}
  open api use {
    Extension, constraint_extension, usage_extension, key_id_extension, add_ext, add_attr,
    set_subject_name, keyuse,
  }

  unfoldable pub attribute : Attribute → Option Bytes → X509 → X509
  attribute which none x509 = x509
  attribute which (some current) x509 = add_attr which current x509

  -- `wolfCLU_setAttributes`
  unfoldable pub set_attributes : Conf → Option Bytes → X509 → X509
  set_attributes conf sect x509 =
      attribute unstructured_name (conf.get_string sect (codes "unstructuredName"))
        (attribute challenge_password (conf.get_string sect (codes "challengePassword")) x509)

  -- the loop of `wolfCLU_parseSubjectKeyID`; each beginning of "hash" is taken for it
  unfoldable pub key_id_words : Bool → X509 → List Bytes → Option Extension → Option Extension
  key_id_words crit x509 [] ext = ext
  key_id_words crit x509 (word ∷ rest) ext = elim (strncmp_eq (length word) word (codes "hash")) [
    | false ↦ key_id_words crit x509 rest ext
    | true ↦ elim (key_id_extension crit x509) [
      | no_key ↦ none
      | not_hashed ↦ key_id_words crit x509 rest ext
      | hashed ext' ↦ key_id_words crit x509 rest ext'
    ]
  ]

  -- `wolfCLU_parseSubjectKeyID`
  unfoldable pub parse_subject_key_id : Bytes → Bool → X509 → Option Extension
  parse_subject_key_id str crit x509 = key_id_words crit x509 (words b',' (length str) str) none

  -- the `switch` of `wolfCLU_parseExtension`
  unfoldable pub extension : Nid → Bytes → Bool → X509 → Option Extension
  extension basic_constraints str crit x509 = elim (parse_basic_constraint str crit) [
    | none ↦ none
    | some obj ↦ some (constraint_extension crit obj)
  ]
  extension subject_key_identifier str crit x509 = parse_subject_key_id str crit x509
  extension authority_key_identifier str crit x509 = none
  extension key_usage str crit x509 = usage_extension crit (key_use_flag keyuse str)

  -- `wolfCLU_parseExtension`; an extension that cannot be added is left out
  unfoldable pub parse_extension : Nid → Bytes → X509 → X509
  parse_extension nid str x509 = elim (extension nid str (contains str (codes "critical")) x509) [
    | none ↦ x509
    | some ext ↦ elim (add_ext ext x509) [ none ↦ x509 | some x509' ↦ x509' ]
  ]

  -- "if (current != NULL)"
  unfoldable pub if_given : Nid → Option Bytes → X509 → X509
  if_given nid none x509 = x509
  if_given nid (some current) x509 = parse_extension nid current x509

  -- the part of `wolfCLU_setExtensions` for the alternative names; in front of a '@' the section that is
  -- named behind it is read, and one that is not there is passed over
  unfoldable pub alt_names : Conf → Option Bytes → X509 → Result X509
  alt_names conf none x509 = ok x509
  alt_names conf (some []) x509 = set_inline_alt_names cert [] x509
  alt_names conf (some (c ∷ current)) x509 =
      if c == b'@'
      then elim (conf.get_section current) [
        | none ↦ ok x509
        | some entries ↦ set_alt_names cert entries x509
      ]
      else set_inline_alt_names cert (c ∷ current) x509

  -- `wolfCLU_setExtensions`
  unfoldable pub set_extensions : Conf → Option Bytes → X509 → Result X509
  set_extensions conf none x509 = ok x509
  set_extensions conf (some sect) x509 =
      let current = conf.get_string (some sect) in
      alt_names conf (current (codes "subjectAltName")) (
        if_given key_usage (current (codes "keyUsage")) (
          if_given authority_key_identifier (current (codes "authorityKeyIdentifier")) (
            if_given subject_key_identifier (current (codes "subjectKeyIdentifier"))
              (if_given basic_constraints (current (codes "basicConstraints")) x509))))

  -- the extensions of `wolfCLU_readConfig`: those of the section that was asked for, which has to be
  -- there, or else of the one that the configuration names
  unfoldable pub config_extensions : Conf → Bytes → Option Bytes → X509 → Result X509
  config_extensions conf sect none x509 =
      set_extensions conf (conf.get_string (some sect) (codes "x509_extensions")) x509
  config_extensions conf sect (some ext) x509 = elim (conf.get_section ext) [
    | none ↦ err fatal_error
    | some entries ↦ set_extensions conf (some ext) x509
  ]

  -- "check if no prompting"
  unfoldable pub prompts_not : Option Bytes → Bool
  prompts_not none = false
  prompts_not (some curnt) = contains curnt (codes "no")

  -- `wolfCLU_readConfig`
  unfoldable pub read_config :
      Conf → (ℕ → Bool) → DisNids → Bytes → Option Bytes → X509 → Bytes → Created X509
  read_config conf realloc nids sect ext x509 fp =
      let current = conf.get_string (some sect) in
      elim (config_extensions conf sect ext
        (set_attributes conf (current (codes "attributes")) x509)) [
          | err e ↦ not_created
          | ok x509' ↦
              set_dis_names names conf realloc set_subject_name nids
                (current (codes "distinguished_name")) (prompts_not (current (codes "prompt")))
                x509' fp
        ]
