-- ===== src/Config.antt =====
-- src/x509/clu_config.c: the alternative names of a certificate, as the option -addext and a
-- configuration file give them. Parameters, from wolfSSL: certificates with the operation that adds a
-- name, and the encodings of addresses and object identifiers. Allocations succeed;
-- WOLFSSL_ALT_NAMES, WOLFSSL_CERT_EXT and HAVE_OID_ENCODING are defined.
pub mod AltNames
pub mod Constraint
pub mod Names
pub mod Usage
pub mod Extensions
use wolf_clu.Base.{
  ℕ, zero, suc, ◌+◌, Bool, true, false, not, ◌&&◌, ◌||◌, List, [], ◌∷◌, ◌++◌, Option, none, some,
  ◌==◌, leb, ltb, ℤ, pos, negsuc, if◌then◌else◌, length,
}
use wolf_clu.Base.Result.{Result, ok, err, Err, fatal_error, bad_func_arg}
use wolf_clu.Text.{Bytes, codes, bytes_eq, strncmp_eq, is_digit, before, after, strtok, atoi}
use wolf_clu.Text.Lines.{lacks}
use wolf_clu.Text.Words.{words}

-- ASN_IP_TYPE and so on
pub data AltType : Type 0 where
  ip_type dns_type uri_type rid_type rfc822_type : AltType

-- `wolfSSL_X509_add_altname_ex`, `wolfSSL_a2i_IPADDRESS`, `wolfSSL_OBJ_txt2obj`, `wc_EncodeObjectId`
-- and ASN1_OID_DOTTED_MAX_SZ
pub record CertApi : Type 1 where
  pub X509 : Type 0
  pub add_altname : AltType → Bytes → X509 → Option X509
  pub a2i_ipaddress : Bytes → Option Bytes
  pub txt2obj : Bytes → Option Bytes
  pub encode_object_id : List ℕ → Option Bytes
  pub max_components : ℕ

-- `wolfSSL_NCONF_get_string` and `wolfSSL_NCONF_get_number`, each with the section, where none is
-- NULL, and the key, and `wolfSSL_NCONF_get_section`
pub record Conf : Type 0 where
  pub get_string : Option Bytes → Bytes → Option Bytes
  pub get_number : Bytes → Bytes → Option ℤ
  pub get_section : Bytes → Option (List (Option (Bytes × Bytes)))

unfoldable pub is_blank : ℕ → Bool
is_blank c = c == b' ' || (c == 9 || (c == 13 || c == 10))

unfoldable pub skip_blank : Bytes → Bytes
skip_blank [] = []
skip_blank (c ∷ s) = if is_blank c then skip_blank s else c ∷ s

-- the text without the blanks at its end
unfoldable pub strip_blank : Bytes → Bytes
strip_blank [] = []
strip_blank (c ∷ s) = elim (strip_blank s) [
  | [] ↦ if is_blank c then [] else c ∷ []
  | d ∷ t ↦ c ∷ d ∷ t
]

-- "require decimal-digits-only token"
unfoldable pub digits_only : Bytes → Bool
digits_only [] = true
digits_only (c ∷ s) = is_digit c && digits_only s

-- `n < 0 || n > 0xFFFF`
abbrev pub component : ℤ → Option ℕ
component (negsuc n) = none
component (pos n) = if ltb 65535 n then none else some n

-- the components of an object identifier, with the number of those before them
unfoldable pub rid_components : ℕ → ℕ → List Bytes → Option (List ℕ)
rid_components limit count [] = some []
rid_components limit count (token ∷ tokens) =
    if leb limit count || not (digits_only token) then none else elim (component (atoi token)) [
      | none ↦ none
      | some n ↦ elim (rid_components limit (count + 1) tokens) [
        | none ↦ none
        | some ns ↦ some (n ∷ ns)
      ]
    ]

module _ (api : CertApi) where
  open api use {X509, add_altname, a2i_ipaddress, txt2obj, encode_object_id, max_components}

  -- "If RID value is not named OID, manually encode dotted OID into byte array"
  unfoldable pub encode_rid : Bytes → Option Bytes
  encode_rid value = elim (txt2obj value) [
    | some oid ↦ some oid
    | none ↦ elim (rid_components max_components 0 (words b'.' (length value) value)) [
      | none ↦ none
      | some ns ↦ encode_object_id ns
    ]
  ]

  -- the type of a name and what is added
  unfoldable pub alt_name : Bytes → Bytes → Option (AltType × Bytes)
  alt_name name value =
      if strncmp_eq 2 name (codes "IP")
      then elim (a2i_ipaddress value) [ none ↦ none | some ip ↦ some (ip_type, ip) ]
      else if strncmp_eq 3 name (codes "DNS")
      then some (dns_type, value)
      else if strncmp_eq 3 name (codes "URI")
      then some (uri_type, value)
      else if strncmp_eq 3 name (codes "RID")
      then elim (encode_rid value) [ none ↦ none | some oid ↦ some (rid_type, oid) ]
      else if strncmp_eq 5 name (codes "email")
      then some (rfc822_type, value)
      else none

  -- `wolfCLU_addAltName`
  unfoldable pub add_alt_name : Bytes → Bytes → X509 → Result X509
  add_alt_name name value x509 = elim (alt_name name value) [
    | none ↦ err fatal_error
    | some (type, s) ↦ elim (add_altname type s x509) [
      | none ↦ err fatal_error
      | some x509' ↦ ok x509'
    ]
  ]

  -- the body of the loop of `wolfCLU_setInlineAltNames`, for one entry
  unfoldable pub inline_entry : Bytes → X509 → Result X509
  inline_entry entry x509 =
      let token = strip_blank (skip_blank entry) in
      let name = before b':' token in
      let value = skip_blank (after b':' token) in
      if lacks b':' token
      then err fatal_error
      else if length name == 0 || length value == 0
      then err fatal_error
      else add_alt_name name value x509

  -- the loop over the entries
  unfoldable pub inline_entries : List Bytes → X509 → Result X509
  inline_entries [] x509 = ok x509
  inline_entries (entry ∷ entries) x509 = elim (inline_entry entry x509) [
    | err e ↦ err e
    | ok x509' ↦ inline_entries entries x509'
  ]

  -- `wolfCLU_setInlineAltNames`
  unfoldable pub set_inline_alt_names : Bytes → X509 → Result X509
  set_inline_alt_names val x509 = inline_entries (words b',' (length val) val) x509

  -- `wolfCLU_parseAddExt`
  unfoldable pub parse_add_ext : Option Bytes → X509 → Result X509
  parse_add_ext none x509 = err bad_func_arg
  parse_add_ext (some add_ext) x509 =
      if lacks b'=' add_ext
      then err fatal_error
      else if bytes_eq (before b'=' add_ext) (codes "subjectAltName")
      then set_inline_alt_names (after b'=' add_ext) x509
      else err fatal_error

  -- `wolfCLU_setAltNames` for the entries of a section, where none stands for a NULL
  unfoldable pub set_alt_names : List (Option (Bytes × Bytes)) → X509 → Result X509
  set_alt_names [] x509 = ok x509
  set_alt_names (none ∷ entries) x509 = err fatal_error
  set_alt_names (some (name, value) ∷ entries) x509 = elim (add_alt_name name value x509) [
    | err e ↦ err e
    | ok x509' ↦ set_alt_names entries x509'
  ]
