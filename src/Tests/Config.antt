-- ===== src/Tests/Config.antt =====
-- Alternative names of a certificate, its basic constraint, and a name that is asked for.
use wolf_clu.Base.{
  ℕ, Bool, true, false, List, [], ◌∷◌, ◌++◌, Option, none, some, ◌==◌, ℤ, pos, if◌then◌else◌, ◌≡◌,
  refl, arith,
}
use wolf_clu.Base.Result.{ok}
use wolf_clu.Text.{atoi, Bytes, codes, bytes_eq, strncmp_eq, starts_with}
use wolf_clu.Names.{NameApi, Encoding}
use wolf_clu.Config.{
  CertApi, Conf, is_blank, AltType, dns_type, uri_type, parse_add_ext, set_alt_names, add_alt_name,
  alt_name,
}
use wolf_clu.Config.AltNames.{parse_add_ext-section}
use wolf_clu.Config.Constraint.{parse_basic_constraint, colon_pathlen, parse_basic_constraint-Reads}
use wolf_clu.Config.Usage.{
  KeyUse, digital_sig, key_cert_sign, Bits, other, key_cert_sign_word, digital_signature,
  key_use_flag, key_use_flag-spaced,
}
use wolf_clu.Config.Extensions.{ExtensionApi, no_key, set_extensions}
use wolf_clu.Config.Extensions.Inline.{set_extensions-inline}
use wolf_clu.Config.Names.{DisNids, set_dis_names}
use wolf_clu.Config.Names.Bounded.{SubjectSet, set_dis_names-SubjectSet}

abbrev listing : CertApi
listing = record {
  X509 = List (AltType × Bytes);
  add_altname = λ type s x509. some (x509 ++ (type, s) ∷ []);
  a2i_ipaddress = λ s. none;
  txt2obj = λ s. none;
  encode_object_id = λ ns. some ns;
  max_components = 32;
}

two_names :
    parse_add_ext listing (some (codes "subjectAltName=DNS:a,URI:b")) []
    ≡ ok ((dns_type, codes "a") ∷ (uri_type, codes "b") ∷ [])
unfolding set_alt_names add_alt_name alt_name strncmp_eq is_blank
two_names =
    parse_add_ext-section listing ((codes "DNS", codes "a") ∷ (codes "URI", codes "b") ∷ []) [] (
      (omega arith, omega arith, refl, refl, refl, refl, refl),
      ((omega arith, omega arith, refl, refl, refl, refl, refl), tt),
    )

mixed_case :
    parse_basic_constraint (codes "critical,CA:tRuE:pathlen:3") true
    ≡ some (record { ca = true; pathlen = some (pos 3) })
unfolding atoi
mixed_case =
    parse_basic_constraint-Reads true _ _
      (colon_pathlen (codes "tRuE") (codes "3") (omega arith, refl) (omega arith, refl))

unfoldable section_string : Option Bytes → Bytes → Option Bytes
unfolding bytes_eq
section_string sect key = if bytes_eq key (codes "commonName") then some (codes "Name") else none

unfoldable section_number : Bytes → Bytes → Option ℤ
unfolding bytes_eq
section_number sect key = if bytes_eq key (codes "commonName_max") then some (pos 64) else none

abbrev one_name : Conf
one_name = record {
  get_string = section_string;
  get_number = section_number;
  get_section = λ sect. none;
}

abbrev listed_names : NameApi
listed_names = record {
  Name = List (Encoding × ℕ × Bytes);
  new_name = [];
  add_entry = λ e nid text name. name ++ (e, nid, text) ∷ [];
  sn2nid = λ tag. 0;
  country = 14;
}

abbrev numbers : DisNids
numbers = record {
  common = record {
    state = 16;
    locality = 15;
    organization = 17;
    unit = 18;
    common_name = 13;
    email = 48;
  };
  name = 173;
  surname = 100;
  initials = 101;
  given_name = 99;
  dn_qualifier = 174;
}

abbrev granted : ℕ → Bool
granted n = true

abbrev set_first :
    List (Encoding × ℕ × Bytes) → List (Encoding × ℕ × Bytes) → Option (List (Encoding × ℕ × Bytes))
set_first name x509 = some name

name_asked : SubjectSet listed_names one_name granted set_first numbers (codes "dn") [] (
    set_dis_names listed_names one_name granted set_first numbers
      (some (codes "dn"))
      false
      []
      (codes "a" ++ 10 ∷ []))
name_asked =
    set_dis_names-SubjectSet listed_names one_name granted (List (Encoding × ℕ × Bytes)) set_first
      numbers (codes "dn") (codes "a" ++ 10 ∷ []) []

abbrev some_bits : KeyUse → Bits
some_bits digital_sig i = i == 7
some_bits key_cert_sign i = i == 2
some_bits u i = i == 0

sign_and_certify : key_use_flag some_bits (codes "critical, keyCertSign,digitalSignature") 2 ≡ true
unfolding bytes_eq
sign_and_certify =
    key_use_flag-spaced some_bits
      ((0, other (codes "critical")) ∷ (1, key_cert_sign_word) ∷ (0, digital_signature) ∷ []) 2
      (
        (
          refl,
          refl,
          (refl, (refl, (refl, (refl, (refl, (refl, (refl, (refl, (refl, (refl, tt)))))))))),
        ),
        (tt, (tt, tt)),
      )

abbrev no_extensions : ExtensionApi (List (AltType × Bytes)) (List (Encoding × ℕ × Bytes))
no_extensions = record {
  Extension = Unit;
  constraint_extension = λ crit obj. tt;
  usage_extension = λ crit bits. none;
  key_id_extension = λ crit x509. no_key;
  add_ext = λ ext x509. some x509;
  add_attr = λ which s x509. x509;
  set_subject_name = λ name x509. some x509;
  keyuse = some_bits;
}

unfoldable alt_string : Bytes → Option Bytes → Bytes → Option Bytes
unfolding bytes_eq
alt_string value sect key = if bytes_eq key (codes "subjectAltName") then some value else none

abbrev written_out : Conf
written_out = record {
  get_string = alt_string (codes "DNS:a");
  get_number = λ sect key. none;
  get_section = λ sect. none;
}

abbrev in_section : Conf
in_section = record {
  get_string = alt_string (codes "@alt");
  get_number = λ sect key. none;
  get_section = λ sect. some (some (codes "DNS", codes "a") ∷ []);
}

same_names :
    set_extensions listing listed_names no_extensions written_out (some (codes "v3")) []
    ≡ set_extensions listing listed_names no_extensions in_section (some (codes "v3")) []
unfolding alt_string is_blank bytes_eq starts_with
same_names =
    set_extensions-inline listing listed_names no_extensions written_out in_section (codes "v3")
      (codes "alt") ((codes "DNS", codes "a") ∷ []) [] (λ other h. rw (h, alt_string) refl) refl
      refl refl ((omega arith, omega arith, refl, refl, refl, refl, refl), tt) refl
