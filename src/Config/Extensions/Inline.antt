-- ===== src/Config/Extensions/Inline.antt =====
-- src/x509/clu_config.c, `wolfCLU_setExtensions`: alternative names in the value and in a section.
use wolf_clu.Base.{
  ℕ, true, false, ◌&&◌, List, [], ◌∷◌, Option, some, ◌==◌, All, ◌≡◌, refl, sym, ◌∙◌, arith,
}
use wolf_clu.Text.{Bytes, codes, bytes_eq, starts_with}
use wolf_clu.Names.{NameApi}
use wolf_clu.Config.{CertApi, Conf, set_inline_alt_names, set_alt_names}
use wolf_clu.Config.AltNames.{Writable, write_names, section, set_inline_alt_names-section}
use wolf_clu.Config.Extensions.{ExtensionApi, alt_names, set_extensions}

-- The values of the keys "keyUsage" and so on are the same.
abbrev pub SameBut : Conf → Conf → Bytes → Bytes → Type 0
SameBut conf conf' sect key =
    (other : Bytes)
    → bytes_eq other key ≡ false
    → conf.get_string (some sect) other ≡ conf'.get_string (some sect) other

module _ (cert : CertApi) (names : NameApi) (api : ExtensionApi cert.X509 names.Name) where
  alt_names-write_names :
      (conf : Conf) (es : List (Bytes × Bytes)) (x509 : cert.X509)
      → All Writable es
      → starts_with (write_names es) (b'@' ∷ []) ≡ false
      → alt_names cert names api conf (some (write_names es)) x509
        ≡ set_alt_names cert (section es) x509
  unfolding alt_names starts_with
  alt_names-write_names conf es x509 h k =
      go (write_names es) k ∙ set_inline_alt_names-section cert es x509 h
    where
      go :
          (s : Bytes)
          → starts_with s (b'@' ∷ []) ≡ false
          → alt_names cert names api conf (some s) x509 ≡ set_inline_alt_names cert s x509
      go [] k = refl
      go (c ∷ s) k = rw (the_first c k, alt_names) refl
        where
          the_first : (c : ℕ) → ((c == b'@') && true) ≡ false → (c == b'@') ≡ false
          the_first c k = ground (arith, k)

  alt_names-section :
      (conf : Conf) (name : Bytes) (entries : List (Option (Bytes × Bytes))) (x509 : cert.X509)
      → conf.get_section name ≡ some entries
      → alt_names cert names api conf (some (b'@' ∷ name)) x509 ≡ set_alt_names cert entries x509
  unfolding alt_names
  alt_names-section conf name entries x509 h = rw (h, alt_names) refl

-- `wolfCLU_setExtensions` does the same for a section that writes alternative names out as
-- "TYPE:value,TYPE:value" and for one that has '@' and the name of a section that lists them, when the
-- other values are the same. No type and no value is empty or has a blank or a comma, no type a colon,
-- and the first does not begin with '@'.
pub set_extensions-inline :
    (cert : CertApi) (names : NameApi) (api : ExtensionApi cert.X509 names.Name) (conf conf' : Conf)
    (sect name : Bytes) (es : List (Bytes × Bytes)) (x509 : cert.X509)
    → SameBut conf conf' sect (codes "subjectAltName")
    → conf.get_string (some sect) (codes "subjectAltName") ≡ some (write_names es)
    → conf'.get_string (some sect) (codes "subjectAltName") ≡ some (b'@' ∷ name)
    → conf'.get_section name ≡ some (section es)
    → All Writable es
    → starts_with (write_names es) (b'@' ∷ []) ≡ false
    → set_extensions cert names api conf (some sect) x509
      ≡ set_extensions cert names api conf' (some sect) x509
unfolding set_extensions bytes_eq
set_extensions-inline cert names api conf conf' sect name es x509 same inline at listed h k =
    rw
      (
        inline,
        at,
        same (codes "keyUsage") refl,
        same (codes "authorityKeyIdentifier") refl,
        same (codes "subjectKeyIdentifier") refl,
        same (codes "basicConstraints") refl,
        set_extensions,
      )
      (alt_names-write_names cert names api conf es _ h k
        ∙ sym (alt_names-section cert names api conf' name (section es) _ listed))
