-- ===== src/Config/AltNames.antt =====
-- src/x509/clu_config.c: alternative names that are written out for -addext.
use wolf_clu.Base.{
  ℕ, ◌<◌, Bool, true, false, not, ◌&&◌, ◌||◌, List, [], ◌∷◌, ◌++◌, Option, some, ◌==◌, length,
  length-append, All, ◌≡◌, refl, ap, ◌∙◌, arith,
}
use wolf_clu.Base.Result.{Result, ok, err}
use wolf_clu.Text.{Bytes, codes, before, after, bytes_eq}
use wolf_clu.Text.Lines.{lacks, lacks-append, join}
use wolf_clu.Text.Words.{before-append, after-append, IsWord, words-join}
use wolf_clu.Config.{
  CertApi, is_blank, skip_blank, strip_blank, add_alt_name, inline_entry, inline_entries,
  set_inline_alt_names, parse_add_ext, set_alt_names,
}

abbrev pub no_blanks : Bytes → Bool
no_blanks [] = true
no_blanks (c ∷ s) = not (is_blank c) && no_blanks s

-- A type and a value without blanks and commas, neither empty, the type without a colon.
abbrev pub Writable : Bytes × Bytes → Type 0
Writable (name, value) =
    (0 < length name)
    × (0 < length value)
    × (lacks b':' name ≡ true)
    × (lacks b',' name ≡ true)
    × (lacks b',' value ≡ true)
    × (no_blanks name ≡ true)
    × (no_blanks value ≡ true)

-- The text "DNS:a,IP:b".
abbrev written : Bytes × Bytes → Bytes
written (name, value) = name ++ b':' ∷ value

abbrev entries : List (Bytes × Bytes) → List Bytes
entries [] = []
entries (e ∷ es) = written e ∷ entries es

abbrev pub write_names : List (Bytes × Bytes) → Bytes
write_names es = join b',' (entries es)

-- The same names in a section of a configuration file.
abbrev pub section : List (Bytes × Bytes) → List (Option (Bytes × Bytes))
section [] = []
section (e ∷ es) = some e ∷ section es

skip_blank-no_blanks : (s : Bytes) → no_blanks s ≡ true → skip_blank s ≡ s
unfolding skip_blank
skip_blank-no_blanks [] h = refl
skip_blank-no_blanks (c ∷ s) h = ground (arith, h)

strip_blank-no_blanks : (s : Bytes) → no_blanks s ≡ true → strip_blank s ≡ s
unfolding strip_blank
strip_blank-no_blanks [] h = refl
strip_blank-no_blanks (c ∷ []) h = ground (arith, h)
strip_blank-no_blanks (c ∷ d ∷ s) h = rw (strip_blank-no_blanks (d ∷ s) (ground (arith, h))) refl

no_blanks-append :
    (s t : Bytes) → no_blanks s ≡ true → no_blanks t ≡ true → no_blanks (s ++ t) ≡ true
no_blanks-append [] t h k = k
no_blanks-append (c ∷ s) t h k = ground (arith, h, no_blanks-append s t (ground (arith, h)) k)

colon_found : (name value : Bytes) → lacks b':' (name ++ b':' ∷ value) ≡ false
colon_found [] value = refl
colon_found (c ∷ name) value = ground (arith, colon_found name value)

unequal_zero : (m n : ℕ) → 0 < m → 0 < n → (m == 0 || n == 0) ≡ false
unequal_zero m n h k = ground (arith, h, k)

colon_blank : (value : Bytes) → no_blanks value ≡ true → no_blanks (b':' ∷ value) ≡ true
unfolding is_blank
colon_blank value h = h

module _ (api : CertApi) where
  inline_entry-written :
      (name value : Bytes) (x509 : api.X509)
      → Writable (name, value)
      → inline_entry api (name ++ b':' ∷ value) x509 ≡ add_alt_name api name value x509
  unfolding inline_entry
  inline_entry-written name value x509 (n, v, c, d, e, p, q) =
      let text = name ++ b':' ∷ value in
      let clean = no_blanks-append name (b':' ∷ value) p (colon_blank value q) in
      rw
        (
          skip_blank-no_blanks text clean,
          strip_blank-no_blanks text clean,
          colon_found name value,
          before-append b':' name value c,
          after-append b':' name value c,
          skip_blank-no_blanks value q,
          unequal_zero (length name) (length value) n v,
        )
        refl

  inline_entries-section :
      (es : List (Bytes × Bytes)) (x509 : api.X509)
      → All Writable es
      → inline_entries api (entries es) x509 ≡ set_alt_names api (section es) x509
  unfolding inline_entries set_alt_names
  inline_entries-section [] x509 h = refl
  inline_entries-section ((name, value) ∷ es) x509 (w, h) =
      rw (inline_entry-written name value x509 w, inline_entries, set_alt_names)
        (go (add_alt_name api name value x509) λ x. inline_entries-section es x h)
    where
      go :
          (r : Result api.X509)
          → ((x : api.X509) → inline_entries api (entries es) x ≡ set_alt_names api (section es) x)
          → ◌≡◌ {A = Result api.X509}
              (elim r [ err e ↦ err e | ok x ↦ inline_entries api (entries es) x ])
              (elim r [ err e ↦ err e | ok x ↦ set_alt_names api (section es) x ])
      go (ok x) ih = ih x
      go (err e) ih = refl

entries-IsWord : (es : List (Bytes × Bytes)) → All Writable es → All (IsWord b',') (entries es)
entries-IsWord [] h = tt
entries-IsWord ((name, value) ∷ es) ((n, v, c, d, e, p, q), h) =
    let l = length-append {0} name (b':' ∷ value) in
    (
      (omega (arith, l), lacks-append b',' name (b':' ∷ value) ∙ ground (arith, d, e)),
      entries-IsWord es h,
    )

-- `wolfCLU_setInlineAltNames`, in a buffer that has these names.
pub set_inline_alt_names-section :
    (api : CertApi) (es : List (Bytes × Bytes)) (x509 : api.X509)
    → All Writable es
    → set_inline_alt_names api (write_names es) x509 ≡ set_alt_names api (section es) x509
unfolding set_inline_alt_names
set_inline_alt_names-section api es x509 h =
    ap (λ ws. inline_entries api ws x509)
      (words-join b',' (length (write_names es)) (entries es) (entries-IsWord es h) (omega arith))
    ∙ inline_entries-section api es x509 h

-- `wolfCLU_parseAddExt` with "subjectAltName=TYPE:value,TYPE:value" does the same as
-- `wolfCLU_setAltNames` for a section with these types and values: it adds the names in order and stops
-- at the first that fails. No type and no value is empty or has a blank or a comma, and no type a colon.
pub parse_add_ext-section :
    (api : CertApi) (es : List (Bytes × Bytes)) (x509 : api.X509)
    → All Writable es
    → parse_add_ext api (some (codes "subjectAltName=" ++ write_names es)) x509
      ≡ set_alt_names api (section es) x509
unfolding parse_add_ext before after bytes_eq
parse_add_ext-section api es x509 h = set_inline_alt_names-section api es x509 h
