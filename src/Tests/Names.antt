-- ===== src/Tests/Names.antt =====
-- The name "/C=US/CN=a", and seven lines that are typed in.
use wolf_clu.Base.{ℕ, Bool, true, List, [], ◌∷◌, ◌++◌, some, pos, if◌then◌else◌, ◌≡◌, refl, arith}
use wolf_clu.Text.{Bytes, codes, bytes_eq}
use wolf_clu.Names.{
  NameApi, Encoding, utf8, printable, parsed, strip_end, add_name_entry, tag_nid, encoding_for,
  parse_x509_name_string,
}
use wolf_clu.Names.Written.{Entry, parse_x509_name_string-write_name}
use wolf_clu.Names.Asked.{FieldNids, created, add_answer, create_x509_name, create_x509_name-typed}

unfoldable nid_of : Bytes → ℕ
unfolding bytes_eq
nid_of tag = if bytes_eq tag (codes "C") then 14 else if bytes_eq tag (codes "CN") then 13 else 0

abbrev listed : NameApi
listed = record {
  Name = List (Encoding × ℕ × Bytes);
  new_name = [];
  add_entry = λ e nid text name. name ++ (e, nid, text) ∷ [];
  sn2nid = nid_of;
  country = 14;
}

abbrev us : Entry
us = record { tag = codes "C"; value = codes "US" }

abbrev common : Entry
common = record { tag = codes "CN"; value = codes "a" }

us_name :
    parse_x509_name_string listed (some (codes "/C=US/CN=a")) (pos 10)
    ≡ parsed ((printable, 14, codes "US") ∷ (printable, 13, codes "a") ∷ [])
unfolding nid_of add_name_entry tag_nid encoding_for strip_end bytes_eq
us_name = parse_x509_name_string-write_name listed us (common ∷ []) (
  (omega arith, omega arith, refl, refl, refl),
  ((omega arith, omega arith, refl, refl, refl), tt),
)

abbrev nids : FieldNids
nids = record {
  state = 16;
  locality = 15;
  organization = 17;
  unit = 18;
  common_name = 13;
  email = 48;
}

abbrev all_granted : ℕ → Bool
all_granted n = true

us_answers :
    create_x509_name listed all_granted nids [] (
      codes "US"
      ++ 10 ∷ codes "Montana"
      ++ 10 ∷ 10 ∷ 10 ∷ codes "."
      ++ 10 ∷ codes "a"
      ++ 10 ∷ 10 ∷ [])
    ≡ created
        ((printable, 14, codes "US") ∷ (utf8, 16, codes "Montana") ∷ (utf8, 13, codes "a") ∷ [])
        []
unfolding add_answer add_name_entry strip_end bytes_eq
us_answers =
    create_x509_name-typed listed all_granted nids []
      (codes "US" ∷ codes "Montana" ∷ [] ∷ [] ∷ codes "." ∷ codes "a" ∷ [] ∷ []) [] (λ n. refl) tt
      (
        (omega arith, refl, refl),
        (
          (omega arith, refl, refl),
          (
            (omega arith, refl, refl),
            (
              (omega arith, refl, refl),
              (
                (omega arith, refl, refl),
                ((omega arith, refl, refl), ((omega arith, refl, refl), tt)),
              ),
            ),
          ),
        ),
      )
