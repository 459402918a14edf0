-- ===== src/Config/Names.antt =====
-- src/x509/clu_config.c, `CheckDisName` and `wolfCLU_setDisNames`: the name of a certificate from a
-- section of a configuration file. Parameters, from wolfSSL: the strings and numbers of the file, the
-- numbers of the fields, and the setter of the subject. Allocations succeed; what is printed is left out.
pub mod Bounded
use wolf_clu.Base.{
  ℕ, ◌+◌, Bool, true, false, not, ◌&&◌, ◌||◌, List, [], ◌∷◌, ◌++◌, Option, none, some, ltb, ℤ, pos,
  negsuc, if◌then◌else◌, length,
}
use wolf_clu.Text.{Bytes, codes, bytes_eq}
use wolf_clu.Input.{line, no_line, fault, out_of_fuel, getline}
use wolf_clu.Names.{NameApi, Encoding, utf8, printable, add_name_entry}
use wolf_clu.Config.{Conf}
use wolf_clu.Names.Asked.{FieldNids, Created, created, not_created, bad_write, no_fuel}

-- NID_name and so on
pub record DisNids : Type 0 where
  pub common : FieldNids
  pub name : ℕ
  pub surname : ℕ
  pub initials : ℕ
  pub given_name : ℕ
  pub dn_qualifier : ℕ

-- what `CheckDisName` is called with
pub record Field : Type 0 where
  pub key : Bytes
  pub encoding : Encoding
  pub nid : ℕ

-- `(long)XSTRLEN(deflt) > mx` and `(long)XSTRLEN(deflt) < mn`
abbrev pub larger : ℕ → Option ℤ → Bool
larger n none = false
larger n (some (pos m)) = ltb m n
larger n (some (negsuc m)) = true

abbrev pub smaller : ℕ → Option ℤ → Bool
smaller n none = false
smaller n (some (pos m)) = ltb n m
smaller n (some (negsuc m)) = false

-- "%d.organizationName" for the digits from i
abbrev numbered : ℕ → Bytes
numbered i = (48 + i) ∷ codes ".organizationName"

abbrev utf8_field : Bytes → ℕ → Field
utf8_field key nid = record { key = key; encoding = utf8; nid = nid }

module _ (api : NameApi) where
  open api use {Name, new_name, country}

  -- the fields in the order of `wolfCLU_setDisNames`
  abbrev pub dis_fields : DisNids → List Field
  dis_fields nids =
      let field = utf8_field in
      let org = nids.common.organization in
      record { key = codes "countryName"; encoding = printable; nid = country }
      ∷ field (codes "stateOrProvinceName") nids.common.state
      ∷ field (codes "localityName") nids.common.locality
      ∷ field (codes "organizationName") org
      ∷ field (numbered 0) org
      ∷ field (numbered 1) org
      ∷ field (numbered 2) org
      ∷ field (numbered 3) org
      ∷ field (numbered 4) org
      ∷ field (numbered 5) org
      ∷ field (numbered 6) org
      ∷ field (numbered 7) org
      ∷ field (numbered 8) org
      ∷ field (numbered 9) org
      ∷ field (codes "organizationalUnitName") nids.common.unit
      ∷ field (codes "commonName") nids.common.common_name
      ∷ field (codes "CN") nids.common.common_name
      ∷ field (codes "emailAddress") nids.common.email
      ∷ field (codes "name") nids.name
      ∷ field (codes "surname") nids.surname
      ∷ field (codes "initials") nids.initials
      ∷ field (codes "givenName") nids.given_name
      ∷ field (codes "dnQualifier") nids.dn_qualifier
      ∷ []

  module _ (conf : Conf) (realloc : ℕ → Bool) where
    -- whether the length of a text is outside of what the section allows for the field
    unfoldable pub out_of_range : Bytes → Bytes → Bytes → Bool
    out_of_range sect key text =
        larger (length text) (conf.get_number sect (key ++ codes "_max"))
        || smaller (length text) (conf.get_number sect (key ++ codes "_min"))

    -- what is done with `deflt` behind the answer, none for a NULL
    unfoldable pub take_answer : Bytes → Field → Option Bytes → Name → Bytes → Created Name
    take_answer sect field none name fp = created name fp
    take_answer sect field (some deflt) name fp =
        if bytes_eq deflt (codes ".")
        then created name fp
        else if out_of_range sect field.key deflt
        then not_created
        else created (add_name_entry api field.encoding field.nid (some deflt) name) fp

    -- "if (lineRet > 0) deflt = in"
    abbrev pub answer_or : Option Bytes → Bytes → Option Bytes
    answer_or deflt answer = if ltb 0 (length answer) then some answer else deflt

    -- `CheckDisName`
    unfoldable pub check_dis_name : Bytes → Field → Bool → Name → Bytes → Created Name
    check_dis_name sect field true name fp =
        created
          (add_name_entry api field.encoding field.nid (conf.get_string (some sect) field.key) name)
          fp
    check_dis_name sect field false name fp = elim (conf.get_string (some sect) field.key) [
      | none ↦ created name fp
      | some curnt ↦ elim (getline realloc fp) [
        | line answer len rest ↦
            let deflt = conf.get_string (some sect) (field.key ++ codes "_default") in
            take_answer sect field (answer_or deflt answer) name rest
        | no_line rest ↦ not_created
        | fault ↦ bad_write
        | out_of_fuel ↦ no_fuel
      ]
    ]

    -- one field after the other
    unfoldable pub check_dis_names : Bytes → List Field → Bool → Name → Bytes → Created Name
    check_dis_names sect [] no_prompt name fp = created name fp
    check_dis_names sect (field ∷ fields) no_prompt name fp =
        elim (check_dis_name sect field no_prompt name fp) [
          | created name' fp' ↦ check_dis_names sect fields no_prompt name' fp'
          | not_created ↦ not_created
          | bad_write ↦ bad_write
          | no_fuel ↦ no_fuel
        ]

    module _ {X509 : Type 0} (set_subject_name : Name → X509 → Option X509) where
      -- the end of `wolfCLU_setDisNames`
      unfoldable pub set_subject : X509 → Created Name → Created X509
      set_subject x509 (created name fp) = elim (set_subject_name name x509) [
        | none ↦ not_created
        | some x509' ↦ created x509' fp
      ]
      set_subject x509 not_created = not_created
      set_subject x509 bad_write = bad_write
      set_subject x509 no_fuel = no_fuel

      -- `wolfCLU_setDisNames`
      unfoldable pub set_dis_names : DisNids → Option Bytes → Bool → X509 → Bytes → Created X509
      set_dis_names nids none no_prompt x509 fp = created x509 fp
      set_dis_names nids (some sect) no_prompt x509 fp =
          set_subject x509 (check_dis_names sect (dis_fields nids) no_prompt new_name fp)
