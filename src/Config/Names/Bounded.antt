-- ===== src/Config/Names/Bounded.antt =====
-- src/x509/clu_config.c, `wolfCLU_setDisNames` with a prompt.
use wolf_clu.Base.{
  ℤ, pos, negsuc, ◌≤◌, ◌≢◌, ◌∙◌, sym, arith, length, ◌||◌, ℕ, Bool, true, false, List, [], ◌∷◌,
  ◌++◌, Option, none, some, Option-cases, Bool-cases, inl, inr, All, ◌≡◌,
}
use wolf_clu.Text.{Bytes, codes, bytes_eq}
use wolf_clu.Input.{ReadLine, line, no_line, fault, out_of_fuel, getline}
use wolf_clu.Input.Safe.{Safe, fits, gives_up, getline-Safe}
use wolf_clu.Names.{NameApi, add_name_entry}
use wolf_clu.Names.Asked.{Created, created, not_created, bad_write, no_fuel}
use wolf_clu.Config.{Conf}
use wolf_clu.Text.Laws.{bytes_eq_iff}
use wolf_clu.Config.Names.{
  larger, smaller, DisNids, Field, dis_fields, out_of_range, take_answer, answer_or, check_dis_name,
  check_dis_names, set_subject, set_dis_names,
}

-- A length against the numbers of the section, where none sets no bound.
abbrev pub AtMost : ℕ → Option ℤ → Type 0
AtMost n none = Unit
AtMost n (some (pos m)) = n ≤ m
AtMost n (some (negsuc m)) = ⊥

abbrev pub AtLeast : ℕ → Option ℤ → Type 0
AtLeast n (some (pos m)) = m ≤ n
AtLeast n _ = Unit

-- A text for a field that the section names, of a length between the numbers under its name with "_min"
-- and with "_max", which is not ".".
abbrev pub Allowed : NameApi → Conf → (ℕ → Bool) → Bytes → Field × Bytes → Type 0
Allowed api conf realloc sect (field, text) =
    AtMost (length text) (conf.get_number sect (field.key ++ codes "_max"))
    × AtLeast (length text) (conf.get_number sect (field.key ++ codes "_min"))
    × (text ≢ codes ".")
    × ((curnt : Bytes) × (conf.get_string (some sect) field.key ≡ some curnt))

not_larger : (n : ℕ) (o : Option ℤ) → larger n o ≡ false → AtMost n o
not_larger n none h = tt
not_larger n (some (pos m)) h = ground (arith, h)
not_larger n (some (negsuc m)) h = ground (arith, h)

not_smaller : (n : ℕ) (o : Option ℤ) → smaller n o ≡ false → AtLeast n o
not_smaller n none h = tt
not_smaller n (some (pos m)) h = ground (arith, h)
not_smaller n (some (negsuc m)) h = tt

first_false : (a b : Bool) → (a || b) ≡ false → a ≡ false
first_false a b h = ground (arith, h)

second_false : (a b : Bool) → (a || b) ≡ false → b ≡ false
second_false a b h = ground (arith, h)

dot_absurd : true ≡ false → ⊥
dot_absurd h = ground (arith, h)

in_range-Allowed :
    (api : NameApi) (conf : Conf) (realloc : ℕ → Bool) (sect : Bytes) (field : Field)
    (text curnt : Bytes)
    → bytes_eq text (codes ".") ≡ false
    → out_of_range api conf realloc sect field.key text ≡ false
    → conf.get_string (some sect) field.key ≡ some curnt
    → Allowed api conf realloc sect (field, text)
unfolding out_of_range
in_range-Allowed api conf realloc sect field text curnt d h p =
    let mx = conf.get_number sect (field.key ++ codes "_max") in
    let mn = conf.get_number sect (field.key ++ codes "_min") in
    (
      not_larger (length text) mx
          (first_false (larger (length text) mx) (smaller (length text) mn) h),
      not_smaller (length text) mn
          (second_false (larger (length text) mx) (smaller (length text) mn) h),
      (λ e. dot_absurd (sym ((bytes_eq_iff text (codes ".")).1 e) ∙ d)),
      (curnt, p),
    )

abbrev pub fields_of : List (Field × Bytes) → List Field
fields_of [] = []
fields_of ((field, text) ∷ es) = field ∷ fields_of es

-- Some of the fields, in their order.
pub data Subsequence : List Field → List Field → Type 0 where
  nothing : Subsequence [] []
  taken :
      (f : Field) (some_fields fields : List Field)
      → Subsequence some_fields fields
      → Subsequence (f ∷ some_fields) (f ∷ fields)
  left_out :
      (f : Field) (some_fields fields : List Field)
      → Subsequence some_fields fields
      → Subsequence some_fields (f ∷ fields)

module _ (api : NameApi) where
  open api use {Name, new_name}

  -- The name with each text added under its field.
  abbrev pub add_texts : List (Field × Bytes) → Name → Name
  add_texts [] name = name
  add_texts ((field, text) ∷ es) name =
      add_texts es (add_name_entry api field.encoding field.nid (some text) name)

module _ (api : NameApi) (conf : Conf) (realloc : ℕ → Bool) where
  open api use {Name, new_name}

  -- A dialogue ends with an error, or with a name made of allowed texts.
  pub data Bounded (sect : Bytes) (fields : List Field) (name : Name) : Created Name → Type 0 where
    refused : Bounded sect fields name not_created
    named :
        (es : List (Field × Bytes)) (rest : Bytes)
        → Subsequence (fields_of es) fields
        → All (Allowed api conf realloc sect) es
        → Bounded sect fields name (created (add_texts api es name) rest)

  take_answer-Bounded :
      (sect : Bytes) (field : Field) (deflt : Option Bytes) (name : Name) (fp curnt : Bytes)
      → conf.get_string (some sect) field.key ≡ some curnt
      → Bounded sect (field ∷ []) name (take_answer api conf realloc sect field deflt name fp)
  unfolding take_answer
  take_answer-Bounded sect field none name fp curnt p =
      named [] fp (left_out field [] [] nothing) tt
  take_answer-Bounded sect field (some text) name fp curnt p =
      elim (Bool-cases (bytes_eq text (codes "."))) [
        | inl e ↦ rw (e) (named [] fp (left_out field [] [] nothing) tt)
        | inr e ↦ elim (Bool-cases (out_of_range api conf realloc sect field.key text)) [
          | inl o ↦ rw (e, o) refused
          | inr o ↦
              rw (e, o)
                (named ((field, text) ∷ []) fp (taken field [] [] nothing)
                  (in_range-Allowed api conf realloc sect field text curnt e o p, tt))
        ]
      ]

  prompt-Bounded :
      (sect : Bytes) (field : Field) (name : Name) (fp curnt : Bytes)
      → conf.get_string (some sect) field.key ≡ some curnt
      → (r : ReadLine) → Safe r
      → Bounded sect (field ∷ []) name (elim r [
        | line answer len rest ↦
            take_answer api conf realloc sect field
              (answer_or api conf realloc
                (conf.get_string (some sect) (field.key ++ codes "_default"))
                answer)
              name
              rest
        | no_line rest ↦ not_created
        | fault ↦ bad_write
        | out_of_fuel ↦ no_fuel
      ])
  prompt-Bounded sect field name fp curnt p _ (fits text len rest _ _) =
      take_answer-Bounded sect field
        (answer_or api conf realloc (conf.get_string (some sect) (field.key ++ codes "_default"))
          text)
        name rest curnt p
  prompt-Bounded sect field name fp curnt p _ (gives_up rest) = refused

  check_dis_name-Bounded :
      (sect : Bytes) (field : Field) (name : Name) (fp : Bytes)
      → Bounded sect (field ∷ []) name (check_dis_name api conf realloc sect field false name fp)
  unfolding check_dis_name
  check_dis_name-Bounded sect field name fp =
      elim (Option-cases (conf.get_string (some sect) field.key)) [
        | inl p ↦ rw (p, check_dis_name) (named [] fp (left_out field [] [] nothing) tt)
        | inr (curnt, p) ↦
            rw (p, check_dis_name)
              (prompt-Bounded sect field name fp curnt p (getline realloc fp)
                (getline-Safe realloc fp))
      ]

  -- The texts of one field, with those of the fields behind it.
  then_Bounded :
      (sect : Bytes) (field : Field) (fields : List Field) (name : Name)
      → ((name' : Name) (fp : Bytes)
          → Bounded sect fields name' (check_dis_names api conf realloc sect fields false name' fp))
      → (r : Created Name) → Bounded sect (field ∷ []) name r
      → Bounded sect (field ∷ fields) name (elim r [
        | created name' fp' ↦ check_dis_names api conf realloc sect fields false name' fp'
        | not_created ↦ not_created
        | bad_write ↦ bad_write
        | no_fuel ↦ no_fuel
      ])
  then_Bounded sect field fields name next _ refused = refused
  then_Bounded sect field fields name next _ (named [] rest order allowed) = skip _ (next name rest)
    where
      skip : (r : Created Name) → Bounded sect fields name r → Bounded sect (field ∷ fields) name r
      skip _ refused = refused
      skip _ (named es rest' order' allowed') =
          named es rest' (left_out field (fields_of es) fields order') allowed'
  then_Bounded sect field fields name next _
        (named ((_, text) ∷ []) rest (taken _ _ _ order) (a, _)) =
      add _ (next (add_name_entry api field.encoding field.nid (some text) name) rest)
    where
      add :
          (r : Created Name)
          → Bounded sect fields (add_name_entry api field.encoding field.nid (some text) name) r
          → Bounded sect (field ∷ fields) name r
      add _ refused = refused
      add _ (named es rest' order' allowed') =
          named ((field, text) ∷ es) rest' (taken field (fields_of es) fields order') (a, allowed')
  then_Bounded sect field fields name next _ (named (_ ∷ _ ∷ _) rest (taken _ _ _ order) a) =
      elim order [ ]
  then_Bounded sect field fields name next _
        (named ((_, text) ∷ []) rest (left_out _ _ _ order) a) =
      elim order [ ]
  then_Bounded sect field fields name next _ (named (_ ∷ _ ∷ _) rest (left_out _ _ _ order) a) =
      elim order [ ]

  check_dis_names-Bounded :
      (sect : Bytes) (fields : List Field) (name : Name) (fp : Bytes)
      → Bounded sect fields name (check_dis_names api conf realloc sect fields false name fp)
  unfolding check_dis_names
  check_dis_names-Bounded sect [] name fp = named [] fp nothing tt
  check_dis_names-Bounded sect (field ∷ fields) name fp =
      then_Bounded sect field fields name (check_dis_names-Bounded sect fields) _
        (check_dis_name-Bounded sect field name fp)

  module _ {X509 : Type 0} (set_subject_name : Name → X509 → Option X509) where
    -- What the whole dialogue ends with.
    pub data SubjectSet (nids : DisNids) (sect : Bytes) (x509 : X509) : Created X509 → Type 0 where
      subject_refused : SubjectSet nids sect x509 not_created
      subject_set :
          (es : List (Field × Bytes)) (rest : Bytes) (x509' : X509)
          → Subsequence (fields_of es) (dis_fields api nids)
          → All (Allowed api conf realloc sect) es
          → set_subject_name (add_texts api es new_name) x509 ≡ some x509'
          → SubjectSet nids sect x509 (created x509' rest)

    set_subject-SubjectSet :
        (nids : DisNids) (sect : Bytes) (x509 : X509) (r : Created Name)
        → Bounded sect (dis_fields api nids) new_name r
        → SubjectSet nids sect x509 (set_subject api conf realloc set_subject_name x509 r)
    unfolding set_subject
    set_subject-SubjectSet nids sect x509 _ refused = subject_refused
    set_subject-SubjectSet nids sect x509 _ (named es rest order allowed) =
        elim (Option-cases (set_subject_name (add_texts api es new_name) x509)) [
          | inl p ↦ rw (p, set_subject) subject_refused
          | inr (x509', p) ↦ rw (p, set_subject) (subject_set es rest x509' order allowed p)
        ]

-- `wolfCLU_setDisNames` with a prompt ends, whatever is typed in and whichever sizes `realloc` grants.
-- It ends with an error, or with a subject made of texts for some of the fields, in the order of the
-- fields, each for a field that the section names and of a length between its "_min" and its "_max".
pub set_dis_names-SubjectSet :
    (api : NameApi) (conf : Conf) (realloc : ℕ → Bool) (X509 : Type 0)
    (set_subject_name : api.Name → X509 → Option X509) (nids : DisNids) (sect fp : Bytes)
    (x509 : X509)
    → SubjectSet api conf realloc set_subject_name nids sect x509
        (set_dis_names api conf realloc set_subject_name nids (some sect) false x509 fp)
unfolding set_dis_names
set_dis_names-SubjectSet api conf realloc X509 set_subject_name nids sect fp x509 =
    set_subject-SubjectSet api conf realloc set_subject_name nids sect x509 _
      (check_dis_names-Bounded api conf realloc sect (dis_fields api nids) api.new_name fp)
