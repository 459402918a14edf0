-- ===== src/Names/Asked.antt =====
-- src/tools/clu_funcs.c, `wolfCLU_CreateX509Name`: the name that is typed in. Parameters: the numbers
-- of the fields, NID_countryName and so on, and the allocator of `wolfCLU_getline`.
use wolf_clu.Base.{
  ℕ, ◌<◌, Bool, true, List, [], ◌∷◌, ◌++◌, some, ltb, if◌then◌else◌, length, ◌≡◌, refl,
}
use wolf_clu.Text.{Bytes}
use wolf_clu.Text.Lines.{lacks}
use wolf_clu.Input.{line, no_line, fault, out_of_fuel, getline, half_int_max}
use wolf_clu.Input.Whole.{getline-line}
use wolf_clu.Names.{NameApi, Encoding, utf8, printable, add_name_entry}

-- The other fields; that of the country is part of NameApi.
pub record FieldNids : Type 0 where
  pub state : ℕ
  pub locality : ℕ
  pub organization : ℕ
  pub unit : ℕ
  pub common_name : ℕ
  pub email : ℕ

-- What the dialogue ends with: the name and what is left of the input, WOLFCLU_FATAL_ERROR, or one of
-- the outcomes of `wolfCLU_getline` that stand for a fault of the model's machine.
pub data Created (A : Type 0) : Type 0 where
  created : A → Bytes → Created A
  not_created bad_write no_fuel : Created A

module _ (api : NameApi) (realloc : ℕ → Bool) where
  open api use {Name, country}

  -- "if (ret > 0)"
  unfoldable pub add_answer : Encoding → ℕ → Bytes → Name → Name
  add_answer encoding nid answer name =
      if ltb 0 (length answer) then add_name_entry api encoding nid (some answer) name else name

  -- one question after the other
  unfoldable pub ask : List (Encoding × ℕ) → Name → Bytes → Created Name
  ask [] name fp = created name fp
  ask ((encoding, nid) ∷ fields) name fp = elim (getline realloc fp) [
    | line answer len rest ↦ ask fields (add_answer encoding nid answer name) rest
    | no_line rest ↦ not_created
    | fault ↦ bad_write
    | out_of_fuel ↦ no_fuel
  ]

  abbrev pub asked_fields : FieldNids → List (Encoding × ℕ)
  asked_fields nids =
      (printable, country)
      ∷ (utf8, nids.state)
      ∷ (utf8, nids.locality)
      ∷ (utf8, nids.organization)
      ∷ (utf8, nids.unit)
      ∷ (utf8, nids.common_name)
      ∷ (utf8, nids.email)
      ∷ []

  -- `wolfCLU_CreateX509Name`
  unfoldable pub create_x509_name : FieldNids → Name → Bytes → Created Name
  create_x509_name nids name fp = ask (asked_fields nids) name fp

  -- An answer is a line of less than INT_MAX / 2 bytes, none of them a NUL.
  abbrev pub IsLine : Bytes → Type 0
  IsLine a = (length a < half_int_max) × (lacks 10 a ≡ true) × (lacks 0 a ≡ true)

  abbrev pub AllLines : List Bytes → Type 0
  AllLines [] = Unit
  AllLines (a ∷ answers) = IsLine a × AllLines answers

  -- the input: each answer with its newline
  abbrev pub typed : List Bytes → Bytes → Bytes
  typed [] rest = rest
  typed (a ∷ answers) rest = a ++ 10 ∷ typed answers rest

  -- There is an answer for each field.
  abbrev pub Answered : List (Encoding × ℕ) → List Bytes → Type 0
  Answered [] [] = Unit
  Answered (f ∷ fields) (a ∷ answers) = Answered fields answers
  Answered _ _ = ⊥

  -- The name with each answer added under its field, in order.
  abbrev pub add_answers : List (Encoding × ℕ) → List Bytes → Name → Name
  add_answers ((encoding, nid) ∷ fields) (a ∷ answers) name =
      add_answers fields answers (add_answer encoding nid a name)
  add_answers _ _ name = name

  ask-typed :
      ((n : ℕ) → realloc n ≡ true)
      → (fields : List (Encoding × ℕ)) (answers : List Bytes) (name : Name) (rest : Bytes)
      → Answered fields answers
      → AllLines answers
      → ask fields name (typed answers rest) ≡ created (add_answers fields answers name) rest
  unfolding ask
  ask-typed grants [] [] name rest h w = refl
  ask-typed grants [] (a ∷ answers) name rest h w = absurd h
  ask-typed grants (f ∷ fields) [] name rest h w = absurd h
  ask-typed grants ((encoding, nid) ∷ fields) (a ∷ answers) name rest h ((s, l, z), w) =
      let (len, e) = getline-line realloc a (typed answers rest) grants s l z in
      rw (e, ask) (ask-typed grants fields answers (add_answer encoding nid a name) rest h w)

-- `wolfCLU_CreateX509Name` asks for seven fields. Typed lines, each of less than INT_MAX / 2 bytes and
-- without a NUL, are added under their fields in order, and the input is left behind the seventh, if
-- memory is granted.
pub create_x509_name-typed :
    (api : NameApi) (realloc : ℕ → Bool) (nids : FieldNids) (name : api.Name) (answers : List Bytes)
    (rest : Bytes)
    → ((n : ℕ) → realloc n ≡ true)
    → Answered api realloc (asked_fields api realloc nids) answers
    → AllLines api realloc answers
    → create_x509_name api realloc nids name (typed api realloc answers rest)
      ≡ created (add_answers api realloc (asked_fields api realloc nids) answers name) rest
unfolding create_x509_name
create_x509_name-typed api realloc nids name answers rest grants h w =
    ask-typed api realloc grants (asked_fields api realloc nids) answers name rest h w
