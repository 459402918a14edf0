-- ===== src/Names.antt =====
-- src/tools/clu_funcs.c: the name of a certificate, `wolfCLU_AddNameEntry` and
-- `wolfCLU_ParseX509NameString`. Parameters, from wolfSSL: the names and how an entry is added to them,
-- and the numbers of the tags. The allocation of a name succeeds.
pub mod Written
pub mod Asked
use wolf_clu.Base.{
  ℕ, zero, suc, ◌+◌, Bool, true, false, ◌||◌, List, [], ◌∷◌, ◌++◌, Option, none, some, ◌==◌, ltb, ℤ,
  pos, if◌then◌else◌, length,
}
use wolf_clu.Text.{Bytes, codes, bytes_eq, before, strtok}

-- CTC_UTF8 and CTC_PRINTABLE
pub data Encoding : Type 0 where
  utf8 printable : Encoding

-- `WOLFSSL_X509_NAME`; `wolfSSL_X509_NAME_add_entry` with an entry of the encoding, the number and the
-- text, which leaves the name as it is if there is no such entry; `wolfSSL_OBJ_sn2nid`, 0 for a tag that
-- it does not know; and NID_countryName
pub record NameApi : Type 1 where
  pub Name : Type 0
  pub new_name : Name
  pub add_entry : Encoding → ℕ → Bytes → Name → Name
  pub sn2nid : Bytes → ℕ
  pub country : ℕ

-- "strip off newline/carriage-return characters at the end of str"
unfoldable pub strip_end : Bytes → Bytes
strip_end [] = []
strip_end (c ∷ s) = elim (strip_end s) [
  | [] ↦ if c == 10 || c == 13 then [] else c ∷ []
  | d ∷ t ↦ c ∷ d ∷ t
]

-- the text behind the first '=', none if there is no '='
unfoldable pub value_of : Bytes → Option Bytes
value_of [] = none
value_of (c ∷ s) = if c == b'=' then some s else value_of s

-- how the parser ends; the last is for fuel that ran out
pub data ParsedName (A : Type 0) : Type 0 where
  parsed : A → ParsedName A
  refused out_of_fuel : ParsedName A

module _ (api : NameApi) where
  open api use {Name, new_name, add_entry, sn2nid, country}

  -- `wolfCLU_AddNameEntry`
  unfoldable pub add_name_entry : Encoding → ℕ → Option Bytes → Name → Name
  add_name_entry encoding nid none name = name
  add_name_entry encoding nid (some str) name =
      let text = strip_end str in
      if length text == 0 || bytes_eq text (codes ".")
      then name
      else add_entry encoding nid text name

  -- the number of a tag, or else that of its old form; a tag has at most four bytes, for which
  -- `oldTag` has room
  unfoldable pub tag_nid : Bytes → ℕ
  tag_nid tag = if sn2nid tag == 0 then sn2nid (b'/' ∷ tag ++ b'=' ∷ []) else sn2nid tag

  unfoldable pub encoding_for : ℕ → Encoding → Encoding
  encoding_for nid encoding = if nid == country then printable else encoding

  -- the body of the loop for one word: the encoding and the name that it leaves, none for an error
  unfoldable pub parse_word : ℕ → Bytes → Encoding → Name → Option (Encoding × Name)
  parse_word n_sz word encoding name = elim (value_of word) [
    | none ↦ none
    | some value ↦
        let tag = before b'=' word in
        if length tag == 0 || ltb 5 (length tag + 1) || ltb n_sz (length tag + 1)
        then none
        else (let next = encoding_for (tag_nid tag) encoding in
            some (next, add_name_entry next (tag_nid tag) (some value) name))
  ]

  -- the loop over the words between the slashes
  unfoldable pub name_loop : ℕ → ℕ → Encoding → Name → Bytes → ParsedName Name
  name_loop zero n_sz encoding name s = out_of_fuel
  name_loop (suc fuel) n_sz encoding name s = elim (strtok b'/' s) [
    | none ↦ parsed name
    | some (word, rest) ↦ elim (parse_word n_sz word encoding name) [
      | none ↦ refused
      | some (next, name') ↦ name_loop fuel n_sz next name' rest
    ]
  ]

  -- `wolfCLU_ParseX509NameString`
  unfoldable pub parse_x509_name_string : Option Bytes → ℤ → ParsedName Name
  parse_x509_name_string (some n) (pos (suc n_sz)) =
      name_loop (length n + 1) (suc n_sz) utf8 new_name n
  parse_x509_name_string _ _ = refused
