-- ===== src/Ocsp/Index.antt =====
-- src/ocsp/clu_ocsp.c, `parseIndexFile` and the statuses that `ocspResponder` takes from its list,
-- with src/tools/clu_hex_to_bin.c. A file is its bytes; allocations succeed. Parameters: `mktime`,
-- `Base16_Decode` and EXTERNAL_SERIAL_SIZE of wolfSSL.
pub mod Row
pub mod Kept
pub mod Statuses
use wolf_clu.Base.{
  ℕ, zero, suc, ◌+◌, ◌*◌, ◌/◌, Bool, true, false, not, ◌&&◌, ◌||◌, List, [], ◌∷◌, Option, none,
  some, ◌==◌, leb, ltb, if◌then◌else◌, length, take, ℤ, pos, negsuc, sub_ℕ, ltb_ℤ,
}
use wolf_clu.Text.{Bytes, before}
use wolf_clu.Base.Result.{Err, memory_e, Result, ok, err}
use wolf_clu.Hex.{hex_to_bin}
use wolf_clu.Text.Lines.{read_lines, fields}

-- `struct tm`, as far as it is set
pub record Tm : Type 0 where
  pub tm_year : ℤ
  pub tm_mon : ℤ
  pub tm_mday : ℤ
  pub tm_hour : ℤ
  pub tm_min : ℤ
  pub tm_sec : ℤ

-- how far a `char`, which is signed, lies below its byte
unfoldable pub char_wrap : ℕ → ℕ
char_wrap c = if ltb c 128 then 0 else 256

-- `plus + (a - '0') * 10 + (b - '0') - minus`
unfoldable pub two_digits : ℕ → ℕ → ℕ → ℕ → ℤ
two_digits plus minus a b =
    sub_ℕ (plus + a * 10 + b) (b'0' * 11 + minus + char_wrap a * 10 + char_wrap b)

-- `(year < 50) ? (100 + year) : year`
unfoldable pub tm_year_of : ℕ → ℕ → ℤ
tm_year_of a b =
    if ltb_ℤ (two_digits 0 0 a b) (pos 50) then two_digits 100 0 a b else two_digits 0 0 a b

-- `IndexEntry`; the serial is a C string
pub record IndexEntry : Type 0 where
  pub status : ℕ
  pub revocation_time : ℤ
  pub serial : Bytes

-- `XMEMSET(entry, 0, sizeof(IndexEntry))`
abbrev pub no_entry : IndexEntry
no_entry = record { status = 0; revocation_time = pos 0; serial = [] }

-- `t == (time_t)-1`
abbrev pub is_minus_one : ℤ → Bool
is_minus_one (negsuc zero) = true
is_minus_one _ = false

-- "Validate entry", for an entry of so many fields; `none` for `continue`
unfoldable pub validate : ℕ → IndexEntry → Option IndexEntry
validate n entry =
    if ltb n 4 || length entry.serial == 0
    then none
    else if entry.status == b'R' && is_minus_one entry.revocation_time
    then none
    else some entry

module _ (mktime : Tm → ℤ) (external_serial_size : ℕ) where
  -- the revocation time of a field, which stays 0 if the field is shorter than 12
  unfoldable pub time_of : Bytes → ℤ
  time_of (y ∷ y' ∷ m ∷ m' ∷ d ∷ d' ∷ h ∷ h' ∷ i ∷ i' ∷ s ∷ s' ∷ rest) = mktime (record {
    tm_year = tm_year_of y y';
    tm_mon = two_digits 0 1 m m';
    tm_mday = two_digits 0 0 d d';
    tm_hour = two_digits 0 0 h h';
    tm_min = two_digits 0 0 i i';
    tm_sec = two_digits 0 0 s s';
  })
  time_of _ = pos 0

  -- `switch (fieldNum)`
  unfoldable pub set_field : ℕ → Bytes → IndexEntry → IndexEntry
  set_field zero [] e = record e { status = 0 }
  set_field zero (c ∷ field) e = record e { status = c }
  set_field (suc (suc zero)) field e = record e { revocation_time = time_of field }
  set_field (suc (suc (suc zero))) field e =
      if leb (length field) (2 * external_serial_size) then record e { serial = field } else e
  set_field _ field e = e

  -- `while ((field = XSTRSEP(&p, "\t")) != NULL && fieldNum < 6)`
  unfoldable pub set_fields : ℕ → List Bytes → IndexEntry → IndexEntry
  set_fields n [] e = e
  set_fields n (f ∷ fs) e = if ltb n 6 then set_fields (n + 1) fs (set_field n f e) else e

  -- the body of the loop over the lines, `none` for `continue`
  unfoldable pub parse_line : Bytes → Option IndexEntry
  parse_line [] = none
  parse_line (c ∷ line) =
      let fs = fields 9 (c ∷ line) in
      if c == 10 || c == 13 then none else validate (length fs) (set_fields 0 fs no_entry)

  -- the list that the loop builds
  unfoldable pub parse_lines : List Bytes → List IndexEntry
  parse_lines [] = []
  parse_lines (l ∷ ls) = elim (parse_line (before 0 l)) [
    | none ↦ parse_lines ls
    | some e ↦ e ∷ parse_lines ls
  ]

  -- `parseIndexFile` on the bytes of the file, with the lines of at most 1023 of them
  unfoldable pub parse_index_file : Bytes → List IndexEntry
  parse_index_file file = parse_lines (read_lines (length file) 1024 file)

-- `enum Ocsp_Cert_Status`
pub data CertStatus : Type 0 where
  cert_good cert_revoked cert_unknown : CertStatus

-- One call of `wc_OcspResponder_SetCertStatus`, without the subject of the CA, which is the same in
-- all of them, and the reason, which is unspecified.
pub record SetStatus : Type 0 where
  pub cert_serial : Bytes
  pub cert_status : CertStatus
  pub revocation : ℤ
  pub validity : ℕ

-- "Determine status", and the arguments of the call
unfoldable pub set_status : IndexEntry → Bytes → SetStatus
set_status e bin =
    if e.status == b'V'
    then record {
      cert_serial = bin;
      cert_status = cert_good;
      revocation = pos 0;
      validity = 86_400;
    }
    else if e.status == b'R'
    then record {
      cert_serial = bin;
      cert_status = cert_revoked;
      revocation = e.revocation_time;
      validity = 0;
    }
    else record { cert_serial = bin; cert_status = cert_unknown; revocation = pos 0; validity = 0 }

-- The statuses, where `malloc` says of each request whether it is granted.
module _ (base16_decode : Bytes → ℕ → Result Bytes) (malloc : ℕ → Bool) where
  -- "Populate responder with certificate statuses from index": the calls, in order
  unfoldable pub populate : List IndexEntry → List SetStatus
  populate [] = []
  populate (e ∷ es) = elim (hex_to_bin base16_decode malloc (e.serial ∷ [])) [
    | ok (bin ∷ bins) ↦ set_status e bin ∷ populate es
    | _ ↦ populate es
  ]
