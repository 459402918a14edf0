-- ===== src/Ocsp/Index/Statuses.antt =====
-- src/ocsp/clu_ocsp.c, the index file and the statuses of the responder together.
use wolf_clu.Base.{
  ℕ, ◌+◌, ◌-◌, ◌*◌, ◌%◌, leb, ◌/◌, ◌≤◌, ◌<◌, Bool, true, false, ◌&&◌, List, [], ◌∷◌, Option, none,
  some, ◌==◌, if◌then◌else◌, length, ℤ, pos, ◌≡◌, refl, ap, ◌∙◌, arith, All, filter_map,
}
use wolf_clu.Base.Result.{Result, ok}
use wolf_clu.Text.{Bytes}
use wolf_clu.Hex.{hex_to_bin}
use wolf_clu.Ocsp.Index.{
  Tm, IndexEntry, time_of, is_minus_one, parse_index_file, CertStatus, cert_good, cert_revoked,
  cert_unknown, SetStatus, set_status, populate,
}
use wolf_clu.Ocsp.Index.Row.{Row, file_of, all_writable, entry_of, parse_index_file-rows}

-- A certificate of the CA's database, with its number and the text of it.
pub record Cert : Type 0 where
  pub state : ℕ
  pub expires : Bytes
  pub revoked : Bytes
  pub number : Bytes
  pub serial : Bytes
  pub file : Bytes
  pub subject : Bytes

abbrev pub row_of : Cert → Row
row_of c = record {
  state = c.state;
  expires = c.expires;
  revoked = c.revoked;
  serial = c.serial;
  file = c.file;
  subject = c.subject;
}

abbrev pub rows_of : List Cert → List Row
rows_of [] = []
rows_of (c ∷ cs) = row_of c ∷ rows_of cs

abbrev status_call : Bytes → CertStatus → ℤ → ℕ → SetStatus
status_call n s t v = record { cert_serial = n; cert_status = s; revocation = t; validity = v }

module _ (mktime : Tm → ℤ) (size : ℕ) where
  -- What the responder is told of a certificate.
  abbrev pub told : Cert → Option SetStatus
  told c =
      let time = time_of mktime size c.revoked in
      if c.state == b'V'
      then some (status_call c.number cert_good (pos 0) 86_400)
      else if c.state == b'R'
      then if is_minus_one time then none else some (status_call c.number cert_revoked time 0)
      else some (status_call c.number cert_unknown (pos 0) 0)

-- The value of a hexadecimal digit, in either case.
abbrev pub digit_of : ℕ → Option ℕ
digit_of c =
    if leb b'0' c && leb c b'9'
    then some (c - b'0')
    else if leb b'A' c && leb c b'F'
    then some (c - b'A' + 10)
    else if leb b'a' c && leb c b'f'
    then some (c - b'a' + 10)
    else none

-- A text that has two digits for each byte.
abbrev pub Spells : Bytes → Bytes → Type 0
Spells [] [] = Unit
Spells (h ∷ l ∷ text) (b ∷ bin) =
    (digit_of h ≡ some (b / 16)) × (digit_of l ≡ some (b % 16)) × Spells text bin
Spells _ _ = ⊥

length-Spells : (text bin : Bytes) → Spells text bin → length text ≡ 2 * length bin
length-Spells [] [] h = refl
length-Spells [] (b ∷ bin) h = absurd h
length-Spells (c ∷ []) [] h = absurd h
length-Spells (c ∷ []) (b ∷ bin) h = absurd h
length-Spells (c ∷ d ∷ text) [] h = absurd h
length-Spells (c ∷ d ∷ text) (b ∷ bin) (p, q, h) =
    let ih = length-Spells text bin h in omega (arith, ih)

-- The number of a certificate is bytes, at least one and at most as many as the size, and the text spells
-- it.
abbrev pub Numbered : ℕ → Cert → Type 0
Numbered size c = (0 < length c.number) × (length c.number ≤ size) × Spells c.serial c.number

module _ (mktime : Tm → ℤ) (size : ℕ) (base16_decode : Bytes → ℕ → Result Bytes) (malloc : ℕ → Bool)
    (decodes : (text bin : Bytes) → Spells text bin → base16_decode text (length bin) ≡ ok bin)
    (grants : (n : ℕ) → malloc n ≡ true) where
  hex_to_bin-number :
      (c : Cert)
      → Numbered size c
      → hex_to_bin base16_decode malloc (c.serial ∷ []) ≡ ok (c.number ∷ [])
  unfolding hex_to_bin
  hex_to_bin-number c (p, q, bytes) =
      let half : length c.serial / 2 ≡ length c.number =
        omega (arith, length-Spells c.serial c.number bytes) in
      rw (half, grants (length c.number), decodes c.serial c.number bytes)

  abbrev entry : Cert → IndexEntry
  entry c = record {
    status = c.state;
    revocation_time = time_of mktime size c.revoked;
    serial = c.serial;
  }

  entry_of-row :
      (c : Cert)
      → Numbered size c
      → entry_of mktime size (row_of c) ≡ (
          if c.state == b'R' && is_minus_one (time_of mktime size c.revoked)
          then none
          else some (entry c))
  entry_of-row c (p, q, bytes) =
      let len = length-Spells c.serial c.number bytes in rw len (ground arith)

  populate-cons :
      (c : Cert) (es : List IndexEntry)
      → Numbered size c
      → populate base16_decode malloc (entry c ∷ es)
        ≡ set_status (entry c) c.number ∷ populate base16_decode malloc es
  unfolding populate
  populate-cons c es h = rw (hex_to_bin-number c h, populate)

  populate-told :
      (c : Cert) (es : List IndexEntry) (b : Bool)
      → Numbered size c
      → (c.state == b'R' && is_minus_one (time_of mktime size c.revoked)) ≡ b
      → populate base16_decode malloc
          (elim (entry_of mktime size (row_of c)) [ none ↦ es | some e ↦ e ∷ es ])
        ≡ (elim (told mktime size c) [
          | none ↦ populate base16_decode malloc es
          | some s ↦ s ∷ populate base16_decode malloc es
        ])
  populate-told c es true h p =
      let none_told : told mktime size c ≡ none = ground (arith, p) in
      rw (entry_of-row c h, p, none_told)
  populate-told c es false h p =
      let said : told mktime size c ≡ some (set_status (entry c) c.number) =
        unfold set_status in ground (arith, p) in
      rw (entry_of-row c h, p, said) (populate-cons c es h)

  populate-rows :
      (cs : List Cert)
      → All (Numbered size) cs
      → populate base16_decode malloc (filter_map (entry_of mktime size) (rows_of cs))
        ≡ filter_map (told mktime size) cs
  unfolding populate
  populate-rows [] h = refl
  populate-rows (c ∷ cs) (h, hs) =
      populate-told c (filter_map (entry_of mktime size) (rows_of cs))
        (c.state == b'R' && is_minus_one (time_of mktime size c.revoked)) h refl
      ∙ ap (λ out. elim (told mktime size c) [ none ↦ out | some s ↦ s ∷ out ])
          (populate-rows cs hs)

  -- From the index file that a CA writes of its certificates, with their numbers in hexadecimal digits of
  -- either case, the responder learns, in order, of each certificate: 'V' makes it good for a day, 'R'
  -- revoked at the time of the row, and any other state unknown; a revoked one whose time `mktime` refuses
  -- is left out. `Base16_Decode` gives the bytes that a text spells, and memory is granted.
  pub populate-index :
      (cs : List Cert)
      → All (Numbered size) cs
      → all_writable (rows_of cs) ≡ true
      → populate base16_decode malloc (parse_index_file mktime size (file_of (rows_of cs)))
        ≡ filter_map (told mktime size) cs
  populate-index cs h w =
      ap (populate base16_decode malloc) (parse_index_file-rows mktime size (rows_of cs) w)
      ∙ populate-rows cs h
