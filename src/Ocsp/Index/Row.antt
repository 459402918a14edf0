-- ===== src/Ocsp/Index/Row.antt =====
-- src/ocsp/clu_ocsp.c, `parseIndexFile` on the lines that `openssl ca` writes.
use wolf_clu.Base.{
  ℕ, zero, suc, ◌*◌, ◌≤◌, ◌<◌, Bool, true, not, ◌&&◌, ◌||◌, List, [], ◌∷◌, ◌++◌, Option, none, some,
  ◌==◌, leb, ltb, if◌then◌else◌, length, ℤ, ◌≡◌, refl, ap, ◌∙◌, arith, length-append, filter_map,
  append_assoc, append-nil, Bool-cases, inl, inr,
}
use wolf_clu.Text.{Bytes, before}
use wolf_clu.Text.Lines.{
  read_lines, fields, fields-join, join, all_lack, lacks-join, read_lines-line, before-lacks,
  lacks-append,
}
use wolf_clu.Ocsp.Index.{
  Tm, IndexEntry, time_of, set_field, set_fields, validate, parse_line, parse_lines,
  parse_index_file, is_minus_one,
}

-- A line of index.txt: six fields.
pub record Row : Type 0 where
  pub state : ℕ
  pub expires : Bytes
  pub revoked : Bytes
  pub serial : Bytes
  pub file : Bytes
  pub subject : Bytes

-- its fields, with `end` behind the last
abbrev pub cells : Row → Bytes → List Bytes
cells r end = (r.state ∷ []) ∷ r.expires ∷ r.revoked ∷ r.serial ∷ r.file ∷ (r.subject ++ end) ∷ []

abbrev pub line_of : Row → Bytes
line_of r = join 9 (cells r [])

abbrev pub file_of : List Row → Bytes
file_of [] = []
file_of (r ∷ rs) = line_of r ++ 10 ∷ file_of rs

-- The fields have no tab, newline or NUL, the state is not a carriage return, and the line with its
-- newline fits the buffer of 1024 bytes.
abbrev pub writable : Row → Bool
writable r =
    all_lack 9 (cells r [])
    && (all_lack 10 (cells r [])
        && (all_lack 0 (cells r []) && (not (r.state == 13) && ltb (length (line_of r)) 1023)))

abbrev pub all_writable : List Row → Bool
all_writable [] = true
all_writable (r ∷ rs) = writable r && all_writable rs

-- what the responder keeps of a row
abbrev pub entry_of : (Tm → ℤ) → ℕ → Row → Option IndexEntry
entry_of mktime size r =
    let time = time_of mktime size r.revoked in
    if length r.serial == 0 || not (leb (length r.serial) (2 * size))
    then none
    else if r.state == b'R' && is_minus_one time
    then none
    else some (record { status = r.state; revocation_time = time; serial = r.serial })

-- the last field has the newline of the line
line_of-newline : (r : Row) → line_of r ++ 10 ∷ [] ≡ join 9 (cells r (10 ∷ []))
line_of-newline r = simp (append_assoc, append-nil, append-nil)

row_fields : (r : Row) → writable r ≡ true → fields 9 (line_of r ++ 10 ∷ []) ≡ cells r (10 ∷ [])
row_fields r h =
    ap (fields 9) (line_of-newline r)
    ∙ fields-join 9 (r.state ∷ [])
        (r.expires ∷ r.revoked ∷ r.serial ∷ r.file ∷ (r.subject ++ 10 ∷ []) ∷ [])
        (ground (arith, h, lacks-append 9 r.subject (10 ∷ []), lacks-append 9 r.subject []))

module _ (mktime : Tm → ℤ) (size : ℕ) where
  parse_line-row :
      (r : Row)
      → writable r ≡ true
      → parse_line mktime size (line_of r ++ 10 ∷ []) ≡ entry_of mktime size r
  unfolding parse_line set_fields set_field validate
  parse_line-row r h = rw (row_fields r h) (elim (Bool-cases (leb (length r.serial) (2 * size))) [
    | inl p ↦ rw p (ground (arith, h))
    | inr p ↦ rw p (ground (arith, h))
  ])

  parse_lines-cons :
      (l : Bytes) (ls : List Bytes) (o : Option IndexEntry) (es : List IndexEntry)
      → parse_line mktime size (before 0 l) ≡ o
      → parse_lines mktime size ls ≡ es
      → parse_lines mktime size (l ∷ ls) ≡ (elim o [ none ↦ es | some e ↦ e ∷ es ])
  unfolding parse_lines
  parse_lines-cons l ls none es p q = rw (p, parse_lines) q
  parse_lines-cons l ls (some e) es p q = rw (p, parse_lines) (ap (◌∷◌ e) q)

  parse_lines-rows :
      (rs : List Row) (fuel : ℕ)
      → all_writable rs ≡ true
      → length (file_of rs) ≤ fuel
      → parse_lines mktime size (read_lines fuel 1024 (file_of rs))
        ≡ filter_map (entry_of mktime size) rs
  unfolding parse_lines read_lines
  parse_lines-rows [] zero h k = refl
  parse_lines-rows [] (suc fuel) h k = refl
  parse_lines-rows (r ∷ rs) zero h k = elim k [ ]
  parse_lines-rows (r ∷ rs) (suc fuel) h k =
      let w : writable r ≡ true = ground (arith, h) in
      let lacks10 = lacks-join 9 10 (cells r []) (ground (arith, w)) refl in
      let lacks0 = lacks-join 9 0 (cells r []) (ground (arith, w)) refl in
      let fits : length (line_of r) < 1023 = ground (arith, w) in
      let len = length-append {0} (line_of r) (10 ∷ file_of rs) in
      ap (parse_lines mktime size) (read_lines-line fuel 1024 (line_of r) (file_of rs) lacks10 fits)
      ∙ parse_lines-cons (line_of r ++ 10 ∷ []) (read_lines fuel 1024 (file_of rs))
          (entry_of mktime size r) (filter_map (entry_of mktime size) rs)
          (ap (parse_line mktime size) (
              before-lacks 0 (line_of r ++ 10 ∷ [])
                (lacks-append 0 (line_of r) (10 ∷ []) ∙ ground (arith, lacks0)))
            ∙ parse_line-row r w)
          (parse_lines-rows rs fuel (ground (arith, h)) (omega (arith, len, k)))

-- Rows that are written as six fields between tabs, each field without a tab, a newline or a NUL and
-- each line short enough for the buffer, are read back, in order: status, serial and revocation
-- time. Left out are the rows whose serial is empty or too long, and the revoked ones whose time
-- `mktime` refuses.
pub parse_index_file-rows :
    (mktime : Tm → ℤ) (size : ℕ) (rs : List Row)
    → all_writable rs ≡ true
    → parse_index_file mktime size (file_of rs) ≡ filter_map (entry_of mktime size) rs
unfolding parse_index_file
parse_index_file-rows mktime size rs h =
    parse_lines-rows mktime size rs (length (file_of rs)) h (omega arith)
