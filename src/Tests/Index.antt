-- ===== src/Tests/Index.antt =====
-- An index file of two certificates.
use wolf_clu.Base.{
  ◌+◌, ◌*◌, ◌/◌, ◌%◌, ◌∙◌, none, some, ℕ, Bool, true, List, [], ◌∷◌, ◌≡◌, refl, ap, arith, ℤ,
  filter_map,
}
use wolf_clu.Base.Result.{Result, ok}
use wolf_clu.Text.{Bytes, codes}
use wolf_clu.Ocsp.Index.{Tm, parse_index_file, populate}
use wolf_clu.Ocsp.Index.Row.{file_of, entry_of, parse_index_file-rows}
use wolf_clu.Ocsp.Index.Kept.{Kept}
use wolf_clu.Ocsp.Index.Statuses.{Cert, digit_of, Spells, rows_of, told, populate-index}

abbrev year_of : Tm → ℤ
year_of t = t.tm_year

abbrev certs : List Cert
certs =
    record {
      state = b'V';
      expires = codes "330101000000Z";
      revoked = [];
      number = 16 ∷ 250 ∷ [];
      serial = codes "10FA";
      file = codes "unknown";
      subject = codes "/CN=a";
    }
    ∷ record {
      state = b'R';
      expires = codes "330101000000Z";
      revoked = codes "250630120000Z";
      number = 16 ∷ 251 ∷ [];
      serial = codes "10fb";
      file = codes "unknown";
      subject = codes "/CN=b";
    }
    ∷ []

two_rows :
    parse_index_file year_of 32 (file_of (rows_of certs))
    ≡ filter_map (entry_of year_of 32) (rows_of certs)
two_rows = parse_index_file-rows year_of 32 (rows_of certs) refl

abbrev value : ℕ → ℕ
value c = elim (digit_of c) [ none ↦ 0 | some d ↦ d ]

abbrev bytes_of : Bytes → Bytes
bytes_of (h ∷ l ∷ text) = (value h * 16 + value l) ∷ bytes_of text
bytes_of _ = []

abbrev decode : Bytes → ℕ → Result Bytes
decode h n = ok (bytes_of h)

bytes_of-Spells : (text bin : Bytes) → Spells text bin → bytes_of text ≡ bin
bytes_of-Spells [] [] h = refl
bytes_of-Spells [] (b ∷ bin) h = absurd h
bytes_of-Spells (c ∷ []) [] h = absurd h
bytes_of-Spells (c ∷ []) (b ∷ bin) h = absurd h
bytes_of-Spells (c ∷ d ∷ text) [] h = absurd h
bytes_of-Spells (c ∷ d ∷ text) (b ∷ bin) (p, q, h) =
    let high : value c ≡ b / 16 = rw (p, value) refl in
    let low : value d ≡ b % 16 = rw (q, value) refl in
    let whole : value c * 16 + value d ≡ b = omega (arith, high, low) in
    ap (λ x. x ∷ bytes_of text) whole ∙ ap (◌∷◌ b) (bytes_of-Spells text bin h)

abbrev always : ℕ → Bool
always n = true

two_told :
    populate decode always (parse_index_file year_of 32 (file_of (rows_of certs)))
    ≡ filter_map (told year_of 32) certs
two_told =
    populate-index year_of 32 decode always (λ text bin h. ap ok (bytes_of-Spells text bin h))
      (λ n. refl) certs
      (
        (omega arith, omega arith, (refl, refl, (refl, refl, tt))),
        ((omega arith, omega arith, (refl, refl, (refl, refl, tt))), tt),
      )
      refl
