-- ===== src/Net/Scgi/Headers.antt =====
-- src/tools/clu_scgi.c, `parseHeaders`: the headers of an SCGI request.
use wolf_clu.Base.{
  ℕ, zero, suc, ◌≤◌, ◌<◌, Bool, true, false, List, [], ◌∷◌, ◌++◌, Option, none, some, ◌≡◌, ◌≢◌,
  refl, sym, ap, ◌∙◌, arith, length, All, ℤ, negsuc, Bool-cases, if◌then◌else◌, Option-cases, inl,
  inr, length-append,
}
use wolf_clu.Text.{Bytes, codes, bytes_eq, atoi}
use wolf_clu.Text.Laws.{bytes_eq_iff}
use mathlib.Core.Path.{subst}
use wolf_clu.Net.Scgi.{
  ScgiRequest, cut_nul, set_header, next_pair, header_loop, no_headers, parse_headers,
}

cut_nul-length :
    (s : Bytes) {key rest : Bytes} → cut_nul s ≡ some (key, rest) → length rest < length s
unfolding cut_nul
cut_nul-length [] h = cc
cut_nul-length (b ∷ s) h = elim (Option-cases (cut_nul s)) [
  | inl e ↦ ground (arith, e)
  | inr ((key, rest), e) ↦ let ih = cut_nul-length s e in ground (arith, e, ih)
]

next_pair-length :
    (s : Bytes) {key value rest : Bytes}
    → next_pair s ≡ some (key, value, rest)
    → length rest < length s
unfolding next_pair
next_pair-length s {key} {value} {rest} h = elim (Option-cases (cut_nul s)) [
  | inl e ↦ absurd (ground (arith, e))
  | inr ((k, []), e) ↦ absurd (ground (arith, e))
  | inr ((k, b ∷ more), e) ↦ elim (Option-cases (cut_nul (b ∷ more))) [
    | inl e' ↦ absurd (ground (arith, e, e'))
    | inr ((v, r), e') ↦
        let l = cut_nul-length s e in
        let l' = cut_nul-length (b ∷ more) e' in ground (arith, e, e', l, l')
  ]
]

-- Every round reads a byte at least, so the loop ends on any bytes.
header_loop_total :
    (fuel : ℕ) (headers : Bytes) (req : ScgiRequest)
    → length headers ≤ fuel
    → (out : ScgiRequest) × (header_loop fuel headers req ≡ some out)
unfolding header_loop
header_loop_total fuel [] req h = (req, refl)
header_loop_total zero (b ∷ headers) req h = elim h [ ]
header_loop_total (suc fuel) (b ∷ headers) req h = elim (Option-cases (next_pair (b ∷ headers))) [
  | inl e ↦ (req, rw (e, header_loop))
  | inr ((key, value, rest), e) ↦
      let (out, more) =
        header_loop_total fuel rest (set_header key value req)
          (omega (arith, next_pair-length (b ∷ headers) e)) in
      (out, rw (e, header_loop) more)
]

pub parse_headers_total :
    (headers : Bytes) → (out : ScgiRequest) × (parse_headers headers ≡ some out)
unfolding parse_headers
parse_headers_total headers = header_loop_total (length headers) headers no_headers (omega arith)

-- No header sets the body.
abbrev WithoutBody : ScgiRequest → Type 0
WithoutBody req = req ≡ record req { body = none; body_len = 0 }

set_header-WithoutBody :
    (key value : Bytes) (req : ScgiRequest)
    → WithoutBody req
    → WithoutBody (set_header key value req)
unfolding set_header
set_header-WithoutBody key value req h =
    go (bytes_eq key (codes "CONTENT_LENGTH")) (bytes_eq key (codes "REQUEST_METHOD"))
      (bytes_eq key (codes "REQUEST_URI"))
  where
    go :
        (a b c : Bool)
        → WithoutBody (
            if a
            then record req { content_length = atoi value }
            else if b
            then record req { request_method = some value }
            else if c
            then record req { request_uri = some value }
            else req)
    go true b c = ap (λ (r : ScgiRequest). record r { content_length = atoi value }) h
    go false true c = ap (λ (r : ScgiRequest). record r { request_method = some value }) h
    go false false true = ap (λ (r : ScgiRequest). record r { request_uri = some value }) h
    go false false false = h

header_loop-WithoutBody :
    (fuel : ℕ) (headers : Bytes) (req : ScgiRequest) {out : ScgiRequest}
    → WithoutBody req
    → header_loop fuel headers req ≡ some out
    → WithoutBody out
unfolding header_loop
header_loop-WithoutBody fuel [] req w h = subst WithoutBody (ground (arith, h)) w
header_loop-WithoutBody zero (b ∷ headers) req w h = absurd (ground (arith, h))
header_loop-WithoutBody (suc fuel) (b ∷ headers) req {out} w h =
    elim (Option-cases (next_pair (b ∷ headers))) [
      | inl e ↦ let e' = rw (e, header_loop) at h in subst WithoutBody (ground (arith, e')) w
      | inr ((key, value, rest), e) ↦
          header_loop-WithoutBody fuel rest (set_header key value req)
            (set_header-WithoutBody key value req w) (rw (e, header_loop) at h)
    ]

pub parse_headers_no_body :
    (headers : Bytes)
    → (out : ScgiRequest) × (parse_headers headers ≡ some out)
      × (out ≡ record out { body = none; body_len = 0 })
unfolding parse_headers
parse_headers_no_body headers =
    let (out, e) = parse_headers_total headers in
    (out, e, header_loop-WithoutBody (length headers) headers no_headers refl e)

-- The bytes of a list of headers: each key and each value ends in a NUL.
abbrev pub encode_headers : List (Bytes × Bytes) → Bytes
encode_headers [] = []
encode_headers ((key, value) ∷ more) = key ++ 0 ∷ (value ++ 0 ∷ encode_headers more)

abbrev pub NoNul : Bytes → Type 0
NoNul = All (λ b. b ≢ 0)

-- one header after the other
abbrev headers_of : List (Bytes × Bytes) → ScgiRequest → ScgiRequest
headers_of [] req = req
headers_of ((key, value) ∷ more) req = headers_of more (set_header key value req)

-- The last value under a key.
abbrev pub last_value : Bytes → List (Bytes × Bytes) → Option Bytes → Option Bytes
last_value key [] old = old
last_value key ((key', value) ∷ more) old =
    last_value key more (if bytes_eq key' key then some value else old)

abbrev pub length_of : Option Bytes → ℤ
length_of none = negsuc 0
length_of (some value) = atoi value

-- The request of three values.
abbrev pub fields : Option Bytes → Option Bytes → Option Bytes → ScgiRequest
fields content method uri = record {
  body = none;
  body_len = 0;
  content_length = length_of content;
  request_method = method;
  request_uri = uri;
}

other_key :
    (key a b : Bytes) → bytes_eq a b ≡ false → bytes_eq key a ≡ true → bytes_eq key b ≡ false
other_key key a b h p = subst (λ x. bytes_eq x b ≡ false) (sym ((bytes_eq_iff key a).0 p)) h

set_header-fields :
    (key value : Bytes) (content method uri : Option Bytes)
    → set_header key value (fields content method uri)
      ≡ fields
          (if bytes_eq key (codes "CONTENT_LENGTH") then some value else content)
          (if bytes_eq key (codes "REQUEST_METHOD") then some value else method)
          (if bytes_eq key (codes "REQUEST_URI") then some value else uri)
unfolding set_header bytes_eq
set_header-fields key value content method uri =
    elim (Bool-cases (bytes_eq key (codes "CONTENT_LENGTH"))) [
      | inl p ↦
          rw
            (
              p,
              other_key key (codes "CONTENT_LENGTH") (codes "REQUEST_METHOD") refl p,
              other_key key (codes "CONTENT_LENGTH") (codes "REQUEST_URI") refl p,
              set_header,
            )
            refl
      | inr p ↦ elim (Bool-cases (bytes_eq key (codes "REQUEST_METHOD"))) [
        | inl q ↦
            rw
              (
                p,
                q,
                other_key key (codes "REQUEST_METHOD") (codes "REQUEST_URI") refl q,
                set_header,
              )
              refl
        | inr q ↦ elim (Bool-cases (bytes_eq key (codes "REQUEST_URI"))) [
          | inl r ↦ rw (p, q, r, set_header) refl
          | inr r ↦ rw (p, q, r, set_header) refl
        ]
      ]
    ]

headers_of-fields :
    (ps : List (Bytes × Bytes)) (content method uri : Option Bytes)
    → headers_of ps (fields content method uri)
      ≡ fields
          (last_value (codes "CONTENT_LENGTH") ps content)
          (last_value (codes "REQUEST_METHOD") ps method)
          (last_value (codes "REQUEST_URI") ps uri)
headers_of-fields [] content method uri = refl
headers_of-fields ((key, value) ∷ ps) content method uri =
    ap (headers_of ps) (set_header-fields key value content method uri) ∙ headers_of-fields ps _ _ _

cut_nul-NoNul : (s rest : Bytes) → NoNul s → cut_nul (s ++ 0 ∷ rest) ≡ some (s, rest)
unfolding cut_nul
cut_nul-NoNul [] rest h = refl
cut_nul-NoNul (b ∷ s) rest (p, h) = ground (arith, cut_nul-NoNul s rest h)

next_pair-encode :
    (key value rest : Bytes)
    → NoNul key
    → NoNul value
    → next_pair (key ++ 0 ∷ (value ++ 0 ∷ rest)) ≡ some (key, value, rest)
unfolding next_pair
next_pair-encode key [] rest hk hv =
    ground (arith, cut_nul-NoNul key (0 ∷ rest) hk, cut_nul-NoNul [] rest tt)
next_pair-encode key (v ∷ value) rest hk hv =
    ground
      (arith, cut_nul-NoNul key ((v ∷ value) ++ 0 ∷ rest) hk, cut_nul-NoNul (v ∷ value) rest hv)

header_loop_round :
    (fuel : ℕ) (s : Bytes) (req : ScgiRequest) {key value rest : Bytes}
    → next_pair s ≡ some (key, value, rest)
    → 0 < length s
    → header_loop (suc fuel) s req ≡ header_loop fuel rest (set_header key value req)
unfolding header_loop
header_loop_round fuel [] req e h = elim h [ ]
header_loop_round fuel (b ∷ s) req e h = rw (e, header_loop)

header_loop-encode :
    (ps : List (Bytes × Bytes)) (fuel : ℕ) (req : ScgiRequest)
    → All (λ p. NoNul p.0 × NoNul p.1) ps
    → length (encode_headers ps) ≤ fuel
    → header_loop fuel (encode_headers ps) req ≡ some (headers_of ps req)
header_loop-encode [] fuel req h l = unfold header_loop in refl
header_loop-encode ((key, value) ∷ ps) zero req h l =
    absurd (omega (arith, length-append {0} key (0 ∷ (value ++ 0 ∷ encode_headers ps))))
header_loop-encode ((key, value) ∷ ps) (suc fuel) req ((hk, hv), h) l =
    let l₁ = length-append key (0 ∷ (value ++ 0 ∷ encode_headers ps)) in
    let l₂ = length-append value (0 ∷ encode_headers ps) in
    header_loop_round fuel _ req (next_pair-encode key value (encode_headers ps) hk hv)
      (omega (arith, l₁))
    ∙ header_loop-encode ps fuel (set_header key value req) h (omega (arith, l₁, l₂))

-- Headers that were written with a NUL behind each key and each value are read back: the request has
-- the last value under REQUEST_METHOD and under REQUEST_URI, NULL if there is none, and as the length of
-- its body the last one under CONTENT_LENGTH, -1 if there is none; other keys are passed over.
pub parse_headers-encode :
    (ps : List (Bytes × Bytes))
    → All (λ p. NoNul p.0 × NoNul p.1) ps
    → parse_headers (encode_headers ps)
      ≡ some (
          fields
            (last_value (codes "CONTENT_LENGTH") ps none)
            (last_value (codes "REQUEST_METHOD") ps none)
            (last_value (codes "REQUEST_URI") ps none))
unfolding parse_headers
parse_headers-encode ps h =
    header_loop-encode ps (length (encode_headers ps)) no_headers h (omega arith)
    ∙ ap some (headers_of-fields ps none none none)
