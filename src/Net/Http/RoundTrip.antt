-- ===== src/Net/Http/RoundTrip.antt =====
-- A request that a client wrote, and the body that the server finds in it.
use wolf_clu.Base.{
  ℕ, ◌≤◌, ◌<◌, ◌^◌, Bool, true, false, not, [], ◌∷◌, ◌++◌, some, ◌==◌, ltb, ◌≡◌, refl, ap, ◌∙◌,
  arith, length, take, length-append, pos, ◌&&◌,
}
use wolf_clu.Text.{Bytes, codes, starts_with, strncmp_eq, atoi, is_digit}
use wolf_clu.Text.Numbers.{atoi-digits, atoi_space}
use wolf_clu.Net.Http.{
  find, end_of_headers, find_content_length, body_from, body_of_length, parse_request,
}
use wolf_clu.Decimal.Exact.{all_digits, value}

-- `Content-Length:`, a space, the digits, the blank line and the body
abbrev pub content : ℕ → Bytes → Bytes → Bytes
content d ds body = codes "Content-Length:" ++ (b' ' ∷ d ∷ (ds ++ (end_of_headers ++ body)))

abbrev all_plain : Bytes → Bool
all_plain [] = true
all_plain (c ∷ s) = not (c == 13) && (not (c == 0) && all_plain s)

find-end_of_headers :
    (s rest : Bytes)
    → all_plain s ≡ true
    → find end_of_headers (s ++ (end_of_headers ++ rest)) ≡ some (end_of_headers ++ rest)
unfolding find starts_with
find-end_of_headers [] rest h = ground arith
find-end_of_headers (c ∷ s) rest h =
    let ih = find-end_of_headers s rest (ground (arith, h)) in ground (arith, ih, h)

all_digits-all_plain : (s : Bytes) → all_digits s ≡ true → all_plain s ≡ true
unfolding is_digit
all_digits-all_plain [] h = refl
all_digits-all_plain (c ∷ s) h =
    let ih = all_digits-all_plain s (ground (arith, h)) in ground (arith, ih, h)

take-length : (s rest : Bytes) → take (length s) (s ++ rest) ≡ s
take-length [] rest = refl
take-length (x ∷ s) rest = ap (◌∷◌ x) (take-length s rest)

strncmp-room : (req : Bytes) → strncmp_eq 5 req (codes "POST ") ≡ true → 5 ≤ length req
unfolding strncmp_eq
strncmp-room [] h = cc
strncmp-room (a ∷ []) h = absurd (ground (arith, h))
strncmp-room (a ∷ b ∷ []) h = absurd (ground (arith, h))
strncmp-room (a ∷ b ∷ c ∷ []) h = absurd (ground (arith, h))
strncmp-room (a ∷ b ∷ c ∷ d ∷ []) h = absurd (ground (arith, h))
strncmp-room (a ∷ b ∷ c ∷ d ∷ e ∷ s) h = omega arith

body_of_length-content :
    (d : ℕ) (ds body tail : Bytes)
    → all_digits (d ∷ ds) ≡ true
    → 0 < length body
    → body_of_length (content d ds (body ++ tail)) (pos (length body)) ≡ some body
unfolding body_of_length body_from
body_of_length-content d ds [] tail h p = elim p [ ]
body_of_length-content d ds (b ∷ body) tail h p =
    let plain : all_plain (codes "Content-Length:" ++ (b' ' ∷ d ∷ ds)) ≡ true =
      all_digits-all_plain (d ∷ ds) h in
    let found =
      find-end_of_headers (codes "Content-Length:" ++ (b' ' ∷ d ∷ ds)) ((b ∷ body) ++ tail) plain in
    let len = length-append {0} (b ∷ body) tail in
    let whole = take-length (b ∷ body) tail in rw (found, body_from) (ground (arith, len, whole))

-- A POST request with a Content-Length, written with digits behind a space as the last of its
-- headers, and with that many bytes of body, one at least, yields the body, whatever comes in
-- front of the header and behind the body, as long as the name of the header is not in what comes
-- in front.
pub parse_request-content :
    (req : Bytes) (d : ℕ) (ds body tail : Bytes)
    → strncmp_eq 5 req (codes "POST ") ≡ true
    → find_content_length req ≡ some (content d ds (body ++ tail))
    → all_digits (d ∷ ds) ≡ true
    → value 0 (d ∷ ds) ≡ length body
    → 0 < length body
    → length body < 2 ^ 31
    → parse_request req ≡ some body
unfolding parse_request is_digit
parse_request-content req d ds body tail post found digits len some_body small =
    let room = strncmp-room req post in
    let room' : ltb (length req) 5 ≡ false = ground arith in
    let n : atoi (b' ' ∷ d ∷ (ds ++ 13 ∷ 10 ∷ 13 ∷ 10 ∷ (body ++ tail))) ≡ pos (length body) =
      atoi_space _
      ∙ (atoi-digits d ds 13 (10 ∷ 13 ∷ 10 ∷ (body ++ tail)) digits refl (rw len small)
          ∙ ap pos len) in
    rw (room', post, found, parse_request, n)
      (body_of_length-content d ds body tail digits some_body)
