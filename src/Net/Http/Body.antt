-- ===== src/Net/Http/Body.antt =====
-- What `wolfCLU_HttpServerParseRequest` takes for the body of a request.
use wolf_clu.Base.{
  ℕ, zero, suc, ◌≤◌, ◌<◌, true, [], ◌++◌, Option, none, some, ◌≡◌, ◌≢◌, refl, sym, ap, ◌∙◌, inl,
  inr, arith, length, take, drop, length-take, take-append-drop, append_assoc, append-nil,
  Bool-cases, Option-cases, ℤ, pos, negsuc,
}
use wolf_clu.Text.{Bytes, codes, strncmp_eq, atoi}
use wolf_clu.Net.Http.{
  find, end_of_headers, find_content_length, body_from, body_of_length, parse_request,
}
use wolf_clu.Net.Http.Received.{find-split}

-- The body stands behind a blank line, whole.
abbrev pub BodyAt : Bytes → Bytes → Bytes → Type 0
BodyAt s body tail = (head : Bytes) × (s ≡ head ++ (end_of_headers ++ (body ++ tail)))

-- The length that the request declares is the body's; without one the body goes on to the end.
abbrev pub Declared : Option Bytes → Bytes → Bytes → Type 0
Declared none body tail = tail ≡ []
Declared (some cl) body tail = (atoi (drop 15 cl) ≡ pos (length body)) × (0 < length body)

abbrev pub Extracts : Bytes → Bytes → Type 0
Extracts req body =
    (tail : Bytes) × BodyAt req body tail × Declared (find_content_length req) body tail

body_from_found :
    (s : Bytes) (n : ℕ) {body t rest : Bytes}
    → find end_of_headers s ≡ some t
    → t ≡ end_of_headers ++ rest
    → body_from s n ≡ some body
    → (tail : Bytes) × (rest ≡ body ++ tail) × (n ≡ 0 → tail ≡ []) × (n ≢ 0 → length body ≡ n)
unfolding body_from
body_from_found s zero {body} {t} {rest} e split h =
    let same : rest ≡ body = ground (arith, e, split, h) in
    ([], same ∙ sym (append-nil body), λ _. refl, λ absurd_n. absurd (absurd_n refl))
body_from_found s (suc n) {body} {t} {rest} e split h =
    let enough : suc n ≤ length rest = ground (arith, e, split, h) in
    let same : take (suc n) rest ≡ body = ground (arith, e, split, h) in
    (
      drop (suc n) rest,
      sym (take-append-drop (suc n) rest) ∙ ap (λ x. x ++ drop (suc n) rest) same,
      λ bad. absurd (omega arith),
      λ _. ap length (sym same) ∙ length-take (suc n) rest enough,
    )

body_from-BodyAt :
    (s : Bytes) (n : ℕ) {body : Bytes}
    → body_from s n ≡ some body
    → (tail : Bytes) × BodyAt s body tail × (n ≡ 0 → tail ≡ []) × (n ≢ 0 → length body ≡ n)
body_from-BodyAt s n {body} h = elim (Option-cases (find end_of_headers s)) [
  | inl e ↦ absurd (unfold body_from in ground (arith, e, h))
  | inr (t, e) ↦
      let (head, rest, split, t_split) = find-split end_of_headers s e in
      let (tail, rest_split, whole, measured) = body_from_found s n e t_split h in
      (
        tail,
        (head, split ∙ ap (λ x. head ++ x) (t_split ∙ ap (λ x. end_of_headers ++ x) rest_split)),
        whole,
        measured,
      )
]

find_content_length-split :
    (s : Bytes) {cl : Bytes} → find_content_length s ≡ some cl → (front : Bytes) × (s ≡ front ++ cl)
unfolding find_content_length
find_content_length-split s {cl} h = elim (Option-cases (find (codes "Content-Length:") s)) [
  | inr (t, e) ↦
      let (front, rest, split, t_split) = find-split (codes "Content-Length:") s e in
      let same : t ≡ cl = ground (arith, e, h) in (front, split ∙ ap (λ x. front ++ x) same)
  | inl e ↦
      let h' : find (codes "content-length:") s ≡ some cl = ground (arith, e, h) in
      let (front, rest, split, t_split) = find-split (codes "content-length:") s h' in
      (front, split)
]

body_of_length-Extracts :
    (req cl : Bytes) (n : ℤ) {body : Bytes}
    → find_content_length req ≡ some cl
    → atoi (drop 15 cl) ≡ n
    → body_of_length cl n ≡ some body
    → Extracts req body
unfolding body_of_length
body_of_length-Extracts req cl (negsuc n) e a h = cc
body_of_length-Extracts req cl (pos zero) e a h = cc
body_of_length-Extracts req cl (pos (suc n)) {body} e a h =
    let (tail, (head, split), whole, measured) = body_from-BodyAt cl (suc n) h in
    let (front, at) = find_content_length-split req e in
    let len : length body ≡ suc n = measured (λ z. absurd (omega arith)) in
    (
      tail,
      (
        front ++ head,
        at
            ∙ ap (λ x. front ++ x) split
            ∙ sym (append_assoc front head (end_of_headers ++ (body ++ tail))),
      ),
      rw e (a ∙ ap pos (sym len), omega arith),
    )

-- A body that `wolfCLU_HttpServerParseRequest` returns stands in a POST request, whole, behind a
-- blank line. If the request has a Content-Length, the body has that length, which is positive; if
-- it has none, the body goes on to the end of what was received.
pub parse_request-Extracts :
    (req : Bytes) {body : Bytes}
    → parse_request req ≡ some body
    → (strncmp_eq 5 req (codes "POST ") ≡ true) × Extracts req body
unfolding parse_request
parse_request-Extracts req {body} h = elim (Bool-cases (strncmp_eq 5 req (codes "POST "))) [
  | inr other ↦ absurd (ground (arith, other, h))
  | inl post ↦ elim (Option-cases (find_content_length req)) [
    | inl e ↦
        let h' : body_from req 0 ≡ some body = ground (arith, post, e, h) in
        let (tail, at, whole, measured) = body_from-BodyAt req 0 h' in
        (post, (tail, at, rw e (whole refl)))
    | inr (cl, e) ↦
        let h' : body_of_length cl (atoi (drop 15 cl)) ≡ some body = ground (arith, post, e, h) in
        (post, body_of_length-Extracts req cl (atoi (drop 15 cl)) e refl h')
  ]
]
