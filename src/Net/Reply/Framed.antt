-- ===== src/Net/Reply/Framed.antt =====
-- The replies on the wire.
use wolf_clu.Base.{
  ℕ, ◌^◌, ◌<◌, true, false, List, [], ◌∷◌, ◌++◌, some, ◌≡◌, refl, sym, ap, ◌∙◌, arith, length, leb,
  drop, Bool-cases, inl, inr, append-nil, append_assoc, pos,
}
use wolf_clu.Text.{Bytes, codes, starts_with, atoi, is_digit}
use wolf_clu.Text.Numbers.{atoi-digits, atoi_space}
use wolf_clu.Decimal.Exact.{value, all_digits}
use wolf_clu.Net.Socket.{Room, SendResult, send_all}
use wolf_clu.Net.Socket.Sent.{send_all-Sends}
use wolf_clu.Net.Http.{find, find_content_length, end_of_headers}
use wolf_clu.Net.Reply.{
  crlf, decimal, content_length_line, ocsp_header, send_text, send_body, http_send_ocsp_response,
  scgi_header, scgi_send_response,
}
use wolf_clu.Net.Reply.Decimal.{decimal-value, decimal-all_digits, decimal-cons}

pub send_all-wire :
    (rooms : List Room) (buf : Bytes)
    → (send_all rooms buf).complete ≡ true
    → (send_all rooms buf).wire ≡ buf
send_all-wire rooms buf h =
    let (rest, split, left) = send_all-Sends rooms buf in
    let empty : rest ≡ [] = rw h at left in
    sym (split ∙ ap (λ x. (send_all rooms buf).wire ++ x) empty ∙ append-nil _)

pub send_text-wire :
    (rooms : List Room) (text : Bytes)
    → (send_text rooms text).complete ≡ true
    → (send_text rooms text).wire ≡ text
unfolding send_text
send_text-wire rooms text h = elim (Bool-cases (leb 512 (length text))) [
  | inl long ↦ absurd (ground (arith, long, h))
  | inr fits ↦ rw fits (send_all-wire rooms text (rw fits at h))
]

pub send_body-wire :
    (head : SendResult) (text body : Bytes)
    → (head.complete ≡ true → head.wire ≡ text)
    → (send_body head body).complete ≡ true
    → (send_body head body).wire ≡ text ++ body
unfolding send_body
send_body-wire head text [] sent h = sent h ∙ sym (append-nil text)
send_body-wire head text (b ∷ body) sent h = elim (Bool-cases head.complete) [
  | inr cut ↦ absurd (ground (arith, cut, h))
  | inl out ↦
      let rest = send_all-wire head.rooms (b ∷ body) (rw out at h) in rw (out, sent out, rest)
]

-- What a client reads: the field gives the length of the body, which follows the blank line.
abbrev pub Frames : Bytes → Bytes → Type 0
Frames text body =
    ((head : Bytes) × (text ≡ head ++ (end_of_headers ++ body)))
    × ((cl : Bytes) × (find_content_length text ≡ some cl)
        × (atoi (drop 15 cl) ≡ pos (length body)))

atoi-decimal :
    (n c : ℕ) (rest : Bytes)
    → is_digit c ≡ false
    → n < 2 ^ 31
    → atoi (b' ' ∷ (decimal n ++ c ∷ rest)) ≡ pos n
atoi-decimal n c rest stop small =
    let (d, ds, e) = decimal-cons n in
    let v : value 0 (d ∷ ds) ≡ n = ap (value 0) (sym e) ∙ decimal-value n in
    let digits : all_digits (d ∷ ds) ≡ true = ap all_digits (sym e) ∙ decimal-all_digits n in
    atoi_space _ ∙ rw e (atoi-digits d ds c rest digits stop (rw v small) ∙ ap pos v)

-- what stands in front of the length, and between it and the blank line
abbrev ocsp_front : Bytes
ocsp_front =
    codes "HTTP/1.0 200 OK"
    ++ (crlf
        ++ (codes "Content-Type: application/ocsp-response" ++ (crlf ++ codes "Content-Length: ")))

abbrev connection_close : Bytes
connection_close = crlf ++ codes "Connection: close"

ocsp_header-Frames :
    (body : Bytes) → length body < 2 ^ 31 → Frames (ocsp_header (length body) ++ body) body
unfolding ocsp_header content_length_line find find_content_length starts_with is_digit
ocsp_header-Frames body small =
    let n = decimal (length body) in
    let tail = connection_close ++ end_of_headers in
    let e : (n ++ tail) ++ body ≡ (n ++ connection_close) ++ (end_of_headers ++ body) =
      append_assoc n tail body ∙ sym (append_assoc n connection_close (end_of_headers ++ body)) in
    (
      (ocsp_front ++ (n ++ connection_close), ap (λ x. ocsp_front ++ x) e),
      (
        _,
        refl,
        rw (append_assoc n tail body)
            (atoi-decimal (length body) 13 (drop 1 tail ++ body) refl small),
      ),
    )

-- When `wolfCLU_HttpServerSendOcspResponse` returns 0, what went out is a response with the body
-- whole behind the blank line, and a reader of its Content-Length, as `atoi` reads it, finds the
-- length of the body (below 2 ^ 31).
pub http_send_ocsp_response-Frames :
    (rooms : List Room) (body : Bytes)
    → length body < 2 ^ 31
    → (http_send_ocsp_response rooms body).complete ≡ true
    → ((http_send_ocsp_response rooms body).wire ≡ ocsp_header (length body) ++ body)
      × Frames (http_send_ocsp_response rooms body).wire body
unfolding http_send_ocsp_response
http_send_ocsp_response-Frames rooms body small h =
    let header = ocsp_header (length body) in
    let wire =
      send_body-wire (send_text rooms header) header body (send_text-wire rooms header) h in
    (wire, rw wire (ocsp_header-Frames body small))

-- When `wolfCLU_ScgiSendResponse` returns 0, the header and the body behind it went out whole.
pub scgi_send_response-wire :
    (rooms : List Room) (status_code : ℕ) (status_text content_type body : Bytes)
    → (scgi_send_response rooms status_code status_text content_type body).complete ≡ true
    → (scgi_send_response rooms status_code status_text content_type body).wire
      ≡ scgi_header status_code status_text content_type (length body) ++ body
unfolding scgi_send_response
scgi_send_response-wire rooms status_code status_text content_type body h =
    let header = scgi_header status_code status_text content_type (length body) in
    send_body-wire (send_text rooms header) header body (send_text-wire rooms header) h
