-- ===== src/Ocsp/Transport/Request.antt =====
-- What the transports hand over as an OCSP request.
use wolf_clu.Base.{
  ℕ, ◌+◌, ◌≤◌, ◌<◌, List, [], ◌∷◌, ◌++◌, Option, none, some, ◌≡◌, refl, sym, ap, ◌∙◌, arith, length,
  length-append, Bool-cases, inl, inr, append_assoc, append-nil,
}
use wolf_clu.Text.{Bytes, bytes_eq, codes}
use wolf_clu.Net.Socket.{Conn, Room}
use wolf_clu.Net.Socket.Stream.{stream}
use wolf_clu.Net.Http.{
  HttpRead, http_read, http_out_of_fuel, http_server_recv, parse_request, end_of_headers,
}
use wolf_clu.Net.Http.Received.{
  Receives, is_at_cap, is_at_end, has_headers, http_server_recv-Receives,
}
use wolf_clu.Net.Http.Body.{parse_request-Extracts}
use wolf_clu.Net.Scgi.{ScgiResult, request, scgi_error, scgi_out_of_fuel, scgi_read_request}
use wolf_clu.Net.Scgi.Request.{BodyIs, Safe, scgi_read_request-Safe}
use wolf_clu.Ocsp.Transport.{
  Transport, transport_none, transport_http, transport_scgi, req_buffer_sz, ReadOutcome,
  ocsp_request, rejected, read_stuck, http_body, http_outcome, scgi_body, scgi_method, scgi_outcome,
  transport_read_request,
}

-- Bytes that stand together in what the peer sent, one at least, within the request buffer.
abbrev pub IsSent : Bytes → Bytes → Type 0
IsSent s req =
    (0 < length req)
    × (length req < req_buffer_sz)
    × ((head : Bytes) × (tail : Bytes) × (s ≡ head ++ (req ++ tail)))

abbrev pub ReadsRequest : Bytes → ReadOutcome → Type 0
ReadsRequest s (ocsp_request req) = IsSent s req
ReadsRequest s (rejected wire) = Unit
ReadsRequest s read_stuck = ⊥

-- A first part of the stream holds the body, and the stream does.
http_body-ReadsRequest :
    (s buf more : Bytes) (rooms : List Room)
    → s ≡ buf ++ more
    → length buf ≤ 16383
    → ReadsRequest s (http_body rooms (parse_request buf))
unfolding http_body
http_body-ReadsRequest s buf more rooms split fits = go (parse_request buf) refl
  where
    go : (o : Option Bytes) → parse_request buf ≡ o → ReadsRequest s (http_body rooms o)
    go none e = tt
    go (some []) e = tt
    go (some (b ∷ body)) e =
        let (post, (tail, (head, at), declared)) = parse_request-Extracts buf e in
        let req = b ∷ body in
        let l₁ = length-append head (end_of_headers ++ (req ++ tail)) in
        let l₂ = length-append req tail in
        let whole : length buf ≡ length (head ++ (end_of_headers ++ (req ++ tail))) =
          ap length at in
        (
          omega arith,
          omega (arith, l₁, l₂, whole),
          (
            head ++ end_of_headers,
            tail ++ more,
            rw (
              split,
              at,
              append_assoc head (end_of_headers ++ (req ++ tail)) more,
              append_assoc req tail more,
              append_assoc head end_of_headers (req ++ (tail ++ more)),
            ),
          ),
        )

http_outcome-ReadsRequest :
    (s : Bytes) (rooms : List Room) (r : HttpRead)
    → Receives 16383 s r
    → ReadsRequest s (http_outcome rooms r)
unfolding http_outcome
http_outcome-ReadsRequest s rooms http_out_of_fuel h = h
http_outcome-ReadsRequest s rooms (http_read [] c) h = tt
http_outcome-ReadsRequest s rooms (http_read (b ∷ buf) c) (fits, stops) = elim stops [
  | is_at_cap l split ↦ http_body-ReadsRequest s (b ∷ buf) (stream c) rooms split fits
  | is_at_end e ↦ http_body-ReadsRequest s (b ∷ buf) [] rooms (e ∙ sym (append-nil (b ∷ buf))) fits
  | has_headers found split ↦ http_body-ReadsRequest s (b ∷ buf) (stream c) rooms split fits
]

scgi_body-ReadsRequest :
    (s : Bytes) (c : Conn) (rooms : List Room) (body : Option Bytes) (n used : ℕ) (front : Bytes)
    → 0 < used
    → used + n ≤ req_buffer_sz
    → BodyIs s front c body n
    → ReadsRequest s (scgi_body rooms body)
unfolding scgi_body
scgi_body-ReadsRequest s c rooms none n used front p fits h = tt
scgi_body-ReadsRequest s c rooms (some []) n used front p fits h = tt
scgi_body-ReadsRequest s c rooms (some (b ∷ body)) n used front p fits (l, q, at) =
    (omega arith, omega arith, (front, stream c, at))

scgi_method-ReadsRequest :
    (s : Bytes) (rooms : List Room) (method body : Option Bytes)
    → ReadsRequest s (scgi_body rooms body)
    → ReadsRequest s (scgi_method rooms method body)
unfolding scgi_method
scgi_method-ReadsRequest s rooms none body h = tt
scgi_method-ReadsRequest s rooms (some method) body h =
    elim (Bool-cases (bytes_eq method (codes "POST"))) [
      | inl post ↦ rw post h
      | inr other ↦ rw other tt
    ]

scgi_outcome-ReadsRequest :
    (s : Bytes) (rooms : List Room) (r : ScgiResult)
    → Safe req_buffer_sz s r
    → ReadsRequest s (scgi_outcome rooms r)
unfolding scgi_outcome
scgi_outcome-ReadsRequest s rooms scgi_out_of_fuel h = h
scgi_outcome-ReadsRequest s rooms scgi_error h = tt
scgi_outcome-ReadsRequest s rooms (request req c)
      (digits, headers, counted, p, fits, parsed, e, body) =
    scgi_method-ReadsRequest s rooms req.request_method req.body (
      scgi_body-ReadsRequest s c rooms req.body req.body_len (length headers)
        (digits ++ b':' ∷ (headers ++ b',' ∷ [])) p fits body)

-- `transportReadRequest` returns, whatever the peer sends. The OCSP request that it hands over is
-- a run of bytes that the peer sent, is not empty, and is shorter than the request buffer.
pub transport_read_request-ReadsRequest :
    (transport : Transport) (c : Conn) (rooms : List Room)
    → ReadsRequest (stream c) (transport_read_request transport c rooms)
unfolding transport_read_request
transport_read_request-ReadsRequest transport_none c rooms = tt
transport_read_request-ReadsRequest transport_http c rooms =
    http_outcome-ReadsRequest (stream c) rooms (http_server_recv req_buffer_sz c)
      (http_server_recv-Receives req_buffer_sz c)
transport_read_request-ReadsRequest transport_scgi c rooms =
    scgi_outcome-ReadsRequest (stream c) rooms (scgi_read_request req_buffer_sz c)
      (scgi_read_request-Safe req_buffer_sz c)
