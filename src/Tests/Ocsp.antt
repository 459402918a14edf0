-- ===== src/Tests/Ocsp.antt =====
-- A responder that answers every request with the request itself.
use wolf_clu.Base.{ℕ, suc, true, false, List, [], ◌∷◌, Option, none, some, ◌≡◌, refl}
use wolf_clu.Text.{Bytes, codes, strncmp_eq, starts_with, atoi}
use wolf_clu.Args.{Argv}
use wolf_clu.Net.Socket.{room, recv, recv_packet, send_all, send_loop}
use wolf_clu.Net.Socket.Stream.{stream}
use wolf_clu.Net.Http.{
  find, find_content_length, scan_headers, is_full, clamp, http_loop, http_server_recv, body_from,
  body_of_length, parse_request,
}
use wolf_clu.Net.Reply.{
  decimal, digits, content_length_line, ocsp_header, send_text, send_body, http_send_ocsp_response,
}
use wolf_clu.Ocsp.Transport.{
  transport_http, transport_scgi, http_body, http_outcome, transport_read_request,
  transport_send_response,
}
use wolf_clu.Ocsp.Transport.Request.{ReadsRequest, transport_read_request-ReadsRequest}
use wolf_clu.Ocsp.Responder.{
  Written, response, OcspStatus, Client, Round, answer, serve_request, serve_round, serve,
}
use wolf_clu.Ocsp.Responder.Answers.{Answers, serve_round-Answers}
use wolf_clu.Ocsp.Responder.Budget.{WithinBudget, serve-WithinBudget}
use wolf_clu.Ocsp.Setup.{ocsp_setup}
use wolf_clu.Ocsp.Setup.Valid.{ValidSide, ocsp_setup-ValidSide}
use wolf_clu.Tests.Net.{http_conn, scgi_conn}

scgi_rejected : ReadsRequest (stream scgi_conn) (transport_read_request transport_scgi scgi_conn [])
scgi_rejected = transport_read_request-ReadsRequest transport_scgi scgi_conn []

abbrev echo : ℕ → Bytes → ℕ × Written
echo n req = (suc n, response req)

abbrev no_response : OcspStatus → Option Bytes
no_response status = none

abbrev client : Client
client = record { conn = http_conn; rooms = room 500 ∷ room 500 ∷ [] }

abbrev rounds : List Round
rounds =
    record { shutdown = false; accepted = none }
    ∷ record { shutdown = false; accepted = some client }
    ∷ record { shutdown = false; accepted = some client }
    ∷ []

one_request : WithinBudget 1 (serve echo no_response transport_http 1 rounds 0 0)
one_request = serve-WithinBudget echo no_response transport_http 1 rounds 0

client_answered :
    Answers echo no_response transport_http 0
      (some client)
      (serve_round echo no_response transport_http 0 (some client)).1
    × ((serve_round echo no_response transport_http 0 (some client)).1.sent ≡ true)
unfolding serve_round serve_request answer transport_read_request http_outcome http_body
    http_server_recv http_loop scan_headers is_full clamp find find_content_length parse_request
    body_of_length body_from atoi starts_with strncmp_eq recv recv_packet transport_send_response
    http_send_ocsp_response send_body send_text send_all send_loop ocsp_header content_length_line
    decimal digits
client_answered = serve_round-Answers echo no_response transport_http 0 (some client) refl

abbrev ocsp_argv : Argv
ocsp_argv =
    some (codes "wolfssl") ∷ some (codes "ocsp") ∷ some (codes "-port") ∷ some (codes "8080") ∷ []

ocsp_side : ValidSide ocsp_argv (ocsp_setup ocsp_argv)
ocsp_side = ocsp_setup-ValidSide ocsp_argv
