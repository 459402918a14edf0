-- ===== src/Ocsp/Responder/Answers.antt =====
-- What counts as an answered request.
use wolf_clu.Base.{ℕ, true, false, List, [], ◌++◌, Option, none, some, ◌≡◌, refl, arith, length}
use wolf_clu.Text.{Bytes, codes}
use wolf_clu.Net.Socket.{Room}
use wolf_clu.Net.Reply.{ocsp_header, scgi_header, send_text, http_send_ocsp_response}
use wolf_clu.Net.Reply.Framed.{send_text-wire, send_body-wire, scgi_send_response-wire}
use wolf_clu.Ocsp.Transport.{
  Transport, transport_none, transport_http, transport_scgi, ReadOutcome, ocsp_request, rejected,
  read_stuck, transport_read_request, transport_send_response,
}
use wolf_clu.Ocsp.Responder.{
  Written, response, write_error, OcspStatus, map_error, Reply, Client, answer_error, answer,
  serve_request, serve_round,
}

-- the head in front of a response
abbrev pub response_header : Transport → ℕ → Bytes
response_header transport_none n = []
response_header transport_http n = ocsp_header n
response_header transport_scgi n =
    scgi_header 200 (codes "OK") (codes "application/ocsp-response") n

transport_send_response-wire :
    (transport : Transport) (rooms : List Room) (resp : Bytes)
    → (transport_send_response transport rooms resp).complete ≡ true
    → (transport_send_response transport rooms resp).wire
      ≡ response_header transport (length resp) ++ resp
unfolding transport_send_response http_send_ocsp_response
transport_send_response-wire transport_none rooms resp h = cc
transport_send_response-wire transport_http rooms resp h =
    let header = ocsp_header (length resp) in
    send_body-wire (send_text rooms header) header resp (send_text-wire rooms header) h
transport_send_response-wire transport_scgi rooms resp h =
    scgi_send_response-wire rooms 200 (codes "OK") (codes "application/ocsp-response") resp h

module _ {ℓ} {R : Type ℓ} (write_response : R → Bytes → R × Written)
    (write_error_response : OcspStatus → Option Bytes) (transport : Transport) where
  -- A round that is counted: the transport read a request from the client, the library's responder
  -- wrote a response to it, and this response went out whole behind its head.
  abbrev pub Answers : R → Option Client → Reply → Type 0
  Answers r none reply = ⊥
  Answers r (some client) reply =
      (req : Bytes) × (resp : Bytes) × (transport_read_request transport client.conn client.rooms
        ≡ ocsp_request req)
      × ((write_response r req).1 ≡ response resp)
      × (reply.wire ≡ response_header transport (length resp) ++ resp)

  answer_error-uncounted :
      (rooms : List Room) (o : Option Bytes)
      → (answer_error write_response write_error_response transport rooms o).counted ≡ false
  unfolding answer_error
  answer_error-uncounted rooms none = refl
  answer_error-uncounted rooms (some resp) = refl

  answer-counted :
      (rooms : List Room) (w : Written)
      → (answer write_response write_error_response transport rooms w).counted ≡ true
      → (resp : Bytes) × (w ≡ response resp)
        × ((answer write_response write_error_response transport rooms w).wire
            ≡ response_header transport (length resp) ++ resp)
        × ((answer write_response write_error_response transport rooms w).sent ≡ true)
  unfolding answer
  answer-counted rooms (response resp) h =
      (resp, refl, transport_send_response-wire transport rooms resp h, h)
  answer-counted rooms (write_error e) h =
      absurd (ground (arith, answer_error-uncounted rooms (write_error_response (map_error e)), h))

  serve_request-counted :
      (r : R) (client : Client) (outcome : ReadOutcome)
      → transport_read_request transport client.conn client.rooms ≡ outcome
      → (serve_request write_response write_error_response transport client.rooms r
          outcome).1.counted
        ≡ true
      → Answers r
          (some client)
          (serve_request write_response write_error_response transport client.rooms r outcome).1
        × ((serve_request write_response write_error_response transport client.rooms r
              outcome).1.sent
            ≡ true)
  unfolding serve_request
  serve_request-counted r client (rejected wire) e h = cc
  serve_request-counted r client read_stuck e h = cc
  serve_request-counted r client (ocsp_request req) e h =
      let (resp, w, wire, sent) = answer-counted client.rooms (write_response r req).1 h in
      ((req, resp, e, w, wire), sent)

  -- A round counts toward the limit only if the transport read a request from the client, the
  -- responder of the library wrote a response to this request, and the response went out whole.
  pub serve_round-Answers :
      (r : R) (accepted : Option Client)
      → (serve_round write_response write_error_response transport r accepted).1.counted ≡ true
      → Answers r accepted (serve_round write_response write_error_response transport r accepted).1
        × ((serve_round write_response write_error_response transport r accepted).1.sent ≡ true)
  unfolding serve_round
  serve_round-Answers r none h = cc
  serve_round-Answers r (some client) h = serve_request-counted r client _ refl h
