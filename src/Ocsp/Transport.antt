-- ===== src/Ocsp/Transport.antt =====
-- src/ocsp/clu_ocsp.c: `transportReadRequest`, `transportSendResponse` and `transportSendError`.
pub mod Request
use wolf_clu.Base.{ℕ, Bool, true, false, List, [], ◌∷◌, Option, none, some, if◌then◌else◌}
use wolf_clu.Text.{Bytes, codes, bytes_eq}
use wolf_clu.Net.Socket.{Conn, Room, SendResult}
use wolf_clu.Net.Http.{HttpRead, http_read, http_out_of_fuel, http_server_recv, parse_request}
use wolf_clu.Net.Scgi.{
  ScgiRequest, ScgiResult, request, scgi_error, scgi_out_of_fuel, scgi_read_request,
}
use wolf_clu.Net.Reply.{
  http_send_ocsp_response, http_send_error, scgi_send_response, scgi_send_error,
}

-- `enum TRANSPORT_TYPE`
pub data Transport : Type 0 where
  transport_none transport_http transport_scgi : Transport

-- `sizeof(reqBuffer)`
abbrev pub req_buffer_sz : ℕ
req_buffer_sz = 16384

-- The OCSP request, or WOLFCLU_FATAL_ERROR with what went out as an error reply.
pub data ReadOutcome : Type 0 where
  ocsp_request : Bytes → ReadOutcome
  rejected : Bytes → ReadOutcome
  read_stuck : ReadOutcome

-- "*ocspReq == NULL || *ocspReqSz <= 0"
unfoldable pub http_body : List Room → Option Bytes → ReadOutcome
http_body rooms none = rejected (http_send_error rooms 400 (codes "Bad Request")).wire
http_body rooms (some []) = rejected (http_send_error rooms 400 (codes "Bad Request")).wire
http_body rooms (some (b ∷ body)) = ocsp_request (b ∷ body)

unfoldable pub http_outcome : List Room → HttpRead → ReadOutcome
http_outcome rooms http_out_of_fuel = read_stuck
http_outcome rooms (http_read [] c) = rejected []
http_outcome rooms (http_read (b ∷ buf) c) = http_body rooms (parse_request (b ∷ buf))

-- "Validate we have a body"
unfoldable pub scgi_body : List Room → Option Bytes → ReadOutcome
scgi_body rooms none = rejected (scgi_send_error rooms 400 (codes "Bad Request")).wire
scgi_body rooms (some []) = rejected (scgi_send_error rooms 400 (codes "Bad Request")).wire
scgi_body rooms (some (b ∷ body)) = ocsp_request (b ∷ body)

-- "Validate request method"
unfoldable pub scgi_method : List Room → Option Bytes → Option Bytes → ReadOutcome
scgi_method rooms none body = rejected (scgi_send_error rooms 405 (codes "Method Not Allowed")).wire
scgi_method rooms (some method) body =
    if bytes_eq method (codes "POST")
    then scgi_body rooms body
    else rejected (scgi_send_error rooms 405 (codes "Method Not Allowed")).wire

unfoldable pub scgi_outcome : List Room → ScgiResult → ReadOutcome
scgi_outcome rooms scgi_out_of_fuel = read_stuck
scgi_outcome rooms scgi_error = rejected []
scgi_outcome rooms (request req c) = scgi_method rooms req.request_method req.body

-- `transportReadRequest`
unfoldable pub transport_read_request : Transport → Conn → List Room → ReadOutcome
transport_read_request transport_none c rooms = rejected []
transport_read_request transport_http c rooms =
    http_outcome rooms (http_server_recv req_buffer_sz c)
transport_read_request transport_scgi c rooms =
    scgi_outcome rooms (scgi_read_request req_buffer_sz c)

-- `transportSendResponse`
unfoldable pub transport_send_response : Transport → List Room → Bytes → SendResult
transport_send_response transport_none rooms resp = record {
  complete = false;
  wire = [];
  rooms = rooms;
}
transport_send_response transport_http rooms resp = http_send_ocsp_response rooms resp
transport_send_response transport_scgi rooms resp =
    scgi_send_response rooms 200 (codes "OK") (codes "application/ocsp-response") resp

-- `transportSendError`: what goes out
unfoldable pub transport_send_error : Transport → List Room → ℕ → Bytes → Bytes
transport_send_error transport_none rooms code msg = []
transport_send_error transport_http rooms code msg = (http_send_error rooms code msg).wire
transport_send_error transport_scgi rooms code msg = (scgi_send_error rooms code msg).wire
