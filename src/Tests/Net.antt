-- ===== src/Tests/Net.antt =====
-- A request for "abc", cut into packets, over HTTP and over SCGI, and a reply to it.
use wolf_clu.Base.{List, [], ◌∷◌, ◌++◌, some, pos, ◌≡◌, refl, arith, take, drop}
use wolf_clu.Text.{Bytes, codes, strncmp_eq, starts_with, is_digit, bytes_eq, atoi}
use wolf_clu.Net.Socket.{Conn, packet, interrupted, Room, room, signal, send_loop, send_all}
use wolf_clu.Net.Socket.Stream.{stream}
use wolf_clu.Net.Http.{find, find_content_length, parse_request, http_server_recv}
use wolf_clu.Net.Http.Received.{Receives, http_server_recv-Receives}
use wolf_clu.Net.Http.RoundTrip.{content, parse_request-content}
use wolf_clu.Net.Scgi.{scgi_read_request, no_headers, parse_headers}
use wolf_clu.Net.Scgi.Headers.{encode_headers, parse_headers-encode}
use wolf_clu.Net.Scgi.Request.{Safe, scgi_read_request-Safe}
use wolf_clu.Net.Reply.{
  decimal, digits, content_length_line, ocsp_header, send_text, send_body, http_send_ocsp_response,
}
use wolf_clu.Net.Reply.Framed.{Frames, http_send_ocsp_response-Frames}

abbrev pub abc : Bytes
abc = codes "abc"

abbrev request_line : Bytes
request_line = codes "POST / HTTP/1.0" ++ (13 ∷ 10 ∷ [])

abbrev pub http_request : Bytes
http_request = request_line ++ content b'3' [] (abc ++ codes "more")

abbrev pub http_conn : Conn
http_conn = packet (take 30 http_request) ∷ interrupted ∷ packet (drop 30 http_request) ∷ []

abbrev rooms : List Room
rooms = room 2 ∷ signal ∷ room 500 ∷ room 500 ∷ []

received_request : Receives 63 (stream http_conn) (http_server_recv 64 http_conn)
received_request = http_server_recv-Receives 64 http_conn

found_body : parse_request http_request ≡ some abc
unfolding find_content_length find starts_with strncmp_eq is_digit
found_body =
    parse_request-content http_request b'3' [] abc (codes "more") refl refl refl refl (omega arith)
      (omega arith)

abbrev scgi_headers : List (Bytes × Bytes)
scgi_headers = (codes "CONTENT_LENGTH", codes "3") ∷ (codes "REQUEST_METHOD", codes "POST") ∷ []

headers_read :
    parse_headers (encode_headers scgi_headers)
    ≡ some (record no_headers { content_length = pos 3; request_method = some (codes "POST") })
unfolding bytes_eq atoi
headers_read = parse_headers-encode scgi_headers (omega arith)

abbrev pub scgi_conn : Conn
scgi_conn =
    packet (codes "37:")
    ∷ packet (encode_headers scgi_headers ++ codes ",ab")
    ∷ packet (codes "c")
    ∷ []

scgi_returned : Safe 64 (stream scgi_conn) (scgi_read_request 64 scgi_conn)
scgi_returned = scgi_read_request-Safe 64 scgi_conn

http_replied :
    ((http_send_ocsp_response rooms abc).wire ≡ ocsp_header 3 ++ abc)
    × Frames (http_send_ocsp_response rooms abc).wire abc
unfolding http_send_ocsp_response send_body send_text send_all send_loop ocsp_header
    content_length_line decimal digits
http_replied = http_send_ocsp_response-Frames rooms abc (omega arith) refl
