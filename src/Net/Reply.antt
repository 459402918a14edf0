-- ===== src/Net/Reply.antt =====
-- src/tools/clu_http.c, `wolfCLU_HttpServerSendOcspResponse` and `wolfCLU_HttpServerSendError`, and
-- src/tools/clu_scgi.c, `wolfCLU_ScgiSendResponse` and `wolfCLU_ScgiSendError`: the replies. The
-- numbers that are printed are lengths and status codes, none of them negative.
pub mod Decimal
pub mod Framed
use wolf_clu.Base.{
  ℕ, zero, suc, ◌+◌, ◌/◌, ◌%◌, Bool, true, false, List, [], ◌∷◌, ◌++◌, leb, ltb, if◌then◌else◌,
  length,
}
use wolf_clu.Text.{Bytes, codes}
use wolf_clu.Net.Socket.{Room, SendResult, send_all}

-- `%d` of a number, on fuel, in front of `acc`
unfoldable pub digits : ℕ → ℕ → Bytes → Bytes
digits zero n acc = acc
digits (suc fuel) n acc =
    let more = digits fuel (n / 10) ((b'0' + n % 10) ∷ acc) in
    if ltb n 10 then (b'0' + n % 10) ∷ acc else more

unfoldable pub decimal : ℕ → Bytes
decimal n = digits (suc n) n []

abbrev pub crlf : Bytes
crlf = 13 ∷ 10 ∷ []

-- The end of every head: `Content-Length: %d`, and what follows.
unfoldable pub content_length_line : ℕ → Bytes → Bytes
content_length_line n more = codes "Content-Length: " ++ (decimal n ++ (crlf ++ more))

unfoldable pub ocsp_header : ℕ → Bytes
ocsp_header body_sz =
    codes "HTTP/1.0 200 OK"
    ++ (crlf
        ++ (codes "Content-Type: application/ocsp-response"
            ++ (crlf ++ content_length_line body_sz (codes "Connection: close" ++ (crlf ++ crlf)))))

unfoldable pub error_text : ℕ → Bytes → Bytes
error_text status_code status_msg =
    codes "HTTP/1.0 "
    ++ (decimal status_code
        ++ (b' '
            ∷ (status_msg
                ++ (crlf
                    ++ (codes "Content-Type: text/plain"
                        ++ (crlf
                            ++ content_length_line (length status_msg)
                                (codes "Connection: close" ++ (crlf ++ (crlf ++ status_msg)))))))))

unfoldable pub scgi_header : ℕ → Bytes → Bytes → ℕ → Bytes
scgi_header status_code status_text content_type body_len =
    codes "Status: "
    ++ (decimal status_code
        ++ (b' '
            ∷ (status_text
                ++ (crlf
                    ++ (codes "Content-Type: "
                        ++ (content_type ++ (crlf ++ content_length_line body_len crlf)))))))

-- Nothing is sent of a head that `snprintf` could not write into 512 bytes.
unfoldable pub send_text : List Room → Bytes → SendResult
send_text rooms text =
    if leb 512 (length text)
    then record { complete = false; wire = []; rooms = rooms }
    else send_all rooms text

-- a body, if there is one, behind a head that went out
unfoldable pub send_body : SendResult → Bytes → SendResult
send_body head [] = head
send_body head (b ∷ body) =
    let rest = send_all head.rooms (b ∷ body) in
    if head.complete
    then record { complete = rest.complete; wire = head.wire ++ rest.wire; rooms = rest.rooms }
    else head

-- `wolfCLU_HttpServerSendOcspResponse`
unfoldable pub http_send_ocsp_response : List Room → Bytes → SendResult
http_send_ocsp_response rooms body = send_body (send_text rooms (ocsp_header (length body))) body

-- `wolfCLU_HttpServerSendError`
unfoldable pub http_send_error : List Room → ℕ → Bytes → SendResult
http_send_error rooms status_code status_msg = send_text rooms (error_text status_code status_msg)

-- `wolfCLU_ScgiSendResponse`, for a body that is not NULL
unfoldable pub scgi_send_response : List Room → ℕ → Bytes → Bytes → Bytes → SendResult
scgi_send_response rooms status_code status_text content_type body =
    send_body (send_text rooms (scgi_header status_code status_text content_type (length body)))
      body

-- `wolfCLU_ScgiSendError`
unfoldable pub scgi_send_error : List Room → ℕ → Bytes → SendResult
scgi_send_error rooms status_code status_text =
    scgi_send_response rooms status_code status_text (codes "text/plain") status_text
