-- ===== src/Net/Http.antt =====
-- src/tools/clu_http.c: receiving an HTTP request and finding its body. The buffer is the bytes
-- that were stored in it, with the NUL behind them left out; a pointer into it is the bytes from
-- there to the end of what was stored.
pub mod Body
pub mod Received
pub mod RoundTrip
use wolf_clu.Base.{
  ℕ, zero, suc, ◌+◌, ◌-◌, Bool, true, false, not, ◌&&◌, List, [], ◌∷◌, ◌++◌, Option, none, some,
  ◌==◌, ltb, leb, if◌then◌else◌, length, take, drop, ℤ, pos, negsuc,
}
use wolf_clu.Text.{Bytes, codes, starts_with, strncmp_eq, atoi}
use wolf_clu.Net.Socket.{Conn, received, recv_error, recv}

-- `strstr(s, p)` in a buffer, for a `p` that is not empty and has no NUL: the search ends at the
-- first NUL, the pointer sees the whole buffer.
unfoldable pub find : Bytes → Bytes → Option Bytes
find p [] = none
find p (c ∷ s) = if starts_with (c ∷ s) p then some (c ∷ s) else if c == 0 then none else find p s

abbrev pub end_of_headers : Bytes
end_of_headers = 13 ∷ 10 ∷ 13 ∷ 10 ∷ []

unfoldable pub find_content_length : Bytes → Option Bytes
find_content_length s = elim (find (codes "Content-Length:") s) [
  | some cl ↦ some cl
  | none ↦ find (codes "content-length:") s
]

-- `headerSz` and `contentLen`
pub record Progress : Type 0 where
  pub header_sz : ℕ
  pub content_len : ℕ

-- a negative length is 0, and a length is at most the room behind the headers
unfoldable pub clamp : ℤ → ℕ → ℕ
clamp (negsuc n) space = 0
clamp (pos n) space = if ltb space n then space else n

-- "Once we find end-of-headers, parse Content-Length", with `cap = bufferSz - 1`
unfoldable pub scan_headers : ℕ → Bytes → Progress → Progress
scan_headers cap buffer st =
    if st.header_sz == 0
    then elim (find end_of_headers buffer) [
      | none ↦ st
      | some hdr_end ↦
          let header_sz = length buffer - length hdr_end + 4 in
          record {
            header_sz = header_sz;
            content_len = elim (find_content_length buffer) [
              | none ↦ st.content_len
              | some cl ↦ clamp (atoi (drop 15 cl)) (cap - header_sz)
            ];
          }
    ]
    else st

-- "Check for the full body"
unfoldable pub is_full : Bytes → Progress → Bool
is_full buffer st = ltb 0 st.header_sz && leb (st.content_len + st.header_sz) (length buffer)

pub data HttpRead : Type 0 where
  http_read : Bytes → Conn → HttpRead
  http_out_of_fuel : HttpRead

-- The loop of `wolfCLU_HttpServerRecv` with `left = bufferSz - 1 - totalLen`.
unfoldable pub http_loop : ℕ → ℕ → ℕ → Bytes → Progress → Conn → HttpRead
http_loop fuel cap zero buffer st c = http_read buffer c
http_loop zero cap (suc left) buffer st c = http_out_of_fuel
http_loop (suc fuel) cap (suc left) buffer st c = elim (recv (suc left) c) [
  | recv_error c' ↦ http_read buffer c'
  | received [] c' ↦ http_read buffer c'
  | received (b ∷ bs) c' ↦
      let buffer' = buffer ++ (b ∷ bs) in
      let st' = scan_headers cap buffer' st in
      let rest = http_loop fuel cap (suc left - length (b ∷ bs)) buffer' st' c' in
      if is_full buffer' st' then http_read buffer' c' else rest
]

-- `wolfCLU_HttpServerRecv`
unfoldable pub http_server_recv : ℕ → Conn → HttpRead
http_server_recv buffer_sz c =
    http_loop (buffer_sz - 1) (buffer_sz - 1) (buffer_sz - 1) []
      (record { header_sz = 0; content_len = 0 }) c

-- The body behind the headers that start at `s`: `n` bytes, or all that is there if `n` is 0.
unfoldable pub body_from : Bytes → ℕ → Option Bytes
body_from s n = elim (find end_of_headers s) [
  | none ↦ none
  | some t ↦
      if n == 0
      then some (drop 4 t)
      else if ltb (length (drop 4 t)) n
      then none
      else some (take n (drop 4 t))
]

-- from the content length on: it must be positive
unfoldable pub body_of_length : Bytes → ℤ → Option Bytes
body_of_length cl (negsuc n) = none
body_of_length cl (pos zero) = none
body_of_length cl (pos (suc n)) = body_from cl (suc n)

-- `wolfCLU_HttpServerParseRequest`: the body, or -1
unfoldable pub parse_request : Bytes → Option Bytes
parse_request req =
    if ltb (length req) 5
    then none
    else if not (strncmp_eq 5 req (codes "POST "))
    then none
    else elim (find_content_length req) [
      | none ↦ body_from req 0
      | some cl ↦ body_of_length cl (atoi (drop 15 cl))
    ]
