-- ===== src/Net/Scgi.antt =====
-- src/tools/clu_scgi.c: reading an SCGI request and sending a response. The buffer is the bytes
-- that were stored in it; its capacity `buffer_sz` is a number of its own.
pub mod Headers
pub mod Request
use wolf_clu.Base.{
  ℕ, zero, suc, ◌+◌, Bool, true, false, not, ◌&&◌, ◌||◌, List, [], ◌∷◌, ◌++◌, Option, none, some,
  ◌==◌, ltb, leb, if◌then◌else◌, length, ℤ, pos, negsuc, ltb_ℤ,
}
use wolf_clu.Text.{Bytes, codes, bytes_eq, atoi, before}
use wolf_clu.Net.Socket.{
  Conn, received, recv_error, recv, ReadResult, all_read, read_failed, out_of_fuel, read_exactly,
}

-- `parseNetstringLength`: the number and the connection behind the colon, or -1.
pub data LengthResult : Type 0 where
  length_is : ℕ → Conn → LengthResult
  bad_length : LengthResult

-- what the loop does at a colon with `lenBuf`
unfoldable pub accept_length : ℤ → Conn → LengthResult
accept_length (pos n) c = length_is n c
accept_length (negsuc n) c = bad_length

-- The loop with `room = sizeof(lenBuf) - 1 - i`, and the bytes in `lenBuf`.
unfoldable pub length_loop : ℕ → Bytes → Conn → LengthResult
length_loop zero buf c = bad_length
length_loop (suc room) buf c = elim (recv 1 c) [
  | recv_error c' ↦ bad_length
  | received [] c' ↦ bad_length
  | received (b ∷ bs) c' ↦
      let more = length_loop room (buf ++ b ∷ []) c' in
      if b == b':' then accept_length (atoi buf) c' else more
]

unfoldable pub parse_netstring_length : Conn → LengthResult
parse_netstring_length c = length_loop 15 [] c

-- `ScgiRequest`. A pointer into the buffer is the bytes that it refers to.
pub record ScgiRequest : Type 0 where
  pub body : Option Bytes
  pub body_len : ℕ
  pub content_length : ℤ
  pub request_method : Option Bytes
  pub request_uri : Option Bytes

-- `memchr(p, '\0', n)`: the bytes in front of the first NUL, and those behind it
unfoldable pub cut_nul : Bytes → Option (Bytes × Bytes)
cut_nul [] = none
cut_nul (b ∷ s) =
    if b == 0
    then some ([], s)
    else elim (cut_nul s) [ none ↦ none | some (key, rest) ↦ some (b ∷ key, rest) ]

-- the chain of `XSTRCMP(key, …)`
unfoldable pub set_header : Bytes → Bytes → ScgiRequest → ScgiRequest
set_header key value req =
    if bytes_eq key (codes "CONTENT_LENGTH")
    then record req { content_length = atoi value }
    else if bytes_eq key (codes "REQUEST_METHOD")
    then record req { request_method = some value }
    else if bytes_eq key (codes "REQUEST_URI")
    then record req { request_uri = some value }
    else req

-- One round of the loop of `parseHeaders` on the bytes that are left: `none` is a `break`, else
-- the pair that was read and the bytes behind it.
unfoldable pub next_pair : Bytes → Option (Bytes × Bytes × Bytes)
next_pair headers = elim (cut_nul headers) [
  | none ↦ none
  | some (key, rest) ↦ elim rest [
    | [] ↦ none
    | b ∷ more ↦ elim (cut_nul (b ∷ more)) [
      | none ↦ none
      | some (value, rest') ↦ some (key, value, rest')
    ]
  ]
]

-- The loop of `parseHeaders` on fuel; `none` means that the fuel ran out.
unfoldable pub header_loop : ℕ → Bytes → ScgiRequest → Option ScgiRequest
header_loop fuel [] req = some req
header_loop zero (b ∷ headers) req = none
header_loop (suc fuel) (b ∷ headers) req = elim (next_pair (b ∷ headers)) [
  | none ↦ some req
  | some (key, value, rest) ↦ header_loop fuel rest (set_header key value req)
]

-- the request as `parseHeaders` sets it up
abbrev pub no_headers : ScgiRequest
no_headers = record {
  body = none;
  body_len = 0;
  content_length = negsuc 0;
  request_method = none;
  request_uri = none;
}

unfoldable pub parse_headers : Bytes → Option ScgiRequest
parse_headers headers = header_loop (length headers) headers no_headers

pub data ScgiResult : Type 0 where
  request : ScgiRequest → Conn → ScgiResult
  scgi_error scgi_out_of_fuel : ScgiResult

-- "if (req->contentLength > 0)": the body
unfoldable pub read_body : ScgiRequest → ℕ → Conn → ScgiResult
read_body req zero c = request (record req { body = none; body_len = 0 }) c
read_body req (suc n) c = elim (read_exactly (suc n) c) [
  | all_read body c' ↦ request (record req { body = some body; body_len = suc n }) c'
  | read_failed ↦ scgi_error
  | out_of_fuel ↦ scgi_out_of_fuel
]

-- the test of the content length against the room behind the headers
unfoldable pub check_content : ℕ → ℕ → ScgiRequest → ℤ → Conn → ScgiResult
check_content buffer_sz used req (negsuc n) c = scgi_error
check_content buffer_sz used req (pos n) c =
    if ltb buffer_sz (used + n) then scgi_error else read_body req n c

unfoldable pub after_headers : ℕ → ℕ → Option ScgiRequest → Conn → ScgiResult
after_headers buffer_sz used none c = scgi_out_of_fuel
after_headers buffer_sz used (some req) c = check_content buffer_sz used req req.content_length c

-- the byte behind the headers must be a comma
unfoldable pub after_netstring : ℕ → Bytes → Conn → ScgiResult
after_netstring buffer_sz headers c = elim (read_exactly 1 c) [
  | all_read comma c' ↦
      if bytes_eq comma (codes ",")
      then after_headers buffer_sz (length headers) (parse_headers headers) c'
      else scgi_error
  | read_failed ↦ scgi_error
  | out_of_fuel ↦ scgi_out_of_fuel
]

-- from the length on
unfoldable pub after_length : ℕ → LengthResult → ScgiResult
after_length buffer_sz bad_length = scgi_error
after_length buffer_sz (length_is n c) =
    if n == 0 || leb buffer_sz n then scgi_error else elim (read_exactly n c) [
      | all_read headers c' ↦ after_netstring buffer_sz headers c'
      | read_failed ↦ scgi_error
      | out_of_fuel ↦ scgi_out_of_fuel
    ]

-- `wolfCLU_ScgiReadRequest`, for pointers that are not NULL
unfoldable pub scgi_read_request : ℕ → Conn → ScgiResult
scgi_read_request buffer_sz c =
    if buffer_sz == 0 then scgi_error else after_length buffer_sz (parse_netstring_length c)
