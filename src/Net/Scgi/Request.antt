-- ===== src/Net/Scgi/Request.antt =====
-- What `wolfCLU_ScgiReadRequest` returns.
use wolf_clu.Base.{
  ℕ, zero, suc, ◌+◌, ◌≤◌, ◌<◌, [], ◌∷◌, ◌++◌, Option, none, some, ◌≡◌, refl, sym, ap, ◌∙◌, arith,
  length, inl, inr, ◌⊎◌, Bool-cases, ◌==◌, ◌||◌, append_assoc, ℤ, pos, negsuc, leb, ltb,
}
use wolf_clu.Text.{Bytes, atoi, bytes_eq, codes}
use wolf_clu.Net.Socket.{Conn, ReadResult, all_read, read_failed, out_of_fuel, read_exactly}
use wolf_clu.Net.Socket.Stream.{stream, over, broken, got, recv-Arrives, read_exactly-ReadsExactly}
use wolf_clu.Net.Scgi.{
  LengthResult, length_is, bad_length, accept_length, length_loop, parse_netstring_length,
  ScgiRequest, ScgiResult, request, scgi_error, scgi_out_of_fuel, read_body, check_content,
  after_headers, after_netstring, after_length, scgi_read_request, parse_headers,
}
use wolf_clu.Net.Scgi.Headers.{parse_headers_no_body}
use wolf_clu.Text.Laws.{bytes_eq_iff}
use mathlib.Core.Path.{subst}

-- What was read of the stream `s` in front of what the connection `c` still gives.
abbrev IsBehind : Bytes → Bytes → Conn → Type 0
IsBehind s front c = s ≡ front ++ stream c

-- A body of `n` bytes that the stream `s` has behind `front`, and that the connection still follows; for
-- 0 bytes the pointer is NULL.
abbrev pub BodyIs : Bytes → Bytes → Conn → Option Bytes → ℕ → Type 0
BodyIs s front c none n = (n ≡ 0) × (s ≡ front ++ stream c)
BodyIs s front c (some body) n = (length body ≡ n) × (0 < n) × (s ≡ front ++ (body ++ stream c))

-- The stream begins with a number, a colon, as many bytes of headers as the number says, a comma, and the
-- body. Headers and body fit into the buffer together, the fields are those of the headers, and the body
-- is as long as they say.
abbrev pub Safe : ℕ → Bytes → ScgiResult → Type 0
Safe buffer_sz s (request req c) =
    (digits : Bytes) × (headers : Bytes) × (atoi digits ≡ pos (length headers))
    × (0 < length headers)
    × (length headers + req.body_len ≤ buffer_sz)
    × (parse_headers headers ≡ some (record req { body = none; body_len = 0 }))
    × (req.content_length ≡ pos req.body_len)
    × BodyIs s (digits ++ b':' ∷ (headers ++ b',' ∷ [])) c req.body req.body_len
Safe buffer_sz s scgi_error = Unit
Safe buffer_sz s scgi_out_of_fuel = ⊥

-- What a read gives, in each case.
read_cases :
    (n : ℕ) (c : Conn)
    → ((bs : Bytes) × (c' : Conn) × (read_exactly n c ≡ all_read bs c')
        × (length bs ≡ n)
        × (stream c ≡ bs ++ stream c'))
      ⊎ (read_exactly n c ≡ read_failed)
read_cases n c = go (read_exactly n c) refl
  where
    go :
        (r : ReadResult)
        → read_exactly n c ≡ r
        → ((bs : Bytes) × (c' : Conn) × (read_exactly n c ≡ all_read bs c')
            × (length bs ≡ n)
            × (stream c ≡ bs ++ stream c'))
          ⊎ (read_exactly n c ≡ read_failed)
    go (all_read bs c') e =
        let (l, split) = rw e at (read_exactly-ReadsExactly n c) in inl (bs, c', e, l, split)
    go read_failed e = inr e
    go out_of_fuel e = absurd (rw e at (read_exactly-ReadsExactly n c))

IsBehind-read :
    (s front bs : Bytes) (c c' : Conn)
    → IsBehind s front c
    → stream c ≡ bs ++ stream c'
    → IsBehind s (front ++ bs) c'
IsBehind-read s front bs c c' e split = rw (e, split, append_assoc front bs (stream c'))

module _ (buffer_sz : ℕ) (s digits headers : Bytes) (h : ScgiRequest)
    (parsed : parse_headers headers ≡ some h) (counted : atoi digits ≡ pos (length headers))
    (some_headers : 0 < length headers) (no_body : h ≡ record h { body = none; body_len = 0 }) where
  -- what was read in front of the body
  abbrev front : Bytes
  front = digits ++ b':' ∷ (headers ++ b',' ∷ [])

  read_body-Safe :
      (n : ℕ) (c : Conn)
      → length headers + n ≤ buffer_sz
      → h.content_length ≡ pos n
      → IsBehind s front c
      → Safe buffer_sz s (read_body h n c)
  unfolding read_body
  read_body-Safe zero c fits e at =
      (digits, headers, counted, some_headers, fits, parsed ∙ ap some no_body, e, (refl, at))
  read_body-Safe (suc n) c fits e at = elim (read_cases (suc n) c) [
    | inl (bs, c', r, l, split) ↦
        rw (r, read_body)
          (
            digits,
            headers,
            counted,
            some_headers,
            fits,
            parsed ∙ ap some no_body,
            e,
            (l, omega arith, at ∙ ap (λ x. front ++ x) split),
          )
    | inr r ↦ rw (r, read_body) tt
  ]

  check_content-Safe :
      (content : ℤ) (c : Conn)
      → h.content_length ≡ content
      → IsBehind s front c
      → Safe buffer_sz s (check_content buffer_sz (length headers) h content c)
  unfolding check_content
  check_content-Safe (negsuc n) c e at = tt
  check_content-Safe (pos n) c e at = elim (Bool-cases (ltb buffer_sz (length headers + n))) [
    | inl large ↦ rw large tt
    | inr fits ↦ rw fits (read_body-Safe n c (ground arith) e at)
  ]

after_netstring-Safe :
    (buffer_sz : ℕ) (s digits headers : Bytes) (c : Conn)
    → atoi digits ≡ pos (length headers)
    → 0 < length headers
    → IsBehind s (digits ++ b':' ∷ headers) c
    → Safe buffer_sz s (after_netstring buffer_sz headers c)
unfolding after_netstring after_headers
after_netstring-Safe buffer_sz s digits headers c n p at = elim (read_cases 1 c) [
  | inr r ↦ rw (r, after_netstring) tt
  | inl (comma, c', r, l, split) ↦ elim (Bool-cases (bytes_eq comma (codes ","))) [
    | inr other ↦ rw (r, after_netstring) (rw other tt)
    | inl is_comma ↦
        let (h, e, no_body) = parse_headers_no_body headers in
        let is : comma ≡ b',' ∷ [] = (bytes_eq_iff comma (codes ",")).0 is_comma in
        let behind : IsBehind s (digits ++ b':' ∷ (headers ++ b',' ∷ [])) c' =
          subst (λ x. IsBehind s (digits ++ b':' ∷ (headers ++ x)) c') is
            (IsBehind-read s (digits ++ b':' ∷ headers) comma c c' at split
              ∙ ap (λ x. x ++ stream c') (append_assoc digits (b':' ∷ headers) comma)) in
        rw (r, after_netstring)
          (rw is_comma (
            rw (e, after_headers)
              (check_content-Safe buffer_sz s digits headers h e n p no_body h.content_length c'
                refl behind)))
  ]
]

-- The number, and the colon behind it.
abbrev LengthBehind : Bytes → LengthResult → Type 0
LengthBehind s bad_length = Unit
LengthBehind s (length_is n c) =
    (digits : Bytes) × (atoi digits ≡ pos n) × IsBehind s (digits ++ b':' ∷ []) c

after_length-Safe :
    (buffer_sz : ℕ) (s : Bytes) (l : LengthResult)
    → LengthBehind s l
    → Safe buffer_sz s (after_length buffer_sz l)
unfolding after_length
after_length-Safe buffer_sz s bad_length at = tt
after_length-Safe buffer_sz s (length_is n c) (digits, counted, at) =
    elim (Bool-cases (n == 0 || leb buffer_sz n)) [
      | inl bad ↦ rw bad tt
      | inr good ↦ rw good (elim (read_cases n c) [
        | inr r ↦ rw (r, after_length) tt
        | inl (headers, c', r, l, split) ↦
            rw (r, after_length)
              (after_netstring-Safe buffer_sz s digits headers c' (counted ∙ ap pos (sym l))
                (ground (arith, l, good))
                (IsBehind-read s (digits ++ b':' ∷ []) headers c c' at split
                  ∙ ap (λ x. x ++ stream c') (append_assoc digits (b':' ∷ []) headers)))
      ])
    ]

accept_length-LengthBehind :
    (s digits : Bytes) (n : ℤ) (c : Conn)
    → atoi digits ≡ n
    → IsBehind s (digits ++ b':' ∷ []) c
    → LengthBehind s (accept_length n c)
unfolding accept_length
accept_length-LengthBehind s digits (pos n) c e at = (digits, e, at)
accept_length-LengthBehind s digits (negsuc n) c e at = tt

length_loop-LengthBehind :
    (room : ℕ) (s buf : Bytes) (c : Conn)
    → IsBehind s buf c
    → LengthBehind s (length_loop room buf c)
unfolding length_loop
length_loop-LengthBehind zero s buf c at = tt
length_loop-LengthBehind (suc room) s buf c at = elim (recv-Arrives 0 c) [
  | over c' r e ↦ rw (r, length_loop) tt
  | broken c' r e ↦ rw (r, length_loop) tt
  | got b (x ∷ xs) c' r l split ↦ absurd (omega (arith, l))
  | got b [] c' r l split ↦
      let at' = IsBehind-read s buf (b ∷ []) c c' at split in
      rw (r, length_loop)
        (elim (Bool-cases (b == b':')) [
          | inl colon ↦
              let is : b ≡ b':' = ground (arith, colon) in
              rw colon (
                accept_length-LengthBehind s buf (atoi buf) c' refl
                  (subst (λ x. IsBehind s (buf ++ x ∷ []) c') is at'))
          | inr other ↦ rw other (length_loop-LengthBehind room s (buf ++ b ∷ []) c' at')
        ])
]

-- Whatever arrives on the connection, `wolfCLU_ScgiReadRequest` returns. If it returns a request, then
-- the peer sent a number, a colon, as many bytes of headers, a comma and the body, and no more was read;
-- the headers, of one byte at least, and the body fit into the buffer one behind the other; the fields
-- are those that `parseHeaders` takes from the headers, and the body has the length of CONTENT_LENGTH.
-- The body pointer is NULL only for length 0.
pub scgi_read_request-Safe :
    (buffer_sz : ℕ) (c : Conn) → Safe buffer_sz (stream c) (scgi_read_request buffer_sz c)
unfolding scgi_read_request parse_netstring_length
scgi_read_request-Safe buffer_sz c = elim (Bool-cases (buffer_sz == 0)) [
  | inl empty ↦ rw empty tt
  | inr some_room ↦ rw some_room (
      after_length-Safe buffer_sz (stream c) (parse_netstring_length c)
        (length_loop-LengthBehind 15 (stream c) [] c refl))
]
