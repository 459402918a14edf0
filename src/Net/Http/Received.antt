-- ===== src/Net/Http/Received.antt =====
-- What `wolfCLU_HttpServerRecv` leaves in the buffer.
use wolf_clu.Base.{
  ℕ, zero, suc, ◌+◌, ◌-◌, ◌≤◌, true, [], ◌∷◌, ◌++◌, some, ◌==◌, ◌≡◌, refl, sym, ap, ◌∙◌, ◌⊎◌, inl,
  inr, arith, length, length-append, append_assoc, append-nil, Bool-cases, Option-cases,
}
use wolf_clu.Text.{Bytes, starts_with}
use wolf_clu.Text.Laws.{starts_with-split}
use wolf_clu.Net.Socket.{Conn}
use wolf_clu.Net.Socket.Stream.{stream, over, broken, got, recv-Arrives}
use wolf_clu.Net.Http.{
  find, end_of_headers, Progress, scan_headers, is_full, HttpRead, http_read, http_out_of_fuel,
  http_loop, http_server_recv,
}

-- A buffer with the blank line that ends the headers.
abbrev pub HasHeaders : Bytes → Type 0
HasHeaders buf = (head : Bytes) × (body : Bytes) × (buf ≡ head ++ (end_of_headers ++ body))

-- Why the loop stopped: the buffer is full, the peer sent no more, or the headers are complete.
-- Where the peer may send more, the rest of the stream is still to be read.
pub data Stops (cap : ℕ) (s buf : Bytes) (c : Conn) : Type 0 where
  is_at_cap : length buf ≡ cap → s ≡ buf ++ stream c → Stops cap s buf c
  is_at_end : s ≡ buf → Stops cap s buf c
  has_headers : HasHeaders buf → s ≡ buf ++ stream c → Stops cap s buf c

abbrev pub Receives : ℕ → Bytes → HttpRead → Type 0
Receives cap s (http_read buf c) = (length buf ≤ cap) × Stops cap s buf c
Receives cap s http_out_of_fuel = ⊥

pub find-split :
    (p s : Bytes) {t : Bytes}
    → find p s ≡ some t
    → (front : Bytes) × (rest : Bytes) × (s ≡ front ++ t) × (t ≡ p ++ rest)
unfolding find
find-split p [] h = absurd (ground (arith, h))
find-split p (x ∷ s) {t} h = elim (Bool-cases (starts_with (x ∷ s) p)) [
  | inl here ↦
      let e : x ∷ s ≡ t = ground (arith, here, h) in
      let (rest, split) = starts_with-split (x ∷ s) p here in ([], rest, e, sym e ∙ split)
  | inr later ↦
      let h' : find p s ≡ some t = ground (arith, later, h) in
      let (front, rest, e, e') = find-split p s h' in (x ∷ front, rest, ap (◌∷◌ x) e, e')
]

HasHeaders-append : (buf more : Bytes) → HasHeaders buf → HasHeaders (buf ++ more)
HasHeaders-append buf more (head, body, e) =
    (head, body ++ more, rw (e, append_assoc head (end_of_headers ++ body) more))

-- `headerSz` is positive only when the headers are complete
abbrev Inv : Bytes → Progress → Type 0
Inv buf st = (st.header_sz ≡ 0) ⊎ HasHeaders buf

scan_headers-Inv :
    (cap : ℕ) (buf : Bytes) (st : Progress) → Inv buf st → Inv buf (scan_headers cap buf st)
unfolding scan_headers
scan_headers-Inv cap buf st inv = elim (Bool-cases (st.header_sz == 0)) [
  | inr found ↦ rw found inv
  | inl first ↦ elim (Option-cases (find end_of_headers buf)) [
    | inl e ↦ rw (first, e) inv
    | inr (t, e) ↦
        let (front, rest, split, t_split) = find-split end_of_headers buf e in
        inr (front, rest, split ∙ ap (λ x. front ++ x) t_split)
  ]
]

is_full-HasHeaders :
    (buf : Bytes) (st : Progress) → Inv buf st → is_full buf st ≡ true → HasHeaders buf
unfolding is_full
is_full-HasHeaders buf st (inl none_yet) full = absurd (ground (arith, none_yet, full))
is_full-HasHeaders buf st (inr h) full = h

http_loop-Receives :
    (fuel cap left : ℕ) (buf : Bytes) (st : Progress) (c : Conn)
    → left ≤ fuel
    → length buf + left ≡ cap
    → Inv buf st
    → Receives cap (buf ++ stream c) (http_loop fuel cap left buf st c)
unfolding http_loop
http_loop-Receives fuel cap zero buf st c h e inv = (omega arith, is_at_cap (omega arith) refl)
http_loop-Receives zero cap (suc left) buf st c h e inv = elim h [ ]
http_loop-Receives (suc fuel) cap (suc left) buf st c h e inv = elim (recv-Arrives left c) [
  | over c' r s ↦ rw (r, http_loop) (omega arith, is_at_end (ap (λ x. buf ++ x) s ∙ append-nil buf))
  | broken c' r s ↦
      rw (r, http_loop) (omega arith, is_at_end (ap (λ x. buf ++ x) s ∙ append-nil buf))
  | got b bs c' r l s ↦
      let buf' = buf ++ (b ∷ bs) in
      let len = length-append {0} buf (b ∷ bs) in
      let inv' : Inv buf' (scan_headers cap buf' st) =
        scan_headers-Inv cap buf' st
          (elim inv [ inl z ↦ inl z | inr hs ↦ inr (HasHeaders-append buf (b ∷ bs) hs) ]) in
      let split : buf ++ stream c ≡ buf' ++ stream c' =
        ap (λ x. buf ++ x) s ∙ sym (append_assoc buf (b ∷ bs) (stream c')) in
      rw (r, http_loop)
        (rw split (elim (Bool-cases (is_full buf' (scan_headers cap buf' st))) [
          | inl full ↦
              rw full (omega (arith, len), has_headers (is_full-HasHeaders buf' _ inv' full) refl)
          | inr more ↦ rw more (
              http_loop-Receives fuel cap (suc left - length (b ∷ bs)) buf'
                (scan_headers cap buf' st) c' (omega arith) (omega (arith, len)) inv')
        ]))
]

-- `wolfCLU_HttpServerRecv` returns. The buffer then holds a first part of what the peer sends, in
-- order, and has room for the NUL behind it; and the loop stopped because it was full, because
-- the peer sent no more, or with complete headers in it.
pub http_server_recv-Receives :
    (buffer_sz : ℕ) (c : Conn) → Receives (buffer_sz - 1) (stream c) (http_server_recv buffer_sz c)
unfolding http_server_recv
http_server_recv-Receives buffer_sz c =
    http_loop-Receives (buffer_sz - 1) (buffer_sz - 1) (buffer_sz - 1) []
      (record { header_sz = 0; content_len = 0 }) c (omega arith) (omega arith) (inl refl)
