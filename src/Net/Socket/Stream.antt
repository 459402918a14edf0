-- ===== src/Net/Socket/Stream.antt =====
-- src/tools/clu_scgi.c, `readExactly`: the packets of a connection as a stream of bytes.
use wolf_clu.Base.{
  ℕ, zero, suc, ◌+◌, ◌-◌, ◌≤◌, ◌<◌, [], ◌∷◌, ◌++◌, leb, ◌≡◌, refl, inl, inr, arith, length, take,
  drop, take-append-drop, length-take, length-drop, length-append, append_assoc, Bool-cases,
}
use wolf_clu.Text.{Bytes}
use wolf_clu.Net.Socket.{
  Conn, packet, interrupted, failed, RecvResult, received, recv_error, recv, recv_packet,
  ReadResult, all_read, read_failed, out_of_fuel, read_loop, read_exactly,
}

-- The bytes that arrive before the end of the connection or an error.
abbrev pub stream : Conn → Bytes
stream [] = []
stream (interrupted ∷ c) = stream c
stream (failed ∷ c) = []
stream (packet [] ∷ c) = []
stream (packet (b ∷ bs) ∷ c) = (b ∷ bs) ++ stream c

-- A call that asks for a byte at least gives a first part of the stream, or nothing at its end.
pub data Arrives (len : ℕ) (c : Conn) (r : RecvResult) : Type 0 where
  over : (c' : Conn) → r ≡ received [] c' → stream c ≡ [] → Arrives len c r
  broken : (c' : Conn) → r ≡ recv_error c' → stream c ≡ [] → Arrives len c r
  got :
      (b : ℕ) (bs : Bytes) (c' : Conn)
      → r ≡ received (b ∷ bs) c'
      → length (b ∷ bs) ≤ len
      → stream c ≡ (b ∷ bs) ++ stream c'
      → Arrives len c r

stream-packet : (bs : Bytes) (c : Conn) → 0 < length bs → stream (packet bs ∷ c) ≡ bs ++ stream c
stream-packet [] c h = elim h [ ]
stream-packet (b ∷ bs) c h = refl

recv_packet-Arrives :
    (n b : ℕ) (bs : Bytes) (c : Conn)
    → Arrives (suc n) (packet (b ∷ bs) ∷ c) (recv_packet (suc n) (b ∷ bs) c)
unfolding recv_packet
recv_packet-Arrives n b bs c = elim (Bool-cases (leb (length (b ∷ bs)) (suc n))) [
  | inl fits ↦ got b bs c (rw fits) (ground arith) refl
  | inr longer ↦
      let more : n < length bs = ground arith in
      got b (take n bs) (packet (drop n bs) ∷ c) (rw longer) (omega (arith, length-take {0} n bs))
        (rest more)
]
  where
    rest : n < length bs → b ∷ (bs ++ stream c) ≡ b ∷ (take n bs ++ stream (packet (drop n bs) ∷ c))
    rest more = rw (
      stream-packet (drop n bs) c (omega (arith, length-drop {0} n bs)),
      ← append_assoc (take n bs) (drop n bs) (stream c),
      take-append-drop n bs,
    )

pub recv-Arrives : (n : ℕ) (c : Conn) → Arrives (suc n) c (recv (suc n) c)
unfolding recv
recv-Arrives n [] = over [] refl refl
recv-Arrives n (interrupted ∷ c) = elim (recv-Arrives n c) [
  | over c' e s ↦ over c' e s
  | broken c' e s ↦ broken c' e s
  | got b bs c' e l s ↦ got b bs c' e l s
]
recv-Arrives n (failed ∷ c) = broken c refl refl
recv-Arrives n (packet [] ∷ c) = over c (unfold recv_packet in ground arith) refl
recv-Arrives n (packet (b ∷ bs) ∷ c) = elim (recv_packet-Arrives n b bs c) [
  | over c' e s ↦ over c' e s
  | broken c' e s ↦ broken c' e s
  | got x xs c' e l s ↦ got x xs c' e l s
]

-- Reading `n` bytes: the first `n` bytes of the stream, with the rest of it left in the
-- connection, or a failure because the stream is shorter. Running out of fuel is neither.
abbrev pub ReadsExactly : ℕ → Bytes → ReadResult → Type 0
ReadsExactly n s (all_read bs c) = (length bs ≡ n) × (s ≡ bs ++ stream c)
ReadsExactly n s read_failed = length s < n
ReadsExactly n s out_of_fuel = ⊥

read_loop-ReadsExactly :
    (fuel left : ℕ) (buffer : Bytes) (c : Conn)
    → left ≤ fuel
    → ReadsExactly (length buffer + left) (buffer ++ stream c) (read_loop fuel left buffer c)
unfolding read_loop
read_loop-ReadsExactly fuel zero buffer c h = (omega arith, refl)
read_loop-ReadsExactly zero (suc left) buffer c h = elim h [ ]
read_loop-ReadsExactly (suc fuel) (suc left) buffer c h = elim (recv-Arrives left c) [
  | over c' e s ↦ rw (e, read_loop) (rw s (omega (arith, length-append {0} buffer [])))
  | broken c' e s ↦ rw (e, read_loop) (rw s (omega (arith, length-append {0} buffer [])))
  | got b bs c' e l s ↦
      let left' = suc left - length (b ∷ bs) in
      let total : length buffer + suc left ≡ length (buffer ++ (b ∷ bs)) + left' =
        omega (arith, length-append {0} buffer (b ∷ bs)) in
      let ih = read_loop-ReadsExactly fuel left' (buffer ++ (b ∷ bs)) c' (omega arith) in
      rw (e, read_loop) (rw (s, ← append_assoc buffer (b ∷ bs) (stream c'), total) ih)
]

-- `readExactly` of a positive or zero number of bytes returns: with exactly that many bytes, the
-- next of the stream, in order, and the rest of the stream still to be read; or with -1, and then
-- fewer bytes arrive before the end or an error. Packets and signals make no difference.
pub read_exactly-ReadsExactly : (n : ℕ) (c : Conn) → ReadsExactly n (stream c) (read_exactly n c)
unfolding read_exactly
read_exactly-ReadsExactly n c =
    let total : n ≡ 0 + n = omega arith in
    rw (← total) at (read_loop-ReadsExactly n n [] c (omega arith))
