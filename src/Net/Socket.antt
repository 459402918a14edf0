-- ===== src/Net/Socket.antt =====
-- src/tools/clu_http.c, `wolfCLU_Recv` and `wolfCLU_SendAll`, and src/tools/clu_scgi.c,
-- `readExactly`. The peer and the kernel are a list of what the next calls of `recv` or `send` meet.
pub mod Stream
pub mod Sent
use wolf_clu.Base.{
  ℕ, zero, suc, ◌+◌, ◌-◌, Bool, true, false, List, [], ◌∷◌, ◌++◌, Option, none, some, ◌==◌, ltb,
  leb, if◌then◌else◌, length, take, drop,
}
use wolf_clu.Text.{Bytes}

-- What `recv` meets: bytes that have arrived, a signal (EINTR), or another error. An empty packet,
-- and the end of the list, is the end of the connection.
pub data Arrival : Type 0 where
  packet : Bytes → Arrival
  interrupted failed : Arrival

abbrev pub Conn : Type 0
Conn = List Arrival

-- The result of a call with the connection behind it: `ret` bytes, none of them at the end of the
-- connection, or -1.
pub data RecvResult : Type 0 where
  received : Bytes → Conn → RecvResult
  recv_error : Conn → RecvResult

-- One call of `recv` for `len` bytes at a packet: it takes what fits.
unfoldable pub recv_packet : ℕ → Bytes → Conn → RecvResult
recv_packet len bs c =
    if leb (length bs) len then received bs c else received (take len bs) (packet (drop len bs) ∷ c)

-- `wolfCLU_Recv`
unfoldable pub recv : ℕ → Conn → RecvResult
recv len [] = received [] []
recv len (interrupted ∷ c) = recv len c
recv len (failed ∷ c) = recv_error c
recv len (packet bs ∷ c) = recv_packet len bs c

pub data ReadResult : Type 0 where
  all_read : Bytes → Conn → ReadResult
  read_failed out_of_fuel : ReadResult

-- The loop of `readExactly`, with `left = n - totalRead` and the bytes in the buffer.
unfoldable pub read_loop : ℕ → ℕ → Bytes → Conn → ReadResult
read_loop fuel zero buffer c = all_read buffer c
read_loop zero (suc left) buffer c = out_of_fuel
read_loop (suc fuel) (suc left) buffer c = elim (recv (suc left) c) [
  | recv_error c' ↦ read_failed
  | received [] c' ↦ read_failed
  | received (b ∷ bs) c' ↦ read_loop fuel (suc left - length (b ∷ bs)) (buffer ++ (b ∷ bs)) c'
]

-- `readExactly`, with the bytes that are missing as the fuel
unfoldable pub read_exactly : ℕ → Conn → ReadResult
read_exactly n c = read_loop n n [] c

-- What `send` meets: room for some bytes, a signal, or another error.
pub data Room : Type 0 where
  room : ℕ → Room
  signal refused : Room

-- The result of `wolfCLU_SendAll` with the bytes that went out, all of them or -1, and what the
-- next call will meet.
pub record SendResult : Type 0 where
  pub complete : Bool
  pub wire : Bytes
  pub rooms : List Room

-- The loop of `wolfCLU_SendAll` on the bytes that are left; past the end of the list `send` fails.
unfoldable pub send_loop : List Room → Bytes → Bytes → SendResult
send_loop rooms [] wire = record { complete = true; wire = wire; rooms = rooms }
send_loop [] (b ∷ buf) wire = record { complete = false; wire = wire; rooms = [] }
send_loop (signal ∷ rooms) (b ∷ buf) wire = send_loop rooms (b ∷ buf) wire
send_loop (refused ∷ rooms) (b ∷ buf) wire = record { complete = false; wire = wire; rooms = rooms }
send_loop (room zero ∷ rooms) (b ∷ buf) wire = record {
  complete = false;
  wire = wire;
  rooms = rooms;
}
send_loop (room (suc n) ∷ rooms) (b ∷ buf) wire =
    send_loop rooms (drop (suc n) (b ∷ buf)) (wire ++ take (suc n) (b ∷ buf))

-- `wolfCLU_SendAll`
unfoldable pub send_all : List Room → Bytes → SendResult
send_all rooms buf = send_loop rooms buf []
