-- ===== src/Net/Socket/Sent.antt =====
-- What `wolfCLU_SendAll` puts on the wire.
use mathlib.Core.List.{cons-ne-nil}
use wolf_clu.Base.{
  ◌≢◌, zero, suc, Bool, true, false, List, [], ◌∷◌, ◌++◌, ◌≡◌, refl, ◌∙◌, take, drop,
  take-append-drop, append_assoc,
}
use wolf_clu.Text.{Bytes}
use wolf_clu.Net.Socket.{Room, room, signal, refused, SendResult, send_loop, send_all}

-- The whole of the buffer, or all but a rest that is not empty.
abbrev pub Remains : Bool → Bytes → Type 0
Remains true rest = rest ≡ []
Remains false rest = rest ≢ []

-- The wire carries `sent`, and a first part of `buf` behind it.
abbrev pub Sends : Bytes → Bytes → SendResult → Type 0
Sends sent buf r = (rest : Bytes) × (sent ++ buf ≡ r.wire ++ rest) × Remains r.complete rest

send_loop-Sends : (rooms : List Room) (buf sent : Bytes) → Sends sent buf (send_loop rooms buf sent)
unfolding send_loop
send_loop-Sends rooms [] sent = ([], refl, refl)
send_loop-Sends [] (b ∷ buf) sent = (b ∷ buf, refl, cons-ne-nil b buf)
send_loop-Sends (signal ∷ rooms) (b ∷ buf) sent = send_loop-Sends rooms (b ∷ buf) sent
send_loop-Sends (refused ∷ rooms) (b ∷ buf) sent = (b ∷ buf, refl, cons-ne-nil b buf)
send_loop-Sends (room zero ∷ rooms) (b ∷ buf) sent = (b ∷ buf, refl, cons-ne-nil b buf)
send_loop-Sends (room (suc n) ∷ rooms) (b ∷ buf) sent =
    let (rest, e, r) = send_loop-Sends rooms (drop n buf) (sent ++ (b ∷ take n buf)) in
    (rest, split ∙ e, r)
  where
    split : sent ++ (b ∷ buf) ≡ (sent ++ (b ∷ take n buf)) ++ drop n buf
    split = rw (append_assoc sent (b ∷ take n buf) (drop n buf), take-append-drop n buf)

-- `wolfCLU_SendAll` reports success exactly if the whole buffer went out, and in every case the
-- wire carries the bytes of the buffer in order, none twice and none left out in between.
pub send_all-Sends : (rooms : List Room) (buf : Bytes) → Sends [] buf (send_all rooms buf)
unfolding send_all
send_all-Sends rooms buf = send_loop-Sends rooms buf []
