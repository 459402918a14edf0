-- ===== src/Tls/Client/Connect.antt =====
-- src/client/clu_client_setup.c, the argument of -connect.
use wolf_clu.Base.{
  ℕ, suc, ◌+◌, ◌-◌, ◌<◌, Bool, true, false, ◌||◌, [], ◌∷◌, ◌++◌, none, some, ◌==◌, leb, length,
  length-append, take, drop, ◌≡◌, refl, ap, ◌∙◌, arith,
}
use wolf_clu.Text.{Bytes, before}
use wolf_clu.Text.Lines.{lacks, lacks-append}
use wolf_clu.Text.Words.{before-append}
use wolf_clu.Tls.Client.{from_char, connect_parts}

from_char-lacks : (d : ℕ) (s : Bytes) → lacks d s ≡ true → from_char d s ≡ none
unfolding from_char
from_char-lacks d [] h = refl
from_char-lacks d (c ∷ s) h = rw (from_char-lacks d s (ground (arith, h))) (ground (arith, h))

take-length-append : (w s : Bytes) → take (length w) (w ++ s) ≡ w
take-length-append [] s = refl
take-length-append (c ∷ w) s = ap (◌∷◌ c) (take-length-append w s)

drop-length-append : (w s : Bytes) (c : ℕ) → drop (length w + 1) (w ++ c ∷ s) ≡ s
drop-length-append [] s c = refl
drop-length-append (d ∷ w) s c =
    let e : suc (length w) + 1 ≡ suc (length w + 1) = omega arith in rw e (drop-length-append w s c)

drop-two : (w s : Bytes) (c d : ℕ) → drop (length w + 2) (w ++ c ∷ d ∷ s) ≡ s
drop-two [] s c d = refl
drop-two (e ∷ w) s c d =
    let n : suc (length w) + 2 ≡ suc (length w + 2) = omega arith in rw n (drop-two w s c d)

lacks-colon : (w s : Bytes) → lacks b':' (w ++ b':' ∷ s) ≡ false
lacks-colon [] s = refl
lacks-colon (c ∷ w) s = ground (arith, lacks-colon w s)

-- The text "host:port" and the text "[address]:port".
pub data Address : Bytes → Bool → Bytes → Bytes → Type 0 where
  plain :
      (host port : Bytes)
      → lacks b':' host ≡ true
      → lacks b'[' (host ++ b':' ∷ port) ≡ true
      → Address (host ++ b':' ∷ port) false host port
  bracketed :
      (host port : Bytes)
      → 0 < length host
      → 0 < length port
      → lacks b']' host ≡ true
      → Address (b'[' ∷ host ++ b']' ∷ b':' ∷ port) true host port

connect_parts_plain :
    (host port : Bytes)
    → lacks b':' host ≡ true
    → lacks b'[' (host ++ b':' ∷ port) ≡ true
    → connect_parts (host ++ b':' ∷ port) ≡ some (false, host, port)
unfolding connect_parts
connect_parts_plain host port h k = rw (
  from_char-lacks b'[' (host ++ b':' ∷ port) k,
  connect_parts,
  lacks-colon host port,
  before-append b':' host port h,
  take-length-append host (b':' ∷ port),
  drop-length-append host port b':',
)

connect_parts_bracketed :
    (host port : Bytes)
    → 0 < length host
    → 0 < length port
    → lacks b']' host ≡ true
    → connect_parts (b'[' ∷ host ++ b']' ∷ b':' ∷ port) ≡ some (true, host, port)
unfolding connect_parts from_char before
connect_parts_bracketed host port p q h =
    let text = b'[' ∷ host ++ b']' ∷ b':' ∷ port in
    let n = length-append {0} host (b']' ∷ b':' ∷ port) in
    let colon : lacks b':' (host ++ b']' ∷ b':' ∷ port) ≡ false =
      lacks-append b':' host (b']' ∷ b':' ∷ port) ∙ ground arith in
    let idx : length (before b']' (host ++ b']' ∷ b':' ∷ port)) ≡ length host =
      ap length (before-append b']' host (b':' ∷ port) h) in
    let ok : (suc (length host) == suc (length (host ++ b']' ∷ b':' ∷ port))
          || (leb (suc (length (host ++ b']' ∷ b':' ∷ port))) (suc (length host) + 2)
              || lacks b':' text
              || leb (suc (length host) + 1) 2))
        ≡ false =
      ground (arith, n, colon, p, q) in
    let cut : suc (length host) - 1 ≡ length host = omega arith in
    let skip : suc (length host) + 2 ≡ suc (length host + 2) = omega arith in
    rw (
      idx,
      ok,
      cut,
      skip,
      take-length-append host (b']' ∷ b':' ∷ port),
      drop-two host port b']' b':',
    )

-- The argument "host:port" of -connect is cut into the host and the port, if neither has a '[' and the
-- host no ':'; and "[address]:port" into the address and the port, if neither is empty and the address
-- has no ']'.
pub connect_parts-Address :
    (text : Bytes) (bracket : Bool) (host port : Bytes)
    → Address text bracket host port
    → connect_parts text ≡ some (bracket, host, port)
connect_parts-Address _ _ _ _ (plain host port h k) = connect_parts_plain host port h k
connect_parts-Address _ _ _ _ (bracketed host port p q h) = connect_parts_bracketed host port p q h
