-- ===== src/Hex.antt =====
-- src/tools/clu_hex_to_bin.c. `Base16_Decode` of wolfSSL is a parameter.
use wolf_clu.Base.{ℕ, ◌/◌, Bool, ◌&&◌, ◌||◌, List, [], ◌∷◌, leb, if◌then◌else◌, length}
use wolf_clu.Base.Result.{memory_e, Result, ok, err}
use wolf_clu.Text.{Bytes}

-- `wolfCLU_isHexDigit`
unfoldable pub is_hex_digit : ℕ → Bool
is_hex_digit c =
    (leb b'0' c && leb c b'9') || ((leb b'a' c && leb c b'f') || (leb b'A' c && leb c b'F'))

-- The arguments of `wolfCLU_hexToBin` that are not NULL, each a text; the buffers it fills, or an
-- error, and then all of them are freed. `malloc` says of each request whether it is granted.
module _ (base16_decode : Bytes → ℕ → Result Bytes) (malloc : ℕ → Bool) where
  unfoldable pub hex_to_bin : List Bytes → Result (List Bytes)
  hex_to_bin [] = ok []
  hex_to_bin (h ∷ hs) =
      let rest = hex_to_bin hs in
      if malloc (length h / 2)
      then elim (base16_decode h (length h / 2)) [
        | err e ↦ err e
        | ok b ↦ elim rest [ err e ↦ err e | ok bs ↦ ok (b ∷ bs) ]
      ]
      else err memory_e
