-- ===== src/Crypto/KeyFile.antt =====
-- src/crypto/clu_crypto_setup.c: keys in hexadecimal, `wolfCLU_loadHexKeyInto`, and in a file.
use wolf_clu.Base.{
  ℕ, ◌+◌, ◌*◌, ◌/◌, Bool, true, ◌&&◌, ◌||◌, [], ◌∷◌, Option, none, some, ◌==◌, if◌then◌else◌,
  length, take,
}
use wolf_clu.Base.Result.{fatal_error, memory_e, Result, ok, err}
use wolf_clu.Text.{Bytes}
use wolf_clu.Hex.{is_hex_digit, hex_to_bin}

-- the separators of a key file
unfoldable pub is_separator : ℕ → Bool
is_separator c = c == 13 || (c == 10 || (c == 32 || c == 9))

-- "Decide hex vs raw by inspecting every byte"
unfoldable pub is_hex : Bytes → Bool
is_hex [] = true
is_hex (c ∷ s) = (is_separator c || is_hex_digit c) && is_hex s

-- "Copy out hex characters, skipping any embedded whitespace"
unfoldable pub without_separators : Bytes → Bytes
without_separators [] = []
without_separators (c ∷ s) =
    if is_separator c then without_separators s else c ∷ without_separators s

module _ (base16_decode : Bytes → ℕ → Result Bytes) (malloc : ℕ → Bool) (key_size : ℕ) where
  -- `(keySize + 7) / 8`
  abbrev pub key_bytes : ℕ
  key_bytes = (key_size + 7) / 8

  -- `wolfCLU_loadHexKeyInto`: the key
  unfoldable pub load_hex_key : Bytes → Result Bytes
  load_hex_key hex =
      if length hex == key_bytes * 2
      then elim (hex_to_bin base16_decode malloc (hex ∷ [])) [
        | ok (b ∷ _) ↦ ok (take key_bytes b)
        | err memory_e ↦ err memory_e
        | _ ↦ err fatal_error
      ]
      else err fatal_error

  -- "Decide hex vs raw", on the bytes of a key file
  unfoldable pub load_key_file : Bytes → Result Bytes
  load_key_file file =
      if length file == 0
      then err fatal_error
      else if is_hex file
      then load_hex_key (without_separators file)
      else if length file == key_bytes
      then ok file
      else err fatal_error

  -- "case WOLFCLU_INKEY": the key in a file, which may not be readable
  unfoldable pub read_key : Option Bytes → Result Bytes
  read_key none = err fatal_error
  read_key (some file) = load_key_file file
