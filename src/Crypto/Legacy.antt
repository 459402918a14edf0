-- ===== src/Crypto/Legacy.antt =====
-- src/crypto/clu_encrypt.c and src/crypto/clu_decrypt.c, for Camellia, the cipher that EVP does not
-- have, and `wolfCLU_genKey_PWDBASED` of src/genkey/clu_genkey.c. Parameters, from wolfSSL: the cipher,
-- the derivation of a key and the random generator. Files are their bytes; they open, and reads, writes
-- and allocations succeed; the input and the output are two files. `inputHex` is 0 in every call.
pub mod Padded
pub mod Encrypted
pub mod Decrypted
pub mod RoundTrip
use wolf_clu.Base.{
  ℕ, zero, suc, ◌+◌, ◌-◌, ◌*◌, ◌/◌, ◌%◌, Bool, true, false, not, ◌&&◌, ◌||◌, List, [], ◌∷◌, ◌++◌,
  Option, none, some, ◌==◌, ltb, leb, if◌then◌else◌, length, take, drop,
}
use wolf_clu.Base.Result.{
  Result, ok, err, Err, fatal_error, encrypt_error, decrypt_error, fread_error, no_fuel, beyond_int,
}
use wolf_clu.Text.{Bytes, codes, strncmp_eq}
use wolf_clu.Crypto.{KeyType, keytype_none, keytype_password, keytype_user, salt_size}

-- `wc_CamelliaSetKey` with a key and an IV, and the encryption and decryption of one buffer in CBC mode
-- from the IV on
pub record Camellia : Type 0 where
  pub set_key : Bytes → Bytes → Bool
  pub cbc_encrypt : Bytes → Bytes → Bytes → Bytes
  pub cbc_decrypt : Bytes → Bytes → Bytes → Bytes

-- an `int` is below this
abbrev pub int_limit : ℕ
int_limit = 2147483648

-- `MAX_LEN`
abbrev pub max_len : ℕ
max_len = 1024

-- "pads the length until it matches a block": `padCounter`
unfoldable pub pad_loop : ℕ → ℕ → ℕ → ℕ → ℕ
pad_loop zero block len pad = pad
pad_loop (suc fuel) block len pad =
    let more = pad_loop fuel block (len + 1) (pad + 1) in if len % block == 0 then pad else more

-- `for (i = ret; i < ret + padCounter; i++) input[i] = padCounter;`
unfoldable pub pad_bytes : ℕ → ℕ → Bytes
pad_bytes zero pad = []
pad_bytes (suc n) pad = pad ∷ pad_bytes n pad

-- "set first value of salt to let us know if message has padding or not": `random` is what
-- `wc_RNG_GenerateBlock` puts in front of the last byte, which stays 0.
unfoldable pub mark_salt : ℕ → Bytes → Bytes
mark_salt pad [] = []
mark_salt pad (c ∷ salt) = (if pad == 0 then 0 else if c == 0 then 1 else c) ∷ salt

abbrev pub zero_salt : Bytes
zero_salt = 0 ∷ 0 ∷ 0 ∷ 0 ∷ 0 ∷ 0 ∷ 0 ∷ 0 ∷ []

-- `for (i = 0; i < size; i++) if (key[i] == 0) continue; else keyVerify++;`
unfoldable pub is_key_set : Bytes → Bool
is_key_set [] = false
is_key_set (c ∷ key) = not (c == 0) || is_key_set key

-- what `output` holds last, and the byte before its end
unfoldable pub last_byte : Bytes → ℕ
last_byte [] = 0
last_byte (c ∷ []) = c
last_byte (c ∷ d ∷ s) = last_byte (d ∷ s)

-- "check padding", with what is left of the length
unfoldable pub strip_padding : ℕ → Bytes → ℕ → Bytes → Bytes → Result Bytes
strip_padding block [] len output out = ok (out ++ output)
strip_padding block (c ∷ salt) len output out =
    if c == 0
    then ok (out ++ output)
    else if ltb len (last_byte output + (salt_size + block))
    then err fatal_error
    else ok (out ++ take (len - (last_byte output + (salt_size + block))) output)

-- `lastLoopFlag`
unfoldable pub last_loop : ℕ → ℕ
last_loop payload = if ltb 0 (payload % max_len) then payload / max_len + 1 else payload / max_len

module _ (camellia : Camellia) (block : ℕ) where
  open camellia use {set_key, cbc_encrypt, cbc_decrypt}

  -- "loop, encrypt 1kB at a time till length <= 0": the rest of the file, what is left of the length,
  -- and what is written. `size` is in bits.
  unfoldable pub encrypt_loop : Bytes → ℕ → Bytes → Bytes → ℕ → ℕ → Bytes → ℕ → Bytes → Result Bytes
  encrypt_loop mode size key iv pad zero file len out = err no_fuel
  encrypt_loop mode size key iv pad (suc fuel) file zero out = ok out
  encrypt_loop mode size key iv pad (suc fuel) file (suc len) out =
      let got = take max_len file in
      let input = (if length got == max_len then got else got ++ pad_bytes pad pad) in
      elim (set_key (take (size / 8) key) iv && strncmp_eq 3 mode (codes "cbc")) [
        | true ↦
            encrypt_loop mode size key iv pad fuel (drop max_len file) (suc len - length input)
              (out ++ cbc_encrypt (take (size / 8) key) iv input)
        | false ↦ err fatal_error
      ]

  -- what is behind the opening of the output: the salt, the IV and the text
  unfoldable pub encrypt_with : Bytes → ℕ → Bytes → Bytes → Bytes → ℕ → Bytes → Result Bytes
  encrypt_with mode size salt key iv pad file =
      encrypt_loop mode size key iv pad (length file + pad + 1) file (length file + pad)
        (salt ++ iv)

  -- "reads from inFile and writes whatever is there": the loop with its number and that of the last
  unfoldable pub decrypt_loop :
      ℕ → Bytes → Bytes → Bytes → ℕ → ℕ → Bytes → ℕ → ℕ → Bytes → Result Bytes
  decrypt_loop size salt key iv last zero file len curr out = err no_fuel
  decrypt_loop size salt key iv last (suc fuel) [] len curr out = err fread_error
  decrypt_loop size salt key iv last (suc fuel) (c ∷ file) len curr out =
      let input = take max_len (c ∷ file) in
      let output = cbc_decrypt (take (size / 8) key) iv input in
      elim (set_key (take (size / 8) key) iv) [
        | false ↦ err fatal_error
        | true ↦ elim (curr == last) [
          | true ↦ strip_padding block salt len output out
          | false ↦
              decrypt_loop size salt key iv last fuel (drop max_len (c ∷ file)) (len - length input)
                (curr + 1) (out ++ output)
        ]
      ]

-- `pbkdf2` derives a key of so many bytes from a password and a salt, as `wc_PBKDF2` does.
module _ (pbkdf2 : Bytes → Bytes → ℕ → Option Bytes) where
  -- "replicates old pwdKey if pwdKeys match", or the test of the user's key, of which there are `size`
  -- bytes
  unfoldable pub decrypt_key : KeyType → ℕ → Bytes → Bytes → Bytes → Result Bytes
  decrypt_key keytype_password size password key salt = elim (pbkdf2 password salt size) [
    | none ↦ err encrypt_error
    | some key' ↦ ok key'
  ]
  decrypt_key keytype_user size password key salt =
      if is_key_set (take size key) then ok key else err encrypt_error
  decrypt_key keytype_none size password key salt = ok key

module _ (camellia : Camellia) (block : ℕ) (pbkdf2 : Bytes → Bytes → ℕ → Option Bytes) where
  -- `wolfCLU_encrypt` behind the length. The user's key and IV, or none for a password; what the random generator gives
  -- for the IV and for the salt; and the file.
  unfoldable pub encrypt_counted :
      Bytes
      → ℕ
      → Bytes
      → Option (Bytes × Bytes)
      → Option Bytes
      → Option Bytes
      → Bytes
      → Result Bytes
  encrypt_counted mode size password (some (key, iv)) random_iv random_salt file =
      encrypt_with camellia block mode size zero_salt key iv (pad_loop block block (length file) 0)
        file
  encrypt_counted mode size password none none random_salt file = err fatal_error
  encrypt_counted mode size password none (some iv) none file = err fatal_error
  encrypt_counted mode size password none (some iv) (some random) file =
      let pad = pad_loop block block (length file) 0 in
      let salt = mark_salt pad (random ++ 0 ∷ []) in
      elim (pbkdf2 password salt size) [
        | none ↦ err fatal_error
        | some key ↦ encrypt_with camellia block mode size salt key iv pad file
      ]

  -- `wolfCLU_decrypt` behind the length
  unfoldable pub decrypt_counted : KeyType → ℕ → Bytes → Bytes → Bytes → Result Bytes
  decrypt_counted key_type size password key file =
      let payload = length file - (salt_size + block) in
      let salt = take salt_size file in
      let rest = drop salt_size file in
      if leb (length file) (salt_size + block)
      then err decrypt_error
      else elim (decrypt_key pbkdf2 key_type size password key salt) [
        | err e ↦ err e
        | ok key' ↦
            decrypt_loop camellia block size salt key' (take block rest) (last_loop payload)
              (length file + 1) (drop block rest) (length file) 1 []
      ]

  -- `length = (int)XFTELL(inFile)`, and `length++` up to a whole block: the length stays below 2^31
  unfoldable pub encrypt :
      Bytes
      → ℕ
      → Bytes
      → Option (Bytes × Bytes)
      → Option Bytes
      → Option Bytes
      → Bytes
      → Result Bytes
  encrypt mode size password user random_iv random_salt file =
      if ltb (length file + block) int_limit
      then encrypt_counted mode size password user random_iv random_salt file
      else err beyond_int

  unfoldable pub decrypt : KeyType → ℕ → Bytes → Bytes → Bytes → Result Bytes
  decrypt key_type size password key file =
      if ltb (length file) int_limit
      then decrypt_counted key_type size password key file
      else err beyond_int

-- "file did not exist, encrypting string following "-i" instead": the file is then made with its own
-- name for a text
unfoldable pub legacy_input : Option Bytes → Bytes → Bytes
legacy_input none name = name
legacy_input (some file) name = file
