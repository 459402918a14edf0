-- ===== src/Crypto.antt =====
-- src/crypto/clu_evp_crypto.c, `wolfCLU_evp_crypto`. Parameters, from wolfSSL: the cipher (EVP), the
-- derivation of a key from a password, the random salt and base64. The input is the bytes of the
-- file, the output what is written; allocations and writes succeed. `hexIn` is NULL in every call.
pub mod Stream
pub mod RoundTrip
pub mod Options
pub mod KeyFile
pub mod Setup
pub mod Legacy
use wolf_clu.Base.{
  ℕ, zero, suc, ◌+◌, Bool, true, false, not, ◌&&◌, ◌||◌, List, [], ◌∷◌, ◌++◌, Option, none, some,
  ◌==◌, ltb, if◌then◌else◌, length, take, drop,
}
use wolf_clu.Base.Result.{Result, ok, err, fatal_error, memory_e, no_fuel}
use wolf_clu.Text.{Bytes, codes, bytes_eq}

-- An EVP cipher: `CipherInit` with key and IV, true for encryption, `CipherUpdate`, `CipherFinal`.
pub record Cipher : Type 1 where
  pub Context : Type 0
  pub init : Bool → Bytes → Bytes → Option Context
  pub update : Context → Bytes → Option (Context × Bytes)
  pub final : Context → Option Bytes

-- `WOLFCLU_KEYTYPE_…`
pub data KeyType : Type 0 where
  keytype_none keytype_password keytype_user : KeyType

-- The arguments that encryption and decryption share; `pbkdf2` is `pbkVersion == WOLFCLU_PBKDF2`.
pub record Settings : Type 0 where
  pub key_type : KeyType
  pub no_salt : Bool
  pub pbkdf2 : Bool
  pub is_base64 : Bool
  pub password : Bytes
  pub key : Bytes
  pub iv : Bytes

-- `WOLFCLU_MAX_BUFFER`
abbrev pub max_buffer : ℕ
max_buffer = 1024

-- `SALT_SIZE`
abbrev pub salt_size : ℕ
salt_size = 8

abbrev pub is_salted : Bytes
is_salted = codes "Salted__"

abbrev pub is_user : KeyType → Bool
is_user keytype_user = true
is_user _ = false

-- `noSalt`, which a key of the user's implies
abbrev pub unsalted : Settings → Bool
unsalted s = is_user s.key_type || s.no_salt

module _ (cipher : Cipher) where
  open cipher use {Context, init, update, final}

  -- "loop, encrypt 1kB at a time", and "flush out last block", with what is written so far
  unfoldable pub cipher_loop : ℕ → Context → Bytes → Bytes → Result Bytes
  cipher_loop zero ctx input out = err no_fuel
  cipher_loop (suc fuel) ctx [] out = elim (final ctx) [
    | none ↦ err fatal_error
    | some block ↦ ok (out ++ block)
  ]
  cipher_loop (suc fuel) ctx (c ∷ input) out = elim (update ctx (take max_buffer (c ∷ input))) [
    | none ↦ err fatal_error
    | some (ctx', block) ↦ cipher_loop fuel ctx' (drop max_buffer (c ∷ input)) (out ++ block)
  ]

  -- from `wolfSSL_EVP_CipherInit` on
  unfoldable pub run_cipher : Bool → Bytes → Bytes → Bytes → Bytes → Result Bytes
  run_cipher enc key iv input out = elim (init enc key iv) [
    | none ↦ err memory_e
    | some ctx ↦ cipher_loop (length input + 1) ctx input out
  ]

-- The salt of a file that is decrypted, and the rest of it. `stack` is what the array `s` holds
-- before the read, which fills as much of it as there is.
unfoldable pub read_salt : Bytes → Bytes → Result (Bytes × Bytes)
read_salt stack input =
    let s = take (length is_salted) input in
    let rest = drop (length is_salted) input in
    if length s == 0
    then err fatal_error
    else if not (bytes_eq (take (length is_salted) (s ++ drop (length s) stack)) is_salted)
    then err fatal_error
    else if length (take salt_size rest) == salt_size
    then ok (take salt_size rest, drop salt_size rest)
    else err fatal_error

-- `derive`, by PBKDF2 if the Boolean is true, gives a key and an IV from a salt, none for no salt,
-- and a password.
module _ (derive : Bool → Option Bytes → Bytes → Option (Bytes × Bytes)) where
  -- "stretches pwdKey"
  unfoldable pub keys : Settings → Bytes → Result (Bytes × Bytes)
  keys s salt =
      if is_user s.key_type
      then ok (s.key, s.iv)
      else elim (derive s.pbkdf2 (if s.no_salt then none else some salt) s.password) [
        | none ↦ err fatal_error
        | some k ↦ ok k
      ]

  module _ (cipher : Cipher) where
    -- `wolfCLU_evp_crypto` with `enc`, where `random` is what `wc_RNG_GenerateBlock` gives
    unfoldable pub encrypt_file : (Bytes → Bytes) → Settings → Option Bytes → Bytes → Result Bytes
    encrypt_file base64_encode s none file = err fatal_error
    encrypt_file base64_encode s (some salt) file = elim (keys s salt) [
      | err e ↦ err e
      | ok (key, iv) ↦
          elim (run_cipher cipher true key iv file (if unsalted s then [] else is_salted ++ salt)) [
            | err e ↦ err e
            | ok out ↦ ok (if s.is_base64 then base64_encode out else out)
          ]
    ]

    -- the part of a decryption behind the base64
    unfoldable pub decrypt_body : Settings → Bytes → Bytes → Result Bytes
    decrypt_body s stack input =
        elim (if unsalted s then ok ([], input) else read_salt stack input) [
          | err e ↦ err e
          | ok (salt, body) ↦ elim (keys s salt) [
            | err e ↦ err e
            | ok (key, iv) ↦ run_cipher cipher false key iv body []
          ]
        ]

    -- `wolfCLU_evp_crypto` without `enc`
    unfoldable pub decrypt_file : (Bytes → Option Bytes) → Settings → Bytes → Bytes → Result Bytes
    decrypt_file base64_decode s stack file =
        if s.is_base64
        then if length file == 0 then err fatal_error else elim (base64_decode file) [
          | none ↦ err fatal_error
          | some input ↦ decrypt_body s stack input
        ]
        else decrypt_body s stack file
