-- ===== src/Hash.antt =====
-- src/tools/clu_funcs.c, `wolfCLU_streamHashBio`, and src/hash/clu_hash.c, `wolfCLU_hash`.
-- Parameters, from wolfSSL: the hash functions and base64. The input is the bytes of the file, a read
-- of which succeeds; whether a write takes all its bytes is a parameter; all hash functions and BLAKE2b are compiled in, and allocations succeed.
pub mod Digest
pub mod Setup
use wolf_clu.Base.{
  ℕ, zero, suc, ◌+◌, Bool, true, false, ◌||◌, List, [], ◌∷◌, ◌++◌, Option, none, some, ◌==◌, leb,
  ltb, if◌then◌else◌, length, take, drop,
}
use wolf_clu.Base.Result.{Result, ok, err, fatal_error, no_fuel}
use wolf_clu.Text.{Bytes, codes, bytes_eq}
use wolf_clu.Rand.Output.{hex_encode}

-- `enum wc_HashType`, as far as it is used, and BLAKE2b with the size of its digest
pub data HashType : Type 0 where
  hash_md5 hash_sha hash_sha256 hash_sha384 hash_sha512 : HashType
  hash_blake2b : ℕ → HashType

-- `wc_HashInit`, `wc_HashUpdate`, `wc_HashFinal` and `wc_HashGetDigestSize`, and their counterparts
-- for BLAKE2b
pub record Hasher : Type 1 where
  pub State : Type 0
  pub init : HashType → Option State
  pub update : State → Bytes → Option State
  pub final : State → Option Bytes
  pub digest_size : HashType → ℕ
  pub max_digest_size : ℕ  -- WC_MAX_DIGEST_SIZE

-- `MAX_IO_CHUNK_SZ`
abbrev pub max_io_chunk_sz : ℕ
max_io_chunk_sz = 4096

module _ (hasher : Hasher) where
  open hasher use {State, init, update, final, digest_size}

  -- the loop that reads, and `wc_HashFinal`
  unfoldable pub hash_loop : ℕ → State → Bytes → Result Bytes
  hash_loop zero st input = err no_fuel
  hash_loop (suc fuel) st [] = elim (final st) [ none ↦ err fatal_error | some d ↦ ok d ]
  hash_loop (suc fuel) st (c ∷ input) = elim (update st (take max_io_chunk_sz (c ∷ input))) [
    | none ↦ err fatal_error
    | some st' ↦ hash_loop fuel st' (drop max_io_chunk_sz (c ∷ input))
  ]

  -- from the initialisation on; the loop is the same for BLAKE2b
  unfoldable pub run_hash : HashType → Bytes → Result Bytes
  run_hash t input = elim (init t) [
    | none ↦ err fatal_error
    | some st ↦ hash_loop (length input + 1) st input
  ]

  -- `wolfCLU_streamHashBio`, with the capacity of the buffer
  unfoldable pub stream_hash_bio : HashType → ℕ → Bytes → Result Bytes
  stream_hash_bio t capacity input =
      if digest_size t == 0 || ltb capacity (digest_size t)
      then err fatal_error
      else run_hash t input

-- the comparisons with the name; the last one that holds counts
unfoldable pub hash_type_of : Bytes → Option HashType
hash_type_of alg =
    if bytes_eq alg (codes "sha512")
    then some hash_sha512
    else if bytes_eq alg (codes "sha384")
    then some hash_sha384
    else if bytes_eq alg (codes "sha256")
    then some hash_sha256
    else if bytes_eq alg (codes "sha")
    then some hash_sha
    else if bytes_eq alg (codes "md5")
    then some hash_md5
    else none

-- `wolfSSL_BIO_write(...) != outSz`: the Boolean is whether all bytes are written
unfoldable pub write_all : Bool → Bytes → Result Bytes
write_all true output = ok output
write_all false output = err fatal_error

-- the bytes to the file, or "write hash digest as hex" to the terminal, of which the result is not
-- looked at
unfoldable pub write_digest : Bool → Bool → Bytes → Result Bytes
write_digest true writes digest = write_all writes digest
write_digest false writes digest = ok (hex_encode digest ++ 10 ∷ [])

abbrev int_max : ℕ
int_max = 2147483647

-- base64: the whole file is read if an `int` can count it, and the text is written as it is
unfoldable pub coded : Bool → Bytes → Option Bytes → Result Bytes
coded writes input none = err fatal_error
coded writes input (some out) =
    if ltb int_max (length input) then err fatal_error else write_all writes out

module _ (hasher : Hasher) (base64_encode base64_decode : ℕ → Bytes → Option Bytes)
    (to_file writes : Bool) where
  -- `wolfCLU_hash`: what is written to the file or else to the terminal. The size 0 stands for that
  -- of any digest, and for base64 for that of the result.
  unfoldable pub hash : Bytes → ℕ → Bytes → Result Bytes
  hash alg size input =
      let out_sz = if size == 0 then hasher.max_digest_size else size in
      elim (hash_type_of alg) [
        | some t ↦ elim (stream_hash_bio hasher t out_sz input) [
          | err e ↦ err e
          | ok d ↦ write_digest to_file writes d
        ]
        | none ↦
            if bytes_eq alg (codes "blake2b")
            then elim (run_hash hasher (hash_blake2b out_sz) input) [
              | err e ↦ err e
              | ok d ↦ write_digest to_file writes d
            ]
            else if bytes_eq alg (codes "base64enc")
            then coded writes input (base64_encode size input)
            else if bytes_eq alg (codes "base64dec")
            then coded writes input (base64_decode size input)
            else err fatal_error
      ]
