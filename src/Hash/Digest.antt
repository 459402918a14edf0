-- ===== src/Hash/Digest.antt =====
-- src/hash/clu_hash.c and `wolfCLU_streamHashBio`: the digest of a file.
use wolf_clu.Base.{
  ℕ, zero, suc, ◌+◌, ◌≤◌, ◌<◌, Bool, true, false, List, [], ◌∷◌, ◌++◌, Option, none, some, length,
  take, drop, take-append-drop, length-drop, Option-cases, ◌≡◌, refl, ap, sym, ◌∙◌, arith, inl, inr,
  ltb, ◌==◌, ◌||◌,
}
use wolf_clu.Base.Result.{Result, ok, err, fatal_error}
use wolf_clu.Rand.Output.{hex_encode}
use wolf_clu.Text.{Bytes, codes, bytes_eq}
use wolf_clu.Crypto.Stream.{concat, NonEmpty}
use wolf_clu.Hash.{
  HashType, hash_md5, hash_sha, hash_sha256, hash_sha384, hash_sha512, hash_blake2b, Hasher,
  max_io_chunk_sz, hash_loop, run_hash, stream_hash_bio, hash_type_of, write_all, write_digest,
  hash,
}

-- The input in pieces of the size of one read.
abbrev pieces : ℕ → Bytes → List Bytes
pieces zero input = []
pieces (suc fuel) [] = []
pieces (suc fuel) (c ∷ input) =
    take max_io_chunk_sz (c ∷ input) ∷ pieces fuel (drop max_io_chunk_sz (c ∷ input))

pieces-concat :
    (fuel : ℕ) (input : Bytes) → length input ≤ fuel → concat (pieces fuel input) ≡ input
pieces-concat zero [] h = refl
pieces-concat zero (c ∷ input) h = elim h [ ]
pieces-concat (suc fuel) [] h = refl
pieces-concat (suc fuel) (c ∷ input) h =
    let left = drop max_io_chunk_sz (c ∷ input) in
    let short = length-drop {0} 4096 (c ∷ input) in
    ap (λ x. take max_io_chunk_sz (c ∷ input) ++ x)
      (pieces-concat fuel left (omega (arith, short, h)))
    ∙ take-append-drop max_io_chunk_sz (c ∷ input)

pieces-NonEmpty : (fuel : ℕ) (input : Bytes) → NonEmpty (pieces fuel input)
pieces-NonEmpty zero input = tt
pieces-NonEmpty (suc fuel) [] = tt
pieces-NonEmpty (suc fuel) (c ∷ input) =
    (omega arith, pieces-NonEmpty fuel (drop max_io_chunk_sz (c ∷ input)))

module _ (hasher : Hasher) where
  open hasher use {State, init, update, final}

  abbrev pub absorb : State → List Bytes → Option Bytes
  absorb st [] = final st
  absorb st (c ∷ cs) = elim (update st c) [ none ↦ none | some st' ↦ absorb st' cs ]

  abbrev pub digest_of : HashType → List Bytes → Option Bytes
  digest_of t cs = elim (init t) [ none ↦ none | some st ↦ absorb st cs ]

  absorb-cons :
      (st : State) (c : Bytes) (cs : List Bytes) (d : Bytes)
      → absorb st (c ∷ cs) ≡ some d
      → (st' : State) × (update st c ≡ some st') × (absorb st' cs ≡ some d)
  absorb-cons st c cs d h = elim (Option-cases (update st c)) [
    | inl p ↦ absurd (ground (arith, h, p))
    | inr (st', p) ↦
        let e : absorb st (c ∷ cs) ≡ absorb st' cs = rw (p, absorb) in (st', p, sym e ∙ h)
  ]

  hash_loop-absorb :
      (fuel : ℕ) (st : State) (input d : Bytes)
      → length input < fuel
      → absorb st (pieces fuel input) ≡ some d
      → hash_loop hasher fuel st input ≡ ok d
  unfolding hash_loop
  hash_loop-absorb zero st input d h p = elim h [ ]
  hash_loop-absorb (suc fuel) st [] d h p = let q : final st ≡ some d = p in rw (q, hash_loop)
  hash_loop-absorb (suc fuel) st (c ∷ input) d h p =
      let left = drop max_io_chunk_sz (c ∷ input) in
      let short = length-drop {0} 4096 (c ∷ input) in
      let (st', q, r) = absorb-cons st (take max_io_chunk_sz (c ∷ input)) (pieces fuel left) d p in
      rw (q, hash_loop) (hash_loop-absorb fuel st' left d (omega (arith, short, h)) r)

  run_hash-digest_of :
      (t : HashType) (input d : Bytes)
      → digest_of t (pieces (length input + 1) input) ≡ some d
      → run_hash hasher t input ≡ ok d
  unfolding run_hash
  run_hash-digest_of t input d h = elim (Option-cases (init t)) [
    | inl p ↦ absurd (ground (arith, h, p))
    | inr (st, p) ↦
        let cs = pieces (length input + 1) input in
        let e : digest_of t cs ≡ absorb st cs = rw (p, digest_of) in
        rw (p, run_hash) (hash_loop-absorb (length input + 1) st input d (omega arith) (sym e ∙ h))
  ]

-- BLAKE2b has digests of up to 64 bytes.
abbrev pub Supported : HashType → Type 0
Supported (hash_blake2b n) = (0 < n) × (n ≤ 64)
Supported _ = Unit

-- What is relied on of the hash functions: the division of the text into pieces makes no difference,
-- and a digest has its size, which is not 0.
pub record Digests (hasher : Hasher) : Type 0 where
  pub digest : HashType → Bytes → Bytes
  pub digests :
      (t : HashType) (cs : List Bytes)
      → Supported t
      → NonEmpty cs
      → digest_of hasher t cs ≡ some (digest t (concat cs))
  pub sized : (t : HashType) → Supported t → 0 < hasher.digest_size t

-- A name of the command, with the hash function and the size of the digest that go with it; the
-- size of BLAKE2b is the user's.
pub data Named (hasher : Hasher) : Bytes → HashType → ℕ → Type 0 where
  md5 : Named hasher (codes "md5") hash_md5 (hasher.digest_size hash_md5)
  sha : Named hasher (codes "sha") hash_sha (hasher.digest_size hash_sha)
  sha256 : Named hasher (codes "sha256") hash_sha256 (hasher.digest_size hash_sha256)
  sha384 : Named hasher (codes "sha384") hash_sha384 (hasher.digest_size hash_sha384)
  sha512 : Named hasher (codes "sha512") hash_sha512 (hasher.digest_size hash_sha512)
  blake2b : (n : ℕ) → 0 < n → n ≤ 64 → Named hasher (codes "blake2b") (hash_blake2b n) n

module _ (hasher : Hasher) (laws : Digests hasher) where
  run_hash-digest :
      (t : HashType) (input : Bytes)
      → Supported t
      → run_hash hasher t input ≡ ok (laws.digest t input)
  run_hash-digest t input s = run_hash-digest_of hasher t input (laws.digest t input) (
      laws.digests t (pieces (length input + 1) input) s (pieces-NonEmpty (length input + 1) input)
      ∙ ap (λ x. some (laws.digest t x)) (pieces-concat (length input + 1) input (omega arith)))

  stream_hash_bio-digest :
      (t : HashType) (input : Bytes)
      → Supported t
      → stream_hash_bio hasher t (hasher.digest_size t) input ≡ ok (laws.digest t input)
  unfolding stream_hash_bio
  stream_hash_bio-digest t input s =
      let fits : (hasher.digest_size t == 0 || ltb (hasher.digest_size t) (hasher.digest_size t))
          ≡ false =
        ground (arith, laws.sized t s) in
      rw fits (run_hash-digest t input s)

nonzero : (n : ℕ) → 0 < n → (n == 0) ≡ false
nonzero n h = ground (arith, h)

module _ (hasher : Hasher) (encode decode : ℕ → Bytes → Option Bytes) (to_file writes : Bool)
    (input d : Bytes) where
  hash_stream :
      (alg : Bytes) (t : HashType) (size : ℕ)
      → hash_type_of alg ≡ some t
      → 0 < size
      → stream_hash_bio hasher t size input ≡ ok d
      → hash hasher encode decode to_file writes alg size input ≡ write_digest to_file writes d
  unfolding hash
  hash_stream alg t size p q r = rw (p, hash, nonzero size q, r)

  hash_blake :
      (n : ℕ)
      → 0 < n
      → run_hash hasher (hash_blake2b n) input ≡ ok d
      → hash hasher encode decode to_file writes (codes "blake2b") n input
        ≡ write_digest to_file writes d
  unfolding hash hash_type_of bytes_eq
  hash_blake n q r = rw (hash, nonzero n q, r)

-- What is put out of a digest: its bytes to a file, if they can be written, and two hexadecimal digits
-- for each byte, and a newline, to the terminal.
abbrev pub expected : Bool → Bool → Bytes → Result Bytes
expected true true digest = ok digest
expected true false digest = err fatal_error
expected false writes digest = ok (hex_encode digest ++ 10 ∷ [])

write_digest-expected :
    (to_file writes : Bool) (digest : Bytes)
    → write_digest to_file writes digest ≡ expected to_file writes digest
unfolding write_digest write_all
write_digest-expected true true digest = refl
write_digest-expected true false digest = refl
write_digest-expected false writes digest = refl

hash_write-digest :
    (hasher : Hasher) (laws : Digests hasher) (encode decode : ℕ → Bytes → Option Bytes)
    (to_file writes : Bool) (alg : Bytes) (t : HashType) (size : ℕ) (input : Bytes)
    → Named hasher alg t size
    → hash hasher encode decode to_file writes alg size input
      ≡ write_digest to_file writes (laws.digest t input)
unfolding hash_type_of bytes_eq
hash_write-digest hasher laws encode decode to_file writes alg t size input md5 =
    hash_stream hasher encode decode to_file writes input (laws.digest hash_md5 input) (codes "md5")
      hash_md5 _ refl (laws.sized hash_md5 tt)
      (stream_hash_bio-digest hasher laws hash_md5 input tt)
hash_write-digest hasher laws encode decode to_file writes alg t size input sha =
    hash_stream hasher encode decode to_file writes input (laws.digest hash_sha input) (codes "sha")
      hash_sha _ refl (laws.sized hash_sha tt)
      (stream_hash_bio-digest hasher laws hash_sha input tt)
hash_write-digest hasher laws encode decode to_file writes alg t size input sha256 =
    hash_stream hasher encode decode to_file writes input (laws.digest hash_sha256 input)
      (codes "sha256") hash_sha256 _ refl (laws.sized hash_sha256 tt)
      (stream_hash_bio-digest hasher laws hash_sha256 input tt)
hash_write-digest hasher laws encode decode to_file writes alg t size input sha384 =
    hash_stream hasher encode decode to_file writes input (laws.digest hash_sha384 input)
      (codes "sha384") hash_sha384 _ refl (laws.sized hash_sha384 tt)
      (stream_hash_bio-digest hasher laws hash_sha384 input tt)
hash_write-digest hasher laws encode decode to_file writes alg t size input sha512 =
    hash_stream hasher encode decode to_file writes input (laws.digest hash_sha512 input)
      (codes "sha512") hash_sha512 _ refl (laws.sized hash_sha512 tt)
      (stream_hash_bio-digest hasher laws hash_sha512 input tt)
hash_write-digest hasher laws encode decode to_file writes alg t size input (blake2b n p q) =
    hash_blake hasher encode decode to_file writes input (laws.digest (hash_blake2b n) input) n p
      (run_hash-digest hasher laws (hash_blake2b n) input (p, q))

-- `wolfCLU_hash` with the name of a hash function puts out the digest of the whole input, whatever its
-- length: to a file as bytes, an error if they cannot be written, and to the terminal as hexadecimal text.
-- The hash functions do not depend on how the input is divided, and the input is read without an error.
pub hash-digest :
    (hasher : Hasher) (laws : Digests hasher) (encode decode : ℕ → Bytes → Option Bytes)
    (to_file writes : Bool) (alg : Bytes) (t : HashType) (size : ℕ) (input : Bytes)
    → Named hasher alg t size
    → hash hasher encode decode to_file writes alg size input
      ≡ expected to_file writes (laws.digest t input)
hash-digest hasher laws encode decode to_file writes alg t size input named =
    hash_write-digest hasher laws encode decode to_file writes alg t size input named
    ∙ write_digest-expected to_file writes (laws.digest t input)
