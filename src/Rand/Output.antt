-- ===== src/Rand/Output.antt =====
-- src/tools/clu_rand.c: the bytes that are generated, and their hexadecimal form.
use wolf_clu.Base.{
  ℕ, zero, suc, ◌+◌, ◌-◌, ◌*◌, ◌/◌, ◌%◌, ◌≤◌, ◌<◌, [], ◌∷◌, ◌++◌, Option, none, some, leb, length,
  if◌then◌else◌, get_elem?, ◌≡◌, refl, arith, length-append, All,
}
use wolf_clu.Text.{Bytes, codes}
use wolf_clu.Rand.{filled, rng_max_block_len, chunk_of, generate}

-- `hexChars[n]`, for an index below 16
unfoldable pub hex_char : ℕ → ℕ
hex_char n = elim (get_elem? (codes "0123456789abcdef") n) [ none ↦ 0 | some c ↦ c ]

-- "check and convert to hex": the loop over the buffer
unfoldable pub hex_encode : Bytes → Bytes
hex_encode [] = []
hex_encode (b ∷ buf) = hex_char (b / 16 % 16) ∷ hex_char (b % 16) ∷ hex_encode buf

-- the value of a hexadecimal digit
abbrev pub unhex : ℕ → ℕ
unhex c = if leb c b'9' then c - b'0' else c - b'a' + 10

abbrev pub hex_decode : Bytes → Bytes
hex_decode [] = []
hex_decode (h ∷ []) = []
hex_decode (h ∷ l ∷ text) = (unhex h * 16 + unhex l) ∷ hex_decode text

unhex-hex_char : (n : ℕ) → n < 16 → unhex (hex_char n) ≡ n
unfolding hex_char
unhex-hex_char n h = ground (arith, h)

module _ {ℓ} {R : Type ℓ} (rng : R → ℕ → Option (R × Bytes)) where
  -- The generator answers every request that is not empty and within its limit for one call.
  abbrev pub Answers : Type ℓ
  Answers =
      (r : R) (n : ℕ)
      → 0 < n
      → n ≤ rng_max_block_len
      → (r' : R) × (block : Bytes) × (rng r n ≡ some (r', block)) × (length block ≡ n)

  generate-length :
      Answers
      → (fuel left : ℕ) (r : R) (buf : Bytes) → left ≤ fuel
      → (out : Bytes) × (generate rng fuel left r buf ≡ filled out)
        × (length out ≡ length buf + left)
  unfolding generate
  generate-length answers fuel zero r buf h = (buf, refl, omega arith)
  generate-length answers zero (suc left) r buf h = elim h [ ]
  generate-length answers (suc fuel) (suc left) r buf h =
      let small : chunk_of (suc left) ≤ rng_max_block_len = unfold chunk_of in ground arith in
      let some_bytes : 0 < chunk_of (suc left) = unfold chunk_of in ground arith in
      let within : chunk_of (suc left) ≤ suc left = unfold chunk_of in ground arith in
      let (r', block, e, l) = answers r (chunk_of (suc left)) some_bytes small in
      let (out, e', l') =
        generate-length answers fuel (suc left - chunk_of (suc left)) r' (buf ++ block)
          (omega arith) in
      (out, rw (e, generate) e', omega (arith, length-append {0} buf block))

-- With a generator that answers each request of 1 to 65,536 bytes, and may refuse larger ones, the
-- loop fills the buffer: it ends, without an error, with exactly `size` bytes.
pub generate-fills {ℓ} :
    {R : Type ℓ} (rng : R → ℕ → Option (R × Bytes))
    → Answers rng
    → (size : ℕ) (r : R)
    → (out : Bytes) × (generate rng size size r [] ≡ filled out) × (length out ≡ size)
generate-fills rng answers size r =
    let (out, e, l) = generate-length rng answers size size r [] (omega arith) in
    (out, e, omega (arith, l))

-- The hexadecimal text of bytes has two characters for each of them, and gives them back.
pub hex_decode-hex_encode :
    (buf : Bytes)
    → All (λ b. b < 256) buf
    → (hex_decode (hex_encode buf) ≡ buf) × (length (hex_encode buf) ≡ 2 * length buf)
unfolding hex_encode
hex_decode-hex_encode [] h = (refl, refl)
hex_decode-hex_encode (b ∷ buf) (p, h) =
    let (ih, l) = hex_decode-hex_encode buf h in
    let high = unhex-hex_char (b / 16 % 16) (omega arith) in
    let low = unhex-hex_char (b % 16) (omega arith) in
    let whole : b / 16 % 16 * 16 + b % 16 ≡ b = omega arith in
    (rw (high, low, whole, ih), omega (arith, l))
