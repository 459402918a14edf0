-- ===== src/Crypto/Legacy/Padded.antt =====
-- src/crypto/clu_encrypt.c and src/crypto/clu_decrypt.c: the padded text, in buffers of 1024 bytes.
use wolf_clu.Base.{
  ℕ, zero, suc, ◌+◌, ◌-◌, ◌%◌, ◌≤◌, ◌<◌, true, [], ◌∷◌, ◌++◌, ◌==◌, length, length-append,
  length-drop, take, drop, take-append-drop, Bool-cases, inl, inr, ◌≡◌, ◌⊎◌, refl, ap, sym, ◌∙◌,
  arith,
}
use wolf_clu.Text.{Bytes}
use wolf_clu.Crypto.Legacy.{Camellia, max_len, pad_loop, pad_bytes}

pad_loop-adds :
    (fuel len pad d : ℕ)
    → (len + d) % 16 ≡ 0
    → d < 16
    → d ≤ fuel
    → pad_loop fuel 16 len pad ≡ pad + d
unfolding pad_loop
pad_loop-adds zero len pad d h k l = omega (arith, l)
pad_loop-adds (suc fuel) len pad d h k l = elim (Bool-cases (len % 16 == 0)) [
  | inl p ↦ let n : len % 16 ≡ 0 = ground (arith, p) in rw (p, pad_loop) (omega (arith, n, h, k))
  | inr p ↦
      let n : 0 < len % 16 = ground (arith, p) in
      let ih =
        pad_loop-adds fuel (len + 1) (pad + 1) (d - 1) (omega (arith, h, n, k)) (omega (arith, k))
          (omega (arith, l, n, k, h)) in
      rw (p, pad_loop) (omega (arith, ih, n, h, k))
]

-- the number of bytes that fill up a block
abbrev pub padding : ℕ → ℕ
padding len = (16 - len % 16) % 16

pub pad_loop-padding : (len : ℕ) → pad_loop 16 16 len 0 ≡ padding len
pad_loop-padding len =
    let e = pad_loop-adds 16 len 0 (padding len) (omega arith) (omega arith) (omega arith) in
    omega (arith, e)

pub length-pad_bytes : (n pad : ℕ) → length (pad_bytes n pad) ≡ n
unfolding pad_bytes
length-pad_bytes zero pad = refl
length-pad_bytes (suc n) pad = ap suc (length-pad_bytes n pad)

-- a text with its padding
abbrev pub padded : Bytes → Bytes
padded file = file ++ pad_bytes (padding (length file)) (padding (length file))

pub length-padded : (file : Bytes) → length (padded file) ≡ length file + padding (length file)
length-padded file =
    let p = padding (length file) in
    omega (arith, length-append {0} file (pad_bytes p p), length-pad_bytes p p)

pub length-padded-mod : (file : Bytes) → length (padded file) % 16 ≡ 0
length-padded-mod file = let n = length-padded file in omega (arith, n)

-- What is relied on of Camellia: a key of the right size is taken, and what is decrypted with the key
-- and the IV of an encryption of whole blocks is what was encrypted, of the same length.
pub record Inverts (camellia : Camellia) : Type 0 where
  pub sets :
      (key iv : Bytes)
      → (length key ≡ 16) ⊎ ((length key ≡ 24) ⊎ (length key ≡ 32))
      → camellia.set_key key iv ≡ true
  pub keeps_length :
      (key iv text : Bytes)
      → length text % 16 ≡ 0
      → length (camellia.cbc_encrypt key iv text) ≡ length text
  pub inverts :
      (key iv text : Bytes)
      → length text % 16 ≡ 0
      → camellia.cbc_decrypt key iv (camellia.cbc_encrypt key iv text) ≡ text

module _ (camellia : Camellia) (key iv : Bytes) where
  -- the encryption of a text, buffer by buffer
  abbrev pub enc_all : ℕ → Bytes → Bytes
  enc_all zero text = []
  enc_all (suc fuel) [] = []
  enc_all (suc fuel) (c ∷ text) =
      camellia.cbc_encrypt key iv (take max_len (c ∷ text))
      ++ enc_all fuel (drop max_len (c ∷ text))

  pub enc_all-round :
      (fuel : ℕ) (text : Bytes)
      → 0 < length text
      → enc_all (suc fuel) text
        ≡ camellia.cbc_encrypt key iv (take max_len text) ++ enc_all fuel (drop max_len text)
  enc_all-round fuel [] h = elim h [ ]
  enc_all-round fuel (c ∷ text) h = refl

  pub enc_all-nil : (fuel : ℕ) → enc_all fuel [] ≡ []
  enc_all-nil zero = refl
  enc_all-nil (suc fuel) = refl

pub take-append : (n : ℕ) (a b : Bytes) → n ≤ length a → take n (a ++ b) ≡ take n a
take-append zero a b h = refl
take-append (suc n) [] b h = elim h [ ]
take-append (suc n) (c ∷ a) b h = ap (◌∷◌ c) (take-append n a b (omega (arith, h)))

pub drop-append : (n : ℕ) (a b : Bytes) → n ≤ length a → drop n (a ++ b) ≡ drop n a ++ b
drop-append zero a b h = refl
drop-append (suc n) [] b h = elim h [ ]
drop-append (suc n) (c ∷ a) b h = drop-append n a b (omega (arith, h))

pub drop_all : (n : ℕ) (a : Bytes) → length a ≤ n → drop n a ≡ []
drop_all zero [] h = refl
drop_all zero (c ∷ a) h = elim h [ ]
drop_all (suc n) [] h = refl
drop_all (suc n) (c ∷ a) h = drop_all n a (omega (arith, h))

module _ (camellia : Camellia) (laws : Inverts camellia) (key iv : Bytes) where
  -- What is encrypted is as long as the text.
  pub length-enc_all :
      (fuel : ℕ) (text : Bytes)
      → length text % 16 ≡ 0
      → length text < fuel
      → length (enc_all camellia key iv fuel text) ≡ length text
  length-enc_all zero text m h = absurd (omega (arith, h))
  length-enc_all (suc fuel) [] m h = refl
  length-enc_all (suc fuel) (c ∷ text) m h =
      let a = take max_len (c ∷ text) in
      let d = drop max_len (c ∷ text) in
      let whole = take-append-drop 1024 (c ∷ text) in
      let parts = length-append {0} a d in
      let left = length-drop {0} 1024 (c ∷ text) in
      let e : length a + length d ≡ length (c ∷ text) = sym parts ∙ ap length whole in
      let n = laws.keeps_length key iv a (omega (arith, e, left, m)) in
      let ih = length-enc_all fuel d (omega (arith, left, m)) (omega (arith, left, h)) in
      let joined =
        length-append {0} (camellia.cbc_encrypt key iv a) (enc_all camellia key iv fuel d) in
      omega (arith, joined, n, ih, e)
