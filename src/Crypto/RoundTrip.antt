-- ===== src/Crypto/RoundTrip.antt =====
-- src/crypto/clu_evp_crypto.c, a file that is encrypted and then decrypted.
use wolf_clu.Base.{
  ℕ, zero, suc, ◌+◌, ◌<◌, Bool, true, false, [], ◌∷◌, ◌++◌, Option, none, some, length, take, drop,
  Bool-cases, ◌≡◌, refl, ap, ◌∙◌, ◌⊎◌, arith, inl, inr, if◌then◌else◌, ◌==◌, length-append,
}
use wolf_clu.Base.Result.{Result, ok, err, fatal_error}
use wolf_clu.Text.{Bytes, bytes_eq}
use wolf_clu.Crypto.{
  Cipher, Settings, is_user, unsalted, is_salted, salt_size, run_cipher, read_salt, keys,
  encrypt_file, decrypt_body, decrypt_file,
}
use wolf_clu.Crypto.Stream.{Seals, chunks, chunks-concat, chunks-NonEmpty, run_cipher-session}

take-append : (n : ℕ) (a b : Bytes) → length a ≡ n → take n (a ++ b) ≡ a
take-append zero [] b h = refl
take-append (suc n) [] b h = absurd (omega (arith, h))
take-append zero (x ∷ a) b h = absurd (omega (arith, h))
take-append (suc n) (x ∷ a) b h = ap (◌∷◌ x) (take-append n a b (omega (arith, h)))

drop-append : (n : ℕ) (a b : Bytes) → length a ≡ n → drop n (a ++ b) ≡ b
drop-append zero [] b h = refl
drop-append (suc n) [] b h = absurd (omega (arith, h))
drop-append zero (x ∷ a) b h = absurd (omega (arith, h))
drop-append (suc n) (x ∷ a) b h = drop-append n a b (omega (arith, h))

-- The header of an encrypted file is read back.
read_salt-header :
    (stack salt body : Bytes)
    → length salt ≡ salt_size
    → read_salt stack (is_salted ++ (salt ++ body)) ≡ ok (salt, body)
unfolding read_salt bytes_eq
read_salt-header stack salt body h =
    rw (take-append 8 salt body h, drop-append 8 salt body h) (rw h)

module _ (cipher : Cipher) (laws : Seals cipher) where
  open laws use {sealed, seals, grows, opens}

  run_cipher-seal :
      (key iv file out : Bytes)
      → run_cipher cipher true key iv file out ≡ ok (out ++ sealed key iv file)
  run_cipher-seal key iv file out =
      let cs = chunks (length file + 1) file in
      run_cipher-session cipher true key iv file out (sealed key iv file) (
        seals key iv cs (chunks-NonEmpty (length file + 1) file)
        ∙ ap (λ x. some (sealed key iv x)) (chunks-concat (length file + 1) file (omega arith)))

  run_cipher-open :
      (key iv file : Bytes) → run_cipher cipher false key iv (sealed key iv file) [] ≡ ok file
  run_cipher-open key iv file =
      let input = sealed key iv file in
      run_cipher-session cipher false key iv input [] file (
        opens key iv file (chunks (length input + 1) input)
          (chunks-NonEmpty (length input + 1) input)
          (chunks-concat (length input + 1) input (omega arith)))

-- A base64 that is decoded: what is not empty is encoded as something that is not empty, and is
-- given back.
pub record Base64 (encode : Bytes → Bytes) (decode : Bytes → Option Bytes) : Type 0 where
  pub decodes : (x : Bytes) → 0 < length x → decode (encode x) ≡ some x
  pub not_empty : (x : Bytes) → 0 < length x → 0 < length (encode x)

module _ (derive : Bool → Option Bytes → Bytes → Option (Bytes × Bytes)) (s : Settings) where
  -- A key is derived from the password, with and without a salt.
  abbrev pub Derives : Type 0
  Derives = (salt : Option Bytes) → (k : Bytes × Bytes) × (derive s.pbkdf2 salt s.password ≡ some k)

  keys_ok : Derives → (salt : Bytes) → (k : Bytes × Bytes) × (keys derive s salt ≡ ok k)
  unfolding keys
  keys_ok d salt = elim (Bool-cases (is_user s.key_type)) [
    | inl p ↦ ((s.key, s.iv), rw p)
    | inr p ↦ let (k, q) = d (if s.no_salt then none else some salt) in (k, rw (p, q))
  ]

  keys-unsalted : (a b : Bytes) → unsalted s ≡ true → keys derive s a ≡ keys derive s b
  unfolding keys
  keys-unsalted a b h = elim (Bool-cases (is_user s.key_type)) [
    | inl p ↦ rw p
    | inr p ↦ let q : s.no_salt ≡ true = ground (arith, h, p) in rw (p, q)
  ]

  module _ (cipher : Cipher) (laws : Seals cipher) where
    decrypt_body-header :
        (k : Bytes × Bytes) (salt stack file : Bytes)
        → keys derive s salt ≡ ok k
        → length salt ≡ salt_size
        → decrypt_body derive cipher s stack
            ((if unsalted s then [] else is_salted ++ salt) ++ laws.sealed k.0 k.1 file)
          ≡ ok file
    unfolding decrypt_body
    decrypt_body-header (key, iv) salt stack file h l = elim (Bool-cases (unsalted s)) [
      | inl p ↦
          rw (p, decrypt_body, keys-unsalted [] salt p, h) (run_cipher-open cipher laws key iv file)
      | inr p ↦
          rw (p, decrypt_body, read_salt-header stack salt (laws.sealed key iv file) l, h)
            (run_cipher-open cipher laws key iv file)
    ]

    encrypt_file-written :
        (encode : Bytes → Bytes) (k : Bytes × Bytes) (salt file out : Bytes)
        → keys derive s salt ≡ ok k
        → run_cipher cipher true k.0 k.1 file (if unsalted s then [] else is_salted ++ salt)
          ≡ ok out
        → encrypt_file derive cipher encode s (some salt) file
          ≡ ok (if s.is_base64 then encode out else out)
    unfolding encrypt_file
    encrypt_file-written encode k salt file out p q = rw (p, encrypt_file, q)

    decrypt_file-body :
        (encode : Bytes → Bytes) (decode : Bytes → Option Bytes)
        → Base64 encode decode
        → (stack out : Bytes) (r : Result Bytes) → (s.is_base64 ≡ false) ⊎ (0 < length out)
        → decrypt_body derive cipher s stack out ≡ r
        → decrypt_file derive cipher decode s stack (if s.is_base64 then encode out else out) ≡ r
    unfolding decrypt_file
    decrypt_file-body encode decode base64 stack out r e h = go s.is_base64 e
      where
        go :
            (b : Bool)
            → (b ≡ false) ⊎ (0 < length out)
            → (if b
                then if length (if b then encode out else out) == 0
                  then err fatal_error
                  else elim (decode (if b then encode out else out)) [
                    | none ↦ err fatal_error
                    | some input ↦ decrypt_body derive cipher s stack input
                  ]
                else decrypt_body derive cipher s stack (if b then encode out else out))
              ≡ r
        go true e =
            let some_out : 0 < length out = ground (arith, e) in
            let not_empty : (length (encode out) == 0) ≡ false =
              ground (arith, base64.not_empty out some_out) in
            rw (not_empty, base64.decodes out some_out) h
        go false e = h

    -- A file that `wolfCLU_evp_crypto` encrypts is decrypted with the same settings: encryption
    -- succeeds, and from what it writes decryption gives back the file, salted or not, with a key of
    -- the user's or one that is derived from the password, with and without base64 (then the file
    -- is not empty), whatever stands on the stack. The salt has its eight bytes, the key is derived,
    -- the cipher opens what it seals, and base64 is read back.
    pub decrypt_file-encrypt_file :
        (encode : Bytes → Bytes) (decode : Bytes → Option Bytes)
        → Base64 encode decode
        → Derives
        → (salt stack file : Bytes) → length salt ≡ salt_size
        → (s.is_base64 ≡ false) ⊎ (0 < length file)
        → (out : Bytes) × (encrypt_file derive cipher encode s (some salt) file ≡ ok out)
          × (decrypt_file derive cipher decode s stack out ≡ ok file)
    decrypt_file-encrypt_file encode decode base64 d salt stack file l e =
        let (k, q) = keys_ok d salt in
        let head : Bytes = if unsalted s then [] else is_salted ++ salt in
        let out = head ++ laws.sealed k.0 k.1 file in
        let size = length-append {0} head (laws.sealed k.0 k.1 file) in
        (
          if s.is_base64 then encode out else out,
          encrypt_file-written encode k salt file out q
              (run_cipher-seal cipher laws k.0 k.1 file head),
          decrypt_file-body encode decode base64 stack out (ok file)
              (elim e [
                | inl p ↦ inl p
                | inr p ↦ inr (omega (arith, size, laws.grows k.0 k.1 file, p))
              ])
              (decrypt_body-header k salt stack file q l),
        )
