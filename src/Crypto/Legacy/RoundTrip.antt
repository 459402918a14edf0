-- ===== src/Crypto/Legacy/RoundTrip.antt =====
-- src/crypto/clu_encrypt.c and src/crypto/clu_decrypt.c: a file that is encrypted and decrypted.
use wolf_clu.Base.{
  ℕ, zero, suc, ◌+◌, ◌-◌, ◌/◌, ◌<◌, true, false, [], ◌∷◌, ◌++◌, append_assoc, append-nil, Option,
  none, some, ◌==◌, leb, ltb, if◌then◌else◌, length, length-append, length-take, take, drop,
  take_all, inl, inr, ◌≡◌, ◌⊎◌, refl, ap, ◌∙◌, arith,
}
use wolf_clu.Base.Result.{ok}
use wolf_clu.Text.{Bytes, codes, strncmp_eq}
use wolf_clu.Crypto.{KeyType, keytype_password, keytype_user}
use wolf_clu.Crypto.Legacy.{
  Camellia, pad_bytes, mark_salt, zero_salt, is_key_set, encrypt_with, last_byte, last_loop,
  encrypt, encrypt_counted, decrypt_key, decrypt, decrypt_counted, decrypt_loop, int_limit,
}
use wolf_clu.Crypto.Legacy.Padded.{
  padding, length-pad_bytes, padded, length-padded, length-padded-mod, Inverts, enc_all,
  pad_loop-padding, length-enc_all, take-append, drop-append, drop_all,
}
use wolf_clu.Crypto.Legacy.Encrypted.{≤_cases, empty, encrypt_loop-enc_all}
use wolf_clu.Crypto.Legacy.Decrypted.{stripped, Ends, decrypt_loop-stripped, last_byte-append}

-- the sizes of Camellia's keys, in bits
abbrev pub IsSize : ℕ → Type 0
IsSize size = (size ≡ 128) ⊎ ((size ≡ 192) ⊎ (size ≡ 256))

take-salt : (a b : Bytes) (n : ℕ) → length a ≡ n → take n (a ++ b) ≡ a
take-salt a b n h = take-append n a b (omega (arith, h)) ∙ take_all a n (omega (arith, h))

drop-salt : (a b : Bytes) (n : ℕ) → length a ≡ n → drop n (a ++ b) ≡ b
drop-salt a b n h =
    drop-append n a b (omega (arith, h)) ∙ ap (λ x. x ++ b) (drop_all n a (omega (arith, h)))

above : (n : ℕ) → 0 < n → leb (n + 24) 24 ≡ false
above n h = ground (arith, h)

module _ (camellia : Camellia) (laws : Inverts camellia) (size : ℕ) (is_size : IsSize size)
    (key iv : Bytes) (sized : length key ≡ size) where
  key-sets : camellia.set_key (take (size / 8) key) iv ≡ true
  key-sets =
      let n = length-take (size / 8) key (omega (arith, sized, is_size)) in
      laws.sets (take (size / 8) key) iv (elim is_size [
        | inl e ↦ inl (omega (arith, n, e))
        | inr (inl e) ↦ inr (inl (omega (arith, n, e)))
        | inr (inr e) ↦ inr (inr (omega (arith, n, e)))
      ])

  -- what is behind the salt and the IV
  abbrev body : Bytes → Bytes
  body file =
      enc_all camellia (take (size / 8) key) iv (length file + padding (length file) + 1)
        (padded file)

  encrypt_with-body :
      (mode salt file : Bytes)
      → strncmp_eq 3 mode (codes "cbc") ≡ true
      → encrypt_with camellia 16 mode size salt key iv (padding (length file)) file
        ≡ ok ((salt ++ iv) ++ body file)
  unfolding encrypt_with
  encrypt_with-body mode salt file c =
      encrypt_loop-enc_all camellia mode size key iv (padding (length file)) c key-sets
        (length file + padding (length file) + 1) (length file + padding (length file)) file
        (salt ++ iv) refl (omega arith) (omega arith) (omega arith)

  decrypt-loop :
      (pbkdf2 : Bytes → Bytes → ℕ → Option Bytes) (key_type : KeyType)
      (password old_key salt rest : Bytes)
      → length salt ≡ 8
      → length iv ≡ 16
      → 0 < length rest
      → decrypt_key pbkdf2 key_type size password old_key salt ≡ ok key
      → decrypt_counted camellia 16 pbkdf2 key_type size password old_key (salt ++ (iv ++ rest))
        ≡ decrypt_loop camellia 16 size salt key iv
            (last_loop (length rest))
            (length rest + 24 + 1)
            rest
            (length rest + 24)
            1
            []
  unfolding decrypt_counted
  decrypt-loop pbkdf2 key_type password old_key salt rest s i f k =
      let n = length-append {0} salt (iv ++ rest) in
      let m = length-append {0} iv rest in
      let whole : length (salt ++ (iv ++ rest)) ≡ length rest + 24 = omega (arith, n, m, s, i) in
      let long = above (length rest) f in
      let payload : length rest + 24 - 24 ≡ length rest = omega arith in
      rw (whole, long, decrypt_counted, take-salt salt (iv ++ rest) 8 s, k)
        (rw
          (
            take-salt salt (iv ++ rest) 8 s,
            whole,
            payload,
            drop-salt salt (iv ++ rest) 8 s,
            take-salt iv rest 16 i,
            drop-salt iv rest 16 i,
          )
          refl)

  decrypt-body :
      (pbkdf2 : Bytes → Bytes → ℕ → Option Bytes) (key_type : KeyType)
      (password old_key salt file : Bytes)
      → length salt ≡ 8
      → length iv ≡ 16
      → 0 < length file
      → decrypt_key pbkdf2 key_type size password old_key salt ≡ ok key
      → Ends salt (padded file)
      → decrypt_counted camellia 16 pbkdf2 key_type size password old_key
          ((salt ++ iv) ++ body file)
        ≡ ok (stripped salt (padded file))
  decrypt-body pbkdf2 key_type password old_key salt file s i f k e =
      let k' = take (size / 8) key in
      let n = length-padded file in
      let m = length-padded-mod file in
      let len =
        length-enc_all camellia laws k' iv (length file + padding (length file) + 1) (padded file) m
          (omega (arith, n)) in
      let loops : last_loop (length (body file)) ≡ last_loop (length (padded file)) =
        ap last_loop len in
      rw (append_assoc salt iv (body file)) (
        decrypt-loop pbkdf2 key_type password old_key salt (body file) s i
          (omega (arith, len, n, f)) k
        ∙ decrypt_loop-stripped camellia laws size salt key iv key-sets
            (length (body file) + 24 + 1) (length file + padding (length file) + 1)
            (last_loop (length (body file))) 1 (length (body file) + 24) (padded file) []
            (omega (arith, n, f)) m (omega (arith, len)) (omega (arith, loops)) e
            (omega (arith, len)) (omega (arith, n)))

-- What is relied on of PBKDF2: it derives a key of the size that is asked for.
pub record Derives (pbkdf2 : Bytes → Bytes → ℕ → Option Bytes) : Type 0 where
  pub derived : Bytes → Bytes → ℕ → Bytes
  pub derives :
      (password salt : Bytes) (size : ℕ)
      → pbkdf2 password salt size ≡ some (derived password salt size)
  pub derives_size : (password salt : Bytes) (size : ℕ) → length (derived password salt size) ≡ size

length-mark_salt : (pad : ℕ) (salt : Bytes) → length (mark_salt pad salt) ≡ length salt
unfolding mark_salt
length-mark_salt pad [] = refl
length-mark_salt pad (c ∷ salt) = refl

last_byte-pad_bytes : (n pad : ℕ) → 0 < n → last_byte (pad_bytes n pad) ≡ pad
unfolding last_byte pad_bytes
last_byte-pad_bytes zero pad h = elim h [ ]
last_byte-pad_bytes (suc zero) pad h = refl
last_byte-pad_bytes (suc (suc n)) pad h = last_byte-pad_bytes (suc n) pad (omega arith)

last_byte-padded :
    (file : Bytes) → 0 < padding (length file) → last_byte (padded file) ≡ padding (length file)
last_byte-padded file h =
    let p = padding (length file) in
    let n = length-pad_bytes p p in
    last_byte-append file (pad_bytes p p) (omega (arith, n, h)) ∙ last_byte-pad_bytes p p h

-- the first byte of the salt is 0 just if there is no padding
marked : (pad c : ℕ) → 0 < pad → ((if pad == 0 then 0 else if c == 0 then 1 else c) == 0) ≡ false
marked pad c h = ground (arith, h)

unmarked : (pad c : ℕ) → pad ≡ 0 → (if pad == 0 then 0 else if c == 0 then 1 else c) ≡ 0
unmarked pad c h = ground (arith, h)

-- the end of the text and what is left of it with a salt that was marked
mark_salt-strips :
    (file random : Bytes)
    → 0 < length random
    → Ends (mark_salt (padding (length file)) random) (padded file)
      × (stripped (mark_salt (padding (length file)) random) (padded file) ≡ file)
unfolding mark_salt
mark_salt-strips file [] h = elim h [ ]
mark_salt-strips file (c ∷ random) h =
    let p = padding (length file) in
    let n = length-padded file in
    elim (≤_cases p 0) [
      | inl none_ ↦
          let zero_ : p ≡ 0 = omega (arith, none_) in
          let mark = unmarked p c zero_ in
          let nothing : padded file ≡ file =
            ap (λ x. file ++ x) (empty (pad_bytes p p) (omega (arith, zero_, length-pad_bytes p p)))
            ∙ append-nil file in
          (inl (rw mark refl), rw mark nothing)
      | inr some_ ↦
          let mark = marked p c some_ in
          let lb = last_byte-padded file some_ in
          let cut : length (padded file) - last_byte (padded file) ≡ length file =
            omega (arith, n, lb) in
          (
            inr (omega (arith, lb)),
            rw (mark, cut)
                (take-append (length file) file (pad_bytes p p) (omega arith)
                  ∙ take_all file (length file) (omega arith)),
          )
    ]

module _ (camellia : Camellia) (laws : Inverts camellia) (size : ℕ) (is_size : IsSize size)
    (key iv : Bytes) (sized : length key ≡ size) where
  body_small :
      (salt file : Bytes)
      → length salt ≡ 8
      → length iv ≡ 16
      → length file + 40 < int_limit
      → length ((salt ++ iv) ++ body camellia laws size is_size key iv sized file) < int_limit
  body_small salt file s i small =
      let k' = take (size / 8) key in
      let n = length-padded file in
      let m = length-padded-mod file in
      let len =
        length-enc_all camellia laws k' iv (length file + padding (length file) + 1) (padded file) m
          (omega (arith, n)) in
      let b = body camellia laws size is_size key iv sized file in
      omega
        (arith, n, len, s, i, small, length-append {0} (salt ++ iv) b, length-append {0} salt iv)

-- the guards
encrypt-counted :
    (camellia : Camellia) (pbkdf2 : Bytes → Bytes → ℕ → Option Bytes) (mode : Bytes) (size : ℕ)
    (password : Bytes) (user : Option (Bytes × Bytes)) (iv salt : Option Bytes) (file : Bytes)
    → length file + 40 < int_limit
    → encrypt camellia 16 pbkdf2 mode size password user iv salt file
      ≡ encrypt_counted camellia 16 pbkdf2 mode size password user iv salt file
unfolding encrypt
encrypt-counted camellia pbkdf2 mode size password user iv salt file h =
    let g : ltb (length file + 16) int_limit ≡ true = ground (arith, h) in rw (g, encrypt) refl

decrypt-counted :
    (camellia : Camellia) (pbkdf2 : Bytes → Bytes → ℕ → Option Bytes) (key_type : KeyType)
    (size : ℕ) (password key out : Bytes)
    → length out < int_limit
    → decrypt camellia 16 pbkdf2 key_type size password key out
      ≡ decrypt_counted camellia 16 pbkdf2 key_type size password key out
unfolding decrypt
decrypt-counted camellia pbkdf2 key_type size password key out h =
    let g : ltb (length out) int_limit ≡ true = ground (arith, h) in rw (g, decrypt) refl

counted_password :
    (camellia : Camellia) (laws : Inverts camellia) (pbkdf2 : Bytes → Bytes → ℕ → Option Bytes)
    (derive : Derives pbkdf2) (mode : Bytes) (size : ℕ) (password old_key iv random file : Bytes)
    → strncmp_eq 3 mode (codes "cbc") ≡ true
    → IsSize size
    → length iv ≡ 16
    → length random ≡ 7
    → 0 < length file
    → length file + 40 < int_limit
    → (out : Bytes) × (encrypt_counted camellia 16 pbkdf2 mode size password none
          (some iv)
          (some random)
          file
        ≡ ok out)
      × (length out < int_limit)
      × (decrypt_counted camellia 16 pbkdf2 keytype_password size password old_key out ≡ ok file)
unfolding encrypt_counted decrypt_key
counted_password camellia laws pbkdf2 derive mode size password old_key iv random file c z i r f
      small =
    let salt = mark_salt (padding (length file)) (random ++ 0 ∷ []) in
    let n = length-append {0} random (0 ∷ []) in
    let salt_length : length salt ≡ 8 =
      length-mark_salt (padding (length file)) (random ++ 0 ∷ []) ∙ omega (arith, n, r) in
    let key = derive.derived password salt size in
    let k = derive.derives password salt size in
    let sized = derive.derives_size password salt size in
    let (ends, strips) = mark_salt-strips file (random ++ 0 ∷ []) (omega (arith, n)) in
    (
      (salt ++ iv) ++ body camellia laws size z key iv sized file,
      rw (pad_loop-padding (length file), encrypt_counted, k, pad_loop-padding (length file))
          (encrypt_with-body camellia laws size z key iv sized mode salt file c),
      body_small camellia laws size z key iv sized salt file salt_length i small,
      decrypt-body camellia laws size z key iv sized pbkdf2 keytype_password password old_key salt
            file salt_length i f (rw (k, decrypt_key) refl) ends
          ∙ ap ok strips,
    )

counted_user :
    (camellia : Camellia) (laws : Inverts camellia) (pbkdf2 : Bytes → Bytes → ℕ → Option Bytes)
    (mode : Bytes) (size : ℕ) (password key iv file : Bytes)
    → strncmp_eq 3 mode (codes "cbc") ≡ true
    → IsSize size
    → length key ≡ size
    → is_key_set key ≡ true
    → length iv ≡ 16
    → 0 < length file
    → length file + 40 < int_limit
    → (out : Bytes) × (encrypt_counted camellia 16 pbkdf2 mode size password
          (some (key, iv))
          none
          none
          file
        ≡ ok out)
      × (length out < int_limit)
      × (decrypt_counted camellia 16 pbkdf2 keytype_user size password key out ≡ ok (padded file))
unfolding encrypt_counted decrypt_key
counted_user camellia laws pbkdf2 mode size password key iv file c z sized s i f small =
    let set : is_key_set (take size key) ≡ true =
      ap is_key_set (take_all key size (omega (arith, sized))) ∙ s in
    (
      (zero_salt ++ iv) ++ body camellia laws size z key iv sized file,
      rw (pad_loop-padding (length file), encrypt_counted)
          (encrypt_with-body camellia laws size z key iv sized mode zero_salt file c),
      body_small camellia laws size z key iv sized zero_salt file refl i small,
      decrypt-body camellia laws size z key iv sized pbkdf2 keytype_user password key zero_salt file
          refl i f (rw (set, decrypt_key) refl) (inl refl),
    )

-- `wolfCLU_decrypt` with the password gives back the file that `wolfCLU_encrypt` encrypted with it, with
-- whatever IV and salt the random generator gives, if the mode is "cbc". The file is not empty and more than 40 bytes
-- shorter than 2^31, and the key size is one of Camellia's.
pub decrypt-encrypt_password :
    (camellia : Camellia) (laws : Inverts camellia) (pbkdf2 : Bytes → Bytes → ℕ → Option Bytes)
    (derive : Derives pbkdf2) (mode : Bytes) (size : ℕ) (password old_key iv random file : Bytes)
    → strncmp_eq 3 mode (codes "cbc") ≡ true
    → IsSize size
    → length iv ≡ 16
    → length random ≡ 7
    → 0 < length file
    → length file + 40 < int_limit
    → (out : Bytes) × (encrypt camellia 16 pbkdf2 mode size password none
          (some iv)
          (some random)
          file
        ≡ ok out)
      × (decrypt camellia 16 pbkdf2 keytype_password size password old_key out ≡ ok file)
decrypt-encrypt_password camellia laws pbkdf2 derive mode size password old_key iv random file c z i
      r f small =
    let (out, e, l, d) =
      counted_password camellia laws pbkdf2 derive mode size password old_key iv random file c z i r
        f small in
    (
      out,
      encrypt-counted camellia pbkdf2 mode size password none (some iv) (some random) file small
          ∙ e,
      decrypt-counted camellia pbkdf2 keytype_password size password old_key out l ∙ d,
    )

-- With a key and an IV of the user's, `wolfCLU_decrypt` gives back the file that `wolfCLU_encrypt`
-- encrypted and behind it the bytes that fill up its last block, which stay; if the mode is "cbc", the
-- file is not empty and more than 40 bytes shorter than 2^31, and the key has a byte that is not 0.
pub decrypt-encrypt_user :
    (camellia : Camellia) (laws : Inverts camellia) (pbkdf2 : Bytes → Bytes → ℕ → Option Bytes)
    (mode : Bytes) (size : ℕ) (password key iv file : Bytes)
    → strncmp_eq 3 mode (codes "cbc") ≡ true
    → IsSize size
    → length key ≡ size
    → is_key_set key ≡ true
    → length iv ≡ 16
    → 0 < length file
    → length file + 40 < int_limit
    → (out : Bytes) × (encrypt camellia 16 pbkdf2 mode size password (some (key, iv)) none none file
        ≡ ok out)
      × (decrypt camellia 16 pbkdf2 keytype_user size password key out ≡ ok (padded file))
decrypt-encrypt_user camellia laws pbkdf2 mode size password key iv file c z sized s i f small =
    let (out, e, l, d) =
      counted_user camellia laws pbkdf2 mode size password key iv file c z sized s i f small in
    (
      out,
      encrypt-counted camellia pbkdf2 mode size password (some (key, iv)) none none file small ∙ e,
      decrypt-counted camellia pbkdf2 keytype_user size password key out l ∙ d,
    )
