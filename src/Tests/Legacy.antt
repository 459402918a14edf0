-- ===== src/Tests/Legacy.antt =====
-- Seventeen bytes under a cipher that leaves the text as it is, with a password and with a key.
use wolf_clu.Base.{
  ℕ, zero, suc, true, [], ◌∷◌, Option, none, some, length, ◌≡◌, inl, refl, ap, arith,
}
use wolf_clu.Base.Result.{ok}
use wolf_clu.Text.{Bytes, codes, strncmp_eq}
use wolf_clu.Crypto.{keytype_password, keytype_user}
use wolf_clu.Crypto.Legacy.{Camellia, encrypt, decrypt, is_key_set}
use wolf_clu.Crypto.Legacy.Padded.{Inverts, padded}
use wolf_clu.Crypto.Legacy.RoundTrip.{Derives, decrypt-encrypt_password, decrypt-encrypt_user}

abbrev plain_cipher : Camellia
plain_cipher = record {
  set_key = λ key iv. true;
  cbc_encrypt = λ key iv text. text;
  cbc_decrypt = λ key iv text. text;
}

plain_cipher-Inverts : Inverts plain_cipher
plain_cipher-Inverts = record {
  sets = λ key iv h. refl;
  keeps_length = λ key iv text h. refl;
  inverts = λ key iv text h. refl;
}

-- `n` bytes of 9
abbrev nines : ℕ → Bytes
nines zero = []
nines (suc n) = 9 ∷ nines n

length-nines : (n : ℕ) → length (nines n) ≡ n
length-nines zero = refl
length-nines (suc n) = ap suc (length-nines n)

abbrev nine_keys : Bytes → Bytes → ℕ → Option Bytes
nine_keys password salt size = some (nines size)

nine_keys-Derives : Derives nine_keys
nine_keys-Derives = record {
  derived = λ password salt size. nines size;
  derives = λ password salt size. refl;
  derives_size = λ password salt size. length-nines size;
}

password_kept :
    (out : Bytes) × (encrypt plain_cipher 16 nine_keys
        (codes "cbc")
        128
        (codes "secret")
        none
        (some (nines 16))
        (some (nines 7))
        (nines 17)
      ≡ ok out)
    × (decrypt plain_cipher 16 nine_keys keytype_password 128 (codes "secret") [] out
        ≡ ok (nines 17))
unfolding strncmp_eq
password_kept =
    decrypt-encrypt_password plain_cipher plain_cipher-Inverts nine_keys nine_keys-Derives
      (codes "cbc") 128 (codes "secret") [] (nines 16) (nines 7) (nines 17) refl (inl refl) refl
      refl (omega arith) (omega arith)

padding_left :
    (out : Bytes) × (encrypt plain_cipher 16 nine_keys
        (codes "cbc")
        128
        []
        (some (nines 128, nines 16))
        none
        none
        (nines 17)
      ≡ ok out)
    × (decrypt plain_cipher 16 nine_keys keytype_user 128 [] (nines 128) out
        ≡ ok (padded (nines 17)))
unfolding strncmp_eq is_key_set
padding_left =
    decrypt-encrypt_user plain_cipher plain_cipher-Inverts nine_keys (codes "cbc") 128 []
      (nines 128) (nines 16) (nines 17) refl (inl refl) (length-nines 128) refl refl (omega arith)
      (omega arith)
