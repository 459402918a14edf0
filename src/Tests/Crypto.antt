-- ===== src/Tests/Crypto.antt =====
-- A file of seven bytes under a cipher that adds 1 to every byte.
use wolf_clu.Base.{
  suc, ◌-◌, Bool, true, false, List, [], ◌∷◌, ◌++◌, Option, some, ◌≡◌, refl, ap, ◌∙◌, inr, arith,
  length, if◌then◌else◌,
}
use wolf_clu.Base.Result.{ok}
use wolf_clu.Text.{Bytes, codes}
use wolf_clu.Crypto.{Cipher, Settings, keytype_password, encrypt_file, decrypt_file}
use wolf_clu.Crypto.Stream.{concat, feed, Seals}
use wolf_clu.Crypto.RoundTrip.{Base64, decrypt_file-encrypt_file}

abbrev up : Bytes → Bytes
up [] = []
up (c ∷ s) = suc c ∷ up s

abbrev down : Bytes → Bytes
down [] = []
down (c ∷ s) = (c - 1) ∷ down s

abbrev shift : Bool → Bytes → Bytes
shift enc s = if enc then up s else down s

abbrev caesar : Cipher
caesar = record {
  Context = Bool;
  init = λ enc key iv. some enc;
  update = λ enc s. some (enc, shift enc s);
  final = λ enc. some [];
}

down-up : (s : Bytes) → down (up s) ≡ s
down-up [] = refl
down-up (c ∷ s) = rw (down-up s) (let e : suc c - 1 ≡ c = omega arith in ap (λ n. n ∷ s) e)

length-up : (s : Bytes) → length (up s) ≡ length s
length-up [] = refl
length-up (c ∷ s) = ap suc (length-up s)

shift-append : (enc : Bool) (s t : Bytes) → shift enc (s ++ t) ≡ shift enc s ++ shift enc t
shift-append true [] t = refl
shift-append false [] t = refl
shift-append true (c ∷ s) t = ap (◌∷◌ (suc c)) (shift-append true s t)
shift-append false (c ∷ s) t = ap (◌∷◌ (c - 1)) (shift-append false s t)

feed-caesar : (enc : Bool) (cs : List Bytes) → feed caesar enc cs ≡ some (shift enc (concat cs))
feed-caesar true [] = refl
feed-caesar false [] = refl
feed-caesar enc (c ∷ cs) = rw (feed-caesar enc cs, shift-append enc c (concat cs))

caesar_seals : Seals caesar
caesar_seals = record {
  sealed = λ key iv text. up text;
  seals = λ key iv cs h. feed-caesar true cs;
  grows = λ key iv text. omega (arith, length-up text);
  opens = λ key iv text cs h e.
      feed-caesar false cs ∙ ap (λ x. some (down x)) e ∙ ap some (down-up text);
}

-- a base64 that leaves the text as it is
no_encoding : Base64 (λ x. x) (λ x. some x)
no_encoding = record { decodes = λ x h. refl; not_empty = λ x h. h }

abbrev derive : Bool → Option Bytes → Bytes → Option (Bytes × Bytes)
derive pbkdf2 salt password = some (password, [])

abbrev settings : Settings
settings = record {
  key_type = keytype_password;
  no_salt = false;
  pbkdf2 = true;
  is_base64 = true;
  password = codes "secret";
  key = [];
  iv = [];
}

bozeman_sealed :
    (out : Bytes) × (encrypt_file derive caesar
        (λ x. x)
        settings
        (some (codes "saltsalt"))
        (codes "Bozeman")
      ≡ ok out)
    × (decrypt_file derive caesar (λ x. some x) settings [] out ≡ ok (codes "Bozeman"))
bozeman_sealed =
    decrypt_file-encrypt_file derive settings caesar caesar_seals (λ x. x) (λ x. some x) no_encoding
      (λ salt. ((codes "secret", []), refl)) (codes "saltsalt") [] (codes "Bozeman") refl
      (inr (omega arith))
