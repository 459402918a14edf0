-- ===== src/Crypto/Setup/Keys.antt =====
-- src/crypto/clu_crypto_setup.c, `wolfCLU_setup`: where the key comes from.
use wolf_clu.Base.{
  ℕ, Bool, true, false, not, ◌&&◌, ◌||◌, List, [], ◌∷◌, Option, none, some, ◌≡◌, ◌⊎◌, refl, length,
  if◌then◌else◌, ◌==◌,
}
use wolf_clu.Base.Result.{Err, Result, ok, err}
use wolf_clu.Text.{Bytes}
use wolf_clu.Crypto.KeyFile.{load_hex_key, read_key}
use wolf_clu.Hex.{hex_to_bin}
use wolf_clu.Input.{get_password}
use wolf_clu.Args.{Event, found_twice, given, Step}
use wolf_clu.Args.Loop.{Continues}
use wolf_clu.Crypto.{KeyType, keytype_none, keytype_password, keytype_user, is_user}
use wolf_clu.Crypto.Options.{
  CryptOption, opt_digest, opt_infile, opt_outfile, opt_password, opt_key, opt_iv, opt_inkey,
  opt_output, opt_pbkdf2, opt_md, opt_decrypt, opt_debug, opt_base64, opt_nosalt,
  opt_password_source, Locals,
}
use wolf_clu.Crypto.Setup.Given.{Secrets, handle}
use wolf_clu.Crypto.Setup.{Plan, run, failed, set_key, set_iv, set_password, crypt_option}

-- `keyType` names something that was given: a password, or a key.
abbrev pub consistent : KeyType → Bool → Bool → Bool
consistent keytype_none pwd key = not pwd && not key
consistent keytype_password pwd key = pwd
consistent keytype_user pwd key = key

-- What holds between two options; one of the two directions is chosen.
abbrev pub Inv : Locals → Type 0
Inv s = (consistent s.key_type s.pwd_key_chk s.key_check ≡ true) × (s.enc_check ≡ not s.dec_check)

-- The password is the one that was given, or the one typed in if none was.
abbrev pub IsPassword : Secrets → Result Bytes → Bytes → Type 0
IsPassword g typed p = (g.given_password ≡ some p) ⊎ ((g.given_password ≡ none) × (typed ≡ ok p))

-- What is run: with the key and the IV that were given; or with a password that was given or asked
-- for, and neither key nor IV; or with an empty password, because a key and an IV were given as well
-- but `keyType` is that of a password. A decryption has an input.
pub data Keyed (g : Secrets) (typed : Result Bytes) (enc : Bool) (s : Locals) : Type 0 where
  by_key :
      g.given_key ≡ some s.key
      → g.given_iv ≡ some s.iv
      → s.key_type ≡ keytype_user
      → s.key_check ≡ true
      → s.iv_check ≡ true
      → (enc || s.in_check) ≡ true
      → Keyed g typed enc s
  by_password :
      g.given_key ≡ none
      → g.given_iv ≡ none
      → IsPassword g typed s.pwd_key
      → is_user s.key_type ≡ false
      → s.pwd_key_chk ≡ true
      → s.key_check ≡ false
      → s.iv_check ≡ false
      → (enc || s.in_check) ≡ true
      → Keyed g typed enc s
  by_empty_password :
      g.given_key ≡ some s.key
      → g.given_iv ≡ some s.iv
      → s.key_type ≡ keytype_password
      → s.pwd_key_chk ≡ true
      → s.key_check ≡ true
      → s.iv_check ≡ true
      → s.pwd_key ≡ []
      → (enc || s.in_check) ≡ true
      → Keyed g typed enc s

-- The output is -out's or the name that was typed in.
abbrev pub has_output : Locals → Bool
has_output s = s.out_check || elim s.output [ none ↦ false | some name ↦ true ]

-- A plan is an error, or it runs one direction, with an output if the cipher is not one of EVP; the
-- usage is never shown.
pub data Settled (evp : Bool) (g : Secrets) (typed : Result Bytes) : Plan → Type 0 where
  runs :
      (enc : Bool) (s : Locals)
      → Keyed g typed enc s
      → (evp || has_output s) ≡ true
      → Settled evp g typed (run enc s)
  fails : (e : Err) → Settled evp g typed (failed e)

if-Inv :
    (b : Bool) (x y : Step Locals Err)
    → Continues Inv x
    → Continues Inv y
    → Continues Inv (if b then x else y)
if-Inv true x y h k = h
if-Inv false x y h k = k

set_key-Inv : (r : Result Bytes) (s : Locals) → Inv s → Continues Inv (set_key r s)
set_key-Inv (err e) s h = tt
set_key-Inv (ok k) s h = (refl, h.1)

set_password-Inv :
    (r : Result (Bytes × Bytes)) (s : Locals) → Inv s → Continues Inv (set_password r s)
set_password-Inv (err e) s h = tt
set_password-Inv (ok (p, rest)) s h = (refl, h.1)

module _ (base16_decode : Bytes → ℕ → Result Bytes) (malloc : ℕ → Bool)
    (read_file : Bytes → Option Bytes) (knows : Option Bytes → Bool) (key_size block : ℕ) where
  set_iv-Inv :
      (r : Result (List Bytes)) (s : Locals)
      → Inv s
      → Continues Inv (set_iv base16_decode malloc read_file knows key_size block r s)
  set_iv-Inv (err e) s h = tt
  set_iv-Inv (ok []) s h = tt
  set_iv-Inv (ok (v ∷ vs)) s h = if-Inv (length v == block) _ _ h tt

  pub crypt_option-Inv :
      (ev : Event CryptOption) (s : Locals)
      → Inv s
      → Continues Inv (handle base16_decode malloc read_file knows key_size block ev s)
  unfolding crypt_option
  crypt_option-Inv found_twice s h = tt
  crypt_option-Inv (given opt_digest _) s h = h
  crypt_option-Inv (given opt_infile arg) s h = h
  crypt_option-Inv (given opt_output arg) s h = h
  crypt_option-Inv (given opt_outfile arg) s h = h
  crypt_option-Inv (given opt_password none) s h = tt
  crypt_option-Inv (given opt_password (some arg)) s h = (refl, h.1)
  crypt_option-Inv (given opt_password_source none) s h = tt
  crypt_option-Inv (given opt_password_source (some arg)) s h =
      set_password-Inv (get_password key_size arg s.stdin) s h
  crypt_option-Inv (given opt_key none) s h = tt
  crypt_option-Inv (given opt_key (some arg)) s h =
      set_key-Inv (load_hex_key base16_decode malloc key_size arg) s h
  crypt_option-Inv (given opt_inkey none) s h = tt
  crypt_option-Inv (given opt_inkey (some arg)) s h =
      set_key-Inv (read_key base16_decode malloc key_size (read_file arg)) s h
  crypt_option-Inv (given opt_iv none) s h = tt
  crypt_option-Inv (given opt_iv (some arg)) s h =
      set_iv-Inv (hex_to_bin base16_decode malloc (arg ∷ [])) s h
  crypt_option-Inv (given opt_pbkdf2 _) s h = h
  crypt_option-Inv (given opt_md arg) s h = if-Inv (knows arg) _ _ h tt
  crypt_option-Inv (given opt_decrypt _) s h = (h.0, refl)
  crypt_option-Inv (given opt_debug _) s h = h
  crypt_option-Inv (given opt_base64 _) s h = h
  crypt_option-Inv (given opt_nosalt _) s h = h
