-- ===== src/Crypto/Setup/Given.antt =====
-- src/crypto/clu_crypto_setup.c, `wolfCLU_setup`: the key, the IV and the password that the options
-- give.
use wolf_clu.Base.{
  ℕ, ◌-◌, Bool, true, false, List, [], ◌∷◌, Option, none, some, ◌≡◌, refl, ap, ◌∙◌, length, take,
  if◌then◌else◌, ◌==◌,
}
use wolf_clu.Base.Result.{Err, fatal_error, Result, ok, err}
use wolf_clu.Text.{Bytes}
use wolf_clu.Crypto.KeyFile.{load_hex_key, read_key}
use wolf_clu.Hex.{hex_to_bin}
use wolf_clu.Input.{get_password}
use wolf_clu.Args.{Event, found_twice, given, Step, continue, leave, run_events}
use wolf_clu.Args.Loop.{Continues}
use wolf_clu.Crypto.Options.{
  CryptOption, opt_digest, opt_infile, opt_outfile, opt_password, opt_key, opt_iv, opt_inkey,
  opt_output, opt_pbkdf2, opt_md, opt_decrypt, opt_debug, opt_base64, opt_nosalt,
  opt_password_source, Locals,
}
use wolf_clu.Crypto.Setup.{set_key, set_iv, set_password, crypt_option}

-- The key, the IV and the password that were given, and what is left of the standard input, from
-- which a password may be read.
pub record Secrets : Type 0 where
  pub given_key : Option Bytes
  pub given_iv : Option Bytes
  pub given_password : Option Bytes
  pub input_left : Bytes

abbrev pub key_read : Result Bytes → Secrets → Secrets
key_read (err e) g = g
key_read (ok k) g = record g { given_key = some k }

abbrev pub iv_read : Result (List Bytes) → Secrets → Secrets
iv_read (ok (v ∷ vs)) g = record g { given_iv = some v }
iv_read _ g = g

abbrev pub password_read : Result (Bytes × Bytes) → Secrets → Secrets
password_read (err e) g = g
password_read (ok (p, rest)) g = record g { given_password = some p; input_left = rest }

-- the value that the locals have if the flag is set
abbrev pub noted : Bool → Bytes → Option Bytes
noted true s = some s
noted false s = none

abbrev pub view : Locals → Secrets
view s = record {
  given_key = noted s.key_check s.key;
  given_iv = noted s.iv_check s.iv;
  given_password = noted s.pwd_key_chk s.pwd_key;
  input_left = s.stdin;
}

module _ (base16_decode : Bytes → ℕ → Result Bytes) (malloc : ℕ → Bool)
    (read_file : Bytes → Option Bytes) (knows : Option Bytes → Bool) (key_size block : ℕ) where
  abbrev pub handle : Event CryptOption → Locals → Step Locals Err
  handle = crypt_option base16_decode malloc read_file knows key_size block

  -- What one option gives: -key has a key in hexadecimal, -inkey a file with one, -iv an IV, -k and
  -- -pwd a password, and -pass says where one is.
  abbrev pub gives : Event CryptOption → Secrets → Secrets
  gives (given opt_key (some arg)) g = key_read (load_hex_key base16_decode malloc key_size arg) g
  gives (given opt_inkey (some arg)) g =
      key_read (read_key base16_decode malloc key_size (read_file arg)) g
  gives (given opt_iv (some arg)) g = iv_read (hex_to_bin base16_decode malloc (arg ∷ [])) g
  gives (given opt_password (some arg)) g = record g {
    given_password = some (take (key_size - 1) arg);
  }
  gives (given opt_password_source (some arg)) g =
      password_read (get_password key_size arg g.input_left) g
  gives ev g = g

  abbrev pub all_give : List (Event CryptOption) → Secrets → Secrets
  all_give [] g = g
  all_give (ev ∷ evs) g = all_give evs (gives ev g)

  set_key-view :
      (r : Result Bytes) (s : Locals) → Continues (λ t. view t ≡ key_read r (view s)) (set_key r s)
  set_key-view (err e) s = tt
  set_key-view (ok k) s = refl

  set_password-view :
      (r : Result (Bytes × Bytes)) (s : Locals)
      → Continues (λ t. view t ≡ password_read r (view s)) (set_password r s)
  set_password-view (err e) s = tt
  set_password-view (ok (p, rest)) s = refl

  if_view :
      (b : Bool) (g : Secrets) (s : Locals)
      → view s ≡ g
      → Continues (λ t. view t ≡ g) (if b then continue s else leave fatal_error)
  if_view true g s h = h
  if_view false g s h = tt

  set_iv-view :
      (r : Result (List Bytes)) (s : Locals)
      → Continues
          (λ t. view t ≡ iv_read r (view s))
          (set_iv base16_decode malloc read_file knows key_size block r s)
  set_iv-view (err e) s = tt
  set_iv-view (ok []) s = tt
  set_iv-view (ok (v ∷ vs)) s =
      if_view (length v == block) (record (view s) { given_iv = some v })
        (record s { iv = v; iv_check = true }) refl

  crypt_option-view :
      (ev : Event CryptOption) (s : Locals)
      → Continues (λ t. view t ≡ gives ev (view s)) (handle ev s)
  unfolding crypt_option
  crypt_option-view found_twice s = tt
  crypt_option-view (given opt_digest _) s = refl
  crypt_option-view (given opt_infile arg) s = refl
  crypt_option-view (given opt_output arg) s = refl
  crypt_option-view (given opt_outfile arg) s = refl
  crypt_option-view (given opt_password none) s = tt
  crypt_option-view (given opt_password (some arg)) s = refl
  crypt_option-view (given opt_password_source none) s = tt
  crypt_option-view (given opt_password_source (some arg)) s =
      set_password-view (get_password key_size arg s.stdin) s
  crypt_option-view (given opt_key none) s = tt
  crypt_option-view (given opt_key (some arg)) s =
      set_key-view (load_hex_key base16_decode malloc key_size arg) s
  crypt_option-view (given opt_inkey none) s = tt
  crypt_option-view (given opt_inkey (some arg)) s =
      set_key-view (read_key base16_decode malloc key_size (read_file arg)) s
  crypt_option-view (given opt_iv none) s = tt
  crypt_option-view (given opt_iv (some arg)) s =
      set_iv-view (hex_to_bin base16_decode malloc (arg ∷ [])) s
  crypt_option-view (given opt_pbkdf2 _) s = refl
  crypt_option-view (given opt_md arg) s =
      if_view (knows arg) (view s) (record s { digest = arg }) refl
  crypt_option-view (given opt_decrypt _) s = refl
  crypt_option-view (given opt_debug _) s = refl
  crypt_option-view (given opt_base64 _) s = refl
  crypt_option-view (given opt_nosalt _) s = refl

  -- Behind the options the locals have what the options give.
  pub run_events-view :
      (evs : List (Event CryptOption)) (s : Locals)
      → Continues (λ t. view t ≡ all_give evs (view s)) (run_events handle evs s)
  unfolding run_events
  run_events-view [] s = refl
  run_events-view (ev ∷ evs) s =
      go (handle ev s) (crypt_option-view ev s) λ s'. run_events-view evs s'
    where
      more :
          (s' : Locals) (r : Step Locals Err)
          → view s' ≡ gives ev (view s)
          → Continues (λ t. view t ≡ all_give evs (view s')) r
          → Continues (λ t. view t ≡ all_give evs (gives ev (view s))) r
      more s' (leave e) h k = tt
      more s' (continue t) h k = k ∙ ap (all_give evs) h

      go :
          (r : Step Locals Err)
          → Continues (λ t. view t ≡ gives ev (view s)) r
          → ((s' : Locals)
              → Continues (λ t. view t ≡ all_give evs (view s')) (run_events handle evs s'))
          → Continues
              (λ t. view t ≡ all_give evs (gives ev (view s)))
              (elim r [ continue s' ↦ run_events handle evs s' | leave e ↦ leave e ])
      go (leave e) h next = tt
      go (continue s') h next = more s' (run_events handle evs s') h (next s')
