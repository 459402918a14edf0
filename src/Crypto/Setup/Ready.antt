-- ===== src/Crypto/Setup/Ready.antt =====
-- src/crypto/clu_crypto_setup.c, `wolfCLU_setup`: what is run behind all questions.
use wolf_clu.Base.{
  ◌+◌, length, Option, none, some, Bool, true, false, not, ◌&&◌, ◌||◌, [], ◌≡◌, refl, sym, ap, ◌∙◌,
  arith, if◌then◌else◌, Bool-cases, inl, inr,
}
use mathlib.Core.Path.{subst}
use wolf_clu.Base.Result.{Result, fatal_error}
use wolf_clu.Text.{Bytes}
use wolf_clu.Crypto.{KeyType, keytype_none, keytype_password, keytype_user, is_user}
use wolf_clu.Crypto.Options.{Locals}
use wolf_clu.Crypto.Setup.{
  Plan, run, usage, failed, stuck, wipe, dispatch, Name, named, at_end, out_of_fuel, read_filename,
  ask_output, run_cipher_of,
}
use wolf_clu.Crypto.Setup.Given.{Secrets, noted}
use wolf_clu.Crypto.Setup.Filename.{IsAnswer, read_filename-IsAnswer}
use wolf_clu.Crypto.Setup.Keys.{
  IsPassword, Keyed, by_key, by_password, by_empty_password, Settled, runs, fails,
}

-- Behind the question for a password, `keyType` may still be that of neither.
abbrev pub placed : KeyType → Bool → Bool → Bool
placed keytype_none pwd key = not key
placed keytype_password pwd key = pwd
placed keytype_user pwd key = key

-- The conditions behind all questions.
pub record IsReady (g : Secrets) (typed : Result Bytes) (s : Locals) : Type 0 where
  pub key_noted : g.given_key ≡ noted s.key_check s.key
  pub iv_noted : g.given_iv ≡ noted s.iv_check s.iv
  pub password_noted : s.pwd_key_chk ≡ true → IsPassword g typed s.pwd_key
  pub one_way : s.enc_check ≡ not s.dec_check
  pub key_placed : placed s.key_type s.pwd_key_chk s.key_check ≡ true
  pub with_input : (s.enc_check || s.in_check) ≡ true
  pub iv_with_key : s.iv_check ≡ s.key_check
  pub has_secret : (s.pwd_key_chk || s.key_check) ≡ true

noted-true : (b : Bool) (s : Bytes) (o : Option Bytes) → o ≡ noted b s → b ≡ true → o ≡ some s
noted-true true s o h k = h
noted-true false s o h k = absurd (ground (arith, k))

noted-false : (b : Bool) (s : Bytes) (o : Option Bytes) → o ≡ noted b s → b ≡ false → o ≡ none
noted-false true s o h k = absurd (ground (arith, k))
noted-false false s o h k = h

module _ (g : Secrets) (typed : Result Bytes) (enc : Bool) (s : Locals) where
  with_key-Keyed :
      (kt : KeyType)
      → s.key_type ≡ kt
      → placed kt s.pwd_key_chk true ≡ true
      → g.given_key ≡ some s.key
      → g.given_iv ≡ some s.iv
      → s.key_check ≡ true
      → s.iv_check ≡ true
      → (s.pwd_key_chk ≡ true → s.pwd_key ≡ [])
      → (enc || s.in_check) ≡ true
      → Keyed g typed enc s
  with_key-Keyed keytype_none p q a b k v w i = absurd (ground (arith, q))
  with_key-Keyed keytype_password p q a b k v w i = by_empty_password a b p q k v (w q) i
  with_key-Keyed keytype_user p q a b k v w i = by_key a b p k v i

  user_key :
      (kt : KeyType) (pwd key : Bool) → placed kt pwd key ≡ true → key ≡ false → is_user kt ≡ false
  user_key keytype_none pwd key p q = refl
  user_key keytype_password pwd key p q = refl
  user_key keytype_user pwd key p q = absurd (ground (arith, p, q))

  with_password-Keyed :
      IsReady g typed s → s.key_check ≡ false → (enc || s.in_check) ≡ true → Keyed g typed enc s
  with_password-Keyed r k i =
      by_password (noted-false s.key_check s.key g.given_key r.key_noted k)
        (noted-false s.iv_check s.iv g.given_iv r.iv_noted (r.iv_with_key ∙ k))
        (r.password_noted (ground (arith, r.has_secret, k)))
        (user_key s.key_type s.pwd_key_chk s.key_check r.key_placed k)
        (ground (arith, r.has_secret, k)) k (r.iv_with_key ∙ k) i

module _ (s : Locals) where
  wipe_yes : (s.pwd_key_chk && s.key_check) ≡ true → wipe s ≡ record s { pwd_key = [] }
  unfolding wipe
  wipe_yes h = go (s.pwd_key_chk && s.key_check) h
    where
      go :
          (b : Bool)
          → b ≡ true
          → (if b then record s { pwd_key = [] } else s) ≡ record s { pwd_key = [] }
      go true h = refl
      go false h = absurd (ground (arith, h))

  wipe_no : (s.pwd_key_chk && s.key_check) ≡ false → wipe s ≡ s
  unfolding wipe
  wipe_no h = go (s.pwd_key_chk && s.key_check) h
    where
      go : (b : Bool) → b ≡ false → (if b then record s { pwd_key = [] } else s) ≡ s
      go true h = absurd (ground (arith, h))
      go false h = refl

module _ (g : Secrets) (typed : Result Bytes) (enc : Bool) (s : Locals) (r : IsReady g typed s)
    (i : (enc || s.in_check) ≡ true) where
  wipe-Keyed : Keyed g typed enc (wipe s)
  wipe-Keyed = elim (Bool-cases s.key_check) [
    | inr k ↦
        subst (Keyed g typed enc) (sym (wipe_no s (ground (arith, k))))
          (with_password-Keyed g typed enc s r k i)
    | inl k ↦
        let q : placed s.key_type s.pwd_key_chk true ≡ true =
          ap (placed s.key_type s.pwd_key_chk) (sym k) ∙ r.key_placed in
        let v = r.iv_with_key ∙ k in
        let a = noted-true s.key_check s.key g.given_key r.key_noted k in
        let b = noted-true s.iv_check s.iv g.given_iv r.iv_noted v in
        elim (Bool-cases s.pwd_key_chk) [
          | inl p ↦ subst (Keyed g typed enc) (sym (wipe_yes s (ground (arith, k, p)))) (
              with_key-Keyed g typed enc (record s { pwd_key = [] }) s.key_type refl q a b k v
                (λ _. refl) i)
          | inr p ↦ subst (Keyed g typed enc) (sym (wipe_no s (ground (arith, p)))) (
              with_key-Keyed g typed enc s s.key_type refl q a b k v
                (λ h. absurd (ground (arith, h, p))) i)
        ]
  ]

module _ (evp : Bool) (g : Secrets) (typed : Result Bytes) where
  -- A question ends with an error or goes on.
  pub Answer-Settled :
      (n : Name) (f : Bytes → Bytes → Plan)
      → IsAnswer n
      → ((name rest : Bytes) → Settled evp g typed (f name rest))
      → Settled evp g typed (elim n [
        | named name rest ↦ f name rest
        | at_end ↦ failed fatal_error
        | out_of_fuel ↦ stuck
      ])
  Answer-Settled (named name rest) f h k = k name rest
  Answer-Settled at_end f h k = fails fatal_error
  Answer-Settled out_of_fuel f h k = elim h [ ]

  with_stdin-Keyed :
      (enc : Bool) (s : Locals) (name rest : Bytes)
      → Keyed g typed enc s
      → Keyed g typed enc (record s { output = some name; stdin = rest })
  with_stdin-Keyed enc s name rest (by_key a b c d e f) = by_key a b c d e f
  with_stdin-Keyed enc s name rest (by_password a b c d e f h i) = by_password a b c d e f h i
  with_stdin-Keyed enc s name rest (by_empty_password a b c d e f h i) =
      by_empty_password a b c d e f h i

ask_output-Settled :
    (g : Secrets) (typed : Result Bytes) (enc : Bool) (s : Locals)
    → Keyed g typed enc s
    → Settled false g typed (ask_output enc s)
unfolding ask_output
ask_output-Settled g typed enc s k = go s.out_check refl
  where
    go :
        (b : Bool)
        → s.out_check ≡ b
        → Settled false g typed (
            if b then run enc s else elim (read_filename (length s.stdin + 1) 256 s.stdin) [
              | named name rest ↦ run enc (record s { output = some name; stdin = rest })
              | at_end ↦ failed fatal_error
              | out_of_fuel ↦ stuck
            ])
    go true p = runs enc s k (ground (arith, p))
    go false p =
        Answer-Settled false g typed (read_filename (length s.stdin + 1) 256 s.stdin)
          (λ name rest. run enc (record s { output = some name; stdin = rest }))
          (read_filename-IsAnswer (length s.stdin + 1) 254 s.stdin (omega arith))
          λ name rest.
            runs enc (record s { output = some name; stdin = rest })
              (with_stdin-Keyed false g typed enc s name rest k) (ground arith)

module _ (evp : Bool) (g : Secrets) (typed : Result Bytes) where
  run_cipher_of-Settled :
      (e enc : Bool) (s : Locals)
      → evp ≡ e
      → Keyed g typed enc s
      → Settled evp g typed (run_cipher_of e enc s)
  unfolding run_cipher_of
  run_cipher_of-Settled true enc s p k = runs enc s k (ground (arith, p))
  run_cipher_of-Settled false enc s p k =
      subst (λ b. Settled b g typed (ask_output enc s)) (sym p) (ask_output-Settled g typed enc s k)

  pub dispatch-Settled : (s : Locals) → IsReady g typed s → Settled evp g typed (dispatch evp s)
  unfolding dispatch
  dispatch-Settled s r =
      go s.enc_check s.dec_check r.one_way (λ i. wipe-Keyed g typed true s r i)
        (λ e. wipe-Keyed g typed false s r (ground (arith, r.with_input, e))) refl
    where
      go :
          (e d : Bool)
          → e ≡ not d
          → (true ≡ true → Keyed g typed true (wipe s))
          → (s.enc_check ≡ false → Keyed g typed false (wipe s))
          → s.enc_check ≡ e
          → Settled evp g typed (
              if e
              then run_cipher_of evp true (wipe s)
              else if d
              then run_cipher_of evp false (wipe s)
              else usage)
      go true d h a b p = run_cipher_of-Settled evp true (wipe s) refl (a refl)
      go false true h a b p = run_cipher_of-Settled evp false (wipe s) refl (b p)
      go false false h a b p = absurd (ground (arith, h))
