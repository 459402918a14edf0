-- ===== src/Sign/Ready.antt =====
-- src/sign-verify/clu_sign_verify_setup.c, what stands ready for the signature.
use wolf_clu.Base.{
  ◌+◌, Bool, true, false, not, ◌&&◌, ◌||◌, List, [], ◌∷◌, Option, none, some, ◌≡◌, ◌⊎◌, refl, ap,
  sym, ◌∙◌, arith, length, All, Option-cases, inl, inr, Bool-cases, if◌then◌else◌,
}
use mathlib.Core.Option
use wolf_clu.Base.Result.{Err, Result, ok, err, fatal_error}
use wolf_clu.Text.{Bytes}
use wolf_clu.Forms.{Form, check_inform}
use wolf_clu.Args.{Argv, Event, found_twice, given, Step, continue, leave, run_events, events}
use wolf_clu.Args.Loop.{option_loop-run_events, Continues, run_events-All}
use wolf_clu.Sign.{
  SigAlg, rsa_sig_ver, ed25519_sig_ver, alg_of, SignOption, opt_verify, opt_inkey, opt_infile,
  opt_sigfile, opt_inform, sign_verify_options, SignLocals, no_sign_locals, SignPlan, sign_error,
  sign_data, verify_signature, is_missing, is_null, sign_option, needs_out, needs_in,
  after_sign_options, sign_plan_of, sign_verify_setup,
}

-- A file that was named and exists.
abbrev pub Exists : (Bytes → Bool) → Option Bytes → Type 0
Exists exists none = ⊥
Exists exists (some name) = exists name ≡ true

-- A file that was named.
abbrev pub IsNamed : Option Bytes → Type 0
IsNamed none = ⊥
IsNamed (some name) = Unit

-- The input and the output of a signature: the input exists, and an output is named but for ED25519.
abbrev pub SignFiles : (Bytes → Bool) → SigAlg → Option Bytes → Option Bytes → Type 0
SignFiles exists ed25519_sig_ver in_file out_file = Exists exists in_file
SignFiles exists _ in_file out_file = Exists exists in_file × IsNamed out_file

-- What is verified: for RSA only the signature, into an output, for the others the input that was
-- signed.
abbrev pub VerifyFiles : (Bytes → Bool) → SigAlg → Option Bytes → Option Bytes → Type 0
VerifyFiles exists rsa_sig_ver in_file out_file = IsNamed out_file
VerifyFiles exists _ in_file out_file = Exists exists in_file

-- A key, and for verifying a signature, exist, and so do the files. The Boolean is whether -verify is
-- given: with it, a signature may have the files of a verification in place of its own.
abbrev pub Ready : (Bytes → Bool) → Bool → SignPlan → Type 0
Ready exists asked (sign_data alg in_file out_file priv form) =
    Exists exists priv
    × (SignFiles exists alg in_file out_file
        ⊎ ((asked ≡ true) × VerifyFiles exists alg in_file out_file))
Ready exists asked (verify_signature alg sig in_file out_file priv pub_in form) =
    (asked ≡ true)
    × Exists exists priv
    × Exists exists sig
    × VerifyFiles exists alg in_file out_file
Ready exists asked _ = Unit

abbrev is_verify : Event SignOption → Bool
is_verify (given opt_verify arg) = true
is_verify _ = false

-- -verify is given.
abbrev pub verify_given : List (Event SignOption) → Bool
verify_given [] = false
verify_given (ev ∷ evs) = is_verify ev || verify_given evs

module _ (exists : Bytes → Bool) where
  -- A file that is named exists.
  abbrev Checked : Option Bytes → Type 0
  Checked none = Unit
  Checked (some name) = exists name ≡ true

  abbrev InChecked : Bool → Option Bytes → Type 0
  InChecked true o = Exists exists o
  InChecked false o = Unit

  record Inv (asked : Bool) (s : SignLocals) : Type 0 where
    verify_asked : s.verify_check ≡ true → asked ≡ true
    priv_checked : Checked s.priv
    sig_checked : Checked s.sig
    in_checked : InChecked s.in_check s.in_file

  present : (o : Option Bytes) → is_missing exists o ≡ false → Exists exists o
  present none p = ground (arith, p)
  present (some name) p = ground (arith, p)

  present-Checked : (o : Option Bytes) → is_missing exists o ≡ false → Checked o
  present-Checked none p = tt
  present-Checked (some name) p = ground (arith, p)

  named-Exists : (o : Option Bytes) → is_null o ≡ false → Checked o → Exists exists o
  named-Exists none p h = ground (arith, p)
  named-Exists (some name) p h = h

  -- a change of the other locals
  kept :
      (asked : Bool) (s t : SignLocals)
      → s.verify_check ≡ t.verify_check
      → s.priv ≡ t.priv
      → s.sig ≡ t.sig
      → s.in_check ≡ t.in_check
      → s.in_file ≡ t.in_file
      → Inv asked s
      → Inv asked t
  kept asked s t v p q r u h = record {
    verify_asked = λ e. h.verify_asked (v ∙ e);
    priv_checked = rw (sym p) h.priv_checked;
    sig_checked = rw (sym q) h.sig_checked;
    in_checked = rw (sym r, sym u) h.in_checked;
  }

  sign_option-Inv :
      (asked : Bool) (ev : Event SignOption) (s : SignLocals)
      → (is_verify ev ≡ true → asked ≡ true)
      → Inv asked s
      → Continues (Inv asked) (sign_option exists ev s)
  unfolding sign_option
  sign_option-Inv asked found_twice s v h = tt
  sign_option-Inv asked (given opt_inkey arg) s v h = elim (Bool-cases (is_missing exists arg)) [
    | inl p ↦ rw p tt
    | inr p ↦ rw p (record {
      verify_asked = h.verify_asked;
      priv_checked = present-Checked arg p;
      sig_checked = h.sig_checked;
      in_checked = h.in_checked;
    })
  ]
  sign_option-Inv asked (given opt_infile arg) s v h = elim (Bool-cases (is_missing exists arg)) [
    | inl p ↦ rw p tt
    | inr p ↦ rw p (record {
      verify_asked = h.verify_asked;
      priv_checked = h.priv_checked;
      sig_checked = h.sig_checked;
      in_checked = present arg p;
    })
  ]
  sign_option-Inv asked (given opt_sigfile arg) s v h = elim (Bool-cases (is_missing exists arg)) [
    | inl p ↦ rw p tt
    | inr p ↦ rw p (record {
      verify_asked = h.verify_asked;
      priv_checked = h.priv_checked;
      sig_checked = present-Checked arg p;
      in_checked = h.in_checked;
    })
  ]
  sign_option-Inv asked (given opt_inform arg) s v h = go (check_inform arg)
    where
      go :
          (r : Result Form)
          → Continues {R = Err} (Inv asked) (elim r [
            | ok form ↦ continue (record s { in_form = form })
            | err e ↦ leave fatal_error
          ])
      go (ok form) = kept asked s _ refl refl refl refl refl h
      go (err e) = tt
  sign_option-Inv asked (given opt_verify arg) s v h = record {
    verify_asked = λ e. v refl;
    priv_checked = h.priv_checked;
    sig_checked = h.sig_checked;
    in_checked = h.in_checked;
  }
  sign_option-Inv asked (given o arg) s v h = kept asked s _ refl refl refl refl refl h

  -- a test in what follows the loop
  if-Ready :
      (asked b : Bool) (p q : SignPlan)
      → (b ≡ true → Ready exists asked p)
      → (b ≡ false → Ready exists asked q)
      → Ready exists asked (if b then p else q)
  if-Ready asked true p q f g = f refl
  if-Ready asked false p q f g = g refl

  sign-files :
      (alg : SigAlg) (verify in_check : Bool) (in_file out_file : Option Bytes)
      → verify ≡ false
      → InChecked in_check in_file
      → (is_null out_file && needs_out alg verify) ≡ false
      → (not in_check && needs_in alg verify) ≡ false
      → SignFiles exists alg in_file out_file
  unfolding needs_out needs_in
  sign-files alg true ic i o v r p q = absurd (ground (arith, v))
  sign-files alg false false i o v r p q = absurd (ground (arith, q))
  sign-files ed25519_sig_ver false true i o v r p q = r
  sign-files alg false true i none v r p q = absurd (ground (arith, p))
  sign-files alg false true i (some n) v r p q = (r, tt)

  verify-files :
      (alg : SigAlg) (verify in_check : Bool) (in_file out_file : Option Bytes)
      → verify ≡ true
      → InChecked in_check in_file
      → (is_null out_file && needs_out alg verify) ≡ false
      → (not in_check && needs_in alg verify) ≡ false
      → VerifyFiles exists alg in_file out_file
  unfolding needs_out needs_in
  verify-files alg false ic i o v r p q = absurd (ground (arith, v))
  verify-files rsa_sig_ver true ic i none v r p q = absurd (ground (arith, p))
  verify-files rsa_sig_ver true ic i (some n) v r p q = tt
  verify-files alg true true i o v r p q = r
  verify-files alg true false i o v r p q = absurd (ground (arith, q))

  unless : (a b : Bool) → (a && b) ≡ false → a ≡ true → b ≡ false
  unless a b p q = ground (arith, p, q)

  -- The plan of a loop that ends is ready.
  after_sign_options-Ready :
      (asked : Bool) (alg : SigAlg) (s : SignLocals)
      → Inv asked s
      → Ready exists asked (after_sign_options alg s)
  unfolding after_sign_options
  after_sign_options-Ready asked alg s h =
      if-Ready asked s.help_check _ _ (λ _. tt)
        λ _.
          if-Ready asked (is_null s.priv) _ _ (λ _. tt)
            λ k.
              if-Ready asked (s.verify_check && is_null s.sig) _ _ (λ _. tt)
                λ g.
                  if-Ready asked (is_null s.out_file && needs_out alg s.verify_check) _ _ (λ _. tt)
                    λ o.
                      if-Ready asked (not s.in_check && needs_in alg s.verify_check) _ _ (λ _. tt)
                        λ i.
                          let key = named-Exists s.priv k h.priv_checked in
                          if-Ready asked s.sign_check _ _
                            (λ _. (
                              key,
                              elim (Bool-cases s.verify_check) [
                                | inl v ↦ inr (
                                  h.verify_asked v,
                                  verify-files alg s.verify_check s.in_check s.in_file s.out_file v
                                      h.in_checked o i,
                                )
                                | inr v ↦ inl (
                                    sign-files alg s.verify_check s.in_check s.in_file s.out_file v
                                      h.in_checked o i)
                              ],
                            ))
                            λ _.
                              if-Ready asked s.verify_check _ _
                                (λ v. (
                                  h.verify_asked v,
                                  key,
                                  named-Exists s.sig (unless s.verify_check (is_null s.sig) g v)
                                      h.sig_checked,
                                  verify-files alg s.verify_check s.in_check s.in_file s.out_file v
                                      h.in_checked o i,
                                ))
                                λ _. tt

verify_given-All :
    (evs : List (Event SignOption)) (asked : Bool)
    → (verify_given evs ≡ true → asked ≡ true)
    → All (λ ev. is_verify ev ≡ true → asked ≡ true) evs
verify_given-All [] asked h = tt
verify_given-All (ev ∷ evs) asked h =
    ((λ p. h (ground (arith, p))), verify_given-All evs asked λ p. h (ground (arith, p)))

-- `wolfCLU_sign_verify_setup` ends. A key that is used to sign or to verify exists. What is signed exists
-- and an output is named, but for ED25519; or -verify is given as well, and then only the files of a
-- verification are sure: the input exists, or for RSA an output is named. A signature is verified only if
-- -verify is given; it exists, and so does the input that was signed, or for RSA an output is named.
pub sign_verify_setup-Ready :
    (exists : Bytes → Bool) (argv : Argv)
    → (plan : SignPlan) × (sign_verify_setup exists argv ≡ some plan)
      × Ready exists (verify_given (events argv 1 sign_verify_options)) plan
unfolding sign_verify_setup
sign_verify_setup-Ready exists argv = elim (Option-cases (alg_of argv)) [
  | inl p ↦ (sign_error fatal_error, rw (p, sign_verify_setup), tt)
  | inr (alg, p) ↦
      let evs = events argv 1 sign_verify_options in
      let st = run_events (sign_option exists) evs no_sign_locals in
      let loop =
        option_loop-run_events (sign_option exists) argv 1 sign_verify_options
          (length sign_verify_options + 1) 0 no_sign_locals (omega arith) in
      (
        sign_plan_of exists alg st,
        rw (p, sign_verify_setup) (ap (Option.map (sign_plan_of exists alg)) loop),
        ended alg evs st (
            run_events-All (sign_option exists) (Inv exists (verify_given evs))
              (λ ev. is_verify ev ≡ true → verify_given evs ≡ true)
              (sign_option-Inv exists (verify_given evs)) evs no_sign_locals
              (verify_given-All evs (verify_given evs) λ q. q) (start (verify_given evs))),
      )
]
  where
    start : (asked : Bool) → Inv exists asked no_sign_locals
    start asked = record {
      verify_asked = λ q. absurd (ground (arith, q));
      priv_checked = tt;
      sig_checked = tt;
      in_checked = tt;
    }

    ended :
        (alg : SigAlg) (evs : List (Event SignOption)) (st : Step SignLocals Err)
        → Continues (Inv exists (verify_given evs)) st
        → Ready exists (verify_given evs) (sign_plan_of exists alg st)
    ended alg evs (leave e) h = tt
    ended alg evs (continue s) h = after_sign_options-Ready exists (verify_given evs) alg s h
