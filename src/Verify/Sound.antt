-- ===== src/Verify/Sound.antt =====
-- src/sign-verify/clu_x509_verify.c, what an "OK" means.
use wolf_clu.Base.{
  ◌+◌, ◌-◌, Bool, true, false, not, ◌&&◌, ◌||◌, List, [], ◌∷◌, Option, none, some, ◌≡◌, ◌⊎◌, inl,
  inr, refl, ap, sym, ◌∙◌, arith, length, Option-cases, Bool-cases,
}
use mathlib.Core.Option
use mathlib.Core.Path.{subst}
use wolf_clu.Text.{Bytes, codes, bytes_eq, strncmp_eq}
use wolf_clu.Args.{
  Argv, arg_at, Event, found_twice, given, Step, continue, leave, run_events, events,
}
use wolf_clu.Args.Loop.{option_loop-run_events, Continues}
use wolf_clu.Verify.{
  VerifyOption, opt_cafile, opt_intermediate, opt_check_crl, opt_partial_chain, opt_help,
  verify_options, VerifyApi, VerifyLocals, no_verify_locals, Verdict, verify_help, verify_ok,
  verify_option, load_cert_from_file, load_intermediate, ca_is_cert, ca_ready, store_of,
  verify_chain, conclude_verify, x509_verify,
}

abbrev pub is_check_crl : Event VerifyOption → Bool
is_check_crl (given opt_check_crl arg) = true
is_check_crl ev = false

abbrev pub is_partial_chain : Event VerifyOption → Bool
is_partial_chain (given opt_partial_chain arg) = true
is_partial_chain ev = false

-- Whether an option is among those that were found.
abbrev pub any_event : (Event VerifyOption → Bool) → List (Event VerifyOption) → Bool
any_event test [] = false
any_event test (ev ∷ evs) = test ev || any_event test evs

-- The value of -CAfile and of -untrusted, with the one that stands if there is none.
abbrev ca_of : Event VerifyOption → Option Bytes → Option Bytes
ca_of (given opt_cafile arg) old = arg
ca_of ev old = old

abbrev intermediate_of : Event VerifyOption → Option Bytes → Option Bytes
intermediate_of (given opt_intermediate arg) old = arg
intermediate_of ev old = old

abbrev pub ca_value : List (Event VerifyOption) → Option Bytes → Option Bytes
ca_value [] old = old
ca_value (ev ∷ evs) old = ca_value evs (ca_of ev old)

abbrev pub intermediate_value : List (Event VerifyOption) → Option Bytes → Option Bytes
intermediate_value [] old = old
intermediate_value (ev ∷ evs) old = intermediate_value evs (intermediate_of ev old)

-- No CA, or one that is loaded and, without -partial_chain, signed by itself and another file.
abbrev pub Trusted : VerifyApi → Bool → Bytes → Option Bytes → Type 0
Trusted api partial name none = Unit
Trusted api partial name (some ca) =
    (api.load_file ca ≡ true)
    × ((partial ≡ true) ⊎ ((api.self_signed ca ≡ true) × (bytes_eq ca name ≡ false)))

-- A file is read as PEM, or else as DER.
abbrev pub IsRead : (api : VerifyApi) → Bytes → api.Cert → Type 0
IsRead api file cert =
    (api.read_pem file ≡ some cert) ⊎ ((api.read_pem file ≡ none) × (api.read_der file ≡ some cert))

-- The intermediate certificate is the one of the file that was named, and there is none if none was.
abbrev pub IsIntermediate : (api : VerifyApi) → Option Bytes → Option api.Cert → Type 0
IsIntermediate api none cert = cert ≡ none
IsIntermediate api (some file) none = ⊥
IsIntermediate api (some file) (some cert) = IsRead api file cert

-- The last argument is a certificate that wolfSSL accepts, with the CA, the flags and the intermediate
-- certificate that the options give.
pub record Verified (api : VerifyApi) (name : Bytes) (evs : List (Event VerifyOption))
    : Type 0 where
  pub cert : api.Cert
  pub intermediate : Option api.Cert
  pub cert_is_read : IsRead api name cert
  pub intermediate_is_read : IsIntermediate api (intermediate_value evs none) intermediate
  pub ca_trusted : Trusted api (any_event is_partial_chain evs) name (ca_value evs none)
  pub accepted :
      api.verify_cert
        (record {
          loaded = ca_value evs none;
          crl_check = any_event is_check_crl evs;
          partial_chain = any_event is_partial_chain evs;
        })
        cert
        intermediate
      ≡ true

-- The locals that the options leave.
record Settled (evs : List (Event VerifyOption)) (s t : VerifyLocals) : Type 0 where
  crl_settled : t.crl ≡ (s.crl || any_event is_check_crl evs)
  partial_settled : t.partial ≡ (s.partial || any_event is_partial_chain evs)
  ca_settled : t.ca_cert ≡ ca_value evs s.ca_cert
  intermediate_settled : t.interm_cert ≡ intermediate_value evs s.interm_cert

module _ (have_crl : Bool) (argv : Argv) where
  regroup : (a b c d : Bool) → d ≡ (a || b) → (d || c) ≡ (a || (b || c))
  regroup a b c d h = ground (arith, h)

  -- the first option, then the others
  settle :
      (ev : Event VerifyOption) (evs : List (Event VerifyOption)) (s s' t : VerifyLocals)
      → s'.crl ≡ (s.crl || is_check_crl ev)
      → s'.partial ≡ (s.partial || is_partial_chain ev)
      → s'.ca_cert ≡ ca_of ev s.ca_cert
      → s'.interm_cert ≡ intermediate_of ev s.interm_cert
      → Settled evs s' t
      → Settled (ev ∷ evs) s t
  settle ev evs s s' t c p a i h = record {
    crl_settled =
        h.crl_settled ∙ regroup s.crl (is_check_crl ev) (any_event is_check_crl evs) s'.crl c;
    partial_settled =
        h.partial_settled
        ∙ regroup s.partial (is_partial_chain ev) (any_event is_partial_chain evs) s'.partial p;
    ca_settled = h.ca_settled ∙ ap (ca_value evs) a;
    intermediate_settled = h.intermediate_settled ∙ ap (intermediate_value evs) i;
  }

  settle_step :
      (ev : Event VerifyOption) (evs : List (Event VerifyOption)) (s s' : VerifyLocals)
      (r : Step VerifyLocals Verdict)
      → s'.crl ≡ (s.crl || is_check_crl ev)
      → s'.partial ≡ (s.partial || is_partial_chain ev)
      → s'.ca_cert ≡ ca_of ev s.ca_cert
      → s'.interm_cert ≡ intermediate_of ev s.interm_cert
      → Continues (Settled evs s') r
      → Continues (Settled (ev ∷ evs) s) r
  settle_step ev evs s s' (continue t) c p a i h = settle ev evs s s' t c p a i h
  settle_step ev evs s s' (leave v) c p a i h = tt

  or_false : (b : Bool) → b ≡ (b || false)
  or_false b = ground arith

  or_true : (b : Bool) → true ≡ (b || true)
  or_true b = ground arith

  run_events-Settled :
      (evs : List (Event VerifyOption)) (s : VerifyLocals)
      → Continues (Settled evs s) (run_events (verify_option have_crl argv) evs s)
  unfolding run_events verify_option
  run_events-Settled [] s = record {
    crl_settled = or_false s.crl;
    partial_settled = or_false s.partial;
    ca_settled = refl;
    intermediate_settled = refl;
  }
  run_events-Settled (found_twice ∷ evs) s =
      settle_step found_twice evs s _ _ (or_false s.crl) (or_false s.partial) refl refl
        (run_events-Settled evs _)
  run_events-Settled (given opt_check_crl arg ∷ evs) s =
      settle_step (given opt_check_crl arg) evs s _ _ (or_true s.crl) (or_false s.partial) refl refl
        (run_events-Settled evs _)
  run_events-Settled (given opt_partial_chain arg ∷ evs) s =
      settle_step (given opt_partial_chain arg) evs s _ _ (or_false s.crl) (or_true s.partial) refl
        refl (run_events-Settled evs _)
  run_events-Settled (given opt_cafile arg ∷ evs) s =
      settle_step (given opt_cafile arg) evs s _ _ (or_false s.crl) (or_false s.partial) refl refl
        (run_events-Settled evs _)
  run_events-Settled (given opt_intermediate arg ∷ evs) s =
      settle_step (given opt_intermediate arg) evs s _ _ (or_false s.crl) (or_false s.partial) refl
        refl (run_events-Settled evs _)
  run_events-Settled (given opt_help arg ∷ evs) s = tt

-- The loop is left for the help only.
abbrev LeavesWithHelp : Step VerifyLocals Verdict → Type 0
LeavesWithHelp (leave verify_ok) = ⊥
LeavesWithHelp r = Unit

run_events-LeavesWithHelp :
    (have_crl : Bool) (argv : Argv) (evs : List (Event VerifyOption)) (s : VerifyLocals)
    → LeavesWithHelp (run_events (verify_option have_crl argv) evs s)
unfolding run_events verify_option
run_events-LeavesWithHelp have_crl argv [] s = tt
run_events-LeavesWithHelp have_crl argv (found_twice ∷ evs) s =
    run_events-LeavesWithHelp have_crl argv evs _
run_events-LeavesWithHelp have_crl argv (given opt_check_crl arg ∷ evs) s =
    run_events-LeavesWithHelp have_crl argv evs _
run_events-LeavesWithHelp have_crl argv (given opt_partial_chain arg ∷ evs) s =
    run_events-LeavesWithHelp have_crl argv evs _
run_events-LeavesWithHelp have_crl argv (given opt_cafile arg ∷ evs) s =
    run_events-LeavesWithHelp have_crl argv evs _
run_events-LeavesWithHelp have_crl argv (given opt_intermediate arg ∷ evs) s =
    run_events-LeavesWithHelp have_crl argv evs _
run_events-LeavesWithHelp have_crl argv (given opt_help arg ∷ evs) s = tt

module _ (api : VerifyApi) (name : Bytes) (evs : List (Event VerifyOption)) where
  -- What a result means: an "OK" that the certificate is verified.
  abbrev pub Sound : Verdict → Type 0
  Sound verify_ok = Verified api name evs
  Sound v = Unit

  ca_ready-Trusted :
      (s : VerifyLocals)
      → ca_is_cert api s name ≡ false
      → ca_ready api s ≡ true
      → Trusted api s.partial name s.ca_cert
  unfolding ca_is_cert ca_ready
  ca_ready-Trusted s p q = go s.ca_cert s.partial p q
    where
      go :
          (ca : Option Bytes) (partial : Bool)
          → ◌≡◌ {A = Bool}
              (elim ca [ none ↦ false | some c ↦ not partial && bytes_eq c name ])
              false
          → ◌≡◌ {A = Bool}
              (elim ca [ none ↦ true | some c ↦ (partial || api.self_signed c) && api.load_file c ])
              true
          → Trusted api partial name ca
      go none partial p q = tt
      go (some c) true p q = (q, inl refl)
      go (some c) false p q = (ground (arith, q), inr (ground (arith, q), p))

  second : (a b : Bool) → (a || b) ≡ false → b ≡ false
  second a b p = ground (arith, p)

  both : (a b : Bool) → (a && b) ≡ true → (a ≡ true) × (b ≡ true)
  both a b p = (ground (arith, p), ground (arith, p))

  load-IsRead :
      (file : Bytes) (cert : api.Cert)
      → load_cert_from_file api file ≡ some cert
      → IsRead api file cert
  unfolding load_cert_from_file
  load-IsRead file cert h = elim (Option-cases (api.read_pem file)) [
    | inl p ↦ inr (p, rw (p, load_cert_from_file) at h)
    | inr (c, p) ↦ inl (p ∙ (rw (p, load_cert_from_file) at h))
  ]

  load-IsIntermediate :
      (file : Option Bytes) (cert : Option api.Cert)
      → load_intermediate api file ≡ some cert
      → IsIntermediate api file cert
  unfolding load_intermediate
  load-IsIntermediate none cert h = ground (arith, h)
  load-IsIntermediate (some file) cert h = elim (Option-cases (load_cert_from_file api file)) [
    | inl p ↦ let e = rw (p, load_intermediate) at h in absurd (ground (arith, e))
    | inr (c, p) ↦
        let e = rw (p, load_intermediate) at h in
        let same : some c ≡ cert = ground (arith, e) in
        subst (IsIntermediate api (some file)) same (load-IsRead file c p)
  ]

  verified :
      (s : VerifyLocals)
      → Settled evs no_verify_locals s
      → (cert : api.Cert) (i : Option api.Cert) → ca_is_cert api s name ≡ false
      → load_cert_from_file api name ≡ some cert
      → load_intermediate api s.interm_cert ≡ some i
      → (ca_ready api s && api.verify_cert (store_of api s) cert i) ≡ true
      → Verified api name evs
  verified s h cert i p q r a =
      let (ready, accepts) = both (ca_ready api s) (api.verify_cert (store_of api s) cert i) a in
      record {
        cert = cert;
        intermediate = i;
        cert_is_read = load-IsRead name cert q;
        intermediate_is_read =
            subst (λ o. IsIntermediate api o i) h.intermediate_settled
              (load-IsIntermediate s.interm_cert i r);
        ca_trusted = rw (sym h.ca_settled, sym h.partial_settled) (ca_ready-Trusted s p ready);
        accepted = rw (sym h.ca_settled, sym h.crl_settled, sym h.partial_settled) accepts;
      }

  verify_chain-Sound :
      (s : VerifyLocals) → Settled evs no_verify_locals s → Sound (verify_chain api name s)
  unfolding verify_chain
  verify_chain-Sound s h = elim (Bool-cases (s.failed || ca_is_cert api s name)) [
    | inl p ↦ rw (p, verify_chain) tt
    | inr p ↦ elim (Option-cases (load_cert_from_file api name)) [
      | inl q ↦ rw (p, q, verify_chain) tt
      | inr (cert, q) ↦ elim (Option-cases (load_intermediate api s.interm_cert)) [
        | inl r ↦ rw (p, q, r, verify_chain) tt
        | inr (i, r) ↦
            elim (Bool-cases (ca_ready api s && api.verify_cert (store_of api s) cert i)) [
              | inl a ↦ rw (p, q, r, a, verify_chain) (verified s h cert i (second _ _ p) q r a)
              | inr a ↦ rw (p, q, r, a, verify_chain) tt
            ]
      ]
    ]
  ]

  conclude_verify-Sound :
      (r : Step VerifyLocals Verdict)
      → Continues (Settled evs no_verify_locals) r
      → LeavesWithHelp r
      → Sound (conclude_verify api name r)
  conclude_verify-Sound (continue s) h k = verify_chain-Sound s h
  conclude_verify-Sound (leave verify_ok) h k = absurd k
  conclude_verify-Sound (leave v) h k = tt

-- `wolfCLU_x509Verify` returns, and says "OK" only if the last argument names a certificate that is read,
-- as PEM or else as DER, and that wolfSSL accepts with the flags and the CA of the options and with the
-- certificate that is read of the file behind -untrusted, none without -untrusted; the
-- CA, if there is one, is loaded, and without -partial_chain it is signed by itself and not the file of
-- the certificate. There are arguments, and the last is not NULL.
pub x509_verify-Sound :
    (api : VerifyApi) (have_crl : Bool) (argv : Argv) (name : Bytes)
    → arg_at argv (length argv - 1) ≡ some name
    → (v : Verdict) × (x509_verify api have_crl argv ≡ some v)
      × Sound api name (events argv 1 verify_options) v
unfolding x509_verify
x509_verify-Sound api have_crl argv name last = elim (Bool-cases (strncmp_eq 2 (codes "-h") name)) [
  | inl p ↦ (verify_help, rw (last, p, x509_verify) refl, tt)
  | inr p ↦
      let evs = events argv 1 verify_options in
      let r = run_events (verify_option have_crl argv) evs no_verify_locals in
      (
        conclude_verify api name r,
        rw (last, p, x509_verify)
            (ap (Option.map (conclude_verify api name)) (
              option_loop-run_events (verify_option have_crl argv) argv 1 verify_options
                (length verify_options + 1) 0 no_verify_locals (omega arith))),
        conclude_verify-Sound api name evs r (run_events-Settled have_crl argv evs no_verify_locals)
            (run_events-LeavesWithHelp have_crl argv evs no_verify_locals),
      )
]
