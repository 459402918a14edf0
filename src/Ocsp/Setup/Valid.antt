-- ===== src/Ocsp/Setup/Valid.antt =====
-- The configurations that the options lead to.
use wolf_clu.Base.{
  ℕ, ◌+◌, ◌-◌, ◌^◌, ◌≤◌, ◌<◌, Bool, true, false, List, [], ◌∷◌, Option, none, some, ◌≡◌, refl, sym,
  ap, ◌∙◌, arith, length, if◌then◌else◌, All, pos,
}
use mathlib.Core.Path.{subst}
use wolf_clu.Base.Result.{Result, ok, err}
use wolf_clu.Text.{Bytes}
use wolf_clu.Args.{Argv, Event, found_twice, given, Step, continue, leave, run_events, events}
use wolf_clu.Args.Loop.{option_loop-run_events}
use wolf_clu.Decimal.{parse_decimal_bounded}
use wolf_clu.Decimal.Exact.{parse_decimal_bounded-exact}
use wolf_clu.Ocsp.Options.{
  OcspOption, opt_help, opt_ca_file, opt_ca, opt_nrequest, opt_index, opt_rsigner, opt_rkey,
  opt_url, opt_port, opt_no_nonce, opt_cert, opt_issuer, opt_scgi, opt_unsupported, ocsp_options,
}
use wolf_clu.Ocsp.Setup.{
  Setup, Exit, help, fatal, set_port, set_nrequest, ocsp_option, no_setup, Side, client_side,
  responder_side, show_help, no_side, side_stuck, choose_side, after_loop, ocsp_setup,
}

-- an event that the loop goes on behind
abbrev pub IsSupported : Event OcspOption → Type 0
IsSupported found_twice = ⊥
IsSupported (given opt_unsupported arg) = ⊥
IsSupported (given opt_help arg) = ⊥
IsSupported (given v arg) = Unit

abbrev Inv : Setup → Type 0
Inv s =
    (s.is_responder_mode ≡ true → (1 ≤ s.responder.port) × (s.responder.port ≤ 65535))
    × (s.responder.nrequest < 2 ^ 31)

parse_decimal_bounded-bounds :
    (arg : Option Bytes) (low high : ℕ) {n : ℕ}
    → high < 2 ^ 63
    → parse_decimal_bounded arg (pos low) (pos high) ≡ ok n
    → (low ≤ n) × (n ≤ high)
parse_decimal_bounded-bounds none low high h e = unfold parse_decimal_bounded in cc
parse_decimal_bounded-bounds (some s) low high h e =
    let e' = sym (parse_decimal_bounded-exact s (pos low) (pos high) (omega arith)) ∙ e in
    (ground (arith, e'), ground (arith, e'))

abbrev StepInv : Step Setup Exit → Type 0
StepInv (continue s) = Inv s
StepInv (leave r) = Unit

set_port-StepInv :
    (s : Setup) (r : Result ℕ)
    → Inv s
    → ((n : ℕ) → r ≡ ok n → (1 ≤ n) × (n ≤ 65535))
    → StepInv (set_port s r)
unfolding set_port
set_port-StepInv s (err e) h b = tt
set_port-StepInv s (ok n) (p, q) b = (λ _. b n refl, q)

set_nrequest-StepInv :
    (s : Setup) (r : Result ℕ)
    → Inv s
    → ((n : ℕ) → r ≡ ok n → n < 2 ^ 31)
    → StepInv (set_nrequest s r)
unfolding set_nrequest
set_nrequest-StepInv s (err e) h b = tt
set_nrequest-StepInv s (ok n) (p, q) b = (p, b n refl)

ocsp_option-StepInv : (ev : Event OcspOption) (s : Setup) → Inv s → StepInv (ocsp_option ev s)
unfolding ocsp_option
ocsp_option-StepInv found_twice s h = tt
ocsp_option-StepInv (given opt_help arg) s h = tt
ocsp_option-StepInv (given opt_url arg) s h = h
ocsp_option-StepInv (given opt_cert arg) s h = h
ocsp_option-StepInv (given opt_issuer arg) s h = h
ocsp_option-StepInv (given opt_ca_file arg) s h = h
ocsp_option-StepInv (given opt_no_nonce arg) s h = h
ocsp_option-StepInv (given opt_port arg) s h =
    set_port-StepInv s _ h λ n e. parse_decimal_bounded-bounds arg 1 65535 (omega arith) e
ocsp_option-StepInv (given opt_nrequest arg) s h = set_nrequest-StepInv s _ h λ n e.
    let (low, high) = parse_decimal_bounded-bounds arg 0 (2 ^ 31 - 1) (omega arith) e in omega arith
ocsp_option-StepInv (given opt_ca arg) s h = h
ocsp_option-StepInv (given opt_index arg) s h = h
ocsp_option-StepInv (given opt_rsigner arg) s h = h
ocsp_option-StepInv (given opt_rkey arg) s h = h
ocsp_option-StepInv (given opt_scgi arg) s h = h
ocsp_option-StepInv (given opt_unsupported arg) s h = tt

ocsp_option-IsSupported :
    (ev : Event OcspOption) (s : Setup) {s' : Setup}
    → ocsp_option ev s ≡ continue s'
    → IsSupported ev
unfolding ocsp_option
ocsp_option-IsSupported found_twice s h = cc
ocsp_option-IsSupported (given opt_help arg) s h = cc
ocsp_option-IsSupported (given opt_unsupported arg) s h = cc
ocsp_option-IsSupported (given opt_url arg) s h = tt
ocsp_option-IsSupported (given opt_cert arg) s h = tt
ocsp_option-IsSupported (given opt_issuer arg) s h = tt
ocsp_option-IsSupported (given opt_ca_file arg) s h = tt
ocsp_option-IsSupported (given opt_no_nonce arg) s h = tt
ocsp_option-IsSupported (given opt_port arg) s h = tt
ocsp_option-IsSupported (given opt_nrequest arg) s h = tt
ocsp_option-IsSupported (given opt_ca arg) s h = tt
ocsp_option-IsSupported (given opt_index arg) s h = tt
ocsp_option-IsSupported (given opt_rsigner arg) s h = tt
ocsp_option-IsSupported (given opt_rkey arg) s h = tt
ocsp_option-IsSupported (given opt_scgi arg) s h = tt

run_events-Inv :
    (evs : List (Event OcspOption)) (s : Setup) {s' : Setup}
    → Inv s
    → run_events ocsp_option evs s ≡ continue s'
    → Inv s' × All IsSupported evs
unfolding run_events
run_events-Inv [] s {s'} h e = (subst Inv (continue_inj e) h, tt)
  where
    setup_of : Step Setup Exit → Setup
    setup_of (continue x) = x
    setup_of (leave r) = s

    continue_inj : ◌≡◌ {A = Step Setup Exit} (continue s) (continue s') → s ≡ s'
    continue_inj q = ap setup_of q
run_events-Inv (ev ∷ evs) s {s'} h e =
    go (λ x inv f. run_events-Inv evs x inv f) (ocsp_option ev s) refl (ocsp_option-StepInv ev s h)
      e
  where
    go :
        ((x : Setup)
          → Inv x
          → run_events ocsp_option evs x ≡ continue s'
          → Inv s' × All IsSupported evs)
        → (step : Step Setup Exit) → ocsp_option ev s ≡ step
        → StepInv step
        → (elim step [ continue x ↦ run_events ocsp_option evs x | leave r ↦ leave r ])
          ≡ continue s'
        → Inv s' × (IsSupported ev × All IsSupported evs)
    go ih (leave r) q inv f = cc
    go ih (continue x) q inv f =
        let (inv', rest) = ih x inv f in (inv', (ocsp_option-IsSupported ev s q, rest))

-- A side that runs was chosen by options that the program supports, each given once, and the
-- responder has a port from 1 to 65535 and a request limit that is an `int`.
abbrev pub ValidSide : Argv → Side → Type 0
ValidSide argv (responder_side c) =
    All IsSupported (events argv 1 ocsp_options)
    × (1 ≤ c.port)
    × (c.port ≤ 65535)
    × (c.nrequest < 2 ^ 31)
ValidSide argv (client_side c) = All IsSupported (events argv 1 ocsp_options)
ValidSide argv show_help = Unit
ValidSide argv no_side = Unit
ValidSide argv side_stuck = ⊥

choose_side-ValidSide :
    (argv : Argv) (s : Setup)
    → Inv s
    → All IsSupported (events argv 1 ocsp_options)
    → ValidSide argv (choose_side s)
unfolding choose_side
choose_side-ValidSide argv s (p, q) all = go s.is_client_mode s.is_responder_mode refl
  where
    go :
        (c r : Bool)
        → s.is_responder_mode ≡ r
        → ValidSide argv (
            if c
            then if r then no_side else client_side s.client
            else if r
            then responder_side s.responder
            else no_side)
    go true true e = tt
    go true false e = all
    go false false e = tt
    go false true e = let (low, high) = p e in (all, low, high, q)

-- `wolfCLU_OcspSetup` ends. It runs a side only if every option of the table that is among the
-- arguments is one that the program supports and is given once; the responder then has a port
-- from 1 to 65535 and a request limit that fits an `int`.
pub ocsp_setup-ValidSide : (argv : Argv) → ValidSide argv (ocsp_setup argv)
unfolding ocsp_setup after_loop
ocsp_setup-ValidSide argv =
    rw
      (option_loop-run_events ocsp_option argv 1 ocsp_options (length ocsp_options + 1) 0 no_setup
        (omega arith))
      (go (run_events ocsp_option (events argv 1 ocsp_options) no_setup) refl)
  where
    go :
        (r : Step Setup Exit)
        → run_events ocsp_option (events argv 1 ocsp_options) no_setup ≡ r
        → ValidSide argv (after_loop (some r))
    go (leave help) e = tt
    go (leave fatal) e = tt
    go (continue s) e =
        let (inv, all) =
          run_events-Inv (events argv 1 ocsp_options) no_setup ((λ bad. cc), omega arith) e in
        choose_side-ValidSide argv s inv all
