-- ===== src/Tls/Client/Translated.antt =====
-- src/client/clu_client_setup.c, `wolfCLU_Client`: the arguments against the options.
use wolf_clu.Base.{
  ◌||◌, if◌then◌else◌, append_assoc, ℕ, ◌+◌, ◌≤◌, Bool, true, false, List, [], ◌∷◌, ◌++◌, Option,
  none, some, length, Option-cases, inl, inr, ◌≡◌, refl, sym, ap, ◌∙◌, arith,
}
use mathlib.Core.Option
use wolf_clu.Text.{Bytes, codes}
use wolf_clu.Args.{Argv, Event, found_twice, given, events}
use wolf_clu.Args.Loop.{option_loop-run_events}
use wolf_clu.Tls.Room.{concat_map, length-concat_map}
use wolf_clu.Tls.Client.{
  ClientOption, opt_connect, opt_starttls, opt_cafile, opt_verify_return_error,
  opt_disable_stdinchk, opt_noservername, opt_help, client_options, ClientPlan, client_error,
  run_client, connect_parts, connect_args, ClientLocals, client_option, last_args, client_plan_of,
  no_client_locals, client_setup,
}
use wolf_clu.Tls.Client.Expected.{
  translate, set, stop, is_verify, is_noservername, any_given, is_bad_connect, host_in, host_given,
  first_stop, server_name, no_verification, expected,
}
use wolf_clu.Tls.Client.Settled.{settled, run_events-settled}

-- the most arguments that an option stands for
cap : ClientOption → ℕ
cap opt_connect = 5
cap opt_starttls = 2
cap opt_cafile = 2
cap opt_disable_stdinchk = 1
cap _ = 0

translate-cap : (o : ClientOption) (arg : Option Bytes) → length (translate (given o arg)) ≤ cap o
unfolding cap
translate-cap opt_connect none = omega arith
translate-cap opt_connect (some optarg) = elim (Option-cases (connect_parts optarg)) [
  | inl p ↦ rw (p, translate) (omega arith)
  | inr ((true, host, port), p) ↦ rw (p, translate) (omega arith)
  | inr ((false, host, port), p) ↦ rw (p, translate) (omega arith)
]
translate-cap o arg = ground arith

abbrev plan_if : List (Event ClientOption) → Argv → Bool → ClientPlan
plan_if evs line bad = elim (first_stop evs) [
  | some plan ↦ plan
  | none ↦ if bad then client_error else run_client line
]

abbrev plan_with : List (Event ClientOption) → Argv → ClientPlan
plan_with evs line = plan_if evs line (any_given is_bad_connect evs)

-- the command line from the locals on
abbrev line_from : List (Event ClientOption) → Argv → Option Bytes → Bool → Bool → Argv
line_from evs args host verify noservername =
    args
    ++ (concat_map translate evs
        ++ (server_name (noservername || any_given is_noservername evs) (host_given evs host)
            ++ (no_verification (verify || any_given is_verify evs)
                ++ some (codes "-x")
                  ∷ some (codes "-v")
                  ∷ some (codes "d")
                  ∷ some (codes "-C")
                  ∷ [])))

abbrev described : List (Event ClientOption) → ClientLocals → ClientPlan
described evs s = plan_with evs (line_from evs s.args s.host s.verify s.noservername)

last_args-line :
    (host : Option Bytes) (verify noservername : Bool) (args : Argv)
    → last_args (record { args = args; host = host; verify = verify; noservername = noservername })
      ≡ server_name (noservername || false) host
        ++ (no_verification (verify || false)
            ++ some (codes "-x") ∷ some (codes "-v") ∷ some (codes "d") ∷ some (codes "-C") ∷ [])
last_args-line none true true args = refl
last_args-line none true false args = refl
last_args-line none false true args = refl
last_args-line none false false args = refl
last_args-line (some h) true true args = refl
last_args-line (some h) true false args = refl
last_args-line (some h) false true args = refl
last_args-line (some h) false false args = refl

-- Arguments that move in front.
regroup : (a b c d : Argv) → (a ++ b) ++ (c ++ d) ≡ a ++ ((b ++ c) ++ d)
regroup a b c d = append_assoc a b (c ++ d) ∙ ap (λ x. a ++ x) (sym (append_assoc b c d))

or_true : (b c : Bool) → (true || c) ≡ (b || (true || c))
or_true b c = ground arith

settled-none :
    (evs : List (Event ClientOption))
    → settled evs none ≡ (elim (first_stop evs) [ some plan ↦ plan | none ↦ client_error ])
settled-none [] = refl
settled-none (ev ∷ evs) = elim (Option-cases (stop ev)) [
  | inl p ↦ rw (p, settled, first_stop) (settled-none evs)
  | inr (plan, p) ↦ rw (p, settled, first_stop) refl
]

plan_with_bad :
    (evs : List (Event ClientOption)) (line : Argv)
    → any_given is_bad_connect evs ≡ true
    → plan_with evs line ≡ (elim (first_stop evs) [ some plan ↦ plan | none ↦ client_error ])
plan_with_bad evs line h = ap (plan_if evs line) h

-- the plan with an argument of -connect in front of the events
abbrev with_event :
    List (Event ClientOption) → ClientLocals → Bool → Argv → Option Bytes → ClientPlan
with_event evs s bad new host =
    plan_if evs
      (s.args
        ++ ((new ++ concat_map translate evs)
            ++ (server_name (s.noservername || any_given is_noservername evs) (host_given evs host)
                ++ (no_verification (s.verify || any_given is_verify evs)
                    ++ some (codes "-x")
                      ∷ some (codes "-v")
                      ∷ some (codes "d")
                      ∷ some (codes "-C")
                      ∷ []))))
      (bad || any_given is_bad_connect evs)

settled-described :
    (evs : List (Event ClientOption)) (s : ClientLocals) → settled evs (some s) ≡ described evs s
settled-described [] s =
    ap (λ x. run_client (s.args ++ x)) (last_args-line s.host s.verify s.noservername s.args)
settled-described (found_twice ∷ evs) s = refl
settled-described (given opt_help arg ∷ evs) s = refl
settled-described (given opt_connect none ∷ evs) s = refl
settled-described (given opt_connect (some optarg) ∷ evs) s =
    elim (Option-cases (connect_parts optarg)) [
      | inl p ↦
          let ev = given opt_connect (some optarg) in
          let errs : settled (ev ∷ evs) (some s) ≡ settled evs none = rw (p, settled, set) refl in
          let bad : any_given is_bad_connect (ev ∷ evs) ≡ true =
            rw (p, any_given, is_bad_connect) refl in
          errs ∙ settled-none evs ∙ sym (plan_with_bad (ev ∷ evs) _ bad)
      | inr ((bracket, host, port), p) ↦
          let ev = given opt_connect (some optarg) in
          let args = connect_args (bracket, host, port) in
          let s' = record s { args = s.args ++ args; host = some host } in
          let step : settled (ev ∷ evs) (some s) ≡ settled evs (some s') =
            rw (p, settled, set) refl in
          let t : args ≡ translate ev = rw (p, translate) refl in
          let h : some host ≡ host_in ev s.host = rw (p, host_in) refl in
          let b : false ≡ is_bad_connect ev = rw (p, is_bad_connect) refl in
          step
          ∙ settled-described evs s'
          ∙ ap (plan_with evs) (regroup s.args args (concat_map translate evs) _)
          ∙ ap (λ x. with_event evs s false x (some host)) t
          ∙ ap (with_event evs s false (translate ev)) h
          ∙ ap (λ x. with_event evs s x (translate ev) (host_in ev s.host)) b
    ]
settled-described (given opt_verify_return_error arg ∷ evs) s =
    settled-described evs (record s { verify = true })
    ∙ ap
        (λ b. plan_with evs (
          s.args
          ++ (concat_map translate evs
              ++ (server_name (s.noservername || any_given is_noservername evs)
                    (host_given evs s.host)
                  ++ (no_verification b
                      ++ some (codes "-x")
                        ∷ some (codes "-v")
                        ∷ some (codes "d")
                        ∷ some (codes "-C")
                        ∷ [])))))
        (or_true s.verify (any_given is_verify evs))
settled-described (given opt_noservername arg ∷ evs) s =
    settled-described evs (record s { noservername = true })
    ∙ ap
        (λ b. plan_with evs (
          s.args
          ++ (concat_map translate evs
              ++ (server_name b (host_given evs s.host)
                  ++ (no_verification (s.verify || any_given is_verify evs)
                      ++ some (codes "-x")
                        ∷ some (codes "-v")
                        ∷ some (codes "d")
                        ∷ some (codes "-C")
                        ∷ [])))))
        (or_true s.noservername (any_given is_noservername evs))
settled-described (given opt_starttls arg ∷ evs) s =
    settled-described evs (record s { args = s.args ++ translate (given opt_starttls arg) })
    ∙ ap (plan_with evs)
        (regroup s.args (translate (given opt_starttls arg)) (concat_map translate evs) _)
settled-described (given opt_cafile arg ∷ evs) s =
    settled-described evs (record s { args = s.args ++ translate (given opt_cafile arg) })
    ∙ ap (plan_with evs)
        (regroup s.args (translate (given opt_cafile arg)) (concat_map translate evs) _)
settled-described (given opt_disable_stdinchk arg ∷ evs) s =
    settled-described evs (record s { args = s.args ++ translate (given opt_disable_stdinchk arg) })
    ∙ ap (plan_with evs)
        (regroup s.args (translate (given opt_disable_stdinchk arg)) (concat_map translate evs) _)

-- `wolfCLU_Client` ends, and its array always has room. If no option is given twice, none is the help
-- and no -connect lacks its argument or has one that cannot be cut into its parts, it runs
-- `client_test` with this command line: the name of the program; the arguments of each option, -connect
-- cut into its parts, in the order of the table; "-S" with the host of -connect unless -noservername is
-- given; "-d" unless -verify_return_error is given; and "-x -v d -C". Otherwise the first option that
-- ends the command does, or the bad -connect is an error.
pub client_setup-expected :
    (argv : Argv) → client_setup argv ≡ some (expected (events argv 1 client_options))
unfolding client_setup cap
client_setup-expected argv =
    let few = length-concat_map translate cap refl translate-cap argv 1 client_options in
    ap (Option.map client_plan_of) (
      option_loop-run_events client_option argv 1 client_options (length client_options + 1) 0
        (some no_client_locals) (omega arith))
    ∙ ap some (
        run_events-settled (events argv 1 client_options) (some no_client_locals)
          (omega (arith, few))
        ∙ settled-described (events argv 1 client_options) no_client_locals)
