-- ===== src/Tls/Server/Translated.antt =====
-- src/server/clu_server_setup.c, `wolfCLU_Server`: the arguments against the options.
use wolf_clu.Base.{
  ℕ, ◌+◌, ◌≤◌, List, [], ◌∷◌, ◌++◌, append_assoc, append-nil, Option, none, some, length,
  length-append, Option-cases, inl, inr, ◌≡◌, refl, sym, ap, ◌∙◌, arith,
}
use mathlib.Core.Option
use wolf_clu.Text.{Bytes, codes}
use wolf_clu.Args.{Argv, Event, found_twice, given, continue, leave, run_events, events}
use wolf_clu.Args.Loop.{option_loop-run_events, run_events-continue, run_events-leave}
use wolf_clu.Tls.Room.{add_arg, add_args-room, concat_map, length-concat_map}
use wolf_clu.Tls.Server.{
  ServerOption, opt_port, opt_keyfile, opt_certfile, opt_verify, opt_ca, opt_version, opt_accept,
  opt_www, opt_ready_file, opt_help, server_options, max_server_args, ServerPlan, server_help,
  server_error, run_server, server_option, server_plan_of, server_setup,
}

-- The arguments of `server_test` that an option stands for.
abbrev pub translate : Event ServerOption → Argv
translate found_twice = []
translate (given opt_port arg) = some (codes "-p") ∷ arg ∷ []
translate (given opt_keyfile arg) = some (codes "-k") ∷ arg ∷ []
translate (given opt_certfile arg) = some (codes "-c") ∷ arg ∷ []
translate (given opt_verify arg) = some (codes "-d") ∷ []
translate (given opt_ca arg) = some (codes "-A") ∷ arg ∷ []
translate (given opt_version arg) = some (codes "-v") ∷ arg ∷ []
translate (given opt_accept arg) = some (codes "-C") ∷ arg ∷ []
translate (given opt_www arg) = some (codes "-g") ∷ []
translate (given opt_ready_file arg) = some (codes "-R") ∷ arg ∷ []
translate (given opt_help arg) = []

-- An option that is given twice and the help end the command.
abbrev pub stop : Event ServerOption → Option ServerPlan
stop found_twice = some server_error
stop (given opt_help arg) = some server_help
stop (given _ arg) = none

abbrev pub first_stop : List (Event ServerOption) → Option ServerPlan
first_stop [] = none
first_stop (ev ∷ evs) = elim (stop ev) [ some plan ↦ some plan | none ↦ first_stop evs ]

-- The plan without a limit on the number of arguments.
abbrev pub expected : List (Event ServerOption) → Argv → ServerPlan
expected evs args = elim (first_stop evs) [
  | some plan ↦ plan
  | none ↦ run_server (args ++ concat_map translate evs)
]

server_option-translate :
    (ev : Event ServerOption) (args : Argv)
    → stop ev ≡ none
    → length args + length (translate ev) ≤ max_server_args
    → server_option ev (some args) ≡ continue (some (args ++ translate ev))
unfolding server_option
server_option-translate found_twice args p h = absurd (ground (arith, p))
server_option-translate (given opt_help arg) args p h = absurd (ground (arith, p))
server_option-translate (given o arg) args p h =
    rw (add_args-room max_server_args (translate (given o arg)) args h)

server_option-stop :
    (ev : Event ServerOption) (args : Argv) (plan : ServerPlan)
    → stop ev ≡ some plan
    → server_option ev (some args) ≡ leave plan
unfolding server_option
server_option-stop ev args plan p = ground (arith, p)

expected-none :
    (ev : Event ServerOption) (evs : List (Event ServerOption)) (args : Argv)
    → stop ev ≡ none
    → expected (ev ∷ evs) args ≡ expected evs (args ++ translate ev)
expected-none ev evs args p = elim (Option-cases (first_stop evs)) [
  | inl q ↦
      rw (p, first_stop, expected, q)
        (ap run_server (sym (append_assoc args (translate ev) (concat_map translate evs))))
  | inr (plan, q) ↦ rw (p, first_stop, expected, q) refl
]

expected-some :
    (ev : Event ServerOption) (evs : List (Event ServerOption)) (args : Argv) (plan : ServerPlan)
    → stop ev ≡ some plan
    → expected (ev ∷ evs) args ≡ plan
expected-some ev evs args plan p = rw (p, first_stop, expected)

run_events-expected :
    (evs : List (Event ServerOption)) (args : Argv)
    → length args + length (concat_map translate evs) ≤ max_server_args
    → server_plan_of (run_events server_option evs (some args)) ≡ expected evs args
unfolding run_events
run_events-expected [] args h = ap run_server (sym (append-nil args))
run_events-expected (ev ∷ evs) args h =
    let n = length-append {0} (translate ev) (concat_map translate evs) in
    let m = length-append {0} args (translate ev) in
    elim (Option-cases (stop ev)) [
      | inl p ↦
          ap server_plan_of (
            run_events-continue server_option ev evs (some args) (some (args ++ translate ev))
              (server_option-translate ev args p (omega (arith, n, h))))
          ∙ run_events-expected evs (args ++ translate ev) (omega (arith, n, m, h))
          ∙ sym (expected-none ev evs args p)
      | inr (plan, p) ↦
          ap server_plan_of (
            run_events-leave server_option ev evs (some args) plan
              (server_option-stop ev args plan p))
          ∙ sym (expected-some ev evs args plan p)
    ]

-- the most arguments that an option stands for
cap : ServerOption → ℕ
cap opt_verify = 1
cap opt_www = 1
cap opt_help = 0
cap _ = 2

translate-cap : (o : ServerOption) (arg : Option Bytes) → length (translate (given o arg)) ≤ cap o
unfolding cap
translate-cap o arg = ground arith

-- `wolfCLU_Server` ends, and its array always has room: unless an option is given twice or the help is
-- asked for, `server_test` is called with the arguments of every option that is given, in the order of
-- the table, behind the name of the program.
pub server_setup-expected :
    (argv : Argv)
    → server_setup argv
      ≡ some (expected (events argv 1 server_options) (some (codes "wolfclu") ∷ []))
unfolding server_setup add_arg cap
server_setup-expected argv =
    let start = some (codes "wolfclu") ∷ [] in
    let few = length-concat_map translate cap refl translate-cap argv 1 server_options in
    ap (Option.map server_plan_of) (
      option_loop-run_events server_option argv 1 server_options (length server_options + 1) 0
        (some start) (omega arith))
    ∙ ap some (run_events-expected (events argv 1 server_options) start (omega (arith, few)))
