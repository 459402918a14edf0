-- ===== src/Tls/Client/Expected.antt =====
-- src/client/clu_client_setup.c, `wolfCLU_Client`: what the options say, apart from the code.
use wolf_clu.Base.{◌||◌, if◌then◌else◌, Bool, true, false, List, [], ◌∷◌, ◌++◌, Option, none, some}
use wolf_clu.Text.{Bytes, codes}
use wolf_clu.Args.{Argv, Event, found_twice, given}
use wolf_clu.Tls.Room.{concat_map}
use wolf_clu.Tls.Client.{
  ClientOption, opt_connect, opt_starttls, opt_cafile, opt_verify_return_error,
  opt_disable_stdinchk, opt_noservername, opt_help, ClientPlan, client_help, client_error,
  client_fault, run_client, connect_parts, connect_args, ClientLocals,
}

-- The arguments of `client_test` that an option stands for.
abbrev pub translate : Event ClientOption → Argv
translate (given opt_connect (some optarg)) = elim (connect_parts optarg) [
  | none ↦ []
  | some (bracket, host, port) ↦ connect_args (bracket, host, port)
]
translate (given opt_starttls arg) = some (codes "-M") ∷ arg ∷ []
translate (given opt_cafile arg) = some (codes "-A") ∷ arg ∷ []
translate (given opt_disable_stdinchk arg) = some (codes "--disable_stdin_check") ∷ []
translate _ = []

-- What an option leaves in the locals without a limit on the number of arguments, none for an argument
-- of -connect that cannot be cut into its parts.
abbrev pub set : Event ClientOption → ClientLocals → Option ClientLocals
set (given opt_connect (some optarg)) s = elim (connect_parts optarg) [
  | none ↦ none
  | some (bracket, host, port) ↦
      some (record s { args = s.args ++ connect_args (bracket, host, port); host = some host })
]
set (given opt_verify_return_error arg) s = some (record s { verify = true })
set (given opt_noservername arg) s = some (record s { noservername = true })
set ev s = some (record s { args = s.args ++ translate ev })

-- An option that is given twice, the help and -connect without an argument end the command.
abbrev pub stop : Event ClientOption → Option ClientPlan
stop found_twice = some client_error
stop (given opt_help arg) = some client_help
stop (given opt_connect none) = some client_fault
stop (given _ arg) = none

-- Whether the option for a given event is -verify_return_error, -noservername or a bad -connect.
abbrev pub is_verify : Event ClientOption → Bool
is_verify (given opt_verify_return_error arg) = true
is_verify ev = false

abbrev pub is_noservername : Event ClientOption → Bool
is_noservername (given opt_noservername arg) = true
is_noservername ev = false

abbrev pub any_given : (Event ClientOption → Bool) → List (Event ClientOption) → Bool
any_given test [] = false
any_given test (ev ∷ evs) = test ev || any_given test evs

abbrev pub is_bad_connect : Event ClientOption → Bool
is_bad_connect (given opt_connect (some optarg)) = elim (connect_parts optarg) [
  | none ↦ true
  | some p ↦ false
]
is_bad_connect ev = false

-- The host that -connect names.
abbrev pub host_in : Event ClientOption → Option Bytes → Option Bytes
host_in (given opt_connect (some optarg)) old = elim (connect_parts optarg) [
  | none ↦ old
  | some (bracket, host, port) ↦ some host
]
host_in ev old = old

abbrev pub host_given : List (Event ClientOption) → Option Bytes → Option Bytes
host_given [] old = old
host_given (ev ∷ evs) old = host_given evs (host_in ev old)

-- The first option that ends the command.
abbrev pub first_stop : List (Event ClientOption) → Option ClientPlan
first_stop [] = none
first_stop (ev ∷ evs) = elim (stop ev) [ some plan ↦ some plan | none ↦ first_stop evs ]

-- "-S host" unless -noservername is given.
abbrev pub server_name : Bool → Option Bytes → Argv
server_name noservername none = []
server_name true (some host) = []
server_name false (some host) = some (codes "-S") ∷ some host ∷ []

-- "-d", which turns the verification off, unless -verify_return_error is given.
abbrev pub no_verification : Bool → Argv
no_verification true = []
no_verification false = some (codes "-d") ∷ []

-- The command line of `client_test`.
abbrev pub command_line : List (Event ClientOption) → Argv
command_line evs =
    (some (codes "wolfclu") ∷ [])
    ++ (concat_map translate evs
        ++ (server_name (any_given is_noservername evs) (host_given evs none)
            ++ (no_verification (any_given is_verify evs)
                ++ some (codes "-x")
                  ∷ some (codes "-v")
                  ∷ some (codes "d")
                  ∷ some (codes "-C")
                  ∷ [])))

-- What the command does.
abbrev pub expected : List (Event ClientOption) → ClientPlan
expected evs = elim (first_stop evs) [
  | some plan ↦ plan
  | none ↦ if any_given is_bad_connect evs then client_error else run_client (command_line evs)
]
