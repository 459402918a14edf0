-- ===== src/Tls/Client.antt =====
-- src/client/clu_client_setup.c: the options of s_client and the arguments that they are turned into.
pub mod Connect
pub mod Expected
pub mod Settled
pub mod Translated
use wolf_clu.Base.{
  ℕ, suc, ◌+◌, ◌-◌, Bool, true, false, not, ◌&&◌, ◌||◌, List, [], ◌∷◌, ◌++◌, Option, none, some,
  ◌==◌, leb, if◌then◌else◌, length, take, drop,
}
use mathlib.Core.Option
use wolf_clu.Text.{Bytes, codes, before}
use wolf_clu.Text.Lines.{lacks}
use wolf_clu.Args.{Argv, OptionEntry, Event, found_twice, given, Step, continue, leave, option_loop}
use wolf_clu.Tls.Room.{add_arg, add_args}

pub data ClientOption : Type 0 where
  opt_connect opt_starttls opt_cafile opt_verify_return_error opt_disable_stdinchk opt_noservername
        opt_help :
      ClientOption

abbrev flag : Bytes → ClientOption → OptionEntry ClientOption
flag name val = record { name = name; has_arg = false; val = val }

abbrev with_arg : Bytes → ClientOption → OptionEntry ClientOption
with_arg name val = record { name = name; has_arg = true; val = val }

abbrev pub client_options : List (OptionEntry ClientOption)
client_options =
    with_arg (codes "-connect") opt_connect
    ∷ with_arg (codes "-starttls") opt_starttls
    ∷ with_arg (codes "-CAfile") opt_cafile
    ∷ flag (codes "-verify_return_error") opt_verify_return_error
    ∷ flag (codes "-disable_stdin_check") opt_disable_stdinchk
    ∷ flag (codes "-noservername") opt_noservername
    ∷ flag (codes "-help") opt_help
    ∷ flag (codes "-h") opt_help
    ∷ []

-- `MAX_CLIENT_ARGS`
abbrev pub max_client_args : ℕ
max_client_args = 32

-- What the command goes on to do: the help, an error, or `client_test` with its arguments. `strstr` of
-- NULL is the outcome `client_fault`.
pub data ClientPlan : Type 0 where
  client_help client_error client_fault : ClientPlan
  run_client : Argv → ClientPlan

-- `strstr(s, …)` for one byte: the text from the byte on
unfoldable pub from_char : ℕ → Bytes → Option Bytes
from_char d [] = none
from_char d (c ∷ s) = if c == d then some (c ∷ s) else from_char d s

-- the argument of -connect: whether it has a bracket, the host and the port, none for an error.
-- `idx` is one more where there is a bracket, as in the source.
unfoldable pub connect_parts : Bytes → Option (Bool × Bytes × Bytes)
connect_parts optarg = elim (from_char b'[' optarg) [
  | none ↦
      if lacks b':' optarg
      then none
      else (let idx = length (before b':' optarg) in
          some (false, take idx optarg, drop (idx + 1) optarg))
  | some ipv6 ↦
      let idx = length (before b']' ipv6) in
      if idx == length ipv6 || (leb (length ipv6) (idx + 2) || lacks b':' optarg || leb (idx + 1) 2)
      then none
      else some (true, take (idx - 1) (drop 1 optarg), drop (idx + 2) optarg)
]

-- the arguments of `client_test` for the parts
abbrev pub connect_args : Bool × Bytes × Bytes → Argv
connect_args (bracket, host, port) =
    (if bracket then some (codes "-6") ∷ [] else [])
    ++ some (codes "-h") ∷ some host ∷ some (codes "-p") ∷ some port ∷ []

-- the locals, as long as `ret` is WOLFCLU_SUCCESS
pub record ClientLocals : Type 0 where
  pub args : Argv
  pub host : Option Bytes
  pub verify : Bool
  pub noservername : Bool

-- the locals with more arguments; none is WOLFCLU_FATAL_ERROR in `ret`
unfoldable pub add_client_args : Argv → ClientLocals → Option ClientLocals
add_client_args more s = elim (add_args max_client_args more s.args) [
  | none ↦ none
  | some args ↦ some (record s { args = args })
]

-- "case WOLFCLU_CONNECT" with an argument
unfoldable pub connect : Bytes → ClientLocals → Option ClientLocals
connect optarg s = elim (connect_parts optarg) [
  | none ↦ none
  | some (bracket, host, port) ↦
      add_client_args (connect_args (bracket, host, port)) (record s { host = some host })
]

-- the cases that need no more than `ret == WOLFCLU_SUCCESS`
unfoldable pub set_client : ClientOption → Option Bytes → ClientLocals → Option ClientLocals
set_client opt_starttls arg s = add_client_args (some (codes "-M") ∷ arg ∷ []) s
set_client opt_cafile arg s = add_client_args (some (codes "-A") ∷ arg ∷ []) s
set_client opt_verify_return_error arg s = some (record s { verify = true })
set_client opt_disable_stdinchk arg s =
    add_client_args (some (codes "--disable_stdin_check") ∷ []) s
set_client opt_noservername arg s = some (record s { noservername = true })
set_client opt_connect none s = none
set_client opt_connect (some optarg) s = connect optarg s
set_client opt_help arg s = some s

-- the `switch`
unfoldable pub client_option :
    Event ClientOption → Option ClientLocals → Step (Option ClientLocals) ClientPlan
client_option found_twice st = leave client_error
client_option (given opt_help arg) st = leave client_help
client_option (given opt_connect none) st = leave client_fault
client_option (given o arg) none = continue none
client_option (given o arg) (some s) = continue (set_client o arg s)

-- the arguments behind those of the options
abbrev pub last_args : ClientLocals → Argv
last_args s =
    elim s.host [
      | none ↦ []
      | some host ↦ if s.noservername then [] else some (codes "-S") ∷ some host ∷ []
    ]
    ++ (if s.verify then [] else some (codes "-d") ∷ [])
    ++ some (codes "-x") ∷ some (codes "-v") ∷ some (codes "d") ∷ some (codes "-C") ∷ []

abbrev pub run_or_fail : Option Argv → ClientPlan
run_or_fail none = client_error
run_or_fail (some args) = run_client args

abbrev pub client_plan_of : Step (Option ClientLocals) ClientPlan → ClientPlan
client_plan_of (leave plan) = plan
client_plan_of (continue none) = client_error
client_plan_of (continue (some s)) = run_or_fail (add_args max_client_args (last_args s) s.args)

abbrev pub no_client_locals : ClientLocals
no_client_locals = record {
  args = some (codes "wolfclu") ∷ [];
  host = none;
  verify = false;
  noservername = false;
}

-- `wolfCLU_Client` up to the call of `client_test`; none if the fuel of the loop ran out
unfoldable pub client_setup : Argv → Option ClientPlan
client_setup argv = Option.map client_plan_of (
    option_loop client_option argv 1 client_options (length client_options + 1) 0
      (some no_client_locals))
