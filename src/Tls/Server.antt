-- ===== src/Tls/Server.antt =====
-- src/server/clu_server_setup.c: the options of s_server and the arguments that they are turned into.
pub mod Translated
use wolf_clu.Base.{ℕ, suc, ◌+◌, Bool, true, false, List, [], ◌∷◌, Option, none, some, length}
use mathlib.Core.Option
use wolf_clu.Text.{Bytes, codes}
use wolf_clu.Args.{Argv, OptionEntry, Event, found_twice, given, Step, continue, leave, option_loop}
use wolf_clu.Tls.Room.{add_arg, add_args}

pub data ServerOption : Type 0 where
  opt_port opt_keyfile opt_certfile opt_verify opt_ca opt_version opt_accept opt_www opt_ready_file
        opt_help :
      ServerOption

abbrev flag : Bytes → ServerOption → OptionEntry ServerOption
flag name val = record { name = name; has_arg = false; val = val }

abbrev with_arg : Bytes → ServerOption → OptionEntry ServerOption
with_arg name val = record { name = name; has_arg = true; val = val }

abbrev pub server_options : List (OptionEntry ServerOption)
server_options =
    with_arg (codes "-port") opt_port
    ∷ with_arg (codes "-key") opt_keyfile
    ∷ with_arg (codes "-cert") opt_certfile
    ∷ flag (codes "-noVerify") opt_verify
    ∷ with_arg (codes "-CAfile") opt_ca
    ∷ with_arg (codes "-version") opt_version
    ∷ with_arg (codes "-naccept") opt_accept
    ∷ flag (codes "-www") opt_www
    ∷ with_arg (codes "-readyFile") opt_ready_file
    ∷ flag (codes "-help") opt_help
    ∷ flag (codes "-h") opt_help
    ∷ []

-- `MAX_SERVER_ARGS`
abbrev pub max_server_args : ℕ
max_server_args = 20

-- What the command goes on to do: the help, an error, or `server_test` with its arguments.
pub data ServerPlan : Type 0 where
  server_help server_error : ServerPlan
  run_server : Argv → ServerPlan

-- `if (ret == WOLFCLU_SUCCESS)` an option adds its arguments; `none` is WOLFCLU_FATAL_ERROR in `ret`
abbrev add_server_args : Argv → Option Argv → Step (Option Argv) ServerPlan
add_server_args more none = continue none
add_server_args more (some args) = continue (add_args max_server_args more args)

-- "case WOLFCLU_HELP", which returns `ret`
abbrev server_help_exit : Option Argv → ServerPlan
server_help_exit none = server_error
server_help_exit (some args) = server_help

-- the `switch`
unfoldable pub server_option : Event ServerOption → Option Argv → Step (Option Argv) ServerPlan
server_option found_twice st = leave server_error
server_option (given opt_port arg) st = add_server_args (some (codes "-p") ∷ arg ∷ []) st
server_option (given opt_keyfile arg) st = add_server_args (some (codes "-k") ∷ arg ∷ []) st
server_option (given opt_certfile arg) st = add_server_args (some (codes "-c") ∷ arg ∷ []) st
server_option (given opt_verify arg) st = add_server_args (some (codes "-d") ∷ []) st
server_option (given opt_ca arg) st = add_server_args (some (codes "-A") ∷ arg ∷ []) st
server_option (given opt_version arg) st = add_server_args (some (codes "-v") ∷ arg ∷ []) st
server_option (given opt_accept arg) st = add_server_args (some (codes "-C") ∷ arg ∷ []) st
server_option (given opt_www arg) st = add_server_args (some (codes "-g") ∷ []) st
server_option (given opt_ready_file arg) st = add_server_args (some (codes "-R") ∷ arg ∷ []) st
server_option (given opt_help arg) st = leave (server_help_exit st)

abbrev pub server_plan_of : Step (Option Argv) ServerPlan → ServerPlan
server_plan_of (leave plan) = plan
server_plan_of (continue none) = server_error
server_plan_of (continue (some args)) = run_server args

-- `wolfCLU_Server` up to the call of `server_test`; none if the fuel of the loop ran out
unfoldable pub server_setup : Argv → Option ServerPlan
server_setup argv = Option.map server_plan_of (
    option_loop server_option argv 1 server_options (length server_options + 1) 0
      (add_arg max_server_args (some (codes "wolfclu")) []))
