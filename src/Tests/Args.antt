-- ===== src/Tests/Args.antt =====
-- Command lines: `wolfssl rand -hex 16` and others.
use wolf_clu.Base.{[], ◌∷◌, some, ◌≡◌, arith, drop, pos}
use wolf_clu.Text.{codes}
use wolf_clu.Args.{Argv, option_loop, run_events, events}
use wolf_clu.Args.Loop.{option_loop-run_events}
use wolf_clu.Decimal.{parse_decimal_bounded}
use wolf_clu.Decimal.Exact.{exact, parse_decimal_bounded-exact}
use wolf_clu.Rand.{rand_options, rand_option, no_settings}

abbrev rand_argv : Argv
rand_argv =
    some (codes "wolfssl") ∷ some (codes "rand") ∷ some (codes "-hex") ∷ some (codes "16") ∷ []

abbrev help_argv : Argv
help_argv = some (codes "wolfssl") ∷ some (codes "rand") ∷ some (codes "-") ∷ []

rand_events :
    option_loop rand_option rand_argv 1 rand_options 4 0 no_settings
    ≡ some (run_events rand_option (events rand_argv 1 (drop 0 rand_options)) no_settings)
rand_events =
    option_loop-run_events rand_option rand_argv 1 rand_options 4 0 no_settings (omega arith)

port_8080 :
    parse_decimal_bounded (some (codes "8080")) (pos 1) (pos 65535)
    ≡ exact (codes "8080") (pos 1) (pos 65535)
port_8080 = parse_decimal_bounded-exact (codes "8080") (pos 1) (pos 65535) (omega arith)
