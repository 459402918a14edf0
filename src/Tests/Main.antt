-- ===== src/Tests/Main.antt =====
-- `wolfssl x509 -in c.pem`, `wolfssl rand -out rand`, and others.
use wolf_clu.Base.{true, [], ◌∷◌, some, ◌≡◌, refl, ℤ, pos}
use wolf_clu.Text.{codes, strncmp_eq, bytes_eq, starts_with}
use wolf_clu.Args.{
  Argv, check_for_arg, check_from, is_match, is_help_like, get_opt, get_opt_from, entry_event,
}
use wolf_clu.Main.{Command, rand, arg_found_twice, choose_mode, main}
use wolf_clu.Main.Dash.{main_dash}

abbrev sixteen : Command → Argv → ℤ
sixteen rand argv = pos 16
sixteen c argv = pos 1

x509_dash :
    main sixteen true (
      some (codes "wolfssl")
      ∷ some (codes "-x509")
      ∷ some (codes "-in")
      ∷ some (codes "c.pem")
      ∷ [])
    ≡ main sixteen true (
        some (codes "wolfssl")
        ∷ some (codes "x509")
        ∷ some (codes "-in")
        ∷ some (codes "c.pem")
        ∷ [])
unfolding starts_with bytes_eq
x509_dash =
    main_dash sixteen true (codes "wolfssl") (codes "x509")
      (some (codes "-in") ∷ some (codes "c.pem") ∷ []) refl refl refl

-- A mode that is also a file's name is taken for a repeated option.
abbrev out_rand : Argv
out_rand =
    some (codes "wolfssl")
    ∷ some (codes "rand")
    ∷ some (codes "-out")
    ∷ some (codes "rand")
    ∷ some (codes "16")
    ∷ []

out_rand_twice : choose_mode out_rand ≡ (arg_found_twice, out_rand)
unfolding choose_mode get_opt get_opt_from entry_event check_for_arg check_from is_match
    is_help_like strncmp_eq
out_rand_twice = refl
