-- ===== src/Tests/Rand.antt =====
-- `wolfssl rand -hex 16`, and a counter in place of the random generator.
use wolf_clu.Base.{
  ℕ, zero, suc, ◌≤◌, true, false, [], ◌∷◌, Option, none, some, ◌≡◌, refl, length, drop, ap,
}
use wolf_clu.Text.{Bytes, codes, bytes_eq, strncmp_eq, atoi}
use wolf_clu.Args.{Argv, check_for_arg, entry_event, get_opt_from, get_opt, option_loop}
use wolf_clu.Rand.{
  mark_option, behind, scan, is_help, is_dashed, Settings, rand_option, write, check_size,
  conclude_scan, after_options, rand_plan, filled, generate,
}
use wolf_clu.Rand.Once.{occurrences}
use wolf_clu.Rand.Accepts.{SizeFits, rand_plan-Accepts}
use wolf_clu.Rand.Output.{Answers, generate-fills}

abbrev argv : Argv
argv = some (codes "wolfssl") ∷ some (codes "rand") ∷ some (codes "-hex") ∷ some (codes "16") ∷ []

abbrev hex_settings : Settings
hex_settings = record { use_base64 = false; use_hex = true; out = none; ok = true }

hex_plan : rand_plan argv ≡ write 16 hex_settings
unfolding rand_plan after_options conclude_scan check_size scan mark_option behind is_help is_dashed
    rand_option option_loop get_opt get_opt_from entry_event check_for_arg bytes_eq strncmp_eq atoi
hex_plan = refl

hex_accepted :
    SizeFits 16 hex_settings
    × (occurrences (codes "-out") (drop 2 argv) ≤ 1)
    × (occurrences (codes "-base64") (drop 2 argv) ≤ 1)
    × (occurrences (codes "-hex") (drop 2 argv) ≤ 1)
hex_accepted = rand_plan-Accepts argv hex_plan

-- `n` bytes of 7, with the calls counted
abbrev sevens : ℕ → Bytes
sevens zero = []
sevens (suc n) = 7 ∷ sevens n

abbrev rng : ℕ → ℕ → Option (ℕ × Bytes)
rng calls n = some (suc calls, sevens n)

length-sevens : (n : ℕ) → length (sevens n) ≡ n
length-sevens zero = refl
length-sevens (suc n) = ap suc (length-sevens n)

rng-Answers : Answers rng
rng-Answers calls n p h = (suc calls, sevens n, refl, length-sevens n)

seventy_thousand :
    (out : Bytes) × (generate rng 70000 70000 0 [] ≡ filled out) × (length out ≡ 70000)
seventy_thousand = generate-fills rng rng-Answers 70000 0
