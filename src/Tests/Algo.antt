-- ===== src/Tests/Algo.antt =====
-- Names of ciphers.
use wolf_clu.Base.{true, [], ◌∷◌, none, some, ◌≡◌, refl, arith, pos}
use wolf_clu.Base.Result.{ok}
use wolf_clu.Features.{Features}
use wolf_clu.Text.{codes, strncmp_eq, starts_with, atoi, strtok}
use wolf_clu.Args.{Argv}
use wolf_clu.Algo.{
  Target, aes256cbc, parse_algo, after_name, two_tokens, check_names, key_size, store_mode,
  aes_branch, by_size, starts_digit, accepts, accept_algs, accept_modes,
}
use wolf_clu.Algo.Order.{IsToken, parse_algo-unset}
use wolf_clu.Algo.Sound.{Parsed, parse_algo-Parsed}

-- a build with AES and its counter mode, 3DES and Camellia
abbrev features : Features
features = record {
  aes = true;
  aes_counter = true;
  des3 = true;
  camellia = true;
  aes_block_size = 16;
  camellia_block_size = 16;
}

abbrev unset : Target
unset = record { alg = none; mode = none; size = pos 0 }

aes_choice :
    Parsed features 16 (record { alg = some aes256cbc; mode = some (codes "cbc"); size = pos 256 })
unfolding parse_algo after_name two_tokens check_names key_size store_mode aes_branch by_size
    starts_digit accepts accept_algs accept_modes strtok atoi starts_with strncmp_eq
aes_choice = parse_algo-Parsed features true (codes "aes-256-cbc") unset refl

size_IsToken : IsToken (codes "256")
size_IsToken = (cc, omega arith)

mode_IsToken : IsToken (codes "cbc")
mode_IsToken = (cc, omega arith)

-- "aes-256-c" succeeds, and selects nothing
no_algorithm :
    parse_algo features true (codes "aes-256-c") unset
    ≡ (ok 16, record { alg = none; mode = some (codes "c"); size = pos 256 })
unfolding accepts accept_modes starts_digit atoi strncmp_eq starts_with
no_algorithm =
    parse_algo-unset features (codes "256") (codes "c") unset size_IsToken (cc, omega arith) refl
      refl refl refl refl refl

abbrev enc_argv : Argv
enc_argv = some (codes "wolfssl") ∷ some (codes "encrypt") ∷ some (codes "-aes-cbc-256") ∷ []

abbrev bare_argv : Argv
bare_argv = some (codes "wolfssl") ∷ some (codes "enc") ∷ some (codes "-d") ∷ []
