-- ===== src/Tests/Sign.antt =====
-- The command line `wolfssl ecc -sign -inkey k -in a -out s`.
use wolf_clu.Base.{Bool, true, [], ◌∷◌, some, ◌≡◌}
use wolf_clu.Text.{Bytes, codes}
use wolf_clu.Args.{Argv, events}
use wolf_clu.Sign.{SignPlan, sign_verify_options, sign_verify_setup}
use wolf_clu.Sign.Ready.{Ready, verify_given, sign_verify_setup-Ready}

abbrev sign_argv : Argv
sign_argv =
    some (codes "wolfssl")
    ∷ some (codes "ecc")
    ∷ some (codes "-sign")
    ∷ some (codes "-inkey")
    ∷ some (codes "k")
    ∷ some (codes "-in")
    ∷ some (codes "a")
    ∷ some (codes "-out")
    ∷ some (codes "s")
    ∷ []

abbrev everything : Bytes → Bool
everything name = true

ecc_signing :
    (plan : SignPlan) × (sign_verify_setup everything sign_argv ≡ some plan)
    × Ready everything (verify_given (events sign_argv 1 sign_verify_options)) plan
ecc_signing = sign_verify_setup-Ready everything sign_argv
