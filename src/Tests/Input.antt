-- ===== src/Tests/Input.antt =====
-- Lines and passwords from the standard input.
use wolf_clu.Base.{ℕ, Bool, true, ◌∷◌, ◌++◌, ◌≡◌, refl, arith}
use wolf_clu.Text.{codes}
use wolf_clu.Input.{line, getline}
use wolf_clu.Input.Safe.{Safe, getline-Safe}
use wolf_clu.Input.Whole.{getline-line}

abbrev granted : ℕ → Bool
granted n = true

montana : Safe (getline granted (codes "Montana"))
montana = getline-Safe granted (codes "Montana")

bozeman :
    (len : ℕ) × (getline granted (codes "Bozeman" ++ 10 ∷ codes "wolfSSL")
      ≡ line (codes "Bozeman") len (codes "wolfSSL"))
bozeman =
    getline-line granted (codes "Bozeman") (codes "wolfSSL") (λ n. refl) (omega arith) refl refl
