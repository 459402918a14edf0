-- ===== src/Crypto/Setup/Settled.antt =====
-- src/crypto/clu_crypto_setup.c, `wolfCLU_setup` behind the options: the questions, and what is run.
use wolf_clu.Base.{ℕ, Bool, none}
use wolf_clu.Base.Result.{Result}
use wolf_clu.Text.{Bytes}
use wolf_clu.Input.{get_stdin_password}
use wolf_clu.Crypto.Setup.Given.{Secrets}

-- What is typed in when a password is asked for.
abbrev pub typed_in : Bool → ℕ → Bytes → Result Bytes
typed_in hide size stdin = (get_stdin_password hide size stdin).0

-- What the options give, in the order of the table, in front of nothing.
abbrev pub no_secrets : Bytes → Secrets
no_secrets stdin = record {
  given_key = none;
  given_iv = none;
  given_password = none;
  input_left = stdin;
}
