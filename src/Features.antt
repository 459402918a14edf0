-- ===== src/Features.antt =====
-- What the modelled code takes from the configuration of wolfSSL (`#ifdef` and constants), as a
-- record: a definition that depends on it takes the record as an argument.
use wolf_clu.Base.{Bool, ℕ}

pub record Features : Type 0 where
  pub aes : Bool
  pub aes_counter : Bool
  pub des3 : Bool
  pub camellia : Bool
  pub aes_block_size : ℕ
  pub camellia_block_size : ℕ
