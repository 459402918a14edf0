-- ===== src/Algo/Sound.antt =====
-- What a successful parse of a cipher's name guarantees.
use wolf_clu.Base.{ℕ, Bool, true, false, some, ◌≡◌, arith, ◌⊎◌, inl, inr, Bool-cases, Option-cases}
use wolf_clu.Base.Result.{Result, ok, err}
use wolf_clu.Features.{Features}
use wolf_clu.Text.{Bytes, strtok}
use wolf_clu.Algo.{
  Target, descbc, parse_algo, after_name, two_tokens, starts_digit, accepts, accept_algs,
  accept_modes, check_names, key_size, store_mode, aes_branch, des_branch, camellia_branch,
  is_aes_size, is_des_size, des3_block_size,
}

-- The block size returned goes with a key size that the cipher has, and the mode that is stored
-- is `mode`.
pub record IsChoice (f : Features) (mode : Bytes) (n : ℕ) (t : Target) : Type 0 where
  pub family :
      ((n ≡ f.aes_block_size) × (f.aes ≡ true) × (is_aes_size t.size ≡ true))
      ⊎ (((n ≡ des3_block_size)
            × (f.des3 ≡ true)
            × (is_des_size t.size ≡ true)
            × (t.alg ≡ some descbc))
          ⊎ ((n ≡ f.camellia_block_size) × (f.camellia ≡ true) × (is_aes_size t.size ≡ true)))
  pub stored : t.mode ≡ some mode

abbrev Chosen : Features → Bytes → Result ℕ → Target → Type 0
Chosen f mode (ok n) t = IsChoice f mode n t
Chosen f mode (err e) t = Unit

key_size-Chosen :
    (f : Features) (alloc : Bool) (token mode : Bytes) (t : Target)
    → Chosen f mode (key_size f alloc token mode t).0 (key_size f alloc token mode t).1
unfolding key_size store_mode aes_branch des_branch camellia_branch
key_size-Chosen f alloc token mode t = ground arith

abbrev pub Parsed : Features → ℕ → Target → Type 0
Parsed f n t' = (mode : Bytes) × (accepts (accept_modes f) mode ≡ true) × IsChoice f mode n t'

check_names-Parsed :
    (f : Features) (alloc name_check : Bool) (token mode : Bytes) (t : Target) {n : ℕ} {t' : Target}
    → check_names f alloc name_check token mode t ≡ (ok n, t')
    → (accepts (accept_modes f) mode ≡ true) × (name_check ≡ true) × IsChoice f mode n t'
unfolding check_names
check_names-Parsed f alloc name_check token mode t h =
    ground (arith, key_size-Chosen f alloc token mode t)

module _ (f : Features) where
  two_tokens-Parsed :
      (alloc : Bool) (token sz mode : Bytes) (t : Target) {n : ℕ} {t' : Target}
      → two_tokens f alloc token sz mode t ≡ (ok n, t')
      → Parsed f n t'
  unfolding two_tokens
  two_tokens-Parsed alloc token sz mode t h = elim (Bool-cases (starts_digit sz)) [
    | inl d ↦
        let (a, _, c) = check_names-Parsed f alloc true token mode _ (rw d at h) in (mode, a, c)
    | inr d ↦ let (a, _, c) = check_names-Parsed f alloc true token sz _ (rw d at h) in (sz, a, c)
  ]

  after_name-Parsed :
      (alloc : Bool) (token rest : Bytes) (t : Target) {n : ℕ} {t' : Target}
      → after_name f alloc token rest t ≡ (ok n, t')
      → Parsed f n t'
  unfolding after_name
  after_name-Parsed alloc token rest t h = elim (Option-cases (strtok b'-' rest)) [
    | inl e ↦ absurd (ground (arith, e))
    | inr ((sz, more), e) ↦ elim (Option-cases (strtok b'-' more)) [
      | inl e' ↦ absurd (ground (arith, e, e'))
      | inr ((mode, _), e') ↦
          two_tokens-Parsed alloc token sz mode t (rw (e', after_name) at (rw (e, after_name) at h))
    ]
  ]

  -- A successful parse stores a mode that the build accepts, and its result is the block size of
  -- AES, 3DES or Camellia, whichever of them the build has, with a key size of that cipher; for
  -- 3DES the algorithm is DES-CBC.
  pub parse_algo-Parsed :
      (alloc : Bool) (name : Bytes) (t : Target) {n : ℕ} {t' : Target}
      → parse_algo f alloc name t ≡ (ok n, t')
      → Parsed f n t'
  unfolding parse_algo
  parse_algo-Parsed alloc name t {n} {t'} h = elim (Option-cases (strtok b'-' name)) [
    | inl e ↦ absurd (ground (arith, e))
    | inr ((token, rest), e) ↦ elim (Bool-cases (accepts (accept_algs f) token)) [
      | inl known ↦
          let k : after_name f alloc token rest t ≡ (ok n, t') = ground (arith, e, known) in
          after_name-Parsed alloc token rest t k
      | inr unknown ↦ absurd (refused token rest e unknown)
    ]
  ]
    where
      refused :
          (token rest : Bytes)
          → strtok b'-' name ≡ some (token, rest)
          → accepts (accept_algs f) token ≡ false
          → ⊥
      refused token rest e unknown = elim (Option-cases (strtok b'-' rest)) [
        | inl e' ↦ ground (arith, e, unknown, e')
        | inr ((mode, more), e') ↦
            let k : check_names f alloc false token mode t ≡ (ok n, t') =
              ground (arith, e, unknown, e') in
            let (_, bad, _) = check_names-Parsed f alloc false token mode t k in cc
      ]
