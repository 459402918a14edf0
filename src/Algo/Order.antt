-- ===== src/Algo/Order.antt =====
-- src/tools/clu_funcs.c, `wolfCLU_parseAlgo`: names of three tokens.
use wolf_clu.Base.{Bool, true, false, [], ◌∷◌, ◌++◌, some, ◌≡◌, ◌≢◌, refl, ◌∙◌, sym, arith, All}
use wolf_clu.Base.Result.{ok}
use wolf_clu.Features.{Features}
use wolf_clu.Text.{Bytes, codes, strtok, skip_char, before, after, atoi, starts_with, strncmp_eq}
use wolf_clu.Algo.{
  Target, parse_algo, after_name, two_tokens, starts_digit, accepts, accept_algs, accept_modes,
  check_names, key_size, store_mode, aes_branch, is_aes_size,
}

-- A token: not empty, and with no `-` in it.
abbrev pub IsToken : Bytes → Type 0
IsToken s = (s ≢ []) × All (λ c. c ≢ b'-') s

before_token : (s rest : Bytes) → All (λ c. c ≢ b'-') s → before b'-' (s ++ b'-' ∷ rest) ≡ s
unfolding before
before_token [] rest h = refl
before_token (c ∷ s) rest (p, h) = ground (arith, before_token s rest h)

after_token : (s rest : Bytes) → All (λ c. c ≢ b'-') s → after b'-' (s ++ b'-' ∷ rest) ≡ rest
unfolding after
after_token [] rest h = refl
after_token (c ∷ s) rest (p, h) = ground (arith, after_token s rest h)

before_last : (s : Bytes) → All (λ c. c ≢ b'-') s → before b'-' s ≡ s
unfolding before
before_last [] h = refl
before_last (c ∷ s) (p, h) = ground (arith, before_last s h)

after_last : (s : Bytes) → All (λ c. c ≢ b'-') s → after b'-' s ≡ []
unfolding after
after_last [] h = refl
after_last (c ∷ s) (p, h) = ground (arith, after_last s h)

pub strtok_token : (s rest : Bytes) → IsToken s → strtok b'-' (s ++ b'-' ∷ rest) ≡ some (s, rest)
unfolding strtok skip_char
strtok_token [] rest (ne, h) = absurd (ne refl)
strtok_token (c ∷ s) rest (ne, h) =
    let b = before_token (c ∷ s) rest h in
    let a = after_token (c ∷ s) rest h in ground (arith, b, a)

pub strtok_last : (s : Bytes) → IsToken s → strtok b'-' s ≡ some (s, [])
unfolding strtok skip_char
strtok_last [] (ne, h) = absurd (ne refl)
strtok_last (c ∷ s) (ne, h) =
    let b = before_last (c ∷ s) h in let a = after_last (c ∷ s) h in ground (arith, b, a)

-- What the parser does with a name of three tokens.
pub parse_algo_tokens :
    (f : Features) (alloc : Bool) (token first second : Bytes) (t : Target)
    → IsToken token
    → IsToken first
    → IsToken second
    → accepts (accept_algs f) token ≡ true
    → parse_algo f alloc (token ++ b'-' ∷ (first ++ b'-' ∷ second)) t
      ≡ two_tokens f alloc token first second t
unfolding parse_algo after_name
parse_algo_tokens f alloc token first second t ht hf hs known = ground (
  arith,
  strtok_token token (first ++ b'-' ∷ second) ht,
  known,
  strtok_token first second hf,
  strtok_last second hs,
)

pub two_tokens-swap :
    (f : Features) (alloc : Bool) (token size mode : Bytes) (t : Target)
    → starts_digit size ≡ true
    → starts_digit mode ≡ false
    → two_tokens f alloc token size mode t ≡ two_tokens f alloc token mode size t
unfolding two_tokens
two_tokens-swap f alloc token size mode t d nd = rw (d, nd)

-- With an accepted cipher name, a size that begins with a digit and a mode that does not,
-- "name-size-mode" and "name-mode-size" are parsed alike: the same result, algorithm, mode and
-- size, whether the parser succeeds or not.
pub parse_algo-swap :
    (f : Features) (alloc : Bool) (token size mode : Bytes) (t : Target)
    → IsToken token
    → IsToken size
    → IsToken mode
    → accepts (accept_algs f) token ≡ true
    → starts_digit size ≡ true
    → starts_digit mode ≡ false
    → parse_algo f alloc (token ++ b'-' ∷ (size ++ b'-' ∷ mode)) t
      ≡ parse_algo f alloc (token ++ b'-' ∷ (mode ++ b'-' ∷ size)) t
parse_algo-swap f alloc token size mode t ht hs hm known d nd =
    parse_algo_tokens f alloc token size mode t ht hs hm known
    ∙ two_tokens-swap f alloc token size mode t d nd
    ∙ sym (parse_algo_tokens f alloc token mode size t ht hm hs known)

accepts_aes : (f : Features) → f.aes ≡ true → accepts (accept_algs f) (codes "aes") ≡ true
unfolding accepts accept_algs strncmp_eq
accepts_aes f h = rw h

starts_aes : starts_with (codes "aes") (codes "aes") ≡ true
unfolding starts_with
starts_aes = refl

-- An AES name whose mode is accepted, as a beginning of "cbc" or "ctr", and is neither, is parsed
-- with success: it gives the block size, stores mode and size, and leaves `*alg` as it was.
pub parse_algo-unset :
    (f : Features) (size mode : Bytes) (t : Target)
    → IsToken size
    → IsToken mode
    → f.aes ≡ true
    → starts_digit size ≡ true
    → is_aes_size (atoi size) ≡ true
    → accepts (accept_modes f) mode ≡ true
    → starts_with mode (codes "cbc") ≡ false
    → starts_with mode (codes "ctr") ≡ false
    → parse_algo f true (codes "aes" ++ b'-' ∷ (size ++ b'-' ∷ mode)) t
      ≡ (ok f.aes_block_size, record t { size = atoi size; mode = some mode })
unfolding two_tokens check_names key_size store_mode aes_branch
parse_algo-unset f size mode t hs hm aes digit good known no_cbc no_ctr =
    parse_algo_tokens f true (codes "aes") size mode t (cc, omega arith) hs hm (accepts_aes f aes)
    ∙ selected
  where
    selected :
        two_tokens f true (codes "aes") size mode t
        ≡ (ok f.aes_block_size, record t { size = atoi size; mode = some mode })
    selected = ground (arith, starts_aes)
