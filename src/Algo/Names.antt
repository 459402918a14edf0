-- ===== src/Algo/Names.antt =====
-- src/tools/clu_funcs.c: the names of `algoName` and `oldAlgoName`, read by the parser.
use wolf_clu.Base.{
  ℕ, Bool, true, false, ◌&&◌, List, [], ◌∷◌, some, ◌≡◌, refl, ◌∙◌, sym, arith, ap, if◌then◌else◌,
  Bool-cases, inl, inr, pos, length, All, leb,
}
use mathlib.Core.Option
use wolf_clu.Base.Result.{Result, ok, err, fatal_error, user_input_error}
use wolf_clu.Features.{Features}
use wolf_clu.Text.{Bytes, codes, bytes_eq, strtok, atoi, starts_with, strncmp_eq}
use wolf_clu.Text.Laws.{bytes_eq_iff}
use wolf_clu.Args.{Argv, arg_at, run_events, events}
use wolf_clu.Args.Loop.{option_loop-run_events}
use wolf_clu.Algo.{
  Alg, aes128ctr, aes192ctr, aes256ctr, aes128cbc, aes192cbc, aes256cbc, camellia128cbc,
  camellia192cbc, camellia256cbc, descbc, Target, parse_algo, after_name, two_tokens, check_names,
  key_size, store_mode, aes_branch, camellia_branch, by_size, starts_digit, accepts, accept_algs,
  accept_modes, des3_block_size,
}
use wolf_clu.Algo.Order.{two_tokens-swap}
use wolf_clu.Algo.Select.{
  algo_name, old_names, rename, old_algo, get_algo, next_check, crypt_algo_options, crypt_option,
  outcome, Choice, cut_name,
}

-- The key size, the mode and the block size that the name of an algorithm stands for.
abbrev pub name_size : Alg → ℕ
name_size aes128ctr = 128
name_size aes192ctr = 192
name_size aes256ctr = 256
name_size aes128cbc = 128
name_size aes192cbc = 192
name_size aes256cbc = 256
name_size camellia128cbc = 128
name_size camellia192cbc = 192
name_size camellia256cbc = 256
name_size descbc = 168

abbrev pub name_mode : Alg → Bytes
name_mode aes128ctr = codes "ctr"
name_mode aes192ctr = codes "ctr"
name_mode aes256ctr = codes "ctr"
name_mode _ = codes "cbc"

abbrev pub name_block : Features → Alg → ℕ
name_block f camellia128cbc = f.camellia_block_size
name_block f camellia192cbc = f.camellia_block_size
name_block f camellia256cbc = f.camellia_block_size
name_block f descbc = des3_block_size
name_block f _ = f.aes_block_size

-- The names that the parser can select: never DES-CBC's.
abbrev pub selectable : Features → Alg → Bool
selectable f aes128ctr = f.aes && f.aes_counter
selectable f aes192ctr = f.aes && f.aes_counter
selectable f aes256ctr = f.aes && f.aes_counter
selectable f camellia128cbc = f.camellia
selectable f camellia192cbc = f.camellia
selectable f camellia256cbc = f.camellia
selectable f descbc = false
selectable f _ = f.aes

-- The variables behind a failure: a known cipher with a mode that the build lacks has its size
-- stored before the mode is refused.
abbrev pub refused : Features → Alg → Target → Target
refused f aes128ctr t = if f.aes then record t { size = pos 128 } else t
refused f aes192ctr t = if f.aes then record t { size = pos 192 } else t
refused f aes256ctr t = if f.aes then record t { size = pos 256 } else t
refused f _ t = t

-- Each name of `algoName` is parsed into its own algorithm, mode and size, if the build has the
-- cipher and its mode. Otherwise, and always for "-des-cbc", the parser fails, and stores nothing
-- but the size of an AES name whose mode the build lacks.
pub parse_algo-algo_name :
    (f : Features) (a : Alg) (t : Target)
    → parse_algo f true (algo_name a) t ≡ (
        if selectable f a
        then (
          ok (name_block f a),
          record t { alg = some a; mode = some (name_mode a); size = pos (name_size a) },
        )
        else (err fatal_error, refused f a t))
unfolding parse_algo after_name two_tokens check_names key_size store_mode aes_branch
    camellia_branch by_size starts_digit accepts accept_algs accept_modes strtok atoi starts_with
    strncmp_eq
parse_algo-algo_name f aes128ctr t = ground arith
parse_algo-algo_name f _ t = ground arith

-- the two spellings of one name
abbrev SameParse : Features → Bool → Bytes × Bytes → Type 0
SameParse f alloc p = (t : Target) → parse_algo f alloc p.0 t ≡ parse_algo f alloc p.1 t

spelled :
    (f : Features) (alloc : Bool) (size mode : Bytes) (t : Target)
    → starts_digit size ≡ true
    → starts_digit mode ≡ false
    → (if accepts (accept_algs f) (codes "aes")
        then two_tokens f alloc (codes "aes") mode size t
        else check_names f alloc false (codes "aes") mode t)
      ≡ (if accepts (accept_algs f) (codes "aes")
          then two_tokens f alloc (codes "aes") size mode t
          else check_names f alloc false (codes "aes") size t)
unfolding check_names
spelled f alloc size mode t d nd =
    ground (arith, two_tokens-swap f alloc (codes "aes") size mode t d nd)

module _ (f : Features) (alloc : Bool) where
  old_names-SameParse : All (SameParse f alloc) old_names
  unfolding parse_algo after_name strtok starts_digit
  old_names-SameParse = (
    λ t. spelled f alloc (codes "128") (codes "ctr") t refl refl,
    (
      λ t. spelled f alloc (codes "192") (codes "ctr") t refl refl,
      (
        λ t. spelled f alloc (codes "256") (codes "ctr") t refl refl,
        (
          λ t. spelled f alloc (codes "128") (codes "cbc") t refl refl,
          (
            λ t. spelled f alloc (codes "192") (codes "cbc") t refl refl,
            (λ t. spelled f alloc (codes "256") (codes "cbc") t refl refl, tt),
          ),
        ),
      ),
    ),
  )

  rename-SameParse :
      (names : List (Bytes × Bytes)) (a : Bytes) (t : Target)
      → All (SameParse f alloc) names
      → parse_algo f alloc (rename names a) t ≡ parse_algo f alloc a t
  unfolding rename
  rename-SameParse [] a t h = refl
  rename-SameParse ((old, new) ∷ names) a t (same, h) = elim (Bool-cases (bytes_eq a old)) [
    | inl e ↦ rw e (
        rename-SameParse names new t h
        ∙ sym (same t)
        ∙ ap (λ n. parse_algo f alloc n t) (sym ((bytes_eq_iff a old).0 e)))
    | inr e ↦ rw e (rename-SameParse names a t h)
  ]

  -- `wolfCLU_oldAlgo` does not change what an argument means: the parser does the same with the new
  -- spelling of a cipher's name as with the old one, and an argument that is no old spelling of a
  -- cipher is parsed as it was.
  pub parse_algo-rename :
      (a : Bytes) (t : Target) → parse_algo f alloc (rename old_names a) t ≡ parse_algo f alloc a t
  parse_algo-rename a t = rename-SameParse old_names a t old_names-SameParse

  next_check_total :
      (argv : Argv) (name : Bytes) (r : Result ℕ × Target)
      → (out : Result ℕ × Target) × (next_check f alloc argv name r ≡ some out)
  unfolding next_check
  next_check_total argv name (ok n, t) = ((ok n, t), refl)
  next_check_total argv name (err e, t) =
      let start : Choice = record { ret = err e; name = cut_name name; target = t } in
      let run =
        option_loop-run_events (crypt_option f alloc) argv 2 crypt_algo_options 12 0 start
          (omega arith) in
      (
        outcome f alloc
            (run_events (crypt_option f alloc) (events argv 2 crypt_algo_options) start),
        ap (Option.map (outcome f alloc)) run,
      )

  -- With an `argv[2]` that is not NULL, `wolfCLU_getAlgo` returns: the fuel of its option loop is
  -- enough.
  pub get_algo_total :
      (argv : Argv) (t : Target) (a : Bytes)
      → arg_at (old_algo argv) 2 ≡ some a
      → (out : Result ℕ × Target) × (get_algo f alloc argv t ≡ some out)
  unfolding get_algo
  get_algo_total argv t a h = elim (Bool-cases (leb 80 (length a))) [
    | inl long ↦ ((err user_input_error, t), rw (h, get_algo) (rw long))
    | inr short ↦
        let (out, e) = next_check_total (old_algo argv) a (parse_algo f alloc a t) in
        (out, rw (h, get_algo) (rw short e))
  ]

short_name : (a : Alg) → leb 80 (length (algo_name a)) ≡ false
short_name aes128ctr = refl
short_name _ = refl

-- If `argv[2]` names a cipher that the build has, in the old or in the new spelling, then
-- `wolfCLU_getAlgo` returns its block size and stores its algorithm, mode and key size.
pub get_algo_named :
    (f : Features) (argv : Argv) (t : Target) (a : Alg)
    → arg_at (old_algo argv) 2 ≡ some (algo_name a)
    → selectable f a ≡ true
    → get_algo f true argv t
      ≡ some (
        ok (name_block f a),
        record t { alg = some a; mode = some (name_mode a); size = pos (name_size a) },
      )
unfolding get_algo next_check
get_algo_named f argv t a h s = ground (arith, h, short_name a, parse_algo-algo_name f a t, s)
