-- ===== src/Rand/Accepts.antt =====
-- src/tools/clu_rand.c: the command lines that `rand` goes on to write for.
use wolf_clu.Base.{
  ◌⊎◌, ◌≢◌, ℕ, ◌*◌, ◌^◌, ◌≤◌, ◌<◌, Bool, true, false, ◌&&◌, ◌||◌, Option, none, some, ◌≡◌, refl,
  arith, if◌then◌else◌, drop, Bool-cases, inl, inr, ℤ, pos, negsuc,
}
use wolf_clu.Text.{Bytes, codes, atoi}
use wolf_clu.Text.Numbers.{atoi_bound}
use wolf_clu.Args.{Argv, Step, continue, leave}
use wolf_clu.Rand.{
  rand_options, slots_of, Scan, duplicate, bad_option, extra_token, scanned, scan, Settings, Leave,
  help, failure, rand_option, Plan, fail, plan_stuck, write, check_size, conclude_scan,
  after_options, last_is_help, rand_plan, no_settings,
}
use wolf_clu.Args.Loop.{option_loop-run_events}
use wolf_clu.Rand.Once.{occurrences, EachOnce, Once-EachOnce, rand_options-Readable, scan-Once}

-- A size that is written is positive and an `int`; the two encodings are not asked for together,
-- and the text of one is shorter than 2 ^ 31.
abbrev pub SizeFits : ℕ → Settings → Type 0
SizeFits n s =
    (0 < n)
    × (n < 2 ^ 31)
    × ((s.use_base64 && s.use_hex) ≡ false)
    × (((s.use_base64 || s.use_hex) ≡ false) ⊎ (2 * n < 2 ^ 31))

check_size-SizeFits :
    (s₀ : Settings) (token : Bytes) (z : ℤ) {n : ℕ} {s : Settings}
    → atoi token ≡ z
    → check_size s₀ z ≡ write n s
    → SizeFits n s
unfolding check_size
check_size-SizeFits s₀ token (negsuc m) e h = cc
check_size-SizeFits s₀ token (pos m) {n} {s} e h =
    let small = atoi_bound token e in
    let size : m ≡ n = ground (arith, h) in
    let settings : s₀ ≡ s = ground (arith, h) in
    rw (← size, ← settings) (ground (arith, h), small, ground (arith, h), ground (arith, h))

abbrev Accepts : Argv → ℕ → Settings → Type 0
Accepts args n s = SizeFits n s × EachOnce args rand_options

conclude_scan-Accepts :
    (args : Argv) (s₀ : Settings) (r : Scan) {n : ℕ} {s : Settings}
    → scan (slots_of rand_options) false none args ≡ r
    → conclude_scan s₀ r ≡ write n s
    → Accepts args n s
unfolding conclude_scan
conclude_scan-Accepts args s₀ duplicate e h = cc
conclude_scan-Accepts args s₀ bad_option e h = cc
conclude_scan-Accepts args s₀ extra_token e h = cc
conclude_scan-Accepts args s₀ (scanned none) e h = cc
conclude_scan-Accepts args s₀ (scanned (some token)) e h = (
  check_size-SizeFits s₀ token (atoi token) refl h,
  Once-EachOnce args rand_options
      (scan-Once args (slots_of rand_options) false none rand_options-Readable e),
)

if_write :
    (b : Bool) (x : Plan) {n : ℕ} {s : Settings}
    → (if b then x else fail) ≡ write n s
    → x ≡ write n s
if_write true x h = h
if_write false x h = cc

after_options-Accepts :
    (argv : Argv) (r : Option (Step Settings Leave)) {n : ℕ} {s : Settings}
    → after_options argv r ≡ write n s
    → Accepts (drop 2 argv) n s
unfolding after_options
after_options-Accepts argv none h = cc
after_options-Accepts argv (some (leave help)) h = cc
after_options-Accepts argv (some (leave failure)) h = cc
after_options-Accepts argv (some (continue s₀)) h =
    conclude_scan-Accepts (drop 2 argv) s₀ _ refl (if_write s₀.ok _ h)

-- When `rand` goes on to write, the size is positive and an `int`, `-base64` and `-hex` are not
-- both set, the size of an encoding fits an `int`, and each of `-out`, `-base64` and `-hex` is at
-- most once among the arguments behind `rand`, whether as an option or as the value of one.
pub rand_plan-Accepts :
    (argv : Argv) {n : ℕ} {s : Settings}
    → rand_plan argv ≡ write n s
    → SizeFits n s
      × (occurrences (codes "-out") (drop 2 argv) ≤ 1)
      × (occurrences (codes "-base64") (drop 2 argv) ≤ 1)
      × (occurrences (codes "-hex") (drop 2 argv) ≤ 1)
unfolding rand_plan
rand_plan-Accepts argv h = elim (Bool-cases (last_is_help argv)) [
  | inl is ↦ absurd (ground (arith, is, h))
  | inr isnt ↦
      let (size, (a, (b, (c, end)))) = after_options-Accepts argv _ (rw isnt at h) in
      (size, a, b, c)
]

-- The five calls of `wolfCLU_GetOpt` that the model of the loop allows are enough.
pub rand_plan_total : (argv : Argv) → rand_plan argv ≢ plan_stuck
unfolding rand_plan after_options conclude_scan check_size
rand_plan_total argv h = elim (Bool-cases (last_is_help argv)) [
  | inl is ↦ ground (arith, is, h)
  | inr isnt ↦
      let runs =
        option_loop-run_events rand_option argv 1 rand_options 4 0 no_settings (omega arith) in
      not_stuck _ (rw (isnt, runs) at h)
]
  where
    check_size_total : (s : Settings) (z : ℤ) → check_size s z ≢ plan_stuck
    check_size_total s (negsuc n) e = cc
    check_size_total s (pos n) e = ground (arith, e)

    scan_total : (s : Settings) (r : Scan) → conclude_scan s r ≢ plan_stuck
    scan_total s duplicate e = cc
    scan_total s bad_option e = cc
    scan_total s extra_token e = cc
    scan_total s (scanned none) e = cc
    scan_total s (scanned (some token)) e = check_size_total s (atoi token) e

    if_total : (b : Bool) (x : Plan) → x ≢ plan_stuck → (if b then x else fail) ≢ plan_stuck
    if_total true x p e = p e
    if_total false x p e = cc

    not_stuck : (r : Step Settings Leave) → after_options argv (some r) ≢ plan_stuck
    not_stuck (leave help) e = cc
    not_stuck (leave failure) e = cc
    not_stuck (continue s) e = if_total s.ok _ (scan_total s _) e
