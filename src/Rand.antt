-- ===== src/Rand.antt =====
-- src/tools/clu_rand.c: the `rand` command, from the arguments to the bytes that it writes. The
-- files, the memory and the Base64 encoder are not modelled: a plan says what is to be written.
pub mod Once
pub mod Accepts
pub mod Output
use wolf_clu.Base.{
  ℕ, zero, suc, ◌+◌, ◌-◌, ◌^◌, ◌≤◌, Bool, true, false, not, ◌&&◌, ◌||◌, List, [], ◌∷◌, ◌++◌, Option,
  none, some, ltb, leb, length, drop, if◌then◌else◌, get_elem?, ℤ, pos, negsuc, ◌==◌,
}
use wolf_clu.Text.{Bytes, codes, bytes_eq, atoi}
use wolf_clu.Args.{
  Argv, arg_at, OptionEntry, Event, found_twice, given, Step, continue, leave, option_loop,
}

pub data RandOption : Type 0 where
  out_file base64 hex : RandOption

-- `rand_options`
abbrev pub rand_options : List (OptionEntry RandOption)
rand_options =
    record { name = codes "-out"; has_arg = true; val = out_file }
    ∷ record { name = codes "-base64"; has_arg = false; val = base64 }
    ∷ record { name = codes "-hex"; has_arg = false; val = hex }
    ∷ []

-- An entry of the table with its slot of `seen`.
pub record Slot : Type 0 where
  pub entry : OptionEntry RandOption
  pub seen : Bool

abbrev pub slots_of : List (OptionEntry RandOption) → List Slot
slots_of [] = []
slots_of (e ∷ es) = record { entry = e; seen = false } ∷ slots_of es

-- The result of `wolfCLU_RandMarkOption`: -1, or the entry, whether it was seen, and the slots.
pub data Mark : Type 0 where
  no_option : Mark
  marked : OptionEntry RandOption → Bool → List Slot → Mark

unfoldable pub behind : Slot → Mark → Mark
behind slot no_option = no_option
behind slot (marked e dup slots) = marked e dup (slot ∷ slots)

-- `wolfCLU_RandMarkOption`
unfoldable pub mark_option : Bytes → List Slot → Mark
mark_option token [] = no_option
mark_option token (slot ∷ slots) =
    let more = mark_option token slots in
    if bytes_eq token slot.entry.name
    then marked slot.entry slot.seen (record slot { seen = true } ∷ slots)
    else behind slot more

-- How the rescan ends: with `dupOpt`, `badOpt` or `extra` set, or with `countIdx`.
pub data Scan : Type 0 where
  duplicate bad_option extra_token : Scan
  scanned : Option Bytes → Scan

unfoldable pub is_help : Bytes → Bool
is_help a = bytes_eq a (codes "-h") || bytes_eq a (codes "-help")

unfoldable pub is_dashed : Bytes → Bool
is_dashed [] = false
is_dashed (c ∷ a) = c == b'-'

-- The rescan from `i = 2` on: the slots, `skipNext`, the count, and the tokens that are left.
unfoldable pub scan : List Slot → Bool → Option Bytes → Argv → Scan
scan slots skip_next count [] = scanned count
scan slots skip_next count (none ∷ rest) = scanned count
scan slots true count (some a ∷ rest) = elim (mark_option a slots) [
  | no_option ↦ scan slots false count rest
  | marked e true slots' ↦ duplicate
  | marked e false slots' ↦ scan slots' false count rest
]
scan slots false count (some a ∷ rest) =
    let skip = scan slots false count rest in
    let first = scan slots false (some a) rest in
    if is_help a then skip else elim (mark_option a slots) [
      | marked e true slots' ↦ duplicate
      | marked e false slots' ↦ scan slots' e.has_arg count rest
      | no_option ↦
          if is_dashed a then bad_option else elim count [ none ↦ first | some c ↦ extra_token ]
    ]

-- The locals that the options set; `ok` is `ret == WOLFCLU_SUCCESS`.
pub record Settings : Type 0 where
  pub use_base64 : Bool
  pub use_hex : Bool
  pub out : Option Bytes
  pub ok : Bool

-- why the option loop is left: the help, or an error
pub data Leave : Type 0 where
  help failure : Leave

-- the `switch`
unfoldable pub rand_option : Event RandOption → Settings → Step Settings Leave
rand_option found_twice s = leave failure
rand_option (given base64 arg) s = continue (record s { use_base64 = true })
rand_option (given hex arg) s = continue (record s { use_hex = true })
rand_option (given out_file none) s = continue (record s { ok = false })
rand_option (given out_file (some path)) s = continue (record s { out = some path })

-- What the command is to do: print the help, fail, or write `size` random bytes.
pub data Plan : Type 0 where
  show_help fail plan_stuck : Plan
  write : ℕ → Settings → Plan

-- the guards behind the count
unfoldable pub check_size : Settings → ℤ → Plan
check_size s (negsuc n) = fail
check_size s (pos n) =
    if n == 0
    then fail
    else if s.use_base64 && s.use_hex
    then fail
    else if (s.use_hex || s.use_base64) && ltb (2 ^ 30 - 1) n
    then fail
    else write n s

unfoldable pub conclude_scan : Settings → Scan → Plan
conclude_scan s duplicate = fail
conclude_scan s bad_option = fail
conclude_scan s extra_token = fail
conclude_scan s (scanned none) = fail
conclude_scan s (scanned (some token)) = check_size s (atoi token)

unfoldable pub after_options : Argv → Option (Step Settings Leave) → Plan
after_options argv none = plan_stuck
after_options argv (some (leave help)) = show_help
after_options argv (some (leave failure)) = fail
after_options argv (some (continue s)) =
    if s.ok then conclude_scan s (scan (slots_of rand_options) false none (drop 2 argv)) else fail

-- `argv[argc-1]`
abbrev pub last_is_help : Argv → Bool
last_is_help argv = elim (arg_at argv (length argv - 1)) [ none ↦ false | some a ↦ is_help a ]

abbrev pub no_settings : Settings
no_settings = record { use_base64 = false; use_hex = false; out = none; ok = true }

-- `wolfCLU_Rand` up to the opening of the output
unfoldable pub rand_plan : Argv → Plan
rand_plan argv =
    if last_is_help argv
    then show_help
    else after_options argv (option_loop rand_option argv 1 rand_options 4 0 no_settings)

pub data Generated : Type 0 where
  filled : Bytes → Generated
  rng_failed generate_stuck : Generated

-- RNG_MAX_BLOCK_LEN where the build leaves it undefined
abbrev pub rng_max_block_len : ℕ
rng_max_block_len = 65536

unfoldable pub chunk_of : ℕ → ℕ
chunk_of left = if ltb rng_max_block_len left then rng_max_block_len else left

-- The loop that fills the buffer, with `left = size - generated`; `rng` is
-- `wc_RNG_GenerateBlock`, with the bytes that it stores.
unfoldable pub generate {ℓ} :
    {R : Type ℓ} → (R → ℕ → Option (R × Bytes)) → ℕ → ℕ → R → Bytes → Generated
generate rng fuel zero r buf = filled buf
generate rng zero (suc left) r buf = generate_stuck
generate rng (suc fuel) (suc left) r buf = elim (rng r (chunk_of (suc left))) [
  | none ↦ rng_failed
  | some (r', block) ↦ generate rng fuel (suc left - chunk_of (suc left)) r' (buf ++ block)
]
