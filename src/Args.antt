-- ===== src/Args.antt =====
-- src/tools/clu_funcs.c, `wolfCLU_checkForArg` and `wolfCLU_GetOpt`, and the loop
-- `while ((option = wolfCLU_GetOpt(…)) != END_OF_ARGS) switch (option) …` that every command runs.
-- An argument vector is a list of `argc` pointers, `none` for NULL. The globals `optind` and
-- `optarg` are an argument and a part of the result.
pub mod Search
pub mod Loop
use wolf_clu.Base.{
  ℕ, zero, suc, ◌+◌, Bool, true, false, not, ◌&&◌, ◌||◌, List, [], ◌∷◌, Option, none, some, ◌==◌,
  ltb, if◌then◌else◌, length, get_elem?, drop,
}
use wolf_clu.Text.{Bytes, codes, strncmp_eq}

abbrev pub Argv : Type 0
Argv = List (Option Bytes)

-- `argv[i]` for an index that may be past the end
abbrev pub arg_at : Argv → ℕ → Option Bytes
arg_at argv i = elim (get_elem? argv i) [ none ↦ none | some a ↦ a ]

-- The result of `wolfCLU_checkForArg`: `twice` is USER_INPUT_ERROR.
pub data Found : Type 0 where
  twice : Found
  index : ℕ → Found

-- the condition of the first branch: `term` is cut from "-help", and so is the argument
unfoldable pub is_help_like : Bytes → ℕ → Bytes → Bool
is_help_like term len a =
    strncmp_eq len term (codes "-help")
    && (strncmp_eq (length a) a (codes "-help") && ltb 0 (length a))

-- the condition of the second branch
unfoldable pub is_match : Bytes → ℕ → Bytes → Bool
is_match term len a = length a == len && strncmp_eq len a term

-- The loop, at argument `i` with the locals `ret` and `argFound`.
unfoldable pub check_from : Bytes → ℕ → ℕ → ℕ → Bool → Argv → Found
unfolding is_help_like is_match
check_from term len i ret seen [] = index ret
check_from term len i ret seen (none ∷ rest) = index ret
check_from term len i ret seen (some a ∷ rest) =
    let hit = check_from term len (i + 1) i true rest in
    let next = check_from term len (i + 1) ret seen rest in
    if is_help_like term len a
    then index 1
    else if is_match term len a
    then if seen then twice else hit
    else next

-- `wolfCLU_checkForArg`
unfoldable pub check_for_arg : Option Bytes → ℕ → Argv → Found
unfolding check_from
check_for_arg none len argv = index 0
check_for_arg (some term) len argv = check_from term len 0 0 false argv

-- `struct option`; `flag` is 0 in every table. The terminal element is the end of the list.
pub record OptionEntry {ℓ} (V : Type ℓ) : Type ℓ where
  pub name : Bytes
  pub has_arg : Bool
  pub val : V

-- What a call returns, but END_OF_ARGS: ARG_FOUND_TWICE, or `val` with `optarg`.
pub data Event {ℓ} (V : Type ℓ) : Type ℓ where
  found_twice : Event V
  given : V → Option Bytes → Event V

-- The result of a call with the new `optind`.
pub data Answer {ℓ} (V : Type ℓ) : Type ℓ where
  end_of_args : ℕ → Answer V
  option : Event V → ℕ → Answer V

module _ {ℓ} {V : Type ℓ} (argv : Argv) (opt_index : ℕ) where
  -- the body of the loop, at one entry of the table
  unfoldable pub entry_event : OptionEntry V → Option (Event V)
  unfolding check_for_arg
  entry_event e = elim (check_for_arg (some e.name) (length e.name) argv) [
    | twice ↦ some found_twice
    | index i ↦
        if i == opt_index + 1 || (not (opt_index == 0) && ltb 0 i)
        then some (given e.val (if e.has_arg then arg_at argv (i + 1) else none))
        else none
  ]

  -- `while (1)` over the entries that are left, with the new `optind`
  unfoldable pub get_opt_from : List (OptionEntry V) → ℕ → Answer V
  get_opt_from [] optind = end_of_args optind
  get_opt_from (e ∷ es) optind = elim (entry_event e) [
    | some ev ↦ option ev (optind + 1)
    | none ↦ get_opt_from es (optind + 1)
  ]

  -- `wolfCLU_GetOpt`.
  unfoldable pub get_opt : List (OptionEntry V) → ℕ → Answer V
  get_opt table optind = get_opt_from (drop optind table) optind

-- What a command's `switch` does with an option: go on, or leave the loop.
pub data Step {ℓ κ} (S : Type ℓ) (R : Type κ) : Type (ℓ ⊔ κ) where
  continue : S → Step S R
  leave : R → Step S R

module _ {ℓ κ μ} {V : Type ℓ} {S : Type κ} {R : Type μ} (handle : Event V → S → Step S R) where
  -- The loop of a command on fuel; `none` means that the fuel ran out.
  unfoldable pub option_loop : Argv → ℕ → List (OptionEntry V) → ℕ → ℕ → S → Option (Step S R)
  option_loop argv opt_index table zero optind s = none
  option_loop argv opt_index table (suc fuel) optind s =
      elim (get_opt argv opt_index table optind) [
        | end_of_args optind' ↦ some (continue s)
        | option ev optind' ↦ elim (handle ev s) [
          | continue s' ↦ option_loop argv opt_index table fuel optind' s'
          | leave r ↦ some (leave r)
        ]
      ]

  -- The `switch` on each event in turn.
  unfoldable pub run_events : List (Event V) → S → Step S R
  run_events [] s = continue s
  run_events (ev ∷ evs) s = elim (handle ev s) [
    | continue s' ↦ run_events evs s'
    | leave r ↦ leave r
  ]

-- The events of a table: one at most for each entry, in the table's order.
unfoldable pub events {ℓ} : {V : Type ℓ} → Argv → ℕ → List (OptionEntry V) → List (Event V)
events argv opt_index [] = []
events argv opt_index (e ∷ es) = elim (entry_event argv opt_index e) [
  | none ↦ events argv opt_index es
  | some ev ↦ ev ∷ events argv opt_index es
]
