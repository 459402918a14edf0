-- ===== src/Main/Dash.antt =====
-- src/clu_main.c, a mode with and without a '-' in front.
use wolf_clu.Base.{
  ℕ, ◌+◌, ◌≤◌, Bool, true, false, not, ◌&&◌, ◌||◌, List, [], ◌∷◌, Option, none, some, ◌==◌, ◌≡◌,
  inl, inr, refl, sym, ap, ◌∙◌, arith, length, All, Bool-cases, ℤ, if◌then◌else◌,
}
use wolf_clu.Text.{Bytes, codes, strncmp_eq, bytes_eq, starts_with}
use wolf_clu.Text.Laws.{bytes_eq_iff}
use wolf_clu.Args.{
  Argv, Found, twice, index, check_for_arg, OptionEntry, given, entry_event, get_opt_from, get_opt,
  arg_at,
}
use wolf_clu.Args.Search.{positions_from, verdict, check_for_arg-positions}
use wolf_clu.Main.{
  Mode, wolfclu_rsa, mode_options, Flag, mode, fatal_flag, end_flag, get_mode_from, get_mode,
  legacy, flag_of, choose_mode, command, run_command, exit_status, main, Command,
}
use wolf_clu.Main.Modes.{name_test}

abbrev pub is_twice : Found → Bool
is_twice twice = true
is_twice (index i) = false

-- A name of the list is found twice or more in the arguments.
abbrev pub repeats : List (OptionEntry Mode) → Argv → Bool
repeats [] argv = false
repeats (e ∷ es) argv =
    is_twice (verdict (positions_from (λ x. bytes_eq x e.name) 0 argv)) || repeats es argv

-- No name of the list is cut from "-help".
abbrev plain_names : List (OptionEntry Mode) → Bool
plain_names [] = true
plain_names (e ∷ es) = not (strncmp_eq (length e.name) e.name (codes "-help")) && plain_names es

mode_options_plain : plain_names mode_options ≡ true
unfolding strncmp_eq
mode_options_plain = refl

positions_from-bound :
    (test : Bytes → Bool) (i n : ℕ) (argv : Argv)
    → i ≤ n
    → All (λ k. i ≤ k) (positions_from test n argv)
positions_from-bound test i n [] h = tt
positions_from-bound test i n (none ∷ rest) h = tt
positions_from-bound test i n (some a ∷ rest) h =
    ground (arith, positions_from-bound test i (n + 1) rest)

-- the verdict is 1 exactly if the argument behind the program's name satisfies the test
verdict_first :
    (test : Bytes → Bool) (p a : Bytes) (rest : Argv)
    → is_twice (verdict (positions_from test 0 (some p ∷ some a ∷ rest))) ≡ false
    → (i : ℕ) × (verdict (positions_from test 0 (some p ∷ some a ∷ rest)) ≡ index i)
      × ((i == 1) ≡ test a)
verdict_first test p a rest h =
    go (test p) (test a) (positions_from test 2 rest)
      (positions_from-bound test 2 2 rest (omega arith)) h
  where
    found_at : Bool → Bool → List ℕ → Found
    found_at b c ks =
        verdict (if b then 0 ∷ (if c then 1 ∷ ks else ks) else if c then 1 ∷ ks else ks)

    go :
        (b c : Bool) (ks : List ℕ)
        → All (λ k. 2 ≤ k) ks
        → is_twice (found_at b c ks) ≡ false
        → (i : ℕ) × (found_at b c ks ≡ index i) × ((i == 1) ≡ c)
    go true true ks all h = absurd (ground (arith, h))
    go true false [] all h = (0, refl, refl)
    go true false (k ∷ ks) all h = absurd (ground (arith, h))
    go false true [] all h = (1, refl, refl)
    go false true (k ∷ ks) all h = absurd (ground (arith, h))
    go false false [] all h = (0, refl, refl)
    go false false (k ∷ []) all h = (k, refl, ground (arith, all.0))
    go false false (k ∷ l ∷ ks) all h = absurd (ground (arith, h))

-- END_OF_ARGS where `getMode` has WOLFCLU_FATAL_ERROR
abbrev at_end : Flag → Flag
at_end fatal_flag = end_flag
at_end f = f

module _ (p a : Bytes) (rest : Argv) where
  abbrev words : Argv
  words = some p ∷ some a ∷ rest

  -- at the first call only the argument behind the program's name counts
  entry_event_first :
      (e : OptionEntry Mode) (i : ℕ)
      → check_for_arg (some e.name) (length e.name) words ≡ index i
      → (o : Option Bytes) × (entry_event words 0 e
          ≡ (if i == 1 then some (given e.val o) else none))
  unfolding entry_event
  entry_event_first e i q =
      (if e.has_arg then arg_at words (i + 1) else none, rw (q, entry_event) (ground arith))

  flag_of-cons :
      (e : OptionEntry Mode) (es : List (OptionEntry Mode)) (n : ℕ) (o : Option Bytes) (b : Bool)
      → entry_event words 0 e ≡ (if b then some (given e.val o) else none)
      → flag_of (get_opt_from words 0 (e ∷ es) n)
        ≡ (if b then mode e.val else flag_of (get_opt_from words 0 es (n + 1)))
  unfolding get_opt_from
  flag_of-cons e es n o true q = rw (q, flag_of)
  flag_of-cons e es n o false q = rw (q, flag_of)

  flag_of-get_mode_from :
      (es : List (OptionEntry Mode)) (n : ℕ)
      → plain_names es ≡ true
      → repeats es words ≡ false
      → flag_of (get_opt_from words 0 es n) ≡ at_end (get_mode_from es a)
  unfolding get_opt_from get_mode_from
  flag_of-get_mode_from [] n h k = refl
  flag_of-get_mode_from (e ∷ es) n h k =
      let (i, q, r) = verdict_first (λ x. bytes_eq x e.name) p a rest (ground (arith, k)) in
      let at_index = check_for_arg-positions e.name words (ground (arith, h)) ∙ q in
      let (o, s) = entry_event_first e i at_index in
      let ih = flag_of-get_mode_from es (n + 1) (ground (arith, h)) (ground (arith, k)) in
      flag_of-cons e es n o (i == 1) s ∙ rw (r, ih) (at_end-cons e es)
    where
      at_end-cons :
          (e : OptionEntry Mode) (es : List (OptionEntry Mode))
          → (if bytes_eq a e.name then mode e.val else at_end (get_mode_from es a))
            ≡ at_end (get_mode_from (e ∷ es) a)
      at_end-cons e es = rw (name_test e.name a) (ground arith)

-- The mode WOLFCLU_RSA has the name "rsa" only.
abbrev is_rsa : Mode → Bool
is_rsa wolfclu_rsa = true
is_rsa _ = false

abbrev rsa_named : List (OptionEntry Mode) → Bool
rsa_named [] = true
rsa_named (e ∷ es) = (not (is_rsa e.val) || bytes_eq e.name (codes "rsa")) && rsa_named es

legacy-mode : (m : Mode) → is_rsa m ≡ false → legacy (mode m) ≡ mode m
legacy-mode wolfclu_rsa h = absurd (ground (arith, h))
legacy-mode _ h = refl

legacy-get_mode_from :
    (es : List (OptionEntry Mode)) (a : Bytes)
    → rsa_named es ≡ true
    → bytes_eq a (codes "rsa") ≡ false
    → legacy (get_mode_from es a) ≡ get_mode_from es a
unfolding get_mode_from
legacy-get_mode_from [] a h k = refl
legacy-get_mode_from (e ∷ es) a h k = elim (Bool-cases (bytes_eq a e.name)) [
  | inl p ↦
      let other : is_rsa e.val ≡ false = ground (
        arith,
        h,
        k,
        p,
        bytes_eq_iff a e.name,
        bytes_eq_iff e.name (codes "rsa"),
        bytes_eq_iff a (codes "rsa"),
      ) in
      rw (name_test e.name a, p) (legacy-mode e.val other)
  | inr p ↦ rw (name_test e.name a, p) (legacy-get_mode_from es a (ground (arith, h)) k)
]

mode_options_rsa : rsa_named mode_options ≡ true
unfolding bytes_eq
mode_options_rsa = refl

command-at_end : (f : Flag) (argv : Argv) → command (at_end f) argv ≡ command f argv
unfolding command
command-at_end fatal_flag argv = refl
command-at_end _ argv = refl

choose_mode_dash :
    (p a : Bytes) (rest : Argv)
    → bytes_eq a (codes "rsa") ≡ false
    → choose_mode (some p ∷ some (b'-' ∷ a) ∷ rest) ≡ (get_mode (some a), some p ∷ some a ∷ rest)
unfolding choose_mode get_mode
choose_mode_dash p a rest nr =
    ap (λ f. (f, some p ∷ some a ∷ rest)) (legacy-get_mode_from mode_options a mode_options_rsa nr)

starts_with-head : (c d : ℕ) (a : Bytes) → starts_with (c ∷ a) (d ∷ []) ≡ false → (c == d) ≡ false
unfolding starts_with
starts_with-head c d [] h = ground (arith, h)
starts_with-head c d (x ∷ a) h = ground (arith, h)

choose_mode_search :
    (p a : Bytes) (rest : Argv)
    → starts_with a (codes "-") ≡ false
    → choose_mode (some p ∷ some a ∷ rest)
      ≡ (flag_of (get_opt (some p ∷ some a ∷ rest) 0 mode_options 0), some p ∷ some a ∷ rest)
unfolding choose_mode
choose_mode_search p [] rest h = refl
choose_mode_search p (c ∷ a) rest h = rw (starts_with-head c b'-' a h)

choose_mode_word :
    (p a : Bytes) (rest : Argv)
    → starts_with a (codes "-") ≡ false
    → repeats mode_options (some p ∷ some a ∷ rest) ≡ false
    → choose_mode (some p ∷ some a ∷ rest) ≡ (at_end (get_mode (some a)), some p ∷ some a ∷ rest)
unfolding get_opt get_mode
choose_mode_word p a rest nd once =
    choose_mode_search p a rest nd
    ∙ ap (λ f. (f, some p ∷ some a ∷ rest))
        (flag_of-get_mode_from p a rest mode_options 0 mode_options_plain once)

-- `wolfssl -x509 …` does what `wolfssl x509 …` does, for every first word, known or not, but the
-- modes named "rsa": the same command with the same arguments and the same exit status. The word
-- begins with no '-' of its own, and no name of the table is twice among the words of the line,
-- the program's name included.
pub main_dash :
    (call : Command → Argv → ℤ) (ready : Bool) (p a : Bytes) (rest : Argv)
    → starts_with a (codes "-") ≡ false
    → bytes_eq a (codes "rsa") ≡ false
    → repeats mode_options (some p ∷ some a ∷ rest) ≡ false
    → main call ready (some p ∷ some (b'-' ∷ a) ∷ rest) ≡ main call ready (some p ∷ some a ∷ rest)
unfolding main
main_dash call false p a rest nd nr once = refl
main_dash call true p a rest nd nr once =
    rw (choose_mode_dash p a rest nr, choose_mode_word p a rest nd once)
      (ap (λ c. exit_status (run_command call c (some p ∷ some a ∷ rest)))
        (sym (command-at_end (get_mode (some a)) (some p ∷ some a ∷ rest))))
