-- ===== src/Args/Search.antt =====
-- What `wolfCLU_checkForArg` finds.
use wolf_clu.Base.{
  ℕ, ◌+◌, ◌<◌, Bool, true, false, List, [], ◌∷◌, none, some, ◌≡◌, refl, ap, ◌∙◌, arith,
  if◌then◌else◌, length, ◌&&◌, ◌||◌, ltb,
}
use wolf_clu.Text.{Bytes, codes, strncmp_eq, bytes_eq}
use wolf_clu.Text.Laws.{bytes_eq_iff}
use wolf_clu.Args.{Argv, Found, twice, index, is_help_like, is_match, check_from, check_for_arg}

-- The arguments in front of the first NULL that satisfy a test, by their indices from `i` on.
abbrev pub positions_from : (Bytes → Bool) → ℕ → Argv → List ℕ
positions_from test i [] = []
positions_from test i (none ∷ rest) = []
positions_from test i (some a ∷ rest) =
    if test a then i ∷ positions_from test (i + 1) rest else positions_from test (i + 1) rest

-- One occurrence gives its index, none gives 0, and two or more are an error.
abbrev pub verdict : List ℕ → Found
verdict [] = index 0
verdict (i ∷ []) = index i
verdict (i ∷ j ∷ more) = twice

-- the same behind an occurrence at `ret`
abbrev verdict_after : ℕ → List ℕ → Found
verdict_after ret [] = index ret
verdict_after ret (i ∷ more) = twice

check_from_seen :
    (term : Bytes) (i ret : ℕ) (argv : Argv)
    → strncmp_eq (length term) term (codes "-help") ≡ false
    → check_from term (length term) i ret true argv
      ≡ verdict_after ret (positions_from (λ a. is_match term (length term) a) i argv)
unfolding check_from is_help_like
check_from_seen term i ret [] h = refl
check_from_seen term i ret (none ∷ rest) h = refl
check_from_seen term i ret (some a ∷ rest) h =
    rw h (ground (arith, check_from_seen term (i + 1) ret rest h))

check_from_unseen :
    (term : Bytes) (i : ℕ) (argv : Argv)
    → strncmp_eq (length term) term (codes "-help") ≡ false
    → check_from term (length term) i 0 false argv
      ≡ verdict (positions_from (λ a. is_match term (length term) a) i argv)
unfolding check_from is_help_like
check_from_unseen term i [] h = refl
check_from_unseen term i (none ∷ rest) h = refl
check_from_unseen term i (some a ∷ rest) h =
    rw h
      (ground (arith, check_from_unseen term (i + 1) rest h, check_from_seen term (i + 1) i rest h))

is_match-bytes_eq : (term a : Bytes) → is_match term (length term) a ≡ bytes_eq a term
unfolding is_match bytes_eq strncmp_eq
is_match-bytes_eq [] [] = refl
is_match-bytes_eq [] (x ∷ a) = ground arith
is_match-bytes_eq (y ∷ t) [] = ground arith
is_match-bytes_eq (y ∷ t) (x ∷ a) = ground (arith, is_match-bytes_eq t a)

positions_from-match :
    (term : Bytes) (i : ℕ) (argv : Argv)
    → positions_from (λ a. is_match term (length term) a) i argv
      ≡ positions_from (λ a. bytes_eq a term) i argv
positions_from-match term i [] = refl
positions_from-match term i (none ∷ rest) = refl
positions_from-match term i (some a ∷ rest) =
    rw (is_match-bytes_eq term a, positions_from-match term (i + 1) rest)

-- A search term that is not cut from "-help" is compared with the whole of each argument in front
-- of the first NULL, the program's own name included: one equal argument gives its index, none
-- gives 0, and two or more give USER_INPUT_ERROR.
pub check_for_arg-positions :
    (term : Bytes) (argv : Argv)
    → strncmp_eq (length term) term (codes "-help") ≡ false
    → check_for_arg (some term) (length term) argv
      ≡ verdict (positions_from (λ a. bytes_eq a term) 0 argv)
unfolding check_for_arg
check_for_arg-positions term argv h =
    check_from_unseen term 0 argv h ∙ ap verdict (positions_from-match term 0 argv)

-- Some argument in front of the first NULL is "-", "-h", "-he", "-hel" or "-help".
abbrev pub asks_help : Argv → Bool
asks_help [] = false
asks_help (none ∷ rest) = false
asks_help (some a ∷ rest) =
    (strncmp_eq (length a) a (codes "-help") && ltb 0 (length a)) || asks_help rest

check_from-help :
    (term : Bytes) (i : ℕ) (argv : Argv)
    → strncmp_eq (length term) term (codes "-help") ≡ true
    → 0 < length term
    → check_from term (length term) i 0 false argv ≡ index (if asks_help argv then 1 else 0)
unfolding check_from is_help_like
check_from-help term i [] h p = refl
check_from-help term i (none ∷ rest) h p = refl
check_from-help term i (some a ∷ rest) h p =
    rw (h, is_match-bytes_eq term a)
      (ground (arith, check_from-help term (i + 1) rest h p, bytes_eq_iff a term))

-- A search term cut from "-help" gives 1, whatever the place, as soon as some argument is a
-- non-empty beginning of "-help", and 0 otherwise; it is never an error to repeat it.
pub check_for_arg-help :
    (term : Bytes) (argv : Argv)
    → strncmp_eq (length term) term (codes "-help") ≡ true
    → 0 < length term
    → check_for_arg (some term) (length term) argv ≡ index (if asks_help argv then 1 else 0)
unfolding check_for_arg
check_for_arg-help term argv = check_from-help term 0 argv
