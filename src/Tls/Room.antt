-- ===== src/Tls/Room.antt =====
-- src/client/clu_client_setup.c and src/server/clu_server_setup.c: an array of arguments with room
-- for a number of them.
use wolf_clu.Base.{
  ℕ, ◌+◌, ◌≤◌, ◌<◌, false, not, ◌&&◌, ◌||◌, ◌==◌, Bool-cases, List, [], ◌∷◌, ◌++◌, append_assoc,
  append-nil, Option, none, some, leb, ltb, if◌then◌else◌, length, length-append, Option-cases, inl,
  inr, ◌≡◌, sym, ap, ◌∙◌, arith,
}
use wolf_clu.Text.{Bytes}
use wolf_clu.Args.{
  Argv, OptionEntry, Event, Found, twice, index, arg_at, found_twice, given, entry_event, events,
  check_for_arg,
}

-- `_addServerArg` and `_addClientArg`: the array with one more argument, none for
-- WOLFCLU_FATAL_ERROR
unfoldable pub add_arg : ℕ → Option Bytes → Argv → Option Argv
add_arg limit arg args = if leb limit (length args) then none else some (args ++ arg ∷ [])

-- one argument after the other, each if those before it were added
unfoldable pub add_args : ℕ → Argv → Argv → Option Argv
add_args limit [] args = some args
add_args limit (arg ∷ more) args = elim (add_arg limit arg args) [
  | none ↦ none
  | some args' ↦ add_args limit more args'
]

add_arg-room :
    (limit : ℕ) (arg : Option Bytes) (args : Argv)
    → length args < limit
    → add_arg limit arg args ≡ some (args ++ arg ∷ [])
unfolding add_arg
add_arg-room limit arg args h =
    let room : leb limit (length args) ≡ false = ground (arith, h) in rw room

pub add_args-room :
    (limit : ℕ) (more args : Argv)
    → length args + length more ≤ limit
    → add_args limit more args ≡ some (args ++ more)
unfolding add_args
add_args-room limit [] args h = rw (append-nil args)
add_args-room limit (arg ∷ more) args h =
    rw (add_arg-room limit arg args (omega (arith, h)), add_args)
      (add_args-room limit more (args ++ arg ∷ [])
          (omega (arith, h, length-append {0} args (arg ∷ [])))
        ∙ ap some (append_assoc args (arg ∷ []) more))

module _ {ℓ κ} {V : Type ℓ} {A : Type κ} (f : Event V → List A) where
  abbrev pub concat_map : List (Event V) → List A
  concat_map [] = []
  concat_map (ev ∷ evs) = f ev ++ concat_map evs

  abbrev pub total : (V → ℕ) → List (OptionEntry V) → ℕ
  total cap [] = 0
  total cap (e ∷ es) = cap e.val + total cap es

  module _ (cap : V → ℕ) (h : f found_twice ≡ [])
      (b : (v : V) (a : Option Bytes) → length (f (given v a)) ≤ cap v) where
    entry_event-cap :
        (argv : Argv) (k : ℕ) (e : OptionEntry V) (ev : Event V)
        → entry_event argv k e ≡ some ev
        → length (f ev) ≤ cap e.val
    unfolding entry_event
    entry_event-cap argv k e ev p = go (check_for_arg (some e.name) (length e.name) argv) p
      where
        none_twice : length (f found_twice) ≡ 0
        none_twice = ap length h

        go :
            (r : Found)
            → (elim r [
              | twice ↦ some found_twice
              | index i ↦
                  if i == k + 1 || (not (k == 0) && ltb 0 i)
                  then some (given e.val (if e.has_arg then arg_at argv (i + 1) else none))
                  else none
            ])
              ≡ some ev
            → length (f ev) ≤ cap e.val
        go twice p = ground (arith, p, none_twice)
        go (index i) p = elim (Bool-cases (i == k + 1 || (not (k == 0) && ltb 0 i))) [
          | inl q ↦ given_cap _ (sym (rw q at p))
          | inr q ↦ absurd (ground (arith, p, q))
        ]
          where
            given_cap :
                (a : Option Bytes) → some ev ≡ some (given e.val a) → length (f ev) ≤ cap e.val
            given_cap a q = ground (arith, q, b e.val a)

    -- Each entry of a table gives one event at most, which bounds what the events are translated to.
    pub length-concat_map :
        (argv : Argv) (k : ℕ) (es : List (OptionEntry V))
        → length (concat_map (events argv k es)) ≤ total cap es
    unfolding events
    length-concat_map argv k [] = omega arith
    length-concat_map argv k (e ∷ es) =
        let ih = length-concat_map argv k es in
        elim (Option-cases (entry_event argv k e)) [
          | inl p ↦ rw (p, events) (omega (arith, ih))
          | inr (ev, p) ↦
              rw (p, events)
                (let n = length-append {κ} (f ev) (concat_map (events argv k es)) in
                  let m = entry_event-cap argv k e ev p in omega (arith, ih, n, m))
        ]
