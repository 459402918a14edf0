-- ===== src/Args/Loop.antt =====
-- The loop over the options against the list of their events.
use wolf_clu.Base.{
  ℕ, zero, suc, ◌+◌, ◌<◌, ◌≤◌, List, [], ◌∷◌, Option, none, some, ◌≡◌, refl, ap, ◌∙◌, arith, length,
  drop, drop-drop, length-drop, Option-cases, inl, inr, All,
}
use wolf_clu.Args.{
  Argv, OptionEntry, Event, Step, continue, leave, end_of_args, option, entry_event, get_opt_from,
  get_opt, option_loop, run_events, events,
}

-- What one call does on the entries that are left.
data Call {ℓ} {V : Type ℓ} (argv : Argv) (k : ℕ) (es : List (OptionEntry V)) (optind : ℕ)
    : Type ℓ where
  ended :
      get_opt_from argv k es optind ≡ end_of_args (optind + length es)
      → events argv k es ≡ []
      → Call argv k es optind
  event :
      (ev : Event V) (n : ℕ)
      → n ≤ length es
      → 0 < n
      → get_opt_from argv k es optind ≡ option ev (optind + n)
      → events argv k es ≡ ev ∷ events argv k (drop n es)
      → Call argv k es optind

module _ {ℓ} {V : Type ℓ} (argv : Argv) (k : ℕ) where
  Call-cons :
      (e : OptionEntry V) (es : List (OptionEntry V)) (optind : ℕ)
      → entry_event argv k e ≡ none
      → Call argv k es (optind + 1)
      → Call argv k (e ∷ es) optind
  unfolding get_opt_from events
  Call-cons e es optind q (ended p h) =
      let m : optind + 1 + length es ≡ optind + suc (length es) = omega arith in
      ended (rw (q, get_opt_from) (p ∙ ap end_of_args m)) (rw (q, events) h)
  Call-cons e es optind q (event ev n le pos p h) =
      let m : optind + 1 + n ≡ optind + suc n = omega arith in
      event ev (suc n) (omega arith) (omega arith) (rw (q, get_opt_from) (p ∙ ap (option ev) m))
        (rw (q, events) h)

  get_opt_from-Call : (es : List (OptionEntry V)) (optind : ℕ) → Call argv k es optind
  unfolding get_opt_from events
  get_opt_from-Call [] optind =
      let m : optind ≡ optind + 0 = omega arith in ended (ap end_of_args m) refl
  get_opt_from-Call (e ∷ es) optind = elim (Option-cases (entry_event argv k e)) [
    | inl q ↦ Call-cons e es optind q (get_opt_from-Call es (optind + 1))
    | inr (ev, q) ↦ event ev 1 (omega arith) (omega arith) (rw (q, get_opt_from)) (rw (q, events))
  ]

module _ {ℓ κ μ} {V : Type ℓ} {S : Type κ} {R : Type μ} (handle : Event V → S → Step S R) where
  -- The command's `switch` runs on the events of the table, in the table's order and each once,
  -- until it leaves the loop; a fuel above the number of entries left is enough.
  pub option_loop-run_events :
      (argv : Argv) (k : ℕ) (table : List (OptionEntry V)) (fuel optind : ℕ) (s : S)
      → length (drop optind table) < fuel
      → option_loop handle argv k table fuel optind s
        ≡ some (run_events handle (events argv k (drop optind table)) s)
  unfolding option_loop get_opt run_events
  option_loop-run_events argv k table zero optind s h = elim h [ ]
  option_loop-run_events argv k table (suc fuel) optind s h =
      go (get_opt_from-Call argv k (drop optind table) optind)
        λ optind'. option_loop-run_events argv k table fuel optind'
    where
      after :
          (ev : Event V) (n : ℕ) (st : Step S R)
          → 0 < n
          → n ≤ length (drop optind table)
          → ((optind' : ℕ) (s' : S)
              → length (drop optind' table) < fuel
              → option_loop handle argv k table fuel optind' s'
                ≡ some (run_events handle (events argv k (drop optind' table)) s'))
          → ◌≡◌ {A = Option (Step S R)}
              (elim st [
                | continue s' ↦ option_loop handle argv k table fuel (optind + n) s'
                | leave r ↦ some (leave r)
              ])
              (some (elim st [
                | continue s' ↦ run_events handle (events argv k (drop n (drop optind table))) s'
                | leave r ↦ leave r
              ]))
      after ev n (continue s') pos le ih = rw (drop-drop optind n table) (
          ih (optind + n) s'
            (omega (arith, length-drop {ℓ} (optind + n) table, length-drop {ℓ} optind table)))
      after ev n (leave r) pos le ih = refl

      go :
          Call argv k (drop optind table) optind
          → ((optind' : ℕ) (s' : S)
              → length (drop optind' table) < fuel
              → option_loop handle argv k table fuel optind' s'
                ≡ some (run_events handle (events argv k (drop optind' table)) s'))
          → option_loop handle argv k table (suc fuel) optind s
            ≡ some (run_events handle (events argv k (drop optind table)) s)
      go (ended p q) ih = rw (p, option_loop, q)
      go (event ev n le pos p q) ih = rw (p, option_loop, q) (after ev n (handle ev s) pos le ih)

module _ {κ μ ν} {S : Type κ} {R : Type μ} (Inv : S → Type ν) where
  -- What the state satisfies when the loop goes on.
  abbrev pub Continues : Step S R → Type ν
  Continues (continue s) = Inv s
  Continues (leave r) = Unit

module _ {ℓ κ μ ν} {V : Type ℓ} {S : Type κ} {R : Type μ} (handle : Event V → S → Step S R)
    (Inv : S → Type ν) where
  -- An invariant that every option that occurs keeps holds behind the loop.
  pub run_events-All :
      (P : Event V → Type ν)
      → ((ev : Event V) (s : S) → P ev → Inv s → Continues Inv (handle ev s))
      → (evs : List (Event V)) (s : S) → All P evs
      → Inv s
      → Continues Inv (run_events handle evs s)
  unfolding run_events
  run_events-All P keeps [] s a h = h
  run_events-All P keeps (ev ∷ evs) s (p, a) h =
      go (handle ev s) (keeps ev s p h) λ s' h'. run_events-All P keeps evs s' a h'
    where
      go :
          (st : Step S R)
          → Continues Inv st
          → ((s' : S) → Inv s' → Continues Inv (run_events handle evs s'))
          → Continues Inv (elim st [ continue s' ↦ run_events handle evs s' | leave r ↦ leave r ])
      go (continue s') h' next = next s' h'
      go (leave r) h' next = tt

  All-Unit : (evs : List (Event V)) → All (λ ev. Unit {ν}) evs
  All-Unit [] = tt
  All-Unit (ev ∷ evs) = (tt, All-Unit evs)

  -- An invariant that every option keeps holds behind the loop.
  pub run_events-Inv :
      ((ev : Event V) (s : S) → Inv s → Continues Inv (handle ev s))
      → (evs : List (Event V)) (s : S) → Inv s
      → Continues Inv (run_events handle evs s)
  run_events-Inv keeps evs s h =
      run_events-All (λ ev. Unit {ν}) (λ ev s p. keeps ev s) evs s (All-Unit evs) h

module _ {ℓ κ μ} {V : Type ℓ} {S : Type κ} {R : Type μ} (handle : Event V → S → Step S R)
    (ev : Event V) (evs : List (Event V)) (s : S) where
  pub run_events-continue :
      (s' : S)
      → handle ev s ≡ continue s'
      → run_events handle (ev ∷ evs) s ≡ run_events handle evs s'
  unfolding run_events
  run_events-continue s' p = rw (p, run_events)

  pub run_events-leave : (r : R) → handle ev s ≡ leave r → run_events handle (ev ∷ evs) s ≡ leave r
  unfolding run_events
  run_events-leave r p = rw (p, run_events)
