-- ===== src/Hash/Setup/Chosen.antt =====
-- src/hash/clu_hash_setup.c, the algorithm that is run.
use wolf_clu.Base.{
  ℕ, ◌+◌, ◌≤◌, Bool, true, false, ◌||◌, List, [], ◌∷◌, ◌++◌, append-nil, append_assoc, ◌∙◌, Option,
  none, some, ◌≡◌, ◌⊎◌, inl, inr, refl, sym, ap, arith, length, ltb, ℤ, pos, negsuc, if◌then◌else◌,
  Bool-cases,
}
use mathlib.Core.Option
use mathlib.Core.Path.{subst}
use wolf_clu.Base.Result.{Err, fatal_error, user_input_error}
use wolf_clu.Text.{Bytes, codes, atoi}
use wolf_clu.Args.{Argv, Event, found_twice, given, Step, continue, leave, run_events, events}
use wolf_clu.Args.Loop.{option_loop-run_events, Continues, run_events-Inv}
use wolf_clu.Hash.Setup.{
  HashOption, opt_infile, opt_outfile, opt_help, opt_md5, opt_sha, opt_sha256, opt_sha384,
  opt_sha512, opt_base64enc, opt_base64dec, opt_blake, hash_options, DigestSizes, HashLocals,
  no_locals, HashExit, exit_help, exit_fatal, HashPlan, show_help, hash_error, run_hash_with,
  set_alg, bad_blake_size, blake_size, set_blake, hash_option, cannot_open, after_hash_options,
  hash_plan_of, hash_setup,
}

-- A name that `wolfCLU_hash` knows, with its size: that of the digest, 1 to 64 for BLAKE2b, and 0 for
-- base64.
pub data Chosen (sizes : DigestSizes) : Bytes → ℤ → Type 0 where
  md5 : Chosen sizes (codes "md5") (pos sizes.md5_size)
  sha : Chosen sizes (codes "sha") (pos sizes.sha_size)
  sha256 : Chosen sizes (codes "sha256") (pos sizes.sha256_size)
  sha384 : Chosen sizes (codes "sha384") (pos sizes.sha384_size)
  sha512 : Chosen sizes (codes "sha512") (pos sizes.sha512_size)
  blake2b : (n : ℕ) → 1 ≤ n → n ≤ 64 → Chosen sizes (codes "blake2b") (pos n)
  base64enc : Chosen sizes (codes "base64enc") (pos 0)
  base64dec : Chosen sizes (codes "base64dec") (pos 0)

-- The algorithm that an option chooses, with its size.
abbrev pub choice : DigestSizes → Event HashOption → Option (Bytes × ℤ)
choice sizes (given opt_md5 _) = some (codes "md5", pos sizes.md5_size)
choice sizes (given opt_sha _) = some (codes "sha", pos sizes.sha_size)
choice sizes (given opt_sha256 _) = some (codes "sha256", pos sizes.sha256_size)
choice sizes (given opt_sha384 _) = some (codes "sha384", pos sizes.sha384_size)
choice sizes (given opt_sha512 _) = some (codes "sha512", pos sizes.sha512_size)
choice sizes (given opt_base64enc _) = some (codes "base64enc", pos 0)
choice sizes (given opt_base64dec _) = some (codes "base64dec", pos 0)
choice sizes (given opt_blake (some arg)) = some (codes "blake2b", atoi arg)
choice sizes (given opt_blake none) = some (codes "blake2b", pos 0)
choice sizes ev = none

-- Those that the options choose.
abbrev pub choices : DigestSizes → List (Event HashOption) → List (Bytes × ℤ)
choices sizes [] = []
choices sizes (ev ∷ evs) = elim (choice sizes ev) [
  | none ↦ choices sizes evs
  | some c ↦ c ∷ choices sizes evs
]

-- The values of -in and -out.
abbrev in_of : Event HashOption → Option Bytes → Option Bytes
in_of (given opt_infile arg) old = arg
in_of ev old = old

abbrev out_of : Event HashOption → Option Bytes → Option Bytes
out_of (given opt_outfile arg) old = arg
out_of ev old = old

abbrev pub in_value : List (Event HashOption) → Option Bytes → Option Bytes
in_value [] old = old
in_value (ev ∷ evs) old = in_value evs (in_of ev old)

abbrev pub out_value : List (Event HashOption) → Option Bytes → Option Bytes
out_value [] old = old
out_value (ev ∷ evs) old = out_value evs (out_of ev old)

-- The plan is the help, an error, or the run of the one algorithm that the options choose, with its
-- size, on the files of -in and -out, which open.
pub data Planned (sizes : DigestSizes) (opens creates : Bytes → Bool)
    (evs : List (Event HashOption)) : HashPlan → Type 0 where
  helps : Planned sizes opens creates evs show_help
  fails : (e : Err) → Planned sizes opens creates evs (hash_error e)
  runs :
      (name : Bytes) (size : ℤ)
      → choices sizes evs ≡ (name, size) ∷ []
      → Chosen sizes name size
      → cannot_open opens (in_value evs none) ≡ false
      → cannot_open creates (out_value evs none) ≡ false
      → Planned sizes opens creates evs
          (run_hash_with name size (in_value evs none) (out_value evs none))

-- What the locals have of the choice.
abbrev chosen : HashLocals → List (Bytes × ℤ)
chosen s = elim s.alg [ none ↦ [] | some name ↦ (name, s.size) ∷ [] ]

-- The locals that the options leave.
record Settled (sizes : DigestSizes) (evs : List (Event HashOption)) (s t : HashLocals)
    : Type 0 where
  all_chosen : chosen t ≡ chosen s ++ choices sizes evs
  in_settled : t.in_file ≡ in_value evs s.in_file
  out_settled : t.out_file ≡ out_value evs s.out_file

module _ (sizes : DigestSizes) where
  -- before an algorithm is set the size is 0; a bad size is noted
  abbrev Fits : Option Bytes → ℤ → Bool → Type 0
  Fits none size failed = size ≡ pos 0
  Fits (some name) size failed = (failed ≡ true) ⊎ Chosen sizes name size

  abbrev Inv : HashLocals → Type 0
  Inv s = Fits s.alg s.size s.failed

  set_alg-Inv :
      (name : Bytes) (n : ℤ) (s : HashLocals)
      → (s.alg ≡ none → Chosen sizes name n)
      → Continues Inv (set_alg name n s)
  set_alg-Inv name n s c = go s.alg c
    where
      go :
          (o : Option Bytes)
          → (o ≡ none → Chosen sizes name n)
          → Continues {R = HashExit} Inv (elim o [
            | none ↦ continue (record s { alg = some name; size = n })
            | some _ ↦ leave exit_fatal
          ])
      go none c = inr (c refl)
      go (some a) c = tt

  blake-Fits :
      (n : ℤ) (failed : Bool) → Fits (some (codes "blake2b")) n (failed || bad_blake_size n)
  blake-Fits (negsuc n) true = inl refl
  blake-Fits (negsuc n) false = inl refl
  blake-Fits (pos n) true = inl refl
  blake-Fits (pos n) false = elim (Bool-cases (ltb n 1 || ltb 64 n)) [
    | inl p ↦ inl p
    | inr p ↦ inr (blake2b n (ground (arith, p)) (ground (arith, p)))
  ]

  set_blake-Inv : (n : ℤ) (s : HashLocals) → Continues Inv (set_blake n s)
  set_blake-Inv n s = go s.alg
    where
      go :
          (o : Option Bytes)
          → Continues {R = HashExit} Inv (elim o [
            | none ↦ continue (record s {
              alg = some (codes "blake2b");
              size = n;
              failed = s.failed || bad_blake_size n;
            })
            | some _ ↦ leave exit_fatal
          ])
      go none = blake-Fits n s.failed
      go (some a) = tt

  -- the size of base64
  unset :
      (o : Option Bytes) (size : ℤ) (failed : Bool) → Fits o size failed → o ≡ none → size ≡ pos 0
  unset none size failed h e = h
  unset (some a) size failed h e = absurd (ground (arith, e))

  hash_option-Inv :
      (ev : Event HashOption) (s : HashLocals) → Inv s → Continues Inv (hash_option sizes ev s)
  unfolding hash_option
  hash_option-Inv found_twice s h = tt
  hash_option-Inv (given opt_help _) s h = tt
  hash_option-Inv (given opt_infile arg) s h = h
  hash_option-Inv (given opt_outfile arg) s h = h
  hash_option-Inv (given opt_md5 _) s h = set_alg-Inv _ _ s λ _. md5
  hash_option-Inv (given opt_sha _) s h = set_alg-Inv _ _ s λ _. sha
  hash_option-Inv (given opt_sha256 _) s h = set_alg-Inv _ _ s λ _. sha256
  hash_option-Inv (given opt_sha384 _) s h = set_alg-Inv _ _ s λ _. sha384
  hash_option-Inv (given opt_sha512 _) s h = set_alg-Inv _ _ s λ _. sha512
  hash_option-Inv (given opt_base64enc _) s h = set_alg-Inv _ _ s λ e.
      subst (Chosen sizes (codes "base64enc")) (sym (unset s.alg s.size s.failed h e)) base64enc
  hash_option-Inv (given opt_base64dec _) s h = set_alg-Inv _ _ s λ e.
      subst (Chosen sizes (codes "base64dec")) (sym (unset s.alg s.size s.failed h e)) base64dec
  hash_option-Inv (given opt_blake arg) s h = set_blake-Inv (blake_size arg s.size) s

module _ (sizes : DigestSizes) where
  abbrev choice_list : Event HashOption → List (Bytes × ℤ)
  choice_list ev = elim (choice sizes ev) [ none ↦ [] | some c ↦ c ∷ [] ]

  -- What one option adds.
  abbrev Adds : Event HashOption → HashLocals → Step HashLocals HashExit → Type 0
  Adds ev s (leave v) = Unit
  Adds ev s (continue s') =
      (chosen s' ≡ chosen s ++ choice_list ev)
      × (s'.in_file ≡ in_of ev s.in_file)
      × (s'.out_file ≡ out_of ev s.out_file)

  -- nothing that is chosen or opened
  add_nil : (s : HashLocals) → chosen s ≡ chosen s ++ []
  add_nil s = sym (append-nil (chosen s))

  alg_set-Adds :
      (ev : Event HashOption) (s : HashLocals) (name : Bytes) (n : ℤ) (f : Bool)
      → (s.alg ≡ none → choice sizes ev ≡ some (name, n))
      → s.in_file ≡ in_of ev s.in_file
      → s.out_file ≡ out_of ev s.out_file
      → Adds ev s (elim s.alg [
        | none ↦ continue (record s { alg = some name; size = n; failed = f })
        | some _ ↦ leave exit_fatal
      ])
  alg_set-Adds ev s name n f c i o = go s.alg refl
    where
      go :
          (a : Option Bytes)
          → s.alg ≡ a
          → Adds ev s (elim a [
            | none ↦ continue (record s { alg = some name; size = n; failed = f })
            | some _ ↦ leave exit_fatal
          ])
      go (some a) e = tt
      go none e =
          let none_chosen : chosen s ≡ [] = rw (e, chosen) refl in
          let one : choice_list ev ≡ (name, n) ∷ [] = rw (c e, choice_list) refl in
          (sym (ap (λ x. x ++ choice_list ev) none_chosen ∙ one), i, o)

  hash_option-Adds :
      (ev : Event HashOption) (s : HashLocals) → Inv sizes s → Adds ev s (hash_option sizes ev s)
  unfolding hash_option
  hash_option-Adds found_twice s h = tt
  hash_option-Adds (given opt_help _) s h = tt
  hash_option-Adds (given opt_infile arg) s h = (add_nil s, refl, refl)
  hash_option-Adds (given opt_outfile arg) s h = (add_nil s, refl, refl)
  hash_option-Adds (given opt_md5 x) s h =
      alg_set-Adds (given opt_md5 x) s _ _ s.failed (λ e. refl) refl refl
  hash_option-Adds (given opt_sha x) s h =
      alg_set-Adds (given opt_sha x) s _ _ s.failed (λ e. refl) refl refl
  hash_option-Adds (given opt_sha256 x) s h =
      alg_set-Adds (given opt_sha256 x) s _ _ s.failed (λ e. refl) refl refl
  hash_option-Adds (given opt_sha384 x) s h =
      alg_set-Adds (given opt_sha384 x) s _ _ s.failed (λ e. refl) refl refl
  hash_option-Adds (given opt_sha512 x) s h =
      alg_set-Adds (given opt_sha512 x) s _ _ s.failed (λ e. refl) refl refl
  hash_option-Adds (given opt_base64enc x) s h =
      alg_set-Adds (given opt_base64enc x) s _ _ s.failed
        (λ e. ap (λ k. some (codes "base64enc", k)) (sym (unset sizes s.alg s.size s.failed h e)))
        refl refl
  hash_option-Adds (given opt_base64dec x) s h =
      alg_set-Adds (given opt_base64dec x) s _ _ s.failed
        (λ e. ap (λ k. some (codes "base64dec", k)) (sym (unset sizes s.alg s.size s.failed h e)))
        refl refl
  hash_option-Adds (given opt_blake none) s h =
      alg_set-Adds (given opt_blake none) s _ _ (s.failed || bad_blake_size s.size)
        (λ e. ap (λ k. some (codes "blake2b", k)) (sym (unset sizes s.alg s.size s.failed h e)))
        refl refl
  hash_option-Adds (given opt_blake (some arg)) s h =
      alg_set-Adds (given opt_blake (some arg)) s _ _ (s.failed || bad_blake_size (atoi arg))
        (λ e. refl) refl refl

  choices-cons :
      (ev : Event HashOption) (evs : List (Event HashOption)) (old : List (Bytes × ℤ))
      → (old ++ choice_list ev) ++ choices sizes evs ≡ old ++ choices sizes (ev ∷ evs)
  choices-cons ev evs old = go (choice sizes ev)
    where
      go :
          (c : Option (Bytes × ℤ))
          → (old ++ (elim c [ none ↦ [] | some x ↦ x ∷ [] ])) ++ choices sizes evs
            ≡ old ++ (elim c [ none ↦ choices sizes evs | some x ↦ x ∷ choices sizes evs ])
      go none = ap (λ x. x ++ choices sizes evs) (append-nil old)
      go (some x) = append_assoc old (x ∷ []) (choices sizes evs)

  run_events-Settled :
      (evs : List (Event HashOption)) (s : HashLocals)
      → Inv sizes s
      → Continues (Settled sizes evs s) (run_events (hash_option sizes) evs s)
  unfolding run_events
  run_events-Settled [] s h = record {
    all_chosen = add_nil s;
    in_settled = refl;
    out_settled = refl;
  }
  run_events-Settled (ev ∷ evs) s h =
      go (hash_option sizes ev s) (hash_option-Inv sizes ev s h) (hash_option-Adds ev s h)
        (λ s' h'. run_events-Settled evs s' h')
    where
      more :
          (s' : HashLocals) (r : Step HashLocals HashExit)
          → Adds ev s (continue s')
          → Continues (Settled sizes evs s') r
          → Continues (Settled sizes (ev ∷ evs) s) r
      more s' (leave v) a k = tt
      more s' (continue t) (c, i, o) k = record {
        all_chosen =
            k.all_chosen ∙ ap (λ x. x ++ choices sizes evs) c ∙ choices-cons ev evs (chosen s);
        in_settled = k.in_settled ∙ ap (in_value evs) i;
        out_settled = k.out_settled ∙ ap (out_value evs) o;
      }

      go :
          (r : Step HashLocals HashExit)
          → Continues (Inv sizes) r
          → Adds ev s r
          → ((s' : HashLocals)
              → Inv sizes s'
              → Continues (Settled sizes evs s') (run_events (hash_option sizes) evs s'))
          → Continues
              (Settled sizes (ev ∷ evs) s)
              (elim r [ continue s' ↦ run_events (hash_option sizes) evs s' | leave r ↦ leave r ])
      go (leave v) h' a next = tt
      go (continue s') h' a next = more s' (run_events (hash_option sizes) evs s') a (next s' h')

module _ (sizes : DigestSizes) (opens creates : Bytes → Bool) (evs : List (Event HashOption)) where
  after_hash_options-Planned :
      (s : HashLocals)
      → Inv sizes s
      → Settled sizes evs no_locals s
      → Planned sizes opens creates evs (after_hash_options sizes opens creates s)
  unfolding after_hash_options
  after_hash_options-Planned s h k =
      named s.alg s.failed (cannot_open opens s.in_file) (cannot_open creates s.out_file) h refl
        refl refl
    where
      named :
          (o : Option Bytes) (f a b : Bool)
          → Fits sizes o s.size f
          → cannot_open opens s.in_file ≡ a
          → cannot_open creates s.out_file ≡ b
          → s.alg ≡ o
          → Planned sizes opens creates evs (elim o [
            | none ↦ hash_error fatal_error
            | some name ↦
                if f
                then hash_error fatal_error
                else if a || b
                then hash_error user_input_error
                else run_hash_with name s.size s.in_file s.out_file
          ])
      named none f a b h p q e = fails fatal_error
      named (some name) true a b h p q e = fails fatal_error
      named (some name) false true b h p q e = fails user_input_error
      named (some name) false false true h p q e = fails user_input_error
      named (some name) false false false (inl c) p q e = absurd (ground (arith, c))
      named (some name) false false false (inr c) p q e =
          let one : chosen s ≡ (name, s.size) ∷ [] = rw (e, chosen) refl in
          subst (λ x. Planned sizes opens creates evs (run_hash_with name s.size x s.out_file))
            (sym k.in_settled)
            (subst
              (λ x.
                Planned sizes opens creates evs (run_hash_with name s.size (in_value evs none) x))
              (sym k.out_settled)
              (runs name s.size (sym k.all_chosen ∙ one) c
                (ap (cannot_open opens) (sym k.in_settled) ∙ p)
                (ap (cannot_open creates) (sym k.out_settled) ∙ q)))

-- `wolfCLU_hashSetup` ends. It runs an algorithm only if the options choose exactly one, and then that
-- one, under the name that `wolfCLU_hash` knows and with its size: that of the digest, 1 to 64 for
-- BLAKE2b, or 0 for base64; it runs on the files of -in and -out, and only if they can be opened.
pub hash_setup-Planned :
    (sizes : DigestSizes) (opens creates : Bytes → Bool) (argv : Argv)
    → (plan : HashPlan) × (hash_setup sizes opens creates argv ≡ some plan)
      × Planned sizes opens creates (events argv 1 hash_options) plan
unfolding hash_setup
hash_setup-Planned sizes opens creates argv =
    let evs = events argv 1 hash_options in
    let st = run_events (hash_option sizes) evs no_locals in
    let loop =
      option_loop-run_events (hash_option sizes) argv 1 hash_options (length hash_options + 1) 0
        no_locals (omega arith) in
    let inv =
      run_events-Inv (hash_option sizes) (Inv sizes) (hash_option-Inv sizes) evs no_locals refl in
    (
      hash_plan_of sizes opens creates st,
      ap (Option.map (hash_plan_of sizes opens creates)) loop,
      ended evs st inv (run_events-Settled sizes evs no_locals refl),
    )
  where
    ended :
        (evs : List (Event HashOption)) (st : Step HashLocals HashExit)
        → Continues (Inv sizes) st
        → Continues (Settled sizes evs no_locals) st
        → Planned sizes opens creates evs (hash_plan_of sizes opens creates st)
    ended evs (leave exit_help) h k = helps
    ended evs (leave exit_fatal) h k = fails fatal_error
    ended evs (continue s) h k = after_hash_options-Planned sizes opens creates evs s h k
