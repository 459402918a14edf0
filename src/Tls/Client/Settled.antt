-- ===== src/Tls/Client/Settled.antt =====
-- src/client/clu_client_setup.c, `wolfCLU_Client`: what the options leave in the locals.
use wolf_clu.Base.{
  ◌+◌, ◌≤◌, Bool, true, false, List, [], ◌∷◌, ◌++◌, Option, none, some, length, length-append,
  Option-cases, inl, inr, ◌≡◌, refl, sym, ap, ◌∙◌, arith,
}
use wolf_clu.Text.{Bytes}
use wolf_clu.Args.{Argv, Event, found_twice, given, continue, leave, run_events}
use wolf_clu.Args.Loop.{run_events-continue, run_events-leave}
use wolf_clu.Tls.Room.{add_args-room, concat_map}
use wolf_clu.Tls.Client.{
  ClientOption, opt_connect, opt_starttls, opt_cafile, opt_verify_return_error,
  opt_disable_stdinchk, opt_noservername, opt_help, max_client_args, ClientPlan, client_error,
  run_client, connect_parts, connect_args, ClientLocals, add_client_args, connect, set_client,
  client_option, last_args, client_plan_of,
}
use wolf_clu.Tls.Client.Expected.{translate, set, stop}

-- The plan without a limit on the number of arguments, from the locals on.
abbrev pub settled : List (Event ClientOption) → Option ClientLocals → ClientPlan
settled [] none = client_error
settled [] (some s) = run_client (s.args ++ last_args s)
settled (ev ∷ evs) st = elim (stop ev) [
  | some plan ↦ plan
  | none ↦ elim st [ none ↦ settled evs none | some s ↦ settled evs (set ev s) ]
]

-- there is room for the arguments of the events, and for those behind them
abbrev Fits : List (Event ClientOption) → Option ClientLocals → Type 0
Fits evs none = Unit
Fits evs (some s) = length s.args + length (concat_map translate evs) ≤ 25

add_client_args-room :
    (more : Argv) (s : ClientLocals)
    → length s.args + length more ≤ 25
    → add_client_args more s ≡ some (record s { args = s.args ++ more })
unfolding add_client_args
add_client_args-room more s h =
    rw (add_args-room max_client_args more s.args (omega (arith, h)), add_client_args)

connect-set :
    (optarg : Bytes) (s : ClientLocals)
    → length s.args + length (translate (given opt_connect (some optarg))) ≤ 25
    → connect optarg s ≡ set (given opt_connect (some optarg)) s
unfolding connect
connect-set optarg s h = elim (Option-cases (connect_parts optarg)) [
  | inl p ↦ rw (p, connect, set)
  | inr ((bracket, host, port), p) ↦
      let few = rw (p, translate) at h in
      rw (p, connect, set)
        (add_client_args-room (connect_args (bracket, host, port)) (record s { host = some host })
          few)
]

client_option-set :
    (ev : Event ClientOption) (s : ClientLocals)
    → stop ev ≡ none
    → length s.args + length (translate ev) ≤ 25
    → client_option ev (some s) ≡ continue (set ev s)
unfolding client_option set_client
client_option-set found_twice s p h = absurd (ground (arith, p))
client_option-set (given opt_help arg) s p h = absurd (ground (arith, p))
client_option-set (given opt_connect none) s p h = absurd (ground (arith, p))
client_option-set (given opt_connect (some optarg)) s p h = ap continue (connect-set optarg s h)
client_option-set (given opt_verify_return_error arg) s p h = refl
client_option-set (given opt_noservername arg) s p h = refl
client_option-set (given opt_starttls arg) s p h =
    ap continue (add_client_args-room (translate (given opt_starttls arg)) s h)
client_option-set (given opt_cafile arg) s p h =
    ap continue (add_client_args-room (translate (given opt_cafile arg)) s h)
client_option-set (given opt_disable_stdinchk arg) s p h =
    ap continue (add_client_args-room (translate (given opt_disable_stdinchk arg)) s h)

client_option-none :
    (ev : Event ClientOption) → stop ev ≡ none → client_option ev none ≡ continue none
unfolding client_option
client_option-none ev p = ground (arith, p)

client_option-stop :
    (ev : Event ClientOption) (st : Option ClientLocals) (plan : ClientPlan)
    → stop ev ≡ some plan
    → client_option ev st ≡ leave plan
unfolding client_option
client_option-stop ev st plan p = ground (arith, p)

-- arguments that move from the events to the locals need no more room
moved :
    (args new rest : Argv)
    → length args + length (new ++ rest) ≤ 25
    → length (args ++ new) + length rest ≤ 25
moved args new rest h = omega (arith, h, length-append {0} args new, length-append {0} new rest)

set-Fits :
    (ev : Event ClientOption) (evs : List (Event ClientOption)) (s : ClientLocals)
    → Fits (ev ∷ evs) (some s)
    → Fits evs (set ev s)
set-Fits (given opt_connect (some optarg)) evs s h = elim (Option-cases (connect_parts optarg)) [
  | inl p ↦ rw (p, set) tt
  | inr ((bracket, host, port), p) ↦
      let few = rw (p, concat_map, translate) at h in
      rw (p, set) (moved s.args (connect_args (bracket, host, port)) (concat_map translate evs) few)
]
set-Fits (given opt_verify_return_error arg) evs s h = h
set-Fits (given opt_noservername arg) evs s h = h
set-Fits (given opt_connect none) evs s h = moved s.args [] (concat_map translate evs) h
set-Fits (given opt_help arg) evs s h = moved s.args [] (concat_map translate evs) h
set-Fits found_twice evs s h = moved s.args [] (concat_map translate evs) h
set-Fits (given opt_starttls arg) evs s h =
    moved s.args (translate (given opt_starttls arg)) (concat_map translate evs) h
set-Fits (given opt_cafile arg) evs s h =
    moved s.args (translate (given opt_cafile arg)) (concat_map translate evs) h
set-Fits (given opt_disable_stdinchk arg) evs s h =
    moved s.args (translate (given opt_disable_stdinchk arg)) (concat_map translate evs) h

length-last_args : (s : ClientLocals) → length (last_args s) ≤ 7
length-last_args s = go s.host s.noservername s.verify
  where
    go :
        (host : Option Bytes) (noservername verify : Bool)
        → length (
            last_args
              (record { args = []; host = host; verify = verify; noservername = noservername }))
          ≤ 7
    go none n true = omega arith
    go none n false = omega arith
    go (some h) true true = omega arith
    go (some h) true false = omega arith
    go (some h) false true = omega arith
    go (some h) false false = omega arith

pub run_events-settled :
    (evs : List (Event ClientOption)) (st : Option ClientLocals)
    → Fits evs st
    → client_plan_of (run_events client_option evs st) ≡ settled evs st
unfolding run_events
run_events-settled [] none h = refl
run_events-settled [] (some s) h =
    let few = length-last_args s in
    rw (add_args-room max_client_args (last_args s) s.args (omega (arith, few, h)))
run_events-settled (ev ∷ evs) st h = elim (Option-cases (stop ev)) [
  | inl p ↦ carry_on st p h (run_events-settled evs)
  | inr (plan, p) ↦
      let e : settled (ev ∷ evs) st ≡ plan = rw (p, settled) in
      ap client_plan_of
        (run_events-leave client_option ev evs st plan (client_option-stop ev st plan p))
      ∙ sym e
]
  where
    carry_on :
        (st : Option ClientLocals)
        → stop ev ≡ none
        → Fits (ev ∷ evs) st
        → ((st' : Option ClientLocals)
            → Fits evs st'
            → client_plan_of (run_events client_option evs st') ≡ settled evs st')
        → client_plan_of (run_events client_option (ev ∷ evs) st) ≡ settled (ev ∷ evs) st
    carry_on none p h ih =
        let e : settled (ev ∷ evs) none ≡ settled evs none = rw (p, settled) in
        ap client_plan_of
          (run_events-continue client_option ev evs none none (client_option-none ev p))
        ∙ ih none tt
        ∙ sym e
    carry_on (some s) p h ih =
        let e : settled (ev ∷ evs) (some s) ≡ settled evs (set ev s) = rw (p, settled) in
        let n = length-append {0} (translate ev) (concat_map translate evs) in
        ap client_plan_of (
          run_events-continue client_option ev evs (some s) (set ev s)
            (client_option-set ev s p (omega (arith, n, h))))
        ∙ ih (set ev s) (set-Fits ev evs s h)
        ∙ sym e
