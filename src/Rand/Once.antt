-- ===== src/Rand/Once.antt =====
-- src/tools/clu_rand.c, `wolfCLU_RandMarkOption` and the rescan: how often an option occurs.
use wolf_clu.Base.{
  ℕ, suc, ◌+◌, ◌≤◌, Bool, true, false, List, [], ◌∷◌, Option, none, some, ◌≡◌, refl, sym, ap, ◌∙◌,
  arith, if◌then◌else◌, Bool-cases, Option-cases, inl, inr, ◌⊎◌,
}
use wolf_clu.Text.{Bytes, codes, bytes_eq}
use wolf_clu.Text.Laws.{bytes_eq_iff}
use wolf_clu.Args.{Argv, OptionEntry}
use wolf_clu.Rand.{
  RandOption, rand_options, Slot, slots_of, Mark, no_option, marked, behind, mark_option, scanned,
  is_help, scan,
}

-- how often a token is among the arguments in front of the first NULL
abbrev pub occurrences : Bytes → Argv → ℕ
occurrences name [] = 0
occurrences name (none ∷ rest) = 0
occurrences name (some a ∷ rest) =
    if bytes_eq a name then suc (occurrences name rest) else occurrences name rest

abbrev weight : Bool → ℕ
weight true = 1
weight false = 0

abbrev entries : List Slot → List (OptionEntry RandOption)
entries [] = []
entries (slot ∷ slots) = slot.entry ∷ entries slots

-- The names in a table are all different.
abbrev Fresh : Bytes → List (OptionEntry RandOption) → Type 0
Fresh name [] = Unit
Fresh name (e ∷ es) = (bytes_eq name e.name ≡ false) × Fresh name es

abbrev Distinct : List (OptionEntry RandOption) → Type 0
Distinct [] = Unit
Distinct (e ∷ es) = Fresh e.name es × Distinct es

abbrev Once : Argv → List Slot → Type 0
Once args [] = Unit
Once args (slot ∷ slots) =
    (occurrences slot.entry.name args + weight slot.seen ≤ 1) × Once args slots

weight_small : (b : Bool) → weight b ≤ 1
weight_small true = omega arith
weight_small false = omega arith

Once-none :
    (args : Argv) (slots : List Slot)
    → ((name : Bytes) → occurrences name args ≡ 0)
    → Once args slots
Once-none args [] h = tt
Once-none args (slot ∷ slots) h =
    (omega (arith, h slot.entry.name, weight_small slot.seen), Once-none args slots h)

-- A token that is not the name of a slot does not count for it.
Once-Fresh :
    (a : Bytes) (rest : Argv) (slots : List Slot)
    → Fresh a (entries slots)
    → Once rest slots
    → Once (some a ∷ rest) slots
Once-Fresh a rest [] f h = tt
Once-Fresh a rest (slot ∷ slots) (f, fs) (p, h) = (rw f p, Once-Fresh a rest slots fs h)

mark_option-Fresh :
    (a : Bytes) (slots : List Slot) → mark_option a slots ≡ no_option → Fresh a (entries slots)
unfolding mark_option behind
mark_option-Fresh a [] e = tt
mark_option-Fresh a (slot ∷ slots) e = elim (Bool-cases (bytes_eq a slot.entry.name)) [
  | inl same ↦ absurd (ground (arith, same, e))
  | inr other ↦ (other, mark_option-Fresh a slots (go (mark_option a slots) (rw other at e)))
]
  where
    go : (m : Mark) → behind slot m ≡ no_option → m ≡ no_option
    go no_option h = refl
    go (marked x dup more) h = cc

abbrev mark_slots : Mark → List Slot
mark_slots no_option = []
mark_slots (marked e dup slots) = slots

abbrev mark_dup : Mark → Bool
mark_dup no_option = true
mark_dup (marked e dup slots) = dup

behind-marked :
    (slot : Slot) (m : Mark) {e : OptionEntry RandOption} {slots' : List Slot}
    → behind slot m ≡ marked e false slots'
    → (more : List Slot) × (m ≡ marked e false more) × (slots' ≡ slot ∷ more)
unfolding behind
behind-marked slot no_option h = cc
behind-marked slot (marked e' dup more) h = (more, ground (arith, h), sym (ap mark_slots h))

-- Marking changes no entry, and a slot that is marked without a duplicate was not seen: there is
-- one token of its name, and none of the others.
Once-marked :
    (a : Bytes) (rest : Argv) (slots : List Slot) {e : OptionEntry RandOption} {slots' : List Slot}
    → Distinct (entries slots)
    → mark_option a slots ≡ marked e false slots'
    → (entries slots' ≡ entries slots) × (Once rest slots' → Once (some a ∷ rest) slots)
unfolding mark_option
Once-marked a rest [] d h = cc
Once-marked a rest (slot ∷ slots) {e} {slots'} (f, d) h =
    elim (Bool-cases (bytes_eq a slot.entry.name)) [
      | inl same ↦
          let h' = rw same at h in
          let after = ap mark_slots h' in
          let unseen : slot.seen ≡ false = ap mark_dup h' in
          let name : a ≡ slot.entry.name = (bytes_eq_iff a slot.entry.name).0 same in
          (
            sym (ap entries after),
            λ once.
                let (p, more) = rw (← after) at once in
                (rw (same, unseen) (omega (arith, p)), Once-Fresh a rest slots (rw name f) more),
          )
      | inr other ↦
          let h' = rw other at h in
          let (more, e', split) = behind-marked slot (mark_option a slots) h' in
          let (same, count) = Once-marked a rest slots d e' in
          (
            ap entries split ∙ ap (◌∷◌ slot.entry) same,
            λ once. let (p, once') = rw split at once in (rw other p, count once'),
          )
    ]

-- A table that the rescan can read: the names differ from each other and from the help's.
abbrev Readable : List (OptionEntry RandOption) → Type 0
Readable es = Distinct es × Fresh (codes "-h") es × Fresh (codes "-help") es

is_help-Fresh :
    (a : Bytes) (es : List (OptionEntry RandOption)) → Readable es → is_help a ≡ true → Fresh a es
unfolding is_help
is_help-Fresh a es (d, f, g) h = elim (Bool-cases (bytes_eq a (codes "-h"))) [
  | inl short ↦ rw ((bytes_eq_iff a (codes "-h")).0 short) f
  | inr other ↦
      let long : bytes_eq a (codes "-help") ≡ true = ground (arith, other, h) in
      rw ((bytes_eq_iff a (codes "-help")).0 long) g
]

Mark-cases :
    (m : Mark)
    → (m ≡ no_option)
      ⊎ ((e : OptionEntry RandOption) × (dup : Bool) × (slots : List Slot) × (m
            ≡ marked e dup slots))
Mark-cases no_option = inl refl
Mark-cases (marked e dup slots) = inr (e, dup, slots, refl)

-- A rescan that reaches the end saw each option once at most.
pub scan-Once :
    (args : Argv) (slots : List Slot) (skip_next : Bool) (count : Option Bytes)
    {found : Option Bytes}
    → Readable (entries slots)
    → scan slots skip_next count args ≡ scanned found
    → Once args slots
unfolding scan
scan-Once [] slots skip count ok h = Once-none [] slots (λ name. refl)
scan-Once (none ∷ rest) slots skip count ok h = Once-none (none ∷ rest) slots (λ name. refl)
scan-Once (some a ∷ rest) slots true count {found} ok h = elim (Mark-cases (mark_option a slots)) [
  | inl e ↦
      Once-Fresh a rest slots (mark_option-Fresh a slots e)
        (scan-Once rest slots false count ok (rw (e, scan) at h))
  | inr (x, true, slots', e) ↦ absurd (ground (arith, e, h))
  | inr (x, false, slots', e) ↦
      let (same, counts) = Once-marked a rest slots ok.0 e in
      counts (scan-Once rest slots' false count (rw same ok) (rw (e, scan) at h))
]
scan-Once (some a ∷ rest) slots false count {found} ok h = elim (Bool-cases (is_help a)) [
  | inl is ↦
      Once-Fresh a rest slots (is_help-Fresh a (entries slots) ok is)
        (scan-Once rest slots false count ok (rw is at h))
  | inr isnt ↦
      let h' = rw isnt at h in
      elim (Mark-cases (mark_option a slots)) [
        | inr (x, true, slots', e) ↦ absurd (ground (arith, e, h'))
        | inr (x, false, slots', e) ↦
            let (same, counts) = Once-marked a rest slots ok.0 e in
            counts (
              scan-Once rest slots' x.has_arg count {found = found} (rw same ok)
                (ground (arith, e, h')))
        | inl e ↦
            let fresh = mark_option-Fresh a slots e in
            elim (Option-cases count) [
              | inr (c, full) ↦ absurd (ground (arith, e, h', full))
              | inl empty ↦ Once-Fresh a rest slots fresh (
                  scan-Once rest slots false (some a) {found = found} ok
                    (ground (arith, e, h', empty)))
            ]
      ]
]

-- Each option of the table is at most once among the arguments.
abbrev pub EachOnce : Argv → List (OptionEntry RandOption) → Type 0
EachOnce args [] = Unit
EachOnce args (e ∷ es) = (occurrences e.name args ≤ 1) × EachOnce args es

pub Once-EachOnce :
    (args : Argv) (es : List (OptionEntry RandOption)) → Once args (slots_of es) → EachOnce args es
Once-EachOnce args [] h = tt
Once-EachOnce args (e ∷ es) (p, h) = (omega (arith, p), Once-EachOnce args es h)

pub rand_options-Readable : Readable (entries (slots_of rand_options))
unfolding bytes_eq
rand_options-Readable = (
  ((refl, (refl, tt)), ((refl, tt), (tt, tt))),
  (refl, (refl, (refl, tt))),
  (refl, (refl, (refl, tt))),
)
