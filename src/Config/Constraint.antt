-- ===== src/Config/Constraint.antt =====
-- src/x509/clu_config.c, `wolfCLU_parseBasicConstraint`. The extension is made by wolfSSL; `obj` is the
-- two values that are set in it.
use wolf_clu.Base.{
  ◌||◌, ◌≤◌, ℕ, ◌+◌, ◌-◌, Bool, true, false, ◌&&◌, List, [], ◌∷◌, ◌++◌, Option, none, some, ◌==◌,
  leb, ℤ, if◌then◌else◌, length, length-append, drop, All, Bool-cases, inl, inr, ◌≡◌, refl, ap, sym,
  ◌∙◌, arith,
}
use wolf_clu.Text.{Bytes, codes, bytes_eq, before, skip_char, atoi}
use wolf_clu.Text.Laws.{bytes_eq_iff}
use wolf_clu.Text.Lines.{lacks, lacks-append, join}
use wolf_clu.Text.Words.{words, words-join, IsWord}

-- `obj->ca` and `obj->pathlen`
pub record Constraint : Type 0 where
  pub ca : Bool
  pub pathlen : Option ℤ

-- `toupper` on each byte
unfoldable pub to_upper : Bytes → Bytes
to_upper [] = []
to_upper (c ∷ s) = (if leb b'a' c && leb c b'z' then c - 32 else c) ∷ to_upper s

-- the loop over the words. The word behind "CA" is put in upper case, so that it is not "pathlen".
unfoldable pub constraint_words : List Bytes → Constraint → Constraint
constraint_words [] obj = obj
constraint_words (word ∷ []) obj = obj
constraint_words (word ∷ value ∷ rest) obj = elim (bytes_eq word (codes "CA")) [
  | true ↦
      constraint_words rest
        (if bytes_eq (to_upper value) (codes "TRUE") then record obj { ca = true } else obj)
  | false ↦ elim (bytes_eq word (codes "pathlen")) [
    | true ↦ constraint_words rest (record obj { pathlen = some (atoi value) })
    | false ↦ constraint_words (value ∷ rest) obj
  ]
]

-- the string behind "critical,": none if nothing stands behind the first comma
unfoldable pub behind_critical : Bytes → Option Bytes
behind_critical str =
    let idx = length (before b',' str) in
    if leb (length str) (idx + 1) then none else some (skip_char b' ' (drop (idx + 1) str))

abbrev pub no_constraint : Constraint
no_constraint = record { ca = false; pathlen = none }

unfoldable pub run_constraint : Bytes → Constraint
run_constraint str = constraint_words (words b':' (length str) str) no_constraint

-- `wolfCLU_parseBasicConstraint`; none for NULL
unfoldable pub parse_basic_constraint : Bytes → Bool → Option Constraint
parse_basic_constraint str false = some (run_constraint str)
parse_basic_constraint str true = elim (behind_critical str) [
  | none ↦ none
  | some rest ↦ some (run_constraint rest)
]

-- A byte that `toupper` leaves alone stays in the text.
lacks-to_upper : (s t : Bytes) → lacks b',' (to_upper (s ++ b',' ∷ t)) ≡ false
unfolding to_upper
lacks-to_upper [] t = refl
lacks-to_upper (c ∷ s) t = ground (arith, lacks-to_upper s t)

comma_not_true : (s : Bytes) → lacks b',' s ≡ false → bytes_eq s (codes "TRUE") ≡ false
comma_not_true s h = elim (Bool-cases (bytes_eq s (codes "TRUE"))) [
  | inl p ↦
      let e : s ≡ codes "TRUE" = (bytes_eq_iff s (codes "TRUE")).0 p in
      absurd (ground (arith, sym (ap (lacks b',') e) ∙ h))
  | inr p ↦ p
]

-- Whether a text is TRUE, with each letter in any case.
abbrev pub spells_true : Bytes → Bool
spells_true (t ∷ r ∷ u ∷ e ∷ []) =
    (t == b'T' || t == b't')
    && ((r == b'R' || r == b'r') && ((u == b'U' || u == b'u') && (e == b'E' || e == b'e')))
spells_true _ = false

-- A byte that `toupper` turns into a capital letter.
upper_is :
    (c k : ℕ)
    → 65 ≤ k
    → k ≤ 90
    → ((if leb b'a' c && leb c b'z' then c - 32 else c) == k) ≡ (c == k || c == k + 32)
upper_is c k h l = ground (arith, h, l)

to_upper-spells_true :
    (value : Bytes) → bytes_eq (to_upper value) (codes "TRUE") ≡ spells_true value
unfolding to_upper bytes_eq
to_upper-spells_true [] = refl
to_upper-spells_true (t ∷ []) = ground arith
to_upper-spells_true (t ∷ r ∷ []) = ground arith
to_upper-spells_true (t ∷ r ∷ u ∷ []) = ground arith
to_upper-spells_true (t ∷ r ∷ u ∷ e ∷ []) =
    rw
      (
        upper_is t 84 (omega arith) (omega arith),
        upper_is r 82 (omega arith) (omega arith),
        upper_is u 85 (omega arith) (omega arith),
        upper_is e 69 (omega arith) (omega arith),
      )
      (ground arith)
to_upper-spells_true (t ∷ r ∷ u ∷ e ∷ x ∷ s) = ground arith

-- What a value of basicConstraints is read as. A part behind a comma spoils the CA in front of it.
pub data Reads : Bytes → Constraint → Type 0 where
  only_ca :
      (value : Bytes)
      → IsWord b':' value
      → Reads (codes "CA:" ++ value) (record { ca = spells_true value; pathlen = none })
  colon_pathlen :
      (value number : Bytes)
      → IsWord b':' value
      → IsWord b':' number
      → Reads
          (codes "CA:" ++ (value ++ (codes ":pathlen:" ++ number)))
          (record { ca = spells_true value; pathlen = some (atoi number) })
  comma_pathlen :
      (value number : Bytes)
      → lacks b':' value ≡ true
      → IsWord b':' number
      → Reads
          (codes "CA:" ++ ((value ++ codes ",pathlen") ++ (codes ":" ++ number)))
          (record { ca = false; pathlen = none })

abbrev ca_only : Bool → Constraint
ca_only b = record { ca = b; pathlen = none }

-- how the Boolean is set
ca_set :
    (b : Bool)
    → (if b then record no_constraint { ca = true } else no_constraint)
      ≡ record { ca = b; pathlen = none }
ca_set true = refl
ca_set false = refl

run_constraint-words :
    (ws : List Bytes)
    → All (IsWord b':') ws
    → run_constraint (join b':' ws) ≡ constraint_words ws no_constraint
unfolding run_constraint
run_constraint-words ws h =
    ap (λ x. constraint_words x no_constraint)
      (words-join b':' (length (join b':' ws)) ws h (omega arith))

run_constraint-Reads : (str : Bytes) (obj : Constraint) → Reads str obj → run_constraint str ≡ obj
unfolding constraint_words bytes_eq
run_constraint-Reads _ _ (only_ca value v) =
    run_constraint-words (codes "CA" ∷ value ∷ []) ((omega arith, refl), (v, tt))
    ∙ ca_set (bytes_eq (to_upper value) (codes "TRUE"))
    ∙ ap ca_only (to_upper-spells_true value)
run_constraint-Reads _ _ (colon_pathlen value number v n) =
    run_constraint-words (codes "CA" ∷ value ∷ codes "pathlen" ∷ number ∷ [])
      ((omega arith, refl), (v, ((omega arith, refl), (n, tt))))
    ∙ ap (λ (obj : Constraint). record { ca = obj.ca; pathlen = some (atoi number) })
        (ca_set (bytes_eq (to_upper value) (codes "TRUE"))
          ∙ ap ca_only (to_upper-spells_true value))
run_constraint-Reads _ _ (comma_pathlen value number v n) =
    let l = length-append {0} value (codes ",pathlen") in
    run_constraint-words (codes "CA" ∷ (value ++ codes ",pathlen") ∷ number ∷ []) (
      (omega arith, refl),
      ((omega (arith, l), lacks-append b':' value (codes ",pathlen") ∙ ground (arith, v)), (n, tt)),
    )
    ∙ rw
        (comma_not_true (to_upper (value ++ codes ",pathlen"))
          (lacks-to_upper value (codes "pathlen")))
        refl

behind_critical-prefix :
    (c : ℕ) (s : Bytes)
    → (c == b' ') ≡ false
    → behind_critical (codes "critical," ++ c ∷ s) ≡ some (c ∷ s)
unfolding behind_critical before skip_char
behind_critical-prefix c s h =
    let long : leb (length (codes "critical," ++ c ∷ s)) 9 ≡ false = ground arith in
    rw (long, h) refl

critical-Reads :
    (str : Bytes) (obj : Constraint)
    → Reads str obj
    → behind_critical (codes "critical," ++ str) ≡ some str
critical-Reads _ _ (only_ca value v) = behind_critical-prefix b'C' _ refl
critical-Reads _ _ (colon_pathlen value number v n) = behind_critical-prefix b'C' _ refl
critical-Reads _ _ (comma_pathlen value number v n) = behind_critical-prefix b'C' _ refl

-- `wolfCLU_parseBasicConstraint` reads "CA:value", where TRUE in any case sets the CA, and
-- "CA:value:pathlen:number", with or without "critical," in front. In "CA:value,pathlen:number" it finds
-- neither a CA nor a length, whatever the value.
pub parse_basic_constraint-Reads :
    (critical : Bool) (str : Bytes) (obj : Constraint)
    → Reads str obj
    → parse_basic_constraint ((if critical then codes "critical," else []) ++ str) critical
      ≡ some obj
unfolding parse_basic_constraint
parse_basic_constraint-Reads false str obj r = ap some (run_constraint-Reads str obj r)
parse_basic_constraint-Reads true str obj r =
    rw (critical-Reads str obj r, parse_basic_constraint) (ap some (run_constraint-Reads str obj r))
