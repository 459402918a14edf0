-- ===== src/Main/Modes.antt =====
-- src/clu_main.c, `getMode` and the choice of the mode, against the table.
use wolf_clu.Base.{
  ◌&&◌, List, [], ◌∷◌, ◌==◌, ◌≡◌, ◌≢◌, inl, inr, refl, sym, arith, length, All, Bool-cases,
}
use wolf_clu.Text.{Bytes, strncmp_eq, bytes_eq}
use wolf_clu.Text.Laws.{bytes_eq_iff}
use mathlib.Core.List.{Mem, mem-cons_self, mem-cons_of_mem}
use wolf_clu.Args.{OptionEntry}
use wolf_clu.Main.{Mode, mode_options, mode, fatal_flag, get_mode_from}

-- What the loop returns on the entries that are left: the value of one with this name, or an error
-- if there is none.
pub data Finds (es : List (OptionEntry Mode)) (arg : Bytes) : Type 0 where
  found :
      (e : OptionEntry Mode)
      → Mem e es
      → e.name ≡ arg
      → get_mode_from es arg ≡ mode e.val
      → Finds es arg
  missing : All (λ e. e.name ≢ arg) es → get_mode_from es arg ≡ fatal_flag → Finds es arg

pub name_test :
    (n arg : Bytes) → (length n == length arg && strncmp_eq (length arg) arg n) ≡ bytes_eq arg n
unfolding strncmp_eq bytes_eq
name_test [] [] = refl
name_test [] (x ∷ arg) = ground arith
name_test (y ∷ n) [] = ground arith
name_test (y ∷ n) (x ∷ arg) = ground (arith, name_test n arg)

get_mode_from-Finds : (es : List (OptionEntry Mode)) (arg : Bytes) → Finds es arg
unfolding get_mode_from
get_mode_from-Finds [] arg = missing tt refl
get_mode_from-Finds (e ∷ es) arg = elim (Bool-cases (bytes_eq arg e.name)) [
  | inl p ↦
      found e (mem-cons_self) (sym ((bytes_eq_iff arg e.name).0 p)) (rw (name_test e.name arg, p))
  | inr p ↦ elim (get_mode_from-Finds es arg) [
    | found e' m q r ↦ found e' (mem-cons_of_mem e m) q (rw (name_test e.name arg, p) r)
    | missing all r ↦
        missing (λ q. ground (arith, (bytes_eq_iff arg e.name).1 (sym q)), all)
          (rw (name_test e.name arg, p) r)
  ]
]

-- `getMode` returns the value of an entry of the table whose name is the whole argument, and
-- WOLFCLU_FATAL_ERROR exactly if no entry has this name.
pub get_mode-Finds : (arg : Bytes) → Finds mode_options arg
get_mode-Finds arg = get_mode_from-Finds mode_options arg
