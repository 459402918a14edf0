-- ===== src/Main/Exit.antt =====
-- src/clu_main.c, the exit status of the program.
use wolf_clu.Base.{
  ℕ, ◌<◌, true, Option, none, some, ◌≡◌, refl, arith, ℤ, pos, negsuc, ◌≤ℤ◌, suc, zero,
}
use wolf_clu.Args.{Argv}
use wolf_clu.Main.{Command, choose_mode, command, run_command, exit_status, main}

-- What the exit status tells of the command that the line names.
pub data Status (call : Command → Argv → ℤ) (argv : Argv) (status : ℤ) : Type 0 where
  succeeded :
      (c : Command)
      → command (choose_mode argv).0 (choose_mode argv).1 ≡ some c
      → run_command call (some c) (choose_mode argv).1 ≡ pos 1
      → status ≡ pos 0
      → Status call argv status
  passed_on :
      (c : Command) (n : ℕ)
      → command (choose_mode argv).0 (choose_mode argv).1 ≡ some c
      → 1 < n
      → run_command call (some c) (choose_mode argv).1 ≡ pos n
      → status ≡ pos n
      → Status call argv status
  refused :
      (c : Command)
      → command (choose_mode argv).0 (choose_mode argv).1 ≡ some c
      → run_command call (some c) (choose_mode argv).1 ≤ℤ pos 0
      → status ≡ negsuc 0
      → Status call argv status
  unknown :
      command (choose_mode argv).0 (choose_mode argv).1 ≡ none
      → status ≡ negsuc 0
      → Status call argv status

-- The exit status is 0 for exactly one result of the command that is chosen, WOLFCLU_SUCCESS. It is
-- -1 when there is no such command or its result is not positive, and the result itself when that
-- is greater than 1.
pub main-Status : (call : Command → Argv → ℤ) (argv : Argv) → Status call argv (main call true argv)
unfolding main exit_status run_command
main-Status call argv = chosen (command (choose_mode argv).0 (choose_mode argv).1) refl
  where
    returned :
        (c : Command) (r : ℤ)
        → command (choose_mode argv).0 (choose_mode argv).1 ≡ some c
        → run_command call (some c) (choose_mode argv).1 ≡ r
        → Status call argv (exit_status r)
    returned c (negsuc n) p q = refused c p (rw q (omega arith)) refl
    returned c (pos zero) p q = refused c p (rw q (omega arith)) refl
    returned c (pos (suc zero)) p q = succeeded c p q refl
    returned c (pos (suc (suc n))) p q = passed_on c (suc (suc n)) p (omega arith) q (ground arith)

    chosen :
        (o : Option Command)
        → command (choose_mode argv).0 (choose_mode argv).1 ≡ o
        → Status call argv (main call true argv)
    chosen none p = unknown p (rw p)
    chosen (some c) p = rw p (returned c (run_command call (some c) (choose_mode argv).1) p refl)
