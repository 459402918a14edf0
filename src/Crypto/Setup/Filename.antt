-- ===== src/Crypto/Setup/Filename.antt =====
-- src/crypto/clu_crypto_setup.c, `wolfCLU_readFilename`: the fuel is enough.
use wolf_clu.Base.{
  ℕ, zero, suc, ◌≤◌, ◌<◌, Bool, true, false, [], ◌∷◌, ◌==◌, arith, if◌then◌else◌, length,
}
use wolf_clu.Text.{Bytes, before, after}
use wolf_clu.Text.Lines.{lacks, get_line, get_line-rest}
use wolf_clu.Input.{before_line_end, fgets}
use wolf_clu.Crypto.Setup.{Name, named, at_end, out_of_fuel, read_filename}

-- a name, or the end of the input
abbrev pub IsAnswer : Name → Type 0
IsAnswer (named name rest) = Unit
IsAnswer at_end = Unit
IsAnswer out_of_fuel = ⊥

length-after : (d : ℕ) (s : Bytes) → length (after d s) ≤ length s
unfolding after
length-after d [] = omega arith
length-after d (c ∷ s) = ground (arith, length-after d s)

if-IsAnswer : (b : Bool) (x y : Name) → IsAnswer x → IsAnswer y → IsAnswer (if b then x else y)
if-IsAnswer true x y h k = h
if-IsAnswer false x y h k = k

pub read_filename-IsAnswer :
    (fuel n : ℕ) (stdin : Bytes)
    → length stdin < fuel
    → IsAnswer (read_filename fuel (suc (suc n)) stdin)
unfolding read_filename fgets
read_filename-IsAnswer zero n stdin h = elim h [ ]
read_filename-IsAnswer (suc fuel) n [] h = tt
read_filename-IsAnswer (suc fuel) n (c ∷ s) h =
    let (l, rest) = get_line (suc n) (c ∷ s) in
    let text = before 0 l in
    let short : length rest ≤ length s = get_line-rest n c s in
    if-IsAnswer (lacks 10 text) (read_filename fuel (suc (suc n)) (after 10 rest)) _
      (read_filename-IsAnswer fuel n (after 10 rest)
        (omega (arith, length-after 10 rest, short, h)))
      (if-IsAnswer (length (before_line_end text) == 0) _ _
        (read_filename-IsAnswer fuel n rest (omega (arith, short, h))) tt)
