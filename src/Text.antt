-- ===== src/Text.antt =====
-- C strings: the bytes before the terminating NUL. What the source takes from <string.h>,
-- <ctype.h> and <stdlib.h>, as far as it uses it.
pub mod Laws
pub mod Numbers
pub mod Lines
pub mod Words
use Prim.Native.Nat.{min}
use Prim.Native.Char.{code}
use Prim.Native.String.{String}
use mathlib.Core.List.{reverse}
use wolf_clu.Base.{
  ℕ, zero, suc, ◌^◌, ◌%◌, ◌*◌, ◌-◌, ltb, ℤ, pos, negsuc, ◌+◌, Bool, true, false, ◌&&◌, ◌||◌, List,
  [], ◌∷◌, ◌++◌, Option, none, some, ◌==◌, leb, if◌then◌else◌,
}

abbrev pub Bytes : Type 0
Bytes = List ℕ

-- The code points of a literal; these are its bytes when the text is ASCII.
abbrev pub codes : String → Bytes
codes String.[] = []
codes (String.◌∷◌ c s) = code c ∷ codes s

-- `strcmp(a, b) == 0`
unfoldable pub bytes_eq : Bytes → Bytes → Bool
bytes_eq [] [] = true
bytes_eq (x ∷ a) (y ∷ b) = x == y && bytes_eq a b
bytes_eq _ _ = false

-- `strncmp(a, b, n) == 0`
unfoldable pub strncmp_eq : ℕ → Bytes → Bytes → Bool
strncmp_eq zero a b = true
strncmp_eq (suc n) [] [] = true
strncmp_eq (suc n) (x ∷ a) (y ∷ b) = x == y && strncmp_eq n a b
strncmp_eq (suc n) _ _ = false

-- `strncmp(s, p, strlen(p)) == 0`
unfoldable pub starts_with : Bytes → Bytes → Bool
starts_with s [] = true
starts_with [] (y ∷ p) = false
starts_with (x ∷ s) (y ∷ p) = x == y && starts_with s p

unfoldable pub is_digit : ℕ → Bool
is_digit c = leb b'0' c && leb c b'9'

-- what `strtok_r` skips in front of a token
unfoldable pub skip_char : ℕ → Bytes → Bytes
skip_char d [] = []
skip_char d (c ∷ s) = if c == d then skip_char d s else c ∷ s

-- the bytes in front of the first `d`
unfoldable pub before : ℕ → Bytes → Bytes
before d [] = []
before d (c ∷ s) = if c == d then [] else c ∷ before d s

-- the bytes behind the first `d`, none if there is no `d`
unfoldable pub after : ℕ → Bytes → Bytes
after d [] = []
after d (c ∷ s) = if c == d then s else after d s

-- `strtok_r` with one delimiter: the next token, and what is left for the next call.
unfoldable pub strtok : ℕ → Bytes → Option (Bytes × Bytes)
unfolding skip_char before after
strtok d s = elim (skip_char d s) [ [] ↦ none | c ∷ t ↦ some (before d (c ∷ t), after d (c ∷ t)) ]

unfoldable pub is_space : ℕ → Bool
is_space c = c == b' ' || (leb 9 c && leb c 13)

unfoldable pub skip_space : Bytes → Bytes
unfolding is_space
skip_space [] = []
skip_space (c ∷ s) = if is_space c then skip_space s else c ∷ s

-- the number that the leading digits spell behind `n`
unfoldable pub leading_digits : ℕ → Bytes → ℕ
unfolding is_digit
leading_digits n [] = n
leading_digits n (c ∷ s) =
    let rest = leading_digits (n * 10 + (c - b'0')) s in if is_digit c then rest else n

-- the `int` with the bit pattern of `w`
unfoldable pub to_int32 : ℕ → ℤ
to_int32 w =
    if ltb (w % 2 ^ 32) (2 ^ 31) then pos (w % 2 ^ 32) else negsuc (2 ^ 32 - w % 2 ^ 32 - 1)

-- `(int)strtol(s, NULL, 10)`, as glibc computes `atoi`: a 64-bit `long` that stops at its bounds,
-- and then the low 32 bits.
unfoldable pub atoi_sign : Bytes → ℤ
unfolding leading_digits to_int32
atoi_sign [] = pos 0
atoi_sign (c ∷ s) =
    if c == b'-'
    then to_int32 (2 ^ 64 - min (leading_digits 0 s) (2 ^ 63))
    else if c == b'+'
    then to_int32 (min (leading_digits 0 s) (2 ^ 63 - 1))
    else to_int32 (min (leading_digits 0 (c ∷ s)) (2 ^ 63 - 1))

unfoldable pub atoi : Bytes → ℤ
unfolding skip_space atoi_sign
atoi s = atoi_sign (skip_space s)
