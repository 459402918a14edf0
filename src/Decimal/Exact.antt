-- ===== src/Decimal/Exact.antt =====
-- The parser against the exact value of a decimal text, with no bound on the number.
use wolf_clu.Base.{
  ℕ, ◌+◌, ◌-◌, ◌*◌, ◌≤◌, ◌<◌, ◌^◌, Bool, true, false, not, ◌&&◌, [], ◌∷◌, some, ◌≡◌, refl, arith,
  ◌∙◌, if◌then◌else◌, ℤ, pos, negsuc, ltb_ℤ, ◌≤ℤ◌,
}
use wolf_clu.Base.Result.{Result, ok, err, fatal_error}
use wolf_clu.Text.{Bytes, is_digit}
use wolf_clu.Decimal.{scan, conclude, is_empty, parse_decimal_bounded}

abbrev pub all_digits : Bytes → Bool
all_digits [] = true
all_digits (c ∷ s) = is_digit c && all_digits s

-- the number that digits spell behind `n`
abbrev pub value : ℕ → Bytes → ℕ
value n [] = n
value n (c ∷ s) = value (n * 10 + (c - b'0')) s

abbrev pub within : ℤ → ℤ → ℕ → Bool
within min_val max_val n = not (ltb_ℤ (pos n) min_val) && not (ltb_ℤ max_val (pos n))

-- What the parser should compute: the exact value of a non-empty text of digits, if it lies in
-- the range, and an error otherwise.
abbrev pub exact : Bytes → ℤ → ℤ → Result ℕ
exact s min_val max_val =
    if all_digits s && (not (is_empty s) && within min_val max_val (value 0 s))
    then ok (value 0 s)
    else err fatal_error

-- what is behind `start` only makes the number larger
value_grows : (start : ℕ) (digits : Bytes) → start ≤ value start digits
value_grows start [] = omega arith
value_grows start (d ∷ digits) =
    let next = start * 10 + (d - b'0') in omega (arith, value_grows next digits)

conclude-over :
    (empty : Bool) (min_val max_val : ℤ) (s : Bytes) (val : ℕ)
    → conclude empty min_val max_val (scan max_val s val true) ≡ err fatal_error
unfolding scan conclude
conclude-over empty min_val max_val [] val = refl
conclude-over empty min_val max_val (c ∷ s) val =
    ground (arith, conclude-over empty min_val max_val s val)

conclude-scan :
    (empty : Bool) (min_val : ℤ) (m : ℕ) (s : Bytes) (val : ℕ)
    → m < 2 ^ 63
    → val ≤ m
    → conclude empty min_val (pos m) (scan (pos m) s val false) ≡ (
        if all_digits s && (not empty && within min_val (pos m) (value val s))
        then ok (value val s)
        else err fatal_error)
unfolding scan conclude
conclude-scan empty min_val m [] val h le = ground arith
conclude-scan empty min_val m (c ∷ s) val h le = ground (
  arith,
  conclude-over empty min_val (pos m) s val,
  conclude-scan empty min_val m s (val * 10 + (c - b'0')) h,
  value_grows (val * 10 + (c - b'0')) s,
)

conclude-negsuc :
    (min_val : ℤ) (m : ℕ) (s : Bytes)
    → conclude (is_empty s) min_val (negsuc m) (scan (negsuc m) s 0 false) ≡ err fatal_error
unfolding scan conclude is_empty
conclude-negsuc min_val m [] = ground arith
conclude-negsuc min_val m (c ∷ s) = ground (arith, conclude-over false min_val (negsuc m) s 0)

-- For an upper bound that a `long` can hold, the parser returns the exact value of a non-empty text
-- of decimal digits if that value lies between the bounds, and WOLFCLU_FATAL_ERROR for every other
-- text: nothing overflows, and no value in the range is refused.
pub parse_decimal_bounded-exact :
    (s : Bytes) (min_val max_val : ℤ)
    → max_val ≤ℤ pos (2 ^ 63 - 1)
    → parse_decimal_bounded (some s) min_val max_val ≡ exact s min_val max_val
unfolding parse_decimal_bounded
parse_decimal_bounded-exact s min_val (pos m) h =
    conclude-scan (is_empty s) min_val m s 0 (omega arith) (omega arith)
parse_decimal_bounded-exact s min_val (negsuc m) h = conclude-negsuc min_val m s ∙ ground arith
