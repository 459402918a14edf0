-- ===== src/Decimal.antt =====
-- src/tools/clu_funcs.c, `wolfCLU_parseDecimalBounded`. A `long` has 64 bits. The accumulator is
-- never negative; what it would do past LONG_MAX is written out as a wrap.
pub mod Exact
use wolf_clu.Base.{
  ℕ, ◌+◌, ◌-◌, ◌*◌, ◌/◌, ◌%◌, ◌^◌, Bool, true, false, not, ◌||◌, List, [], ◌∷◌, Option, none, some,
  ltb, if◌then◌else◌, ℤ, pos, pos_part, ltb_ℤ,
}
use wolf_clu.Base.Result.{Result, ok, err, fatal_error}
use wolf_clu.Text.{Bytes, is_digit}

abbrev pub long_wrap : ℕ → ℕ
long_wrap n = n % 2 ^ 63

-- the guard in front of the multiplication: `maxVal < digit || val > (maxVal - digit) / 10`
unfoldable pub exceeds : ℤ → ℕ → ℕ → Bool
exceeds max_val val digit = ltb_ℤ max_val (pos digit) || ltb ((pos_part max_val - digit) / 10) val

-- The loop with the locals `val` and `over`; `none` is the return at a byte that is no digit.
unfoldable pub scan : ℤ → Bytes → ℕ → Bool → Option (ℕ × Bool)
unfolding is_digit exceeds
scan max_val [] val over = some (val, over)
scan max_val (c ∷ s) val over =
    let digit = c - b'0' in
    let rest =
      scan max_val s
        (if over || exceeds max_val val digit
          then val
          else long_wrap (long_wrap (val * 10) + digit))
        (over || exceeds max_val val digit) in
    if not (is_digit c) then none else rest

-- the test behind the loop; `empty` is `p == str`
unfoldable pub conclude : Bool → ℤ → ℤ → Option (ℕ × Bool) → Result ℕ
conclude empty min_val max_val none = err fatal_error
conclude empty min_val max_val (some (val, over)) =
    if over || empty || ltb_ℤ (pos val) min_val || ltb_ℤ max_val (pos val)
    then err fatal_error
    else ok val

unfoldable pub is_empty : Bytes → Bool
is_empty [] = true
is_empty (c ∷ s) = false

-- `wolfCLU_parseDecimalBounded`; the result is what it stores in `*out`.
unfoldable pub parse_decimal_bounded : Option Bytes → ℤ → ℤ → Result ℕ
unfolding scan conclude is_empty
parse_decimal_bounded none min_val max_val = err fatal_error
parse_decimal_bounded (some s) min_val max_val =
    conclude (is_empty s) min_val max_val (scan max_val s 0 false)
