-- ===== src/Text/Numbers.antt =====
-- `atoi` of a text that starts with decimal digits.
use wolf_clu.Base.{
  ℕ, ◌+◌, ◌*◌, ◌-◌, ◌^◌, ◌<◌, true, false, [], ◌∷◌, ◌++◌, ◌==◌, ◌≡◌, refl, arith, pos, Bool-cases,
  inl, inr,
}
use wolf_clu.Text.{Bytes, is_digit, is_space, skip_space, leading_digits, to_int32, atoi_sign, atoi}
use wolf_clu.Decimal.Exact.{all_digits, value}

leading_digits-value :
    (ds : Bytes) (n c : ℕ) (rest : Bytes)
    → all_digits ds ≡ true
    → is_digit c ≡ false
    → leading_digits n (ds ++ c ∷ rest) ≡ value n ds
unfolding leading_digits
leading_digits-value [] n c rest h stop = ground (arith, stop)
leading_digits-value (d ∷ ds) n c rest h stop =
    ground (arith, leading_digits-value ds (n * 10 + (d - b'0')) c rest, stop)

to_int32_small : (n : ℕ) → n < 2 ^ 31 → to_int32 n ≡ pos n
unfolding to_int32
to_int32_small n h = ground arith

-- Behind spaces, a number below 2 ^ 31 that is not followed by a digit is read as it is written.
pub atoi-digits :
    (d : ℕ) (ds : Bytes) (c : ℕ) (rest : Bytes)
    → all_digits (d ∷ ds) ≡ true
    → is_digit c ≡ false
    → value 0 (d ∷ ds) < 2 ^ 31
    → atoi (d ∷ (ds ++ c ∷ rest)) ≡ pos (value 0 (d ∷ ds))
atoi-digits d ds c rest h stop small =
    let digits = leading_digits-value (d ∷ ds) 0 c rest h stop in
    let conv = to_int32_small (value 0 (d ∷ ds)) small in
    unfold atoi skip_space is_space is_digit atoi_sign in ground (arith, digits, conv, h)

pub atoi_space : (s : Bytes) → atoi (b' ' ∷ s) ≡ atoi s
unfolding atoi skip_space is_space
atoi_space s = refl

to_int32_bound : (w : ℕ) {n : ℕ} → to_int32 w ≡ pos n → n < 2 ^ 31
unfolding to_int32
to_int32_bound w {n} h = ground (arith, h)

atoi_sign_bound : (s : Bytes) {n : ℕ} → atoi_sign s ≡ pos n → n < 2 ^ 31
unfolding atoi_sign
atoi_sign_bound [] h = ground (arith, h)
atoi_sign_bound (c ∷ s) h = elim (Bool-cases (c == b'-')) [
  | inl minus ↦ to_int32_bound _ (rw minus at h)
  | inr unsigned ↦ elim (Bool-cases (c == b'+')) [
    | inl plus ↦ to_int32_bound _ (rw (unsigned, plus) at h)
    | inr digit ↦ to_int32_bound _ (rw (unsigned, digit) at h)
  ]
]

-- What `atoi` returns is an `int`.
pub atoi_bound : (s : Bytes) {n : ℕ} → atoi s ≡ pos n → n < 2 ^ 31
unfolding atoi
atoi_bound s h = atoi_sign_bound (skip_space s) h
