-- ===== src/Net/Reply/Decimal.antt =====
-- The digits that `%d` prints.
use wolf_clu.Base.{
  ℕ, zero, suc, ◌+◌, ◌*◌, ◌-◌, ◌/◌, ◌%◌, ◌≤◌, ◌<◌, true, [], ◌∷◌, ◌≡◌, refl, ap, ◌∙◌, arith, ltb,
  Bool-cases, inl, inr,
}
use wolf_clu.Text.{Bytes, is_digit}
use wolf_clu.Decimal.Exact.{all_digits, value}
use wolf_clu.Net.Reply.{digits, decimal}

-- Digits in front of `acc` that spell `n`.
digits-value : (fuel n : ℕ) (acc : Bytes) → n < fuel → value 0 (digits fuel n acc) ≡ value n acc
unfolding digits
digits-value zero n acc h = elim h [ ]
digits-value (suc fuel) n acc h = elim (Bool-cases (ltb n 10)) [
  | inl last ↦
      let small : n % 10 ≡ n = ground arith in
      let d : 0 * 10 + (b'0' + n % 10 - b'0') ≡ n = omega arith in rw last (ap (λ m. value m acc) d)
  | inr more ↦
      let big : 10 ≤ n = ground arith in
      let d : n / 10 * 10 + (b'0' + n % 10 - b'0') ≡ n = omega arith in
      let less : n / 10 < fuel = omega arith in
      rw more (digits-value fuel (n / 10) ((b'0' + n % 10) ∷ acc) less ∙ ap (λ m. value m acc) d)
]

pub decimal-value : (n : ℕ) → value 0 (decimal n) ≡ n
unfolding decimal
decimal-value n = digits-value (suc n) n [] (omega arith)

digits-all_digits :
    (fuel n : ℕ) (acc : Bytes) → all_digits acc ≡ true → all_digits (digits fuel n acc) ≡ true
unfolding digits is_digit
digits-all_digits zero n acc h = h
digits-all_digits (suc fuel) n acc h =
    let bound : n % 10 < 10 = omega arith in
    let here : all_digits ((b'0' + n % 10) ∷ acc) ≡ true = ground (arith, h, bound) in
    let ih = digits-all_digits fuel (n / 10) ((b'0' + n % 10) ∷ acc) here in
    ground (arith, here, ih)

pub decimal-all_digits : (n : ℕ) → all_digits (decimal n) ≡ true
unfolding decimal
decimal-all_digits n = digits-all_digits (suc n) n [] refl

digits-cons :
    (fuel n : ℕ) (acc : Bytes) → 0 < fuel → (d : ℕ) × (ds : Bytes) × (digits fuel n acc ≡ d ∷ ds)
unfolding digits
digits-cons zero n acc h = elim h [ ]
digits-cons (suc zero) n acc h = (b'0' + n % 10, acc, ground arith)
digits-cons (suc (suc fuel)) n acc h = elim (Bool-cases (ltb n 10)) [
  | inl last ↦ (b'0' + n % 10, acc, rw last)
  | inr more ↦
      let (d, ds, e) = digits-cons (suc fuel) (n / 10) ((b'0' + n % 10) ∷ acc) (omega arith) in
      (d, ds, rw more e)
]

pub decimal-cons : (n : ℕ) → (d : ℕ) × (ds : Bytes) × (decimal n ≡ d ∷ ds)
unfolding decimal
decimal-cons n = digits-cons (suc n) n [] (omega arith)
