-- ===== src/Crypto/Legacy/Encrypted.antt =====
-- src/crypto/clu_encrypt.c: the loop over the text.
use wolf_clu.Base.{
  ℕ, zero, suc, ◌+◌, ◌-◌, ◌/◌, ◌%◌, ◌≤◌, ◌<◌, true, false, ◌&&◌, [], ◌∷◌, ◌++◌, append_assoc,
  append-nil, ◌==◌, leb, if◌then◌else◌, length, length-append, length-take, length-drop, take, drop,
  take_all, Bool-cases, inl, inr, ◌≡◌, ◌⊎◌, refl, ap, sym, ◌∙◌, arith,
}
use wolf_clu.Base.Result.{ok}
use wolf_clu.Text.{Bytes, codes, strncmp_eq}
use wolf_clu.Crypto.Legacy.{Camellia, max_len, pad_bytes, encrypt_loop}
use wolf_clu.Crypto.Legacy.Padded.{
  length-pad_bytes, enc_all, enc_all-round, enc_all-nil, take-append, drop-append, drop_all,
}

pub empty : (text : Bytes) → length text ≡ 0 → text ≡ []
empty [] h = refl
empty (c ∷ text) h = absurd (omega (arith, h))

pub ≤_cases : (a b : ℕ) → (a ≤ b) ⊎ (b < a)
≤_cases a b = elim (Bool-cases (leb a b)) [
  | inl t ↦ inl (ground (arith, t))
  | inr t ↦ inr (ground (arith, t))
]

differ : (a b : ℕ) → a < b → (a == b) ≡ false
differ a b h = ground (arith, h)

module _ (camellia : Camellia) (mode : Bytes) (size : ℕ) (key iv : Bytes) (p : ℕ)
    (is_cbc : strncmp_eq 3 mode (codes "cbc") ≡ true)
    (sets : camellia.set_key (take (size / 8) key) iv ≡ true) where
  encrypt_loop-zero :
      (fuel : ℕ) (file out : Bytes)
      → 0 < fuel
      → encrypt_loop camellia 16 mode size key iv p fuel file 0 out ≡ ok out
  unfolding encrypt_loop
  encrypt_loop-zero zero file out h = elim h [ ]
  encrypt_loop-zero (suc fuel) file out h = refl

  encrypt_loop-round :
      (fuel len : ℕ) (file out input : Bytes)
      → (if length (take max_len file) == max_len
          then take max_len file
          else take max_len file ++ pad_bytes p p)
        ≡ input
      → encrypt_loop camellia 16 mode size key iv p (suc fuel) file (suc len) out
        ≡ encrypt_loop camellia 16 mode size key iv p fuel
            (drop max_len file)
            (suc len - length input)
            (out ++ camellia.cbc_encrypt (take (size / 8) key) iv input)
  unfolding encrypt_loop
  encrypt_loop-round fuel len file out input e =
      let both : (camellia.set_key (take (size / 8) key) iv && strncmp_eq 3 mode (codes "cbc"))
          ≡ true =
        ground (arith, sets, is_cbc) in
      rw (both, encrypt_loop, e)

  abbrev enc : Bytes → Bytes
  enc text = camellia.cbc_encrypt (take (size / 8) key) iv text

  full_round :
      (fuel len : ℕ) (file out : Bytes)
      → 1024 ≤ length file
      → encrypt_loop camellia 16 mode size key iv p (suc fuel) file (suc len) out
        ≡ encrypt_loop camellia 16 mode size key iv p fuel
            (drop max_len file)
            (suc len - 1024)
            (out ++ enc (take max_len file))
  full_round fuel len file out long =
      let full = length-take 1024 file long in
      encrypt_loop-round fuel len file out (take max_len file) (rw full refl)
      ∙ ap
          (λ n.
            encrypt_loop camellia 16 mode size key iv p fuel (drop max_len file) (suc len - n)
              (out ++ enc (take max_len file)))
          full

  last_round :
      (fuel len : ℕ) (file out : Bytes)
      → length file < 1024
      → suc len ≡ length (file ++ pad_bytes p p)
      → 0 < fuel
      → encrypt_loop camellia 16 mode size key iv p (suc fuel) file (suc len) out
        ≡ ok (out ++ enc (file ++ pad_bytes p p))
  last_round fuel len file out short e h =
      let got = take_all file 1024 (omega (arith, short)) in
      let done : suc len - length (file ++ pad_bytes p p) ≡ 0 = omega (arith, e) in
      encrypt_loop-round fuel len file out (file ++ pad_bytes p p)
        (rw (got, differ (length file) 1024 short) refl)
      ∙ rw done (encrypt_loop-zero fuel (drop max_len file) (out ++ enc (file ++ pad_bytes p p)) h)

  -- The loop writes the encryption of the padded text.
  pub encrypt_loop-enc_all :
      (fuel len : ℕ) (file out : Bytes)
      → len ≡ length file + p
      → len % 16 ≡ 0
      → p < 16
      → len < fuel
      → encrypt_loop camellia 16 mode size key iv p fuel file len out
        ≡ ok (out ++ enc_all camellia (take (size / 8) key) iv fuel (file ++ pad_bytes p p))
  encrypt_loop-enc_all zero len file out e m q h = absurd (omega (arith, h))
  encrypt_loop-enc_all (suc fuel) zero file out e m q h =
      let n = length-append {0} file (pad_bytes p p) in
      let k = length-pad_bytes p p in
      let nothing = empty (file ++ pad_bytes p p) (omega (arith, n, k, e)) in
      encrypt_loop-zero (suc fuel) file out (omega arith)
      ∙ rw nothing (ap ok (sym (append-nil out)))
  encrypt_loop-enc_all (suc fuel) (suc len) file out e m q h =
      let pads = pad_bytes p p in
      let text = file ++ pads in
      let all = λ (t : Bytes). enc_all camellia (take (size / 8) key) iv fuel t in
      let n = length-append {0} file pads in
      let k = length-pad_bytes p p in
      let round =
        enc_all-round camellia (take (size / 8) key) iv fuel text (omega (arith, n, k, e)) in
      elim (≤_cases 1024 (length file)) [
        | inl long ↦
            let left = length-drop {0} 1024 file in
            full_round fuel len file out long
            ∙ encrypt_loop-enc_all fuel (suc len - 1024) (drop max_len file)
                (out ++ enc (take max_len file)) (omega (arith, e, left, long)) (omega (arith, m)) q
                (omega (arith, h))
            ∙ ap ok (append_assoc out (enc (take max_len file)) (all (drop max_len file ++ pads)))
            ∙ ap (λ x. ok (out ++ x))
                (ap (λ x. enc x ++ all (drop max_len file ++ pads))
                    (sym (take-append 1024 file pads long))
                  ∙ ap (λ x. enc (take max_len text) ++ all x)
                      (sym (drop-append 1024 file pads long))
                  ∙ sym round)
        | inr short ↦
            let fits : length text ≤ 1024 = omega (arith, n, k, e, m, q, short) in
            last_round fuel len file out short (omega (arith, n, k, e)) (omega (arith, h))
            ∙ ap (λ x. ok (out ++ x))
                (sym (append-nil (enc text))
                  ∙ ap (λ x. enc text ++ x)
                      (sym (enc_all-nil camellia (take (size / 8) key) iv fuel))
                  ∙ ap (λ x. enc text ++ all x) (sym (drop_all 1024 text fits))
                  ∙ ap (λ x. enc x ++ all (drop max_len text)) (sym (take_all text 1024 fits))
                  ∙ sym round)
      ]
