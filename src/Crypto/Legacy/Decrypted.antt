-- ===== src/Crypto/Legacy/Decrypted.antt =====
-- src/crypto/clu_decrypt.c: the loop over what was encrypted.
use wolf_clu.Base.{
  ℕ, zero, suc, ◌+◌, ◌-◌, ◌/◌, ◌%◌, ◌≤◌, ◌<◌, true, false, [], ◌∷◌, ◌++◌, append_assoc, append-nil,
  ◌==◌, ltb, if◌then◌else◌, length, length-append, length-take, length-drop, take, drop,
  take-append-drop, take_all, Bool-cases, inl, inr, ◌≡◌, ◌⊎◌, refl, ap, sym, ◌∙◌, arith,
}
use wolf_clu.Base.Result.{ok}
use wolf_clu.Text.{Bytes}
use wolf_clu.Crypto.Legacy.{Camellia, max_len, last_byte, strip_padding, decrypt_loop, last_loop}
use wolf_clu.Crypto.Legacy.Padded.{
  Inverts, enc_all, enc_all-round, enc_all-nil, take-append, drop-append, drop_all,
}
use wolf_clu.Crypto.Legacy.Encrypted.{≤_cases}

-- The text behind the loop: without the padding, if the salt does not begin with 0.
abbrev pub stripped : Bytes → Bytes → Bytes
stripped [] text = text
stripped (c ∷ salt) text = if c == 0 then text else take (length text - last_byte text) text

-- The text ends with its padding, if the salt does not begin with 0.
abbrev pub Ends : Bytes → Bytes → Type 0
Ends [] text = Unit
Ends (c ∷ salt) text = ((c == 0) ≡ true) ⊎ (last_byte text ≤ 16)

Ends-≤ : (c : ℕ) (text salt : Bytes) → (c == 0) ≡ false → Ends (c ∷ salt) text → last_byte text ≤ 16
Ends-≤ c text salt p (inl q) = absurd (ground (arith, p, q))
Ends-≤ c text salt p (inr q) = q

take-past : (a b : Bytes) (n k : ℕ) → n ≡ length a + k → take n (a ++ b) ≡ a ++ take k b
take-past [] b n k e = ap (λ m. take m b) (omega (arith, e))
take-past (c ∷ a) b zero k e = absurd (omega (arith, e))
take-past (c ∷ a) b (suc n) k e = ap (◌∷◌ c) (take-past a b n k (omega (arith, e)))

pub last_byte-append : (a b : Bytes) → 0 < length b → last_byte (a ++ b) ≡ last_byte b
unfolding last_byte
last_byte-append [] b h = refl
last_byte-append (c ∷ []) [] h = elim h [ ]
last_byte-append (c ∷ []) (d ∷ b) h = refl
last_byte-append (c ∷ d ∷ a) b h = last_byte-append (d ∷ a) b h

stripped-append :
    (salt a b : Bytes) → 16 ≤ length b → Ends salt b → stripped salt (a ++ b) ≡ a ++ stripped salt b
stripped-append [] a b h e = refl
stripped-append (c ∷ salt) a b h e = elim (Bool-cases (c == 0)) [
  | inl p ↦ rw p refl
  | inr p ↦
      let n = length-append {0} a b in
      let l = last_byte-append a b (omega (arith, h)) in
      let k = Ends-≤ c b salt p e in
      rw p (
        rw l (
          take-past a b (length (a ++ b) - last_byte b) (length b - last_byte b)
            (omega (arith, n, k, h))))
]

last_loop-one : (n : ℕ) → 0 < n → n ≤ 1024 → last_loop n ≡ 1
unfolding last_loop
last_loop-one n h k = elim (Bool-cases (ltb 0 (n % max_len))) [
  | inl p ↦ let q : 0 < n % 1024 = ground (arith, p) in rw (p, last_loop) (omega (arith, q, h, k))
  | inr p ↦ let q : n % 1024 ≡ 0 = ground (arith, p) in rw (p, last_loop) (omega (arith, q, h, k))
]

last_loop-more : (n : ℕ) → 1024 < n → last_loop n ≡ last_loop (n - 1024) + 1
unfolding last_loop
last_loop-more n h =
    let e : (n - 1024) % 1024 ≡ n % 1024 = omega (arith, h) in
    let d : n / 1024 ≡ (n - 1024) / 1024 + 1 = omega (arith, h) in
    elim (Bool-cases (ltb 0 (n % max_len))) [
      | inl p ↦ rw (e, p, last_loop) (omega (arith, d))
      | inr p ↦ rw (e, p, last_loop) (omega (arith, d))
    ]

last_loop-pos : (n : ℕ) → 0 < n → 0 < last_loop n
unfolding last_loop
last_loop-pos n h = elim (Bool-cases (ltb 0 (n % max_len))) [
  | inl p ↦ rw p (omega arith)
  | inr p ↦ let q : n % 1024 ≡ 0 = ground (arith, p) in rw p (omega (arith, q, h))
]

Ends-same : (salt a b : Bytes) → last_byte a ≡ last_byte b → Ends salt a → Ends salt b
Ends-same [] a b e h = tt
Ends-same (c ∷ salt) a b e (inl q) = inl q
Ends-same (c ∷ salt) a b e (inr q) = inr (omega (arith, e, q))

fewer : (a b : ℕ) → b ≤ a → ltb (a + 24) (b + 24) ≡ false
fewer a b h = ground (arith, h)

strip_padding-stripped :
    (salt text out : Bytes)
    → 16 ≤ length text
    → Ends salt text
    → strip_padding 16 salt (length text + 24) text out ≡ ok (out ++ stripped salt text)
unfolding strip_padding
strip_padding-stripped [] text out h e = refl
strip_padding-stripped (c ∷ salt) text out h e = elim (Bool-cases (c == 0)) [
  | inl p ↦ rw p refl
  | inr p ↦
      let fits : ltb (length text + 24) (last_byte text + 24) ≡ false =
        fewer (length text) (last_byte text) (omega (arith, Ends-≤ c text salt p e, h)) in
      let n : length text + 24 - (last_byte text + 24) ≡ length text - last_byte text =
        omega arith in
      rw (p, fits, n) refl
]

same : (a b : ℕ) → a ≡ b → (a == b) ≡ true
same a b h = ground (arith, h)

below : (a b : ℕ) → a < b → (a == b) ≡ false
below a b h = ground (arith, h)

module _ (camellia : Camellia) (laws : Inverts camellia) (size : ℕ) (salt key iv : Bytes)
    (sets : camellia.set_key (take (size / 8) key) iv ≡ true) where
  abbrev enc : Bytes → Bytes
  enc text = camellia.cbc_encrypt (take (size / 8) key) iv text

  -- what one round decrypts
  opened :
      (body text : Bytes)
      → length text % 16 ≡ 0
      → take max_len body ≡ enc text
      → camellia.cbc_decrypt (take (size / 8) key) iv (take max_len body) ≡ text
  opened body text m e =
      ap (camellia.cbc_decrypt (take (size / 8) key) iv) e
      ∙ laws.inverts (take (size / 8) key) iv text m

  last_round :
      (last fuel len curr : ℕ) (body text out : Bytes)
      → 0 < length body
      → length text % 16 ≡ 0
      → take max_len body ≡ enc text
      → (curr == last) ≡ true
      → decrypt_loop camellia 16 size salt key iv last (suc fuel) body len curr out
        ≡ strip_padding 16 salt len text out
  unfolding decrypt_loop
  last_round last fuel len curr [] text out h m e c = elim h [ ]
  last_round last fuel len curr (b ∷ body) text out h m e c =
      rw (sets, decrypt_loop, c)
        (ap (λ x. strip_padding 16 salt len x out) (opened (b ∷ body) text m e))

  next_round :
      (last fuel len curr : ℕ) (body text out : Bytes)
      → 0 < length body
      → length text % 16 ≡ 0
      → take max_len body ≡ enc text
      → (curr == last) ≡ false
      → decrypt_loop camellia 16 size salt key iv last (suc fuel) body len curr out
        ≡ decrypt_loop camellia 16 size salt key iv last fuel
            (drop max_len body)
            (len - length text)
            (curr + 1)
            (out ++ text)
  unfolding decrypt_loop
  next_round last fuel len curr [] text out h m e c = elim h [ ]
  next_round last fuel len curr (b ∷ body) text out h m e c =
      let n = ap length e ∙ laws.keeps_length (take (size / 8) key) iv text m in
      rw (sets, decrypt_loop, c)
        (ap
            (λ x.
              decrypt_loop camellia 16 size salt key iv last fuel (drop max_len (b ∷ body))
                (len - x) (curr + 1)
                (out ++ camellia.cbc_decrypt (take (size / 8) key) iv (take max_len (b ∷ body))))
            n
          ∙ ap
              (λ x.
                decrypt_loop camellia 16 size salt key iv last fuel (drop max_len (b ∷ body))
                  (len - length text) (curr + 1) (out ++ x))
              (opened (b ∷ body) text m e))

  -- The loop gives back the text, without its padding where the salt says that it has one.
  pub decrypt_loop-stripped :
      (fuel fuel' last curr len : ℕ) (text out : Bytes)
      → 0 < length text
      → length text % 16 ≡ 0
      → len ≡ length text + 24
      → last + 1 ≡ curr + last_loop (length text)
      → Ends salt text
      → length text < fuel
      → length text < fuel'
      → decrypt_loop camellia 16 size salt key iv last fuel
          (enc_all camellia (take (size / 8) key) iv fuel' text)
          len
          curr
          out
        ≡ ok (out ++ stripped salt text)
  decrypt_loop-stripped zero fuel' last curr len text out h m l w b f g = absurd (omega (arith, f))
  decrypt_loop-stripped (suc fuel) zero last curr len text out h m l w b f g =
      absurd (omega (arith, g))
  decrypt_loop-stripped (suc fuel) (suc fuel') last curr len text out h m l w b f g =
      let k = take (size / 8) key in
      let a = take max_len text in
      let d = drop max_len text in
      let rest = enc_all camellia k iv fuel' d in
      let round = enc_all-round camellia k iv fuel' text h in
      elim (≤_cases (length text) 1024) [
        | inl short ↦
            let one = last_loop-one (length text) h short in
            let last_one : (curr == last) ≡ true = same curr last (omega (arith, w, one)) in
            let n = laws.keeps_length k iv text m in
            let body : enc_all camellia k iv (suc fuel') text ≡ enc text =
              round
              ∙ ap (λ x. camellia.cbc_encrypt k iv x ++ rest) (take_all text 1024 short)
              ∙ ap (λ x. enc text ++ enc_all camellia k iv fuel' x) (drop_all 1024 text short)
              ∙ ap (λ x. enc text ++ x) (enc_all-nil camellia k iv fuel')
              ∙ append-nil (enc text) in
            rw body (
              last_round last fuel len curr (enc text) text out (omega (arith, n, h)) m
                (take_all (enc text) 1024 (omega (arith, n, short))) last_one
              ∙ rw l (strip_padding-stripped salt text out (omega (arith, m, h)) b))
        | inr long ↦
            let full = length-take 1024 text (omega (arith, long)) in
            let left = length-drop {0} 1024 text in
            let n = laws.keeps_length k iv a (omega (arith, full)) in
            let joined = length-append {0} (enc a) rest in
            let whole = take-append-drop 1024 text in
            let more = last_loop-more (length text) long in
            let pos = last_loop-pos (length text - 1024) (omega (arith, long)) in
            let not_last : (curr == last) ≡ false = below curr last (omega (arith, w, more, pos)) in
            let first : take max_len (enc a ++ rest) ≡ enc a =
              take-append 1024 (enc a) rest (omega (arith, n, full))
              ∙ take_all (enc a) 1024 (omega (arith, n, full)) in
            let behind : drop max_len (enc a ++ rest) ≡ rest =
              drop-append 1024 (enc a) rest (omega (arith, n, full))
              ∙ ap (λ x. x ++ rest) (drop_all 1024 (enc a) (omega (arith, n, full))) in
            let lb = last_byte-append a d (omega (arith, left, long)) in
            let lb_text : last_byte d ≡ last_byte text = sym lb ∙ ap last_byte whole in
            let loops : last_loop (length text - 1024) ≡ last_loop (length d) =
              ap last_loop (sym left) in
            rw round (
              next_round last fuel len curr (enc a ++ rest) a out (omega (arith, joined, n, full))
                (omega (arith, full)) first not_last
              ∙ rw behind (
                  decrypt_loop-stripped fuel fuel' last (curr + 1) (len - length a) d (out ++ a)
                    (omega (arith, left, long)) (omega (arith, left, long, m))
                    (omega (arith, left, long, l, full)) (omega (arith, w, more, loops))
                    (Ends-same salt text d (sym lb_text) b) (omega (arith, left, f))
                    (omega (arith, left, g)))
              ∙ ap ok (append_assoc out a (stripped salt d))
              ∙ ap (λ x. ok (out ++ x))
                  (sym (
                      stripped-append salt a d (omega (arith, left, long, m))
                        (Ends-same salt text d (sym lb_text) b))
                    ∙ ap (stripped salt) whole))
      ]
