-- ===== src/Crypto/Stream.antt =====
-- src/crypto/clu_evp_crypto.c, the loop over the input, against a session of the cipher.
use wolf_clu.Base.{
  ℕ, zero, suc, ◌+◌, ◌≤◌, ◌<◌, Bool, true, false, List, [], ◌∷◌, ◌++◌, Option, none, some, length,
  take, drop, take-append-drop, length-drop, append_assoc, All, Option-cases, ◌≡◌, refl, ap, sym,
  ◌∙◌, arith, inl, inr,
}
use wolf_clu.Base.Result.{ok}
use wolf_clu.Text.{Bytes}
use wolf_clu.Crypto.{Cipher, max_buffer, cipher_loop, run_cipher}

abbrev pub concat : List Bytes → Bytes
concat [] = []
concat (c ∷ cs) = c ++ concat cs

abbrev pub NonEmpty : List Bytes → Type 0
NonEmpty cs = All (λ c. 0 < length c) cs

-- The input in pieces of the buffer's size.
abbrev pub chunks : ℕ → Bytes → List Bytes
chunks zero input = []
chunks (suc fuel) [] = []
chunks (suc fuel) (c ∷ input) =
    take max_buffer (c ∷ input) ∷ chunks fuel (drop max_buffer (c ∷ input))

module _ (cipher : Cipher) where
  open cipher use {Context, init, update, final}

  -- what is put out for the pieces, one after the other, and the last block
  abbrev pub feed : Context → List Bytes → Option Bytes
  feed ctx [] = final ctx
  feed ctx (c ∷ cs) = elim (update ctx c) [
    | none ↦ none
    | some (ctx', block) ↦ elim (feed ctx' cs) [ none ↦ none | some out ↦ some (block ++ out) ]
  ]

  abbrev pub session : Bool → Bytes → Bytes → List Bytes → Option Bytes
  session enc key iv cs = elim (init enc key iv) [ none ↦ none | some ctx ↦ feed ctx cs ]

-- What is relied on of a cipher: the division of the input into pieces makes no difference, and
-- what `sealed` gives for a text is no shorter, and is opened with the same key and IV.
pub record Seals (cipher : Cipher) : Type 0 where
  pub sealed : Bytes → Bytes → Bytes → Bytes
  pub seals :
      (key iv : Bytes) (cs : List Bytes)
      → NonEmpty cs
      → session cipher true key iv cs ≡ some (sealed key iv (concat cs))
  pub grows : (key iv text : Bytes) → length text ≤ length (sealed key iv text)
  pub opens :
      (key iv text : Bytes) (cs : List Bytes)
      → NonEmpty cs
      → concat cs ≡ sealed key iv text
      → session cipher false key iv cs ≡ some text

pub chunks-concat :
    (fuel : ℕ) (input : Bytes) → length input ≤ fuel → concat (chunks fuel input) ≡ input
chunks-concat zero [] h = refl
chunks-concat zero (c ∷ input) h = elim h [ ]
chunks-concat (suc fuel) [] h = refl
chunks-concat (suc fuel) (c ∷ input) h =
    ap (λ x. take max_buffer (c ∷ input) ++ x)
      (chunks-concat fuel (drop max_buffer (c ∷ input))
        (omega (arith, length-drop {0} 1024 (c ∷ input), h)))
    ∙ take-append-drop max_buffer (c ∷ input)

pub chunks-NonEmpty : (fuel : ℕ) (input : Bytes) → NonEmpty (chunks fuel input)
chunks-NonEmpty zero input = tt
chunks-NonEmpty (suc fuel) [] = tt
chunks-NonEmpty (suc fuel) (c ∷ input) =
    (omega arith, chunks-NonEmpty fuel (drop max_buffer (c ∷ input)))

module _ (cipher : Cipher) where
  open cipher use {Context, init, update, final}

  -- a piece that is taken, and what is put out for it
  feed-cons :
      (ctx : Context) (c : Bytes) (cs : List Bytes) (text : Bytes)
      → feed cipher ctx (c ∷ cs) ≡ some text
      → (ctx' : Context) × (block : Bytes) × (more : Bytes) × (update ctx c ≡ some (ctx', block))
        × (feed cipher ctx' cs ≡ some more)
        × (block ++ more ≡ text)
  feed-cons ctx c cs text h = elim (Option-cases (update ctx c)) [
    | inl p ↦ absurd (ground (arith, h, p))
    | inr ((ctx', block), p) ↦ elim (Option-cases (feed cipher ctx' cs)) [
      | inl q ↦ absurd (ground (arith, h, p, q))
      | inr (more, q) ↦ (ctx', block, more, p, q, ground (arith, h, p, q))
    ]
  ]

  cipher_loop-feed :
      (fuel : ℕ) (ctx : Context) (input out text : Bytes)
      → length input < fuel
      → feed cipher ctx (chunks fuel input) ≡ some text
      → cipher_loop cipher fuel ctx input out ≡ ok (out ++ text)
  unfolding cipher_loop
  cipher_loop-feed zero ctx input out text h p = elim h [ ]
  cipher_loop-feed (suc fuel) ctx [] out text h p =
      let q : final ctx ≡ some text = p in rw (q, cipher_loop)
  cipher_loop-feed (suc fuel) ctx (c ∷ input) out text h p =
      let left = drop max_buffer (c ∷ input) in
      let (ctx', block, more, taken, rest, e) =
        feed-cons ctx (take max_buffer (c ∷ input)) (chunks fuel left) text p in
      let ih =
        cipher_loop-feed fuel ctx' left (out ++ block) more
          (omega (arith, length-drop {0} 1024 (c ∷ input), h)) rest in
      rw (taken, cipher_loop) (ih ∙ ap ok (append_assoc out block more ∙ ap (λ x. out ++ x) e))

  pub run_cipher-session :
      (enc : Bool) (key iv input out text : Bytes)
      → session cipher enc key iv (chunks (length input + 1) input) ≡ some text
      → run_cipher cipher enc key iv input out ≡ ok (out ++ text)
  unfolding run_cipher
  run_cipher-session enc key iv input out text h = elim (Option-cases (init enc key iv)) [
    | inl p ↦ absurd (ground (arith, h, p))
    | inr (ctx, p) ↦
        let cs = chunks (length input + 1) input in
        let e : session cipher enc key iv cs ≡ feed cipher ctx cs = rw (p, session) in
        rw (p, run_cipher)
          (cipher_loop-feed (length input + 1) ctx input out text (omega arith) (sym e ∙ h))
  ]
