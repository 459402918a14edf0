-- ===== src/Text/Words.antt =====
-- The words that `strtok` cuts.
use wolf_clu.Base.{
  ℕ, zero, suc, ◌≤◌, ◌<◌, true, false, List, [], ◌∷◌, ◌++◌, Option, none, some, ◌==◌, ◌≡◌, refl, ap,
  sym, arith, length, length-append, All,
}
use wolf_clu.Text.{Bytes, before, after, skip_char, strtok}
use wolf_clu.Text.Lines.{lacks, join, before-lacks}

-- the words that calls of `strtok` with a delimiter give; each takes a byte at least, so that the
-- length of the text is enough for the fuel
unfoldable pub words : ℕ → ℕ → Bytes → List Bytes
words d zero s = []
words d (suc fuel) s = elim (strtok d s) [
  | none ↦ []
  | some (word, rest) ↦ word ∷ words d fuel rest
]

pub before-append : (d : ℕ) (w s : Bytes) → lacks d w ≡ true → before d (w ++ d ∷ s) ≡ w
unfolding before
before-append d [] s h = ground arith
before-append d (c ∷ w) s h = rw (before-append d w s (ground (arith, h))) (ground (arith, h))

pub after-append : (d : ℕ) (w s : Bytes) → lacks d w ≡ true → after d (w ++ d ∷ s) ≡ s
unfolding after
after-append d [] s h = ground arith
after-append d (c ∷ w) s h = rw (after-append d w s (ground (arith, h))) (ground (arith, h))

pub after-lacks : (d : ℕ) (w : Bytes) → lacks d w ≡ true → after d w ≡ []
unfolding after
after-lacks d [] h = refl
after-lacks d (c ∷ w) h = rw (after-lacks d w (ground (arith, h))) (ground (arith, h))

-- A word is not empty and lacks the delimiter.
abbrev pub IsWord : ℕ → Bytes → Type 0
IsWord d w = (0 < length w) × (lacks d w ≡ true)

not_delimiter : (d c : ℕ) (w : Bytes) → lacks d (c ∷ w) ≡ true → (c == d) ≡ false
not_delimiter d c w h = ground (arith, h)

pub strtok-append : (d : ℕ) (w s : Bytes) → IsWord d w → strtok d (w ++ d ∷ s) ≡ some (w, s)
unfolding strtok skip_char
strtok-append d [] s (h, k) = elim h [ ]
strtok-append d (c ∷ w) s (h, k) = rw (
  not_delimiter d c w k,
  strtok,
  skip_char,
  before-append d (c ∷ w) s k,
  after-append d (c ∷ w) s k,
)

pub strtok_last : (d : ℕ) (w : Bytes) → IsWord d w → strtok d w ≡ some (w, [])
unfolding strtok skip_char
strtok_last d [] (h, k) = elim h [ ]
strtok_last d (c ∷ w) (h, k) =
    rw (not_delimiter d c w k, strtok, skip_char, before-lacks d (c ∷ w) k, after-lacks d (c ∷ w) k)

pub words-nil : (d fuel : ℕ) → words d fuel [] ≡ []
unfolding words strtok skip_char
words-nil d zero = refl
words-nil d (suc fuel) = refl

-- Words with the delimiter between them are cut.
pub words-join :
    (d fuel : ℕ) (ws : List Bytes)
    → All (IsWord d) ws
    → length (join d ws) ≤ fuel
    → words d fuel (join d ws) ≡ ws
unfolding words
words-join d fuel [] h k = words-nil d fuel
words-join d zero ([] ∷ []) ((h, l), hs) k = elim h [ ]
words-join d zero ((c ∷ w) ∷ []) h k = elim k [ ]
words-join d zero ([] ∷ v ∷ ws) ((h, l), hs) k = elim h [ ]
words-join d zero ((c ∷ w) ∷ v ∷ ws) h k = elim k [ ]
words-join d (suc fuel) (w ∷ []) (h, hs) k =
    rw (strtok_last d w h, words) (ap (◌∷◌ w) (words-nil d fuel))
words-join d (suc fuel) (w ∷ v ∷ ws) (h, hs) k =
    let n = length-append {0} w (d ∷ join d (v ∷ ws)) in
    rw (strtok-append d w (join d (v ∷ ws)) h, words)
      (ap (◌∷◌ w) (words-join d fuel (v ∷ ws) hs (omega (arith, n, k))))

length-after : (d c : ℕ) (s : Bytes) → length (after d (c ∷ s)) ≤ length s
unfolding after
length-after d c [] = ground arith
length-after d c (e ∷ s) = ground (arith, length-after d e s)

length-skip_char : (d : ℕ) (s : Bytes) → length (skip_char d s) ≤ length s
unfolding skip_char
length-skip_char d [] = omega arith
length-skip_char d (c ∷ s) = ground (arith, length-skip_char d s)

-- what `strtok` does behind the delimiters that it skips
abbrev token_of : ℕ → Bytes → Option (Bytes × Bytes)
token_of d [] = none
token_of d (c ∷ t) = some (before d (c ∷ t), after d (c ∷ t))

-- More fuel than the length of the text gives the same words.
pub words-fuel : (d m n : ℕ) (s : Bytes) → length s ≤ m → length s ≤ n → words d m s ≡ words d n s
unfolding words strtok
words-fuel d zero n [] h k = sym (words-nil d n)
words-fuel d zero n (c ∷ s) h k = elim h [ ]
words-fuel d (suc m) zero [] h k = words-nil d (suc m)
words-fuel d (suc m) zero (c ∷ s) h k = elim k [ ]
words-fuel d (suc m) (suc n) s h k =
    go (skip_char d s) (length-skip_char d s) λ r. words-fuel d m n r
  where
    go :
        (t : Bytes)
        → length t ≤ length s
        → ((r : Bytes) → length r ≤ m → length r ≤ n → words d m r ≡ words d n r)
        → ◌≡◌ {A = List Bytes}
            (elim (token_of d t) [ none ↦ [] | some (word, rest) ↦ word ∷ words d m rest ])
            (elim (token_of d t) [ none ↦ [] | some (word, rest) ↦ word ∷ words d n rest ])
    go [] le ih = refl
    go (c ∷ t) le ih = ap (◌∷◌ (before d (c ∷ t))) (
        ih (after d (c ∷ t)) (omega (arith, length-after d c t, le, h))
          (omega (arith, length-after d c t, le, k)))
