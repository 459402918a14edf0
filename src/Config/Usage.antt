-- ===== src/Config/Usage.antt =====
-- src/x509/clu_config.c, `wolfCLU_parseKeyUsage` up to the extension, which wolfSSL makes of the flags.
-- Parameter: the constants KEYUSE_DIGITAL_SIG and so on.
use wolf_clu.Base.{
  ℕ, zero, suc, Bool, true, false, ◌||◌, List, [], ◌∷◌, ◌++◌, Option, none, some, ◌==◌,
  if◌then◌else◌, length, All, ◌≡◌, refl, ap, sym, ◌∙◌, arith,
}
use mathlib.Core.Path.{subst}
use wolf_clu.Text.{Bytes, codes, bytes_eq, skip_char}
use wolf_clu.Text.Lines.{lacks, join}
use wolf_clu.Text.Words.{words, words-join, IsWord}

pub data KeyUse : Type 0 where
  digital_sig content_commit key_encipher data_encipher key_agree key_cert_sign crl_sign
        encipher_only decipher_only :
      KeyUse

-- a `word16` by its bits
abbrev pub Bits : Type 0
Bits = ℕ → Bool

abbrev pub no_bits : Bits
no_bits i = false

-- the tests of a word; at most one holds
unfoldable pub usage_named : Bytes → Option KeyUse
usage_named word =
    if bytes_eq word (codes "digitalSignature")
    then some digital_sig
    else if bytes_eq word (codes "nonRepudiation") || bytes_eq word (codes "contentCommitment")
    then some content_commit
    else if bytes_eq word (codes "keyEncipherment")
    then some key_encipher
    else if bytes_eq word (codes "dataEncipherment")
    then some data_encipher
    else if bytes_eq word (codes "keyAgreement")
    then some key_agree
    else if bytes_eq word (codes "keyCertSign")
    then some key_cert_sign
    else if bytes_eq word (codes "cRLSign")
    then some crl_sign
    else if bytes_eq word (codes "encipherOnly")
    then some encipher_only
    else if bytes_eq word (codes "decipherOnly")
    then some decipher_only
    else none

module _ (keyuse : KeyUse → Bits) where
  -- `keyUseFlag |= ...`
  abbrev pub add_usage : Option KeyUse → Bits → Bits
  add_usage none flags = flags
  add_usage (some u) flags = λ i. flags i || keyuse u i

  -- the loop over the words
  unfoldable pub usage_words : List Bytes → Bits → Bits
  usage_words [] flags = flags
  usage_words (word ∷ rest) flags =
      usage_words rest (add_usage (usage_named (skip_char b' ' word)) flags)

  -- the flags of `wolfCLU_parseKeyUsage`
  unfoldable pub key_use_flag : Bytes → Bits
  key_use_flag str = usage_words (words b',' (length str) str) no_bits

-- A word of a list of usages: one of the names, or another word that is none of them.
pub data Word : Type 0 where
  digital_signature non_repudiation content_commitment key_encipherment data_encipherment
        key_agreement key_cert_sign_word crl_sign_word encipher_only_word decipher_only_word :
      Word
  other : Bytes → Word

-- How it is written.
abbrev pub text_of : Word → Bytes
text_of digital_signature = codes "digitalSignature"
text_of non_repudiation = codes "nonRepudiation"
text_of content_commitment = codes "contentCommitment"
text_of key_encipherment = codes "keyEncipherment"
text_of data_encipherment = codes "dataEncipherment"
text_of key_agreement = codes "keyAgreement"
text_of key_cert_sign_word = codes "keyCertSign"
text_of crl_sign_word = codes "cRLSign"
text_of encipher_only_word = codes "encipherOnly"
text_of decipher_only_word = codes "decipherOnly"
text_of (other word) = word

-- The usage that it means.
abbrev pub use_of : Word → Option KeyUse
use_of digital_signature = some digital_sig
use_of non_repudiation = some content_commit
use_of content_commitment = some content_commit
use_of key_encipherment = some key_encipher
use_of data_encipherment = some data_encipher
use_of key_agreement = some key_agree
use_of key_cert_sign_word = some key_cert_sign
use_of crl_sign_word = some crl_sign
use_of encipher_only_word = some encipher_only
use_of decipher_only_word = some decipher_only
use_of (other word) = none

abbrev pub all_names : List Bytes
all_names =
    codes "digitalSignature"
    ∷ codes "nonRepudiation"
    ∷ codes "contentCommitment"
    ∷ codes "keyEncipherment"
    ∷ codes "dataEncipherment"
    ∷ codes "keyAgreement"
    ∷ codes "keyCertSign"
    ∷ codes "cRLSign"
    ∷ codes "encipherOnly"
    ∷ codes "decipherOnly"
    ∷ []

-- Another word is none of the names, is not empty, begins with no space and has no comma.
abbrev pub Writable : Word → Type 0
Writable (other []) = ⊥
Writable (other (c ∷ word)) =
    ((c == b' ') ≡ false)
    × (lacks b',' (c ∷ word) ≡ true)
    × All (λ name. bytes_eq (c ∷ word) name ≡ false) all_names
Writable w = Unit

usage_named-text_of : (w : Word) → Writable w → usage_named (text_of w) ≡ use_of w
unfolding usage_named bytes_eq
usage_named-text_of digital_signature h = refl
usage_named-text_of non_repudiation h = refl
usage_named-text_of content_commitment h = refl
usage_named-text_of key_encipherment h = refl
usage_named-text_of data_encipherment h = refl
usage_named-text_of key_agreement h = refl
usage_named-text_of key_cert_sign_word h = refl
usage_named-text_of crl_sign_word h = refl
usage_named-text_of encipher_only_word h = refl
usage_named-text_of decipher_only_word h = refl
usage_named-text_of (other []) h = absurd h
usage_named-text_of (other (c ∷ word)) (p, l, (a, (b, (d, (e, (f, (g, (i, (j, (k, (m, n))))))))))) =
    rw (usage_named, a, b, d, e, f, g, i, j, k, m) refl

-- The text of a word has a first byte, which is no space, and no comma.
text_of-split :
    (w : Word)
    → Writable w
    → (c : ℕ) × (word : Bytes) × (text_of w ≡ c ∷ word)
      × ((c == b' ') ≡ false)
      × (lacks b',' (c ∷ word) ≡ true)
text_of-split digital_signature h = (_, _, refl, refl, refl)
text_of-split non_repudiation h = (_, _, refl, refl, refl)
text_of-split content_commitment h = (_, _, refl, refl, refl)
text_of-split key_encipherment h = (_, _, refl, refl, refl)
text_of-split data_encipherment h = (_, _, refl, refl, refl)
text_of-split key_agreement h = (_, _, refl, refl, refl)
text_of-split key_cert_sign_word h = (_, _, refl, refl, refl)
text_of-split crl_sign_word h = (_, _, refl, refl, refl)
text_of-split encipher_only_word h = (_, _, refl, refl, refl)
text_of-split decipher_only_word h = (_, _, refl, refl, refl)
text_of-split (other []) h = absurd h
text_of-split (other (c ∷ word)) (p, l, n) = (c, word, refl, p, l)

abbrev pub spaces : ℕ → Bytes
spaces zero = []
spaces (suc n) = b' ' ∷ spaces n

-- The words, each behind so many spaces.
abbrev pub spaced : List (ℕ × Word) → List Bytes
spaced [] = []
spaced ((n, w) ∷ rest) = (spaces n ++ text_of w) ∷ spaced rest

abbrev pub AllWritable : List (ℕ × Word) → Type 0
AllWritable [] = Unit
AllWritable ((n, w) ∷ rest) = Writable w × AllWritable rest

module _ (keyuse : KeyUse → Bits) where
  -- Whether a usage has a bit, and whether one of the usages that the words mean has it.
  abbrev pub has_bit : ℕ → Option KeyUse → Bool
  has_bit i none = false
  has_bit i (some u) = keyuse u i

  abbrev pub any_has_bit : ℕ → List (ℕ × Word) → Bool
  any_has_bit i [] = false
  any_has_bit i ((n, w) ∷ rest) = has_bit i (use_of w) || any_has_bit i rest

skip_char-spaces :
    (n c : ℕ) (word : Bytes)
    → (c == b' ') ≡ false
    → skip_char b' ' (spaces n ++ c ∷ word) ≡ c ∷ word
unfolding skip_char
skip_char-spaces zero c word h = rw (h) refl
skip_char-spaces (suc n) c word h = skip_char-spaces n c word h

spaces-IsWord :
    (n c : ℕ) (word : Bytes) → lacks b',' (c ∷ word) ≡ true → IsWord b',' (spaces n ++ c ∷ word)
spaces-IsWord zero c word h = (omega arith, h)
spaces-IsWord (suc n) c word h = (omega arith, (spaces-IsWord n c word h).1)

spaced-IsWord : (ws : List (ℕ × Word)) → AllWritable ws → All (IsWord b',') (spaced ws)
spaced-IsWord [] h = tt
spaced-IsWord ((n, w) ∷ ws) (h, hs) =
    let (c, word, e, p, l) = text_of-split w h in
    (
      subst (λ x. IsWord b',' (spaces n ++ x)) (sym e) (spaces-IsWord n c word l),
      spaced-IsWord ws hs,
    )

skip_char-word :
    (n : ℕ) (w : Word) → Writable w → skip_char b' ' (spaces n ++ text_of w) ≡ text_of w
skip_char-word n w h =
    let (c, word, e, p, l) = text_of-split w h in
    subst (λ x. skip_char b' ' (spaces n ++ x) ≡ x) (sym e) (skip_char-spaces n c word p)

add_usage-bit :
    (keyuse : KeyUse → Bits) (u : Option KeyUse) (flags : Bits) (i : ℕ) (more : Bool)
    → (add_usage keyuse u flags i || more) ≡ (flags i || (has_bit keyuse i u || more))
add_usage-bit keyuse none flags i more = refl
add_usage-bit keyuse (some u) flags i more = ground arith

usage_words-spaced :
    (keyuse : KeyUse → Bits) (ws : List (ℕ × Word)) (flags : Bits) (i : ℕ)
    → AllWritable ws
    → usage_words keyuse (spaced ws) flags i ≡ (flags i || any_has_bit keyuse i ws)
unfolding usage_words
usage_words-spaced keyuse [] flags i h = ground arith
usage_words-spaced keyuse ((n, w) ∷ ws) flags i (h, hs) =
    rw (skip_char-word n w h, usage_named-text_of w h, usage_words)
      (usage_words-spaced keyuse ws (add_usage keyuse (use_of w) flags) i hs
        ∙ add_usage-bit keyuse (use_of w) flags i (any_has_bit keyuse i ws))

-- `wolfCLU_parseKeyUsage` on words with commas between them, and spaces in front of them, sets the bits
-- of the usages that the words mean, whatever their order, and no others: each of the ten names means
-- its usage, "nonRepudiation" and "contentCommitment" the same one, and another word none. No other word
-- is empty, has a comma or begins with a space.
pub key_use_flag-spaced :
    (keyuse : KeyUse → Bits) (ws : List (ℕ × Word)) (i : ℕ)
    → AllWritable ws
    → key_use_flag keyuse (join b',' (spaced ws)) i ≡ any_has_bit keyuse i ws
unfolding key_use_flag
key_use_flag-spaced keyuse ws i h =
    ap (λ x. usage_words keyuse x no_bits i)
      (words-join b',' (length (join b',' (spaced ws))) (spaced ws) (spaced-IsWord ws h)
        (omega arith))
    ∙ usage_words-spaced keyuse ws no_bits i h
