-- ===== src/Input/Password.antt =====
-- src/tools/clu_funcs.c, `wolfCLU_GetPassword` and `wolfCLU_GetStdinPassword` on the sources of a
-- password.
use wolf_clu.Base.{
  ℕ, zero, suc, ◌+◌, ◌<◌, true, false, ◌||◌, [], ◌∷◌, ◌++◌, some, length, length-append, take_all,
  ◌==◌, ◌≡◌, refl, ap, sym, ◌∙◌, arith, append_assoc,
}
use wolf_clu.Base.Result.{ok}
use wolf_clu.Text.{Bytes, codes, before, starts_with}
use wolf_clu.Text.Lines.{get_line, get_line-append, lacks, lacks-append, before-lacks}
use wolf_clu.Text.Words.{before-append}
use wolf_clu.Input.{
  before_line_end, has_crlf, chop_line_end, fgets, get_password, get_stdin_password,
}

has_crlf-lacks : (s : Bytes) → lacks 13 s ≡ true → has_crlf s ≡ false
unfolding has_crlf starts_with
has_crlf-lacks [] h = refl
has_crlf-lacks (c ∷ s) h = rw (has_crlf-lacks s (ground (arith, h))) (ground (arith, h))

has_crlf-append : (l : Bytes) → has_crlf (l ++ 13 ∷ 10 ∷ []) ≡ true
unfolding has_crlf starts_with
has_crlf-append [] = refl
has_crlf-append (c ∷ l) = rw (has_crlf-append l) (ground arith)

before_line_end-append :
    (d : ℕ) (l s : Bytes)
    → (d == 13 || d == 10) ≡ true
    → lacks 10 l ≡ true
    → lacks 13 l ≡ true
    → before_line_end (l ++ d ∷ s) ≡ l
unfolding before_line_end
before_line_end-append d [] s e h k = rw e
before_line_end-append d (c ∷ l) s e h k =
    rw (before_line_end-append d l s e (ground (arith, h)) (ground (arith, k)))
      (ground (arith, h, k))

-- `fgets` of a line that fits
fgets-append :
    (n : ℕ) (l rest : Bytes)
    → length l + 1 < n
    → lacks 10 l ≡ true
    → lacks 0 l ≡ true
    → fgets n (l ++ 10 ∷ rest) ≡ some (l ++ 10 ∷ [], rest)
unfolding fgets before get_line
fgets-append zero l rest h a b = elim h [ ]
fgets-append (suc zero) l rest h a b = absurd (omega (arith, h))
fgets-append (suc (suc n)) [] rest h a b = refl
fgets-append (suc (suc n)) (c ∷ l) rest h a b = rw (
  get_line-append (suc n) (c ∷ l) rest a (omega (arith, h)),
  before-lacks 0 (c ∷ l ++ 10 ∷ []) (lacks-append 0 (c ∷ l) (10 ∷ []) ∙ ground (arith, b)),
)

chop_line_end-lf :
    (l : Bytes) → lacks 10 l ≡ true → lacks 13 l ≡ true → chop_line_end (l ++ 10 ∷ []) ≡ l
unfolding chop_line_end
chop_line_end-lf l h k =
    rw (has_crlf-lacks (l ++ 10 ∷ []) (lacks-append 13 l (10 ∷ []) ∙ ground (arith, k)))
      (before-append 10 l [] h)

chop_line_end-crlf :
    (l : Bytes) → lacks 10 l ≡ true → lacks 13 l ≡ true → chop_line_end (l ++ 13 ∷ 10 ∷ []) ≡ l
unfolding chop_line_end
chop_line_end-crlf l h k =
    rw (has_crlf-append l, before_line_end-append 13 l (10 ∷ []) refl h k) (before-lacks 10 l h)

fgets-crlf :
    (n : ℕ) (l rest : Bytes)
    → length l + 2 < n
    → lacks 10 l ≡ true
    → lacks 0 l ≡ true
    → fgets n (l ++ 13 ∷ 10 ∷ rest) ≡ some (l ++ 13 ∷ 10 ∷ [], rest)
fgets-crlf n l rest h a b =
    let size = length-append {0} l (13 ∷ []) in
    ap (fgets n) (sym (append_assoc l (13 ∷ []) (10 ∷ rest)))
    ∙ fgets-append n (l ++ 13 ∷ []) rest (omega (arith, size, h))
        (lacks-append 10 l (13 ∷ []) ∙ ground (arith, a))
        (lacks-append 0 l (13 ∷ []) ∙ ground (arith, b))
    ∙ ap (λ x. some (x, rest)) (append_assoc l (13 ∷ []) (10 ∷ []))

-- A password that is short enough for the buffer, without a line end or a NUL, is the same from each
-- of its sources: a line of the standard input that ends in a newline, or in a carriage return and a
-- newline, with and without the echo, and the text behind "pass:".
pub get_password-sources :
    (n : ℕ) (l rest : Bytes)
    → length l + 2 < n
    → lacks 10 l ≡ true
    → lacks 13 l ≡ true
    → lacks 0 l ≡ true
    → (get_password n (codes "stdin") (l ++ 10 ∷ rest) ≡ ok (l, rest))
      × (get_password n (codes "stdin") (l ++ 13 ∷ 10 ∷ rest) ≡ ok (l, rest))
      × (get_password n (codes "pass:" ++ l) rest ≡ ok (l, rest))
      × (get_stdin_password true n (l ++ 10 ∷ rest) ≡ (ok l, rest))
      × (get_stdin_password true n (l ++ 13 ∷ 10 ∷ rest) ≡ (ok l, rest))
unfolding get_password get_stdin_password starts_with
get_password-sources zero l rest h lf cr nul = elim h [ ]
get_password-sources (suc n) l rest h lf cr nul =
    let line = fgets-append (suc n) l rest (omega (arith, h)) lf nul in
    let line' = fgets-crlf (suc n) l rest h lf nul in
    (
      rw (line, chop_line_end-lf l lf cr),
      rw (line', chop_line_end-crlf l lf cr),
      rw (take_all l n (omega (arith, h))),
      rw (line, get_stdin_password, before_line_end-append 10 l [] refl lf cr),
      rw (line', get_stdin_password, before_line_end-append 13 l (10 ∷ []) refl lf cr),
    )
