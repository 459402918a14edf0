-- ===== src/Input/Whole.antt =====
-- src/tools/clu_funcs.c, `wolfCLU_getline` on a line of any length.
use wolf_clu.Base.{
  ℕ, zero, suc, ◌+◌, ◌-◌, ◌*◌, ◌≤◌, ◌<◌, Bool, true, false, [], ◌∷◌, ◌++◌, none, some, leb, length,
  length-append, length-take, length-drop, take, drop, take-append-drop, append_assoc, ◌≡◌, refl,
  ap, sym, ◌∙◌, arith, Bool-cases, inl, inr,
}
use native.Mathlib.Decide.{dec_lt}
use wolf_clu.Text.{Bytes}
use wolf_clu.Text.Lines.{
  get_line, get_line-append, get_line-long, lacks, lacks-append, lacks-take, lacks-drop,
  before-lacks,
}
use wolf_clu.Input.{
  max_entry_name, half_int_max, chop_newline, ReadLine, line, append_chunk, grow, getline_loop,
  getline,
}

chop_newline-append : (s : Bytes) → chop_newline (s ++ 10 ∷ []) ≡ some s
unfolding chop_newline
chop_newline-append [] = refl
chop_newline-append (c ∷ []) = refl
chop_newline-append (c ∷ d ∷ s) = rw (chop_newline-append (d ∷ s))

chop_newline-lacks : (s : Bytes) → lacks 10 s ≡ true → chop_newline s ≡ none
unfolding chop_newline
chop_newline-lacks [] h = refl
chop_newline-lacks (c ∷ []) h = ground (arith, h)
chop_newline-lacks (c ∷ d ∷ s) h = rw (chop_newline-lacks (d ∷ s) (ground (arith, h)))

module _ (realloc : ℕ → Bool) (grants : (n : ℕ) → realloc n ≡ true) where
  grow_room :
      (len used more : ℕ)
      → used < len
      → more < max_entry_name
      → max_entry_name ≤ len
      → used + more ≤ half_int_max
      → (len' : ℕ) × (grow realloc len used more ≡ some len')
        × (used + more < len')
        × (max_entry_name ≤ len')
  unfolding grow
  grow_room len used more a b c d = elim (Bool-cases (leb (len - used) more)) [
    | inl p ↦
        (2 * len, rw (p, grants (2 * len)) (ground (arith, p)), ground (arith, p), omega arith)
    | inr p ↦ (len, rw p, ground (arith, p), c)
  ]

  -- the round that finds the newline
  last_round :
      (more : ℕ → ReadLine) (len : ℕ) (buf l rest : Bytes)
      → length (buf ++ (l ++ 10 ∷ [])) < len
      → append_chunk more (some len) (buf ++ (l ++ 10 ∷ [])) rest ≡ line (buf ++ l) len rest
  unfolding append_chunk
  last_round more len buf l rest h =
      let stands : leb len (length (buf ++ (l ++ 10 ∷ []))) ≡ false = ground (arith, h) in
      rw (stands, sym (append_assoc buf l (10 ∷ [])), chop_newline-append (buf ++ l))

  -- a round that does not
  next_round :
      (more : ℕ → ReadLine) (len : ℕ) (whole rest : Bytes)
      → length whole < len
      → lacks 10 whole ≡ true
      → append_chunk more (some len) whole rest ≡ more len
  unfolding append_chunk
  next_round more len whole rest h k =
      let stands : leb len (length whole) ≡ false = ground (arith, h) in
      rw (stands, chop_newline-lacks whole k)

  -- One round, on a stream that is not empty and a chunk without a NUL.
  getline_loop-round :
      (fuel len : ℕ) (buf fp chunk rest : Bytes) (len' : ℕ)
      → 0 < length fp
      → get_line 63 fp ≡ (chunk, rest)
      → lacks 0 chunk ≡ true
      → grow realloc len (length buf) (length chunk) ≡ some len'
      → getline_loop realloc (suc fuel) buf len fp
        ≡ append_chunk
            (λ n. getline_loop realloc fuel (buf ++ chunk) n rest)
            (some len')
            (buf ++ chunk)
            rest
  unfolding getline_loop
  getline_loop-round fuel len buf [] chunk rest len' h p q r = elim h [ ]
  getline_loop-round fuel len buf (c ∷ fp) chunk rest len' h p q r =
      rw (p, before-lacks 0 chunk q, r)

  getline_loop-line :
      (fuel len : ℕ) (buf l rest : Bytes)
      → length l < fuel
      → length buf < len
      → max_entry_name ≤ len
      → length buf + length l < half_int_max
      → lacks 10 buf ≡ true
      → lacks 10 l ≡ true
      → lacks 0 l ≡ true
      → (n : ℕ) × (getline_loop realloc fuel buf len (l ++ 10 ∷ rest) ≡ line (buf ++ l) n rest)
  getline_loop-line zero len buf l rest h a b c e f g = elim h [ ]
  getline_loop-line (suc fuel) len buf l rest h a b c e f g = elim (dec_lt (length l) 63) [
    | yes p ↦
        let chunk = l ++ 10 ∷ [] in
        let size = length-append {0} l (10 ∷ []) in
        let (n, q, room, _) =
          grow_room len (length buf) (length chunk) a (omega (arith, p, size)) b
            (omega (arith, c, size)) in
        (
          n,
          getline_loop-round fuel len buf (l ++ 10 ∷ rest) chunk rest n
                (omega (arith, length-append {0} l (10 ∷ rest))) (get_line-append 63 l rest f p)
                (lacks-append 0 l (10 ∷ []) ∙ ground (arith, g)) q
              ∙ last_round (λ m. getline_loop realloc fuel (buf ++ chunk) m rest) n buf l rest
                  (omega (arith, room, length-append {0} buf chunk)),
        )
    | no p ↦
        let chunk = take 63 l in
        let left = drop 63 l in
        let size : length chunk ≡ 63 = length-take 63 l (omega (arith, p)) in
        let (n, q, room, b') =
          grow_room len (length buf) (length chunk) a (omega (arith, size)) b
            (omega (arith, c, size, p)) in
        let clean : lacks 10 (buf ++ chunk) ≡ true =
          lacks-append 10 buf chunk ∙ ground (arith, e, lacks-take 10 63 l f) in
        let stands : length (buf ++ chunk) < n = omega (arith, room, length-append {0} buf chunk) in
        let cut = length-drop {0} 63 l in
        let (m, r) =
          getline_loop-line fuel n (buf ++ chunk) left rest (omega (arith, cut, h, p)) stands b'
            (omega (arith, c, cut, size, p, length-append {0} buf chunk)) clean
            (lacks-drop 10 63 l f) (lacks-drop 0 63 l g) in
        let joined : (buf ++ chunk) ++ left ≡ buf ++ l =
          append_assoc buf chunk left ∙ ap (λ x. buf ++ x) (take-append-drop 63 l) in
        (
          m,
          getline_loop-round fuel len buf (l ++ 10 ∷ rest) chunk (left ++ 10 ∷ rest) n
                (omega (arith, length-append {0} l (10 ∷ rest)))
                (get_line-long 63 l (10 ∷ rest) f (omega (arith, p))) (lacks-take 0 63 l g) q
              ∙ next_round (λ k. getline_loop realloc fuel (buf ++ chunk) k (left ++ 10 ∷ rest)) n
                  (buf ++ chunk) (left ++ 10 ∷ rest) stands clean
              ∙ r
              ∙ ap (λ x. line x m rest) joined,
        )
  ]

-- A line of less than INT_MAX / 2 bytes, none of them a NUL, is returned whole, however many
-- rounds it takes, without its newline, and the stream is left behind it, if memory is granted.
pub getline-line :
    (realloc : ℕ → Bool) (l rest : Bytes)
    → ((n : ℕ) → realloc n ≡ true)
    → length l < half_int_max
    → lacks 10 l ≡ true
    → lacks 0 l ≡ true
    → (len : ℕ) × (getline realloc (l ++ 10 ∷ rest) ≡ line l len rest)
unfolding getline
getline-line realloc l rest grants h f g =
    getline_loop-line realloc grants (length (l ++ 10 ∷ rest) + 1) max_entry_name [] l rest
      (omega (arith, length-append {0} l (10 ∷ rest))) (omega arith) (omega arith)
      (omega (arith, h)) refl f g
