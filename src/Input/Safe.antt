-- ===== src/Input/Safe.antt =====
-- src/tools/clu_funcs.c, `wolfCLU_getline` on any stream and any allocator.
use wolf_clu.Base.{
  ℕ, zero, suc, ◌+◌, ◌-◌, ◌*◌, ◌≤◌, ◌<◌, Bool, false, [], ◌∷◌, ◌++◌, Option, none, some, leb,
  length, length-append, ◌≡◌, refl, arith, Option-cases, inl, inr,
}
use mathlib.Core.Path.{subst}
use wolf_clu.Text.{Bytes, before}
use wolf_clu.Text.Lines.{get_line, get_line-length, get_line-rest}
use wolf_clu.Input.{
  max_entry_name, half_int_max, chop_newline, ReadLine, line, no_line, append_chunk, grow,
  getline_loop, getline,
}

-- A line stands in its buffer with the NUL behind it, and the buffer's size is an `int`; or the
-- code gives up with an error. There is no write outside of the buffer.
pub data Safe : ReadLine → Type 0 where
  fits :
      (text : Bytes) (len : ℕ) (rest : Bytes)
      → length text < len
      → len ≤ 2 * half_int_max
      → Safe (line text len rest)
  gives_up : (rest : Bytes) → Safe (no_line rest)

length-before : (d : ℕ) (s : Bytes) → length (before d s) ≤ length s
unfolding before
length-before d [] = omega arith
length-before d (c ∷ s) = ground (arith, length-before d s)

length-chop_newline : (s t : Bytes) → chop_newline s ≡ some t → length t < length s
unfolding chop_newline
length-chop_newline [] t h = absurd (ground (arith, h))
length-chop_newline (c ∷ []) t h = ground (arith, h)
length-chop_newline (c ∷ d ∷ s) t h = elim (Option-cases (chop_newline (d ∷ s))) [
  | inl p ↦ absurd (ground (arith, h, p))
  | inr (u, p) ↦
      let le = length-chop_newline (d ∷ s) u p in
      let same : c ∷ u ≡ t = ground (arith, h, p) in
      subst (λ x. length x < length (c ∷ d ∷ s)) same (omega (arith, le))
]

append_chunk-Safe :
    (more : ℕ → ReadLine) (g : Option ℕ) (whole rest : Bytes)
    → ((len : ℕ) → g ≡ some len → (length whole < len) × (len ≤ 2 * half_int_max) × Safe (more len))
    → Safe (append_chunk more g whole rest)
unfolding append_chunk
append_chunk-Safe more none whole rest h = gives_up rest
append_chunk-Safe more (some len) whole rest h =
    let (room, small, next) = h len refl in
    let stands : leb len (length whole) ≡ false = ground (arith, room) in
    elim (Option-cases (chop_newline whole)) [
      | inl p ↦ rw (stands, p) next
      | inr (text, p) ↦
          rw (stands, p)
            (fits text len rest (omega (arith, length-chop_newline whole text p, room)) small)
    ]

module _ (realloc : ℕ → Bool) where
  grow-fits :
      (len used more len' : ℕ)
      → used < len
      → more < max_entry_name
      → max_entry_name ≤ len
      → len ≤ 2 * half_int_max
      → grow realloc len used more ≡ some len'
      → (used + more < len') × (max_entry_name ≤ len') × (len' ≤ 2 * half_int_max)
  unfolding grow
  grow-fits len used more len' a b c d h = ground (arith, h)

  getline_loop-Safe :
      (fuel : ℕ) (buf : Bytes) (len : ℕ) (fp : Bytes)
      → length fp < fuel
      → length buf < len
      → max_entry_name ≤ len
      → len ≤ 2 * half_int_max
      → Safe (getline_loop realloc fuel buf len fp)
  unfolding getline_loop
  getline_loop-Safe zero buf len fp h a b c = elim h [ ]
  getline_loop-Safe (suc fuel) buf len [] h a b c = fits buf len [] a c
  getline_loop-Safe (suc fuel) buf len (d ∷ fp) h a b c =
      let chunk = before 0 (get_line (max_entry_name - 1) (d ∷ fp)).0 in
      let rest = (get_line (max_entry_name - 1) (d ∷ fp)).1 in
      let left = get_line-rest 62 d fp in
      let short = length-before 0 (get_line 63 (d ∷ fp)).0 in
      let small : length chunk < max_entry_name =
        omega (arith, short, get_line-length 63 (d ∷ fp)) in
      append_chunk-Safe (λ len'. getline_loop realloc fuel (buf ++ chunk) len' rest)
        (grow realloc len (length buf) (length chunk)) (buf ++ chunk) rest
        λ len' p.
          let (room, b', c') = grow-fits len (length buf) (length chunk) len' a small b c p in
          let stands : length (buf ++ chunk) < len' =
            omega (arith, length-append {0} buf chunk, room) in
          (
            stands,
            c',
            getline_loop-Safe fuel (buf ++ chunk) len' rest (omega (arith, left, h)) stands b' c',
          )

-- `wolfCLU_getline` returns, whatever the stream and whichever sizes `realloc` grants: with a line
-- that stands in its buffer with the NUL behind it, the buffer's size an `int`, or with an error.
-- It never writes past the end of the buffer.
pub getline-Safe : (realloc : ℕ → Bool) (fp : Bytes) → Safe (getline realloc fp)
unfolding getline
getline-Safe realloc fp =
    getline_loop-Safe realloc (length fp + 1) [] max_entry_name fp (omega arith) (omega arith)
      (omega arith) (omega arith)
