-- ===== src/Text/Lines.antt =====
-- `fgets`, and the fields that `strsep` cuts.
use wolf_clu.Base.{
  ℕ, zero, suc, ◌-◌, ◌≤◌, ◌<◌, Bool, true, false, not, ◌&&◌, List, [], ◌∷◌, ◌++◌, ◌==◌, ◌≡◌, refl,
  ap, ◌∙◌, arith, if◌then◌else◌, length, length-append, take, drop, Bool-cases, inl, inr,
}
use wolf_clu.Text.{Bytes, before}

-- What one `fgets` with room for `n` bytes takes, the newline included, and what is left.
unfoldable pub get_line : ℕ → Bytes → Bytes × Bytes
get_line zero s = ([], s)
get_line (suc n) [] = ([], [])
get_line (suc n) (c ∷ s) =
    let (l, rest) = get_line n s in if c == 10 then (c ∷ [], s) else (c ∷ l, rest)

-- `while (fgets(line, size, f) != NULL)`: the lines that the loop sees, on fuel. `fgets` reads
-- `size - 1` bytes at most, and returns NULL at the end of the file.
unfoldable pub read_lines : ℕ → ℕ → Bytes → List Bytes
read_lines zero size s = []
read_lines (suc fuel) size [] = []
read_lines (suc fuel) size (c ∷ s) =
    let (l, rest) = get_line (size - 1) (c ∷ s) in l ∷ read_lines fuel size rest

-- a byte in front of the first field
abbrev onto_first : ℕ → List Bytes → List Bytes
onto_first c [] = (c ∷ []) ∷ []
onto_first c (f ∷ fs) = (c ∷ f) ∷ fs

-- `strsep(&p, d)` until it returns NULL: there is always a first field.
unfoldable pub fields : ℕ → Bytes → List Bytes
fields d [] = [] ∷ []
fields d (c ∷ s) = let rest = fields d s in if c == d then [] ∷ rest else onto_first c rest

-- No byte of the text is `d`.
abbrev pub lacks : ℕ → Bytes → Bool
lacks d [] = true
lacks d (c ∷ s) = not (c == d) && lacks d s

pub lacks-append : (d : ℕ) (s t : Bytes) → lacks d (s ++ t) ≡ (lacks d s && lacks d t)
lacks-append d [] t = refl
lacks-append d (c ∷ s) t = ground (arith, lacks-append d s t)

-- A line without a newline of its own is read whole, with the newline behind it.
pub get_line-append :
    (n : ℕ) (l rest : Bytes)
    → lacks 10 l ≡ true
    → length l < n
    → get_line n (l ++ 10 ∷ rest) ≡ (l ++ 10 ∷ [], rest)
unfolding get_line
get_line-append zero l rest h k = elim k [ ]
get_line-append (suc n) [] rest h k = refl
get_line-append (suc n) (c ∷ l) rest h k =
    rw (get_line-append n l rest (ground (arith, h)) (omega arith)) (ground (arith, h))

pub get_line-length : (n : ℕ) (s : Bytes) → length (get_line n s).0 ≤ n
unfolding get_line
get_line-length zero s = omega arith
get_line-length (suc n) [] = omega arith
get_line-length (suc n) (c ∷ s) = ground (arith, get_line-length n s)

pub get_line-split : (n : ℕ) (s : Bytes) → (get_line n s).0 ++ (get_line n s).1 ≡ s
unfolding get_line
get_line-split zero s = refl
get_line-split (suc n) [] = refl
get_line-split (suc n) (c ∷ s) = elim (Bool-cases (c == 10)) [
  | inl p ↦ rw p
  | inr p ↦ rw p (ap (◌∷◌ c) (get_line-split n s))
]

-- A field without a delimiter is cut off whole.
pub fields-cons : (d : ℕ) (f s : Bytes) → lacks d f ≡ true → fields d (f ++ d ∷ s) ≡ f ∷ fields d s
unfolding fields
fields-cons d [] s h = ground arith
fields-cons d (c ∷ f) s h = rw (fields-cons d f s (ground (arith, h))) (ground (arith, h))

pub fields_last : (d : ℕ) (f : Bytes) → lacks d f ≡ true → fields d f ≡ f ∷ []
unfolding fields
fields_last d [] h = refl
fields_last d (c ∷ f) h = rw (fields_last d f (ground (arith, h))) (ground (arith, h))

-- the fields with `d` between them
abbrev pub join : ℕ → List Bytes → Bytes
join d [] = []
join d (f ∷ []) = f
join d (f ∷ g ∷ fs) = f ++ d ∷ join d (g ∷ fs)

abbrev pub all_lack : ℕ → List Bytes → Bool
all_lack d [] = true
all_lack d (f ∷ fs) = lacks d f && all_lack d fs

pub fields-join :
    (d : ℕ) (f : Bytes) (fs : List Bytes)
    → all_lack d (f ∷ fs) ≡ true
    → fields d (join d (f ∷ fs)) ≡ f ∷ fs
fields-join d f [] h = fields_last d f (ground (arith, h))
fields-join d f (g ∷ fs) h =
    fields-cons d f (join d (g ∷ fs)) (ground (arith, h))
    ∙ ap (◌∷◌ f) (fields-join d g fs (ground (arith, h)))

pub lacks-join :
    (d e : ℕ) (fs : List Bytes)
    → all_lack e fs ≡ true
    → (d == e) ≡ false
    → lacks e (join d fs) ≡ true
lacks-join d e [] h k = refl
lacks-join d e (f ∷ []) h k = ground (arith, h)
lacks-join d e (f ∷ g ∷ fs) h k =
    lacks-append e f (d ∷ join d (g ∷ fs)) ∙ ground (arith, h, k, lacks-join d e (g ∷ fs))

-- The loop reads a line of its own, if it fits, in one call.
pub read_lines-line :
    (fuel size : ℕ) (l rest : Bytes)
    → lacks 10 l ≡ true
    → length l < size - 1
    → read_lines (suc fuel) size (l ++ 10 ∷ rest) ≡ (l ++ 10 ∷ []) ∷ read_lines fuel size rest
unfolding read_lines
read_lines-line fuel size [] rest h k = rw (get_line-append (size - 1) [] rest h k)
read_lines-line fuel size (c ∷ l) rest h k = rw (get_line-append (size - 1) (c ∷ l) rest h k)

pub before-lacks : (d : ℕ) (s : Bytes) → lacks d s ≡ true → before d s ≡ s
unfolding before
before-lacks d [] h = refl
before-lacks d (c ∷ s) h = rw (before-lacks d s (ground (arith, h))) (ground (arith, h))

-- A call with room for a byte takes one at least.
pub get_line-rest : (n c : ℕ) (s : Bytes) → length (get_line (suc n) (c ∷ s)).1 ≤ length s
unfolding get_line
get_line-rest n c s =
    let whole = get_line-split n s in
    let parts = length-append {0} (get_line n s).0 (get_line n s).1 in
    elim (Bool-cases (c == 10)) [
      | inl p ↦ rw p (omega arith)
      | inr p ↦ rw p (omega (arith, parts, ap length whole))
    ]

-- A line that is longer than the room is cut.
pub get_line-long :
    (n : ℕ) (l rest : Bytes)
    → lacks 10 l ≡ true
    → n ≤ length l
    → get_line n (l ++ rest) ≡ (take n l, drop n l ++ rest)
unfolding get_line
get_line-long zero l rest h k = refl
get_line-long (suc n) [] rest h k = elim k [ ]
get_line-long (suc n) (c ∷ l) rest h k =
    rw (get_line-long n l rest (ground (arith, h)) (omega arith)) (ground (arith, h))

pub lacks-take : (d n : ℕ) (s : Bytes) → lacks d s ≡ true → lacks d (take n s) ≡ true
lacks-take d zero s h = refl
lacks-take d (suc n) [] h = refl
lacks-take d (suc n) (c ∷ s) h = ground (arith, h, lacks-take d n s)

pub lacks-drop : (d n : ℕ) (s : Bytes) → lacks d s ≡ true → lacks d (drop n s) ≡ true
lacks-drop d zero s h = h
lacks-drop d (suc n) [] h = refl
lacks-drop d (suc n) (c ∷ s) h = lacks-drop d n s (ground (arith, h))
