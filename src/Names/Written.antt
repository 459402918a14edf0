-- ===== src/Names/Written.antt =====
-- src/tools/clu_funcs.c, `wolfCLU_ParseX509NameString`: a name that is written out.
use wolf_clu.Base.{
  ℕ, zero, suc, ◌+◌, ◌≤◌, ◌<◌, true, false, ◌||◌, List, [], ◌∷◌, ◌++◌, none, some, ◌==◌, ltb,
  length, length-append, pos, ◌≡◌, refl, ◌∙◌, arith,
}
use wolf_clu.Text.{Bytes, before, after, skip_char, strtok}
use wolf_clu.Text.Lines.{lacks, lacks-append}
use wolf_clu.Names.{
  NameApi, Encoding, utf8, parsed, value_of, add_name_entry, tag_nid, encoding_for, parse_word,
  name_loop, parse_x509_name_string,
}

-- A tag of one to four bytes, and a value.
pub record Entry : Type 0 where
  pub tag : Bytes
  pub value : Bytes

abbrev pub Writable : Entry → Type 0
Writable e =
    (0 < length e.tag)
    × (length e.tag ≤ 4)
    × (lacks b'=' e.tag ≡ true)
    × (lacks b'/' e.tag ≡ true)
    × (lacks b'/' e.value ≡ true)

abbrev pub AllWritable : List Entry → Type 0
AllWritable [] = Unit
AllWritable (e ∷ es) = Writable e × AllWritable es

-- The text "/CN=name/C=company".
abbrev pub write_name : List Entry → Bytes
write_name [] = []
write_name (e ∷ es) = b'/' ∷ (e.tag ++ b'=' ∷ e.value) ++ write_name es

-- The name with the entries added in order, each in the encoding that `encoding_for` gives it.
abbrev pub add_all : (api : NameApi) → Encoding → api.Name → List Entry → api.Name
add_all api encoding name [] = name
add_all api encoding name (e ∷ es) =
    let next = encoding_for api (tag_nid api e.tag) encoding in
    add_all api next (add_name_entry api next (tag_nid api e.tag) (some e.value) name) es

abbrev word : Entry → Bytes
word e = e.tag ++ b'=' ∷ e.value

-- The text is empty or begins with the byte.
abbrev Ends : ℕ → Bytes → Type 0
Ends d [] = Unit
Ends d (c ∷ s) = (c == d) ≡ true

-- What is left of a name behind its first slash.
abbrev behind_slash : List Entry → Bytes
behind_slash [] = []
behind_slash (e ∷ es) = word e ++ write_name es

before-word : (d : ℕ) (w s : Bytes) → lacks d w ≡ true → Ends d s → before d (w ++ s) ≡ w
unfolding before
before-word d [] [] h e = refl
before-word d [] (c ∷ s) h e = ground (arith, e)
before-word d (c ∷ w) s h e = rw (before-word d w s (ground (arith, h)) e) (ground (arith, h))

write_name-Ends : (es : List Entry) → Ends b'/' (write_name es)
write_name-Ends [] = tt
write_name-Ends (e ∷ es) = refl

after-word :
    (w : Bytes) (es : List Entry)
    → lacks b'/' w ≡ true
    → after b'/' (w ++ write_name es) ≡ behind_slash es
unfolding after
after-word [] [] h = refl
after-word [] (e ∷ es) h = refl
after-word (c ∷ w) es h = rw (after-word w es (ground (arith, h))) (ground (arith, h))

strtok-word :
    (c : ℕ) (w : Bytes) (es : List Entry)
    → lacks b'/' (c ∷ w) ≡ true
    → strtok b'/' (c ∷ w ++ write_name es) ≡ some (c ∷ w, behind_slash es)
unfolding strtok skip_char
strtok-word c w es h =
    let other : (c == b'/') ≡ false = ground (arith, h) in
    rw (
      other,
      strtok,
      skip_char,
      before-word b'/' (c ∷ w) (write_name es) h (write_name-Ends es),
      after-word (c ∷ w) es h,
    )

value_of-word :
    (tag value : Bytes) → lacks b'=' tag ≡ true → value_of (tag ++ b'=' ∷ value) ≡ some value
unfolding value_of
value_of-word [] value h = refl
value_of-word (c ∷ tag) value h =
    rw (value_of-word tag value (ground (arith, h))) (ground (arith, h))

length-word : (e : Entry) → length (word e) ≡ length e.tag + 1 + length e.value
length-word e = omega (arith, length-append {0} e.tag (b'=' ∷ e.value))

strtok-nil : strtok b'/' [] ≡ none
unfolding strtok skip_char
strtok-nil = refl

strtok-entry :
    (e : Entry) (es : List Entry)
    → Writable e
    → strtok b'/' (word e ++ write_name es) ≡ some (word e, behind_slash es)
strtok-entry e es (a, b, c, h, k) = go e.tag a h
  where
    go :
        (tag : Bytes)
        → 0 < length tag
        → lacks b'/' tag ≡ true
        → strtok b'/' ((tag ++ b'=' ∷ e.value) ++ write_name es)
          ≡ some (tag ++ b'=' ∷ e.value, behind_slash es)
    go [] a h = elim a [ ]
    go (x ∷ tag) a h =
        strtok-word x (tag ++ b'=' ∷ e.value) es
          (lacks-append b'/' (x ∷ tag) (b'=' ∷ e.value) ∙ ground (arith, h, k))

module _ (api : NameApi) where
  parse_word-entry :
      (n_sz : ℕ) (e : Entry) (encoding : Encoding) (name : api.Name)
      → Writable e
      → length (word e) ≤ n_sz
      → parse_word api n_sz (word e) encoding name
        ≡ some (
          encoding_for api (tag_nid api e.tag) encoding,
          add_name_entry api
              (encoding_for api (tag_nid api e.tag) encoding)
              (tag_nid api e.tag)
              (some e.value)
              name,
        )
  unfolding parse_word
  parse_word-entry n_sz e encoding name (a, b, c, h, k) s =
      let n = length-word e in
      let fits : (length e.tag == 0 || ltb 5 (length e.tag + 1) || ltb n_sz (length e.tag + 1))
          ≡ false =
        ground (arith, a, b, s, n) in
      rw (
        parse_word,
        value_of-word e.tag e.value c,
        before-word b'=' e.tag (b'=' ∷ e.value) c refl,
        fits,
      )

  name_loop-add_all :
      (fuel n_sz : ℕ) (encoding : Encoding) (name : api.Name) (es : List Entry)
      → AllWritable es
      → length (behind_slash es) < fuel
      → length (behind_slash es) ≤ n_sz
      → name_loop api fuel n_sz encoding name (behind_slash es)
        ≡ parsed (add_all api encoding name es)
  unfolding name_loop
  name_loop-add_all zero n_sz encoding name es w f g = elim f [ ]
  name_loop-add_all (suc fuel) n_sz encoding name [] w f g = rw (strtok-nil, name_loop)
  name_loop-add_all (suc fuel) n_sz encoding name (e ∷ es) (w, ws) f g =
      let n = length-append {0} (word e) (write_name es) in
      let m = length-word e in
      let next = encoding_for api (tag_nid api e.tag) encoding in
      let shorter = behind_slash-shorter es in
      rw
        (
          strtok-entry e es w,
          name_loop,
          parse_word-entry n_sz e encoding name w (omega (arith, n, g)),
        )
        (name_loop-add_all fuel n_sz next
          (add_name_entry api next (tag_nid api e.tag) (some e.value) name) es ws
          (omega (arith, n, m, f, shorter)) (omega (arith, n, g, shorter)))
    where
      behind_slash-shorter : (es : List Entry) → length (behind_slash es) ≤ length (write_name es)
      behind_slash-shorter [] = omega arith
      behind_slash-shorter (e ∷ es) = omega arith

  name_loop-slash :
      (fuel n_sz : ℕ) (encoding : Encoding) (name : api.Name) (s : Bytes)
      → 0 < fuel
      → name_loop api fuel n_sz encoding name (b'/' ∷ s) ≡ name_loop api fuel n_sz encoding name s
  unfolding name_loop strtok skip_char
  name_loop-slash zero n_sz encoding name s h = elim h [ ]
  name_loop-slash (suc fuel) n_sz encoding name s h = refl

-- `wolfCLU_ParseX509NameString` reads a name that is written as "/CN=name/C=company" back: it returns,
-- with the entries added in their order, if each tag has one to four bytes, no tag has a '=' or a
-- slash in it and no value a slash. The first tag of a country makes that entry and all behind it
-- PrintableStrings; those in front of it are UTF-8.
pub parse_x509_name_string-write_name :
    (api : NameApi) (e : Entry) (es : List Entry)
    → AllWritable (e ∷ es)
    → parse_x509_name_string api (some (write_name (e ∷ es))) (pos (length (write_name (e ∷ es))))
      ≡ parsed (add_all api utf8 api.new_name (e ∷ es))
unfolding parse_x509_name_string
parse_x509_name_string-write_name api e es w =
    let fuel = length (write_name (e ∷ es)) + 1 in
    name_loop-slash api fuel (length (write_name (e ∷ es))) utf8 api.new_name
      (behind_slash (e ∷ es)) (omega arith)
    ∙ name_loop-add_all api fuel (length (write_name (e ∷ es))) utf8 api.new_name (e ∷ es) w
        (omega arith) (omega arith)
