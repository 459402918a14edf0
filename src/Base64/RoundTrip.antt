-- ===== src/Base64/RoundTrip.antt =====
-- src/tools/clu_base64.c, a text that is encoded and decoded.
use wolf_clu.Base.{
  ℕ, ◌+◌, ◌*◌, ◌/◌, ◌≤◌, ◌<◌, true, false, List, [], ◌∷◌, none, some, ◌≡◌, refl, ap, ◌∙◌, arith,
  length, ltb,
}
use mathlib.Core.Option
use wolf_clu.Text.{Bytes, starts_with, bytes_eq}
use wolf_clu.Args.{Argv, Event, given, run_events, events}
use wolf_clu.Args.Loop.{option_loop-run_events}
use wolf_clu.Base64.{
  Base64Option, opt_infile, opt_decode, opt_outfile, Base64Api, Files, written, base64_options,
  base64_option, no_base64_locals, decoded_sz, is_pem, convert, write_output, read_input,
  conclude_sized, conclude_base64, base64_setup, is_among, is_readable, sword32_limit,
}

-- What is relied on of wolfSSL: an encoded text does not begin with '-', and is decoded to what was
-- encoded if the buffer has room for three quarters of it, rounded up.
pub record Decodes (api : Base64Api) : Type 0 where
  pub no_dash :
      (plain text : Bytes) → api.encode plain ≡ some text → starts_with text (b'-' ∷ []) ≡ false
  pub decodes :
      (plain text : Bytes) (room : ℕ)
      → api.encode plain ≡ some text
      → (length text * 3 + 3) / 4 ≤ room
      → api.decode room text ≡ some plain

bytes_eq_sym : (a b : Bytes) → bytes_eq b a ≡ bytes_eq a b
unfolding bytes_eq
bytes_eq_sym [] [] = refl
bytes_eq_sym [] (c ∷ b) = refl
bytes_eq_sym (c ∷ a) [] = refl
bytes_eq_sym (c ∷ a) (d ∷ b) = ground (arith, bytes_eq_sym a b)

decoded_sz-enough : (n : ℕ) → (n * 3 + 3) / 4 ≤ decoded_sz n
unfolding decoded_sz
decoded_sz-enough n = omega arith

no_dash_no_pem : (s : Bytes) → starts_with s (b'-' ∷ []) ≡ false → is_pem s ≡ false
unfolding is_pem starts_with
no_dash_no_pem [] h = refl
no_dash_no_pem (c ∷ s) h = ground (arith, h)

-- The events of `wolfssl base64 -in f -out g` and of `wolfssl base64 -in g -out f -d`.
abbrev pub encoding : Bytes → Bytes → List (Event Base64Option)
encoding f g = given opt_infile (some f) ∷ given opt_outfile (some g) ∷ []

abbrev pub decoding : Bytes → Bytes → List (Event Base64Option)
decoding g f = given opt_infile (some g) ∷ given opt_outfile (some f) ∷ given opt_decode none ∷ []

module _ (api : Base64Api) where
  convert-Decodes :
      (plain text : Bytes)
      → Decodes api
      → api.encode plain ≡ some text
      → convert api true text ≡ some plain
  unfolding convert
  convert-Decodes plain text law h =
      rw (no_dash_no_pem text (law.no_dash plain text h), convert)
        (law.decodes plain text (decoded_sz (length text)) h (decoded_sz-enough (length text)))

module _ (api : Base64Api) (files : Files) (stdin : Bytes) (argv : Argv) where
  base64_setup-run :
      (evs : List (Event Base64Option))
      → events argv 1 base64_options ≡ evs
      → base64_setup api files stdin argv
        ≡ some (
            conclude_base64 api files stdin (run_events (base64_option files) evs no_base64_locals))
  unfolding base64_setup
  base64_setup-run evs e =
      ap (Option.map (conclude_base64 api files stdin)) (
        option_loop-run_events (base64_option files) argv 1 base64_options
          (length base64_options + 1) 0 no_base64_locals (omega arith))
      ∙ ap
          (λ x.
            some (
              conclude_base64 api files stdin
                (run_events (base64_option files) x no_base64_locals)))
          e

  conclude-encoding :
      (f g plain : Bytes)
      → files.contents f ≡ some plain
      → files.can_write g ≡ true
      → bytes_eq f g ≡ false
      → length plain < sword32_limit
      → conclude_base64 api files stdin
          (run_events (base64_option files) (encoding f g) no_base64_locals)
        ≡ write_output api (some g) (api.encode plain)
  unfolding run_events base64_option convert read_input is_readable is_among conclude_sized
  conclude-encoding f g plain h k n l =
      let sized : ltb (length plain) sword32_limit ≡ true = ground (arith, l) in
      rw
        (
          is_readable, is_among, h, run_events, base64_option, k, run_events, conclude_sized,
          read_input, is_among, n, h, sized, convert,
        )
        refl

  conclude-decoding :
      (g f text : Bytes)
      → files.contents g ≡ some text
      → files.can_write f ≡ true
      → bytes_eq g f ≡ false
      → length text < sword32_limit
      → conclude_base64 api files stdin
          (run_events (base64_option files) (decoding g f) no_base64_locals)
        ≡ write_output api (some f) (convert api true text)
  unfolding run_events base64_option read_input is_readable is_among conclude_sized
  conclude-decoding g f text h k n l =
      let sized : ltb (length text) sword32_limit ≡ true = ground (arith, l) in
      rw
        (
          is_readable, is_among, h, run_events, base64_option, k, run_events, conclude_sized,
          read_input, is_among, n, h, sized,
        )
        refl

-- `wolfssl base64 -in f -out g` writes what `Base64_Encode` makes of the file f, and with this text in
-- the file g `wolfssl base64 -in g -out f -d` writes the bytes again, in a buffer of the size that the
-- code computes. The names f and g differ, the files can be opened, neither is empty or has 2^31 bytes
-- or more, and `Base64_Decode` undoes `Base64_Encode` if its buffer has three bytes for four.
pub base64_setup-decode :
    (api : Base64Api) (files files' : Files) (stdin : Bytes) (argv argv' : Argv) (f g : Bytes)
    (c d : ℕ) (plain text : Bytes)
    → Decodes api
    → bytes_eq f g ≡ false
    → length (c ∷ plain) < sword32_limit
    → length (d ∷ text) < sword32_limit
    → events argv 1 base64_options ≡ encoding f g
    → events argv' 1 base64_options ≡ decoding g f
    → files.contents f ≡ some (c ∷ plain)
    → files.can_write g ≡ true
    → api.encode (c ∷ plain) ≡ some (d ∷ text)
    → files'.contents g ≡ some (d ∷ text)
    → files'.can_write f ≡ true
    → (base64_setup api files stdin argv ≡ some (written (some g) (d ∷ text)))
      × (base64_setup api files' stdin argv' ≡ some (written (some f) (c ∷ plain)))
unfolding write_output
base64_setup-decode api files files' stdin argv argv' f g c d plain text law n l l' e e' h k t h'
      k' =
    (
      base64_setup-run api files stdin argv (encoding f g) e
          ∙ ap some (
              conclude-encoding api files stdin argv f g (c ∷ plain) h k n l
              ∙ ap (write_output api (some g)) t),
      base64_setup-run api files' stdin argv' (decoding g f) e'
          ∙ ap some (
              conclude-decoding api files' stdin argv' g f (d ∷ text) h' k' (bytes_eq_sym f g ∙ n)
                l'
              ∙ ap (write_output api (some f)) (convert-Decodes api (c ∷ plain) (d ∷ text) law t)),
    )
