-- ===== src/Tests/Base64.antt =====
-- A file that is encoded into another, and back.
use wolf_clu.Base.{
  ℕ, ◌+◌, ◌*◌, ◌/◌, ◌≤◌, length, ltb, if◌then◌else◌, true, false, [], ◌∷◌, Option, none, some, ◌≡◌,
  refl, arith,
}
use mathlib.Core.Path.{subst}
use wolf_clu.Text.{Bytes, codes, strncmp_eq, starts_with, bytes_eq}
use wolf_clu.Args.{Argv, events, entry_event, check_for_arg, check_from, is_help_like, is_match}
use wolf_clu.Base64.{Base64Api, Files, written, base64_setup}
use wolf_clu.Base64.RoundTrip.{Decodes, base64_setup-decode}

-- Nothing is decoded without room for three bytes for four.
unfoldable behind_first : ℕ → Bytes → Option Bytes
behind_first room [] = none
behind_first room (c ∷ s) = if ltb room ((length (c ∷ s) * 3 + 3) / 4) then none else some s

abbrev marked : Base64Api
marked = record {
  encode = λ plain. some (b'A' ∷ plain);
  decode = behind_first;
  pem_to_der = λ type s. none;
}

marked_text : (plain text : Bytes) → marked.encode plain ≡ some text → b'A' ∷ plain ≡ text
marked_text plain text h = ground (arith, h)

roomy :
    (plain : Bytes) (room : ℕ)
    → (length (b'A' ∷ plain) * 3 + 3) / 4 ≤ room
    → behind_first room (b'A' ∷ plain) ≡ some plain
unfolding behind_first
roomy plain room k =
    let enough : ltb room ((length (b'A' ∷ plain) * 3 + 3) / 4) ≡ false = ground (arith, k) in
    rw enough refl

marked-Decodes : Decodes marked
unfolding behind_first starts_with
marked-Decodes = record {
  no_dash = λ plain text h.
      subst (λ t. starts_with t (b'-' ∷ []) ≡ false) (marked_text plain text h) refl;
  decodes = λ plain text room h k.
      subst (λ t. (length t * 3 + 3) / 4 ≤ room → behind_first room t ≡ some plain)
        (marked_text plain text h) (roomy plain room) k;
}

abbrev one_file : Bytes → Files
one_file s = record { contents = λ name. some s; can_write = λ name. true }

abbrev encode_argv : Argv
encode_argv =
    some (codes "wolfssl")
    ∷ some (codes "base64")
    ∷ some (codes "-in")
    ∷ some (codes "f")
    ∷ some (codes "-out")
    ∷ some (codes "g")
    ∷ []

abbrev decode_argv : Argv
decode_argv =
    some (codes "wolfssl")
    ∷ some (codes "base64")
    ∷ some (codes "-in")
    ∷ some (codes "g")
    ∷ some (codes "-out")
    ∷ some (codes "f")
    ∷ some (codes "-d")
    ∷ []

file_kept :
    (base64_setup marked (one_file (codes "b")) [] encode_argv
      ≡ some (written (some (codes "g")) (codes "Ab")))
    × (base64_setup marked (one_file (codes "Ab")) [] decode_argv
        ≡ some (written (some (codes "f")) (codes "b")))
unfolding events entry_event check_for_arg check_from is_help_like is_match strncmp_eq bytes_eq
file_kept =
    base64_setup-decode marked (one_file (codes "b")) (one_file (codes "Ab")) [] encode_argv
      decode_argv (codes "f") (codes "g") b'b' b'A' [] (codes "b") marked-Decodes refl (omega arith)
      (omega arith) refl refl refl refl refl refl refl
