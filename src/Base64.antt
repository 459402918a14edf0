-- ===== src/Base64.antt =====
-- src/tools/clu_base64.c, `wolfCLU_Base64Setup`. Parameters: the files, the standard input, and the
-- conversions of wolfSSL. Allocations succeed.
-- The input is read behind the options: an output of the same name has emptied it by then. Two names
-- are one file only if they are equal.
pub mod RoundTrip
use wolf_clu.Base.{
  ℕ, ◌+◌, ◌*◌, ◌/◌, ◌%◌, Bool, true, false, not, ◌&&◌, ◌||◌, List, [], ◌∷◌, Option, none, some, ltb,
  if◌then◌else◌, length, take,
}
use mathlib.Core.Option
use wolf_clu.Text.{Bytes, codes, starts_with, bytes_eq}
use wolf_clu.Args.{Argv, OptionEntry, Event, found_twice, given, Step, continue, leave, option_loop}

pub data Base64Option : Type 0 where
  opt_infile opt_outfile opt_decode opt_help : Base64Option

abbrev flag : Bytes → Base64Option → OptionEntry Base64Option
flag name val = record { name = name; has_arg = false; val = val }

abbrev with_arg : Bytes → Base64Option → OptionEntry Base64Option
with_arg name val = record { name = name; has_arg = true; val = val }

abbrev pub base64_options : List (OptionEntry Base64Option)
base64_options =
    with_arg (codes "-in") opt_infile
    ∷ with_arg (codes "-out") opt_outfile
    ∷ flag (codes "-d") opt_decode
    ∷ flag (codes "-help") opt_help
    ∷ flag (codes "-h") opt_help
    ∷ []

-- what a PEM text is tried as
pub data PemType : Type 0 where
  privatekey_type cert_type pkcs7_type : PemType

-- `Base64_Encode`, `Base64_Decode` with the size of the output buffer, and `wc_PemToDer`
pub record Base64Api : Type 0 where
  pub encode : Bytes → Option Bytes
  pub decode : ℕ → Bytes → Option Bytes
  pub pem_to_der : PemType → Bytes → Option Bytes

-- the files: what each has before the command, and whether one can be opened for writing
pub record Files : Type 0 where
  pub contents : Bytes → Option Bytes
  pub can_write : Bytes → Bool

-- the locals: the names that `bioIn` and `bioOut` were opened with, none for NULL, the names of all
-- files that were opened for writing, and `decode`
pub record Base64Locals : Type 0 where
  pub bio_in : Option Bytes
  pub bio_out : Option Bytes
  pub emptied : List Bytes
  pub decode_asked : Bool

abbrev pub no_base64_locals : Base64Locals
no_base64_locals = record { bio_in = none; bio_out = none; emptied = []; decode_asked = false }

-- What the command ends with: the help, an error, the output with the file, none for stdout, or
-- whatever `XMALLOC` and the reading make of a size that a `sword32` cannot hold.
pub data Base64Result : Type 0 where
  base64_help base64_error beyond_sword32 : Base64Result
  written : Option Bytes → Bytes → Base64Result

-- the size of the buffer for what is decoded
unfoldable pub decoded_sz : ℕ → ℕ
decoded_sz n = n / 4 * 3 + n % 4 * 3 / 4 + 1

-- "check if input is in PEM format"
unfoldable pub is_pem : Bytes → Bool
is_pem input = ltb 11 (length input) && starts_with input (codes "-----BEGIN")

-- what is read of stdin: `inputSz` bytes
abbrev pub stdin_sz : ℕ
stdin_sz = 8000

-- `XFTELL` of a file is cast to `sword32`.
abbrev pub sword32_limit : ℕ
sword32_limit = 2147483648

-- one of the names
unfoldable pub is_among : Bytes → List Bytes → Bool
is_among name [] = false
is_among name (n ∷ names) = bytes_eq name n || is_among name names

-- `fopen(name, "rb")` has a file, which may be one that was created for writing.
unfoldable pub is_readable : Files → List Bytes → Bytes → Bool
is_readable files emptied name =
    is_among name emptied || elim (files.contents name) [ none ↦ false | some input ↦ true ]

-- what is read: nothing of a file that was opened for writing, of which the names are given
unfoldable pub read_input : Files → List Bytes → Option Bytes → Bytes → Bytes
read_input files emptied none stdin = take stdin_sz stdin
read_input files emptied (some name) stdin =
    if is_among name emptied
    then []
    else elim (files.contents name) [ none ↦ [] | some input ↦ input ]

module _ (files : Files) where
  -- the `switch`, in a loop that an error ends
  unfoldable pub base64_option : Event Base64Option → Base64Locals → Step Base64Locals Base64Result
  base64_option found_twice s = leave base64_error
  base64_option (given opt_infile none) s = leave base64_error
  base64_option (given opt_infile (some name)) s =
      if is_readable files s.emptied name
      then continue (record s { bio_in = some name })
      else leave base64_error
  base64_option (given opt_outfile none) s = leave base64_error
  base64_option (given opt_outfile (some name)) s =
      if files.can_write name
      then continue (record s { bio_out = some name; emptied = name ∷ s.emptied })
      else leave base64_error
  base64_option (given opt_decode arg) s = continue (record s { decode_asked = true })
  base64_option (given opt_help arg) s = leave base64_help

module _ (api : Base64Api) where
  -- "Try different PEM types"
  unfoldable pub decode_pem : List PemType → Bytes → Option Bytes
  decode_pem [] input = none
  decode_pem (type ∷ types) input = elim (api.pem_to_der type input) [
    | none ↦ decode_pem types input
    | some der ↦ some der
  ]

  -- "Perform encoding/decoding"
  unfoldable pub convert : Bool → Bytes → Option Bytes
  convert false input = api.encode input
  convert true input =
      if is_pem input
      then decode_pem (privatekey_type ∷ cert_type ∷ pkcs7_type ∷ []) input
      else api.decode (decoded_sz (length input)) input

  -- `wolfSSL_BIO_write`, which has no success for an output of no bytes
  unfoldable pub write_output : Option Bytes → Option Bytes → Base64Result
  write_output bio_out none = base64_error
  write_output bio_out (some []) = base64_error
  write_output bio_out (some (c ∷ output)) = written bio_out (c ∷ output)

  -- `wolfSSL_BIO_read` and what follows it, if a `sword32` can hold the size
  unfoldable pub conclude_sized : Base64Locals → Bytes → Base64Result
  conclude_sized s input =
      if ltb (length input) sword32_limit
      then write_output s.bio_out (convert s.decode_asked input)
      else beyond_sword32

  abbrev pub conclude_base64 : Files → Bytes → Step Base64Locals Base64Result → Base64Result
  conclude_base64 files stdin (leave r) = r
  conclude_base64 files stdin (continue s) =
      conclude_sized s (read_input files s.emptied s.bio_in stdin)

  -- `wolfCLU_Base64Setup`; none if the fuel of the loop ran out
  unfoldable pub base64_setup : Files → Bytes → Argv → Option Base64Result
  base64_setup files stdin argv = Option.map (conclude_base64 files stdin) (
      option_loop (base64_option files) argv 1 base64_options (length base64_options + 1) 0
        no_base64_locals)
