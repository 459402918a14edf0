-- ===== src/Forms.antt =====
-- src/tools/clu_funcs.c: `wolfCLU_convertToLower`, `wolfCLU_checkOutform` and `wolfCLU_checkInform`.
use wolf_clu.Base.{ℕ, ◌+◌, ◌&&◌, [], ◌∷◌, Option, none, some, leb, if◌then◌else◌}
use wolf_clu.Base.Result.{Result, ok, err, user_input_error}
use wolf_clu.Text.{Bytes, codes, strncmp_eq}

-- `tolower` in the C locale
unfoldable pub to_lower : ℕ → ℕ
to_lower c = if leb b'A' c && leb c b'Z' then c + 32 else c

-- `wolfCLU_convertToLower`
unfoldable pub convert_to_lower : Bytes → Bytes
convert_to_lower [] = []
convert_to_lower (c ∷ s) = to_lower c ∷ convert_to_lower s

pub data Form : Type 0 where
  pem_form der_form raw_form : Form

-- the comparisons with what is now in lower case
unfoldable pub form_of : Bytes → Result Form
form_of s =
    if strncmp_eq 3 s (codes "pem")
    then ok pem_form
    else if strncmp_eq 3 s (codes "der")
    then ok der_form
    else if strncmp_eq 3 s (codes "raw")
    then ok raw_form
    else err user_input_error

-- `wolfCLU_checkOutform`
unfoldable pub check_outform : Option Bytes → Result Form
check_outform none = err user_input_error
check_outform (some outform) = form_of (convert_to_lower outform)

-- `wolfCLU_checkInform`
unfoldable pub check_inform : Option Bytes → Result Form
check_inform none = err user_input_error
check_inform (some inform) = form_of (convert_to_lower inform)
