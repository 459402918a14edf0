-- ===== src/Ocsp/Setup.antt =====
-- src/ocsp/clu_ocsp.c, `wolfCLU_OcspSetup`: from the arguments to the side that runs, and the
-- options that each side requires.
pub mod Valid
use wolf_clu.Base.{
  ℕ, ◌+◌, ◌^◌, ◌-◌, Bool, true, false, not, ◌&&◌, ◌||◌, List, [], ◌∷◌, Option, none, some, ◌==◌,
  if◌then◌else◌, ℤ, pos, length,
}
use wolf_clu.Base.Result.{Result, ok, err}
use wolf_clu.Text.{Bytes}
use wolf_clu.Args.{Argv, Event, found_twice, given, Step, continue, leave, option_loop}
use wolf_clu.Decimal.{parse_decimal_bounded}
use wolf_clu.Ocsp.Options.{
  OcspOption, opt_help, opt_ca_file, opt_ca, opt_nrequest, opt_index, opt_rsigner, opt_rkey,
  opt_url, opt_port, opt_no_nonce, opt_cert, opt_issuer, opt_scgi, opt_unsupported, ocsp_options,
}

-- `OcspClientConfig`
pub record ClientConfig : Type 0 where
  pub ca_file : Option Bytes
  pub issuer : Option Bytes
  pub url : Option Bytes
  pub cert : Option Bytes
  pub no_nonce : Bool

-- `OcspResponderConfig`
pub record ResponderConfig : Type 0 where
  pub port : ℕ
  pub index_file : Option Bytes
  pub ca_file : Option Bytes
  pub rsigner_file : Option Bytes
  pub rkey_file : Option Bytes
  pub nrequest : ℕ
  pub scgi_mode : Bool

-- the locals of the loop
pub record Setup : Type 0 where
  pub is_client_mode : Bool
  pub is_responder_mode : Bool
  pub client : ClientConfig
  pub responder : ResponderConfig

pub data Exit : Type 0 where
  help fatal : Exit

abbrev set_client : Setup → ClientConfig → Setup
set_client s c = record s { is_client_mode = true; client = c }

-- "-port" and "-nrequest", from the result of the parser on
unfoldable pub set_port : Setup → Result ℕ → Step Setup Exit
set_port s (err e) = leave fatal
set_port s (ok n) =
    continue (record s { is_responder_mode = true; responder = record (s.responder) { port = n } })

unfoldable pub set_nrequest : Setup → Result ℕ → Step Setup Exit
set_nrequest s (err e) = leave fatal
set_nrequest s (ok n) = continue (record s { responder = record (s.responder) { nrequest = n } })

-- the `switch`; the parser takes a missing argument as the source does, as an error
unfoldable pub ocsp_option : Event OcspOption → Setup → Step Setup Exit
ocsp_option found_twice s = leave fatal
ocsp_option (given opt_help arg) s = leave help
ocsp_option (given opt_url arg) s = continue (set_client s (record (s.client) { url = arg }))
ocsp_option (given opt_cert arg) s = continue (set_client s (record (s.client) { cert = arg }))
ocsp_option (given opt_issuer arg) s = continue (set_client s (record (s.client) { issuer = arg }))
ocsp_option (given opt_ca_file arg) s =
    continue (record s { client = record (s.client) { ca_file = arg } })
ocsp_option (given opt_no_nonce arg) s =
    continue (record s { client = record (s.client) { no_nonce = true } })
ocsp_option (given opt_port arg) s = set_port s (parse_decimal_bounded arg (pos 1) (pos 65535))
ocsp_option (given opt_nrequest arg) s =
    set_nrequest s (parse_decimal_bounded arg (pos 0) (pos (2 ^ 31 - 1)))
ocsp_option (given opt_ca arg) s =
    continue (record s { responder = record (s.responder) { ca_file = arg } })
ocsp_option (given opt_index arg) s =
    continue (record s { responder = record (s.responder) { index_file = arg } })
ocsp_option (given opt_rsigner arg) s =
    continue (record s { responder = record (s.responder) { rsigner_file = arg } })
ocsp_option (given opt_rkey arg) s =
    continue (record s { responder = record (s.responder) { rkey_file = arg } })
ocsp_option (given opt_scgi arg) s =
    continue (record s { responder = record (s.responder) { scgi_mode = true } })
ocsp_option (given opt_unsupported arg) s = leave fatal

-- `XMEMSET`
abbrev pub no_setup : Setup
no_setup = record {
  is_client_mode = false;
  is_responder_mode = false;
  client = record { ca_file = none; issuer = none; url = none; cert = none; no_nonce = false };
  responder = record {
    port = 0;
    index_file = none;
    ca_file = none;
    rsigner_file = none;
    rkey_file = none;
    nrequest = 0;
    scgi_mode = false;
  };
}

-- What runs: one side, with its configuration; the help; or nothing.
pub data Side : Type 0 where
  client_side : ClientConfig → Side
  responder_side : ResponderConfig → Side
  show_help no_side side_stuck : Side

-- "if (!(isClientMode ^ isResponderMode))"
unfoldable pub choose_side : Setup → Side
choose_side s =
    if s.is_client_mode
    then if s.is_responder_mode then no_side else client_side s.client
    else if s.is_responder_mode
    then responder_side s.responder
    else no_side

unfoldable pub after_loop : Option (Step Setup Exit) → Side
after_loop none = side_stuck
after_loop (some (leave help)) = show_help
after_loop (some (leave fatal)) = no_side
after_loop (some (continue s)) = choose_side s

-- `wolfCLU_OcspSetup`
unfoldable pub ocsp_setup : Argv → Side
ocsp_setup argv =
    after_loop (option_loop ocsp_option argv 1 ocsp_options (length ocsp_options + 1) 0 no_setup)

abbrev pub is_given : Option Bytes → Bool
is_given none = false
is_given (some file) = true

-- "Validate required options" of `ocspResponder`
unfoldable pub has_required : ResponderConfig → Bool
has_required c =
    is_given c.ca_file && (is_given c.rsigner_file && (is_given c.rkey_file && not (c.port == 0)))
