-- ===== src/Tests/Tls.antt =====
-- The command lines `wolfssl s_server -port 11111 -www` and `wolfssl s_client -connect [::1]:443`.
use wolf_clu.Base.{true, [], ◌∷◌, some, ◌≡◌, refl, arith}
use wolf_clu.Text.{Bytes, codes, before}
use wolf_clu.Args.{Argv, events, entry_event, check_for_arg, check_from, is_help_like, is_match}
use wolf_clu.Tls.Server.{run_server, server_setup}
use wolf_clu.Tls.Server.Translated.{server_setup-expected}
use wolf_clu.Tls.Client.{run_client, client_setup, connect_parts, from_char}
use wolf_clu.Tls.Client.Connect.{bracketed, connect_parts-Address}
use wolf_clu.Tls.Client.Translated.{client_setup-expected}

abbrev server_argv : Argv
server_argv =
    some (codes "wolfssl")
    ∷ some (codes "s_server")
    ∷ some (codes "-www")
    ∷ some (codes "-port")
    ∷ some (codes "11111")
    ∷ []

server_started :
    server_setup server_argv
    ≡ some (
        run_server (
          some (codes "wolfclu")
          ∷ some (codes "-p")
          ∷ some (codes "11111")
          ∷ some (codes "-g")
          ∷ []))
unfolding events entry_event check_for_arg check_from is_help_like is_match wolf_clu.Text.strncmp_eq
server_started = server_setup-expected server_argv

loopback_parts : connect_parts (codes "[::1]:443") ≡ some (true, codes "::1", codes "443")
loopback_parts =
    connect_parts-Address (codes "[::1]:443") true (codes "::1") (codes "443")
      (bracketed (codes "::1") (codes "443") (omega arith) (omega arith) refl)

abbrev client_argv : Argv
client_argv =
    some (codes "wolfssl")
    ∷ some (codes "s_client")
    ∷ some (codes "-connect")
    ∷ some (codes "[::1]:443")
    ∷ []

client_started :
    client_setup client_argv
    ≡ some (
        run_client (
          some (codes "wolfclu")
          ∷ some (codes "-6")
          ∷ some (codes "-h")
          ∷ some (codes "::1")
          ∷ some (codes "-p")
          ∷ some (codes "443")
          ∷ some (codes "-S")
          ∷ some (codes "::1")
          ∷ some (codes "-d")
          ∷ some (codes "-x")
          ∷ some (codes "-v")
          ∷ some (codes "d")
          ∷ some (codes "-C")
          ∷ []))
unfolding events entry_event check_for_arg check_from is_help_like is_match wolf_clu.Text.strncmp_eq
    connect_parts from_char before
client_started = client_setup-expected client_argv
