-- ===== src/Tls.antt =====
-- src/client/clu_client_setup.c and src/server/clu_server_setup.c: the arguments that `client_test` and
-- `server_test` are called with, which stand in an array of a fixed size.
pub mod Room
pub mod Server
pub mod Client
