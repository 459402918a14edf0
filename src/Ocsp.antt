-- ===== src/Ocsp.antt =====
-- src/ocsp/clu_ocsp.c: the `ocsp` command.
pub mod Options
pub mod Setup
pub mod Transport
pub mod Responder
pub mod Index
