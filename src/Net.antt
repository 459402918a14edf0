-- ===== src/Net.antt =====
-- The servers' side: sockets, HTTP and SCGI.
pub mod Socket
pub mod Http
pub mod Scgi
pub mod Reply
