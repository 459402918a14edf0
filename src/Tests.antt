-- ===== src/Tests.antt =====
-- The theorems at concrete inputs.
pub mod Args
pub mod Algo
pub mod Names
pub mod Net
pub mod Ocsp
pub mod Rand
pub mod Main
pub mod Index
pub mod Input
pub mod Crypto
pub mod Hash
pub mod Setup
pub mod Tls
pub mod Legacy
pub mod Sign
pub mod Config
pub mod Verify
pub mod Base64
