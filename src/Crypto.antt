-- ===== src/Crypto.antt =====
-- src/crypto: what the engines use of the pluggable cryptography, and the key derivation on top of it.
pub mod Hkdf
pub mod Provider
