-- ===== src/Sniff/Crypto.antt =====
-- The cryptography that src/app/sniff.rs writes out. Bytes are numbers below 256 and words are
-- numbers below 2 ^ 32; an array of fixed length is a list, and its reads default to 0.
pub mod Sha256
pub mod Hkdf
pub mod Aes
pub mod Gcm
