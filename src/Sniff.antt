-- ===== src/Sniff.antt =====
-- The protocol sniffers, src/app/sniff.rs.
pub mod Outcome
pub mod Tls
pub mod Http
pub mod Signatures
pub mod Crypto
pub mod Quic
pub mod Packet
