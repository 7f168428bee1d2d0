-- ===== src/Dns.antt =====
-- The DNS cache.
pub mod Keys
pub mod Lru
pub mod Cache
