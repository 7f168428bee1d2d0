-- ===== src/Outbound.antt =====
-- The pure parts of the outbound protocols, src/outbound/.
pub mod Proto
