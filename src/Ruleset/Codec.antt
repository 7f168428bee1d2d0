-- ===== src/Ruleset/Codec.antt =====
-- The binary format of src/ruleset/: what `serialize` writes against what `from_bytes` reads.
pub mod Strings
pub mod Entries
pub mod Sections
pub mod SetKeys
pub mod RoundTrip
