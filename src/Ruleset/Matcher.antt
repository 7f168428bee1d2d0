-- ===== src/Ruleset/Matcher.antt =====
-- src/ruleset/matcher.rs: the matching engine.
pub mod Ports
pub mod Ranges
pub mod Domains
pub mod Engine
pub mod Text
pub mod EndToEnd
