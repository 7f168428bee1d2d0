-- ===== src/Ruleset.antt =====
-- src/ruleset/: compiled rule sets, their binary format, and the matching engine.
pub mod Error
pub mod Format
pub mod Fst
pub mod Keys
pub mod Loader
pub mod Compiler
pub mod Codec
pub mod Trie
pub mod Matcher
