-- ===== src/Ruleset/Compiler.antt =====
-- src/ruleset/compiler.rs: the intermediate form `CompiledRuleSet`.
pub mod Encode
pub mod Parse
pub mod FromText
pub mod SingBox
pub mod Bounds
pub mod Invariant
pub mod Imported
use model_lib.Prelude.{ℕ, ◌+◌, Bytes, List, length}
use model_lib.Ruleset.Loader.{Ipv4Addr, Ipv6Addr}

pub record CompiledRuleSet : Type 0 where
  pub domains : List Bytes
  pub domain_suffixes : List Bytes
  pub domain_keywords : List Bytes
  pub domain_regexes : List Bytes
  pub ipv4_cidrs : List (Ipv4Addr × ℕ)
  pub ipv6_cidrs : List (Ipv6Addr × ℕ)
  pub ports : List (ℕ × ℕ)

unfoldable pub total_entries : CompiledRuleSet → ℕ
total_entries c =
    length c.domains
    + length c.domain_suffixes
    + length c.domain_keywords
    + length c.domain_regexes
    + length c.ipv4_cidrs
    + length c.ipv6_cidrs
    + length c.ports
