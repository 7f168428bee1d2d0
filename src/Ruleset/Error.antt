-- ===== src/Ruleset/Error.antt =====
-- src/ruleset/error.rs. Formatted texts are data: a constructor for each format string.
use model_lib.Prelude.{ℕ, Bytes}

-- The `msg` of a `ParseError`.
pub data Message : Type 0 where
  expected_key_value : Bytes → Message
  unknown_rule_type : Bytes → Message
  domain_too_long : ℕ → Bytes → Message
  fst_error json_error : Message

-- The second field of an `InvalidCidr`.
pub data CidrFault : Type 0 where
  missing_slash bad_address bad_prefix prefix_range : CidrFault

-- `DomainTooLong`, which nothing constructs, is left as it is declared.
pub data RuleSetError : Type 0 where
  parse_error : ℕ → Message → RuleSetError
  invalid_cidr : Bytes → CidrFault → RuleSetError
  invalid_port : Bytes → RuleSetError
  invalid_regex : Bytes → RuleSetError
  domain_too_long_error : Bytes → RuleSetError
  bad_magic : RuleSetError
  unsupported_version : ℕ → RuleSetError
  unknown_section : ℕ → RuleSetError
  truncated : ℕ → ℕ → RuleSetError
  invalid_utf8 : RuleSetError
  loaded_invalid_regex : RuleSetError
  io : RuleSetError
