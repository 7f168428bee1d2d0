-- ===== src/Tests/Import.antt =====
-- sing-box rules at a concrete input.
use model_lib.Prelude.{◌≡◌, refl, arith, true, some, ok, [], ◌∷◌}
use model_lib.Std.Text.{trim, split_once, to_ascii_lowercase}
use model_lib.Std.Numbers.{digit, read_digits, unsigned, parse_below}
use model_lib.Std.Addresses.{octet, octets, ipv4_from_str}
use model_lib.Ruleset.Trie.{trim_start_dots}
use model_lib.Ruleset.Compiler.{CompiledRuleSet}
use model_lib.Ruleset.Compiler.Parse.{
  validate_domain_len, mask_ipv4, parse_ipv4_cidr, port_range_of, parse_singbox_port_range,
}
use model_lib.Ruleset.Compiler.FromText.{empty}
use model_lib.Ruleset.Compiler.Invariant.{IsCompiled}
use model_lib.Ruleset.Compiler.SingBox.{
  SingBoxFields, RawRules, rule, no_rules, more_rules, add_domain, add_suffix, add_keyword,
  add_cidr, add_port, add_port_range, add_regex, add_fields, ingest_singbox_rule,
  ingest_singbox_rules, from_singbox_json,
}
use model_lib.Ruleset.Compiler.Imported.{from_singbox_json-IsCompiled}

abbrev no_fields : SingBoxFields
no_fields = record {
  domain = [];
  domain_suffix = [];
  domain_keyword = [];
  domain_regex = [];
  ip_cidr = [];
  port = [];
  port_range = [];
}

-- A rule with one rule inside.
abbrev rules : RawRules
rules =
    more_rules
      (rule (record no_fields { domain_suffix = (b'.' ∷ b'A' ∷ []) ∷ []; port = 53 ∷ [] })
        (more_rules
          (rule
            (record no_fields {
              ip_cidr =
                  (b'1' ∷ b'0' ∷ b'.' ∷ b'1' ∷ b'.' ∷ b'2' ∷ b'.' ∷ b'3' ∷ b'/' ∷ b'8' ∷ []) ∷ [];
              port_range = (b'8' ∷ b'0' ∷ b':' ∷ b'9' ∷ b'0' ∷ []) ∷ [];
            })
            no_rules)
          no_rules))
      no_rules

abbrev compiled : CompiledRuleSet
compiled = record empty {
  domain_suffixes = (b'a' ∷ []) ∷ [];
  ipv4_cidrs = (0x0a000000, 8) ∷ [];
  ports = (80, 90) ∷ (53, 53) ∷ [];
}

rules-compiled : from_singbox_json (λ p. true) (some rules) ≡ ok compiled
unfolding from_singbox_json ingest_singbox_rule ingest_singbox_rules add_fields add_domain
    add_suffix add_keyword add_regex add_cidr add_port add_port_range validate_domain_len trim
    split_once to_ascii_lowercase trim_start_dots mask_ipv4 parse_ipv4_cidr parse_singbox_port_range
    port_range_of parse_below unsigned read_digits digit ipv4_from_str octets octet
rules-compiled = refl

from_singbox_json-IsCompiled_example : IsCompiled compiled
from_singbox_json-IsCompiled_example =
    from_singbox_json-IsCompiled (λ p. true) rules (((omega arith, tt), ((tt, tt), tt)), tt)
      rules-compiled
