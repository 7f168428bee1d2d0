-- ===== src/Router/Rule.antt =====
-- `CompiledRule::compile` of src/router/mod.rs.
use model_lib.Prelude.{
  ℕ, Bytes, bytes_eq, Bool, not, ◌||◌, Option, none, some, Result, ok, ◌>>=◌, ok_or, map_err, List,
  [], ◌∷◌, ◌++◌, map, is_empty, ◌==◌, if◌then◌else◌,
}
use model_lib.Std.Text.{to_ascii_lowercase, has_byte}
use model_lib.Std.Numbers.{decimal_u16}
use model_lib.Ruleset.Keys.{join}
use model_lib.Ruleset.Error.{RuleSetError}
use model_lib.Ruleset.Fst.{FstCrate}
use model_lib.Ruleset.Matcher.Engine.{RegexCrate, RuleSet}
use model_lib.Ruleset.Matcher.Text.{from_text}
use model_lib.Config.{RouteRuleConfig, NetworkFilter, PortFilter, tcp, udp, is_some}

pub data SniffType : Type 0 where
  tls http quic ssh bittorrent : SniffType

-- `SniffType::parse` of src/app/sniff.rs
unfoldable pub parse_sniff_type : Bytes → Option SniffType
parse_sniff_type s =
    let l = to_ascii_lowercase s in
    if bytes_eq l (b't' ∷ b'l' ∷ b's' ∷ [])
    then some tls
    else if bytes_eq l (b'h' ∷ b't' ∷ b't' ∷ b'p' ∷ [])
    then some http
    else if bytes_eq l (b'q' ∷ b'u' ∷ b'i' ∷ b'c' ∷ [])
    then some quic
    else if bytes_eq l (b's' ∷ b's' ∷ b'h' ∷ [])
    then some ssh
    else if bytes_eq l (b'b' ∷ b'i' ∷ b't' ∷ b't' ∷ b'o' ∷ b'r' ∷ b'r' ∷ b'e' ∷ b'n' ∷ b't' ∷ [])
        || bytes_eq l (b'b' ∷ b't' ∷ [])
    then some bittorrent
    else none

pub data RouteAction : Type 0 where
  to_outbound : Bytes → RouteAction
  dns_out : RouteAction
  sniff_first :
      (timeout_ms : ℕ) (override_destination : Bool) (sniff_types : List SniffType) → RouteAction
  resolve_first : (server : Option Bytes) → RouteAction

unfoldable pub to_action : Bytes → RouteAction
to_action outbound =
    if bytes_eq outbound (b'd' ∷ b'n' ∷ b's' ∷ b'-' ∷ b'o' ∷ b'u' ∷ b't' ∷ [])
    then dns_out
    else to_outbound outbound

-- What `anyhow` carries.
pub data RouteError : Type 0 where
  bare_hijack_dns : ℕ → RouteError
  ruleset_not_found : Bytes → RouteError
  inline_rule : RuleSetError → RouteError

abbrev comma : ℕ
comma = b','

abbrev network_text : Option NetworkFilter → Bytes
network_text none = []
network_text (some tcp) = b't' ∷ b'c' ∷ b'p' ∷ []
network_text (some udp) = b'u' ∷ b'd' ∷ b'p' ∷ []

-- `filter_map` over `SniffType::parse`
unfoldable pub sniff_types : List Bytes → List SniffType
sniff_types [] = []
sniff_types (s ∷ ss) = elim (parse_sniff_type s) [
  | none ↦ sniff_types ss
  | some t ↦ t ∷ sniff_types ss
]

-- The action of a rule.
unfoldable pub rule_action : RouteRuleConfig → RouteAction
rule_action rule =
    if rule.sniff
    then sniff_first rule.sniff_timeout_ms rule.sniff_override_destination
        (sniff_types rule.sniff_type)
    else if rule.resolve
    then resolve_first rule.resolve_server
    else if rule.hijack_dns
    then dns_out
    else to_action rule.outbound

-- The name of a rule for the log.
unfoldable pub rule_display : RouteRuleConfig → Bytes × Bytes
rule_display rule =
    if not (is_empty rule.ruleset_tags)
    then (
      (b'r' ∷ b'u' ∷ b'l' ∷ b'e' ∷ b'-' ∷ b's' ∷ b'e' ∷ b't' ∷ []),
      join comma rule.ruleset_tags,
    )
    else if not (is_empty rule.domain)
    then ((b'D' ∷ b'O' ∷ b'M' ∷ b'A' ∷ b'I' ∷ b'N' ∷ []), join comma rule.domain)
    else if not (is_empty rule.domain_suffix)
    then (
      (b'D' ∷ b'O' ∷ b'M' ∷ b'A' ∷ b'I' ∷ b'N' ∷ b'-' ∷ b'S' ∷ b'U' ∷ b'F' ∷ b'F' ∷ b'I' ∷ b'X'
          ∷ []),
      join comma rule.domain_suffix,
    )
    else if not (is_empty rule.domain_keyword)
    then (
      (b'D' ∷ b'O' ∷ b'M' ∷ b'A' ∷ b'I' ∷ b'N' ∷ b'-' ∷ b'K' ∷ b'E' ∷ b'Y' ∷ b'W' ∷ b'O' ∷ b'R'
          ∷ b'D' ∷ []),
      join comma rule.domain_keyword,
    )
    else if not (is_empty rule.ip_cidr)
    then ((b'I' ∷ b'P' ∷ b'-' ∷ b'C' ∷ b'I' ∷ b'D' ∷ b'R' ∷ []), join comma rule.ip_cidr)
    else if is_some rule.network
    then ((b'N' ∷ b'E' ∷ b'T' ∷ b'W' ∷ b'O' ∷ b'R' ∷ b'K' ∷ []), network_text rule.network)
    else if not (is_empty rule.protocol)
    then ((b'P' ∷ b'R' ∷ b'O' ∷ b'T' ∷ b'O' ∷ b'C' ∷ b'O' ∷ b'L' ∷ []), join comma rule.protocol)
    else if not (is_empty rule.inbound)
    then ((b'I' ∷ b'N' ∷ b'-' ∷ b'N' ∷ b'A' ∷ b'M' ∷ b'E' ∷ []), join comma rule.inbound)
    else if rule.sniff
    then ((b'S' ∷ b'N' ∷ b'I' ∷ b'F' ∷ b'F' ∷ []), [])
    else if rule.resolve
    then ((b'R' ∷ b'E' ∷ b'S' ∷ b'O' ∷ b'L' ∷ b'V' ∷ b'E' ∷ []), [])
    else if rule.hijack_dns
    then ((b'H' ∷ b'I' ∷ b'J' ∷ b'A' ∷ b'C' ∷ b'K' ∷ b'-' ∷ b'D' ∷ b'N' ∷ b'S' ∷ []), [])
    else ((b'M' ∷ b'A' ∷ b'T' ∷ b'C' ∷ b'H' ∷ []), [])

-- The lines of the inline rules.
unfoldable pub cidr_line : Bytes → Bytes
cidr_line c =
    if has_byte b':' c
    then (b'i' ∷ b'p' ∷ b'-' ∷ b'c' ∷ b'i' ∷ b'd' ∷ b'r' ∷ b'6' ∷ b':' ∷ b' ' ∷ []) ++ c
    else (b'i' ∷ b'p' ∷ b'-' ∷ b'c' ∷ b'i' ∷ b'd' ∷ b'r' ∷ b':' ∷ b' ' ∷ []) ++ c

unfoldable pub port_line : PortFilter → Bytes
port_line p =
    if p.0 == p.1
    then (b'p' ∷ b'o' ∷ b'r' ∷ b't' ∷ b':' ∷ b' ' ∷ []) ++ decimal_u16 p.0
    else (b'p' ∷ b'o' ∷ b'r' ∷ b't' ∷ b':' ∷ b' ' ∷ [])
      ++ (decimal_u16 p.0 ++ (b'-' ∷ decimal_u16 p.1))

unfoldable pub addr_lines : RouteRuleConfig → List Bytes
addr_lines rule =
    map (λ d. (b'd' ∷ b'o' ∷ b'm' ∷ b'a' ∷ b'i' ∷ b'n' ∷ b':' ∷ b' ' ∷ []) ++ d) rule.domain
    ++ (map
          (λ d.
            (b'd' ∷ b'o' ∷ b'm' ∷ b'a' ∷ b'i' ∷ b'n' ∷ b'-' ∷ b's' ∷ b'u' ∷ b'f' ∷ b'f' ∷ b'i'
              ∷ b'x' ∷ b':' ∷ b' ' ∷ [])
            ++ d)
          rule.domain_suffix
        ++ (map
              (λ d.
                (b'd' ∷ b'o' ∷ b'm' ∷ b'a' ∷ b'i' ∷ b'n' ∷ b'-' ∷ b'k' ∷ b'e' ∷ b'y' ∷ b'w' ∷ b'o'
                  ∷ b'r' ∷ b'd' ∷ b':' ∷ b' ' ∷ [])
                ++ d)
              rule.domain_keyword
            ++ map cidr_line rule.ip_cidr))

unfoldable pub port_lines : RouteRuleConfig → List Bytes
port_lines rule =
    map port_line rule.port
    ++ map (λ p. (b'p' ∷ b'o' ∷ b'r' ∷ b't' ∷ b':' ∷ b' ' ∷ []) ++ p) rule.port_range

-- `lower` is `str::to_lowercase`, the full Unicode mapping.
module _ (fst : FstCrate) (regex : RegexCrate) (lower : Bytes → Bytes) where
  pub record CompiledRule : Type 0 where
    pub inbound_tags : List Bytes
    pub network : Option NetworkFilter
    pub protocols : List Bytes
    pub rulesets : List (RuleSet fst regex)
    pub addr_rs : Option (RuleSet fst regex)
    pub port_rs : Option (RuleSet fst regex)
    pub action : RouteAction
    pub display : Bytes × Bytes

  -- The loaded rule sets by their tags.
  abbrev pub RuleSets : Type 0
  RuleSets = List (Bytes × RuleSet fst regex)

  unfoldable pub get : Bytes → RuleSets → Option (RuleSet fst regex)
  get tag [] = none
  get tag ((k, rs) ∷ m) = if bytes_eq k tag then some rs else get tag m

  unfoldable pub collect_rulesets :
      RuleSets → List Bytes → Result RouteError (List (RuleSet fst regex))
  collect_rulesets sets [] = ok []
  collect_rulesets sets (tag ∷ tags) = do
    rs ← ok_or (get tag sets) (ruleset_not_found tag)
    rest ← collect_rulesets sets tags
    ok (rs ∷ rest)

  -- No rule set for no line; else the lines are joined and compiled.
  unfoldable pub inline_rules : List Bytes → Result RouteError (Option (RuleSet fst regex))
  inline_rules [] = ok none
  inline_rules (l ∷ ls) = do
    rs ← map_err inline_rule (from_text fst regex (join b'\n' (l ∷ ls)))
    ok (some rs)

  unfoldable pub compile : RuleSets → RouteRuleConfig → Result RouteError CompiledRule
  compile sets rule = do
    rulesets ← collect_rulesets sets rule.ruleset_tags
    addr_rs ← inline_rules (addr_lines rule)
    port_rs ← inline_rules (port_lines rule)
    ok (record {
      inbound_tags = rule.inbound;
      network = rule.network;
      protocols = map lower rule.protocol;
      rulesets = rulesets;
      addr_rs = addr_rs;
      port_rs = port_rs;
      action = rule_action rule;
      display = rule_display rule;
    })
