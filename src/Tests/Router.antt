-- ===== src/Tests/Router.antt =====
-- The compiler and the router at concrete inputs.
use model_lib.Prelude.{◌≡◌, refl, Bytes, bytes_eq, true, false, none, some, ok, [], ◌∷◌, map}
use model_lib.Std.Text.{trim, split_once, to_ascii_lowercase}
use model_lib.Std.Numbers.{digit, read_digits, unsigned, parse_below}
use model_lib.Std.Addresses.{
  octet, octets, ipv4_from_str, ipv6_from_str, split_double, groups, group, read_hex, hex_digit,
}
use model_lib.Ruleset.Trie.{trim_start_dots}
use model_lib.Ruleset.Compiler.{CompiledRuleSet}
use model_lib.Ruleset.Compiler.Parse.{
  validate_domain_len, mask_ipv4, mask_ipv6, parse_ipv4_cidr, parse_ipv6_cidr, parse_port_range,
  port_range_of,
}
use model_lib.Ruleset.Compiler.FromText.{from_text, add_lines, add_line, add_rule, rule_key, empty}
use model_lib.Ruleset.Compiler.Invariant.{IsCompiled, from_text-IsCompiled}
use model_lib.Ruleset.Matcher.Engine.{v4}
use model_lib.Config.{RouteRuleConfig, RouteConfig, tcp, has_conditions}
use model_lib.Router.Rule.{
  to_action, rule_action, rule_display, addr_lines, port_lines, inline_rules, collect_rulesets,
  compile, CompiledRule,
}
use model_lib.Router.Route.{
  from_config, compile_all, check_hijack, indices_from, Router, Question, Decision, kind_tcp,
  kind_udp, socket_target, domain_target, route, first_of, matches, final_decision, is_sniff,
  is_sniff_or_resolve, route_after_sniff, route_after_resolve,
}
use model_lib.Router.Indices.{
  is_final, kept, route_after_sniff-kept, route_after_resolve-kept, route_after_resolve-is_final,
  route_after_sniff-route,
}
use model_lib.Tests.Toys.{fst_crate, regex_crate}

-- "# x", " ip-cidr : 10.1.2.3/8", "port:80-443" and "domain-suffix: .A.b"
abbrev text : Bytes
text =
    b'#' ∷ b' ' ∷ b'x' ∷ b'\n' ∷ b' ' ∷ b'i' ∷ b'p' ∷ b'-' ∷ b'c' ∷ b'i' ∷ b'd' ∷ b'r' ∷ b' ' ∷ b':'
    ∷ b' ' ∷ b'1' ∷ b'0' ∷ b'.' ∷ b'1' ∷ b'.' ∷ b'2' ∷ b'.' ∷ b'3' ∷ b'/' ∷ b'8' ∷ b'\n' ∷ b'p'
    ∷ b'o' ∷ b'r' ∷ b't' ∷ b':' ∷ b'8' ∷ b'0' ∷ b'-' ∷ b'4' ∷ b'4' ∷ b'3' ∷ b'\n' ∷ b'd' ∷ b'o'
    ∷ b'm' ∷ b'a' ∷ b'i' ∷ b'n' ∷ b'-' ∷ b's' ∷ b'u' ∷ b'f' ∷ b'f' ∷ b'i' ∷ b'x' ∷ b':' ∷ b' '
    ∷ b'.' ∷ b'A' ∷ b'.' ∷ b'b' ∷ b'\n' ∷ b'i' ∷ b'p' ∷ b'-' ∷ b'c' ∷ b'i' ∷ b'd' ∷ b'r' ∷ b'6'
    ∷ b':' ∷ b' ' ∷ b'1' ∷ b':' ∷ b':' ∷ b'2' ∷ b'/' ∷ b'1' ∷ b'2' ∷ b'7' ∷ []

abbrev compiled : CompiledRuleSet
compiled = record empty {
  domain_suffixes = (b'a' ∷ b'.' ∷ b'b' ∷ []) ∷ [];
  ipv4_cidrs = (0x0a000000, 8) ∷ [];
  ipv6_cidrs = (0x10000000000000000000000000002, 127) ∷ [];
  ports = (80, 443) ∷ [];
}

text-compiled : from_text (λ p. true) text ≡ ok compiled
unfolding from_text add_lines add_line add_rule rule_key trim split_once to_ascii_lowercase
    trim_start_dots bytes_eq validate_domain_len mask_ipv4 mask_ipv6 parse_ipv4_cidr parse_ipv6_cidr
    parse_port_range port_range_of parse_below unsigned read_digits digit ipv4_from_str octets octet
    ipv6_from_str split_double groups group read_hex hex_digit
text-compiled = refl

from_text-IsCompiled_example : IsCompiled compiled
from_text-IsCompiled_example = from_text-IsCompiled (λ p. true) text text-compiled

abbrev pub no_rule : RouteRuleConfig
no_rule = record {
  inbound = [];
  network = none;
  ruleset_tags = [];
  domain = [];
  domain_suffix = [];
  domain_keyword = [];
  ip_cidr = [];
  port = [];
  port_range = [];
  sniff = false;
  sniff_timeout_ms = 0;
  sniff_type = [];
  sniff_override_destination = false;
  protocol = [];
  resolve = false;
  resolve_server = none;
  hijack_dns = false;
  outbound = [];
}

abbrev sniff_rule : RouteRuleConfig
sniff_rule = record no_rule {
  inbound = (b'i' ∷ []) ∷ [];
  sniff = true;
  sniff_type = (b'B' ∷ b'T' ∷ []) ∷ [];
}

abbrev hijack_rule : RouteRuleConfig
hijack_rule = record no_rule { protocol = (b'd' ∷ b'n' ∷ b's' ∷ []) ∷ []; hijack_dns = true }

abbrev resolve_rule : RouteRuleConfig
resolve_rule = record no_rule { network = some tcp; resolve = true }

abbrev config : RouteConfig
config = record { rules = sniff_rule ∷ hijack_rule ∷ resolve_rule ∷ []; final = b'd' ∷ [] }

-- ASCII letters only
abbrev lower : Bytes → Bytes
lower s = s

abbrev compiled_of : RouteRuleConfig → CompiledRule fst_crate regex_crate lower
compiled_of r = record {
  inbound_tags = r.inbound;
  network = r.network;
  protocols = map lower r.protocol;
  rulesets = [];
  addr_rs = none;
  port_rs = none;
  action = rule_action r;
  display = rule_display r;
}

abbrev router : Router fst_crate regex_crate lower
router = record {
  rules = compiled_of sniff_rule ∷ compiled_of hijack_rule ∷ compiled_of resolve_rule ∷ [];
  idx_no_sniff = 1 ∷ 2 ∷ [];
  idx_no_sniff_resolve = 1 ∷ [];
  default = to_action (b'd' ∷ []);
}

router-built : from_config fst_crate regex_crate lower [] config ≡ ok router
unfolding from_config check_hijack has_conditions compile_all compile collect_rulesets addr_lines
    port_lines inline_rules indices_from rule_action
router-built = refl

abbrev Asked : Type 0
Asked = Question fst_crate regex_crate lower

abbrev tcp_question : Asked
tcp_question = record {
  inbound_tag = b'i' ∷ [];
  network = some kind_tcp;
  target = socket_target (v4 0x0a000001) 443;
  sniffed_protocol = some (b'x' ∷ []);
}

abbrev udp_question : Asked
udp_question = record {
  inbound_tag = b'j' ∷ [];
  network = some kind_udp;
  target = domain_target (b'h' ∷ []) 53;
  sniffed_protocol = some (b'd' ∷ b'n' ∷ b's' ∷ []);
}

route_after_sniff-kept_example :
    route_after_sniff fst_crate regex_crate lower router tcp_question
    ≡ some (
        first_of fst_crate regex_crate lower tcp_question
          (kept fst_crate regex_crate lower is_sniff (router.rules))
          (final_decision fst_crate regex_crate lower router))
route_after_sniff-kept_example =
    route_after_sniff-kept fst_crate regex_crate lower [] config router tcp_question router-built

route_after_resolve-kept_example :
    route_after_resolve fst_crate regex_crate lower router tcp_question
    ≡ some (
        first_of fst_crate regex_crate lower tcp_question
          (kept fst_crate regex_crate lower is_sniff_or_resolve (router.rules))
          (final_decision fst_crate regex_crate lower router))
route_after_resolve-kept_example =
    route_after_resolve-kept fst_crate regex_crate lower [] config router tcp_question router-built

route_after_resolve-is_final_example :
    (d : Decision fst_crate regex_crate lower) × (route_after_resolve fst_crate regex_crate lower
        router tcp_question
      ≡ some d)
    × (is_final (d.0) ≡ true)
route_after_resolve-is_final_example =
    route_after_resolve-is_final fst_crate regex_crate lower [] config router tcp_question
      router-built

udp_hijacked : is_sniff ((route fst_crate regex_crate lower router udp_question).0) ≡ false
unfolding route first_of matches rule_action bytes_eq
udp_hijacked = refl

route_after_sniff-route_example :
    route_after_sniff fst_crate regex_crate lower router udp_question
    ≡ some (route fst_crate regex_crate lower router udp_question)
route_after_sniff-route_example =
    route_after_sniff-route fst_crate regex_crate lower [] config router udp_question router-built
      udp_hijacked
