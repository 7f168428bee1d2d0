-- ===== src/Tests/Validate.antt =====
-- The validation of a whole configuration at concrete inputs.
use model_lib.Prelude.{◌≡◌, refl, bytes_eq, true, false, ◌||◌, none, ok, err, [], ◌∷◌, All}
use model_lib.Std.Text.{trim}
use model_lib.Std.Numbers.{digit, parse_below, unsigned, read_digits}
use model_lib.Config.{RouteRuleConfig}
use model_lib.Config.Inbound.{
  inbound_tag, mixed, tun, listen_port, is_tun, check_inbound, check_protocol,
}
use model_lib.Config.Provider.{
  remote, provider_tag, check_provider, check_health, strip_suffix, seconds_of,
  parse_provider_duration,
}
use model_lib.Config.Outbound.{tag_of, child_outbounds, group_default, group_providers, is_group}
use model_lib.Config.Cycles.{
  member, graph_onto, validate_outbound_group_cycles, contains_key, children_of, visit_all, visit,
  visit_children, children_or_none, remove,
}
use model_lib.Config.Groups.{
  validate_outbounds, check_tags, check_groups, check_uuid, validate_outbound_group, check_children,
  check_providers, check_default, check_durations,
}
use model_lib.Config.Groups.Tags.{has_tag}
use model_lib.Config.Validate.{
  Config, unknown_final, collect, collect_providers, collect_inbounds, collect_servers, check_known,
  check_each, check_rule_outbound, distinct, validate_route, check_dns_rule, validate_dns, validate,
}
use model_lib.Config.Validate.Resolved.{IsRouted, IsServed, validate-Resolves}
use model_lib.Tests.Router.{no_rule}
use model_lib.Tests.Config.{example_outbounds, example_keys}

abbrev example_rule : RouteRuleConfig
example_rule = record no_rule {
  inbound = (b't' ∷ []) ∷ [];
  ruleset_tags = (b's' ∷ []) ∷ [];
  outbound = b'a' ∷ [];
}

abbrev example_config : Config
example_config = record {
  dns = record {
    servers = (b'l' ∷ []) ∷ [];
    rules = record { inbound = (b'i' ∷ []) ∷ []; server = b'l' ∷ [] } ∷ [];
    final = b'l' ∷ [];
  };
  inbounds = mixed (b'i' ∷ []) 1080 ∷ tun (b't' ∷ []) ∷ [];
  providers = remote (b'p' ∷ []) (b'2' ∷ b'4' ∷ b'h' ∷ []) none ∷ [];
  outbounds = example_outbounds;
  route = record { rules = example_rule ∷ []; final = b'x' ∷ [] };
  rule_set = (b's' ∷ []) ∷ [];
}

hours_test : parse_provider_duration (b'2' ∷ b'4' ∷ b'h' ∷ []) ≡ ok 86400
unfolding parse_provider_duration seconds_of strip_suffix trim parse_below unsigned read_digits
    digit
hours_test = refl

final_test :
    validate
      (record example_config { route = record { rules = []; final = b'y' ∷ [] } })
      example_keys
    ≡ err (unknown_final (b'y' ∷ []))
unfolding validate collect collect_providers collect_inbounds collect_servers check_known check_each
    check_rule_outbound distinct validate_route check_dns_rule validate_dns inbound_tag listen_port
    is_tun check_inbound check_protocol provider_tag check_provider check_health
    parse_provider_duration seconds_of strip_suffix trim parse_below unsigned read_digits digit
    validate_outbounds check_tags check_groups check_uuid validate_outbound_group check_children
    check_providers check_default check_durations group_default group_providers
    validate_outbound_group_cycles visit_all visit graph_onto is_group visit_children
    children_or_none children_of bytes_eq tag_of child_outbounds contains_key remove
final_test = refl

valid_test : validate example_config example_keys ≡ ok tt
unfolding validate collect collect_providers collect_inbounds collect_servers check_known check_each
    check_rule_outbound distinct validate_route check_dns_rule validate_dns inbound_tag listen_port
    is_tun check_inbound check_protocol provider_tag check_provider check_health
    parse_provider_duration seconds_of strip_suffix trim parse_below unsigned read_digits digit
    validate_outbounds check_tags check_groups check_uuid validate_outbound_group check_children
    check_providers check_default check_durations group_default group_providers
    validate_outbound_group_cycles visit_all visit graph_onto is_group visit_children
    children_or_none children_of bytes_eq tag_of child_outbounds contains_key remove
valid_test = refl

validate-Resolves_example :
    (has_tag example_outbounds (b'x' ∷ []) ≡ true)
    × All (IsRouted example_config) (example_rule ∷ [])
    × All (IsServed example_config) example_config.dns.rules
    × ((false || member (b'l' ∷ []) ((b'l' ∷ []) ∷ [])) ≡ true)
validate-Resolves_example = validate-Resolves example_config example_keys valid_test
