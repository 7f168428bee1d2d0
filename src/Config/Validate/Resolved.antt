-- ===== src/Config/Validate/Resolved.antt =====
-- What `Config::validate` of src/config/mod.rs lets pass.
use model_lib.Prelude.{
  ◌≡◌, inl, inr, arith, Bytes, bytes_eq, Bool, true, not, ◌&&◌, ◌||◌, Bool-cases, ok, map_err,
  >>=-eq-ok, refuse_if-eq-ok, List, [], length, is_empty, any, All, ◌==◌,
}
use model_lib.Config.{RouteRuleConfig, RouteConfig}
use model_lib.Config.Inbound.{inbound_tag}
use model_lib.Config.Cycles.{member}
use model_lib.Config.Groups.{validate_outbounds}
use model_lib.Config.Groups.Accepted.{All-map}
use model_lib.Config.Groups.Tags.{has_tag, map_err-eq-ok, validate_outbounds-has_tag}
use model_lib.Config.Validate.Loops.{
  collect-known, check_known-All, check_each-All, All-zip3, member-distinct,
}
use model_lib.Config.Validate.{
  Config, DnsConfig, DnsRuleConfig, invalid_outbounds, unknown_final, unknown_rule_set,
  unknown_rule_inbound, unknown_dns_final, unknown_dns_server, unknown_dns_inbound,
  duplicate_rule_set, collect_providers, collect_inbounds, collect_servers, check_known, check_each,
  dns_out, check_rule_outbound, distinct, validate_route, check_dns_rule, validate_dns, validate,
}

-- Some inbound has the tag.
abbrev pub has_inbound : Config → Bytes → Bool
has_inbound c t = any (λ ib. bytes_eq t (inbound_tag ib)) c.inbounds

-- The outbound of a rule that routes is `dns-out` or one of the configuration, and the
-- rule sets and inbounds that a rule names are declared.
abbrev pub IsRouted : Config → RouteRuleConfig → Type 0
IsRouted c rule =
    (((rule.hijack_dns || (rule.sniff || rule.resolve))
        || (bytes_eq rule.outbound dns_out || has_tag c.outbounds rule.outbound))
      ≡ true)
    × All (λ t. member t c.rule_set ≡ true) rule.ruleset_tags
    × All (λ t. has_inbound c t ≡ true) rule.inbound

abbrev pub IsServed : Config → DnsRuleConfig → Type 0
IsServed c rule =
    (member rule.server c.dns.servers ≡ true) × All (λ t. has_inbound c t ≡ true) rule.inbound

check_rule_outbound-known :
    (ob_tags : List Bytes) (rule : RouteRuleConfig)
    → check_rule_outbound ob_tags rule ≡ ok tt
    → ((rule.hijack_dns || (rule.sniff || rule.resolve))
        || (bytes_eq rule.outbound dns_out || member rule.outbound ob_tags))
      ≡ true
unfolding check_rule_outbound
check_rule_outbound-known ob_tags rule h = ground (arith, h)

validate_route-Resolves :
    (ob_tags : List Bytes) (route : RouteConfig) (rule_set : List Bytes)
    → validate_route ob_tags route rule_set ≡ ok tt
    → (member route.final ob_tags ≡ true)
      × All (λ rule. check_rule_outbound ob_tags rule ≡ ok tt) route.rules
      × All (λ rule. All (λ t. member t rule_set ≡ true) rule.ruleset_tags) route.rules
unfolding validate_route
validate_route-Resolves ob_tags route rule_set h =
    let (final, h1) =
      refuse_if-eq-ok (not (member route.final ob_tags)) (unknown_final route.final) _ h in
    let (_, outbounds, h2) =
      >>=-eq-ok (check_each (check_rule_outbound ob_tags) route.rules) _ h1 in
    let (_, h3) =
      refuse_if-eq-ok (not (length (distinct rule_set) == length rule_set)) duplicate_rule_set _
        h2 in
    let sets =
      check_each-All (λ rule. check_known unknown_rule_set (distinct rule_set) rule.ruleset_tags)
        route.rules h3 in
    (
      ground (arith, final),
      check_each-All (check_rule_outbound ob_tags) route.rules outbounds,
      All-map route.rules
          (λ rule e.
            All-map rule.ruleset_tags (member-distinct rule_set)
              (check_known-All unknown_rule_set (distinct rule_set) rule.ruleset_tags e))
          sets,
    )

check_dns_rule-Resolves :
    (servers dns_tags in_tags : List Bytes) (rule : DnsRuleConfig)
    → ((t : Bytes) → member t dns_tags ≡ true → member t servers ≡ true)
    → check_dns_rule dns_tags in_tags rule ≡ ok tt
    → (member rule.server servers ≡ true) × All (λ t. member t in_tags ≡ true) rule.inbound
unfolding check_dns_rule
check_dns_rule-Resolves servers dns_tags in_tags rule known e =
    let (server, later) =
      refuse_if-eq-ok (not (member rule.server dns_tags)) (unknown_dns_server rule.server) _ e in
    (
      known rule.server (ground (arith, server)),
      check_known-All unknown_dns_inbound in_tags rule.inbound later,
    )

validate_dns-Resolves :
    (in_tags : List Bytes) (dns : DnsConfig)
    → validate_dns in_tags dns ≡ ok tt
    → ((is_empty dns.servers || member dns.final dns.servers) ≡ true)
      × All
          (λ rule.
            (member rule.server dns.servers ≡ true)
            × All (λ t. member t in_tags ≡ true) rule.inbound)
          dns.rules
unfolding validate_dns collect_servers
validate_dns-Resolves in_tags dns h =
    let (dns_tags, collected, h1) = >>=-eq-ok (collect_servers dns.servers) _ h in
    let (final, h2) =
      refuse_if-eq-ok (not (is_empty dns.servers) && not (member dns.final dns_tags))
        (unknown_dns_final dns.final) _ h1 in
    let known : (t : Bytes) → member t dns_tags ≡ true → member t dns.servers ≡ true =
      collect-known (λ t. t) _ _ [] dns.servers collected in
    (
      elim (Bool-cases (is_empty dns.servers)) [
        | inl e ↦ ground (arith, e)
        | inr e ↦
            let found : member dns.final dns_tags ≡ true = ground (arith, e, final) in
            ground (arith, e, known dns.final found)
      ],
      All-map dns.rules
          (λ rule e. check_dns_rule-Resolves dns.servers dns_tags in_tags rule known e)
          (check_each-All (check_dns_rule dns_tags in_tags) dns.rules h2),
    )

collect_inbounds-known :
    (c : Config) {tags : List Bytes}
    → collect_inbounds c.inbounds ≡ ok tags
    → (t : Bytes) → member t tags ≡ true
    → has_inbound c t ≡ true
unfolding collect_inbounds
collect_inbounds-known c h = collect-known inbound_tag _ _ [] c.inbounds h

-- Of a validated configuration: the outbound of last resort is an outbound; a rule that does not
-- sniff, resolve or hijack goes to an outbound or to `dns-out`; the rule sets and inbounds of every
-- rule are declared; every DNS rule asks a declared server and names declared inbounds; and where
-- there are servers, the last one asked is one of them. The DNS server that a rule resolves with
-- is not looked up.
pub validate-Resolves :
    (c : Config) (keys : List Bytes)
    → validate c keys ≡ ok tt
    → (has_tag c.outbounds c.route.final ≡ true)
      × All (IsRouted c) c.route.rules
      × All (IsServed c) c.dns.rules
      × ((is_empty c.dns.servers || member c.dns.final c.dns.servers) ≡ true)
unfolding validate
validate-Resolves c keys h =
    let (provider_tags, _, h1) = >>=-eq-ok (collect_providers c.providers) _ h in
    let (ob_tags, accepted, h2) =
      >>=-eq-ok (map_err invalid_outbounds (validate_outbounds c.outbounds provider_tags keys)) _
        h1 in
    let (_, routed, h3) = >>=-eq-ok (validate_route ob_tags c.route c.rule_set) _ h2 in
    let (in_tags, collected, h4) = >>=-eq-ok (collect_inbounds c.inbounds) _ h3 in
    let (_, inbounds, served) =
      >>=-eq-ok
        (check_each (λ rule. check_known unknown_rule_inbound in_tags rule.inbound) c.route.rules) _
        h4 in
    let outbound : (t : Bytes) → member t ob_tags ≡ true → has_tag c.outbounds t ≡ true =
      validate_outbounds-has_tag c.outbounds provider_tags keys (
        map_err-eq-ok invalid_outbounds (validate_outbounds c.outbounds provider_tags keys)
          accepted) in
    let inbound = collect_inbounds-known c collected in
    let (final, outbounds, sets) = validate_route-Resolves ob_tags c.route c.rule_set routed in
    let (dns_final, servers) = validate_dns-Resolves in_tags c.dns served in
    (
      outbound c.route.final final,
      All-zip3 c.route.rules
          (λ rule e s k. (
            goes c ob_tags outbound rule e,
            s,
            All-map rule.inbound inbound
                (check_known-All unknown_rule_inbound in_tags rule.inbound k),
          ))
          outbounds sets
          (check_each-All (λ rule. check_known unknown_rule_inbound in_tags rule.inbound)
            c.route.rules inbounds),
      All-map c.dns.rules (λ rule e. (e.0, All-map rule.inbound inbound e.1)) servers,
      dns_final,
    )
  where
    goes :
        (c : Config) (ob_tags : List Bytes)
        → ((t : Bytes) → member t ob_tags ≡ true → has_tag c.outbounds t ≡ true)
        → (rule : RouteRuleConfig) → check_rule_outbound ob_tags rule ≡ ok tt
        → ((rule.hijack_dns || (rule.sniff || rule.resolve))
            || (bytes_eq rule.outbound dns_out || has_tag c.outbounds rule.outbound))
          ≡ true
    goes c ob_tags outbound rule e =
        either (rule.hijack_dns || (rule.sniff || rule.resolve)) (bytes_eq rule.outbound dns_out)
          (member rule.outbound ob_tags) (has_tag c.outbounds rule.outbound)
          (check_rule_outbound-known ob_tags rule e) (outbound rule.outbound)
      where
        either :
            (a b m n : Bool)
            → (a || (b || m)) ≡ true
            → (m ≡ true → n ≡ true)
            → (a || (b || n)) ≡ true
        either a b m n h f = ground (arith, h, f)
