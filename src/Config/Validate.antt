-- ===== src/Config/Validate.antt =====
-- `Config::validate` of src/config/mod.rs. The tags of `route.rule_set` stand beside the route.
pub mod Loops
pub mod Resolved
use model_lib.Prelude.{
  ◌-◌, Bytes, bytes_eq, not, ◌&&◌, ◌||◌, Result, ok, ◌>>=◌, refuse_if, map_err, List, [], ◌∷◌,
  length, is_empty, ◌==◌, if◌then◌else◌,
}
use model_lib.Config.{RouteRuleConfig, RouteConfig}
use model_lib.Config.Outbound.{OutboundConfig}
use model_lib.Config.Inbound.{InboundConfig, InboundError, inbound_tag, check_inbound}
use model_lib.Config.Provider.{ProviderConfig, ProviderError, provider_tag, check_provider}
use model_lib.Config.Cycles.{member}
use model_lib.Config.Groups.{ConfigError, validate_outbounds}

-- The fields of a DNS rule that validation reads.
pub record DnsRuleConfig : Type 0 where
  pub inbound : List Bytes
  pub server : Bytes

-- The tags of the servers.
pub record DnsConfig : Type 0 where
  pub servers : List Bytes
  pub rules : List DnsRuleConfig
  pub final : Bytes

pub record Config : Type 0 where
  pub dns : DnsConfig
  pub inbounds : List InboundConfig
  pub providers : List ProviderConfig
  pub outbounds : List OutboundConfig
  pub route : RouteConfig
  pub rule_set : List Bytes

pub data ValidateError : Type 0 where
  duplicate_provider duplicate_inbound duplicate_server : Bytes → ValidateError
  invalid_provider : Bytes → ProviderError → ValidateError
  invalid_outbounds : ConfigError → ValidateError
  invalid_inbound : Bytes → InboundError → ValidateError
  unknown_final unknown_rule_outbound unknown_rule_set unknown_rule_inbound : Bytes → ValidateError
  unknown_dns_final unknown_dns_server unknown_dns_inbound : Bytes → ValidateError
  duplicate_rule_set : ValidateError

-- A loop that puts the tags of a list into a set, refuses one that is there, and checks each item.
unfoldable pub collect {ℓ} :
    {A : Type ℓ}
    → (A → Bytes)
    → (Bytes → ValidateError)
    → (A → Result ValidateError (Unit {0}))
    → List Bytes
    → List A
    → Result ValidateError (List Bytes)
collect tag duplicate check tags [] = ok tags
collect tag duplicate check tags (x ∷ xs) = do
  _ ← refuse_if (member (tag x) tags) (duplicate (tag x))
  _ ← check x
  collect tag duplicate check (tag x ∷ tags) xs

unfoldable pub collect_providers : List ProviderConfig → Result ValidateError (List Bytes)
collect_providers =
    collect provider_tag duplicate_provider
      (λ p. map_err (invalid_provider (provider_tag p)) (check_provider p)) []

unfoldable pub collect_inbounds : List InboundConfig → Result ValidateError (List Bytes)
collect_inbounds =
    collect inbound_tag duplicate_inbound
      (λ ib. map_err (invalid_inbound (inbound_tag ib)) (check_inbound ib)) []

unfoldable pub collect_servers : List Bytes → Result ValidateError (List Bytes)
collect_servers = collect (λ t. t) duplicate_server (λ t. ok tt) []

-- A loop that refuses the first tag that is not in the set.
unfoldable pub check_known :
    (Bytes → ValidateError) → List Bytes → List Bytes → Result ValidateError (Unit {0})
check_known unknown known [] = ok tt
check_known unknown known (t ∷ ts) = do
  _ ← refuse_if (not (member t known)) (unknown t)
  check_known unknown known ts

-- A loop over rules.
unfoldable pub check_each {ℓ} :
    {A : Type ℓ} → (A → Result ValidateError (Unit {0})) → List A → Result ValidateError (Unit {0})
check_each check [] = ok tt
check_each check (x ∷ xs) = do _ ← check x; check_each check xs

-- `dns-out`
abbrev pub dns_out : Bytes
dns_out = b'd' ∷ b'n' ∷ b's' ∷ b'-' ∷ b'o' ∷ b'u' ∷ b't' ∷ []

unfoldable pub check_rule_outbound : List Bytes → RouteRuleConfig → Result ValidateError (Unit {0})
check_rule_outbound ob_tags rule =
    if rule.hijack_dns || (rule.sniff || rule.resolve)
    then ok tt
    else refuse_if (not (bytes_eq rule.outbound dns_out) && not (member rule.outbound ob_tags))
        (unknown_rule_outbound rule.outbound)

-- `collect` into a set
unfoldable pub distinct : List Bytes → List Bytes
distinct [] = []
distinct (t ∷ ts) = let rest = distinct ts in if member t rest then rest else t ∷ rest

unfoldable pub validate_route :
    List Bytes → RouteConfig → List Bytes → Result ValidateError (Unit {0})
validate_route ob_tags route rule_set = do
  _ ← refuse_if (not (member route.final ob_tags)) (unknown_final route.final)
  _ ← check_each (check_rule_outbound ob_tags) route.rules
  _ ← refuse_if (not (length (distinct rule_set) == length rule_set)) duplicate_rule_set
  check_each (λ rule. check_known unknown_rule_set (distinct rule_set) rule.ruleset_tags)
      route.rules

unfoldable pub check_dns_rule :
    List Bytes → List Bytes → DnsRuleConfig → Result ValidateError (Unit {0})
check_dns_rule dns_tags in_tags rule = do
  _ ← refuse_if (not (member rule.server dns_tags)) (unknown_dns_server rule.server)
  check_known unknown_dns_inbound in_tags rule.inbound

unfoldable pub validate_dns : List Bytes → DnsConfig → Result ValidateError (Unit {0})
validate_dns in_tags dns = do
  dns_tags ← collect_servers dns.servers
  _ ←
      refuse_if (not (is_empty dns.servers) && not (member dns.final dns_tags))
        (unknown_dns_final dns.final)
  check_each (check_dns_rule dns_tags in_tags) dns.rules

-- `keys` is the order in which the hash map of the groups lists them.
unfoldable pub validate : Config → List Bytes → Result ValidateError (Unit {0})
validate c keys = do
  provider_tags ← collect_providers c.providers
  ob_tags ← map_err invalid_outbounds (validate_outbounds c.outbounds provider_tags keys)
  _ ← validate_route ob_tags c.route c.rule_set
  in_tags ← collect_inbounds c.inbounds
  _ ← check_each (λ rule. check_known unknown_rule_inbound in_tags rule.inbound) c.route.rules
  validate_dns in_tags c.dns
