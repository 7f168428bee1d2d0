-- ===== src/Config.antt =====
-- src/config/route.rs: the route section of the configuration, behind its parser. The field
-- `ruleset`, a reserved word here, is `ruleset_tags`.
pub mod Outbound
pub mod Cycles
pub mod Groups
pub mod Inbound
pub mod Provider
pub mod Validate
use model_lib.Prelude.{ℕ, Bytes, Bool, true, false, not, ◌||◌, Option, none, some, List, is_empty}

pub data NetworkFilter : Type 0 where
  tcp udp : NetworkFilter

-- The first and the last port.
abbrev pub PortFilter : Type 0
PortFilter = ℕ × ℕ

pub record RouteRuleConfig : Type 0 where
  pub inbound : List Bytes
  pub network : Option NetworkFilter
  pub ruleset_tags : List Bytes
  pub domain : List Bytes
  pub domain_suffix : List Bytes
  pub domain_keyword : List Bytes
  pub ip_cidr : List Bytes
  pub port : List PortFilter
  pub port_range : List Bytes
  pub sniff : Bool
  pub sniff_timeout_ms : ℕ
  pub sniff_type : List Bytes
  pub sniff_override_destination : Bool
  pub protocol : List Bytes
  pub resolve : Bool
  pub resolve_server : Option Bytes
  pub hijack_dns : Bool
  pub outbound : Bytes

-- `Option::is_some`
abbrev pub is_some {ℓ} : {A : Type ℓ} → Option A → Bool
is_some none = false
is_some (some a) = true

unfoldable pub has_conditions : RouteRuleConfig → Bool
has_conditions r =
    not (is_empty r.inbound)
    || (is_some r.network
        || (not (is_empty r.protocol)
            || (not (is_empty r.ruleset_tags)
                || (not (is_empty r.domain)
                    || (not (is_empty r.domain_suffix)
                        || (not (is_empty r.domain_keyword)
                            || (not (is_empty r.ip_cidr)
                                || (not (is_empty r.port) || not (is_empty r.port_range)))))))))

-- The rules and the outbound of last resort; the rule sets enter where they are loaded.
pub record RouteConfig : Type 0 where
  pub rules : List RouteRuleConfig
  pub final : Bytes
