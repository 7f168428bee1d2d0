-- ===== src/Config/Outbound.antt =====
-- `OutboundConfig` of src/config/outbound.rs, with the fields that validation reads.
use model_lib.Prelude.{Bytes, Bool, true, false, Option, none, List, []}

-- `providers` of a group: the tags of a `ProviderRef`
pub record SelectorOutboundConfig : Type 0 where
  pub tag : Bytes
  pub outbounds : List Bytes
  pub default : Option Bytes
  pub providers : Option (List Bytes)

pub record UrlTestOutboundConfig : Type 0 where
  pub tag : Bytes
  pub outbounds : List Bytes
  pub providers : Option (List Bytes)
  pub interval : Bytes
  pub idle_timeout : Bytes

-- A protocol has its tag, and its UUID where it has one.
pub data OutboundConfig : Type 0 where
  vless vmess tuic : Bytes → Bytes → OutboundConfig
  shadowsocks hysteria2 trojan direct block socks : Bytes → OutboundConfig
  selector : SelectorOutboundConfig → OutboundConfig
  url_test : UrlTestOutboundConfig → OutboundConfig

unfoldable pub tag_of : OutboundConfig → Bytes
tag_of (vless tag uuid) = tag
tag_of (vmess tag uuid) = tag
tag_of (tuic tag uuid) = tag
tag_of (shadowsocks tag) = tag
tag_of (hysteria2 tag) = tag
tag_of (trojan tag) = tag
tag_of (direct tag) = tag
tag_of (block tag) = tag
tag_of (socks tag) = tag
tag_of (selector c) = c.tag
tag_of (url_test c) = c.tag

unfoldable pub child_outbounds : OutboundConfig → List Bytes
child_outbounds (selector c) = c.outbounds
child_outbounds (url_test c) = c.outbounds
child_outbounds _ = []

unfoldable pub group_providers : OutboundConfig → Option (List Bytes)
group_providers (selector c) = c.providers
group_providers (url_test c) = c.providers
group_providers _ = none

unfoldable pub group_default : OutboundConfig → Option Bytes
group_default (selector c) = c.default
group_default _ = none

unfoldable pub is_group : OutboundConfig → Bool
is_group (selector c) = true
is_group (url_test c) = true
is_group _ = false
