-- ===== src/Config/Inbound.antt =====
-- `InboundConfig` of src/config/inbound.rs, with the fields that validation reads, and what
-- `Config::validate` of src/config/mod.rs checks of one inbound.
use model_lib.Prelude.{
  ℕ, Bytes, Bool, true, false, not, ◌&&◌, ◌||◌, Option, Result, ok, ◌>>=◌, refuse_if, map_err, List,
  [], ◌∷◌, is_empty, ◌==◌,
}
use model_lib.Config.{is_some}
use model_lib.Config.Groups.{UuidError, validate_uuid}

-- The name and the UUID of a user.
abbrev pub User : Type 0
User = Bytes × Bytes

-- The tag, the port, and the users: with UUIDs, or by their names.
pub data InboundConfig : Type 0 where
  tproxy redir mixed dns : Bytes → ℕ → InboundConfig
  tun : Bytes → InboundConfig
  vless vmess tuic : Bytes → ℕ → List User → InboundConfig
  trojan : Bytes → ℕ → List Bytes → InboundConfig
  shadowsocks : Bytes → ℕ → Option Bytes → List Bytes → InboundConfig
  hysteria2 : Bytes → ℕ → List Bytes → Bool → InboundConfig

unfoldable pub inbound_tag : InboundConfig → Bytes
inbound_tag (tproxy tag port) = tag
inbound_tag (redir tag port) = tag
inbound_tag (mixed tag port) = tag
inbound_tag (dns tag port) = tag
inbound_tag (tun tag) = tag
inbound_tag (vless tag port users) = tag
inbound_tag (vmess tag port users) = tag
inbound_tag (tuic tag port users) = tag
inbound_tag (trojan tag port users) = tag
inbound_tag (shadowsocks tag port password users) = tag
inbound_tag (hysteria2 tag port users tls) = tag

-- The port of `listen_addr`
unfoldable pub listen_port : InboundConfig → ℕ
listen_port (tproxy tag port) = port
listen_port (redir tag port) = port
listen_port (mixed tag port) = port
listen_port (dns tag port) = port
listen_port (tun tag) = 0
listen_port (vless tag port users) = port
listen_port (vmess tag port users) = port
listen_port (tuic tag port users) = port
listen_port (trojan tag port users) = port
listen_port (shadowsocks tag port password users) = port
listen_port (hysteria2 tag port users tls) = port

unfoldable pub is_tun : InboundConfig → Bool
is_tun (tun tag) = true
is_tun _ = false

pub data InboundError : Type 0 where
  port_zero no_users no_password tls_disabled : InboundError
  user_uuid : Bytes → UuidError → InboundError

-- The loop over the users of a protocol with UUIDs.
unfoldable pub check_users : List User → Result InboundError (Unit {0})
check_users [] = ok tt
check_users ((name, uuid) ∷ users) = do
  _ ← map_err (user_uuid name) (validate_uuid uuid)
  check_users users

unfoldable pub check_protocol : InboundConfig → Result InboundError (Unit {0})
check_protocol (vless tag port users) = check_users users
check_protocol (vmess tag port users) = check_users users
check_protocol (tuic tag port users) = check_users users
check_protocol (trojan tag port users) = refuse_if (is_empty users) no_users
check_protocol (shadowsocks tag port password users) =
    refuse_if (not (is_some password || not (is_empty users))) no_password
check_protocol (hysteria2 tag port users tls) = do
  _ ← refuse_if (is_empty users) no_users
  refuse_if (not tls) tls_disabled
check_protocol _ = ok tt

unfoldable pub check_inbound : InboundConfig → Result InboundError (Unit {0})
check_inbound ib = do
  _ ← refuse_if ((listen_port ib == 0) && not (is_tun ib)) port_zero
  check_protocol ib
