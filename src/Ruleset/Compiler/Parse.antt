-- ===== src/Ruleset/Compiler/Parse.antt =====
-- src/ruleset/compiler.rs: the parsers of single values.
use model_lib.Prelude.{
  ℕ, ◌-◌, ◌*◌, ◌%◌, ◌^◌, bit_and, Bytes, none, some, Result, ok, ◌>>=◌, ◌>>◌, refuse_if, ok_or,
  length, ltb, ◌==◌, if◌then◌else◌,
}
use model_lib.Std.Text.{trim, split_once}
use model_lib.Std.Numbers.{parse_below}
use model_lib.Std.Addresses.{ipv4_from_str, ipv6_from_str}
use model_lib.Ruleset.Error.{
  RuleSetError, parse_error, invalid_cidr, invalid_port, domain_too_long, missing_slash,
  bad_address, bad_prefix, prefix_range,
}
use model_lib.Ruleset.Loader.{Ipv4Addr, Ipv6Addr}

unfoldable pub validate_domain_len : Bytes → ℕ → Result RuleSetError (Unit {0})
validate_domain_len domain line =
    refuse_if (ltb 255 (length domain)) (parse_error line (domain_too_long (length domain) domain))

unfoldable pub mask_ipv4 : Ipv4Addr → ℕ → Ipv4Addr
mask_ipv4 addr prefix =
    let mask = (2 ^ 32 - 1) * 2 ^ (32 - prefix) % 2 ^ 32 in
    if prefix == 0 then 0 else bit_and addr mask

unfoldable pub mask_ipv6 : Ipv6Addr → ℕ → Ipv6Addr
mask_ipv6 addr prefix =
    let mask = (2 ^ 128 - 1) * 2 ^ (128 - prefix) % 2 ^ 128 in
    if prefix == 0 then 0 else bit_and addr mask

unfoldable pub parse_ipv4_cidr : Bytes → Result RuleSetError (Ipv4Addr × ℕ)
parse_ipv4_cidr s = do
  (addr_str, prefix_str) ← ok_or (split_once b'/' s) (invalid_cidr s missing_slash)
  addr ← ok_or (ipv4_from_str addr_str) (invalid_cidr s bad_address)
  prefix ← ok_or (parse_below (2 ^ 8) prefix_str) (invalid_cidr s bad_prefix)
  refuse_if (ltb 32 prefix) (invalid_cidr s prefix_range)
  ok (mask_ipv4 addr prefix, prefix)

unfoldable pub parse_ipv6_cidr : Bytes → Result RuleSetError (Ipv6Addr × ℕ)
parse_ipv6_cidr s = do
  (addr_str, prefix_str) ← ok_or (split_once b'/' s) (invalid_cidr s missing_slash)
  addr ← ok_or (ipv6_from_str addr_str) (invalid_cidr s bad_address)
  prefix ← ok_or (parse_below (2 ^ 8) prefix_str) (invalid_cidr s bad_prefix)
  refuse_if (ltb 128 prefix) (invalid_cidr s prefix_range)
  ok (mask_ipv6 addr prefix, prefix)

-- The two ends of a range, and the test on their order.
unfoldable pub port_range_of : Bytes → Bytes → Bytes → Result RuleSetError (ℕ × ℕ)
port_range_of s start_s end_s = do
  start ← ok_or (parse_below (2 ^ 16) (trim start_s)) (invalid_port s)
  end ← ok_or (parse_below (2 ^ 16) (trim end_s)) (invalid_port s)
  refuse_if (ltb end start) (invalid_port s)
  ok (start, end)

unfoldable pub single_port : Bytes → Result RuleSetError (ℕ × ℕ)
single_port s = do port ← ok_or (parse_below (2 ^ 16) (trim s)) (invalid_port s); ok (port, port)

unfoldable pub parse_port_range : Bytes → Result RuleSetError (ℕ × ℕ)
parse_port_range s = elim (split_once b'-' s) [
  | none ↦ single_port s
  | some p ↦ port_range_of s p.0 p.1
]

-- A colon in place of the hyphen, or else the form with a hyphen.
unfoldable pub parse_singbox_port_range : Bytes → Result RuleSetError (ℕ × ℕ)
parse_singbox_port_range s = elim (split_once b':' s) [
  | none ↦ parse_port_range s
  | some p ↦ port_range_of s p.0 p.1
]
