-- ===== src/Outbound/Proto.antt =====
-- The frames of VLESS and Hysteria2, src/outbound/proto.rs. A buffer is the list of its bytes, an
-- address the number of its octets.
pub mod Safety
pub mod RoundTrip
pub mod Uuid
pub mod Frames
use model_lib.Prelude.{
  ◌>>=◌, ℕ, ◌+◌, ◌-◌, ◌*◌, ◌%◌, ◌^◌, Bytes, is_utf8, true, false, ◌&&◌, Option, none, some, Result,
  ok, err, List, [], ◌∷◌, ◌++◌, length, ltb, leb, ◌==◌, if◌then◌else◌,
}
use model_lib.Prelude.Words.{be_bytes, of_be_bytes, le_bytes, of_le_bytes}
use model_lib.Std.Reads.{Read, at, slice, be_u16}
use model_lib.Ruleset.Matcher.Engine.{IpAddr, v4, v6}
use model_lib.Router.Route.{Target, domain_target, socket_target, port_of}

-- `anyhow` errors: one for each message, and one for each condition without one
pub data ProtoError : Type 0 where
  invalid_uuid : Bytes → ProtoError
  response_too_short response_truncated : ProtoError
  unsupported_version : ℕ → ProtoError
  datagram_too_short missing_addr_type truncated not_utf8 : ProtoError
  unknown_atyp : ℕ → ProtoError
  frame_too_short : ProtoError

abbrev pub Parsed : Type 0 → Type 0
Parsed A = Read (Result ProtoError A)

-- `u8::from_str_radix` and `is_ascii_hexdigit` on one character
unfoldable pub hex_value : ℕ → Option ℕ
hex_value c =
    if leb b'0' c && leb c b'9'
    then some (c - b'0')
    else if leb b'a' c && leb c b'f'
    then some (c - b'a' + 10)
    else if leb b'A' c && leb c b'F'
    then some (c - b'A' + 10)
    else none

-- `s.chars().filter(is_ascii_hexdigit)`, with the digits' values
unfoldable pub hex_digits : Bytes → List ℕ
hex_digits [] = []
hex_digits (c ∷ s) = elim (hex_value c) [ none ↦ hex_digits s | some d ↦ d ∷ hex_digits s ]

unfoldable pub hex_pairs : List ℕ → Bytes
hex_pairs (a ∷ b ∷ ds) = (a * 16 + b) ∷ hex_pairs ds
hex_pairs _ = []

unfoldable pub vless_parse_uuid : Bytes → Result ProtoError Bytes
vless_parse_uuid s =
    let hex = hex_digits s in if length hex == 32 then ok (hex_pairs hex) else err (invalid_uuid s)

-- The address types 1, 2 and 3. `host.len() as u8` wraps.
unfoldable pub vless_address : Target → Bytes
vless_address (domain_target host port) = 0x02 ∷ (length host % 256) ∷ host
vless_address (socket_target (v4 ip) port) = 0x01 ∷ be_bytes 4 ip
vless_address (socket_target (v6 ip) port) = 0x03 ∷ be_bytes 16 ip

unfoldable pub vless_build_request : Bytes → Target → Bytes
vless_build_request uuid target =
    0x00 ∷ (uuid ++ (0x00 ∷ 0x01 ∷ (be_bytes 2 (port_of target) ++ vless_address target)))

unfoldable pub vless_build_udp_request : Bytes → Target → Bytes
vless_build_udp_request uuid target =
    0x00 ∷ (uuid ++ (0x00 ∷ 0x02 ∷ (be_bytes 2 (port_of target) ++ vless_address target)))

-- `payload.len() as u16` wraps.
unfoldable pub vless_encode_udp_frame : Bytes → Bytes
vless_encode_udp_frame payload = be_bytes 2 (length payload % 2 ^ 16) ++ payload

-- The length of the frame's head, and of its payload.
unfoldable pub vless_decode_udp_frame_len : Bytes → Parsed (ℕ × ℕ)
vless_decode_udp_frame_len buf = elim (leb 2 (length buf)) [
  | false ↦ ok (err frame_too_short)
  | true ↦ do data_len ← be_u16 buf 0; ok (ok (2, data_len))
]

-- How many bytes the response's head has.
unfoldable pub vless_parse_response : Bytes → Parsed ℕ
vless_parse_response buf = elim (leb 2 (length buf)) [
  | false ↦ ok (err response_too_short)
  | true ↦ do
    version ← at buf 0
    elim (version == 0x00) [
      | false ↦ ok (err (unsupported_version version))
      | true ↦ do
        addon_len ← at buf 1
        elim (leb (2 + addon_len) (length buf)) [
          | false ↦ ok (err response_truncated)
          | true ↦ ok (ok (2 + addon_len))
        ]
    ]
]

unfoldable pub hy2_write_addr : Target → Bytes
hy2_write_addr (domain_target host port) = 0x02 ∷ (length host % 256) ∷ (host ++ be_bytes 2 port)
hy2_write_addr (socket_target (v4 ip) port) = 0x00 ∷ (be_bytes 4 ip ++ be_bytes 2 port)
hy2_write_addr (socket_target (v6 ip) port) = 0x01 ∷ (be_bytes 16 ip ++ be_bytes 2 port)

unfoldable pub hy2_build_tcp_request : Target → Bytes
hy2_build_tcp_request target = hy2_write_addr target ++ (0 ∷ 0 ∷ [])

unfoldable pub hy2_build_udp_datagram : Bytes → Target → ℕ → Bytes
hy2_build_udp_datagram payload target session_id =
    le_bytes 4 session_id ++ (0 ∷ 0 ∷ 0x00 ∷ 0x01 ∷ (hy2_write_addr target ++ payload))

-- A target, and where the payload begins.
abbrev pub Source : Type 0
Source = Target × ℕ

-- An address of `n` octets and the port behind it.
unfoldable pub hy2_socket : ℕ → (ℕ → IpAddr) → Bytes → ℕ → Parsed Source
hy2_socket n ip_from buf cur = elim (leb (cur + (n + 2)) (length buf)) [
  | false ↦ ok (err truncated)
  | true ↦ do
    octets ← slice buf cur (cur + n)
    port ← be_u16 buf (cur + n)
    ok (ok (socket_target (ip_from (of_be_bytes octets)) port, cur + n + 2))
]

unfoldable pub hy2_domain : Bytes → ℕ → Parsed Source
hy2_domain buf cur = elim (ltb cur (length buf)) [
  | false ↦ ok (err truncated)
  | true ↦ do
    dlen ← at buf cur
    elim (leb (cur + 1 + (dlen + 2)) (length buf)) [
      | false ↦ ok (err truncated)
      | true ↦ do
        domain ← slice buf (cur + 1) (cur + 1 + dlen)
        elim (is_utf8 domain) [
          | false ↦ ok (err not_utf8)
          | true ↦ do
            port ← be_u16 buf (cur + 1 + dlen)
            ok (ok (domain_target domain port, cur + 1 + dlen + 2))
        ]
    ]
]

-- The match on the address type.
unfoldable pub hy2_source : ℕ → Bytes → ℕ → Parsed Source
hy2_source atyp buf cur =
    if atyp == 0x00
    then hy2_socket 4 v4 buf cur
    else if atyp == 0x01
    then hy2_socket 16 v6 buf cur
    else if atyp == 0x02
    then hy2_domain buf cur
    else ok (err (unknown_atyp atyp))

-- `?` on the source, and the payload behind it.
unfoldable pub hy2_payload : Bytes → ℕ → Result ProtoError Source → Parsed (ℕ × Bytes × Target)
hy2_payload buf session_id (err e) = ok (err e)
hy2_payload buf session_id (ok (target, cur)) = do
  payload ← slice buf cur (length buf)
  ok (ok (session_id, payload, target))

unfoldable pub hy2_parse_udp_datagram : Bytes → Parsed (ℕ × Bytes × Target)
hy2_parse_udp_datagram buf = elim (leb 8 (length buf)) [
  | false ↦ ok (err datagram_too_short)
  | true ↦ do
    session ← slice buf 0 4
    elim (ltb 8 (length buf)) [
      | false ↦ ok (err missing_addr_type)
      | true ↦ do
        atyp ← at buf 8
        source ← hy2_source atyp buf 9
        hy2_payload buf (of_le_bytes session) source
    ]
]
