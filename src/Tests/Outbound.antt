-- ===== src/Tests/Outbound.antt =====
-- The frames of the outbound protocols at concrete inputs.
use model_lib.Prelude.{
  ◌<◌, ◌≡◌, refl, arith, Bytes, is_utf8, ok, err, List, [], ◌∷◌, length, replicate, All,
}
use model_lib.Std.Reads.{Fine, at}
use model_lib.Ruleset.Matcher.Engine.{v4}
use model_lib.Router.Route.{Target, domain_target, socket_target, port_of}
use model_lib.Outbound.Proto.Frames.{read_stream, stream, read_stream-stream}
use model_lib.Outbound.Proto.{
  vless_build_udp_request, vless_decode_udp_frame_len, frame_too_short, hy2_build_udp_datagram,
  hy2_parse_udp_datagram, hy2_write_addr, hy2_build_tcp_request, vless_build_request,
  vless_parse_response, vless_parse_uuid, vless_address, hex_value,
}
use model_lib.Outbound.Proto.Safety.{hy2_parse_udp_datagram-Fine}
use model_lib.Outbound.Proto.RoundTrip.{hy2_parse-build}
use model_lib.Outbound.Proto.Uuid.{print_hex, vless_parse_uuid-print_hex}

abbrev example_host : Target
example_host = domain_target (b'a' ∷ b'.' ∷ b'i' ∷ b'o' ∷ []) 443

vless_test :
    vless_build_request (replicate 2 9) example_host
    ≡ 0 ∷ 9 ∷ 9 ∷ 0 ∷ 1 ∷ 1 ∷ 187 ∷ 2 ∷ 4 ∷ b'a' ∷ b'.' ∷ b'i' ∷ b'o' ∷ []
unfolding vless_build_request vless_address port_of
vless_test = refl

hy2_test :
    hy2_build_tcp_request (socket_target (v4 0x7f000001) 80)
    ≡ 0 ∷ 127 ∷ 0 ∷ 0 ∷ 1 ∷ 0 ∷ 80 ∷ 0 ∷ 0 ∷ []
unfolding hy2_build_tcp_request hy2_write_addr
hy2_test = refl

response_test : vless_parse_response (0 ∷ 1 ∷ 5 ∷ 6 ∷ []) ≡ ok (ok 3)
unfolding vless_parse_response at
response_test = refl

hy2_parse-build_example :
    hy2_parse_udp_datagram (hy2_build_udp_datagram (1 ∷ 2 ∷ []) example_host 7)
    ≡ ok (ok (7, 1 ∷ 2 ∷ [], example_host))
unfolding is_utf8
hy2_parse-build_example =
    hy2_parse-build (1 ∷ 2 ∷ []) example_host 7 (omega arith) (omega arith, refl, omega arith)

hy2_parse_udp_datagram-Fine_example : Fine (hy2_parse_udp_datagram (replicate 12 2))
hy2_parse_udp_datagram-Fine_example = hy2_parse_udp_datagram-Fine (replicate 12 2)

-- Hyphens behind the bytes 4, 6, 8 and 10.
abbrev gaps : List Bytes
gaps =
    []
    ∷ []
    ∷ []
    ∷ []
    ∷ (b'-' ∷ [])
    ∷ []
    ∷ (b'-' ∷ [])
    ∷ []
    ∷ (b'-' ∷ [])
    ∷ []
    ∷ (b'-' ∷ [])
    ∷ []
    ∷ []
    ∷ []
    ∷ []
    ∷ []
    ∷ []

abbrev uuid : Bytes
uuid = 0x12 ∷ 0xab ∷ replicate 14 0xff

uuid_test : length (print_hex gaps uuid) ≡ 36
unfolding print_hex
uuid_test = refl

vless_parse_uuid-print_hex_example : vless_parse_uuid (print_hex gaps uuid) ≡ ok uuid
unfolding hex_value
vless_parse_uuid-print_hex_example =
    vless_parse_uuid-print_hex gaps uuid
      (
        tt,
        (
          tt,
          (
            tt,
            (
              tt,
              (
                (refl, tt),
                (
                  tt,
                  (
                    (refl, tt),
                    (tt, ((refl, tt), (tt, ((refl, tt), (tt, (tt, (tt, (tt, (tt, tt))))))))),
                  ),
                ),
              ),
            ),
          ),
        ),
      )
      (omega arith, (omega arith, bytes_14)) refl refl
  where
    bytes_14 : All (λ b. b < 256) (replicate 14 0xff)
    bytes_14 = (
      omega arith,
      (
        omega arith,
        (
          omega arith,
          (
            omega arith,
            (
              omega arith,
              (
                omega arith,
                (
                  omega arith,
                  (
                    omega arith,
                    (
                      omega arith,
                      (omega arith, (omega arith, (omega arith, (omega arith, (omega arith, tt))))),
                    ),
                  ),
                ),
              ),
            ),
          ),
        ),
      ),
    )

-- Two packets, one of them empty, and the head of a third.
read_stream-stream_example :
    read_stream 2 (stream ((1 ∷ 2 ∷ []) ∷ [] ∷ []) (0 ∷ []))
    ≡ ok (ok ((1 ∷ 2 ∷ []) ∷ [] ∷ [], 0 ∷ []))
read_stream-stream_example =
    read_stream-stream ((1 ∷ 2 ∷ []) ∷ [] ∷ []) (0 ∷ []) (omega arith, (omega arith, tt))

udp_test :
    vless_build_udp_request (replicate 2 9) example_host
    ≡ 0 ∷ 9 ∷ 9 ∷ 0 ∷ 2 ∷ 1 ∷ 187 ∷ 2 ∷ 4 ∷ b'a' ∷ b'.' ∷ b'i' ∷ b'o' ∷ []
unfolding vless_build_udp_request vless_address port_of
udp_test = refl

short_frame_test : vless_decode_udp_frame_len (7 ∷ []) ≡ ok (err frame_too_short)
unfolding vless_decode_udp_frame_len
short_frame_test = refl
