-- ===== src/Tests/Sniff.antt =====
-- The sniffers at concrete inputs.
use model_lib.Prelude.{
  ◌%◌, ◌≡◌, refl, arith, Bytes, bytes_eq, is_utf8, Option, some, ok, [], ◌∷◌, ◌++◌, length,
  replicate,
}
use model_lib.Prelude.Words.{IsBytes}
use model_lib.Router.Rule.{tls, ssh}
use model_lib.Std.Reads.{Fine, at, slice, be_u16, starts_with}
use model_lib.Std.Text.{to_ascii_lowercase, trim}
use model_lib.Sniff.Outcome.{SniffResult}
use model_lib.Sniff.Tls.{
  try_tls, tls_result, h2_name, from_session, from_ciphers, from_compression, from_extensions,
  read_extensions, read_extension, server_name, protocol_names, find_h2, keep_name,
}
use model_lib.Sniff.Tls.Safety.{try_tls-Fine}
use model_lib.Sniff.Tls.Hello.{
  Hello, hello_bytes, extension_bytes, protocol_bytes, server, protocols, other,
}
use model_lib.Sniff.Http.{host_of, http_mark, http_name, host_domain, strip_prefix, before_colon}
use model_lib.Sniff.Signatures.{ssh_mark}
use model_lib.Sniff.Quic.{try_quic}
use model_lib.Sniff.Quic.Safety.{try_quic-Fine}
use model_lib.Sniff.Quic.Varint.{read_varint}
use model_lib.Sniff.Quic.Varint.Bounds.{read_varint-InBounds, InBounds, Ends}
use model_lib.Sniff.Quic.Varint.RoundTrip.{varint, read_varint-varint}
use model_lib.Sniff.Packet.{sniff}
use model_lib.Sniff.Packet.Safety.{sniff-first, first_answer}
use model_lib.Sniff.Crypto.Sha256.{sha256, pad_message}
use model_lib.Sniff.Crypto.Sha256.Digest.{sha256-length}

abbrev name : Bytes
name = b'a' ∷ b'.' ∷ b'i' ∷ b'o' ∷ []

-- A ClientHello with an unread extension, a server name and two protocols.
abbrev hello : Hello
hello = record {
  minor = 1;
  record_length = 98;
  opening = replicate 37 7;
  session_id = replicate 3 9;
  cipher_suites = 0x13 ∷ 0x01 ∷ [];
  compression = 0 ∷ [];
  extensions = other 0x0017 [] ∷ server name ∷ protocols (h2_name ∷ http_name ∷ []) ∷ [];
  behind = 5 ∷ [];
}

abbrev two_names : Option SniffResult
two_names = some (record { domain = some name; protocol = h2_name })

hello_test : try_tls (hello_bytes hello) ≡ ok two_names
unfolding try_tls hello_bytes extension_bytes protocol_bytes at slice be_u16 from_session
    from_ciphers from_compression from_extensions read_extensions read_extension server_name
    protocol_names find_h2 keep_name tls_result is_utf8 bytes_eq
hello_test = refl

try_tls-Fine_example : Fine (try_tls (0x16 ∷ 0x03 ∷ replicate 60 255))
try_tls-Fine_example = try_tls-Fine (0x16 ∷ 0x03 ∷ replicate 60 255)

try_quic-Fine_example : Fine (try_quic (0xc0 ∷ 0 ∷ 0 ∷ 0 ∷ 1 ∷ 8 ∷ replicate 60 255))
try_quic-Fine_example = try_quic-Fine (0xc0 ∷ 0 ∷ 0 ∷ 0 ∷ 1 ∷ 8 ∷ replicate 60 255)

abbrev ssh_banner : Bytes
ssh_banner = ssh_mark ++ (b'2' ∷ b'.' ∷ b'0' ∷ [])

sniff-first_example :
    sniff (tls ∷ ssh ∷ []) (some ssh_banner)
    ≡ ok (ssh_banner, first_answer (tls ∷ ssh ∷ []) ssh_banner)
sniff-first_example = sniff-first (tls ∷ ssh ∷ []) ssh_banner (omega arith)

-- The two bytes 0x40 0x25 are 37.
read_varint-varint_example : read_varint (7 ∷ (varint 1 37 ++ (9 ∷ []))) 1 ≡ ok (some (37, 2))
read_varint-varint_example = read_varint-varint 1 37 (7 ∷ []) (9 ∷ []) (omega arith) (omega arith)

read_varint-InBounds_example : Ends (InBounds (0xc0 ∷ 1 ∷ []) 0) (read_varint (0xc0 ∷ 1 ∷ []) 0)
read_varint-InBounds_example = read_varint-InBounds (0xc0 ∷ 1 ∷ []) 0

-- "GET / HTTP/1.1" and "Host: A.io:80"
abbrev get_line : Bytes
get_line = b'G' ∷ b'E' ∷ b'T' ∷ b' ' ∷ b'/' ∷ (http_mark ++ (b'1' ∷ b'.' ∷ b'1' ∷ []))

abbrev host_line : Bytes
host_line =
    b'H' ∷ b'o' ∷ b's' ∷ b't' ∷ b':' ∷ b' ' ∷ b'A' ∷ b'.' ∷ b'i' ∷ b'o' ∷ b':' ∷ b'8' ∷ b'0' ∷ []

host_test : host_of (host_line ∷ []) ≡ some (record { domain = some name; protocol = http_name })
unfolding host_of host_domain strip_prefix starts_with before_colon to_ascii_lowercase trim
host_test = refl

abbrev host_value : Bytes
host_value = b' ' ∷ b'A' ∷ b'.' ∷ b'i' ∷ b'o' ∷ b':' ∷ b'8' ∷ b'0' ∷ []

sha256-length_example :
    (length (pad_message name) % 64 ≡ 0) × (length (sha256 name) ≡ 32) × IsBytes (sha256 name)
sha256-length_example = sha256-length name
