-- ===== src/Sniff/Tls.antt =====
-- `try_tls` of src/app/sniff.rs. The loops run on fuel, the length of the buffer.
pub mod Safety
pub mod Hello
pub mod Extensions
pub mod RoundTrip
use model_lib.Prelude.{
  ◌>>=◌, ℕ, zero, suc, ◌+◌, min, Bytes, bytes_eq, is_utf8, Bool, true, false, not, ◌&&◌, ◌||◌,
  Option, none, some, ok, err, [], ◌∷◌, length, ltb, leb, ◌==◌, if◌then◌else◌,
}
use model_lib.Sniff.Outcome.{SniffResult}
use model_lib.Std.Reads.{out_of_fuel, Read, at, slice, be_u16}

abbrev pub h2_name : Bytes
h2_name = b'h' ∷ (b'2' ∷ [])

abbrev pub tls_name : Bytes
tls_name = b't' ∷ (b'l' ∷ (b's' ∷ []))

-- `if let Ok(name) = from_utf8(..) { sni = Some(name) }`
unfoldable pub keep_name : Bytes → Option Bytes → Option Bytes
keep_name name sni = if is_utf8 name then some name else sni

-- The arm of the server name, behind its guard: `p` is behind the length of the list.
unfoldable pub server_name : Bytes → ℕ → ℕ → Option Bytes → Read (Option Bytes)
server_name buf p data_end sni = elim (ltb p data_end) [
  | false ↦ ok sni
  | true ↦ do
    kind ← at buf p
    elim (kind == 0 && leb (p + 1 + 2) data_end) [
      | false ↦ ok sni
      | true ↦ do
        name_len ← be_u16 buf (p + 1)
        elim (leb (p + 3 + name_len) data_end) [
          | false ↦ ok sni
          | true ↦ do name ← slice buf (p + 3) (p + 3 + name_len); ok (keep_name name sni)
        ]
    ]
]

-- The loop over the protocol names.
unfoldable pub find_h2 : ℕ → Bytes → ℕ → ℕ → Bool → Read Bool
find_h2 zero buf p list_end is_h2 = err out_of_fuel
find_h2 (suc fuel) buf p list_end is_h2 = elim (ltb p list_end) [
  | false ↦ ok is_h2
  | true ↦ do
    proto_len ← at buf p
    elim (leb (p + 1 + proto_len) list_end) [
      | false ↦ ok is_h2
      | true ↦ do
        proto ← slice buf (p + 1) (p + 1 + proto_len)
        find_h2 fuel buf (p + 1 + proto_len) list_end (bytes_eq proto h2_name || is_h2)
    ]
]

-- The arm of the protocol names, behind its guard.
unfoldable pub protocol_names : Bytes → ℕ → ℕ → Bool → Read Bool
protocol_names buf pos data_end is_h2 = do
  list_len ← be_u16 buf pos
  find_h2 (length buf + 1) buf (pos + 2) (min (pos + 2 + list_len) data_end) is_h2

-- One extension, by its type.
unfoldable pub read_extension : Bytes → ℕ → ℕ → ℕ → Option Bytes → Bool → Read (Option Bytes × Bool)
read_extension buf ext_type pos data_end sni is_h2 =
    elim (ext_type == 0x0000 && leb (pos + 2) data_end) [
      | true ↦ do name ← server_name buf (pos + 2) data_end sni; ok (name, is_h2)
      | false ↦ elim (ext_type == 0x0010 && leb (pos + 2) data_end) [
        | true ↦ do found ← protocol_names buf pos data_end is_h2; ok (sni, found)
        | false ↦ ok (sni, is_h2)
      ]
    ]

abbrev pub is_some : Option Bytes → Bool
is_some none = false
is_some (some name) = true

-- The loop over the extensions.
unfoldable pub read_extensions :
    ℕ → Bytes → ℕ → ℕ → Option Bytes → Bool → Read (Option Bytes × Bool)
read_extensions zero buf pos ext_end sni is_h2 = err out_of_fuel
read_extensions (suc fuel) buf pos ext_end sni is_h2 = elim (leb (pos + 4) ext_end) [
  | false ↦ ok (sni, is_h2)
  | true ↦ do
    ext_type ← be_u16 buf pos
    ext_len ← be_u16 buf (pos + 2)
    (name, found) ←
        read_extension buf ext_type (pos + 4) (min (pos + 4 + ext_len) ext_end) sni is_h2
    elim (is_some name && found) [
      | true ↦ ok (name, found)
      | false ↦ read_extensions fuel buf (min (pos + 4 + ext_len) ext_end) ext_end name found
    ]
]

unfoldable pub tls_result : Option Bytes × Bool → Option SniffResult
tls_result (none, is_h2) = none
tls_result (some domain, is_h2) =
    some (record { domain = some domain; protocol = if is_h2 then h2_name else tls_name })

-- From the length of the extensions on.
unfoldable pub from_extensions : Bytes → ℕ → Read (Option SniffResult)
from_extensions buf pos = elim (ltb (length buf) (pos + 2)) [
  | true ↦ ok none
  | false ↦ do
    ext_total ← be_u16 buf pos
    found ←
        read_extensions (length buf + 1) buf (pos + 2) (min (pos + 2 + ext_total) (length buf)) none
          false
    ok (tls_result found)
]

-- From the length of the compression methods on.
unfoldable pub from_compression : Bytes → ℕ → Read (Option SniffResult)
from_compression buf pos = elim (ltb (length buf) (pos + 1)) [
  | true ↦ ok none
  | false ↦ do cm_len ← at buf pos; from_extensions buf (pos + (1 + cm_len))
]

-- From the length of the cipher suites on.
unfoldable pub from_ciphers : Bytes → ℕ → Read (Option SniffResult)
from_ciphers buf pos = elim (ltb (length buf) (pos + 2)) [
  | true ↦ ok none
  | false ↦ do cs_len ← be_u16 buf pos; from_compression buf (pos + (2 + cs_len))
]

-- From the length of the session id on.
unfoldable pub from_session : Bytes → ℕ → Read (Option SniffResult)
from_session buf pos = elim (leb (length buf) pos) [
  | true ↦ ok none
  | false ↦ do sid_len ← at buf pos; from_ciphers buf (pos + (1 + sid_len))
]

unfoldable pub try_tls : Bytes → Read (Option SniffResult)
try_tls buf = elim (ltb (length buf) 43) [
  | true ↦ ok none
  | false ↦ do
    content_type ← at buf 0
    major ← at buf 1
    handshake_type ← at buf 5
    elim (not (content_type == 0x16) || (not (major == 0x03) || not (handshake_type == 0x01))) [
      | true ↦ ok none
      | false ↦ from_session buf (5 + 4 + 2 + 32)
    ]
]
