-- ===== src/Sniff/Quic.antt =====
-- `try_quic` of src/app/sniff.rs and what it calls.
pub mod Varint
pub mod Initial
pub mod Frames
pub mod Safety
use model_lib.Prelude.{
  ◌>>=◌, ℕ, ◌+◌, ◌/◌, min, bit_and, Bytes, Bool, true, false, ◌||◌, Option, none, some, ok, [], ◌∷◌,
  length, is_empty, ltb, leb, ◌==◌, if◌then◌else◌,
}
use model_lib.Prelude.Words.{of_be_bytes}
use model_lib.Sniff.Outcome.{SniffResult}
use model_lib.Std.Reads.{Read, at, slice, and_then}
use model_lib.Sniff.Quic.Varint.{reads, read_varint}
use model_lib.Sniff.Quic.Initial.{decrypt_quic_initial}
use model_lib.Sniff.Quic.Frames.{extract_sni_from_quic_crypto}

unfoldable pub quic_v1_initial_salt : Bytes
quic_v1_initial_salt =
    0x38 ∷ 0x76 ∷ 0x2c ∷ 0xf7 ∷ 0xf5 ∷ 0x59 ∷ 0x34 ∷ 0xb3 ∷ 0x4d ∷ 0x17 ∷ 0x9a ∷ 0xe6 ∷ 0xa4 ∷ 0xc8
    ∷ 0x0c ∷ 0xad ∷ 0xcc ∷ 0xbb ∷ 0x7f ∷ 0x0a ∷ []

unfoldable pub quic_v2_initial_salt : Bytes
quic_v2_initial_salt =
    0x0d ∷ 0xed ∷ 0xe3 ∷ 0xde ∷ 0xf7 ∷ 0x00 ∷ 0xa6 ∷ 0xdb ∷ 0x81 ∷ 0x93 ∷ 0x81 ∷ 0xbe ∷ 0x6e ∷ 0x26
    ∷ 0x9d ∷ 0xcb ∷ 0xf9 ∷ 0xbd ∷ 0x2e ∷ 0xd9 ∷ []

unfoldable pub quic_draft29_initial_salt : Bytes
quic_draft29_initial_salt =
    0xaf ∷ 0xbf ∷ 0xec ∷ 0x28 ∷ 0x99 ∷ 0x93 ∷ 0xd2 ∷ 0x4c ∷ 0x9e ∷ 0x97 ∷ 0x86 ∷ 0xf1 ∷ 0x9c ∷ 0x61
    ∷ 0x11 ∷ 0xe0 ∷ 0x43 ∷ 0x90 ∷ 0xa8 ∷ 0x99 ∷ []

-- Whether a version is the second one, and its salt.
unfoldable pub initial_salt_of : ℕ → Option (Bool × Bytes)
initial_salt_of version =
    if version == 0x00000001
    then some (false, quic_v1_initial_salt)
    else if version == 0x6b3343cf
    then some (true, quic_v2_initial_salt)
    else if version == 0xff00001d
    then some (false, quic_draft29_initial_salt)
    else none

-- From the length of the packet on: its payload is cut at the end of the buffer.
unfoldable pub open_packet : Bytes → ℕ → Bytes → Bytes → Bool → Read (Option SniffResult)
open_packet buf pos dcid salt is_v2 = do
  found ← read_varint buf pos
  and_then found λ pkt. elim (leb (length buf) (pos + pkt.1)) [
    | true ↦ ok none
    | false ↦ do
      payload ← slice buf (pos + pkt.1) (min (pos + pkt.1 + pkt.0) (length buf))
      elim (is_empty payload) [
        | true ↦ ok none
        | false ↦ do
          opened ← decrypt_quic_initial dcid salt payload is_v2
          and_then opened extract_sni_from_quic_crypto
      ]
  ]

-- From the source connection id on.
unfoldable pub from_source_id : Bytes → ℕ → Bytes → Bytes → Bool → Read (Option SniffResult)
from_source_id buf pos dcid salt is_v2 = elim (leb (length buf) pos) [
  | true ↦ ok none
  | false ↦ do
    scid_len ← at buf pos
    elim (ltb (length buf) (pos + 1 + scid_len)) [
      | true ↦ ok none
      | false ↦ do
        found ← read_varint buf (pos + 1 + scid_len)
        and_then found
            λ token. open_packet buf (pos + 1 + scid_len + (token.1 + token.0)) dcid salt is_v2
    ]
]

-- From the destination connection id on.
unfoldable pub from_destination_id : Bytes → ℕ → Bytes → Bool → Read (Option SniffResult)
from_destination_id buf pos salt is_v2 = elim (leb (length buf) pos) [
  | true ↦ ok none
  | false ↦ do
    dcid_len ← at buf pos
    elim (dcid_len == 0 || (ltb 20 dcid_len || ltb (length buf) (pos + 1 + dcid_len))) [
      | true ↦ ok none
      | false ↦ do
        dcid ← slice buf (pos + 1) (pos + 1 + dcid_len)
        from_source_id buf (pos + 1 + dcid_len) dcid salt is_v2
    ]
]

-- The type of a packet is `(buf[0] & 0x30) >> 4`.
unfoldable pub try_quic : Bytes → Read (Option SniffResult)
try_quic buf = elim (ltb (length buf) 6) [
  | true ↦ ok none
  | false ↦ do
    first ← at buf 0
    elim (bit_and first 0xc0 == 0xc0) [
      | false ↦ ok none
      | true ↦ do
        version ← reads 4 buf 1
        and_then (initial_salt_of (of_be_bytes version)) λ known.
            elim (bit_and first 0x30 / 16 == (if known.0 then 1 else 0)) [
              | false ↦ ok none
              | true ↦ from_destination_id buf 5 known.1 known.0
            ]
    ]
]
