-- ===== src/Sniff/Packet.antt =====
-- `sniff` and `sniff_packet` of src/app/sniff.rs. What the stream's read gives is an argument:
-- nothing if it times out, fails or ends, else the bytes that it put in the buffer.
pub mod Safety
use model_lib.Prelude.{
  ◌>>=◌, Bytes, Bool, true, false, Option, none, some, ok, List, [], ◌∷◌, is_empty, if◌then◌else◌,
}
use model_lib.Router.Rule.{SniffType, tls, http, quic, ssh, bittorrent}
use model_lib.Sniff.Outcome.{SniffResult}
use model_lib.Std.Reads.{Read}
use model_lib.Sniff.Tls.{try_tls}
use model_lib.Sniff.Http.{try_http_host}
use model_lib.Sniff.Quic.{try_quic}
use model_lib.Sniff.Signatures.{try_ssh, try_bittorrent}

unfoldable pub defaults : List SniffType
defaults = tls ∷ http ∷ quic ∷ ssh ∷ bittorrent ∷ []

unfoldable pub effective_types : List SniffType → List SniffType
effective_types types = if is_empty types then defaults else types

-- The match on one type.
unfoldable pub try_type : SniffType → Bytes → Read (Option SniffResult)
try_type tls buf = try_tls buf
try_type http buf = ok (try_http_host buf)
try_type quic buf = try_quic buf
try_type ssh buf = ok (try_ssh buf)
try_type bittorrent buf = ok (try_bittorrent buf)

-- The loop of `sniff` over the types: the first that answers.
unfoldable pub try_types : List SniffType → Bytes → Read (Option SniffResult)
try_types [] buf = ok none
try_types (t ∷ types) buf = do
  result ← try_type t buf
  elim result [ some r ↦ ok (some r) | none ↦ try_types types buf ]

-- The bytes that are given back to the stream, and the answer.
unfoldable pub sniff : List SniffType → Option Bytes → Read (Bytes × Option SniffResult)
sniff sniff_types none = ok ([], none)
sniff sniff_types (some []) = ok ([], none)
sniff sniff_types (some (b ∷ buf)) = do
  result ← try_types (effective_types sniff_types) (b ∷ buf)
  ok (b ∷ buf, result)

abbrev pub is_quic : SniffType → Bool
is_quic quic = true
is_quic _ = false

-- The loop of `sniff_packet` over the types.
unfoldable pub try_quic_types : List SniffType → Bytes → Read (Option SniffResult)
try_quic_types [] buf = ok none
try_quic_types (t ∷ types) buf = elim (is_quic t) [
  | false ↦ try_quic_types types buf
  | true ↦ do
    result ← try_quic buf
    elim result [ some r ↦ ok (some r) | none ↦ try_quic_types types buf ]
]

unfoldable pub sniff_packet : Bytes → List SniffType → Read (Option SniffResult)
sniff_packet buf sniff_types = try_quic_types (effective_types sniff_types) buf
