-- ===== src/Sniff/Signatures.antt =====
-- The sniffers of src/app/sniff.rs that look at the first bytes alone: `try_ssh`,
-- `try_bittorrent` and `is_dns_wire`.
use model_lib.Prelude.{
  ◌/◌, bit_and, Bytes, Bool, true, false, ◌&&◌, Option, none, some, ok, ◌>>=◌, [], ◌∷◌, length, ltb,
  leb, if◌then◌else◌,
}
use model_lib.Sniff.Outcome.{SniffResult}
use model_lib.Std.Reads.{Read, at, be_u16, starts_with}

-- "SSH-"
abbrev pub ssh_mark : Bytes
ssh_mark = b'S' ∷ (b'S' ∷ (b'H' ∷ (b'-' ∷ [])))

abbrev pub ssh_name : Bytes
ssh_name = b's' ∷ (b's' ∷ (b'h' ∷ []))

unfoldable pub try_ssh : Bytes → Option SniffResult
try_ssh buf =
    if starts_with ssh_mark buf then some (record { domain = none; protocol = ssh_name }) else none

-- "\x13BitTorrent protocol"
abbrev pub bt_header : Bytes
bt_header =
    19 ∷ 66 ∷ 105 ∷ 116 ∷ 84 ∷ 111 ∷ 114 ∷ 114 ∷ 101 ∷ 110 ∷ 116 ∷ 32 ∷ 112 ∷ 114 ∷ 111 ∷ 116 ∷ 111
    ∷ 99 ∷ 111 ∷ 108 ∷ []

-- "bittorrent"
abbrev pub bittorrent_name : Bytes
bittorrent_name = 98 ∷ 105 ∷ 116 ∷ 116 ∷ 111 ∷ 114 ∷ 114 ∷ 101 ∷ 110 ∷ 116 ∷ []

unfoldable pub try_bittorrent : Bytes → Option SniffResult
try_bittorrent buf =
    if leb (length bt_header) (length buf) && starts_with bt_header buf
    then some (record { domain = none; protocol = bittorrent_name })
    else none

-- The opcode is `(flags >> 3) & 0x0f`.
unfoldable pub is_dns_wire : Bytes → Read Bool
is_dns_wire buf = elim (ltb (length buf) 12) [
  | true ↦ ok false
  | false ↦ do
    flags ← at buf 2
    elim (ltb 5 (bit_and (flags / 8) 0x0f)) [
      | true ↦ ok false
      | false ↦ do qdcount ← be_u16 buf 4; ok (ltb 0 qdcount)
    ]
]
