-- ===== src/Sniff/Quic/Frames.antt =====
-- `extract_sni_from_quic_crypto` of src/app/sniff.rs. The loop runs on fuel, the payload's length.
use model_lib.Prelude.{
  ℕ, zero, suc, ◌+◌, min, Bytes, Bool, true, false, Option, none, ok, err, ◌>>=◌, ◌∷◌, length, ltb,
  leb, ◌==◌,
}
use model_lib.Sniff.Outcome.{SniffResult}
use model_lib.Std.Reads.{out_of_fuel, Read, at, slice, and_then}
use model_lib.Sniff.Tls.{try_tls}
use model_lib.Sniff.Quic.Varint.{read_varint}

-- `crypto_data.len() >= 4 && crypto_data[0] == 0x01`
unfoldable pub is_client_hello : Bytes → Read Bool
is_client_hello crypto_data = elim (leb 4 (length crypto_data)) [
  | false ↦ ok false
  | true ↦ do kind ← at crypto_data 0; ok (kind == 0x01)
]

-- The record header that `try_tls` expects.
unfoldable pub fake_record : Bytes → Bytes
fake_record crypto_data = 0x16 ∷ 0x03 ∷ 0x03 ∷ 0x00 ∷ 0x00 ∷ crypto_data

unfoldable pub read_frames : ℕ → Bytes → ℕ → Read (Option SniffResult)
read_frames zero payload pos = err out_of_fuel
read_frames (suc fuel) payload pos = elim (ltb pos (length payload)) [
  | false ↦ ok none
  | true ↦ do
    frame_type ← at payload pos
    elim (frame_type == 0x00) [
      | true ↦ read_frames fuel payload (pos + 1)
      | false ↦ elim (frame_type == 0x06) [
        | false ↦ ok none
        | true ↦ do
          first ← read_varint payload (pos + 1)
          and_then first λ offset. do
            second ← read_varint payload (pos + 1 + offset.1)
            and_then second λ flen.
                let start = pos + 1 + offset.1 + flen.1 in
                let end = min (start + flen.0) (length payload) in
                do
                  crypto_data ← slice payload start end
                  hello ← is_client_hello crypto_data
                  elim hello [
                    | true ↦ try_tls (fake_record crypto_data)
                    | false ↦ read_frames fuel payload end
                  ]
      ]
    ]
]

unfoldable pub extract_sni_from_quic_crypto : Bytes → Read (Option SniffResult)
extract_sni_from_quic_crypto payload = read_frames (length payload + 1) payload 0
