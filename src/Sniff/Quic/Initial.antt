-- ===== src/Sniff/Quic/Initial.antt =====
-- `decrypt_quic_initial` of src/app/sniff.rs.
use model_lib.Prelude.{
  ℕ, zero, suc, ◌+◌, ◌-◌, bit_and, Bytes, Bool, true, false, Option, none, ok, ◌>>=◌, [], ◌∷◌, ◌++◌,
  length, get_or, take, drop, ltb,
}
use model_lib.Prelude.Words.{be_bytes, of_be_bytes}
use model_lib.Std.Reads.{Read, at, slice, and_then}
use model_lib.Sniff.Crypto.Hkdf.{hkdf_extract_sha256, hkdf_expand_label_sha256, xor_bytes}
use model_lib.Sniff.Crypto.Aes.{aes128_ecb_block}
use model_lib.Sniff.Crypto.Gcm.{aes128_gcm_decrypt}
use Prim.Native.Nat.{bit_xor}

-- "client in", "quic key", "quic iv" and "quic hp"
abbrev pub client_in : Bytes
client_in = b'c' ∷ b'l' ∷ b'i' ∷ b'e' ∷ b'n' ∷ b't' ∷ b' ' ∷ b'i' ∷ b'n' ∷ []

abbrev pub quic_key : Bytes
quic_key = b'q' ∷ b'u' ∷ b'i' ∷ b'c' ∷ b' ' ∷ b'k' ∷ b'e' ∷ b'y' ∷ []

abbrev pub quic_iv : Bytes
quic_iv = b'q' ∷ b'u' ∷ b'i' ∷ b'c' ∷ b' ' ∷ b'i' ∷ b'v' ∷ []

abbrev pub quic_hp : Bytes
quic_hp = b'q' ∷ b'u' ∷ b'i' ∷ b'c' ∷ b' ' ∷ b'h' ∷ b'p' ∷ []

-- `payload[i] ^ mask[1 + i]` for the `n` bytes from `i` on.
unfoldable pub unmask : ℕ → ℕ → Bytes → Bytes → Read Bytes
unmask zero i payload mask = ok []
unmask (suc n) i payload mask = do
  b ← at payload i
  rest ← unmask n (i + 1) payload mask
  ok (bit_xor b (get_or mask (i + 1) 0) ∷ rest)

-- The packet number's bytes stand at the front of an array of four zeros.
unfoldable pub packet_number : Bytes → ℕ
packet_number pn_bytes = of_be_bytes (take 4 (pn_bytes ++ (0 ∷ 0 ∷ 0 ∷ 0 ∷ [])))

unfoldable pub packet_nonce : Bytes → ℕ → Bytes
packet_nonce iv pn = take 8 iv ++ xor_bytes (drop 8 iv) (be_bytes 4 pn)

-- Behind the mask of the header protection.
unfoldable pub open_payload : Bytes → Bytes → Bytes → Bytes → Read (Option Bytes)
open_payload key iv mask payload = do
  masked ← at payload 0
  let first_byte = bit_xor masked (bit_and (get_or mask 0 0) 0x0f) in
      let pn_len = bit_and first_byte 0x03 + 1 in
      elim (ltb (length payload) pn_len) [
        | true ↦ ok none
        | false ↦ do
          pn_bytes ← unmask pn_len 0 payload mask
          elim (ltb (length payload) (pn_len + 16)) [
            | true ↦ ok none
            | false ↦ do
              ciphertext ← slice payload pn_len (length payload - 16)
              tag ← slice payload (length payload - 16) (length payload)
              ok (
                  aes128_gcm_decrypt key (packet_nonce iv (packet_number pn_bytes))
                    (first_byte ∷ pn_bytes) ciphertext tag)
          ]
      ]

unfoldable pub decrypt_quic_initial : Bytes → Bytes → Bytes → Bool → Read (Option Bytes)
decrypt_quic_initial dcid initial_salt payload is_v2 =
    let initial_secret = hkdf_extract_sha256 initial_salt dcid in
    and_then (hkdf_expand_label_sha256 initial_secret client_in [] 32) λ client_secret.
      and_then (hkdf_expand_label_sha256 client_secret quic_key [] 16) λ key.
        and_then (hkdf_expand_label_sha256 client_secret quic_iv [] 12) λ iv.
          and_then (hkdf_expand_label_sha256 client_secret quic_hp [] 16) λ hp.
            elim (ltb (length payload) 20) [
              | true ↦ ok none
              | false ↦ do
                sample ← slice payload 4 20
                and_then (aes128_ecb_block hp sample) λ mask. open_payload key iv mask payload
            ]
