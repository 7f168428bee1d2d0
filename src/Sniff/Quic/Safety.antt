-- ===== src/Sniff/Quic/Safety.antt =====
-- The reads and the loop of `try_quic` of src/app/sniff.rs, on any bytes at all.
use model_lib.Prelude.{
  ℕ, zero, suc, ◌+◌, ◌-◌, ◌/◌, ◌≤◌, ◌<◌, min, bit_and, ◌≡◌, refl, arith, Bytes, Bool, true, false,
  ◌||◌, Option, none, some, ◌>>=◌, [], ◌∷◌, length, is_empty, get_or, ltb, ◌==◌, if◌then◌else◌,
}
use model_lib.Prelude.Words.{of_be_bytes}
use model_lib.Std.Reads.{
  Read, at, slice, and_then, Fine, Fine-bind, at-Fine, slice-Fine, Fine-ltb, Fine-leb, Fine-case,
  Fine-and_then,
}
use model_lib.Sniff.Tls.Safety.{try_tls-Fine}
use model_lib.Sniff.Crypto.Hkdf.{hkdf_extract_sha256, hkdf_expand_label_sha256}
use model_lib.Sniff.Crypto.Aes.{aes128_ecb_block}
use model_lib.Sniff.Crypto.Gcm.{aes128_gcm_decrypt}
use model_lib.Sniff.Quic.Varint.{reads, read_varint}
use model_lib.Sniff.Quic.Varint.Bounds.{InBounds, read_varint-InBounds, reads-Fine, Ends}
use model_lib.Sniff.Quic.Initial.{
  unmask, packet_number, packet_nonce, open_payload, decrypt_quic_initial, client_in, quic_key,
  quic_iv, quic_hp,
}
use model_lib.Sniff.Quic.Frames.{
  is_client_hello, fake_record, read_frames, extract_sni_from_quic_crypto,
}
use model_lib.Sniff.Quic.{
  initial_salt_of, open_packet, from_source_id, from_destination_id, try_quic,
}
use Prim.Native.Nat.{bit_xor}

Fine-or :
    {A : Type 0} (s t : Bool) (on off : Read A)
    → Fine on
    → (t ≡ false → Fine off)
    → Fine (elim (s || t) [ true ↦ on | false ↦ off ])
Fine-or true t on off y n = y
Fine-or false true on off y n = y
Fine-or false false on off y n = n refl

-- Code behind a `read_varint` and its `?`.
Fine-varint :
    {B : Type 0} (buf : Bytes) (pos : ℕ) (k : ℕ × ℕ → Read (Option B))
    → ((v n : ℕ) → pos + n ≤ length buf → 0 < n → Fine (k (v, n)))
    → Fine (read_varint buf pos >>= λ found. and_then found k)
Fine-varint buf pos k h = go (read_varint-InBounds buf pos)
  where
    go :
        Ends (InBounds buf pos) (read_varint buf pos)
        → Fine (read_varint buf pos >>= λ found. and_then found k)
    go (none, e, b) = rw e (none, refl)
    go (some (v, n), e, b) = rw e (h v n b.0 b.1)

unmask-Fine :
    (n i : ℕ) (payload mask : Bytes) → i + n ≤ length payload → Fine (unmask n i payload mask)
unfolding unmask
unmask-Fine zero i payload mask h = ([], refl)
unmask-Fine (suc n) i payload mask h =
    Fine-bind (at payload i) _ (at-Fine payload i (omega arith)) λ b _.
      Fine-bind (unmask n (i + 1) payload mask) _ (unmask-Fine n (i + 1) payload mask (omega arith))
        λ rest _. (bit_xor b (get_or mask (i + 1) 0) ∷ rest, refl)

open_payload-Fine :
    (key iv mask payload : Bytes) → 0 < length payload → Fine (open_payload key iv mask payload)
unfolding open_payload
open_payload-Fine key iv mask payload h =
    Fine-bind (at payload 0) _ (at-Fine payload 0 h) λ masked _.
      let first_byte = bit_xor masked (bit_and (get_or mask 0 0) 0x0f) in
      let pn_len = bit_and first_byte 0x03 + 1 in
      Fine-ltb (length payload) pn_len _ _ (λ _. (none, refl))
        λ room.
          Fine-bind (unmask pn_len 0 payload mask) _
            (unmask-Fine pn_len 0 payload mask (omega (arith, room)))
            λ pn_bytes _.
              Fine-ltb (length payload) (pn_len + 16) _ _ (λ _. (none, refl))
                λ more.
                  Fine-bind (slice payload pn_len (length payload - 16)) _
                    (slice-Fine payload pn_len (length payload - 16) (omega arith) (omega arith))
                    λ ciphertext _.
                      Fine-bind (slice payload (length payload - 16) (length payload)) _
                        (slice-Fine payload (length payload - 16) (length payload) (omega arith)
                          (omega arith))
                        λ tag _. (
                          aes128_gcm_decrypt key (packet_nonce iv (packet_number pn_bytes))
                              (first_byte ∷ pn_bytes) ciphertext tag,
                          refl,
                        )

decrypt_quic_initial-Fine :
    (dcid salt payload : Bytes) (is_v2 : Bool) → Fine (decrypt_quic_initial dcid salt payload is_v2)
unfolding decrypt_quic_initial
decrypt_quic_initial-Fine dcid salt payload is_v2 =
    Fine-and_then (hkdf_expand_label_sha256 (hkdf_extract_sha256 salt dcid) client_in [] 32) _
      λ client _. Fine-and_then (hkdf_expand_label_sha256 client quic_key [] 16) _ λ key _.
        Fine-and_then (hkdf_expand_label_sha256 client quic_iv [] 12) _ λ iv _.
          Fine-and_then (hkdf_expand_label_sha256 client quic_hp [] 16) _ λ hp _.
            Fine-ltb (length payload) 20 _ _ (λ _. (none, refl))
              λ room.
                Fine-bind (slice payload 4 20) _ (slice-Fine payload 4 20 (omega arith) room)
                  λ sample _.
                    Fine-and_then (aes128_ecb_block hp sample) _
                      λ mask _. open_payload-Fine key iv mask payload (omega arith)

is_client_hello-Fine : (crypto_data : Bytes) → Fine (is_client_hello crypto_data)
unfolding is_client_hello
is_client_hello-Fine crypto_data =
    Fine-leb 4 (length crypto_data) _ _
      (λ room.
        Fine-bind (at crypto_data 0) _ (at-Fine crypto_data 0 (omega arith))
          λ kind _. (kind == 0x01, refl))
      (λ _. (false, refl))

read_frames-Fine :
    (fuel : ℕ) (payload : Bytes) (pos : ℕ)
    → length payload - pos < fuel
    → Fine (read_frames fuel payload pos)
unfolding read_frames
read_frames-Fine zero payload pos h = absurd (omega arith)
read_frames-Fine (suc fuel) payload pos h =
    Fine-ltb pos (length payload) _ _
      (λ room. Fine-bind (at payload pos) _ (at-Fine payload pos room) λ frame_type _.
        Fine-case (frame_type == 0x00) _ _ (read_frames-Fine fuel payload (pos + 1) (omega arith)) (
          Fine-case (frame_type == 0x06) _ _
            (Fine-varint payload (pos + 1) _ λ off n in_n pos_n.
              Fine-varint payload (pos + 1 + n) _ λ len m in_m pos_m.
                let start = pos + 1 + n + m in
                let end = min (start + len) (length payload) in
                Fine-bind (slice payload start end) _
                  (slice-Fine payload start end (omega arith) (omega arith))
                  λ crypto_data _.
                    Fine-bind (is_client_hello crypto_data) _ (is_client_hello-Fine crypto_data)
                      λ hello _.
                        Fine-case hello _ _ (try_tls-Fine (fake_record crypto_data))
                          (read_frames-Fine fuel payload end (omega arith)))
            (none, refl)))
      (λ _. (none, refl))

extract_sni-Fine : (payload : Bytes) → Fine (extract_sni_from_quic_crypto payload)
unfolding extract_sni_from_quic_crypto
extract_sni-Fine payload = read_frames-Fine (length payload + 1) payload 0 (omega arith)

open_packet-Fine :
    (buf : Bytes) (pos : ℕ) (dcid salt : Bytes) (is_v2 : Bool)
    → Fine (open_packet buf pos dcid salt is_v2)
unfolding open_packet
open_packet-Fine buf pos dcid salt is_v2 = Fine-varint buf pos _ λ len n inside _.
    Fine-leb (length buf) (pos + n) _ _ (λ _. (none, refl))
      λ room.
        Fine-bind (slice buf (pos + n) (min (pos + n + len) (length buf))) _
          (slice-Fine buf (pos + n) (min (pos + n + len) (length buf)) (omega arith) (omega arith))
          λ payload _.
            Fine-case (is_empty payload) _ _ (none, refl)
              (Fine-bind (decrypt_quic_initial dcid salt payload is_v2) _
                (decrypt_quic_initial-Fine dcid salt payload is_v2)
                λ opened _. Fine-and_then opened _ λ plaintext _. extract_sni-Fine plaintext)

from_source_id-Fine :
    (buf : Bytes) (pos : ℕ) (dcid salt : Bytes) (is_v2 : Bool)
    → Fine (from_source_id buf pos dcid salt is_v2)
unfolding from_source_id
from_source_id-Fine buf pos dcid salt is_v2 =
    Fine-leb (length buf) pos _ _ (λ _. (none, refl))
      λ room. Fine-bind (at buf pos) _ (at-Fine buf pos room) λ n _.
        Fine-ltb (length buf) (pos + 1 + n) _ _ (λ _. (none, refl))
          λ more.
            Fine-varint buf (pos + 1 + n) _
              λ len m inside _. open_packet-Fine buf (pos + 1 + n + (m + len)) dcid salt is_v2

from_destination_id-Fine :
    (buf : Bytes) (pos : ℕ) (salt : Bytes) (is_v2 : Bool)
    → Fine (from_destination_id buf pos salt is_v2)
unfolding from_destination_id
from_destination_id-Fine buf pos salt is_v2 =
    Fine-leb (length buf) pos _ _ (λ _. (none, refl))
      λ room. Fine-bind (at buf pos) _ (at-Fine buf pos room) λ n _.
        Fine-or (n == 0) (ltb 20 n || ltb (length buf) (pos + 1 + n)) _ _ (none, refl)
          λ e.
            let inside : pos + 1 + n ≤ length buf = ground (arith, e) in
            Fine-bind (slice buf (pos + 1) (pos + 1 + n)) _
              (slice-Fine buf (pos + 1) (pos + 1 + n) (omega arith) inside)
              λ dcid _. from_source_id-Fine buf (pos + 1 + n) dcid salt is_v2

-- Whatever bytes a peer sends, `try_quic` ends and reads inside its buffers, through the
-- header, the removal of the packet's protection and the loop over the frames.
pub try_quic-Fine : (buf : Bytes) → Fine (try_quic buf)
unfolding try_quic
try_quic-Fine buf =
    Fine-ltb (length buf) 6 _ _ (λ _. (none, refl))
      λ room. Fine-bind (at buf 0) _ (at-Fine buf 0 (omega arith)) λ first _.
        Fine-case (bit_and first 0xc0 == 0xc0) _ _
          (Fine-bind (reads 4 buf 1) _ (reads-Fine 4 buf 1 (omega arith)) λ version _.
            Fine-and_then (initial_salt_of (of_be_bytes version)) _ λ known _.
              Fine-case (bit_and first 0x30 / 16 == (if known.0 then 1 else 0)) _ _
                (from_destination_id-Fine buf 5 known.1 known.0) (none, refl))
          (none, refl)
