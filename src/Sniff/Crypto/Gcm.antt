-- ===== src/Sniff/Crypto/Gcm.antt =====
-- AES-128-GCM of src/app/sniff.rs.
use model_lib.Prelude.{
  ℕ, zero, suc, ◌+◌, ◌-◌, ◌*◌, ◌/◌, ◌%◌, ◌^◌, bit_and, bit_or, Bytes, bytes_eq, not, ◌||◌, Option,
  none, some, List, [], ◌∷◌, ◌++◌, length, is_empty, get_or, take, drop, replicate, ◌==◌,
  if◌then◌else◌,
}
use model_lib.Prelude.Words.{be_bytes, of_be_bytes}
use model_lib.Sniff.Crypto.Hkdf.{xor_bytes}
use model_lib.Sniff.Crypto.Aes.{aes128_key_schedule, aes128_encrypt_block}
use Prim.Native.Nat.{bit_xor}

-- `xor16`, on blocks of 16 bytes
unfoldable pub xor16 : Bytes → Bytes → Bytes
xor16 a b = xor_bytes a b

unfoldable pub gcm_inc32 : Bytes → Bytes
gcm_inc32 block = take 12 block ++ be_bytes 4 ((of_be_bytes (drop 12 block) + 1) % 2 ^ 32)

-- `n` full blocks, and what is left with zeros behind it.
unfoldable pub full_chunks : ℕ → Bytes → List Bytes
full_chunks zero s = if is_empty s then [] else (s ++ replicate (16 - length s) 0) ∷ []
full_chunks (suc n) s = take 16 s ∷ full_chunks n (drop 16 s)

unfoldable pub padded_chunks : Bytes → List Bytes
padded_chunks s = full_chunks (length s / 16) s

-- `v >> 1` over the bytes, from the first on: `low` is the lowest bit of the byte before.
unfoldable pub shift_right : ℕ → Bytes → Bytes
shift_right low [] = []
shift_right low (b ∷ v) = bit_or (b / 2) ((low * 2 ^ 7) % 256) ∷ shift_right (bit_and b 1) v

unfoldable pub reduce_first : ℕ → Bytes → Bytes
reduce_first lsb [] = []
reduce_first lsb (b ∷ v) = (if lsb == 1 then bit_xor b 0xe1 else b) ∷ v

unfoldable pub gf_double : Bytes → Bytes
gf_double v = reduce_first (bit_and (get_or v 15 0) 1) (shift_right 0 v)

-- The loop over the bits from `i` on, `n` of them.
unfoldable pub gf_loop : ℕ → ℕ → Bytes → Bytes → Bytes → Bytes
gf_loop zero i x z v = z
gf_loop (suc n) i x z v =
    let bit = bit_and (get_or x (i / 8) 0 / 2 ^ (7 - i % 8)) 1 in
    gf_loop n (i + 1) x (if bit == 1 then xor16 z v else z) (gf_double v)

unfoldable pub gf128_mul : Bytes → Bytes → Bytes
gf128_mul x y = gf_loop 128 0 x (replicate 16 0) y

unfoldable pub ghash : Bytes → Bytes → List Bytes → Bytes
ghash h y [] = y
ghash h y (chunk ∷ chunks) = ghash h (gf128_mul (xor16 y chunk) h) chunks

unfoldable pub gcm_tag : Bytes → Bytes → Bytes → Bytes → Bytes → List Bytes → Bytes
gcm_tag h aad ciphertext key nonce round_keys =
    let y = ghash h (ghash h (replicate 16 0) (padded_chunks aad)) (padded_chunks ciphertext) in
    let len_block =
      be_bytes 8 ((length aad * 8) % 2 ^ 64) ++ be_bytes 8 ((length ciphertext * 8) % 2 ^ 64) in
    gf128_mul (xor16 y len_block) h

-- The loop over the chunks of the ciphertext, `n` of them at most.
unfoldable pub ctr_loop : ℕ → List Bytes → Bytes → Bytes → Bytes
ctr_loop zero round_keys counter ciphertext = []
ctr_loop (suc n) round_keys counter ciphertext =
    xor_bytes (take 16 ciphertext) (aes128_encrypt_block counter round_keys)
    ++ ctr_loop n round_keys (gcm_inc32 counter) (drop 16 ciphertext)

-- As many chunks as the ciphertext has, the last of them short.
unfoldable pub ctr_decrypt : List Bytes → Bytes → Bytes → Bytes
ctr_decrypt round_keys counter ciphertext =
    ctr_loop ((length ciphertext + 15) / 16) round_keys counter ciphertext

unfoldable pub aes128_gcm_decrypt : Bytes → Bytes → Bytes → Bytes → Bytes → Option Bytes
aes128_gcm_decrypt key nonce aad ciphertext tag =
    let round_keys = aes128_key_schedule key in
    let j0 = nonce ++ (0 ∷ 0 ∷ 0 ∷ 1 ∷ []) in
    let h_block = aes128_encrypt_block (replicate 16 0) round_keys in
    let computed_tag = gcm_tag h_block aad ciphertext key nonce round_keys in
    if not (length key == 16) || (not (length nonce == 12) || not (length tag == 16))
    then none
    else if bytes_eq computed_tag tag
    then some (ctr_decrypt round_keys (gcm_inc32 j0) ciphertext)
    else none
