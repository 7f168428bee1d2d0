-- ===== src/Tests/Crypto.antt =====
-- The cryptography of src/app/sniff.rs on published test vectors.
use model_lib.Prelude.{ℕ, ◌≡◌, refl, Bytes, bytes_eq, none, some, [], ◌∷◌, replicate}
use model_lib.Sniff.Crypto.Sha256.{
  sha256, round_constants, initial_hash, pad_zeros, pad_message, block_words, next_word,
  extend_words, sha_round, sha_rounds, add_words, sha_block, sha_blocks, hash_bytes,
}
use model_lib.Sniff.Crypto.Hkdf.{xor_bytes}
use model_lib.Sniff.Crypto.Aes.{
  sbox, xtime, rcon, key_core, next_key_word, extend_key, key_words, join_words,
  aes128_key_schedule, shift_rows, mix_columns, aes_rounds, aes128_encrypt_block, aes128_ecb_block,
}
use model_lib.Sniff.Crypto.Gcm.{
  xor16, gcm_inc32, full_chunks, padded_chunks, shift_right, reduce_first, gf_double, gf_loop,
  gf128_mul, ghash, gcm_tag, ctr_loop, ctr_decrypt, aes128_gcm_decrypt,
}

-- SHA-256 of "abc", from FIPS 180-4's examples
sha256_test :
    sha256 (b'a' ∷ b'b' ∷ b'c' ∷ [])
    ≡ 0xba ∷ 0x78 ∷ 0x16 ∷ 0xbf ∷ 0x8f ∷ 0x01 ∷ 0xcf ∷ 0xea ∷ 0x41 ∷ 0x41 ∷ 0x40 ∷ 0xde ∷ 0x5d
      ∷ 0xae ∷ 0x22 ∷ 0x23 ∷ 0xb0 ∷ 0x03 ∷ 0x61 ∷ 0xa3 ∷ 0x96 ∷ 0x17 ∷ 0x7a ∷ 0x9c ∷ 0xb4 ∷ 0x10
      ∷ 0xff ∷ 0x61 ∷ 0xf2 ∷ 0x00 ∷ 0x15 ∷ 0xad ∷ []
unfolding sha256 round_constants initial_hash pad_zeros pad_message block_words next_word
    extend_words sha_round sha_rounds add_words sha_block sha_blocks hash_bytes
sha256_test = refl

-- AES-128 of one block, from FIPS 197's appendix C.1
aes128_test :
    aes128_ecb_block
      (0x00 ∷ 0x01 ∷ 0x02 ∷ 0x03 ∷ 0x04 ∷ 0x05 ∷ 0x06 ∷ 0x07 ∷ 0x08 ∷ 0x09 ∷ 0x0a ∷ 0x0b ∷ 0x0c
        ∷ 0x0d ∷ 0x0e ∷ 0x0f ∷ [])
      (0x00 ∷ 0x11 ∷ 0x22 ∷ 0x33 ∷ 0x44 ∷ 0x55 ∷ 0x66 ∷ 0x77 ∷ 0x88 ∷ 0x99 ∷ 0xaa ∷ 0xbb ∷ 0xcc
        ∷ 0xdd ∷ 0xee ∷ 0xff ∷ [])
    ≡ some (
        0x69 ∷ 0xc4 ∷ 0xe0 ∷ 0xd8 ∷ 0x6a ∷ 0x7b ∷ 0x04 ∷ 0x30 ∷ 0xd8 ∷ 0xcd ∷ 0xb7 ∷ 0x80 ∷ 0x70
        ∷ 0xb4 ∷ 0xc5 ∷ 0x5a ∷ [])
unfolding sbox xtime rcon key_core next_key_word extend_key key_words join_words aes128_key_schedule
    shift_rows mix_columns aes_rounds aes128_encrypt_block aes128_ecb_block xor_bytes
aes128_test = refl

abbrev zeros : ℕ → Bytes
zeros n = replicate n 0

abbrev ciphertext_2 : Bytes
ciphertext_2 =
    0x03 ∷ 0x88 ∷ 0xda ∷ 0xce ∷ 0x60 ∷ 0xb6 ∷ 0xa3 ∷ 0x92 ∷ 0xf3 ∷ 0x28 ∷ 0xc2 ∷ 0xb9 ∷ 0x71 ∷ 0xb2
    ∷ 0xfe ∷ 0x78 ∷ []

-- Test case 2 of the GCM specification: its tag is refused, and what is taken is the bare GHASH.
gcm_test :
    (aes128_gcm_decrypt (zeros 16) (zeros 12) [] ciphertext_2 (
        0xab ∷ 0x6e ∷ 0x47 ∷ 0xd4 ∷ 0x2c ∷ 0xec ∷ 0x13 ∷ 0xbd ∷ 0xf5 ∷ 0x3a ∷ 0x67 ∷ 0xb2 ∷ 0x12
        ∷ 0x57 ∷ 0xbd ∷ 0xdf ∷ [])
      ≡ none)
    × (aes128_gcm_decrypt (zeros 16) (zeros 12) [] ciphertext_2 (
          0xf3 ∷ 0x8c ∷ 0xbb ∷ 0x1a ∷ 0xd6 ∷ 0x92 ∷ 0x23 ∷ 0xdc ∷ 0xc3 ∷ 0x45 ∷ 0x7a ∷ 0xe5 ∷ 0xb6
          ∷ 0xb0 ∷ 0xf8 ∷ 0x85 ∷ [])
        ≡ some (zeros 16))
unfolding sbox xtime rcon key_core next_key_word extend_key key_words join_words aes128_key_schedule
    shift_rows mix_columns aes_rounds aes128_encrypt_block xor_bytes xor16 gcm_inc32 full_chunks
    padded_chunks shift_right reduce_first gf_double gf_loop gf128_mul ghash gcm_tag ctr_loop
    ctr_decrypt aes128_gcm_decrypt bytes_eq
gcm_test = (refl, refl)
