-- ===== src/Sniff/Crypto/Aes.antt =====
-- AES-128 of src/app/sniff.rs: the key schedule and the encryption of one block.
use model_lib.Prelude.{
  ℕ, zero, suc, ◌+◌, ◌-◌, ◌*◌, ◌/◌, ◌%◌, bit_and, Bytes, not, ◌||◌, Option, none, some, List, [],
  ◌∷◌, ◌++◌, map, length, get_or, take, drop, ltb, ◌==◌, if◌then◌else◌,
}
use model_lib.Sniff.Crypto.Hkdf.{xor_bytes}
use Prim.Native.Nat.{bit_xor}

unfoldable pub sbox : List ℕ
sbox =
    0x63 ∷ 0x7c ∷ 0x77 ∷ 0x7b ∷ 0xf2 ∷ 0x6b ∷ 0x6f ∷ 0xc5 ∷ 0x30 ∷ 0x01 ∷ 0x67 ∷ 0x2b ∷ 0xfe ∷ 0xd7
    ∷ 0xab ∷ 0x76 ∷ 0xca ∷ 0x82 ∷ 0xc9 ∷ 0x7d ∷ 0xfa ∷ 0x59 ∷ 0x47 ∷ 0xf0 ∷ 0xad ∷ 0xd4 ∷ 0xa2
    ∷ 0xaf ∷ 0x9c ∷ 0xa4 ∷ 0x72 ∷ 0xc0 ∷ 0xb7 ∷ 0xfd ∷ 0x93 ∷ 0x26 ∷ 0x36 ∷ 0x3f ∷ 0xf7 ∷ 0xcc
    ∷ 0x34 ∷ 0xa5 ∷ 0xe5 ∷ 0xf1 ∷ 0x71 ∷ 0xd8 ∷ 0x31 ∷ 0x15 ∷ 0x04 ∷ 0xc7 ∷ 0x23 ∷ 0xc3 ∷ 0x18
    ∷ 0x96 ∷ 0x05 ∷ 0x9a ∷ 0x07 ∷ 0x12 ∷ 0x80 ∷ 0xe2 ∷ 0xeb ∷ 0x27 ∷ 0xb2 ∷ 0x75 ∷ 0x09 ∷ 0x83
    ∷ 0x2c ∷ 0x1a ∷ 0x1b ∷ 0x6e ∷ 0x5a ∷ 0xa0 ∷ 0x52 ∷ 0x3b ∷ 0xd6 ∷ 0xb3 ∷ 0x29 ∷ 0xe3 ∷ 0x2f
    ∷ 0x84 ∷ 0x53 ∷ 0xd1 ∷ 0x00 ∷ 0xed ∷ 0x20 ∷ 0xfc ∷ 0xb1 ∷ 0x5b ∷ 0x6a ∷ 0xcb ∷ 0xbe ∷ 0x39
    ∷ 0x4a ∷ 0x4c ∷ 0x58 ∷ 0xcf ∷ 0xd0 ∷ 0xef ∷ 0xaa ∷ 0xfb ∷ 0x43 ∷ 0x4d ∷ 0x33 ∷ 0x85 ∷ 0x45
    ∷ 0xf9 ∷ 0x02 ∷ 0x7f ∷ 0x50 ∷ 0x3c ∷ 0x9f ∷ 0xa8 ∷ 0x51 ∷ 0xa3 ∷ 0x40 ∷ 0x8f ∷ 0x92 ∷ 0x9d
    ∷ 0x38 ∷ 0xf5 ∷ 0xbc ∷ 0xb6 ∷ 0xda ∷ 0x21 ∷ 0x10 ∷ 0xff ∷ 0xf3 ∷ 0xd2 ∷ 0xcd ∷ 0x0c ∷ 0x13
    ∷ 0xec ∷ 0x5f ∷ 0x97 ∷ 0x44 ∷ 0x17 ∷ 0xc4 ∷ 0xa7 ∷ 0x7e ∷ 0x3d ∷ 0x64 ∷ 0x5d ∷ 0x19 ∷ 0x73
    ∷ 0x60 ∷ 0x81 ∷ 0x4f ∷ 0xdc ∷ 0x22 ∷ 0x2a ∷ 0x90 ∷ 0x88 ∷ 0x46 ∷ 0xee ∷ 0xb8 ∷ 0x14 ∷ 0xde
    ∷ 0x5e ∷ 0x0b ∷ 0xdb ∷ 0xe0 ∷ 0x32 ∷ 0x3a ∷ 0x0a ∷ 0x49 ∷ 0x06 ∷ 0x24 ∷ 0x5c ∷ 0xc2 ∷ 0xd3
    ∷ 0xac ∷ 0x62 ∷ 0x91 ∷ 0x95 ∷ 0xe4 ∷ 0x79 ∷ 0xe7 ∷ 0xc8 ∷ 0x37 ∷ 0x6d ∷ 0x8d ∷ 0xd5 ∷ 0x4e
    ∷ 0xa9 ∷ 0x6c ∷ 0x56 ∷ 0xf4 ∷ 0xea ∷ 0x65 ∷ 0x7a ∷ 0xae ∷ 0x08 ∷ 0xba ∷ 0x78 ∷ 0x25 ∷ 0x2e
    ∷ 0x1c ∷ 0xa6 ∷ 0xb4 ∷ 0xc6 ∷ 0xe8 ∷ 0xdd ∷ 0x74 ∷ 0x1f ∷ 0x4b ∷ 0xbd ∷ 0x8b ∷ 0x8a ∷ 0x70
    ∷ 0x3e ∷ 0xb5 ∷ 0x66 ∷ 0x48 ∷ 0x03 ∷ 0xf6 ∷ 0x0e ∷ 0x61 ∷ 0x35 ∷ 0x57 ∷ 0xb9 ∷ 0x86 ∷ 0xc1
    ∷ 0x1d ∷ 0x9e ∷ 0xe1 ∷ 0xf8 ∷ 0x98 ∷ 0x11 ∷ 0x69 ∷ 0xd9 ∷ 0x8e ∷ 0x94 ∷ 0x9b ∷ 0x1e ∷ 0x87
    ∷ 0xe9 ∷ 0xce ∷ 0x55 ∷ 0x28 ∷ 0xdf ∷ 0x8c ∷ 0xa1 ∷ 0x89 ∷ 0x0d ∷ 0xbf ∷ 0xe6 ∷ 0x42 ∷ 0x68
    ∷ 0x41 ∷ 0x99 ∷ 0x2d ∷ 0x0f ∷ 0xb0 ∷ 0x54 ∷ 0xbb ∷ 0x16 ∷ []

abbrev pub sub_byte : ℕ → ℕ
sub_byte b = get_or sbox b 0

-- `x << 1` keeps eight bits.
unfoldable pub xtime : ℕ → ℕ
xtime x = bit_xor ((x * 2) % 256) (if bit_and x 0x80 == 0 then 0 else 0x1b)

unfoldable pub rcon : List ℕ
rcon = 0x01 ∷ 0x02 ∷ 0x04 ∷ 0x08 ∷ 0x10 ∷ 0x20 ∷ 0x40 ∷ 0x80 ∷ 0x1b ∷ 0x36 ∷ []

-- `temp`, for a word whose index is a multiple of four.
unfoldable pub key_core : Bytes → ℕ → Bytes
key_core temp constant =
    let rotated = map sub_byte (drop 1 temp ++ take 1 temp) in
    xor_bytes rotated (constant ∷ 0 ∷ 0 ∷ 0 ∷ [])

abbrev word_at : List Bytes → ℕ → Bytes
word_at w i = get_or w i []

-- `w[i]`, for `i` the words there are.
unfoldable pub next_key_word : List Bytes → Bytes
next_key_word w =
    let i = length w in
    let last = word_at w (i - 1) in
    let temp = if i % 4 == 0 then key_core last (get_or rcon (i / 4 - 1) 0) else last in
    xor_bytes (word_at w (i - 4)) temp

unfoldable pub extend_key : ℕ → List Bytes → List Bytes
extend_key zero w = w
extend_key (suc n) w = extend_key n (w ++ (next_key_word w ∷ []))

-- Pieces of four bytes.
unfoldable pub key_words : ℕ → Bytes → List Bytes
key_words zero key = []
key_words (suc n) key = take 4 key ∷ key_words n (drop 4 key)

-- Four words make a round key.
unfoldable pub join_words : ℕ → List Bytes → List Bytes
join_words zero w = []
join_words (suc n) w =
    (word_at w 0 ++ (word_at w 1 ++ (word_at w 2 ++ word_at w 3))) ∷ join_words n (drop 4 w)

unfoldable pub aes128_key_schedule : Bytes → List Bytes
aes128_key_schedule key = join_words 11 (extend_key 40 (key_words 4 key))

unfoldable pub shift_rows : Bytes → Bytes
shift_rows s =
    let at = λ (i : ℕ). get_or s i 0 in
    at 0
    ∷ at 5
    ∷ at 10
    ∷ at 15
    ∷ at 4
    ∷ at 9
    ∷ at 14
    ∷ at 3
    ∷ at 8
    ∷ at 13
    ∷ at 2
    ∷ at 7
    ∷ at 12
    ∷ at 1
    ∷ at 6
    ∷ at 11
    ∷ []

abbrev xor5 : ℕ → ℕ → ℕ → ℕ → ℕ → ℕ
xor5 a b c d e = bit_xor (bit_xor (bit_xor (bit_xor a b) c) d) e

unfoldable pub mix_columns : Bytes → Bytes
mix_columns (s0 ∷ s1 ∷ s2 ∷ s3 ∷ rest) =
    xor5 (xtime s0) (xtime s1) s1 s2 s3
    ∷ xor5 s0 (xtime s1) (xtime s2) s2 s3
    ∷ xor5 s0 s1 (xtime s2) (xtime s3) s3
    ∷ xor5 (xtime s0) s0 s1 s2 (xtime s3)
    ∷ mix_columns rest
mix_columns rest = rest

-- The rounds from `round` on.
unfoldable pub aes_rounds : ℕ → Bytes → List Bytes → Bytes
aes_rounds round state [] = state
aes_rounds round state (rk ∷ rks) =
    let shifted = shift_rows (map sub_byte state) in
    let mixed = if ltb round 10 then mix_columns shifted else shifted in
    aes_rounds (round + 1) (xor_bytes mixed rk) rks

unfoldable pub aes128_encrypt_block : Bytes → List Bytes → Bytes
aes128_encrypt_block state round_keys =
    aes_rounds 1 (xor_bytes state (get_or round_keys 0 [])) (drop 1 round_keys)

unfoldable pub aes128_ecb_block : Bytes → Bytes → Option Bytes
aes128_ecb_block key block =
    if not (length key == 16) || ltb (length block) 16
    then none
    else some (aes128_encrypt_block (take 16 block) (aes128_key_schedule key))
