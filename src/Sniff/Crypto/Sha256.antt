-- ===== src/Sniff/Crypto/Sha256.antt =====
-- `sha256` of src/app/sniff.rs.
pub mod Digest
use model_lib.Prelude.{
  ℕ, zero, suc, ◌+◌, ◌-◌, ◌*◌, ◌/◌, ◌%◌, ◌^◌, bit_and, bit_or, Bytes, List, [], ◌∷◌, ◌++◌, length,
  get_or, take, drop, ◌==◌, if◌then◌else◌,
}
use model_lib.Prelude.Words.{be_bytes, of_be_bytes}
use Prim.Native.Nat.{bit_xor}

-- `u32::wrapping_add`, `rotate_right` and `!`
abbrev pub wrapping_add : ℕ → ℕ → ℕ
wrapping_add a b = (a + b) % 2 ^ 32

abbrev pub rotate_right : ℕ → ℕ → ℕ
rotate_right w n = bit_or (w / 2 ^ n) ((w * 2 ^ (32 - n)) % 2 ^ 32)

abbrev pub complement : ℕ → ℕ
complement w = 2 ^ 32 - 1 - w

unfoldable pub round_constants : List ℕ
round_constants =
    0x428a2f98 ∷ 0x71374491 ∷ 0xb5c0fbcf ∷ 0xe9b5dba5 ∷ 0x3956c25b ∷ 0x59f111f1 ∷ 0x923f82a4
    ∷ 0xab1c5ed5 ∷ 0xd807aa98 ∷ 0x12835b01 ∷ 0x243185be ∷ 0x550c7dc3 ∷ 0x72be5d74 ∷ 0x80deb1fe
    ∷ 0x9bdc06a7 ∷ 0xc19bf174 ∷ 0xe49b69c1 ∷ 0xefbe4786 ∷ 0x0fc19dc6 ∷ 0x240ca1cc ∷ 0x2de92c6f
    ∷ 0x4a7484aa ∷ 0x5cb0a9dc ∷ 0x76f988da ∷ 0x983e5152 ∷ 0xa831c66d ∷ 0xb00327c8 ∷ 0xbf597fc7
    ∷ 0xc6e00bf3 ∷ 0xd5a79147 ∷ 0x06ca6351 ∷ 0x14292967 ∷ 0x27b70a85 ∷ 0x2e1b2138 ∷ 0x4d2c6dfc
    ∷ 0x53380d13 ∷ 0x650a7354 ∷ 0x766a0abb ∷ 0x81c2c92e ∷ 0x92722c85 ∷ 0xa2bfe8a1 ∷ 0xa81a664b
    ∷ 0xc24b8b70 ∷ 0xc76c51a3 ∷ 0xd192e819 ∷ 0xd6990624 ∷ 0xf40e3585 ∷ 0x106aa070 ∷ 0x19a4c116
    ∷ 0x1e376c08 ∷ 0x2748774c ∷ 0x34b0bcb5 ∷ 0x391c0cb3 ∷ 0x4ed8aa4a ∷ 0x5b9cca4f ∷ 0x682e6ff3
    ∷ 0x748f82ee ∷ 0x78a5636f ∷ 0x84c87814 ∷ 0x8cc70208 ∷ 0x90befffa ∷ 0xa4506ceb ∷ 0xbef9a3f7
    ∷ 0xc67178f2 ∷ []

abbrev pub Hash : Type 0
Hash = List ℕ

unfoldable pub initial_hash : Hash
initial_hash =
    0x6a09e667 ∷ 0xbb67ae85 ∷ 0x3c6ef372 ∷ 0xa54ff53a ∷ 0x510e527f ∷ 0x9b05688c ∷ 0x1f83d9ab
    ∷ 0x5be0cd19 ∷ []

-- The zeros that `while (msg.len() % 64) != 56` pushes: no more than `fuel`, for which 64 is enough.
unfoldable pub pad_zeros : ℕ → ℕ → Bytes
pad_zeros zero len = []
pad_zeros (suc fuel) len =
    let rest = pad_zeros fuel (len + 1) in if len % 64 == 56 then [] else 0 ∷ rest

unfoldable pub pad_message : Bytes → Bytes
pad_message msg =
    msg ++ (0x80 ∷ (pad_zeros 64 (length msg + 1) ++ be_bytes 8 ((length msg * 8) % 2 ^ 64)))

-- The first sixteen words of a block.
unfoldable pub block_words : ℕ → Bytes → List ℕ
block_words zero chunk = []
block_words (suc n) chunk = of_be_bytes (take 4 chunk) ∷ block_words n (drop 4 chunk)

-- One more word, `w[i]` for `i` the words there are.
unfoldable pub next_word : List ℕ → ℕ
next_word w =
    let i = length w in
    let w15 = get_or w (i - 15) 0 in
    let w2 = get_or w (i - 2) 0 in
    let s0 = bit_xor (bit_xor (rotate_right w15 7) (rotate_right w15 18)) (w15 / 2 ^ 3) in
    let s1 = bit_xor (bit_xor (rotate_right w2 17) (rotate_right w2 19)) (w2 / 2 ^ 10) in
    wrapping_add (wrapping_add (wrapping_add (get_or w (i - 16) 0) s0) (get_or w (i - 7) 0)) s1

unfoldable pub extend_words : ℕ → List ℕ → List ℕ
extend_words zero w = w
extend_words (suc n) w = extend_words n (w ++ (next_word w ∷ []))

-- The body of the loop of 64 rounds, at the round's constant and word.
unfoldable pub sha_round : Hash → ℕ → ℕ → Hash
sha_round (a ∷ b ∷ c ∷ d ∷ e ∷ f ∷ g ∷ hh ∷ []) k w =
    let s1 = bit_xor (bit_xor (rotate_right e 6) (rotate_right e 11)) (rotate_right e 25) in
    let ch = bit_xor (bit_and e f) (bit_and (complement e) g) in
    let temp1 = wrapping_add (wrapping_add (wrapping_add (wrapping_add hh s1) ch) k) w in
    let s0 = bit_xor (bit_xor (rotate_right a 2) (rotate_right a 13)) (rotate_right a 22) in
    let maj = bit_xor (bit_xor (bit_and a b) (bit_and a c)) (bit_and b c) in
    let temp2 = wrapping_add s0 maj in
    wrapping_add temp1 temp2 ∷ a ∷ b ∷ c ∷ wrapping_add d temp1 ∷ e ∷ f ∷ g ∷ []
sha_round h k w = h

unfoldable pub sha_rounds : Hash → List ℕ → List ℕ → Hash
sha_rounds h (k ∷ ks) (w ∷ ws) = sha_rounds (sha_round h k w) ks ws
sha_rounds h _ _ = h

unfoldable pub add_words : Hash → Hash → Hash
add_words (x ∷ xs) (y ∷ ys) = wrapping_add x y ∷ add_words xs ys
add_words _ _ = []

-- The body of the loop over the blocks.
unfoldable pub sha_block : Hash → Bytes → Hash
sha_block h chunk =
    add_words h (sha_rounds h round_constants (extend_words 48 (block_words 16 chunk)))

-- `n` blocks of 64 bytes.
unfoldable pub sha_blocks : ℕ → Hash → Bytes → Hash
sha_blocks zero h msg = h
sha_blocks (suc n) h msg = sha_blocks n (sha_block h (take 64 msg)) (drop 64 msg)

unfoldable pub hash_bytes : Hash → Bytes
hash_bytes [] = []
hash_bytes (v ∷ h) = be_bytes 4 v ++ hash_bytes h

unfoldable pub sha256 : Bytes → Bytes
sha256 input =
    let msg = pad_message input in hash_bytes (sha_blocks (length msg / 64) initial_hash msg)
