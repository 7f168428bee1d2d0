-- ===== src/Sniff/Crypto/Hkdf.antt =====
-- `hmac_sha256`, `hkdf_extract_sha256` and `hkdf_expand_label_sha256` of src/app/sniff.rs.
use model_lib.Prelude.{
  ℕ, ◌+◌, ◌-◌, ◌/◌, ◌%◌, Bytes, Option, none, some, [], ◌∷◌, ◌++◌, length, take, replicate, ltb,
  if◌then◌else◌,
}
use model_lib.Sniff.Crypto.Sha256.{sha256}
use Prim.Native.Nat.{bit_xor}

unfoldable pub xor_bytes : Bytes → Bytes → Bytes
xor_bytes (x ∷ xs) (y ∷ ys) = bit_xor x y ∷ xor_bytes xs ys
xor_bytes _ _ = []

-- The key, hashed if it is longer than a block, and zeros behind it (`resize`).
unfoldable pub block_key : Bytes → Bytes
block_key key =
    let k = if ltb 64 (length key) then sha256 key else key in
    take 64 k ++ replicate (64 - length k) 0

unfoldable pub hmac_sha256 : Bytes → Bytes → Bytes
hmac_sha256 key input =
    let k = block_key key in
    let inner_hash = sha256 (xor_bytes (replicate 64 0x36) k ++ input) in
    sha256 (xor_bytes (replicate 64 0x5c) k ++ inner_hash)

unfoldable pub hkdf_extract_sha256 : Bytes → Bytes → Bytes
hkdf_extract_sha256 salt ikm = hmac_sha256 salt ikm

-- "tls13 "
abbrev pub tls13 : Bytes
tls13 = b't' ∷ (b'l' ∷ (b's' ∷ (b'1' ∷ (b'3' ∷ (b' ' ∷ [])))))

-- The `as u8` casts wrap.
unfoldable pub hkdf_label : Bytes → Bytes → ℕ → Bytes
hkdf_label label context len =
    (len / 256 % 256)
    ∷ (len % 256)
    ∷ ((length tls13 + length label) % 256)
    ∷ (tls13 ++ (label ++ ((length context % 256) ∷ context)))

unfoldable pub hkdf_expand_label_sha256 : Bytes → Bytes → Bytes → ℕ → Option Bytes
hkdf_expand_label_sha256 secret label context len =
    if ltb 32 len
    then none
    else some (take len (hmac_sha256 secret (hkdf_label label context len ++ (0x01 ∷ []))))
