-- ===== src/Sniff/Crypto/Sha256/Digest.antt =====
-- The padding and the digest of `sha256` of src/app/sniff.rs.
use model_lib.Prelude.{
  ℕ, zero, suc, ◌+◌, ◌-◌, ◌*◌, ◌/◌, ◌%◌, ◌^◌, ◌<◌, ◌≡◌, ◌≢◌, inl, inr, refl, ap, ◌∙◌, arith, Bytes,
  Bool-cases, List, [], ◌∷◌, ◌++◌, length, take, drop, length-append, All-append, ◌==◌, ==_iff,
}
use model_lib.Prelude.Words.{be_bytes, length-be_bytes, be_bytes-IsBytes, IsByte, IsBytes}
use model_lib.Sniff.Crypto.Sha256.{
  pad_zeros, pad_message, Hash, initial_hash, sha_round, sha_rounds, add_words, sha_block,
  sha_blocks, hash_bytes, sha256, round_constants,
}

-- `d` more zeros are due, and the fuel lets them be pushed.
pad_zeros-due :
    (fuel len d : ℕ)
    → d < fuel
    → (len + d) % 64 ≡ 56
    → (len + length (pad_zeros fuel len)) % 64 ≡ 56
unfolding pad_zeros
pad_zeros-due zero len d h e = absurd (omega arith)
pad_zeros-due (suc fuel) len d h e = elim (Bool-cases (len % 64 == 56)) [
  | inl stop ↦ rw stop (omega (arith, (==_iff (len % 64) 56).0 stop))
  | inr go ↦
      let more : len % 64 ≢ 56 = ground (arith, go) in
      let ih = pad_zeros-due fuel (len + 1) (d - 1) (omega (arith, more)) (omega (arith, more)) in
      rw go (omega (arith, ih))
]

pad_message-blocks : (msg : Bytes) → length (pad_message msg) % 64 ≡ 0
unfolding pad_message
pad_message-blocks msg =
    let n = length msg + 1 in
    let zeros = pad_zeros 64 n in
    let size = be_bytes 8 ((length msg * 8) % 2 ^ 64) in
    omega (
      arith,
      length-append msg (0x80 ∷ (zeros ++ size)),
      length-append zeros size,
      length-be_bytes 8 ((length msg * 8) % 2 ^ 64),
      pad_zeros-due 64 n ((120 - n % 64) % 64) (omega arith) (omega arith),
    )

sha_round-length : (h : Hash) (k w : ℕ) → length h ≡ 8 → length (sha_round h k w) ≡ 8
unfolding sha_round
sha_round-length (a ∷ b ∷ c ∷ d ∷ e ∷ f ∷ g ∷ hh ∷ []) k w h = refl
sha_round-length _ k w h = h

sha_rounds-length : (h : Hash) (ks ws : List ℕ) → length h ≡ 8 → length (sha_rounds h ks ws) ≡ 8
unfolding sha_rounds
sha_rounds-length h (k ∷ ks) (w ∷ ws) e =
    sha_rounds-length (sha_round h k w) ks ws (sha_round-length h k w e)
sha_rounds-length h _ _ e = e

add_words-length : (n : ℕ) (a b : Hash) → length a ≡ n → length b ≡ n → length (add_words a b) ≡ n
unfolding add_words
add_words-length n [] b ha hb = ha
add_words-length n (x ∷ a) [] ha hb = hb
add_words-length n (x ∷ a) (y ∷ b) ha hb =
    ap suc (add_words-length (length a) a b refl (omega arith)) ∙ ha

sha_blocks-length :
    (n : ℕ) (h : Hash) (msg : Bytes) → length h ≡ 8 → length (sha_blocks n h msg) ≡ 8
unfolding sha_blocks sha_block
sha_blocks-length zero h msg e = e
sha_blocks-length (suc n) h msg e =
    sha_blocks-length n (sha_block h (take 64 msg)) (drop 64 msg)
      (add_words-length 8 h _ e (sha_rounds-length h round_constants _ e))

hash_bytes-length : (h : Hash) → length (hash_bytes h) ≡ 4 * length h
unfolding hash_bytes
hash_bytes-length [] = refl
hash_bytes-length (v ∷ h) =
    omega
      (arith, length-append (be_bytes 4 v) (hash_bytes h), length-be_bytes 4 v, hash_bytes-length h)

hash_bytes-IsBytes : (h : Hash) → IsBytes (hash_bytes h)
unfolding hash_bytes
hash_bytes-IsBytes [] = tt
hash_bytes-IsBytes (v ∷ h) =
    All-append IsByte (be_bytes 4 v) (hash_bytes h) (be_bytes-IsBytes 4 v) (hash_bytes-IsBytes h)

-- `sha256` ends with 32 bytes on any input: the loop that pads ends within 64 zeros, at a whole
-- number of blocks of 64 bytes, so no block is short.
pub sha256-length :
    (msg : Bytes)
    → (length (pad_message msg) % 64 ≡ 0) × (length (sha256 msg) ≡ 32) × IsBytes (sha256 msg)
unfolding sha256 initial_hash
sha256-length msg =
    let padded = pad_message msg in
    let h = sha_blocks (length padded / 64) initial_hash padded in
    (
      pad_message-blocks msg,
      omega (
        arith,
        hash_bytes-length h,
        sha_blocks-length (length padded / 64) initial_hash padded refl,
      ),
      hash_bytes-IsBytes h,
    )
