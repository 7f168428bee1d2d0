-- ===== src/Sniff/Quic/Varint/RoundTrip.antt =====
-- `read_varint` of src/app/sniff.rs against the encoding of RFC 9000, section 16.
use model_lib.Prelude.{
  ℕ, zero, suc, ◌+◌, ◌-◌, ◌*◌, ◌/◌, ◌%◌, ◌^◌, ◌<◌, bit_and, ◌≡◌, refl, ap, ◌∙◌, arith, Bytes, false,
  some, ok, [], ◌∷◌, ◌++◌, length, length-append, ltb, leb,
}
use model_lib.Prelude.Words.{of_be_bytes, of_be_onto, of_be_onto-append, be_bytes, length-be_bytes}
use model_lib.Std.Rest.{Rest, Rest-length, Rest-next, at-Rest, bind-eq, passed}
use model_lib.Sniff.Quic.Varint.{reads, wide, by_prefix, read_varint}
use model_lib.Sniff.Quic.Varint.Bounds.{byte_masks}
use native.Mathlib.Nat.{pow-suc, mul_assoc, div-add-mod, div-lt_iff_lt-mul, div-div-eq-div-mul}

-- A number on 2 ^ k bytes, the highest first, with `k` in the two highest bits.
abbrev pub varint : ℕ → ℕ → Bytes
varint k v = (k * 64 + v / 256 ^ (2 ^ k - 1)) ∷ be_bytes (2 ^ k - 1) v

reads-Rest :
    (buf : Bytes) (pos : ℕ) (xs s : Bytes)
    → Rest buf pos (xs ++ s)
    → reads (length xs) buf pos ≡ ok xs
unfolding reads
reads-Rest buf pos [] s r = refl
reads-Rest buf pos (x ∷ xs) s r =
    bind-eq _ (at-Rest r) (bind-eq _ (reads-Rest buf (pos + 1) xs s (Rest-next r)) refl)

mod_step : (p v : ℕ) → v % (256 * p) ≡ (v / 256 % p) * 256 + v % 256
mod_step p v =
    let a : 256 * p * (v / (256 * p)) + v % (256 * p) ≡ v = div-add-mod v (256 * p) in
    let b : p * (v / 256 / p) + v / 256 % p ≡ v / 256 = div-add-mod (v / 256) p in
    let c : v / 256 / p ≡ v / (256 * p) = div-div-eq-div-mul v 256 p in
    let d : 256 * p * (v / (256 * p)) ≡ 256 * (p * (v / (256 * p))) = mul_assoc 256 p _ in
    let e : p * (v / (256 * p)) + v / 256 % p ≡ v / 256 = rw (← c) b in omega (arith, a, d, e)

of_be_onto-be_bytes : (n acc v : ℕ) → of_be_onto acc (be_bytes n v) ≡ acc * 256 ^ n + v % 256 ^ n
of_be_onto-be_bytes zero acc v = omega arith
of_be_onto-be_bytes (suc n) acc v =
    let p = 256 ^ n in
    let back : of_be_onto acc (be_bytes (suc n) v)
        ≡ of_be_onto acc (be_bytes n (v / 256)) * 256 + v % 256 =
      of_be_onto-append acc (be_bytes n (v / 256)) (v % 256) in
    let power : 256 ^ suc n ≡ 256 * p = omega (arith, pow-suc 256 n) in
    let shift : acc * (256 * p) ≡ 256 * (acc * p) = omega arith in
    rw power (omega (arith, back, of_be_onto-be_bytes n acc (v / 256), mod_step p v, shift))

wide-Rest :
    (n : ℕ) (buf : Bytes) (pos first : ℕ) (xs s : Bytes)
    → Rest buf pos (first ∷ (xs ++ s))
    → n ≡ length xs + 1
    → wide n buf pos first ≡ ok (some (of_be_bytes (bit_and first 0x3f ∷ xs), n))
unfolding wide
wide-Rest n buf pos first xs s r e =
    let room : ltb (length buf) (pos + n) ≡ false =
      ground (arith, Rest-length r, length-append xs s) in
    let size : n - 1 ≡ length xs = omega (arith, e) in
    passed _ _ room (rw size (bind-eq _ (reads-Rest buf (pos + 1) xs s (Rest-next r)) refl))

by_prefix-Rest :
    (k : ℕ) (buf : Bytes) (pos first : ℕ) (xs s : Bytes)
    → k < 4
    → Rest buf pos (first ∷ (xs ++ s))
    → length xs ≡ 2 ^ k - 1
    → by_prefix k buf pos first ≡ ok (some (of_be_bytes (bit_and first 0x3f ∷ xs), 2 ^ k))
unfolding by_prefix
by_prefix-Rest zero buf pos first [] s h r e = ap (λ v. ok (some (v, 1))) (omega arith)
by_prefix-Rest zero buf pos first (x ∷ xs) s h r e = absurd (omega arith)
by_prefix-Rest (suc zero) buf pos first xs s h r e = wide-Rest 2 buf pos first xs s r (omega arith)
by_prefix-Rest (suc (suc zero)) buf pos first xs s h r e =
    wide-Rest 4 buf pos first xs s r (omega arith)
by_prefix-Rest (suc (suc (suc zero))) buf pos first xs s h r e =
    wide-Rest 8 buf pos first xs s r (omega arith)
by_prefix-Rest (suc (suc (suc (suc k)))) buf pos first xs s h r e = absurd (omega arith)

-- `read_varint` reads back what RFC 9000 writes, wherever it stands: a number on 1, 2, 4 or 8 bytes
-- that is below 64 times 256 to the bytes behind the first gives its value and the
-- number of bytes.
pub read_varint-varint :
    (k v : ℕ) (front s : Bytes)
    → k < 4
    → v < 64 * 256 ^ (2 ^ k - 1)
    → read_varint (front ++ (varint k v ++ s)) (length front) ≡ ok (some (v, 2 ^ k))
unfolding read_varint
read_varint-varint k v front s h small =
    let n = 2 ^ k - 1 in
    let p = 256 ^ n in
    let buf = front ++ (varint k v ++ s) in
    let r : Rest buf (length front) (varint k v ++ s) = (front, refl, refl) in
    let high : v / p < 64 =
      (div-lt_iff_lt-mul {k = p} {x = v} {y = 64} (omega (arith, small))).1 small in
    let first = k * 64 + v / p in
    let (low_bits, high_bits) = byte_masks first (omega (arith, high)) in
    let room : leb (length buf) (length front) ≡ false = ground (arith, Rest-length r) in
    let prefix : bit_and first 0xc0 / 64 ≡ k = omega (arith, high, high_bits) in
    let masked : bit_and first 0x3f ≡ v / p = omega (arith, high, low_bits) in
    let whole : of_be_onto (0 * 256 + v / p) (be_bytes n v) ≡ v =
      omega (arith, of_be_onto-be_bytes n (0 * 256 + v / p) v, div-add-mod v p) in
    passed _ _ room (
      bind-eq _ (at-Rest r) (
        rw prefix (
          by_prefix-Rest k buf (length front) first (be_bytes n v) s h r (length-be_bytes n v)
          ∙ rw (masked, whole) refl)))
