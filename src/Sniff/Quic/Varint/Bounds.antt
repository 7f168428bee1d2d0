-- ===== src/Sniff/Quic/Varint/Bounds.antt =====
-- The values and the reads of `read_varint` of src/app/sniff.rs.
use model_lib.Prelude.{
  ℕ, zero, suc, ◌+◌, ◌-◌, ◌/◌, ◌%◌, ◌≤◌, ◌<◌, bit_and, ◌≡◌, inl, inr, refl, arith, Bytes, Bool,
  true, ◌&&◌, Bool-cases, Option, none, some, ok, [], ◌∷◌, length, ltb, leb, ◌==◌, ==_iff,
}
use model_lib.Prelude.Words.{of_be_bytes, IsByte}
use model_lib.Std.Reads.{Read, at, Fine, Fine-bind, at-Fine}
use model_lib.Sniff.Quic.Varint.{reads, wide, by_prefix, read_varint}

all_below : ℕ → (ℕ → Bool) → Bool
all_below zero p = true
all_below (suc n) p = p n && all_below n p

all_below-at : (n i : ℕ) (p : ℕ → Bool) → all_below n p ≡ true → i < n → p i ≡ true
unfolding all_below
all_below-at zero i p h k = absurd (omega arith)
all_below-at (suc n) i p h k = elim (Bool-cases (i == n)) [
  | inl e ↦ let i_n : i ≡ n = (==_iff i n).0 e in rw i_n (ground (arith, h))
  | inr e ↦ all_below-at n i p (ground (arith, h)) (ground (arith, e))
]

-- On a byte the masks are a remainder and a quotient.
pub byte_masks : (b : ℕ) → IsByte b → (bit_and b 0x3f ≡ b % 64) × (bit_and b 0xc0 / 64 ≡ b / 64)
unfolding all_below
byte_masks b h =
    let low = all_below-at 256 b (λ x. bit_and x 0x3f == x % 64) refl h in
    let high = all_below-at 256 b (λ x. bit_and x 0xc0 / 64 == x / 64) refl h in
    ((==_iff (bit_and b 0x3f) (b % 64)).0 low, (==_iff (bit_and b 0xc0 / 64) (b / 64)).0 high)

pub reads-Fine : (n : ℕ) (buf : Bytes) (pos : ℕ) → pos + n ≤ length buf → Fine (reads n buf pos)
unfolding reads
reads-Fine zero buf pos h = ([], refl)
reads-Fine (suc n) buf pos h = Fine-bind (at buf pos) _ (at-Fine buf pos (omega arith)) λ b _.
    Fine-bind (reads n buf (pos + 1)) _ (reads-Fine n buf (pos + 1) (omega arith))
      λ bs _. (b ∷ bs, refl)

-- The bytes that are consumed lie in the buffer.
abbrev pub InBounds : Bytes → ℕ → Option (ℕ × ℕ) → Type 0
InBounds buf pos none = Unit
InBounds buf pos (some (value, n)) = (pos + n ≤ length buf) × (0 < n)

abbrev pub Ends : (Option (ℕ × ℕ) → Type 0) → Read (Option (ℕ × ℕ)) → Type 0
Ends P m = (r : Option (ℕ × ℕ)) × (m ≡ ok r) × P r

wide-InBounds :
    (n : ℕ) (buf : Bytes) (pos first : ℕ) → 0 < n → Ends (InBounds buf pos) (wide n buf pos first)
unfolding wide
wide-InBounds n buf pos first h = elim (Bool-cases (ltb (length buf) (pos + n))) [
  | inl e ↦ (none, ground (arith, e), tt)
  | inr e ↦
      let room : pos + n ≤ length buf = ground (arith, e) in
      let (rest, r) = reads-Fine (n - 1) buf (pos + 1) (omega arith) in
      (some (of_be_bytes (bit_and first 0x3f ∷ rest), n), ground (arith, e, r), (room, h))
]

by_prefix-InBounds :
    (prefix : ℕ) (buf : Bytes) (pos first : ℕ)
    → pos < length buf
    → Ends (InBounds buf pos) (by_prefix prefix buf pos first)
unfolding by_prefix
by_prefix-InBounds zero buf pos first h =
    (some (bit_and first 0x3f, 1), refl, (omega arith, omega arith))
by_prefix-InBounds (suc zero) buf pos first h = wide-InBounds 2 buf pos first (omega arith)
by_prefix-InBounds (suc (suc zero)) buf pos first h = wide-InBounds 4 buf pos first (omega arith)
by_prefix-InBounds (suc (suc (suc zero))) buf pos first h =
    wide-InBounds 8 buf pos first (omega arith)
by_prefix-InBounds (suc (suc (suc (suc k)))) buf pos first h = (none, ground arith, tt)

-- `read_varint` never panics, on any bytes at any position, and what it consumes, one byte
-- at least, lies in the buffer.
pub read_varint-InBounds : (buf : Bytes) (pos : ℕ) → Ends (InBounds buf pos) (read_varint buf pos)
unfolding read_varint
read_varint-InBounds buf pos = elim (Bool-cases (leb (length buf) pos)) [
  | inl e ↦ (none, ground (arith, e), tt)
  | inr e ↦
      let room : pos < length buf = ground (arith, e) in
      let (first, f) = at-Fine buf pos room in
      let (r, read, inside) = by_prefix-InBounds (bit_and first 0xc0 / 64) buf pos first room in
      (r, ground (arith, e, f, read), inside)
]
