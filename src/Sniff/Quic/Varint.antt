-- ===== src/Sniff/Quic/Varint.antt =====
-- `read_varint` of src/app/sniff.rs.
pub mod Bounds
pub mod RoundTrip
use model_lib.Prelude.{
  ◌>>=◌, ℕ, zero, suc, ◌+◌, ◌-◌, ◌/◌, bit_and, Bytes, true, false, Option, none, some, ok, [], ◌∷◌,
  length, ltb, leb, ◌==◌, if◌then◌else◌,
}
use model_lib.Prelude.Words.{of_be_bytes}
use model_lib.Std.Reads.{Read, at}

-- `n` bytes, each read by its index.
unfoldable pub reads : ℕ → Bytes → ℕ → Read Bytes
reads zero buf pos = ok []
reads (suc n) buf pos = do b ← at buf pos; bs ← reads n buf (pos + 1); ok (b ∷ bs)

-- A number of `n` bytes whose first byte is masked.
unfoldable pub wide : ℕ → Bytes → ℕ → ℕ → Read (Option (ℕ × ℕ))
wide n buf pos first = elim (ltb (length buf) (pos + n)) [
  | true ↦ ok none
  | false ↦ do
    rest ← reads (n - 1) buf (pos + 1)
    ok (some (of_be_bytes (bit_and first 0x3f ∷ rest), n))
]

-- The arms of the match on the two highest bits.
unfoldable pub by_prefix : ℕ → Bytes → ℕ → ℕ → Read (Option (ℕ × ℕ))
by_prefix prefix buf pos first =
    if prefix == 0
    then ok (some (bit_and first 0x3f, 1))
    else if prefix == 1
    then wide 2 buf pos first
    else if prefix == 2
    then wide 4 buf pos first
    else if prefix == 3
    then wide 8 buf pos first
    else ok none

-- The value, and how many bytes it takes.
unfoldable pub read_varint : Bytes → ℕ → Read (Option (ℕ × ℕ))
read_varint buf pos = elim (leb (length buf) pos) [
  | true ↦ ok none
  | false ↦ do first ← at buf pos; by_prefix (bit_and first 0xc0 / 64) buf pos first
]
