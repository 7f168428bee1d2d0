-- ===== src/Std/Numbers.antt =====
-- Reading and writing numbers: `parse::<u8>`, `parse::<u16>` and `Display` of Rust's library.
use model_lib.Prelude.{
  is_empty, if◌then◌else◌, ℕ, zero, suc, ◌+◌, ◌-◌, ◌*◌, ◌/◌, ◌%◌, ◌<◌, ◌≡◌, arith, Bytes, ◌&&◌,
  Option, none, some, [], ◌∷◌, ◌++◌, is_empty, ltb, leb, ◌==◌, if◌then◌else◌,
}

unfoldable pub digit : ℕ → Option ℕ
digit b = if leb b'0' b && leb b b'9' then some (b - b'0') else none

-- `n` digits read so far have the value `acc`.
unfoldable pub read_digits : ℕ → Bytes → Option ℕ
read_digits acc [] = some acc
read_digits acc (b ∷ s) = elim (digit b) [ none ↦ none | some d ↦ read_digits (acc * 10 + d) s ]

-- An optional plus sign, then digits, one at least.
unfoldable pub unsigned : Bytes → Option ℕ
unsigned [] = none
unsigned (b ∷ s) =
    let signed = if is_empty s then none else read_digits 0 s in
    if b == b'+' then signed else read_digits 0 (b ∷ s)

-- The value must be below `bound`, which is 2 ^ 8 for `u8` and 2 ^ 16 for `u16`.
unfoldable pub parse_below : ℕ → Bytes → Option ℕ
parse_below bound s = elim (unsigned s) [
  | none ↦ none
  | some n ↦ if ltb n bound then some n else none
]

pub parse_below-lt : (bound : ℕ) (s : Bytes) {n : ℕ} → parse_below bound s ≡ some n → n < bound
unfolding parse_below
parse_below-lt bound s h = ground arith

-- `Display`: `fuel` digits at most, and a number below 10 ^ fuel has no more.
unfoldable pub decimal_from : ℕ → ℕ → Bytes
decimal_from zero n = []
decimal_from (suc fuel) n =
    let front = decimal_from fuel (n / 10) in
    if ltb n 10 then (b'0' + n) ∷ [] else front ++ ((b'0' + n % 10) ∷ [])

-- `Display` of a `u16`
unfoldable pub decimal_u16 : ℕ → Bytes
decimal_u16 n = decimal_from 5 n
