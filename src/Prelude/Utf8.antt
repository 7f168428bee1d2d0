-- ===== src/Prelude/Utf8.antt =====
-- `std::str::from_utf8`: well-formed UTF-8, byte by byte (the Unicode standard's table 3-7).
use model_lib.Prelude.Tests.{leb, ◌==◌, if◌then◌else◌, Bytes}
use Prim.Native.Nat.{ℕ, zero, suc}
use mathlib.Core.Bool.{Bool, false, ◌&&◌}
use mathlib.Core.Option.{Option, none, some}
use mathlib.Core.List.{[], ◌∷◌}

-- How many continuation bytes are due, and the range of the next one.
record Due : Type 0 where
  count : ℕ
  low : ℕ
  high : ℕ

abbrev within : ℕ → ℕ → ℕ → Bool
within lo hi b = leb lo b && leb b hi

abbrev due : ℕ → ℕ → ℕ → Option Due
due n lo hi = some (record { count = n; low = lo; high = hi })

lead : ℕ → Option Due
lead b =
    if leb b 0x7f
    then due 0 0x80 0xbf
    else if within 0xc2 0xdf b
    then due 1 0x80 0xbf
    else if b == 0xe0
    then due 2 0xa0 0xbf
    else if b == 0xed
    then due 2 0x80 0x9f
    else if within 0xe1 0xef b
    then due 2 0x80 0xbf
    else if b == 0xf0
    then due 3 0x90 0xbf
    else if within 0xf1 0xf3 b
    then due 3 0x80 0xbf
    else if b == 0xf4
    then due 3 0x80 0x8f
    else none

next_due : ℕ → Due → ℕ → Option Due
next_due zero d b = lead b
next_due (suc n) d b = if within d.low d.high b then due n 0x80 0xbf else none

utf8_from : Due → Bytes → Bool
utf8_from d [] = d.count == 0
utf8_from d (b ∷ bs) = elim (next_due d.count d b) [ none ↦ false | some e ↦ utf8_from e bs ]

unfoldable pub is_utf8 : Bytes → Bool
unfolding lead next_due utf8_from
is_utf8 = utf8_from (record { count = 0; low = 0x80; high = 0xbf })
