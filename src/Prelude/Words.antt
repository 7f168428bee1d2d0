-- ===== src/Prelude/Words.antt =====
-- Unsigned words as byte sequences: `to_le_bytes`, `from_le_bytes`, and the big-endian `octets`.
use model_lib.Prelude.Tests.{Bytes}
use model_lib.Prelude.Lists.{length, length-append, All, All-append}
use Prim.Native.Nat.{ℕ, zero, suc, ◌+◌, ◌*◌, ◌/◌, ◌%◌, ◌^◌, ◌<◌}
use mathlib.Core.Path.{◌≡◌, refl, ap}
use mathlib.Core.List.{[], ◌∷◌, ◌++◌}
use native.Mathlib.Omega.{arith}
use native.Mathlib.Nat.{pow-suc}

abbrev pub IsByte : ℕ → Type 0
IsByte b = b < 256

abbrev pub IsBytes : Bytes → Type 0
IsBytes = All IsByte

-- The lowest `n` bytes of a word, lowest first.
abbrev pub le_bytes : ℕ → ℕ → Bytes
le_bytes zero w = []
le_bytes (suc n) w = (w % 256) ∷ le_bytes n (w / 256)

abbrev pub of_le_bytes : Bytes → ℕ
of_le_bytes [] = 0
of_le_bytes (b ∷ bs) = b + 256 * of_le_bytes bs

-- The lowest `n` bytes of a word, highest first.
abbrev pub be_bytes : ℕ → ℕ → Bytes
be_bytes zero w = []
be_bytes (suc n) w = be_bytes n (w / 256) ++ ((w % 256) ∷ [])

abbrev pub of_be_onto : ℕ → Bytes → ℕ
of_be_onto acc [] = acc
of_be_onto acc (b ∷ bs) = of_be_onto (acc * 256 + b) bs

abbrev pub of_be_bytes : Bytes → ℕ
of_be_bytes = of_be_onto 0

pub length-le_bytes : (n w : ℕ) → length (le_bytes n w) ≡ n
length-le_bytes zero w = refl
length-le_bytes (suc n) w = ap suc (length-le_bytes n (w / 256))

pub length-be_bytes : (n w : ℕ) → length (be_bytes n w) ≡ n
length-be_bytes zero w = refl
length-be_bytes (suc n) w =
    omega
      (arith, length-append (be_bytes n (w / 256)) ((w % 256) ∷ []), length-be_bytes n (w / 256))

pub le_bytes-IsBytes : (n w : ℕ) → IsBytes (le_bytes n w)
le_bytes-IsBytes zero w = tt
le_bytes-IsBytes (suc n) w = (omega arith, le_bytes-IsBytes n (w / 256))

pub be_bytes-IsBytes : (n w : ℕ) → IsBytes (be_bytes n w)
be_bytes-IsBytes zero w = tt
be_bytes-IsBytes (suc n) w = All-append IsByte _ _ (be_bytes-IsBytes n (w / 256)) (omega arith, tt)

div_below : (n w : ℕ) → w < 256 ^ suc n → w / 256 < 256 ^ n
div_below n w h = omega (arith, pow-suc 256 n)

pub of_le_bytes-le_bytes : (n w : ℕ) → w < 256 ^ n → of_le_bytes (le_bytes n w) ≡ w
of_le_bytes-le_bytes zero w h = omega arith
of_le_bytes-le_bytes (suc n) w h = omega (arith, of_le_bytes-le_bytes n (w / 256) (div_below n w h))

pub of_be_onto-append :
    (acc : ℕ) (xs : Bytes) (b : ℕ) → of_be_onto acc (xs ++ (b ∷ [])) ≡ of_be_onto acc xs * 256 + b
of_be_onto-append acc [] b = refl
of_be_onto-append acc (x ∷ xs) b = of_be_onto-append (acc * 256 + x) xs b

pub of_be_bytes-be_bytes : (n w : ℕ) → w < 256 ^ n → of_be_bytes (be_bytes n w) ≡ w
of_be_bytes-be_bytes zero w h = omega arith
of_be_bytes-be_bytes (suc n) w h = omega (
  arith,
  of_be_onto-append 0 (be_bytes n (w / 256)) (w % 256),
  of_be_bytes-be_bytes n (w / 256) (div_below n w h),
)
