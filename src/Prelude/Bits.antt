-- ===== src/Prelude/Bits.antt =====
-- Bit operations at variables: prefix masks and single bits as arithmetic.
use Prim.Native.Nat.{
  ℕ, zero, suc, ◌+◌, ◌-◌, ◌*◌, ◌/◌, ◌%◌, ◌^◌, ◌≤◌, ◌<◌, min, max, bit_and, bit_or, digits, bitwise,
  bit_and-bitwise, bit_or-bitwise,
}
use mathlib.Core.Path.{◌≡◌, refl, ap, ◌∙◌}
use mathlib.Core.Logic.{◌≢◌}
use native.Mathlib.Omega.{arith}
use native.Mathlib.Nat.{pow-suc, le_refl, zero-add, suc-add}

-- The library's `bitwise` counts down as many digits as its first number; more do not matter.
module _ (z : ℕ → ℕ) (op : ℕ → ℕ → ℕ) where
  more_digits : (x y n m : ℕ) → x ≤ n → n ≤ m → digits z op m x y ≡ digits z op n x y
  more_digits zero y zero zero h k = refl
  more_digits zero y zero (suc m) h k = refl
  more_digits zero y (suc n) zero h k = refl
  more_digits zero y (suc n) (suc m) h k = refl
  more_digits (suc x) y zero m h k = absurd (omega arith)
  more_digits (suc x) y (suc n) zero h k = absurd (omega arith)
  more_digits (suc x) y (suc n) (suc m) h k =
      ap (λ d. d * 2 + op (suc x % 2) (y % 2))
        (more_digits (suc x / 2) (y / 2) n m (omega arith) (omega arith))

  upper_digits : (x y : ℕ) → digits z op x (suc x / 2) y ≡ bitwise z op (suc x / 2) y
  upper_digits x y = more_digits (suc x / 2) y (suc x / 2) x (le_refl _) (omega arith)

-- One binary digit of each operation at a time.
pub bit_and_step : (x y : ℕ) → bit_and x y ≡ bit_and (x / 2) (y / 2) * 2 + min (x % 2) (y % 2)
bit_and_step zero y = simp bit_and-bitwise (omega arith)
bit_and_step (suc x) y =
    simp bit_and-bitwise
      (ap (λ d. d * 2 + min (suc x % 2) (y % 2)) (upper_digits (λ v. 0) min x (y / 2)))

pub bit_or_step : (x y : ℕ) → bit_or x y ≡ bit_or (x / 2) (y / 2) * 2 + max (x % 2) (y % 2)
bit_or_step zero y = simp bit_or-bitwise (omega arith)
bit_or_step (suc x) y =
    simp bit_or-bitwise
      (ap (λ d. d * 2 + max (suc x % 2) (y % 2)) (upper_digits (λ v. v) max x (y / 2)))

-- The bit of weight 2 ^ k, as a number.
abbrev pub bit : ℕ → ℕ → ℕ
bit zero a = a % 2
bit (suc k) a = bit k (a / 2)

pub bit-le-one : (k a : ℕ) → bit k a ≤ 1
bit-le-one zero a = omega arith
bit-le-one (suc k) a = bit-le-one k (a / 2)

pub bit-bit_or : (k a b : ℕ) → bit k (bit_or a b) ≡ max (bit k a) (bit k b)
bit-bit_or zero a b = omega (arith, bit_or_step a b)
bit-bit_or (suc k) a b = ap (bit k) halve ∙ bit-bit_or k (a / 2) (b / 2)
  where
    halve : bit_or a b / 2 ≡ bit_or (a / 2) (b / 2)
    halve = omega (arith, bit_or_step a b)

pow_half : (k : ℕ) → 2 ^ suc k / 2 ≡ 2 ^ k
pow_half k = omega (arith, pow-suc 2 k)

pow_even : (k : ℕ) → 2 ^ suc k % 2 ≡ 0
pow_even k = omega (arith, pow-suc 2 k)

bit_or-zero_fuel : (x fuel : ℕ) → x ≤ fuel → bit_or x 0 ≡ x
bit_or-zero_fuel (suc x) zero h = absurd (omega arith)
bit_or-zero_fuel zero fuel h = refl
bit_or-zero_fuel (suc x) (suc fuel) h =
    omega (arith, bit_or_step (suc x) 0, bit_or-zero_fuel (suc x / 2) fuel (omega arith))

bit_and-zero_fuel : (x fuel : ℕ) → x ≤ fuel → bit_and x 0 ≡ 0
bit_and-zero_fuel (suc x) zero h = absurd (omega arith)
bit_and-zero_fuel zero fuel h = refl
bit_and-zero_fuel (suc x) (suc fuel) h =
    omega (arith, bit_and_step (suc x) 0, bit_and-zero_fuel (suc x / 2) fuel (omega arith))

pub bit_and-zero : (a : ℕ) → bit_and a 0 ≡ 0
bit_and-zero a = bit_and-zero_fuel a a (le_refl a)

pub bit_or-zero : (a : ℕ) → bit_or a 0 ≡ a
bit_or-zero a = bit_or-zero_fuel a a (le_refl a)

-- `a & (1 << k)` is the bit in its place.
pub bit_and-pow : (k a : ℕ) → bit_and a (2 ^ k) ≡ bit k a * 2 ^ k
bit_and-pow zero a = omega (arith, bit_and_step a 1, bit_and-zero (a / 2))
bit_and-pow (suc k) a =
    let step : bit_and a (2 ^ suc k) ≡ bit_and (a / 2) (2 ^ k) * 2 =
      bit_and_step a (2 ^ suc k) ∙ rw (pow_half k, pow_even k) (omega arith) in
    step
    ∙ omega
        (arith, bit_and-pow k (a / 2), pow-suc 2 k, ap (λ (t : ℕ). bit k (a / 2) * t) (pow-suc 2 k))

pub pow-pos : (k : ℕ) → 0 < 2 ^ k
pow-pos zero = omega arith
pow-pos (suc k) = omega (arith, pow-suc 2 k, pow-pos k)

pub pow-add : (m k : ℕ) → 2 ^ (m + k) ≡ 2 ^ m * 2 ^ k
pow-add zero k = rw zero-add (omega arith)
pow-add (suc m) k = rw suc-add (
    omega
      (arith, pow-suc 2 (m + k), pow-suc 2 m, pow-add m k, ap (λ (t : ℕ). t * 2 ^ k) (pow-suc 2 m)))

bit_and-ones : (m q : ℕ) → q < 2 ^ m → bit_and q (2 ^ m - 1) ≡ q
bit_and-ones zero q h = omega (arith, bit_and-zero q)
bit_and-ones (suc m) q h =
    let half : (2 ^ suc m - 1) / 2 ≡ 2 ^ m - 1 = omega (arith, pow-suc 2 m, pow-pos m) in
    let odd : (2 ^ suc m - 1) % 2 ≡ 1 = omega (arith, pow-suc 2 m, pow-pos m) in
    bit_and_step q (2 ^ suc m - 1)
    ∙ rw (half, odd) (omega (arith, bit_and-ones m (q / 2) (omega (arith, pow-suc 2 m))))

-- A field of `m` ones above `k` zeros keeps the high part.
pub bit_and_fields :
    (k m q r : ℕ)
    → r < 2 ^ k
    → q < 2 ^ m
    → bit_and (q * 2 ^ k + r) ((2 ^ m - 1) * 2 ^ k) ≡ q * 2 ^ k
bit_and_fields zero m q r hr hq =
    let qe : q * 2 ^ 0 + r ≡ q = omega arith in
    let me : (2 ^ m - 1) * 2 ^ 0 ≡ 2 ^ m - 1 = omega arith in
    rw (qe, me) (bit_and-ones m q hq ∙ omega arith)
bit_and_fields (suc k) m q r hr hq =
    let o : ℕ = 2 ^ m - 1 in
    let two = pow-suc 2 k in
    let qt = ap (λ (t : ℕ). q * t) two in
    let ot = ap (λ (t : ℕ). o * t) two in
    let a_half : (q * 2 ^ suc k + r) / 2 ≡ q * 2 ^ k + r / 2 = omega (arith, qt) in
    let m_half : (o * 2 ^ suc k) / 2 ≡ o * 2 ^ k = omega (arith, ot) in
    let m_even : (o * 2 ^ suc k) % 2 ≡ 0 = omega (arith, ot) in
    bit_and_step (q * 2 ^ suc k + r) (o * 2 ^ suc k)
    ∙ rw (a_half, m_half, m_even)
        (omega (arith, bit_and_fields k m q (r / 2) (omega (arith, two)) hq, qt))

-- Fields that do not overlap are joined by addition.
pub bit_or_fields : (k q r : ℕ) → r < 2 ^ k → bit_or (q * 2 ^ k) r ≡ q * 2 ^ k + r
bit_or_fields zero q r h = let re : r ≡ 0 = omega arith in rw re (bit_or-zero _ ∙ omega arith)
bit_or_fields (suc k) q r h =
    let two = pow-suc 2 k in
    let qt = ap (λ (t : ℕ). q * t) two in
    let half : (q * 2 ^ suc k) / 2 ≡ q * 2 ^ k = omega (arith, qt) in
    let even : (q * 2 ^ suc k) % 2 ≡ 0 = omega (arith, qt) in
    bit_or_step (q * 2 ^ suc k) r
    ∙ rw (half, even) (omega (arith, bit_or_fields k q (r / 2) (omega (arith, two)), qt))

pub bit-pow_self : (k : ℕ) → bit k (2 ^ k) ≡ 1
bit-pow_self zero = refl
bit-pow_self (suc k) = ap (bit k) (pow_half k) ∙ bit-pow_self k

pub bit-zero : (k : ℕ) → bit k 0 ≡ 0
bit-zero zero = refl
bit-zero (suc k) = bit-zero k

pub bit-pow_ne : (k j : ℕ) → k ≢ j → bit k (2 ^ j) ≡ 0
bit-pow_ne zero zero h = absurd (h refl)
bit-pow_ne zero (suc j) h = pow_even j
bit-pow_ne (suc k) zero h = bit-zero k
bit-pow_ne (suc k) (suc j) h = ap (bit k) (pow_half j) ∙ bit-pow_ne k j (λ e. h (ap suc e))
