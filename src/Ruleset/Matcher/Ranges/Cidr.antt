-- ===== src/Ruleset/Matcher/Ranges/Cidr.antt =====
-- The CIDR bounds of src/ruleset/matcher.rs, as sets of addresses.
use model_lib.Prelude.{
  ℕ, zero, suc, ◌+◌, ◌-◌, ◌*◌, ◌/◌, ◌%◌, ◌^◌, ◌≤◌, ◌<◌, bit_and, bit_or, ◌≡◌, inl, inr, sym, ap,
  ◌∙◌, subst, arith, false, ◌&&◌, Bool-cases, leb, ◌==◌, le→leb, ==_iff,
}
use model_lib.Prelude.Bits.{pow-add, pow-pos, bit_and_fields, bit_or_fields}
use model_lib.Ruleset.Matcher.Ranges.{shift_by, ipv6_cidr_to_range, ipv4_cidr_to_range, Range}
use model_lib.Ruleset.Matcher.Ranges.Build.{inside, IsRange}
use native.Mathlib.Nat.{
  div-add-mod', mod-lt, mul-add-mod_self_right, mod-eq_of_lt, div-lt_iff_lt-mul, le-div_iff_mul-le,
}

-- `2 ^ m` networks of `2 ^ k` addresses, by their numbers.
mask_sizes : (a b : ℕ) → (suc a * suc b - 1) * suc b % (suc a * suc b) ≡ a * suc b
mask_sizes a b =
    let all_ones : suc a * suc b - 1 ≡ a * b + a + b = omega arith in
    let split : (a * b + a + b) * suc b ≡ b * (suc a * suc b) + a * suc b = omega arith in
    rw (all_ones, split, mul-add-mod_self_right b (suc a * suc b) (a * suc b))
      (mod-eq_of_lt (omega arith))

mask_fields_of : (m' k' w : ℕ) → 0 < m' → 0 < k' → w ≡ m' * k' → (w - 1) * k' % w ≡ (m' - 1) * k'
mask_fields_of zero k' w hm hk e = absurd (omega arith)
mask_fields_of (suc a) zero w hm hk e = absurd (omega arith)
mask_fields_of (suc a) (suc b) w hm hk e =
    let down : suc a - 1 ≡ a = omega arith in rw (e, down) (mask_sizes a b)

complement_of : (m' k' : ℕ) → 0 < m' → 0 < k' → m' * k' - 1 - (m' - 1) * k' ≡ k' - 1
complement_of zero k' hm hk = absurd (omega arith)
complement_of (suc a) zero hm hk = absurd (omega arith)
complement_of (suc a) (suc b) hm hk =
    let down : suc a - 1 ≡ a = omega arith in rw down (omega arith)

-- The addresses of network `q` among networks of `k'` addresses.
network_bounds :
    (q k' addr : ℕ)
    → 0 < k'
    → (leb (q * k') addr && leb addr (q * k' + (k' - 1))) ≡ (addr / k' == q)
network_bounds q k' addr pos =
    let below = le-div_iff_mul-le {k = k'} {x = q} {y = addr} pos in
    let above = div-lt_iff_lt-mul {k = k'} {x = addr} {y = q + 1} pos in
    let size : (q + 1) * k' ≡ q * k' + k' = omega arith in
    elim (Bool-cases (addr / k' == q)) [
      | inl same ↦
          let e : addr / k' ≡ q = (==_iff _ _).0 same in
          let lo : q * k' ≤ addr = below.0 (omega arith) in
          let hi : addr < (q + 1) * k' = above.0 (omega arith) in
          rw (same, le→leb _ _ lo, le→leb addr (q * k' + (k' - 1)) (omega arith))
      | inr other ↦ rw other (outside below.1 above.1 size other)
    ]
  where
    outside :
        (q * k' ≤ addr → q ≤ addr / k')
        → (addr < (q + 1) * k' → addr / k' < q + 1)
        → (q + 1) * k' ≡ q * k' + k'
        → (addr / k' == q) ≡ false
        → (leb (q * k') addr && leb addr (q * k' + (k' - 1))) ≡ false
    outside below above size other = ground arith

-- `m` network bits above `k` host bits.
module _ (m k : ℕ) where
  -- The mask `!0 << k` in a word of `m + k` bits, and its complement.
  mask_fields : (2 ^ (m + k) - 1) * 2 ^ k % 2 ^ (m + k) ≡ (2 ^ m - 1) * 2 ^ k
  mask_fields = mask_fields_of (2 ^ m) (2 ^ k) (2 ^ (m + k)) (pow-pos m) (pow-pos k) (pow-add m k)

  complement : 2 ^ (m + k) - 1 - (2 ^ m - 1) * 2 ^ k ≡ 2 ^ k - 1
  complement = rw (pow-add m k) (complement_of (2 ^ m) (2 ^ k) (pow-pos m) (pow-pos k))

  masked :
      (base : ℕ) → base < 2 ^ (m + k) → bit_and base ((2 ^ m - 1) * 2 ^ k) ≡ base / 2 ^ k * 2 ^ k
  masked base h =
      let network : base / 2 ^ k < 2 ^ m =
        (div-lt_iff_lt-mul {k = 2 ^ k} {x = base} {y = 2 ^ m} (pow-pos k)).1
          (rw (← pow-add m k) h) in
      let host : base % 2 ^ k < 2 ^ k = mod-lt base (pow-pos k) in
      ap (λ b. bit_and b ((2 ^ m - 1) * 2 ^ k)) (sym (div-add-mod' base (2 ^ k)))
      ∙ bit_and_fields k m (base / 2 ^ k) (base % 2 ^ k) host network

  -- The bounds of the code, in plain arithmetic.
  abbrev code_range : ℕ → Range
  code_range base =
      let mask = (2 ^ (m + k) - 1) * 2 ^ k % 2 ^ (m + k) in
      let lo = bit_and base mask in (lo, bit_or lo (2 ^ (m + k) - 1 - mask))

  code_range-bounds :
      (base : ℕ)
      → base < 2 ^ (m + k)
      → code_range base ≡ (base / 2 ^ k * 2 ^ k, base / 2 ^ k * 2 ^ k + (2 ^ k - 1))
  code_range-bounds base h = rw (
    mask_fields,
    masked base h,
    complement,
    bit_or_fields k (base / 2 ^ k) (2 ^ k - 1) (omega (arith, pow-pos k)),
  )

  pub inside-code_range :
      (base addr : ℕ)
      → base < 2 ^ (m + k)
      → inside addr (code_range base) ≡ (addr / 2 ^ k == base / 2 ^ k)
  inside-code_range base addr h =
      ap (inside addr) (code_range-bounds base h)
      ∙ network_bounds (base / 2 ^ k) (2 ^ k) addr (pow-pos k)

  code_range-IsRange : (base : ℕ) → base < 2 ^ (m + k) → IsRange (code_range base)
  code_range-IsRange base h = subst IsRange (sym (code_range-bounds base h)) (omega arith)

-- The mask `!0 << k` of a word of `w` bits clears the `k` host bits.
pub masked_word :
    (w m k base : ℕ)
    → m + k ≡ w
    → base < 2 ^ w
    → bit_and base ((2 ^ w - 1) * 2 ^ k % 2 ^ w) ≡ base / 2 ^ k * 2 ^ k
masked_word w m k base e h =
    subst (λ v. bit_and base ((2 ^ v - 1) * 2 ^ k % 2 ^ v) ≡ base / 2 ^ k * 2 ^ k) e
      (rw (mask_fields m k) (masked m k base (rw e h)))

-- The same for a word of `w` bits.
abbrev width_range : ℕ → ℕ → ℕ → Range
width_range w k base =
    let mask = (2 ^ w - 1) * 2 ^ k % 2 ^ w in
    let lo = bit_and base mask in (lo, bit_or lo (2 ^ w - 1 - mask))

inside-width_range :
    (w m k base addr : ℕ)
    → m + k ≡ w
    → base < 2 ^ w
    → inside addr (width_range w k base) ≡ (addr / 2 ^ k == base / 2 ^ k)
inside-width_range w m k base addr e h =
    subst (λ v. inside addr (width_range v k base) ≡ (addr / 2 ^ k == base / 2 ^ k)) e
      (inside-code_range m k base addr (rw e h))

width_range-IsRange : (w m k base : ℕ) → m + k ≡ w → base < 2 ^ w → IsRange (width_range w k base)
width_range-IsRange w m k base e h =
    subst (λ v. IsRange (width_range v k base)) e (code_range-IsRange m k base (rw e h))

-- The range of an IPv4 CIDR holds exactly the addresses whose first `prefix` bits are the network's.
pub inside-ipv4_cidr_to_range :
    (base prefix addr : ℕ)
    → base < 2 ^ 32
    → prefix ≤ 32
    → addr < 2 ^ 32
    → inside addr (ipv4_cidr_to_range (base, prefix))
      ≡ (addr / 2 ^ (32 - prefix) == base / 2 ^ (32 - prefix))
unfolding ipv4_cidr_to_range
inside-ipv4_cidr_to_range base zero addr hb hp ha = ground arith
inside-ipv4_cidr_to_range base (suc p) addr hb hp ha =
    let shift : shift_by 32 (suc p) ≡ 32 - suc p = omega arith in
    let some_prefix : (suc p == 0) ≡ false = ground arith in
    rw (shift, some_prefix) (inside-width_range 32 (suc p) (32 - suc p) base addr (omega arith) hb)

pub ipv4_cidr_to_range-IsRange :
    (base prefix : ℕ) → base < 2 ^ 32 → prefix ≤ 32 → IsRange (ipv4_cidr_to_range (base, prefix))
unfolding ipv4_cidr_to_range
ipv4_cidr_to_range-IsRange base zero hb hp = omega arith
ipv4_cidr_to_range-IsRange base (suc p) hb hp =
    let shift : shift_by 32 (suc p) ≡ 32 - suc p = omega arith in
    let some_prefix : (suc p == 0) ≡ false = ground arith in
    rw (shift, some_prefix) (width_range-IsRange 32 (suc p) (32 - suc p) base (omega arith) hb)

-- The range of an IPv6 CIDR holds exactly the addresses whose first `prefix` bits are the network's.
pub inside-ipv6_cidr_to_range :
    (base prefix addr : ℕ)
    → base < 2 ^ 128
    → prefix ≤ 128
    → addr < 2 ^ 128
    → inside addr (ipv6_cidr_to_range (base, prefix))
      ≡ (addr / 2 ^ (128 - prefix) == base / 2 ^ (128 - prefix))
unfolding ipv6_cidr_to_range
inside-ipv6_cidr_to_range base zero addr hb hp ha = ground arith
inside-ipv6_cidr_to_range base (suc p) addr hb hp ha =
    let shift : shift_by 128 (suc p) ≡ 128 - suc p = omega arith in
    let some_prefix : (suc p == 0) ≡ false = ground arith in
    rw (shift, some_prefix)
      (inside-width_range 128 (suc p) (128 - suc p) base addr (omega arith) hb)

pub ipv6_cidr_to_range-IsRange :
    (base prefix : ℕ) → base < 2 ^ 128 → prefix ≤ 128 → IsRange (ipv6_cidr_to_range (base, prefix))
unfolding ipv6_cidr_to_range
ipv6_cidr_to_range-IsRange base zero hb hp = omega arith
ipv6_cidr_to_range-IsRange base (suc p) hb hp =
    let shift : shift_by 128 (suc p) ≡ 128 - suc p = omega arith in
    let some_prefix : (suc p == 0) ≡ false = ground arith in
    rw (shift, some_prefix) (width_range-IsRange 128 (suc p) (128 - suc p) base (omega arith) hb)
