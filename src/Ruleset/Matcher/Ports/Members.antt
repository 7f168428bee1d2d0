-- ===== src/Ruleset/Matcher/Ports/Members.antt =====
-- The ports that a `PortBitSet` holds.
use model_lib.Prelude.{
  ℕ, zero, suc, ◌+◌, ◌-◌, ◌/◌, ◌%◌, ◌^◌, ◌≤◌, ◌<◌, bit_and, bit_or, ◌≡◌, ◌≢◌, ◌⊎◌, inl, inr, refl,
  ◌∙◌, arith, false, not, ◌&&◌, ◌||◌, Bool-cases, length, get_or, replicate, length-set,
  length-replicate, get_or-set_self, get_or-set_ne, ltb, leb, ◌==◌, leb→le, ==_iff,
}
use model_lib.Prelude.Bits.{
  bit, bit-le-one, bit-bit_or, bit_and-pow, pow-pos, bit-pow_self, bit-pow_ne, bit-zero,
}
use model_lib.Ruleset.Matcher.Ports.{PortBitSet, new, insert, insert_from, set_range, contains}

-- The test of `contains` on one word is the bit itself.
bit_test : (k w : ℕ) → not (bit_and w (2 ^ k) == 0) ≡ (bit k w == 1)
bit_test k w = elim (bit_cases (bit k w) (bit-le-one k w)) [
  | inl zero_bit ↦ rw (bit_and-pow k w, zero_bit) (ground arith)
  | inr one_bit ↦ rw (bit_and-pow k w, one_bit) (ground (arith, pow-pos k))
]
  where
    bit_cases : (b : ℕ) → b ≤ 1 → (b ≡ 0) ⊎ (b ≡ 1)
    bit_cases b h = ground arith

bit_of_or : (k j w : ℕ) → (bit k (bit_or w (2 ^ j)) == 1) ≡ ((j == k) || (bit k w == 1))
bit_of_or k j w = elim (Bool-cases (j == k)) [
  | inl same ↦
      let e : j ≡ k = (==_iff j k).0 same in
      rw (same, e, bit-bit_or k w (2 ^ k), bit-pow_self k) (ground (arith, bit-le-one k w))
  | inr other ↦
      let ne : k ≢ j = λ e. absurd (ground arith) in
      rw (other, bit-bit_or k w (2 ^ j), bit-pow_ne k j ne) (ground arith)
]

contains-insert :
    (p q : ℕ) (words : PortBitSet)
    → length words ≡ 1024
    → p < 65536
    → contains (insert p words) q ≡ ((p == q) || contains words q)
unfolding contains insert
contains-insert p q words size hp = elim (Bool-cases (p / 64 == q / 64)) [
  | inl same ↦
      let e : p / 64 ≡ q / 64 = (==_iff (p / 64) (q / 64)).0 same in
      let here : q / 64 < length words = omega arith in
      rw
        (
          e,
          get_or-set_self words (q / 64) (bit_or (get_or words (q / 64) 0) (2 ^ (p % 64))) 0 here,
          bit_test (q % 64) (bit_or (get_or words (q / 64) 0) (2 ^ (p % 64))),
          bit_test (q % 64) (get_or words (q / 64) 0),
          bit_of_or (q % 64) (p % 64) (get_or words (q / 64) 0),
        )
        (ground arith)
  | inr other ↦
      let ne : p / 64 ≢ q / 64 = λ e. absurd (ground arith) in
      rw
        (get_or-set_ne words (p / 64) (q / 64) (bit_or (get_or words (p / 64) 0) (2 ^ (p % 64))) 0
          ne)
        (ground arith)
]

length-insert : (p : ℕ) (words : PortBitSet) → length (insert p words) ≡ length words
unfolding insert
length-insert p words = length-set words _ _

-- The loop adds the ports from `p` on, `count` of them, and no other.
contains-insert_from :
    (count p q : ℕ) (words : PortBitSet)
    → length words ≡ 1024
    → p + count ≤ 65536
    → contains (insert_from count p words) q ≡ ((leb p q && ltb q (p + count)) || contains words q)
unfolding insert_from
contains-insert_from zero p q words size h = ground arith
contains-insert_from (suc count) p q words size h =
    contains-insert_from count (p + 1) q (insert p words) (length-insert p words ∙ size)
      (omega arith)
    ∙ ground (arith, contains-insert p q words size (omega arith))

length-insert_from :
    (count p : ℕ) (words : PortBitSet) → length (insert_from count p words) ≡ length words
unfolding insert_from
length-insert_from zero p words = refl
length-insert_from (suc count) p words =
    length-insert_from count (p + 1) (insert p words) ∙ length-insert p words

pub length-set_range : (s e : ℕ) (words : PortBitSet) → length (set_range s e words) ≡ length words
unfolding set_range
length-set_range s e words = length-insert_from (e + 1 - s) s words

-- `set_range` adds the ports from `start` to `end`, both included, and no other; none if `start`
-- is above `end`.
pub contains-set_range :
    (start end port : ℕ) (words : PortBitSet)
    → length words ≡ 1024
    → end < 65536
    → contains (set_range start end words) port
      ≡ ((leb start port && leb port end) || contains words port)
unfolding set_range
contains-set_range start end port words size h = elim (Bool-cases (leb start end)) [
  | inl up ↦
      let le = leb→le start end up in
      contains-insert_from (end + 1 - start) start port words size (omega arith) ∙ ground arith
  | inr down ↦
      let none_left : end + 1 - start ≡ 0 = ground arith in
      rw none_left (unfold insert_from in ground arith)
]

get_or-replicate : (n i : ℕ) → get_or {A = ℕ} (replicate n 0) i 0 ≡ 0
get_or-replicate zero i = refl
get_or-replicate (suc n) zero = refl
get_or-replicate (suc n) (suc i) = get_or-replicate n i

pub contains-new : (port : ℕ) → contains new port ≡ false
unfolding contains new
contains-new port =
    rw (get_or-replicate 1024 (port / 64), bit_test (port % 64) 0, bit-zero (port % 64)) refl

pub length-new : length new ≡ 1024
unfolding new
length-new = length-replicate {A = ℕ} 1024 0
