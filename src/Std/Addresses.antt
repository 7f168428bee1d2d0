-- ===== src/Std/Addresses.antt =====
-- `Ipv4Addr::from_str` and `Ipv6Addr::from_str` of Rust's standard library. An address is the
-- number that its octets write, highest first.
use model_lib.Prelude.{
  ℕ, zero, suc, ◌+◌, ◌-◌, ◌*◌, ◌/◌, ◌%◌, ◌^◌, Bytes, Bool, true, false, ◌&&◌, ◌||◌, Option, none,
  some, List, [], ◌∷◌, ◌++◌, length, replicate, ltb, leb, ◌==◌, if◌then◌else◌,
}
use model_lib.Std.Numbers.{read_digits}
use model_lib.Ruleset.Keys.{split}

-- A decimal octet: up to three digits, no zero in front of others, below 256.
abbrev starts_zero : Bytes → Bool
starts_zero [] = false
starts_zero (b ∷ []) = false
starts_zero (b ∷ (c ∷ s)) = b == b'0'

unfoldable pub octet : Bytes → Option ℕ
octet [] = none
octet (b ∷ s) =
    if ltb 3 (length (b ∷ s)) || starts_zero (b ∷ s)
    then none
    else elim (read_digits 0 (b ∷ s)) [ none ↦ none | some n ↦ if ltb n 256 then some n else none ]

abbrev both {ℓ κ μ} :
    {A : Type ℓ} {B : Type κ} {C : Type μ} → (A → B → C) → Option A → Option B → Option C
both f none y = none
both f (some a) none = none
both f (some a) (some b) = some (f a b)

-- Exactly four octets; `acc` is the number of the ones before.
unfoldable pub octets : ℕ → ℕ → List Bytes → Option ℕ
octets zero acc [] = some acc
octets zero acc (p ∷ ps) = none
octets (suc n) acc [] = none
octets (suc n) acc (p ∷ ps) = elim (octet p) [ none ↦ none | some o ↦ octets n (acc * 256 + o) ps ]

unfoldable pub ipv4_from_str : Bytes → Option ℕ
ipv4_from_str s = octets 4 0 (split b'.' s)

unfoldable pub hex_digit : ℕ → Option ℕ
hex_digit b =
    if leb b'0' b && leb b b'9'
    then some (b - b'0')
    else if leb b'a' b && leb b b'f'
    then some (b - b'a' + 10)
    else if leb b'A' b && leb b b'F'
    then some (b - b'A' + 10)
    else none

unfoldable pub read_hex : ℕ → Bytes → Option ℕ
read_hex acc [] = some acc
read_hex acc (b ∷ s) = elim (hex_digit b) [ none ↦ none | some d ↦ read_hex (acc * 16 + d) s ]

-- A group of one to four hexadecimal digits.
unfoldable pub group : Bytes → Option ℕ
group [] = none
group (b ∷ s) = if ltb 4 (length (b ∷ s)) then none else read_hex 0 (b ∷ s)

-- Groups between colons; the last piece may be an IPv4 address, which is two groups.
unfoldable pub groups : Bool → List Bytes → Option (List ℕ)
groups v4_last [] = some []
groups v4_last (p ∷ []) = elim (group p) [
  | some g ↦ some (g ∷ [])
  | none ↦
      let mapped : Option (List ℕ) = elim (ipv4_from_str p) [
        | none ↦ none
        | some a ↦ some (a / 65536 ∷ a % 65536 ∷ [])
      ] in
      if v4_last then mapped else none
]
groups v4_last (p ∷ (q ∷ ps)) = both (λ g gs. g ∷ gs) (group p) (groups v4_last (q ∷ ps))

-- No text is no group.
abbrev pub read_groups : Bool → Bytes → Option (List ℕ)
read_groups v4_last [] = some []
read_groups v4_last (b ∷ s) = groups v4_last (split b':' (b ∷ s))

-- The text in front of the first `::`, and the text behind it.
unfoldable pub split_double : Bytes → Option (Bytes × Bytes)
split_double [] = none
split_double (b ∷ []) = none
split_double (b ∷ (c ∷ s)) =
    let rest : Option (Bytes × Bytes) = elim (split_double (c ∷ s)) [
      | none ↦ none
      | some p ↦ some (b ∷ p.0, p.1)
    ] in
    if (b == b':') && (c == b':') then some ([], s) else rest

-- The `u128` that `u16` groups write.
abbrev pub of_groups : ℕ → List ℕ → ℕ
of_groups acc [] = acc
of_groups acc (g ∷ gs) = of_groups ((acc * 65536 + g % 65536) % 2 ^ 128) gs

-- The zeros that `::` stands for are put between the groups around it; one is missing at least.
abbrev pub join_double : Option (List ℕ) → Option (List ℕ) → Option ℕ
join_double none back = none
join_double (some f) none = none
join_double (some f) (some b) =
    let missing = 8 - (length f + length b) in
    if leb (length f + length b) 7
    then some (of_groups 0 (f ++ (replicate missing 0 ++ b)))
    else none

abbrev pub exactly_eight : Option (List ℕ) → Option ℕ
exactly_eight none = none
exactly_eight (some gs) = if length gs == 8 then some (of_groups 0 gs) else none

unfoldable pub ipv6_from_str : Bytes → Option ℕ
ipv6_from_str s = elim (split_double s) [
  | none ↦ exactly_eight (read_groups true s)
  | some p ↦ join_double (read_groups false p.0) (read_groups true p.1)
]
