-- ===== src/Ruleset/Compiler/Bounds.antt =====
-- What the value parsers of src/ruleset/compiler.rs let through.
use model_lib.Prelude.{
  ℕ, zero, suc, ◌+◌, ◌-◌, ◌*◌, ◌/◌, ◌%◌, ◌^◌, ◌≤◌, ◌<◌, ◌≡◌, inl, inr, refl, sym, ap, subst, arith,
  Bytes, true, false, Option, none, some, Option-cases, ok, ok_or, >>=-eq-ok, refuse_if-eq-ok,
  ok_inj, List, [], ◌∷◌, ◌++◌, length, replicate, ltb, ◌==◌,
}
use model_lib.Std.Numbers.{parse_below, parse_below-lt}
use model_lib.Std.Text.{trim, split_once}
use model_lib.Std.Addresses.{
  octet, octets, split_double, read_groups, ipv4_from_str, ipv6_from_str, of_groups, exactly_eight,
  join_double,
}
use model_lib.Ruleset.Error.{
  RuleSetError, invalid_cidr, invalid_port, missing_slash, bad_address, bad_prefix, prefix_range,
}
use model_lib.Ruleset.Loader.{Ipv4Addr, Ipv6Addr}
use model_lib.Ruleset.Compiler.Parse.{
  mask_ipv4, mask_ipv6, parse_ipv4_cidr, parse_ipv6_cidr, port_range_of, single_port,
  parse_port_range, parse_singbox_port_range,
}
use model_lib.Ruleset.Matcher.Ranges.Cidr.{masked_word}
use native.Mathlib.Nat.{mul-le-mul_right, mul-mod_left, div-add-mod', pow-suc}

-- A network address of 32 bits, whose host bits are zero, and its prefix.
pub record IsNetwork4 (c : Ipv4Addr × ℕ) : Type 0 where
  pub addr_lt : c.0 < 2 ^ 32
  pub prefix_le : c.1 ≤ 32
  pub host : c.0 % 2 ^ (32 - c.1) ≡ 0

pub record IsNetwork6 (c : Ipv6Addr × ℕ) : Type 0 where
  pub addr_lt : c.0 < 2 ^ 128
  pub prefix_le : c.1 ≤ 128
  pub host : c.0 % 2 ^ (128 - c.1) ≡ 0

-- A range of 16-bit ports that is not empty.
pub record IsPorts (r : ℕ × ℕ) : Type 0 where
  pub ordered : r.0 ≤ r.1
  pub end_lt : r.1 < 2 ^ 16

octet-lt : (s : Bytes) {n : ℕ} → octet s ≡ some n → n < 256
unfolding octet
octet-lt [] h = cc
octet-lt (b ∷ s) h = ground arith

none-some : {A : Type 0} {x : A} → ◌≡◌ {A = Option A} (some x) none → ⊥
none-some h = cc

not_above : (a b : ℕ) → ltb b a ≡ false → a ≤ b
not_above a b h = ground arith

div_mul_le : (a d : ℕ) → a / d * d ≤ a
div_mul_le a d = omega (arith, div-add-mod' a d)

octets-lt :
    (n acc : ℕ) (ps : List Bytes) {a : ℕ} → octets n acc ps ≡ some a → a < (acc + 1) * 256 ^ n
unfolding octets
octets-lt zero acc [] h = ground arith
octets-lt zero acc (p ∷ ps) h = cc
octets-lt (suc n) acc [] h = cc
octets-lt (suc n) acc (p ∷ ps) {a} h = elim (Option-cases (octet p)) [
  | inl bad ↦ absurd (none-some (sym (rw (bad, octets) at h)))
  | inr (o, good) ↦
      let small = octet-lt p good in
      let later = octets-lt n (acc * 256 + o) ps {a = a} (rw (good, octets) at h) in
      let wide : (acc * 256 + o + 1) * 256 ^ n ≤ (acc + 1) * 256 * 256 ^ n =
        mul-le-mul_right (256 ^ n) (omega arith) in
      omega (arith, later, wide, ap (λ (t : ℕ). (acc + 1) * t) (pow-suc 256 n))
]

-- The addresses that `from_str` reads have their width.
ipv4_from_str-lt : (s : Bytes) {a : ℕ} → ipv4_from_str s ≡ some a → a < 2 ^ 32
unfolding ipv4_from_str
ipv4_from_str-lt s h = omega (arith, octets-lt 4 0 _ h)

of_groups-lt : (gs : List ℕ) (acc : ℕ) → acc < 2 ^ 128 → of_groups acc gs < 2 ^ 128
of_groups-lt [] acc h = h
of_groups-lt (g ∷ gs) acc h = of_groups-lt gs ((acc * 65536 + g % 65536) % 2 ^ 128) (omega arith)

exactly_eight-lt : (gs : Option (List ℕ)) {a : ℕ} → exactly_eight gs ≡ some a → a < 2 ^ 128
exactly_eight-lt none h = cc
exactly_eight-lt (some gs) h = ground (arith, of_groups-lt gs 0 (omega arith))

join_double-lt : (f b : Option (List ℕ)) {a : ℕ} → join_double f b ≡ some a → a < 2 ^ 128
join_double-lt none b h = cc
join_double-lt (some f) none h = cc
join_double-lt (some f) (some b) h =
    let bound =
      of_groups-lt (f ++ (replicate (8 - (length f + length b)) 0 ++ b)) 0 (omega arith) in
    ground (arith, bound)

ipv6_from_str-lt : (s : Bytes) {a : ℕ} → ipv6_from_str s ≡ some a → a < 2 ^ 128
unfolding ipv6_from_str
ipv6_from_str-lt s {a} h = elim (Option-cases (split_double s)) [
  | inl one ↦ exactly_eight-lt (read_groups true s) {a = a} (rw (one, ipv6_from_str) at h)
  | inr (p, two) ↦
      join_double-lt (read_groups false p.0) (read_groups true p.1) {a = a}
        (rw (two, ipv6_from_str) at h)
]

mask_ipv4-network :
    (addr prefix : ℕ) → addr < 2 ^ 32 → prefix ≤ 32 → IsNetwork4 (mask_ipv4 addr prefix, prefix)
unfolding mask_ipv4
mask_ipv4-network addr zero ha hp = record { addr_lt = omega arith; prefix_le = hp; host = refl }
mask_ipv4-network addr (suc p) ha hp =
    let k : ℕ = 32 - suc p in
    let e = masked_word 32 (suc p) k addr (omega arith) ha in
    let some_prefix : (suc p == 0) ≡ false = ground arith in
    rw (some_prefix, e)
      (record {
        addr_lt = omega (arith, div_mul_le addr (2 ^ k));
        prefix_le = hp;
        host = mul-mod_left (addr / 2 ^ k) (2 ^ k);
      })

mask_ipv6-network :
    (addr prefix : ℕ) → addr < 2 ^ 128 → prefix ≤ 128 → IsNetwork6 (mask_ipv6 addr prefix, prefix)
unfolding mask_ipv6
mask_ipv6-network addr zero ha hp = record { addr_lt = omega arith; prefix_le = hp; host = refl }
mask_ipv6-network addr (suc p) ha hp =
    let k : ℕ = 128 - suc p in
    let e = masked_word 128 (suc p) k addr (omega arith) ha in
    let some_prefix : (suc p == 0) ≡ false = ground arith in
    rw (some_prefix, e)
      (record {
        addr_lt = omega (arith, div_mul_le addr (2 ^ k));
        prefix_le = hp;
        host = mul-mod_left (addr / 2 ^ k) (2 ^ k);
      })

ok_or-eq-ok : {A : Type 0} (o : Option A) (e : RuleSetError) {x : A} → ok_or o e ≡ ok x → o ≡ some x
ok_or-eq-ok none e h = cc
ok_or-eq-ok (some y) e h = ap some (ok_inj RuleSetError h)

pub parse_ipv4_cidr-network :
    (s : Bytes) {c : Ipv4Addr × ℕ} → parse_ipv4_cidr s ≡ ok c → IsNetwork4 c
unfolding parse_ipv4_cidr
parse_ipv4_cidr-network s h =
    let (p, hp, h1) = >>=-eq-ok (ok_or (split_once b'/' s) (invalid_cidr s missing_slash)) _ h in
    let (addr, ha, h2) = >>=-eq-ok (ok_or (ipv4_from_str p.0) (invalid_cidr s bad_address)) _ h1 in
    let (prefix, hx, h3) =
      >>=-eq-ok (ok_or (parse_below (2 ^ 8) p.1) (invalid_cidr s bad_prefix)) _ h2 in
    let (low, h4) = refuse_if-eq-ok (ltb 32 prefix) (invalid_cidr s prefix_range) _ h3 in
    subst IsNetwork4 (ok_inj RuleSetError h4) (
      mask_ipv4-network addr prefix (ipv4_from_str-lt p.0 (ok_or-eq-ok _ _ ha))
        (not_above prefix 32 low))

pub parse_ipv6_cidr-network :
    (s : Bytes) {c : Ipv6Addr × ℕ} → parse_ipv6_cidr s ≡ ok c → IsNetwork6 c
unfolding parse_ipv6_cidr
parse_ipv6_cidr-network s h =
    let (p, hp, h1) = >>=-eq-ok (ok_or (split_once b'/' s) (invalid_cidr s missing_slash)) _ h in
    let (addr, ha, h2) = >>=-eq-ok (ok_or (ipv6_from_str p.0) (invalid_cidr s bad_address)) _ h1 in
    let (prefix, hx, h3) =
      >>=-eq-ok (ok_or (parse_below (2 ^ 8) p.1) (invalid_cidr s bad_prefix)) _ h2 in
    let (low, h4) = refuse_if-eq-ok (ltb 128 prefix) (invalid_cidr s prefix_range) _ h3 in
    subst IsNetwork6 (ok_inj RuleSetError h4) (
      mask_ipv6-network addr prefix (ipv6_from_str-lt p.0 (ok_or-eq-ok _ _ ha))
        (not_above prefix 128 low))

port_range_of-IsPorts : (s a b : Bytes) {r : ℕ × ℕ} → port_range_of s a b ≡ ok r → IsPorts r
unfolding port_range_of
port_range_of-IsPorts s a b h =
    let (start, hs, h1) = >>=-eq-ok (ok_or (parse_below (2 ^ 16) (trim a)) (invalid_port s)) _ h in
    let (end, he, h2) = >>=-eq-ok (ok_or (parse_below (2 ^ 16) (trim b)) (invalid_port s)) _ h1 in
    let (order, h3) = refuse_if-eq-ok (ltb end start) (invalid_port s) _ h2 in
    subst IsPorts (ok_inj RuleSetError h3) (record {
      ordered = not_above start end order;
      end_lt = parse_below-lt (2 ^ 16) (trim b) (ok_or-eq-ok _ _ he);
    })

single_port-IsPorts : (s : Bytes) {r : ℕ × ℕ} → single_port s ≡ ok r → IsPorts r
unfolding single_port
single_port-IsPorts s h =
    let (p, hp, h1) = >>=-eq-ok (ok_or (parse_below (2 ^ 16) (trim s)) (invalid_port s)) _ h in
    subst IsPorts (ok_inj RuleSetError h1) (record {
      ordered = omega arith;
      end_lt = parse_below-lt (2 ^ 16) (trim s) (ok_or-eq-ok _ _ hp);
    })

pub parse_port_range-IsPorts : (s : Bytes) {r : ℕ × ℕ} → parse_port_range s ≡ ok r → IsPorts r
unfolding parse_port_range
parse_port_range-IsPorts s {r} h = elim (Option-cases (split_once b'-' s)) [
  | inl one ↦ single_port-IsPorts s {r = r} (rw (one, parse_port_range) at h)
  | inr (p, two) ↦ port_range_of-IsPorts s p.0 p.1 {r = r} (rw (two, parse_port_range) at h)
]

pub parse_singbox_port_range-IsPorts :
    (s : Bytes) {r : ℕ × ℕ} → parse_singbox_port_range s ≡ ok r → IsPorts r
unfolding parse_singbox_port_range
parse_singbox_port_range-IsPorts s {r} h = elim (Option-cases (split_once b':' s)) [
  | inl one ↦ parse_port_range-IsPorts s {r = r} (rw (one, parse_singbox_port_range) at h)
  | inr (p, two) ↦ port_range_of-IsPorts s p.0 p.1 {r = r} (rw (two, parse_singbox_port_range) at h)
]
