-- ===== src/Ruleset/Matcher/Ranges.antt =====
-- `IpRanges`, `merge_ranges` and the CIDR bounds of src/ruleset/matcher.rs. Addresses are numbers,
-- of 32 or 128 bits.
pub mod Cidr
pub mod Build
pub mod Search
use model_lib.Prelude.{
  ℕ, zero, suc, ◌+◌, ◌-◌, ◌*◌, ◌/◌, ◌%◌, ◌^◌, ◌≤◌, ◌<◌, min, max, bit_and, bit_or, ◌≡◌, ◌≢◌, ◌↔◌,
  ◌⊎◌, inl, inr, refl, sym, ap, ◌∙◌, subst, arith, Bytes, bytes_eq, bytes_eq_iff, bytes_eq_refl,
  is_utf8, Bool, true, false, not, ◌&&◌, ◌||◌, Bool-cases, Option, none, some, Option-cases, Result,
  ok, err, ◌>>=◌, ◌>>◌, refuse_if, ok_or, map_err, >>=-eq-ok, refuse_if-eq-ok, List, [], ◌∷◌, ◌++◌,
  map, reverse, append-nil, append_assoc, length, is_empty, get_elem?, get_or, set, take, drop,
  replicate, any, All, length-append, length-set, length-replicate, length-map, length-take,
  length-drop, take-append, drop-append, take-append-drop, get_or-append_left, get_or-append_right,
  get_or-set_self, get_or-set_ne, any-append, any-map, All-append, All-take, All-drop, ltb, leb,
  ◌==◌, if◌then◌else◌, ltb→lt, lt→ltb, leb→le, le→leb, ==_iff,
}
use model_lib.Ruleset.Loader.{Ipv4Addr, Ipv6Addr}

abbrev pub Range : Type 0
Range = ℕ × ℕ

-- `sort_unstable_by_key` on the lower bounds. The order of ranges with one lower bound is not
-- fixed by the library; here the one that came first stays first.
unfoldable pub insert_range : Range → List Range → List Range
insert_range r [] = r ∷ []
insert_range r (s ∷ ss) =
    let rest = insert_range r ss in if ltb s.0 r.0 then s ∷ rest else r ∷ (s ∷ ss)

unfoldable pub sort_ranges : List Range → List Range
sort_ranges [] = []
sort_ranges (r ∷ rs) = insert_range r (sort_ranges rs)

-- The loop of `merge_ranges`: `last` is the last range of `out`, and the ones before it are
-- never touched again.
unfoldable pub merge_from : Range → List Range → List Range
merge_from last [] = last ∷ []
merge_from last ((lo, hi) ∷ rs) =
    let overlap = merge_from (if ltb last.1 hi then (last.0, hi) else last) rs in
    let apart = last ∷ merge_from (lo, hi) rs in if leb lo last.1 then overlap else apart

unfoldable pub merge_ranges : List Range → List Range
merge_ranges [] = []
merge_ranges (r ∷ rs) = merge_from r rs

-- `IpRanges::build`
unfoldable pub build_ranges : List Range → List Range
build_ranges cidrs = merge_ranges (sort_ranges cidrs)

-- `partition_point(|&(lo, _)| lo <= addr)`: the length of the front part where the test holds.
-- The library finds it by bisection, since the ranges are sorted.
unfoldable pub partition_point : ℕ → List Range → ℕ
partition_point addr [] = 0
partition_point addr (r ∷ rs) =
    let rest = partition_point addr rs in if leb r.0 addr then suc rest else 0

-- The `match` on the partition point.
unfoldable pub contains_at : List Range → ℕ → ℕ → Bool
contains_at ranges zero addr = false
contains_at ranges (suc i) addr = leb addr (get_or ranges i (0, 0)).1

unfoldable pub contains : List Range → ℕ → Bool
contains ranges addr =
    if is_empty ranges then false else contains_at ranges (partition_point addr ranges) addr

abbrev pub u32_max : ℕ
u32_max = 2 ^ 32 - 1

abbrev pub u128_max : ℕ
u128_max = 2 ^ 128 - 1

-- The shift amounts `32 - prefix` and `128 - prefix` of a build without overflow checks: the
-- subtraction wraps at eight bits, and the shift takes the amount modulo the width. Both matter
-- only for a prefix above the width, which a binary file may hold (see `Cidr`).
abbrev pub shift_by : ℕ → ℕ → ℕ
shift_by width prefix = (256 + width - prefix) % 256 % width

unfoldable pub ipv4_cidr_to_range : Ipv4Addr × ℕ → Range
ipv4_cidr_to_range (base, prefix) =
    let mask = u32_max * 2 ^ shift_by 32 prefix % 2 ^ 32 in
    let lo = bit_and base mask in
    if prefix == 0 then (0, u32_max) else (lo, bit_or lo (u32_max - mask))

unfoldable pub ipv6_cidr_to_range : Ipv6Addr × ℕ → Range
ipv6_cidr_to_range (base, prefix) =
    let mask = u128_max * 2 ^ shift_by 128 prefix % 2 ^ 128 in
    let lo = bit_and base mask in
    if prefix == 0 then (0, u128_max) else (lo, bit_or lo (u128_max - mask))
