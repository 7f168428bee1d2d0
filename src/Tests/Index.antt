-- ===== src/Tests/Index.antt =====
-- The indexes of a rule set at concrete inputs.
use model_lib.Prelude.{
  bytes_eq, some, ◌/◌, ◌%◌, ◌^◌, ◌≡◌, refl, arith, Bytes, ◌&&◌, ◌||◌, none, ok, List, [], ◌∷◌, map,
  any, All, leb, ◌==◌,
}
use model_lib.Ruleset.Loader.{LoadedRuleSet, default}
use model_lib.Ruleset.Trie
use model_lib.Ruleset.Trie.{matches}
use model_lib.Ruleset.Keys.{rlabels}
use model_lib.Ruleset.Trie.Paths.{rule_path}
use model_lib.Ruleset.Trie.Cover.{matches-of_rules, of_rules, is_front}
use model_lib.Ruleset.Matcher.Domains.{legacy}
use model_lib.Ruleset.Matcher.Ports
use model_lib.Ruleset.Matcher.Ports.Members.{contains-set_range, length-new}
use model_lib.Ruleset.Matcher.Ranges
use model_lib.Ruleset.Matcher.Ranges.{
  Range, build_ranges, ipv4_cidr_to_range, ipv6_cidr_to_range, sort_ranges, insert_range,
  merge_ranges, merge_from,
}
use model_lib.Ruleset.Matcher.Ranges.Build.{inside, IsRange}
use model_lib.Ruleset.Matcher.Ranges.Search.{contains-build_ranges}
use model_lib.Ruleset.Matcher.Engine.{
  RuleSet, from_loaded, v4, v6, match_ip, match_port, build_domain_matcher, build_regexes,
  build_port_bitset, insert_domains, insert_suffixes,
}
use model_lib.Ruleset.Matcher.Engine.Answers.{
  in_port_range, in_ipv4_cidr, in_ipv6_cidr, match_port-from_loaded, match_ipv4-from_loaded,
  match_ipv6-from_loaded,
}
use model_lib.Ruleset.Keys.Injective.{bytes_eq-domain_to_fst_key}
use model_lib.Ruleset.Keys.{domain_to_fst_key}
use model_lib.Ruleset.Compiler.Encode.{
  build_fst, build_domain_fst, sort_keys, insert_key, dedup, dedup_after,
}
use model_lib.Ruleset.Matcher.Domains.{matches_exact, sets}
use model_lib.Ruleset.Matcher.Domains.Exact.{matches_exact-build_domain_fst}
use model_lib.Tests.Toys.{fst_crate-IsLawful, fst_crate, regex_crate}

-- 10.0.0.0/8, and the ports from 80 to 443.
abbrev loaded : LoadedRuleSet
loaded = record default { ipv4_cidrs = (0x0a000000, 8) ∷ []; ports = (80, 443) ∷ [] }

abbrev pub loaded_rules : RuleSet fst_crate regex_crate
loaded_rules = record {
  domain_matcher = legacy [] (Trie.new);
  keywords = [];
  regexes = none;
  ipv4_ranges = build_ranges (map ipv4_cidr_to_range (loaded.ipv4_cidrs));
  ipv6_ranges = build_ranges [];
  port_bitset = build_port_bitset fst_crate regex_crate (loaded.ports);
}

loaded-built : from_loaded fst_crate regex_crate loaded ≡ ok loaded_rules
unfolding from_loaded build_domain_matcher build_regexes insert_domains insert_suffixes
loaded-built = refl

match_port-from_loaded_example :
    match_port fst_crate regex_crate loaded_rules 443 ≡ any (in_port_range 443) (loaded.ports)
match_port-from_loaded_example =
    match_port-from_loaded fst_crate regex_crate loaded loaded_rules loaded-built 443
      ((omega arith, omega arith), tt)

match_ipv4-from_loaded_example :
    match_ip fst_crate regex_crate loaded_rules (v4 0x0a010203)
    ≡ any (in_ipv4_cidr 0x0a010203) (loaded.ipv4_cidrs)
match_ipv4-from_loaded_example =
    match_ipv4-from_loaded fst_crate regex_crate loaded loaded_rules loaded-built 0x0a010203
      ((omega arith, omega arith), tt) (omega arith)

-- ::ffff:10.1.2.3
match_ipv6-from_loaded_example : match_ip fst_crate regex_crate loaded_rules (v6 0xffff0a010203) ≡ (
    (0xffff0a010203 / 2 ^ 32 == 0xffff)
      && any (in_ipv4_cidr (0xffff0a010203 % 2 ^ 32)) (loaded.ipv4_cidrs)
    || any (in_ipv6_cidr 0xffff0a010203) (loaded.ipv6_cidrs))
match_ipv6-from_loaded_example =
    match_ipv6-from_loaded fst_crate regex_crate loaded loaded_rules loaded-built 0xffff0a010203
      ((omega arith, omega arith), tt) tt (omega arith)

abbrev ranges : List Range
ranges = (8, 12) ∷ (1, 5) ∷ (4, 9) ∷ (20, 20) ∷ []

ranges-IsRange : All IsRange ranges
ranges-IsRange = (omega arith, (omega arith, (omega arith, (omega arith, tt))))

ranges_merged : build_ranges ranges ≡ (1, 12) ∷ (20, 20) ∷ []
unfolding build_ranges sort_ranges insert_range merge_ranges merge_from
ranges_merged = refl

contains-build_ranges_example : Ranges.contains (build_ranges ranges) 10 ≡ any (inside 10) ranges
contains-build_ranges_example = contains-build_ranges 10 ranges ranges-IsRange

contains-set_range_example :
    Ports.contains (Ports.set_range 80 443 Ports.new) 100
    ≡ ((leb 80 100 && leb 100 443) || Ports.contains Ports.new 100)
contains-set_range_example = contains-set_range 80 443 100 Ports.new length-new (omega arith)

-- ".a.b" and "c"
abbrev domain_rules : List Bytes
domain_rules = (b'.' ∷ b'a' ∷ b'.' ∷ b'b' ∷ []) ∷ (b'c' ∷ []) ∷ []

matches-of_rules_example :
    matches (of_rules domain_rules) (b'b' ∷ b'.' ∷ b'a' ∷ b'.' ∷ b'b' ∷ [])
    ≡ any
        (λ r.
          is_front
            (rule_path r)
            (rlabels (Trie.trim_end_dots (b'b' ∷ b'.' ∷ b'a' ∷ b'.' ∷ b'b' ∷ []))))
        domain_rules
unfolding Trie.trim_start_dots
matches-of_rules_example =
    matches-of_rules domain_rules (b'b' ∷ b'.' ∷ b'a' ∷ b'.' ∷ b'b' ∷ []) (omega arith)

-- "a.b" is in the exact FST that is built from "a.b" and "c".
abbrev names : List Bytes
names = (b'a' ∷ b'.' ∷ b'b' ∷ []) ∷ (b'c' ∷ []) ∷ []

abbrev name_keys : List Bytes
name_keys = (b'b' ∷ b'.' ∷ b'a' ∷ []) ∷ (b'c' ∷ []) ∷ []

abbrev name_bytes : Bytes
name_bytes = 9 ∷ 1 ∷ b'b' ∷ 1 ∷ b'.' ∷ 1 ∷ b'a' ∷ 0 ∷ 1 ∷ b'c' ∷ 0 ∷ []

names-built : build_domain_fst fst_crate names ≡ ok name_bytes
unfolding build_domain_fst build_fst domain_to_fst_key sort_keys insert_key dedup dedup_after
    bytes_eq
names-built = refl

matches_exact-build_domain_fst_example :
    matches_exact fst_crate
      (sets (some name_keys) none)
      (domain_to_fst_key (b'a' ∷ b'.' ∷ b'b' ∷ []))
      (b'a' ∷ b'.' ∷ b'b' ∷ [])
    ≡ matches_exact fst_crate
        (legacy names Trie.new)
        (domain_to_fst_key (b'a' ∷ b'.' ∷ b'b' ∷ []))
        (b'a' ∷ b'.' ∷ b'b' ∷ [])
matches_exact-build_domain_fst_example =
    matches_exact-build_domain_fst fst_crate fst_crate-IsLawful (b'a' ∷ b'.' ∷ b'b' ∷ [])
      ((b'c' ∷ []) ∷ []) name_bytes name_keys none (Trie.new) (b'a' ∷ b'.' ∷ b'b' ∷ []) names-built
      refl

bytes_eq-domain_to_fst_key_example :
    bytes_eq (domain_to_fst_key (b'a' ∷ b'.' ∷ [])) (domain_to_fst_key (b'.' ∷ b'a' ∷ []))
    ≡ bytes_eq (b'a' ∷ b'.' ∷ []) (b'.' ∷ b'a' ∷ [])
bytes_eq-domain_to_fst_key_example =
    bytes_eq-domain_to_fst_key (b'a' ∷ b'.' ∷ []) (b'.' ∷ b'a' ∷ [])
