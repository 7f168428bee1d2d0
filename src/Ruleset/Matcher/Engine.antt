-- ===== src/Ruleset/Matcher/Engine.antt =====
-- `RuleSet` of src/ruleset/matcher.rs: the index built from a loaded rule set, and its queries.
pub mod Answers
use model_lib.Prelude.{
  bytes_eq, ℕ, ◌+◌, ◌/◌, ◌%◌, ◌^◌, Bytes, Bool, true, false, not, ◌&&◌, ◌||◌, Option, none, some,
  Result, ok, ◌>>=◌, ok_or, List, [], ◌∷◌, map, length, is_empty, set, any, leb, ◌==◌,
  if◌then◌else◌,
}
use model_lib.Std.Text.{is_ascii_uppercase, to_ascii_lowercase}
use model_lib.Ruleset.Error.{RuleSetError, loaded_invalid_regex}
use model_lib.Ruleset.Fst.{FstCrate}
use model_lib.Ruleset.Keys.{domain_to_fst_key}
use model_lib.Ruleset.Loader.{LoadedRuleSet, Ipv4Addr, Ipv6Addr}
use model_lib.Ruleset.Trie
use model_lib.Ruleset.Matcher.Domains.{DomainMatcher, sets, legacy, matches_exact, matches_suffix}
use model_lib.Ruleset.Matcher.Ports
use model_lib.Ruleset.Matcher.Ports.{PortBitSet}
use model_lib.Ruleset.Matcher.Ranges
use model_lib.Ruleset.Matcher.Ranges.{Range, ipv4_cidr_to_range, ipv6_cidr_to_range, build_ranges}

-- The `regex` crate, of which src/ruleset/ calls `Regex::new` and `RegexSet`: a parameter.
pub record RegexCrate : Type 1 where
  pub RegexSet : Type 0
  pub regex_ok : Bytes → Bool
  pub set_new : List Bytes → Option RegexSet
  pub set_len : RegexSet → ℕ
  pub is_match : RegexSet → Bytes → Bool

pub data IpAddr : Type 0 where
  v4 : Ipv4Addr → IpAddr
  v6 : Ipv6Addr → IpAddr

pub data MatchTarget : Type 0 where
  target_domain : Bytes → MatchTarget
  target_ip : IpAddr → MatchTarget
  target_port : ℕ → MatchTarget

-- `str::contains` with a string
unfoldable pub starts_with : Bytes → Bytes → Bool
starts_with s [] = true
starts_with [] (p ∷ ps) = false
starts_with (b ∷ s) (p ∷ ps) = b == p && starts_with s ps

unfoldable pub contains : Bytes → Bytes → Bool
contains [] pattern = is_empty pattern
contains (b ∷ s) pattern = starts_with (b ∷ s) pattern || contains s pattern

-- `Ipv6Addr::to_ipv4_mapped`: ten zero bytes, two bytes 0xff, and the IPv4 address
unfoldable pub to_ipv4_mapped : Ipv6Addr → Option Ipv4Addr
to_ipv4_mapped a = if a / 2 ^ 32 == 0xffff then some (a % 2 ^ 32) else none

-- `for (start, end) in loaded.ports { bs.set_range(start, end) }`
unfoldable pub set_ranges : List (ℕ × ℕ) → PortBitSet → PortBitSet
set_ranges [] words = words
set_ranges ((start, end) ∷ ports) words = set_ranges ports (Ports.set_range start end words)

-- `AHashSet::insert` for each domain in turn: a set as a list without repetitions
unfoldable pub insert_domains : List Bytes → List Bytes → List Bytes
insert_domains [] seen = seen
insert_domains (s ∷ domains) seen =
    insert_domains domains (if any (bytes_eq s) seen then seen else s ∷ seen)

-- `insert` for each suffix in turn
unfoldable pub insert_suffixes : List Bytes → Trie.SuffixTrie → Trie.SuffixTrie
insert_suffixes [] trie = trie
insert_suffixes (s ∷ suffixes) trie = insert_suffixes suffixes (Trie.insert s trie)

module _ (fst : FstCrate) (regex : RegexCrate) where
  pub record RuleSet : Type 0 where
    pub domain_matcher : DomainMatcher fst
    pub keywords : List Bytes
    pub regexes : Option (regex.RegexSet)
    pub ipv4_ranges : List Range
    pub ipv6_ranges : List Range
    pub port_bitset : Option PortBitSet

  -- No set for no bytes; an error of the crate is reported as an invalid regex.
  unfoldable pub open_fst : Bytes → Result RuleSetError (Option fst.Set)
  open_fst [] = ok none
  open_fst (b ∷ bs) = do set ← ok_or (fst.open_set (b ∷ bs)) loaded_invalid_regex; ok (some set)

  unfoldable pub build_domain_matcher : LoadedRuleSet → Result RuleSetError (DomainMatcher fst)
  build_domain_matcher loaded =
      let fst_sets = open_fst loaded.domain_fst >>= λ exact.
      open_fst loaded.domain_suffix_fst >>= λ suffix. ok (sets exact suffix) in
      let old_sets = ok (
        legacy (insert_domains loaded.domains [])
          (insert_suffixes loaded.domain_suffixes Trie.new)) in
      if not (is_empty loaded.domain_fst) || not (is_empty loaded.domain_suffix_fst)
      then fst_sets
      else old_sets

  unfoldable pub build_regexes : List Bytes → Result RuleSetError (Option (regex.RegexSet))
  build_regexes [] = ok none
  build_regexes (r ∷ rs) = do
    set ← ok_or (regex.set_new (r ∷ rs)) loaded_invalid_regex
    ok (some set)

  unfoldable pub build_port_bitset : List (ℕ × ℕ) → Option PortBitSet
  build_port_bitset [] = none
  build_port_bitset (p ∷ ports) = some (set_ranges (p ∷ ports) Ports.new)

  unfoldable pub from_loaded : LoadedRuleSet → Result RuleSetError RuleSet
  from_loaded loaded = do
    domain_matcher ← build_domain_matcher loaded
    regexes ← build_regexes loaded.domain_regexes
    ok (record {
      domain_matcher = domain_matcher;
      keywords = loaded.domain_keywords;
      regexes = regexes;
      ipv4_ranges = build_ranges (map ipv4_cidr_to_range loaded.ipv4_cidrs);
      ipv6_ranges = build_ranges (map ipv6_cidr_to_range loaded.ipv6_cidrs);
      port_bitset = build_port_bitset loaded.ports;
    })

  abbrev set_len? : Option fst.Set → ℕ
  set_len? none = 0
  set_len? (some s) = fst.len s

  abbrev domain_count : DomainMatcher fst → ℕ
  domain_count (sets exact suffix) = set_len? exact + set_len? suffix
  domain_count (legacy domains trie) = length domains + Trie.len trie

  abbrev regex_count : Option (regex.RegexSet) → ℕ
  regex_count none = 0
  regex_count (some r) = regex.set_len r

  abbrev port_count : Option PortBitSet → ℕ
  port_count none = 0
  port_count (some bs) = 1

  unfoldable pub rule_count : RuleSet → ℕ
  rule_count rs =
      domain_count rs.domain_matcher
      + length rs.keywords
      + regex_count rs.regexes
      + length rs.ipv4_ranges
      + length rs.ipv6_ranges
      + port_count rs.port_bitset

  abbrev regex_matches : Option (regex.RegexSet) → Bytes → Bool
  regex_matches none d = false
  regex_matches (some r) d = regex.is_match r d

  -- The domain as it is looked up: without trailing dots, in lower case.
  unfoldable pub normalize : Bytes → Bytes
  normalize domain =
      let trimmed = Trie.trim_end_dots domain in
      if any is_ascii_uppercase trimmed then to_ascii_lowercase trimmed else trimmed

  unfoldable pub match_domain : RuleSet → Bytes → Bool
  match_domain rs domain =
      let d = normalize domain in
      if matches_exact fst rs.domain_matcher (domain_to_fst_key d) d
      then true
      else if matches_suffix fst rs.domain_matcher d
      then true
      else if any (contains d) rs.keywords
      then true
      else regex_matches rs.regexes d

  unfoldable pub match_ipv4 : RuleSet → Ipv4Addr → Bool
  match_ipv4 rs addr =
      if is_empty rs.ipv4_ranges then false else Ranges.contains rs.ipv4_ranges addr

  unfoldable pub match_ipv6 : RuleSet → Ipv6Addr → Bool
  match_ipv6 rs addr =
      if is_empty rs.ipv6_ranges then false else Ranges.contains rs.ipv6_ranges addr

  abbrev match_mapped : RuleSet → Option Ipv4Addr → Bool
  match_mapped rs none = false
  match_mapped rs (some a) = match_ipv4 rs a

  unfoldable pub match_ip : RuleSet → IpAddr → Bool
  match_ip rs (v4 a) = match_ipv4 rs a
  match_ip rs (v6 a) = if match_mapped rs (to_ipv4_mapped a) then true else match_ipv6 rs a

  abbrev in_bitset : Option PortBitSet → ℕ → Bool
  in_bitset none port = false
  in_bitset (some bs) port = Ports.contains bs port

  unfoldable pub match_port : RuleSet → ℕ → Bool
  match_port rs port = in_bitset rs.port_bitset port

  unfoldable pub matches : RuleSet → MatchTarget → Bool
  matches rs (target_domain d) = match_domain rs d
  matches rs (target_ip ip) = match_ip rs ip
  matches rs (target_port p) = match_port rs p
