-- ===== src/Ruleset/Matcher/Engine/Answers.antt =====
-- What a rule set built by `from_loaded` of src/ruleset/matcher.rs answers for ports and addresses.
use model_lib.Prelude.{
  ok_inj, ℕ, ◌-◌, ◌/◌, ◌%◌, ◌^◌, ◌≤◌, ◌<◌, ◌≡◌, inl, inr, refl, sym, ap, ◌∙◌, arith, Bool, true,
  false, ◌&&◌, ◌||◌, Bool-cases, ok, >>=-eq-ok, List, [], ◌∷◌, map, length, is_empty, any, All,
  any-map, leb, ◌==◌, if◌then◌else◌,
}
use model_lib.Ruleset.Error.{RuleSetError}
use model_lib.Ruleset.Fst.{FstCrate}
use model_lib.Ruleset.Loader.{LoadedRuleSet, Ipv4Addr, Ipv6Addr}
use model_lib.Ruleset.Codec.Entries.{IsPortRange}
use model_lib.Ruleset.Matcher.Engine.{
  RegexCrate, RuleSet, v4, v6, from_loaded, build_domain_matcher, build_regexes, build_port_bitset,
  set_ranges, match_ipv4, match_ipv6, match_ip, match_port, in_bitset, to_ipv4_mapped,
}
use model_lib.Ruleset.Matcher.Ports
use model_lib.Ruleset.Matcher.Ports.{PortBitSet}
use model_lib.Ruleset.Matcher.Ports.Members.{
  contains-set_range, length-set_range, contains-new, length-new,
}
use model_lib.Ruleset.Matcher.Ranges
use model_lib.Ruleset.Matcher.Ranges.{Range, ipv4_cidr_to_range, ipv6_cidr_to_range, build_ranges}
use model_lib.Ruleset.Matcher.Ranges.Build.{inside, IsRange}
use model_lib.Ruleset.Matcher.Ranges.Search.{contains-build_ranges}
use model_lib.Ruleset.Matcher.Ranges.Cidr.{
  inside-ipv4_cidr_to_range, ipv4_cidr_to_range-IsRange, inside-ipv6_cidr_to_range,
  ipv6_cidr_to_range-IsRange,
}

-- The port lies in the range, both ends included.
abbrev pub in_port_range : ℕ → ℕ × ℕ → Bool
in_port_range port r = leb r.0 port && leb port r.1

-- The address and the network agree in the first `prefix` bits.
abbrev pub in_ipv4_cidr : ℕ → Ipv4Addr × ℕ → Bool
in_ipv4_cidr addr c = addr / 2 ^ (32 - c.1) == c.0 / 2 ^ (32 - c.1)

abbrev pub in_ipv6_cidr : ℕ → Ipv6Addr × ℕ → Bool
in_ipv6_cidr addr c = addr / 2 ^ (128 - c.1) == c.0 / 2 ^ (128 - c.1)

abbrev pub IsIpv4Cidr : Ipv4Addr × ℕ → Type 0
IsIpv4Cidr c = (c.0 < 2 ^ 32) × (c.1 ≤ 32)

abbrev pub IsIpv6Cidr : Ipv6Addr × ℕ → Type 0
IsIpv6Cidr c = (c.0 < 2 ^ 128) × (c.1 ≤ 128)

contains-set_ranges :
    (ports : List (ℕ × ℕ)) (words : PortBitSet) (port : ℕ)
    → All IsPortRange ports
    → length words ≡ 1024
    → Ports.contains (set_ranges ports words) port
      ≡ (any (in_port_range port) ports || Ports.contains words port)
unfolding set_ranges
contains-set_ranges [] words port h size = refl
contains-set_ranges ((start, end) ∷ ports) words port h size =
    contains-set_ranges ports (Ports.set_range start end words) port h.1
      (length-set_range start end words ∙ size)
    ∙ rw (contains-set_range start end port words size (omega arith)) (ground arith)

any-map-eq {ℓ} :
    {A : Type ℓ} (P : A → Type 0) (f g : A → Bool) (xs : List A)
    → ((x : A) → P x → f x ≡ g x)
    → All P xs
    → any f xs ≡ any g xs
any-map-eq P f g [] h k = refl
any-map-eq P f g (x ∷ xs) h k = rw (h x k.0, any-map-eq P f g xs h k.1)

All-map {ℓ κ} :
    {A : Type ℓ} {B : Type κ} (P : A → Type 0) (Q : B → Type 0) (f : A → B) (xs : List A)
    → ((x : A) → P x → Q (f x))
    → All P xs
    → All Q (map f xs)
All-map P Q f [] h k = tt
All-map P Q f (x ∷ xs) h k = (h x k.0, All-map P Q f xs h k.1)

contains-ipv4 :
    (cidrs : List (Ipv4Addr × ℕ)) (addr : ℕ)
    → All IsIpv4Cidr cidrs
    → addr < 2 ^ 32
    → Ranges.contains (build_ranges (map ipv4_cidr_to_range cidrs)) addr
      ≡ any (in_ipv4_cidr addr) cidrs
contains-ipv4 cidrs addr h ha =
    contains-build_ranges addr (map ipv4_cidr_to_range cidrs) (
      All-map IsIpv4Cidr IsRange ipv4_cidr_to_range cidrs
        (λ c k. ipv4_cidr_to_range-IsRange c.0 c.1 k.0 k.1) h)
    ∙ any-map (inside addr) ipv4_cidr_to_range cidrs
    ∙ any-map-eq IsIpv4Cidr (λ c. inside addr (ipv4_cidr_to_range c)) (in_ipv4_cidr addr) cidrs
        (λ c k. inside-ipv4_cidr_to_range c.0 c.1 addr k.0 k.1 ha) h

contains-ipv6 :
    (cidrs : List (Ipv6Addr × ℕ)) (addr : ℕ)
    → All IsIpv6Cidr cidrs
    → addr < 2 ^ 128
    → Ranges.contains (build_ranges (map ipv6_cidr_to_range cidrs)) addr
      ≡ any (in_ipv6_cidr addr) cidrs
contains-ipv6 cidrs addr h ha =
    contains-build_ranges addr (map ipv6_cidr_to_range cidrs) (
      All-map IsIpv6Cidr IsRange ipv6_cidr_to_range cidrs
        (λ c k. ipv6_cidr_to_range-IsRange c.0 c.1 k.0 k.1) h)
    ∙ any-map (inside addr) ipv6_cidr_to_range cidrs
    ∙ any-map-eq IsIpv6Cidr (λ c. inside addr (ipv6_cidr_to_range c)) (in_ipv6_cidr addr) cidrs
        (λ c k. inside-ipv6_cidr_to_range c.0 c.1 addr k.0 k.1 ha) h

-- The guard on an empty index changes nothing.
empty_guard :
    (ranges : List Range) (addr : ℕ)
    → (if is_empty ranges then false else Ranges.contains ranges addr) ≡ Ranges.contains ranges addr
empty_guard [] addr = unfold Ranges.contains in refl
empty_guard (r ∷ rs) addr = refl

if_or : {a b c d : Bool} → a ≡ b → c ≡ d → (if a then true else c) ≡ (b || d)
if_or h k = rw (h, k) (ground arith)

module _ (fst : FstCrate) (regex : RegexCrate) where
  -- The parts of a rule set that `from_loaded` has built.
  pub record IsBuilt (loaded : LoadedRuleSet) (rs : RuleSet fst regex) : Type 0 where
    pub domains : build_domain_matcher fst regex loaded ≡ ok (rs.domain_matcher)
    pub keywords : rs.keywords ≡ loaded.domain_keywords
    pub regexes : build_regexes fst regex loaded.domain_regexes ≡ ok (rs.regexes)
    pub ipv4 : rs.ipv4_ranges ≡ build_ranges (map ipv4_cidr_to_range loaded.ipv4_cidrs)
    pub ipv6 : rs.ipv6_ranges ≡ build_ranges (map ipv6_cidr_to_range loaded.ipv6_cidrs)
    pub ports : rs.port_bitset ≡ build_port_bitset fst regex loaded.ports

  pub from_loaded-IsBuilt :
      (loaded : LoadedRuleSet) (rs : RuleSet fst regex)
      → from_loaded fst regex loaded ≡ ok rs
      → IsBuilt loaded rs
  unfolding from_loaded
  from_loaded-IsBuilt loaded rs e =
      let (m, hm, e1) = >>=-eq-ok (build_domain_matcher fst regex loaded) _ e in
      let (r, hr, e2) = >>=-eq-ok (build_regexes fst regex loaded.domain_regexes) _ e1 in
      let same = ok_inj RuleSetError e2 in
      record {
        domains = hm ∙ ap (λ x. ok (x.domain_matcher)) same;
        keywords = ap (λ x. x.keywords) (sym same);
        regexes = hr ∙ ap (λ x. ok (x.regexes)) same;
        ipv4 = ap (λ x. x.ipv4_ranges) (sym same);
        ipv6 = ap (λ x. x.ipv6_ranges) (sym same);
        ports = ap (λ x. x.port_bitset) (sym same);
      }

  in_bitset-build :
      (ports : List (ℕ × ℕ)) (port : ℕ)
      → All IsPortRange ports
      → in_bitset fst regex (build_port_bitset fst regex ports) port
        ≡ any (in_port_range port) ports
  unfolding build_port_bitset
  in_bitset-build [] port h = refl
  in_bitset-build (p ∷ ports) port h =
      contains-set_ranges (p ∷ ports) Ports.new port h length-new
      ∙ rw (contains-new port) (ground arith)

  module _ (loaded : LoadedRuleSet) (rs : RuleSet fst regex)
      (built : from_loaded fst regex loaded ≡ ok rs) where
    -- If `from_loaded` builds a rule set, it matches a port exactly if one of the loaded ranges of
    -- 16-bit ports holds it.
    pub match_port-from_loaded :
        (port : ℕ)
        → All IsPortRange loaded.ports
        → match_port fst regex rs port ≡ any (in_port_range port) loaded.ports
    unfolding match_port
    match_port-from_loaded port h =
        let b = from_loaded-IsBuilt loaded rs built in
        rw b.ports (in_bitset-build loaded.ports port h)

    -- If `from_loaded` builds a rule set, it matches an IPv4 address exactly if the address agrees
    -- with the network of one of the loaded CIDRs in the first `prefix` bits. Addresses have 32
    -- bits, and no prefix is above 32.
    pub match_ipv4-from_loaded :
        (addr : ℕ)
        → All IsIpv4Cidr loaded.ipv4_cidrs
        → addr < 2 ^ 32
        → match_ip fst regex rs (v4 addr) ≡ any (in_ipv4_cidr addr) loaded.ipv4_cidrs
    unfolding match_ip match_ipv4
    match_ipv4-from_loaded addr h ha =
        let b = from_loaded-IsBuilt loaded rs built in
        empty_guard rs.ipv4_ranges addr ∙ rw b.ipv4 (contains-ipv4 loaded.ipv4_cidrs addr h ha)

    -- If `from_loaded` builds a rule set, it matches an IPv6 address exactly if the address agrees
    -- with one of the loaded IPv6 CIDRs, or if it maps an IPv4 address that agrees with one of the
    -- loaded IPv4 CIDRs. Addresses have their width, and no prefix is above it.
    pub match_ipv6-from_loaded :
        (addr : ℕ)
        → All IsIpv4Cidr loaded.ipv4_cidrs
        → All IsIpv6Cidr loaded.ipv6_cidrs
        → addr < 2 ^ 128
        → match_ip fst regex rs (v6 addr) ≡ (
            (addr / 2 ^ 32 == 0xffff) && any (in_ipv4_cidr (addr % 2 ^ 32)) loaded.ipv4_cidrs
            || any (in_ipv6_cidr addr) loaded.ipv6_cidrs)
    unfolding match_ip match_ipv6 to_ipv4_mapped
    match_ipv6-from_loaded addr h4 h6 ha =
        let b = from_loaded-IsBuilt loaded rs built in
        let native : (if is_empty rs.ipv6_ranges
              then false
              else Ranges.contains rs.ipv6_ranges addr)
            ≡ any (in_ipv6_cidr addr) loaded.ipv6_cidrs =
          empty_guard rs.ipv6_ranges addr
          ∙ rw b.ipv6 (contains-ipv6 loaded.ipv6_cidrs addr h6 ha) in
        let mapped = match_ipv4-from_loaded (addr % 2 ^ 32) h4 (omega arith) in
        elim (Bool-cases (addr / 2 ^ 32 == 0xffff)) [
          | inl is_mapped ↦ rw is_mapped (if_or (unfold match_ip in mapped) native)
          | inr is_native ↦ rw is_native native
        ]
