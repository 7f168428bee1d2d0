-- ===== src/Ruleset/Matcher/EndToEnd.antt =====
-- `RuleSet::from_text` of src/ruleset/matcher.rs from the text to the answers: the compiler, the
-- file format and the indexes together.
use model_lib.Prelude.{
  ℕ, ◌^◌, ◌<◌, ◌≡◌, sym, ap, ◌∙◌, subst, arith, Bytes, ok, >>=-eq-ok, ok_inj, List, [], ◌∷◌,
  append-nil, any, All,
}
use model_lib.Ruleset.Error.{RuleSetError}
use model_lib.Ruleset.Fst.{FstCrate}
use model_lib.Ruleset.Loader.{from_bytes}
use model_lib.Ruleset.Compiler.{CompiledRuleSet}
use model_lib.Ruleset.Compiler.FromText
use model_lib.Ruleset.Compiler.Bounds.{IsNetwork4, IsNetwork6, IsPorts}
use model_lib.Ruleset.Compiler.Invariant.{IsCompiled, from_text-IsCompiled}
use model_lib.Ruleset.Compiler.Encode.{serialize, all_sections, build_domain_fst, build_suffix_fst}
use model_lib.Ruleset.Codec.Strings.{IsShort}
use model_lib.Ruleset.Codec.Entries.{IsIpv4, IsIpv6, IsPortRange}
use model_lib.Ruleset.Codec.Sections.{IsSmall}
use model_lib.Ruleset.Codec.RoundTrip.{IsWritable, loaded_form, from_bytes-serialize}
use model_lib.Ruleset.Matcher.Text
use model_lib.Ruleset.Matcher.Engine.{RegexCrate, RuleSet, v4, from_loaded, match_ip, match_port}
use model_lib.Ruleset.Matcher.Engine.Answers.{
  in_port_range, in_ipv4_cidr, IsIpv4Cidr, match_port-from_loaded, match_ipv4-from_loaded,
}

All-mono :
    {A : Type 0} (P Q : A → Type 0) (xs : List A) → ((x : A) → P x → Q x) → All P xs → All Q xs
All-mono P Q [] f h = tt
All-mono P Q (x ∷ xs) f h = (f x h.0, All-mono P Q xs f h.1)

-- Every string has less than 256 bytes, and every section fewer than 2 ^ 32.
pub record IsStorable (domain_bytes suffix_bytes : Bytes) (c : CompiledRuleSet) : Type 0 where
  pub keywords : All IsShort c.domain_keywords
  pub regexes : All IsShort c.domain_regexes
  pub small : All IsSmall (all_sections domain_bytes suffix_bytes c)

writable : (db sb : Bytes) (c : CompiledRuleSet) → IsCompiled c → IsStorable db sb c → IsWritable c
writable db sb c i s = record {
  keywords = s.keywords;
  regexes = s.regexes;
  ipv4 = All-mono IsNetwork4 IsIpv4 c.ipv4_cidrs (λ n h. omega (arith, h.addr_lt)) i.ipv4;
  ipv6 = All-mono IsNetwork6 IsIpv6 c.ipv6_cidrs (λ n h. omega (arith, h.addr_lt)) i.ipv6;
  port_ranges =
      All-mono IsPorts IsPortRange c.ports
        (λ r h. (omega (arith, h.ordered, h.end_lt), omega (arith, h.end_lt))) i.ports;
}

module _ (fst : FstCrate) (regex : RegexCrate) (src : Bytes) (c : CompiledRuleSet)
    (domain_bytes suffix_bytes : Bytes) (rs : RuleSet fst regex)
    (compiled : FromText.from_text (regex.regex_ok) src ≡ ok c)
    (domains : build_domain_fst fst (c.domains) ≡ ok domain_bytes)
    (suffixes : build_suffix_fst fst (c.domain_suffixes) ≡ ok suffix_bytes)
    (storable : IsStorable domain_bytes suffix_bytes c)
    (built : Text.from_text fst regex src ≡ ok rs) where
  -- The file in the middle carries what was compiled.
  from_loaded-loaded_form : from_loaded fst regex (loaded_form domain_bytes suffix_bytes c) ≡ ok rs
  unfolding Text.from_text
  from_loaded-loaded_form =
      let (c', hc, b1) = >>=-eq-ok (FromText.from_text (regex.regex_ok) src) _ built in
      let (buf, hb, b2) = >>=-eq-ok (serialize fst c') _ b1 in
      let (l, hl, b3) = >>=-eq-ok (from_bytes buf) _ b2 in
      let written : serialize fst c ≡ ok buf =
        ap (serialize fst) (ok_inj RuleSetError (sym compiled ∙ hc)) ∙ hb in
      let i = from_text-IsCompiled (regex.regex_ok) src compiled in
      let w = writable domain_bytes suffix_bytes c i storable in
      let back =
        from_bytes-serialize fst c domain_bytes suffix_bytes [] w storable.small domains suffixes in
      let read : from_bytes buf ≡ ok (loaded_form domain_bytes suffix_bytes c) =
        subst (λ b. from_bytes b ≡ ok (loaded_form domain_bytes suffix_bytes c)) (append-nil buf)
          (rw written at back) in
      subst (λ x. from_loaded fst regex x ≡ ok rs) (ok_inj RuleSetError (sym hl ∙ read)) b3

  -- A rule set made from a text answers by the lines of the text, as they are compiled: a port is
  -- matched exactly if one of the port ranges holds it, an IPv4 address if it agrees with one of
  -- the IPv4 networks in the first `prefix` bits. The two FSTs can be built, strings have less
  -- than 256 bytes and sections fewer than 2 ^ 32.
  pub from_text-answers :
      (port addr : ℕ)
      → addr < 2 ^ 32
      → (match_port fst regex rs port ≡ any (in_port_range port) (c.ports))
        × (match_ip fst regex rs (v4 addr) ≡ any (in_ipv4_cidr addr) (c.ipv4_cidrs))
  from_text-answers port addr h =
      let i = from_text-IsCompiled (regex.regex_ok) src compiled in
      let w = writable domain_bytes suffix_bytes c i storable in
      (
        match_port-from_loaded fst regex (loaded_form domain_bytes suffix_bytes c) rs
            from_loaded-loaded_form port w.port_ranges,
        match_ipv4-from_loaded fst regex (loaded_form domain_bytes suffix_bytes c) rs
            from_loaded-loaded_form addr
            (All-mono IsNetwork4 IsIpv4Cidr (c.ipv4_cidrs) (λ n k. (k.addr_lt, k.prefix_le)) i.ipv4)
            h,
      )
