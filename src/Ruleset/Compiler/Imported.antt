-- ===== src/Ruleset/Compiler/Imported.antt =====
-- What every rule set that src/ruleset/compiler.rs imports from sing-box satisfies.
use model_lib.Prelude.{
  ℕ, ◌^◌, ◌<◌, ◌≡◌, inl, inr, subst, arith, Bytes, Bool, not, Bool-cases, some, Result, ok,
  >>=-eq-ok, refuse_if-eq-ok, ok_inj, List, [], ◌∷◌, All,
}
use model_lib.Std.Text.{trim, to_ascii_lowercase, has_byte}
use model_lib.Ruleset.Error.{RuleSetError, invalid_regex}
use model_lib.Ruleset.Trie.{trim_start_dots}
use model_lib.Ruleset.Compiler.{CompiledRuleSet}
use model_lib.Ruleset.Compiler.Parse.{
  validate_domain_len, parse_ipv4_cidr, parse_ipv6_cidr, parse_singbox_port_range,
}
use model_lib.Ruleset.Compiler.Bounds.{
  parse_ipv4_cidr-network, parse_ipv6_cidr-network, parse_singbox_port_range-IsPorts,
}
use model_lib.Ruleset.Compiler.FromText.{empty}
use model_lib.Ruleset.Compiler.Invariant.{
  IsCompiled, empty-IsCompiled, add_domain-IsCompiled, add_suffix-IsCompiled, add_ipv4-IsCompiled,
  add_ipv6-IsCompiled, add_ports-IsCompiled, validated,
}
use model_lib.Ruleset.Compiler.SingBox.{
  SingBoxFields, RawRule, RawRules, malformed, rule, no_rules, more_rules, each, add_domain,
  add_suffix, add_keyword, add_cidr, add_port, add_port_range, add_regex, add_fields,
  ingest_singbox_rule, ingest_singbox_rules, from_singbox_json,
}

-- The port lists hold 16-bit numbers.
abbrev IsU16 : ℕ → Type 0
IsU16 p = p < 2 ^ 16

abbrev mutual
  pub HasPorts : RawRule → Type 0
  HasPorts malformed = Unit
  HasPorts (rule f subs) = All IsU16 f.port × HavePorts subs

  pub HavePorts : RawRules → Type 0
  HavePorts no_rules = Unit
  HavePorts (more_rules r rs) = HasPorts r × HavePorts rs

-- A step that keeps the invariant.
abbrev Keeps : (CompiledRuleSet → Result RuleSetError CompiledRuleSet) → Type 0
Keeps step = (out out' : CompiledRuleSet) → IsCompiled out → step out ≡ ok out' → IsCompiled out'

each-Keeps :
    {A : Type 0} (P : A → Type 0) (add : A → CompiledRuleSet → Result RuleSetError CompiledRuleSet)
    (xs : List A)
    → ((x : A) → P x → Keeps (add x))
    → All P xs
    → Keeps (each add xs)
each-Keeps P add [] k h out out' i e = subst IsCompiled (ok_inj RuleSetError e) i
each-Keeps P add (x ∷ xs) k h out out' i e =
    let (o, ho, e1) = >>=-eq-ok (add x out) _ e in
    each-Keeps P add xs k h.1 o _ (k x h.0 out o i ho) e1

abbrev Always {ℓ} : {A : Type ℓ} → A → Type 0
Always x = Unit

All-Always : {A : Type 0} (xs : List A) → All Always xs
All-Always [] = tt
All-Always (x ∷ xs) = (tt, All-Always xs)

add_domain-Keeps : (d : Bytes) → Keeps (add_domain d)
unfolding add_domain
add_domain-Keeps d out out' i e =
    let v = to_ascii_lowercase (trim d) in
    let (u, hv, e1) = >>=-eq-ok (validate_domain_len v 0) _ e in
    subst IsCompiled (ok_inj RuleSetError e1) (add_domain-IsCompiled out i v (validated v 0 hv))

add_suffix-Keeps : (d : Bytes) → Keeps (add_suffix d)
unfolding add_suffix
add_suffix-Keeps d out out' i e =
    let v = to_ascii_lowercase (trim_start_dots (trim d)) in
    let (u, hv, e1) = >>=-eq-ok (validate_domain_len v 0) _ e in
    subst IsCompiled (ok_inj RuleSetError e1) (add_suffix-IsCompiled out i v (validated v 0 hv))

add_keyword-Keeps : (k : Bytes) → Keeps (add_keyword k)
unfolding add_keyword
add_keyword-Keeps k out out' i e = subst IsCompiled (ok_inj RuleSetError e) (record {
  domains = i.domains;
  suffixes = i.suffixes;
  ipv4 = i.ipv4;
  ipv6 = i.ipv6;
  ports = i.ports;
})

add_cidr-Keeps : (c : Bytes) → Keeps (add_cidr c)
unfolding add_cidr
add_cidr-Keeps c out out' i e = elim (Bool-cases (has_byte b':' (trim c))) [
  | inl six ↦
      let (n, hn, e1) = >>=-eq-ok (parse_ipv6_cidr (trim c)) _ (rw (six, add_cidr) at e) in
      subst IsCompiled (ok_inj RuleSetError e1)
        (add_ipv6-IsCompiled out i n (parse_ipv6_cidr-network (trim c) hn))
  | inr four ↦
      let (n, hn, e1) = >>=-eq-ok (parse_ipv4_cidr (trim c)) _ (rw (four, add_cidr) at e) in
      subst IsCompiled (ok_inj RuleSetError e1)
        (add_ipv4-IsCompiled out i n (parse_ipv4_cidr-network (trim c) hn))
]

add_port-Keeps : (p : ℕ) → IsU16 p → Keeps (add_port p)
unfolding add_port
add_port-Keeps p h out out' i e =
    subst IsCompiled (ok_inj RuleSetError e)
      (add_ports-IsCompiled out i (p, p) (record { ordered = omega arith; end_lt = h }))

add_port_range-Keeps : (s : Bytes) → Keeps (add_port_range s)
unfolding add_port_range
add_port_range-Keeps s out out' i e =
    let (r, hr, e1) = >>=-eq-ok (parse_singbox_port_range s) _ e in
    subst IsCompiled (ok_inj RuleSetError e1)
      (add_ports-IsCompiled out i r (parse_singbox_port_range-IsPorts s hr))

module _ (regex_ok : Bytes → Bool) where
  add_regex-Keeps : (r : Bytes) → Keeps (add_regex regex_ok r)
  unfolding add_regex
  add_regex-Keeps r out out' i e =
      let (good, e1) = refuse_if-eq-ok (not (regex_ok r)) (invalid_regex r) _ e in
      subst IsCompiled (ok_inj RuleSetError e1) (record {
        domains = i.domains;
        suffixes = i.suffixes;
        ipv4 = i.ipv4;
        ipv6 = i.ipv6;
        ports = i.ports;
      })

  add_fields-Keeps : (f : SingBoxFields) → All IsU16 f.port → Keeps (add_fields regex_ok f)
  unfolding add_fields
  add_fields-Keeps f h out out' i e =
      let (o1, h1, e1) = >>=-eq-ok (each add_domain f.domain out) _ e in
      let i1 =
        each-Keeps Always add_domain f.domain (λ x _. add_domain-Keeps x) (All-Always _) out _ i
          h1 in
      let (o2, h2, e2) = >>=-eq-ok (each add_suffix f.domain_suffix o1) _ e1 in
      let i2 =
        each-Keeps Always add_suffix f.domain_suffix (λ x _. add_suffix-Keeps x) (All-Always _) o1 _
          i1 h2 in
      let (o3, h3, e3) = >>=-eq-ok (each add_keyword f.domain_keyword o2) _ e2 in
      let i3 =
        each-Keeps Always add_keyword f.domain_keyword (λ x _. add_keyword-Keeps x) (All-Always _)
          o2 _ i2 h3 in
      let (o4, h4, e4) = >>=-eq-ok (each (add_regex regex_ok) f.domain_regex o3) _ e3 in
      let i4 =
        each-Keeps Always (add_regex regex_ok) f.domain_regex (λ x _. add_regex-Keeps x)
          (All-Always _) o3 _ i3 h4 in
      let (o5, h5, e5) = >>=-eq-ok (each add_cidr f.ip_cidr o4) _ e4 in
      let i5 =
        each-Keeps Always add_cidr f.ip_cidr (λ x _. add_cidr-Keeps x) (All-Always _) o4 _ i4 h5 in
      let (o6, h6, e6) = >>=-eq-ok (each add_port f.port o5) _ e5 in
      let i6 = each-Keeps IsU16 add_port f.port add_port-Keeps h o5 _ i5 h6 in
      each-Keeps Always add_port_range f.port_range (λ x _. add_port_range-Keeps x) (All-Always _)
        o6 _ i6 e6

  mutual
    unfolding ingest_singbox_rule ingest_singbox_rules

    ingest_singbox_rule-Keeps : (r : RawRule) → HasPorts r → Keeps (ingest_singbox_rule regex_ok r)
    ingest_singbox_rule-Keeps malformed h out out' i e = cc
    ingest_singbox_rule-Keeps (rule f subs) h out out' i e =
        let (o, ho, e1) = >>=-eq-ok (ingest_singbox_rules regex_ok subs out) _ e in
        add_fields-Keeps f h.0 o _ (ingest_singbox_rules-Keeps subs h.1 out _ i ho) e1

    ingest_singbox_rules-Keeps :
        (rs : RawRules) → HavePorts rs → Keeps (ingest_singbox_rules regex_ok rs)
    ingest_singbox_rules-Keeps no_rules h out out' i e = subst IsCompiled (ok_inj RuleSetError e) i
    ingest_singbox_rules-Keeps (more_rules r rs) h out out' i e =
        let (o, ho, e1) = >>=-eq-ok (ingest_singbox_rule regex_ok r out) _ e in
        ingest_singbox_rules-Keeps rs h.1 o _ (ingest_singbox_rule-Keeps r h.0 out _ i ho) e1

  -- Whatever sing-box rules with 16-bit ports are accepted, nested rules included: the domains have
  -- 255 bytes at most, each network has its width, a prefix within it and no host bits, and no
  -- range of ports is empty.
  pub from_singbox_json-IsCompiled :
      (rules : RawRules) {c : CompiledRuleSet}
      → HavePorts rules
      → from_singbox_json regex_ok (some rules) ≡ ok c
      → IsCompiled c
  unfolding from_singbox_json
  from_singbox_json-IsCompiled rules h e =
      ingest_singbox_rules-Keeps rules h empty _ empty-IsCompiled e
