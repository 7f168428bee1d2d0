-- ===== src/Ruleset/Compiler/Invariant.antt =====
-- What every rule set compiled by src/ruleset/compiler.rs satisfies.
use model_lib.Prelude.{
  ℕ, ◌+◌, ◌≤◌, ◌≡◌, inl, inr, refl, subst, arith, Bytes, Bool, true, false, not, ◌||◌, Bool-cases,
  ok, refuse_if, ok_or, >>=-eq-ok, refuse_if-eq-ok, ok_inj, List, [], ◌∷◌, length, is_empty, All,
  length-map, ltb,
}
use model_lib.Std.Text.{trim, split_once, to_ascii_lowercase}
use model_lib.Ruleset.Error.{RuleSetError, parse_error, expected_key_value, invalid_regex}
use model_lib.Ruleset.Keys.{split}
use model_lib.Ruleset.Trie.{trim_start_dots}
use model_lib.Ruleset.Compiler.{CompiledRuleSet}
use model_lib.Ruleset.Compiler.Parse.{
  validate_domain_len, parse_ipv4_cidr, parse_ipv6_cidr, parse_port_range,
}
use model_lib.Ruleset.Compiler.Bounds.{
  IsNetwork4, IsNetwork6, IsPorts, parse_ipv4_cidr-network, parse_ipv6_cidr-network,
  parse_port_range-IsPorts,
}
use model_lib.Ruleset.Compiler.FromText.{
  empty, push, starts_hash, RuleKey, key_domain, key_domain_suffix, key_domain_keyword,
  key_domain_regex, key_ip_cidr, key_ip_cidr6, key_port, key_other, rule_key, add_rule, add_line,
  add_lines, from_text,
}

abbrev pub IsDomain : Bytes → Type 0
IsDomain d = length d ≤ 255

-- Domains of 255 bytes at most, networks without host bits, and ranges of ports that are not empty.
pub record IsCompiled (c : CompiledRuleSet) : Type 0 where
  pub domains : All IsDomain c.domains
  pub suffixes : All IsDomain c.domain_suffixes
  pub ipv4 : All IsNetwork4 c.ipv4_cidrs
  pub ipv6 : All IsNetwork6 c.ipv6_cidrs
  pub ports : All IsPorts c.ports

pub empty-IsCompiled : IsCompiled empty
empty-IsCompiled = record { domains = tt; suffixes = tt; ipv4 = tt; ipv6 = tt; ports = tt }

All-push : {A : Type 0} (P : A → Type 0) (xs : List A) (x : A) → All P xs → P x → All P (push xs x)
All-push P [] x h k = (k, tt)
All-push P (y ∷ xs) x h k = (h.0, All-push P xs x h.1 k)

-- One more entry of each kind.
module _ (out : CompiledRuleSet) (h : IsCompiled out) where
  pub add_domain-IsCompiled :
      (d : Bytes) → IsDomain d → IsCompiled (record out { domains = push out.domains d })
  add_domain-IsCompiled d k = record {
    domains = All-push IsDomain out.domains d h.domains k;
    suffixes = h.suffixes;
    ipv4 = h.ipv4;
    ipv6 = h.ipv6;
    ports = h.ports;
  }

  pub add_suffix-IsCompiled :
      (d : Bytes)
      → IsDomain d
      → IsCompiled (record out { domain_suffixes = push out.domain_suffixes d })
  add_suffix-IsCompiled d k = record {
    domains = h.domains;
    suffixes = All-push IsDomain out.domain_suffixes d h.suffixes k;
    ipv4 = h.ipv4;
    ipv6 = h.ipv6;
    ports = h.ports;
  }

  pub add_ipv4-IsCompiled :
      (c : ℕ × ℕ) → IsNetwork4 c → IsCompiled (record out { ipv4_cidrs = push out.ipv4_cidrs c })
  add_ipv4-IsCompiled c k = record {
    domains = h.domains;
    suffixes = h.suffixes;
    ipv4 = All-push IsNetwork4 out.ipv4_cidrs c h.ipv4 k;
    ipv6 = h.ipv6;
    ports = h.ports;
  }

  pub add_ipv6-IsCompiled :
      (c : ℕ × ℕ) → IsNetwork6 c → IsCompiled (record out { ipv6_cidrs = push out.ipv6_cidrs c })
  add_ipv6-IsCompiled c k = record {
    domains = h.domains;
    suffixes = h.suffixes;
    ipv4 = h.ipv4;
    ipv6 = All-push IsNetwork6 out.ipv6_cidrs c h.ipv6 k;
    ports = h.ports;
  }

  pub add_ports-IsCompiled :
      (r : ℕ × ℕ) → IsPorts r → IsCompiled (record out { ports = push out.ports r })
  add_ports-IsCompiled r k = record {
    domains = h.domains;
    suffixes = h.suffixes;
    ipv4 = h.ipv4;
    ipv6 = h.ipv6;
    ports = All-push IsPorts out.ports r h.ports k;
  }

pub length-to_ascii_lowercase : (s : Bytes) → length (to_ascii_lowercase s) ≡ length s
unfolding to_ascii_lowercase
length-to_ascii_lowercase s = length-map s _

passed : (b : Bool) (e : RuleSetError) {x : Unit {0}} → refuse_if b e ≡ ok x → b ≡ false
passed true e h = cc
passed false e h = refl

at_most : (n m : ℕ) → ltb m n ≡ false → n ≤ m
at_most n m h = ground arith

-- A domain that passes the check.
pub validated :
    (d : Bytes) (line : ℕ) {x : Unit {0}} → validate_domain_len d line ≡ ok x → IsDomain d
unfolding validate_domain_len
validated d line h = at_most (length d) 255 (passed (ltb 255 (length d)) _ h)

module _ (regex_ok : Bytes → Bool) where
  add_rule-IsCompiled :
      (k : RuleKey) (line : ℕ) (key value : Bytes) (out : CompiledRuleSet) {out' : CompiledRuleSet}
      → IsCompiled out
      → add_rule regex_ok k line key value out ≡ ok out'
      → IsCompiled out'
  unfolding add_rule
  add_rule-IsCompiled key_domain line key value out h e =
      let (u, hv, e1) = >>=-eq-ok (validate_domain_len value line) _ e in
      subst IsCompiled (ok_inj RuleSetError e1) (
        add_domain-IsCompiled out h _
          (rw (length-to_ascii_lowercase value) (validated value line hv)))
  add_rule-IsCompiled key_domain_suffix line key value out h e =
      let v = trim_start_dots value in
      let (u, hv, e1) = >>=-eq-ok (validate_domain_len v line) _ e in
      subst IsCompiled (ok_inj RuleSetError e1)
        (add_suffix-IsCompiled out h _ (rw (length-to_ascii_lowercase v) (validated v line hv)))
  add_rule-IsCompiled key_domain_keyword line key value out h e =
      subst IsCompiled (ok_inj RuleSetError e) (record {
        domains = h.domains;
        suffixes = h.suffixes;
        ipv4 = h.ipv4;
        ipv6 = h.ipv6;
        ports = h.ports;
      })
  add_rule-IsCompiled key_domain_regex line key value out h e =
      let (good, e1) = refuse_if-eq-ok (not (regex_ok value)) (invalid_regex value) _ e in
      subst IsCompiled (ok_inj RuleSetError e1) (record {
        domains = h.domains;
        suffixes = h.suffixes;
        ipv4 = h.ipv4;
        ipv6 = h.ipv6;
        ports = h.ports;
      })
  add_rule-IsCompiled key_ip_cidr line key value out h e =
      let (c, hc, e1) = >>=-eq-ok (parse_ipv4_cidr value) _ e in
      subst IsCompiled (ok_inj RuleSetError e1)
        (add_ipv4-IsCompiled out h c (parse_ipv4_cidr-network value hc))
  add_rule-IsCompiled key_ip_cidr6 line key value out h e =
      let (c, hc, e1) = >>=-eq-ok (parse_ipv6_cidr value) _ e in
      subst IsCompiled (ok_inj RuleSetError e1)
        (add_ipv6-IsCompiled out h c (parse_ipv6_cidr-network value hc))
  add_rule-IsCompiled key_port line key value out h e =
      let (r, hr, e1) = >>=-eq-ok (parse_port_range value) _ e in
      subst IsCompiled (ok_inj RuleSetError e1)
        (add_ports-IsCompiled out h r (parse_port_range-IsPorts value hr))
  add_rule-IsCompiled key_other line key value out h e = cc

  add_line-IsCompiled :
      (line : ℕ) (trimmed : Bytes) (out : CompiledRuleSet) {out' : CompiledRuleSet}
      → IsCompiled out
      → add_line regex_ok line trimmed out ≡ ok out'
      → IsCompiled out'
  unfolding add_line
  add_line-IsCompiled line trimmed out {out'} h e =
      elim (Bool-cases (is_empty trimmed || starts_hash trimmed)) [
        | inl skip ↦ subst IsCompiled (ok_inj RuleSetError (rw skip at e)) h
        | inr rule ↦
            let e1 = rw rule at e in
            let (kv, hk, e2) =
              >>=-eq-ok
                (ok_or (split_once b':' trimmed) (parse_error line (expected_key_value trimmed))) _
                e1 in
            add_rule-IsCompiled (rule_key (trim kv.0)) line (trim kv.0) (trim kv.1) out h e2
      ]

  add_lines-IsCompiled :
      (lines : List Bytes) (line : ℕ) (out : CompiledRuleSet) {out' : CompiledRuleSet}
      → IsCompiled out
      → add_lines regex_ok line lines out ≡ ok out'
      → IsCompiled out'
  unfolding add_lines
  add_lines-IsCompiled [] line out h e = subst IsCompiled (ok_inj RuleSetError e) h
  add_lines-IsCompiled (raw ∷ lines) line out h e =
      let (o, ho, e1) = >>=-eq-ok (add_line regex_ok line (trim raw) out) _ e in
      add_lines-IsCompiled lines (line + 1) o (add_line-IsCompiled line (trim raw) out h ho) e1

  -- Whatever text `from_text` accepts, its domains have 255 bytes at most, each network has its
  -- width, a prefix within it and no host bits, and no range of ports is empty.
  pub from_text-IsCompiled :
      (src : Bytes) {c : CompiledRuleSet} → from_text regex_ok src ≡ ok c → IsCompiled c
  unfolding from_text
  from_text-IsCompiled src e = add_lines-IsCompiled (split b'\n' src) 1 empty empty-IsCompiled e
