-- ===== src/Ruleset/Compiler/SingBox.antt =====
-- The sing-box front end of src/ruleset/compiler.rs, behind the JSON parser.
use model_lib.Prelude.{
  ℕ, Bytes, Bool, not, Option, none, some, Result, ok, err, ◌>>=◌, ◌>>◌, refuse_if, List, [], ◌∷◌,
  if◌then◌else◌,
}
use model_lib.Std.Text.{trim, to_ascii_lowercase, has_byte}
use model_lib.Ruleset.Error.{RuleSetError, parse_error, json_error, invalid_regex}
use model_lib.Ruleset.Trie.{trim_start_dots}
use model_lib.Ruleset.Compiler.{CompiledRuleSet}
use model_lib.Ruleset.Compiler.Parse.{
  validate_domain_len, parse_ipv4_cidr, parse_ipv6_cidr, parse_singbox_port_range,
}
use model_lib.Ruleset.Compiler.FromText.{empty, push}

-- The fields of `SingBoxRule` but for the sub-rules.
pub record SingBoxFields : Type 0 where
  pub domain : List Bytes
  pub domain_suffix : List Bytes
  pub domain_keyword : List Bytes
  pub domain_regex : List Bytes
  pub ip_cidr : List Bytes
  pub port : List ℕ
  pub port_range : List Bytes

-- What `serde_json::from_value` makes of a value: an error, or a rule whose sub-rules are values
-- again, which it turns into rules when they are reached.
mutual
  pub data RawRule : Type 0 where
    malformed : RawRule
    rule : SingBoxFields → RawRules → RawRule

  pub data RawRules : Type 0 where
    no_rules : RawRules
    more_rules : RawRule → RawRules → RawRules

-- A loop that adds each of its items.
abbrev pub each {ℓ} :
    {A : Type ℓ}
    → (A → CompiledRuleSet → Result RuleSetError CompiledRuleSet)
    → List A
    → CompiledRuleSet
    → Result RuleSetError CompiledRuleSet
each add [] out = ok out
each add (x ∷ xs) out = add x out >>= λ out'. each add xs out'

unfoldable pub add_domain : Bytes → CompiledRuleSet → Result RuleSetError CompiledRuleSet
add_domain d out = do
  let lower = to_ascii_lowercase (trim d)
  validate_domain_len lower 0
  ok (record out { domains = push out.domains lower })

unfoldable pub add_suffix : Bytes → CompiledRuleSet → Result RuleSetError CompiledRuleSet
add_suffix d out = do
  let v = to_ascii_lowercase (trim_start_dots (trim d))
  validate_domain_len v 0
  ok (record out { domain_suffixes = push out.domain_suffixes v })

unfoldable pub add_keyword : Bytes → CompiledRuleSet → Result RuleSetError CompiledRuleSet
add_keyword k out =
    ok (record out { domain_keywords = push out.domain_keywords (to_ascii_lowercase (trim k)) })

unfoldable pub add_cidr : Bytes → CompiledRuleSet → Result RuleSetError CompiledRuleSet
add_cidr c out =
    let cidr = trim c in
    let six =
      parse_ipv6_cidr cidr >>= λ x. ok (record out { ipv6_cidrs = push out.ipv6_cidrs x }) in
    let four =
      parse_ipv4_cidr cidr >>= λ x. ok (record out { ipv4_cidrs = push out.ipv4_cidrs x }) in
    if has_byte b':' cidr then six else four

unfoldable pub add_port : ℕ → CompiledRuleSet → Result RuleSetError CompiledRuleSet
add_port p out = ok (record out { ports = push out.ports (p, p) })

unfoldable pub add_port_range : Bytes → CompiledRuleSet → Result RuleSetError CompiledRuleSet
add_port_range pr out = do
  range ← parse_singbox_port_range pr
  ok (record out { ports = push out.ports range })

module _ (regex_ok : Bytes → Bool) where
  unfoldable pub add_regex : Bytes → CompiledRuleSet → Result RuleSetError CompiledRuleSet
  add_regex r out = do
    refuse_if (not (regex_ok r)) (invalid_regex r)
    ok (record out { domain_regexes = push out.domain_regexes r })

  -- The fields, in the order of the loops.
  unfoldable pub add_fields : SingBoxFields → CompiledRuleSet → Result RuleSetError CompiledRuleSet
  add_fields f out0 = do
    out1 ← each add_domain f.domain out0
    out2 ← each add_suffix f.domain_suffix out1
    out3 ← each add_keyword f.domain_keyword out2
    out4 ← each add_regex f.domain_regex out3
    out5 ← each add_cidr f.ip_cidr out4
    out6 ← each add_port f.port out5
    each add_port_range f.port_range out6

  -- The sub-rules come before the fields of their rule.
  unfoldable mutual
    pub ingest_singbox_rule : RawRule → CompiledRuleSet → Result RuleSetError CompiledRuleSet
    ingest_singbox_rule malformed out = err (parse_error 0 json_error)
    ingest_singbox_rule (rule f subs) out =
        ingest_singbox_rules subs out >>= λ out'. add_fields f out'

    pub ingest_singbox_rules : RawRules → CompiledRuleSet → Result RuleSetError CompiledRuleSet
    ingest_singbox_rules no_rules out = ok out
    ingest_singbox_rules (more_rules r rs) out =
        ingest_singbox_rule r out >>= λ out'. ingest_singbox_rules rs out'

  -- `from_singbox_json`; `none` is a text that is no envelope.
  unfoldable pub from_singbox_json : Option RawRules → Result RuleSetError CompiledRuleSet
  from_singbox_json none = err (parse_error 0 json_error)
  from_singbox_json (some rules) = ingest_singbox_rules rules empty
