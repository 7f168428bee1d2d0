-- ===== src/Ruleset/Compiler/FromText.antt =====
-- `CompiledRuleSet::from_text` of src/ruleset/compiler.rs.
use model_lib.Prelude.{
  ℕ, ◌+◌, Bytes, bytes_eq, Bool, false, not, ◌||◌, Result, ok, err, ◌>>=◌, ◌>>◌, refuse_if, ok_or,
  List, [], ◌∷◌, ◌++◌, is_empty, ◌==◌, if◌then◌else◌,
}
use model_lib.Std.Text.{trim, split_once, to_ascii_lowercase}
use model_lib.Ruleset.Error.{
  RuleSetError, parse_error, expected_key_value, unknown_rule_type, invalid_regex,
}
use model_lib.Ruleset.Keys.{split}
use model_lib.Ruleset.Trie.{trim_start_dots}
use model_lib.Ruleset.Compiler.{CompiledRuleSet}
use model_lib.Ruleset.Compiler.Parse.{
  validate_domain_len, parse_ipv4_cidr, parse_ipv6_cidr, parse_port_range,
}

abbrev pub empty : CompiledRuleSet
empty = record {
  domains = [];
  domain_suffixes = [];
  domain_keywords = [];
  domain_regexes = [];
  ipv4_cidrs = [];
  ipv6_cidrs = [];
  ports = [];
}

-- The keys of a line.
pub data RuleKey : Type 0 where
  key_domain key_domain_suffix key_domain_keyword key_domain_regex : RuleKey
  key_ip_cidr key_ip_cidr6 key_port key_other : RuleKey

abbrev domain_text : Bytes
domain_text = b'd' ∷ b'o' ∷ b'm' ∷ b'a' ∷ b'i' ∷ b'n' ∷ []

abbrev domain_suffix_text : Bytes
domain_suffix_text = domain_text ++ (b'-' ∷ b's' ∷ b'u' ∷ b'f' ∷ b'f' ∷ b'i' ∷ b'x' ∷ [])

abbrev domain_keyword_text : Bytes
domain_keyword_text = domain_text ++ (b'-' ∷ b'k' ∷ b'e' ∷ b'y' ∷ b'w' ∷ b'o' ∷ b'r' ∷ b'd' ∷ [])

abbrev domain_regex_text : Bytes
domain_regex_text = domain_text ++ (b'-' ∷ b'r' ∷ b'e' ∷ b'g' ∷ b'e' ∷ b'x' ∷ [])

abbrev ip_cidr_text : Bytes
ip_cidr_text = b'i' ∷ b'p' ∷ b'-' ∷ b'c' ∷ b'i' ∷ b'd' ∷ b'r' ∷ []

abbrev ip_cidr6_text : Bytes
ip_cidr6_text = ip_cidr_text ++ (b'6' ∷ [])

abbrev port_text : Bytes
port_text = b'p' ∷ b'o' ∷ b'r' ∷ b't' ∷ []

-- The `match` on the key.
unfoldable pub rule_key : Bytes → RuleKey
rule_key k =
    if bytes_eq k domain_text
    then key_domain
    else if bytes_eq k domain_suffix_text
    then key_domain_suffix
    else if bytes_eq k domain_keyword_text
    then key_domain_keyword
    else if bytes_eq k domain_regex_text
    then key_domain_regex
    else if bytes_eq k ip_cidr_text
    then key_ip_cidr
    else if bytes_eq k ip_cidr6_text
    then key_ip_cidr6
    else if bytes_eq k port_text
    then key_port
    else key_other

-- `push`
abbrev pub push {ℓ} : {A : Type ℓ} → List A → A → List A
push xs x = xs ++ (x ∷ [])

abbrev pub starts_hash : Bytes → Bool
starts_hash [] = false
starts_hash (b ∷ s) = b == b'#'

module _ (regex_ok : Bytes → Bool) where
  -- What one line adds to `out`.
  unfoldable pub add_rule :
      RuleKey → ℕ → Bytes → Bytes → CompiledRuleSet → Result RuleSetError CompiledRuleSet
  add_rule key_domain line key value out = do
    validate_domain_len value line
    ok (record out { domains = push out.domains (to_ascii_lowercase value) })
  add_rule key_domain_suffix line key value out = do
    validate_domain_len (trim_start_dots value) line
    ok (record out {
      domain_suffixes = push out.domain_suffixes (to_ascii_lowercase (trim_start_dots value));
    })
  add_rule key_domain_keyword line key value out =
      ok (record out { domain_keywords = push out.domain_keywords (to_ascii_lowercase value) })
  add_rule key_domain_regex line key value out = do
    refuse_if (not (regex_ok value)) (invalid_regex value)
    ok (record out { domain_regexes = push out.domain_regexes value })
  add_rule key_ip_cidr line key value out = do
    cidr ← parse_ipv4_cidr value
    ok (record out { ipv4_cidrs = push out.ipv4_cidrs cidr })
  add_rule key_ip_cidr6 line key value out = do
    cidr ← parse_ipv6_cidr value
    ok (record out { ipv6_cidrs = push out.ipv6_cidrs cidr })
  add_rule key_port line key value out = do
    range ← parse_port_range value
    ok (record out { ports = push out.ports range })
  add_rule key_other line key value out = err (parse_error line (unknown_rule_type key))

  -- One line, trimmed.
  unfoldable pub add_line : ℕ → Bytes → CompiledRuleSet → Result RuleSetError CompiledRuleSet
  add_line line trimmed out =
      let parsed =
        ok_or (split_once b':' trimmed) (parse_error line (expected_key_value trimmed)) >>= λ kv.
        add_rule (rule_key (trim kv.0)) line (trim kv.0) (trim kv.1) out in
      if is_empty trimmed || starts_hash trimmed then ok out else parsed

  unfoldable pub add_lines : ℕ → List Bytes → CompiledRuleSet → Result RuleSetError CompiledRuleSet
  add_lines line [] out = ok out
  add_lines line (raw ∷ lines) out = do
    out' ← add_line line (trim raw) out
    add_lines (line + 1) lines out'

  -- `lines` yields the pieces between line feeds. It leaves out a carriage return before a line
  -- feed, which is white space that `trim` takes off, and an empty last piece, which is skipped.
  unfoldable pub from_text : Bytes → Result RuleSetError CompiledRuleSet
  from_text src = add_lines 1 (split b'\n' src) empty
