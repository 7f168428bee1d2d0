-- ===== src/Router/Compiled.antt =====
-- When a rule of the configuration matches, by `compile` and `matches` of src/router/mod.rs.
use model_lib.Prelude.{
  ℕ, Bytes, bytes_eq, Bool, true, false, not, ◌||◌, Option, none, some, ok, err, List, [], ◌∷◌,
  is_empty, any,
}
use model_lib.Ruleset.Fst.{FstCrate}
use model_lib.Ruleset.Matcher.Engine
use model_lib.Ruleset.Matcher.Engine.{RegexCrate, MatchTarget, target_port}
use model_lib.Config.{RouteRuleConfig, NetworkFilter, tcp, udp}
use model_lib.Router.Rule.{get, inline_rules, addr_lines, port_lines, RuleSets}
use model_lib.Router.Route.{
  Target, port_of, target_to_addr_match, NetworkKind, kind_tcp, kind_udp, set_matches, matches,
}

abbrev pub filter_name : NetworkFilter → Bytes
filter_name tcp = b't' ∷ []
filter_name udp = b'u' ∷ []

abbrev pub kind_name : NetworkKind → Bytes
kind_name kind_tcp = b't' ∷ []
kind_name kind_udp = b'u' ∷ []

module _ (fst : FstCrate) (regex : RegexCrate) (lower : Bytes → Bytes) where
  -- The conditions of a rule of the configuration, one by one.
  abbrev pub enters : RouteRuleConfig → Bytes → Bool
  enters r tag = is_empty r.inbound || any (λ t. bytes_eq t tag) r.inbound

  abbrev pub runs_over : Option NetworkFilter → Option NetworkKind → Bool
  runs_over none network = true
  runs_over (some filter) none = false
  runs_over (some filter) (some kind) = bytes_eq (filter_name filter) (kind_name kind)

  abbrev pub talks : List Bytes → Option Bytes → Bool
  talks protocol none = is_empty protocol
  talks protocol (some proto) =
      is_empty protocol || any (λ p. bytes_eq (lower proto) (lower p)) protocol

  -- Whether the rule says anything of the target.
  abbrev pub has_target_condition : RouteRuleConfig → Bool
  has_target_condition r =
      not (is_empty r.ruleset_tags)
      || ((not (is_empty r.domain)
            || (not (is_empty r.domain_suffix)
                || (not (is_empty r.domain_keyword) || not (is_empty r.ip_cidr))))
          || (not (is_empty r.port) || not (is_empty r.port_range)))

  -- The rule set that a tag names holds the address or the port.
  abbrev pub tag_holds : RuleSets fst regex lower → MatchTarget → ℕ → Bytes → Bool
  tag_holds sets addr port tag = elim (get fst regex lower tag sets) [
    | none ↦ false
    | some rs ↦ Engine.matches fst regex rs addr || Engine.matches fst regex rs (target_port port)
  ]

  -- The rule set that some lines compile to holds the address or port.
  abbrev pub lines_hold : List Bytes → MatchTarget → Bool
  lines_hold lines t = elim (inline_rules fst regex lower lines) [
    | err e ↦ false
    | ok rs ↦ set_matches fst regex lower rs t
  ]

  abbrev pub reaches : RuleSets fst regex lower → RouteRuleConfig → Target → Bool
  reaches sets r target =
      let addr = target_to_addr_match target in
      let port = port_of target in
      any (tag_holds sets addr port) r.ruleset_tags
      || (lines_hold (addr_lines r) addr || lines_hold (port_lines r) (target_port port))
