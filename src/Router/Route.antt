-- ===== src/Router/Route.antt =====
-- `Router` of src/router/mod.rs: matching a rule, and walking the rules.
use model_lib.Prelude.{
  ℕ, ◌+◌, Bytes, bytes_eq, Bool, true, false, not, ◌&&◌, ◌||◌, Option, none, some, Result, ok,
  ◌>>=◌, ◌>>◌, refuse_if, List, [], ◌∷◌, is_empty, get_elem?, any, if◌then◌else◌,
}
use model_lib.Ruleset.Fst.{FstCrate}
use model_lib.Ruleset.Matcher.Engine
use model_lib.Ruleset.Matcher.Engine.{
  RegexCrate, RuleSet, IpAddr, MatchTarget, target_domain, target_ip, target_port,
}
use model_lib.Config.{RouteConfig, RouteRuleConfig, NetworkFilter, tcp, udp, has_conditions}
use model_lib.Router.Rule.{
  RouteAction, sniff_first, resolve_first, to_action, RouteError, bare_hijack_dns, RuleSets,
  CompiledRule, compile,
}

-- `Target` of src/inbound/mod.rs
pub data Target : Type 0 where
  domain_target : Bytes → ℕ → Target
  socket_target : IpAddr → ℕ → Target

unfoldable pub port_of : Target → ℕ
port_of (domain_target h p) = p
port_of (socket_target a p) = p

unfoldable pub target_to_addr_match : Target → MatchTarget
target_to_addr_match (domain_target h p) = target_domain h
target_to_addr_match (socket_target a p) = target_ip a

pub data NetworkKind : Type 0 where
  kind_tcp kind_udp : NetworkKind

-- The `match` on the filter and the network.
abbrev pub allows : Option NetworkFilter → Option NetworkKind → Bool
allows none kind = true
allows (some tcp) (some kind_tcp) = true
allows (some udp) (some kind_udp) = true
allows (some f) kind = false

-- The actions that the indices leave out.
abbrev pub is_sniff : RouteAction → Bool
is_sniff (sniff_first t o ts) = true
is_sniff _ = false

abbrev pub is_sniff_or_resolve : RouteAction → Bool
is_sniff_or_resolve (sniff_first t o ts) = true
is_sniff_or_resolve (resolve_first s) = true
is_sniff_or_resolve _ = false

module _ (fst : FstCrate) (regex : RegexCrate) (lower : Bytes → Bytes) where
  abbrev rs_matches : RuleSet fst regex → MatchTarget → Bool
  rs_matches = Engine.matches fst regex

  -- The loop over the rule sets.
  unfoldable pub any_ruleset : List (RuleSet fst regex) → MatchTarget → ℕ → Bool
  any_ruleset [] addr port = false
  any_ruleset (rs ∷ sets) addr port =
      if rs_matches rs addr
      then true
      else if rs_matches rs (target_port port)
      then true
      else any_ruleset sets addr port

  abbrev pub set_matches : Option (RuleSet fst regex) → MatchTarget → Bool
  set_matches none t = false
  set_matches (some rs) t = rs_matches rs t

  unfoldable pub match_target : CompiledRule fst regex lower → Target → Bool
  match_target rule target =
      let addr = target_to_addr_match target in
      let port = port_of target in
      if any_ruleset rule.rulesets addr port
      then true
      else if set_matches rule.addr_rs addr
      then true
      else set_matches rule.port_rs (target_port port)

  abbrev pub has_set : Option (RuleSet fst regex) → Bool
  has_set none = false
  has_set (some rs) = true

  abbrev pub has_target : CompiledRule fst regex lower → Bool
  has_target rule = not (is_empty rule.rulesets) || (has_set rule.addr_rs || has_set rule.port_rs)

  abbrev pub speaks : List Bytes → Option Bytes → Bool
  speaks protocols none = false
  speaks protocols (some proto) = any (bytes_eq (lower proto)) protocols

  unfoldable pub matches :
      CompiledRule fst regex lower → Bytes → Option NetworkKind → Target → Option Bytes → Bool
  matches rule inbound_tag network target sniffed_protocol =
      if not (is_empty rule.inbound_tags)
        && not (any (λ t. bytes_eq t inbound_tag) rule.inbound_tags)
      then false
      else if not (allows rule.network network)
      then false
      else if not (is_empty rule.protocols) && not (speaks rule.protocols sniffed_protocol)
      then false
      else if has_target rule && not (match_target rule target)
      then false
      else true

  abbrev pub Decision : Type 0
  Decision = RouteAction × (Bytes × Bytes)

  pub record Router : Type 0 where
    pub rules : List (CompiledRule fst regex lower)
    pub idx_no_sniff : List ℕ
    pub idx_no_sniff_resolve : List ℕ
    pub default : RouteAction

  -- `(&self.default, "final", "")`
  abbrev pub final_decision : Router → Decision
  final_decision r = (r.default, ((b'f' ∷ b'i' ∷ b'n' ∷ b'a' ∷ b'l' ∷ []), []))

  abbrev pub decision : CompiledRule fst regex lower → Decision
  decision rule = (rule.action, rule.display)

  -- What a connection or a packet asks.
  pub record Question : Type 0 where
    pub inbound_tag : Bytes
    pub network : Option NetworkKind
    pub target : Target
    pub sniffed_protocol : Option Bytes

  abbrev pub hits : Question → CompiledRule fst regex lower → Bool
  hits q rule = matches rule q.inbound_tag q.network q.target q.sniffed_protocol

  unfoldable pub first_of : Question → List (CompiledRule fst regex lower) → Decision → Decision
  first_of q [] otherwise = otherwise
  first_of q (rule ∷ rules) otherwise =
      if hits q rule then decision rule else first_of q rules otherwise

  unfoldable pub route : Router → Question → Decision
  route r q = first_of q r.rules (final_decision r)

  -- `&self.rules[i]`, which panics out of range: `none`.
  unfoldable pub first_indexed :
      Question → List (CompiledRule fst regex lower) → List ℕ → Decision → Option Decision
  first_indexed q rules [] otherwise = some otherwise
  first_indexed q rules (i ∷ indices) otherwise = elim (get_elem? rules i) [
    | none ↦ none
    | some rule ↦
        if hits q rule then some (decision rule) else first_indexed q rules indices otherwise
  ]

  unfoldable pub route_indexed : Router → List ℕ → Question → Option Decision
  route_indexed r indices q = first_indexed q r.rules indices (final_decision r)

  -- `enumerate().filter_map(..)`: the indices from `i` on of the rules that are kept.
  unfoldable pub indices_from :
      (RouteAction → Bool) → ℕ → List (CompiledRule fst regex lower) → List ℕ
  indices_from skip i [] = []
  indices_from skip i (rule ∷ rules) =
      let rest = indices_from skip (i + 1) rules in if skip rule.action then rest else i ∷ rest

  -- The check on `hijack_dns`, rule by rule from index `i` on.
  unfoldable pub check_hijack : ℕ → List RouteRuleConfig → Result RouteError (Unit {0})
  check_hijack i [] = ok tt
  check_hijack i (r ∷ rules) = do
    refuse_if (r.hijack_dns && not (has_conditions r)) (bare_hijack_dns i)
    check_hijack (i + 1) rules

  unfoldable pub compile_all :
      RuleSets fst regex lower
      → List RouteRuleConfig
      → Result RouteError (List (CompiledRule fst regex lower))
  compile_all sets [] = ok []
  compile_all sets (r ∷ rules) = do
    rule ← compile fst regex lower sets r
    rest ← compile_all sets rules
    ok (rule ∷ rest)

  -- `from_config` behind the loop that loads the rule sets.
  unfoldable pub from_config : RuleSets fst regex lower → RouteConfig → Result RouteError Router
  from_config sets config = do
    check_hijack 0 config.rules
    rules ← compile_all sets config.rules
    ok (record {
      rules = rules;
      idx_no_sniff = indices_from is_sniff 0 rules;
      idx_no_sniff_resolve = indices_from is_sniff_or_resolve 0 rules;
      default = to_action config.final;
    })

  -- `route_tcp` and `route_udp` ask `route`; the routes after sniffing and resolving walk the
  -- indices. The question carries the network and, for these, the new target.
  unfoldable pub route_after_sniff : Router → Question → Option Decision
  route_after_sniff r q = route_indexed r r.idx_no_sniff q

  unfoldable pub route_after_resolve : Router → Question → Option Decision
  route_after_resolve r q = route_indexed r r.idx_no_sniff_resolve q
