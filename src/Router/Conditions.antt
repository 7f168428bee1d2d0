-- ===== src/Router/Conditions.antt =====
-- When a compiled rule of src/router/mod.rs matches, and which rules `from_config` refuses.
use model_lib.Prelude.{
  ℕ, ◌≡◌, refl, arith, Bytes, bytes_eq, Bool, true, not, ◌&&◌, ◌||◌, Option, List, [], ◌∷◌,
  is_empty, any,
}
use model_lib.Ruleset.Fst.{FstCrate}
use model_lib.Ruleset.Matcher.Engine
use model_lib.Ruleset.Matcher.Engine.{RegexCrate, RuleSet, MatchTarget, target_port}
use model_lib.Config.{RouteRuleConfig, has_conditions}
use model_lib.Router.Rule.{CompiledRule}
use model_lib.Router.Route.{
  Target, port_of, target_to_addr_match, NetworkKind, allows, any_ruleset, set_matches,
  match_target, has_target, speaks, matches, Router,
}

-- A rule that hijacks has a condition.
abbrev pub IsGuarded : RouteRuleConfig → Type 0
IsGuarded r = r.hijack_dns ≡ true → has_conditions r ≡ true

module _ (fst : FstCrate) (regex : RegexCrate) (lower : Bytes → Bytes) where
  any_ruleset-any :
      (sets : List (RuleSet fst regex)) (addr : MatchTarget) (port : ℕ)
      → any_ruleset fst regex lower sets addr port
        ≡ any
            (λ rs.
              Engine.matches fst regex rs addr || Engine.matches fst regex rs (target_port port))
            sets
  unfolding any_ruleset
  any_ruleset-any [] addr port = refl
  any_ruleset-any (rs ∷ sets) addr port = rw (any_ruleset-any sets addr port) (ground arith)

  -- The target condition of a rule: one of its rule sets holds the address or the port, or an
  -- inline address rule holds the address, or an inline port rule holds the port.
  abbrev pub wants : CompiledRule fst regex lower → Target → Bool
  wants rule target =
      let addr = target_to_addr_match target in
      let port = target_port (port_of target) in
      any (λ rs. Engine.matches fst regex rs addr || Engine.matches fst regex rs port)
        (rule.rulesets)
      || (set_matches fst regex lower (rule.addr_rs) addr
          || set_matches fst regex lower (rule.port_rs) port)

  pub matches-wants :
      (rule : CompiledRule fst regex lower) (tag : Bytes) (network : Option NetworkKind)
      (target : Target) (proto : Option Bytes)
      → matches fst regex lower rule tag network target proto ≡ (
          (is_empty (rule.inbound_tags) || any (λ t. bytes_eq t tag) (rule.inbound_tags))
          && (allows (rule.network) network
              && ((is_empty (rule.protocols) || speaks fst regex lower (rule.protocols) proto)
                  && (not (has_target fst regex lower rule) || wants rule target))))
  unfolding matches match_target
  matches-wants rule tag network target proto =
      rw (any_ruleset-any (rule.rulesets) (target_to_addr_match target) (port_of target))
        (ground arith)
