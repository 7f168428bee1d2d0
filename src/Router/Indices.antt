-- ===== src/Router/Indices.antt =====
-- The index lists of `Router::from_config` in src/router/mod.rs, and the walks over them.
use model_lib.Prelude.{
  true, ℕ, ◌≡◌, inl, inr, refl, ap, ◌∙◌, subst, arith, Bytes, Bool, false, Bool-cases, some, ok,
  >>=-eq-ok, ok_inj, List, [], ◌∷◌, ◌++◌, append_assoc, length, get_elem?, length-append,
  if◌then◌else◌,
}
use model_lib.Ruleset.Fst.{FstCrate}
use model_lib.Ruleset.Matcher.Engine.{RegexCrate}
use model_lib.Config.{RouteConfig}
use model_lib.Router.Rule.{
  to_outbound, dns_out, sniff_first, resolve_first, RouteAction, to_action, RouteError, RuleSets,
  CompiledRule,
}
use model_lib.Router.Route.{
  is_sniff, is_sniff_or_resolve, Decision, Router, final_decision, decision, Question, hits,
  first_of, route, first_indexed, route_indexed, indices_from, check_hijack, compile_all,
  from_config, route_after_sniff, route_after_resolve,
}

get_elem?-append {ℓ} :
    {A : Type ℓ} (xs : List A) (y : A) (ys : List A)
    → get_elem? (xs ++ (y ∷ ys)) (length xs) ≡ some y
get_elem?-append [] y ys = refl
get_elem?-append (x ∷ xs) y ys = get_elem?-append xs y ys

to_action-skip : (o : Bytes) → is_sniff_or_resolve (to_action o) ≡ false
unfolding to_action
to_action-skip o = ground arith

-- The action sends the connection on: to an outbound, or to the DNS module.
abbrev pub is_final : RouteAction → Bool
is_final (to_outbound tag) = true
is_final dns_out = true
is_final _ = false

unskipped-is_final : (a : RouteAction) → is_sniff_or_resolve a ≡ false → is_final a ≡ true
unskipped-is_final (to_outbound tag) h = refl
unskipped-is_final dns_out h = refl
unskipped-is_final (sniff_first t o ts) h = cc
unskipped-is_final (resolve_first s) h = cc

module _ (fst : FstCrate) (regex : RegexCrate) (lower : Bytes → Bytes) where
  abbrev Rules : Type 0
  Rules = List (CompiledRule fst regex lower)

  -- The rules whose action is not skipped, in order.
  unfoldable pub kept : (RouteAction → Bool) → Rules → Rules
  kept skip [] = []
  kept skip (rule ∷ rules) =
      let rest = kept skip rules in if skip (rule.action) then rest else rule ∷ rest

  first_indexed_found :
      (q : Question fst regex lower) (rules : Rules) (i : ℕ) (indices : List ℕ)
      (d : Decision fst regex lower) (rule : CompiledRule fst regex lower)
      → get_elem? rules i ≡ some rule
      → first_indexed fst regex lower q rules (i ∷ indices) d ≡ (
          if hits fst regex lower q rule
          then some (decision fst regex lower rule)
          else first_indexed fst regex lower q rules indices d)
  unfolding first_indexed
  first_indexed_found q rules i indices d rule there = rw (there, first_indexed) refl

  first_indexed-indices_from :
      (skip : RouteAction → Bool) (q : Question fst regex lower) (d : Decision fst regex lower)
      (rules before : Rules)
      → first_indexed fst regex lower q
          (before ++ rules)
          (indices_from fst regex lower skip (length before) rules)
          d
        ≡ some (first_of fst regex lower q (kept skip rules) d)
  unfolding kept indices_from first_indexed first_of
  first_indexed-indices_from skip q d [] before = refl
  first_indexed-indices_from skip q d (rule ∷ rules) before =
      let later =
        rw (append_assoc before (rule ∷ []) rules, length-append before (rule ∷ [])) at
          (first_indexed-indices_from skip q d rules (before ++ (rule ∷ []))) in
      elim (Bool-cases (skip (rule.action))) [
        | inl skipped ↦ rw skipped later
        | inr taken ↦ rw taken (
            first_indexed_found q (before ++ (rule ∷ rules)) (length before) _ d rule
              (get_elem?-append before rule rules)
            ∙ elim (Bool-cases (hits fst regex lower q rule)) [
              | inl hit ↦ rw hit refl
              | inr missed ↦ rw missed later
            ])
      ]

  -- What `from_config` builds around its rules.
  record IsRouter (config : RouteConfig) (r : Router fst regex lower) : Type 0 where
    no_sniff : r.idx_no_sniff ≡ indices_from fst regex lower is_sniff 0 (r.rules)
    no_sniff_resolve :
        r.idx_no_sniff_resolve ≡ indices_from fst regex lower is_sniff_or_resolve 0 (r.rules)
    default_action : r.default ≡ to_action (config.final)

  from_config-IsRouter :
      (sets : RuleSets fst regex lower) (config : RouteConfig) (r : Router fst regex lower)
      → from_config fst regex lower sets config ≡ ok r
      → IsRouter config r
  unfolding from_config
  from_config-IsRouter sets config r e =
      let (u, hc, e1) = >>=-eq-ok (check_hijack fst regex lower 0 (config.rules)) _ e in
      let (rules, hr, e2) = >>=-eq-ok (compile_all fst regex lower sets (config.rules)) _ e1 in
      subst (IsRouter config) (ok_inj RouteError e2)
        (record { no_sniff = refl; no_sniff_resolve = refl; default_action = refl })

  -- A router that `from_config` builds routes after sniffing as over its rules without those
  -- that sniff: the first one that matches decides, or else the default.
  pub route_after_sniff-kept :
      (sets : RuleSets fst regex lower) (config : RouteConfig) (r : Router fst regex lower)
      (q : Question fst regex lower)
      → from_config fst regex lower sets config ≡ ok r
      → route_after_sniff fst regex lower r q
        ≡ some (
            first_of fst regex lower q (kept is_sniff (r.rules)) (final_decision fst regex lower r))
  unfolding route_after_sniff route_indexed
  route_after_sniff-kept sets config r q e =
      let b = from_config-IsRouter sets config r e in
      rw b.no_sniff
        (first_indexed-indices_from is_sniff q (final_decision fst regex lower r) (r.rules) [])

  -- A router that `from_config` builds routes after resolving as over its rules without those
  -- that sniff or resolve: the first one that matches decides, or else the default.
  pub route_after_resolve-kept :
      (sets : RuleSets fst regex lower) (config : RouteConfig) (r : Router fst regex lower)
      (q : Question fst regex lower)
      → from_config fst regex lower sets config ≡ ok r
      → route_after_resolve fst regex lower r q
        ≡ some (
            first_of fst regex lower q
              (kept is_sniff_or_resolve (r.rules))
              (final_decision fst regex lower r))
  unfolding route_after_resolve route_indexed
  route_after_resolve-kept sets config r q e =
      let b = from_config-IsRouter sets config r e in
      rw b.no_sniff_resolve (
        first_indexed-indices_from is_sniff_or_resolve q (final_decision fst regex lower r)
          (r.rules) [])

  first_of-kept :
      (skip : RouteAction → Bool) (q : Question fst regex lower) (d : Decision fst regex lower)
      (rules : Rules)
      → skip (d.0) ≡ false
      → skip ((first_of fst regex lower q (kept skip rules) d).0) ≡ false
  unfolding kept first_of
  first_of-kept skip q d [] h = h
  first_of-kept skip q d (rule ∷ rules) h =
      let later = first_of-kept skip q d rules h in
      elim (Bool-cases (skip (rule.action))) [
        | inl skipped ↦ rw skipped later
        | inr taken ↦ rw taken (elim (Bool-cases (hits fst regex lower q rule)) [
          | inl hit ↦ rw hit taken
          | inr missed ↦ rw missed later
        ])
      ]

  -- After resolving, a router that `from_config` builds gives a decision, and its action is to go
  -- to an outbound or to the DNS module: it neither sniffs nor resolves again.
  pub route_after_resolve-is_final :
      (sets : RuleSets fst regex lower) (config : RouteConfig) (r : Router fst regex lower)
      (q : Question fst regex lower)
      → from_config fst regex lower sets config ≡ ok r
      → (d : Decision fst regex lower) × (route_after_resolve fst regex lower r q ≡ some d)
        × (is_final (d.0) ≡ true)
  route_after_resolve-is_final sets config r q e =
      let b = from_config-IsRouter sets config r e in
      let last : is_sniff_or_resolve r.default ≡ false =
        rw b.default_action (to_action-skip config.final) in
      (
        _,
        route_after_resolve-kept sets config r q e,
        unskipped-is_final _
            (first_of-kept is_sniff_or_resolve q (final_decision fst regex lower r) r.rules last),
      )

  first_of-kept_same :
      (skip : RouteAction → Bool) (q : Question fst regex lower) (d : Decision fst regex lower)
      (rules : Rules)
      → skip ((first_of fst regex lower q rules d).0) ≡ false
      → first_of fst regex lower q (kept skip rules) d ≡ first_of fst regex lower q rules d
  unfolding kept first_of
  first_of-kept_same skip q d [] h = refl
  first_of-kept_same skip q d (rule ∷ rules) h = elim (Bool-cases (hits fst regex lower q rule)) [
    | inl hit ↦
        let taken : skip (rule.action) ≡ false = rw (hit, first_of) at h in rw (taken, hit) refl
    | inr missed ↦
        let later = first_of-kept_same skip q d rules (rw (missed, first_of) at h) in
        elim (Bool-cases (skip (rule.action))) [
          | inl skipped ↦ rw (skipped, missed) later
          | inr taken ↦ rw (taken, missed) later
        ]
  ]

  -- Where `route`, asked a question, does not say to sniff, the route after sniffing decides the
  -- same for that question. The router is one that `from_config` builds.
  pub route_after_sniff-route :
      (sets : RuleSets fst regex lower) (config : RouteConfig) (r : Router fst regex lower)
      (q : Question fst regex lower)
      → from_config fst regex lower sets config ≡ ok r
      → is_sniff ((route fst regex lower r q).0) ≡ false
      → route_after_sniff fst regex lower r q ≡ some (route fst regex lower r q)
  unfolding route
  route_after_sniff-route sets config r q e h =
      route_after_sniff-kept sets config r q e
      ∙ ap some (first_of-kept_same is_sniff q (final_decision fst regex lower r) (r.rules) h)
