-- ===== src/Config/Groups/Accepted.antt =====
-- What the outbounds' checks of src/config/mod.rs let pass.
use model_lib.Prelude.{
  ◌≡◌, ◌≢◌, inl, inr, refl, arith, Bytes, bytes_eq, bytes_eq_iff, Bool, true, false, not, ◌&&◌,
  Bool-cases, none, some, Option-cases, ok, ◌>>◌, refuse_if, map_err, >>=-eq-ok, refuse_if-eq-ok,
  List, [], ◌∷◌, is_empty, All,
}
use model_lib.Config.Outbound.{
  OutboundConfig, vless, vmess, tuic, shadowsocks, hysteria2, trojan, direct, block, socks,
  selector, url_test, tag_of, child_outbounds, group_default, group_providers, is_group,
}
use model_lib.Config.Cycles.{member, graph_onto, validate_outbound_group_cycles}
use model_lib.Config.Cycles.Paths.{Reaches}
use model_lib.Config.Cycles.Search.{KeysOf, validate_outbound_group_cycles-Reaches}
use model_lib.Config.Groups.{
  invalid_group, group_cycle, check_children, check_providers, check_default, check_durations,
  or_empty, validate_outbound_group, check_tags, check_groups, validate_outbounds,
  references_itself, unknown_outbound, both_empty,
}
use model_lib.Config.Groups.Tags.{
  has_tag, IsDistinct, map_err-eq-ok, check_tags-has_tag, check_tags-IsDistinct,
}

-- The default of a group is one of its children.
abbrev default_listed : OutboundConfig → Bool
default_listed o = elim (group_default o) [
  | none ↦ true
  | some default ↦ member default (child_outbounds o)
]

-- The children of a group are outbounds, none of them the group itself, and its default is one of them.
abbrev pub IsGrounded : List OutboundConfig → OutboundConfig → Type 0
IsGrounded os o =
    All (λ c. (c ≢ tag_of o) × (has_tag os c ≡ true)) (child_outbounds o)
    × (default_listed o ≡ true)

check_children-All :
    (tag : Bytes) (tags children : List Bytes)
    → check_children tag tags children ≡ ok tt
    → All (λ c. (c ≢ tag) × (member c tags ≡ true)) children
unfolding check_children
check_children-All tag tags [] h = tt
check_children-All tag tags (c ∷ cs) h =
    let (other, h1) = refuse_if-eq-ok (bytes_eq c tag) (references_itself c) _ h in
    let (known, h2) = refuse_if-eq-ok (not (member c tags)) (unknown_outbound c) _ h1 in
    (
      (λ e. cc (other, (bytes_eq_iff c tag).1 e), ground (arith, known)),
      check_children-All tag tags cs h2,
    )

check_default-default_listed :
    (o : OutboundConfig) → check_default o ≡ ok tt → default_listed o ≡ true
unfolding check_default
check_default-default_listed o h = elim (Option-cases (group_default o)) [
  | inl e ↦ ground (arith, e)
  | inr (d, e) ↦ ground (arith, h, e)
]

-- What is no group has neither children nor a default.
IsGrounded-protocol :
    (os : List OutboundConfig) (o : OutboundConfig) → is_group o ≡ false → IsGrounded os o
unfolding is_group child_outbounds group_default
IsGrounded-protocol os (vless t u) h = (tt, refl)
IsGrounded-protocol os (vmess t u) h = (tt, refl)
IsGrounded-protocol os (tuic t u) h = (tt, refl)
IsGrounded-protocol os (shadowsocks t) h = (tt, refl)
IsGrounded-protocol os (hysteria2 t) h = (tt, refl)
IsGrounded-protocol os (trojan t) h = (tt, refl)
IsGrounded-protocol os (direct t) h = (tt, refl)
IsGrounded-protocol os (block t) h = (tt, refl)
IsGrounded-protocol os (socks t) h = (tt, refl)
IsGrounded-protocol os (selector c) h = absurd (cc)
IsGrounded-protocol os (url_test c) h = absurd (cc)

pub All-map :
    {A : Type 0} {P Q : A → Type 0} (xs : List A) → ((x : A) → P x → Q x) → All P xs → All Q xs
All-map [] f h = tt
All-map (x ∷ xs) f h = (f x h.0, All-map xs f h.1)

validate_outbound_group-IsGrounded :
    (os : List OutboundConfig) (o : OutboundConfig) (tags provider_tags : List Bytes)
    → ((t : Bytes) → member t tags ≡ true → has_tag os t ≡ true)
    → validate_outbound_group o tags provider_tags ≡ ok tt
    → IsGrounded os o
unfolding validate_outbound_group
validate_outbound_group-IsGrounded os o tags provider_tags known h =
    elim (Bool-cases (is_group o)) [
      | inl group ↦ checked group
      | inr e ↦ IsGrounded-protocol os o e
    ]
  where
    checked : is_group o ≡ true → IsGrounded os o
    checked group =
        let refused = is_empty (child_outbounds o) && is_empty (or_empty (group_providers o)) in
        let h0 : (refuse_if refused (both_empty (tag_of o))
              >> (check_children (tag_of o) tags (child_outbounds o)
                  >> (check_providers provider_tags (or_empty (group_providers o))
                      >> (check_default o >> check_durations o))))
            ≡ ok tt =
          ground (arith, h, group) in
        let (_, h1) = refuse_if-eq-ok refused (both_empty (tag_of o)) _ h0 in
        let (_, children, h2) =
          >>=-eq-ok (check_children (tag_of o) tags (child_outbounds o)) _ h1 in
        let (_, _, h3) =
          >>=-eq-ok (check_providers provider_tags (or_empty (group_providers o))) _ h2 in
        let (_, default, _) = >>=-eq-ok (check_default o) _ h3 in
        (
          All-map (child_outbounds o) (λ c p. (p.0, known c p.1))
              (check_children-All (tag_of o) tags (child_outbounds o) children),
          check_default-default_listed o default,
        )

check_groups-IsGrounded :
    (all os : List OutboundConfig) (tags provider_tags : List Bytes)
    → ((t : Bytes) → member t tags ≡ true → has_tag all t ≡ true)
    → check_groups tags provider_tags os ≡ ok tt
    → All (IsGrounded all) os
unfolding check_groups
check_groups-IsGrounded all [] tags provider_tags known h = tt
check_groups-IsGrounded all (o ∷ os) tags provider_tags known h =
    let group = validate_outbound_group o tags provider_tags in
    let (_, valid, later) = >>=-eq-ok (map_err (invalid_group (tag_of o)) group) _ h in
    (
      validate_outbound_group-IsGrounded all o tags provider_tags known
          (map_err-eq-ok (invalid_group (tag_of o)) group valid),
      check_groups-IsGrounded all os tags provider_tags known later,
    )

-- What the checks of the outbounds accept: no two outbounds share a tag, the children of every
-- group are outbounds other than the group, its default is one of them, and no group is reached
-- from itself over its children that are groups. The keys are those of the graph in any order.
pub validate_outbounds-IsGrounded :
    (os : List OutboundConfig) (provider_tags keys : List Bytes) {tags : List Bytes}
    → KeysOf (graph_onto [] os) keys
    → validate_outbounds os provider_tags keys ≡ ok tags
    → IsDistinct os × All (IsGrounded os) os × ((a : Bytes) → ¬ Reaches (graph_onto [] os) a a)
unfolding validate_outbounds
validate_outbounds-IsGrounded os provider_tags keys k h =
    let (tags, unique, h1) = >>=-eq-ok (check_tags [] os) _ h in
    let (_, grounded, h2) = >>=-eq-ok (check_groups tags provider_tags os) _ h1 in
    let (_, acyclic, _) =
      >>=-eq-ok (map_err group_cycle (validate_outbound_group_cycles os keys)) _ h2 in
    (
      check_tags-IsDistinct [] os unique,
      check_groups-IsGrounded os os tags provider_tags (check_tags-has_tag [] os unique) grounded,
      elim (validate_outbound_group_cycles-Reaches os keys k) [
        | inl (_, none_reached) ↦ none_reached
        | inr (t, found, _) ↦
            absurd (
              cc
                (map_err-eq-ok group_cycle (validate_outbound_group_cycles os keys) acyclic, found))
      ],
    )
