-- ===== src/Tests/Config.antt =====
-- The checks of the outbounds at concrete configurations.
use model_lib.Prelude.{
  ◌≡◌, ◌⊎◌, refl, Bytes, bytes_eq, Option, none, some, ok, err, List, [], ◌∷◌, replicate, All,
}
use model_lib.Std.Text.{trim}
use model_lib.Std.Numbers.{digit, parse_below, unsigned, read_digits}
use model_lib.Outbound.Proto.{hex_digits, hex_value}
use model_lib.Config.Outbound.{
  OutboundConfig, direct, selector, tag_of, child_outbounds, group_default, group_providers,
  is_group,
}
use model_lib.Config.Cycles.{
  graph_onto, validate_outbound_group_cycles, cycle, contains_key, children_of, visit_all, visit,
  visit_children, children_or_none, remove,
}
use model_lib.Config.Cycles.Paths.{Reaches}
use model_lib.Config.Cycles.Search.{KeysOf, keys-KeysOf, validate_outbound_group_cycles-Reaches}
use model_lib.Config.Groups.{
  validate_outbounds, check_tags, check_groups, check_uuid, validate_outbound_group, check_children,
  check_providers, check_default, check_durations, split_number, unit_seconds, validate_uuid,
  parse_duration, bad_unit,
}
use model_lib.Config.Groups.Accepted.{IsGrounded, validate_outbounds-IsGrounded}
use model_lib.Config.Groups.Tags.{IsDistinct}

abbrev group_of : Bytes → List Bytes → Option Bytes → OutboundConfig
group_of tag outbounds default =
    selector (record { tag = tag; outbounds = outbounds; default = default; providers = none })

-- The group `a` holds the group `b`, which holds an outbound.
abbrev pub example_outbounds : List OutboundConfig
example_outbounds =
    direct (b'x' ∷ [])
    ∷ group_of (b'a' ∷ []) ((b'x' ∷ []) ∷ (b'b' ∷ []) ∷ []) (some (b'b' ∷ []))
    ∷ group_of (b'b' ∷ []) ((b'x' ∷ []) ∷ []) none
    ∷ []

-- Now `b` holds `a` as well.
abbrev looped_outbounds : List OutboundConfig
looped_outbounds =
    group_of (b'a' ∷ []) ((b'b' ∷ []) ∷ []) none ∷ group_of (b'b' ∷ []) ((b'a' ∷ []) ∷ []) none ∷ []

abbrev pub example_keys : List Bytes
example_keys = (b'b' ∷ []) ∷ (b'a' ∷ []) ∷ []

loop_test : validate_outbound_group_cycles looped_outbounds example_keys ≡ err (cycle (b'b' ∷ []))
unfolding validate_outbound_group_cycles visit_all visit graph_onto is_group visit_children
    children_or_none children_of bytes_eq tag_of child_outbounds contains_key
loop_test = refl

minutes_test : parse_duration (b'3' ∷ b'm' ∷ []) ≡ ok 180
unfolding parse_duration trim split_number digit parse_below unsigned read_digits unit_seconds
    bytes_eq
minutes_test = refl

unit_test : parse_duration (b'3' ∷ b'y' ∷ []) ≡ err bad_unit
unfolding parse_duration trim split_number digit parse_below unsigned read_digits unit_seconds
    bytes_eq
unit_test = refl

-- Other characters than hyphens are passed over.
uuid_test : validate_uuid (b'z' ∷ replicate 32 b'0') ≡ ok tt
unfolding validate_uuid hex_digits hex_value
uuid_test = refl

accepted_test :
    validate_outbounds example_outbounds [] example_keys
    ≡ ok ((b'b' ∷ []) ∷ (b'a' ∷ []) ∷ (b'x' ∷ []) ∷ [])
unfolding validate_outbounds check_tags check_groups check_uuid validate_outbound_group
    check_children check_providers check_default check_durations group_default group_providers
    validate_outbound_group_cycles visit_all visit graph_onto is_group visit_children
    children_or_none children_of bytes_eq tag_of child_outbounds contains_key remove
accepted_test = refl

example_KeysOf : KeysOf (graph_onto [] example_outbounds) example_keys
unfolding graph_onto is_group tag_of
example_KeysOf = keys-KeysOf (graph_onto [] example_outbounds)

validate_outbound_group_cycles-Reaches_example :
    ((validate_outbound_group_cycles example_outbounds example_keys ≡ ok tt)
      × ((a : Bytes) → ¬ Reaches (graph_onto [] example_outbounds) a a))
    ⊎ ((t : Bytes) × (validate_outbound_group_cycles example_outbounds example_keys ≡ err (cycle t))
        × Reaches (graph_onto [] example_outbounds) t t)
validate_outbound_group_cycles-Reaches_example =
    validate_outbound_group_cycles-Reaches example_outbounds example_keys example_KeysOf

validate_outbounds-IsGrounded_example :
    IsDistinct example_outbounds
    × All (IsGrounded example_outbounds) example_outbounds
    × ((a : Bytes) → ¬ Reaches (graph_onto [] example_outbounds) a a)
validate_outbounds-IsGrounded_example =
    validate_outbounds-IsGrounded example_outbounds [] example_keys example_KeysOf accepted_test
