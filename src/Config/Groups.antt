-- ===== src/Config/Groups.antt =====
-- The outbounds' part of `Config::validate` of src/config/mod.rs: tags, UUIDs and groups.
pub mod Accepted
pub mod Tags
use model_lib.Prelude.{
  ℕ, ◌+◌, ◌-◌, ◌*◌, ◌%◌, ◌^◌, Bytes, bytes_eq, not, ◌&&◌, ◌||◌, Option, none, some, Result, ok,
  ◌>>=◌, ◌>>◌, refuse_if, ok_or, map_err, List, [], ◌∷◌, length, is_empty, any, ◌==◌, if◌then◌else◌,
}
use model_lib.Std.Text.{trim}
use model_lib.Std.Numbers.{digit, parse_below}
use model_lib.Outbound.Proto.{hex_digits}
use model_lib.Config.Outbound.{
  OutboundConfig, vless, vmess, tuic, url_test, tag_of, child_outbounds, group_providers,
  group_default, is_group,
}
use model_lib.Config.Cycles.{CycleError, member, validate_outbound_group_cycles}

pub data UuidError : Type 0 where
  not_32_digits : ℕ → UuidError
  wrong_format : Bytes → UuidError

pub data DurationError : Type 0 where
  empty_duration missing_number bad_number bad_unit : DurationError

pub data GroupError : Type 0 where
  both_empty references_itself unknown_outbound unknown_provider default_not_listed :
      Bytes → GroupError
  bad_duration : DurationError → GroupError

pub data ConfigError : Type 0 where
  duplicate_outbound : Bytes → ConfigError
  invalid_uuid : Bytes → UuidError → ConfigError
  invalid_group : Bytes → GroupError → ConfigError
  group_cycle : CycleError → ConfigError

-- The lengths of the parts of `split('-')`: `n` bytes of the first have been passed.
unfoldable pub part_lengths : ℕ → Bytes → List ℕ
part_lengths n [] = n ∷ []
part_lengths n (b ∷ s) =
    let here = part_lengths (n + 1) s in
    let next = part_lengths 0 s in if b == b'-' then n ∷ next else here

unfoldable pub validate_uuid : Bytes → Result UuidError (Unit {0})
validate_uuid s = do
  _ ← refuse_if (not (length (hex_digits s) == 32)) (not_32_digits (length (hex_digits s)))
  refuse_if (any (λ b. b == b'-') s && not (bytes_eq (part_lengths 0 s) (8 ∷ 4 ∷ 4 ∷ 4 ∷ 12 ∷ [])))
      (wrong_format s)

-- `split_at` the first character that is no digit
unfoldable pub split_number : Bytes → Bytes × Bytes
split_number [] = ([], [])
split_number (b ∷ s) = elim (digit b) [
  | none ↦ ([], b ∷ s)
  | some d ↦ let rest = split_number s in (b ∷ rest.0, rest.1)
]

-- The seconds of a unit.
unfoldable pub unit_seconds : Bytes → Option ℕ
unit_seconds unit =
    if is_empty unit || bytes_eq unit (b's' ∷ [])
    then some 1
    else if bytes_eq unit (b'm' ∷ [])
    then some 60
    else if bytes_eq unit (b'h' ∷ [])
    then some 3600
    else if bytes_eq unit (b'd' ∷ [])
    then some 86400
    else none

-- The products wrap in a release build.
unfoldable pub parse_duration : Bytes → Result DurationError ℕ
parse_duration s = do
  _ ← refuse_if (is_empty (trim s)) empty_duration
  _ ← refuse_if (is_empty (split_number (trim s)).0) missing_number
  value ← ok_or (parse_below (2 ^ 64) (split_number (trim s)).0) bad_number
  seconds ← ok_or (unit_seconds (split_number (trim s)).1) bad_unit
  ok ((value * seconds) % 2 ^ 64)

-- The loop over the children.
unfoldable pub check_children : Bytes → List Bytes → List Bytes → Result GroupError (Unit {0})
check_children tag tags [] = ok tt
check_children tag tags (child ∷ children) = do
  _ ← refuse_if (bytes_eq child tag) (references_itself child)
  _ ← refuse_if (not (member child tags)) (unknown_outbound child)
  check_children tag tags children

unfoldable pub check_providers : List Bytes → List Bytes → Result GroupError (Unit {0})
check_providers provider_tags [] = ok tt
check_providers provider_tags (tag ∷ tags) = do
  _ ← refuse_if (not (member tag provider_tags)) (unknown_provider tag)
  check_providers provider_tags tags

abbrev pub or_empty : Option (List Bytes) → List Bytes
or_empty none = []
or_empty (some tags) = tags

unfoldable pub check_default : OutboundConfig → Result GroupError (Unit {0})
check_default o = elim (group_default o) [
  | none ↦ ok tt
  | some default ↦ refuse_if (not (member default (child_outbounds o))) (default_not_listed default)
]

unfoldable pub check_durations : OutboundConfig → Result GroupError (Unit {0})
check_durations (url_test c) = do
  _ ← map_err bad_duration (parse_duration c.interval)
  _ ← map_err bad_duration (parse_duration c.idle_timeout)
  ok tt
check_durations _ = ok tt

unfoldable pub validate_outbound_group :
    OutboundConfig → List Bytes → List Bytes → Result GroupError (Unit {0})
validate_outbound_group o tags provider_tags =
    if not (is_group o)
    then ok tt
    else refuse_if (is_empty (child_outbounds o) && is_empty (or_empty (group_providers o)))
        (both_empty (tag_of o))
      >> (check_children (tag_of o) tags (child_outbounds o)
          >> (check_providers provider_tags (or_empty (group_providers o))
              >> (check_default o >> check_durations o)))

-- The match on the protocols with a UUID.
unfoldable pub check_uuid : OutboundConfig → Result UuidError (Unit {0})
check_uuid (vless tag uuid) = validate_uuid uuid
check_uuid (vmess tag uuid) = validate_uuid uuid
check_uuid (tuic tag uuid) = validate_uuid uuid
check_uuid _ = ok tt

-- The loop that collects the tags.
unfoldable pub check_tags : List Bytes → List OutboundConfig → Result ConfigError (List Bytes)
check_tags tags [] = ok tags
check_tags tags (o ∷ os) = do
  _ ← refuse_if (member (tag_of o) tags) (duplicate_outbound (tag_of o))
  _ ← map_err (invalid_uuid (tag_of o)) (check_uuid o)
  check_tags (tag_of o ∷ tags) os

-- The loop over the groups.
unfoldable pub check_groups :
    List Bytes → List Bytes → List OutboundConfig → Result ConfigError (Unit {0})
check_groups tags provider_tags [] = ok tt
check_groups tags provider_tags (o ∷ os) = do
  _ ← map_err (invalid_group (tag_of o)) (validate_outbound_group o tags provider_tags)
  check_groups tags provider_tags os

-- `keys` is the order in which the hash map of the groups lists them.
unfoldable pub validate_outbounds :
    List OutboundConfig → List Bytes → List Bytes → Result ConfigError (List Bytes)
validate_outbounds outbounds provider_tags keys = do
  tags ← check_tags [] outbounds
  _ ← check_groups tags provider_tags outbounds
  _ ← map_err group_cycle (validate_outbound_group_cycles outbounds keys)
  ok tags
