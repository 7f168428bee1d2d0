-- ===== src/Config/Provider.antt =====
-- src/config/provider.rs: the providers with the fields that validation reads, their durations, and
-- what `Config::validate` of src/config/mod.rs checks of one provider.
use model_lib.Prelude.{
  ℕ, ◌*◌, ◌%◌, ◌^◌, Bytes, Option, none, some, Result, ok, err, ◌>>=◌, ok_or, map_err, [], ◌∷◌,
  is_empty, ◌==◌, if◌then◌else◌,
}
use model_lib.Std.Text.{trim}
use model_lib.Std.Numbers.{parse_below}

pub record HealthCheckConfig : Type 0 where
  pub interval : Bytes
  pub timeout : Bytes

pub data ProviderConfig : Type 0 where
  remote : Bytes → Bytes → Option HealthCheckConfig → ProviderConfig
  local : Bytes → Option HealthCheckConfig → ProviderConfig

unfoldable pub provider_tag : ProviderConfig → Bytes
provider_tag (remote tag update_interval health_check) = tag
provider_tag (local tag health_check) = tag

pub data DurationFault : Type 0 where
  not_a_number no_unit : DurationFault

-- `strip_suffix` with one ASCII byte
unfoldable pub strip_suffix : ℕ → Bytes → Option Bytes
strip_suffix x [] = none
strip_suffix x (b ∷ s) =
    let rest = strip_suffix x s in
    if is_empty s
    then (if b == x then some [] else none)
    else elim rest [ none ↦ none | some r ↦ some (b ∷ r) ]

-- A number of units of so many seconds; the product wraps in a release build.
unfoldable pub seconds_of : Bytes → ℕ → Result DurationFault ℕ
seconds_of number unit = do
  n ← ok_or (parse_below (2 ^ 64) (trim number)) not_a_number
  ok ((n * unit) % 2 ^ 64)

unfoldable pub parse_provider_duration : Bytes → Result DurationFault ℕ
parse_provider_duration s = elim (strip_suffix b'h' (trim s)) [
  | some h ↦ seconds_of h 3600
  | none ↦ elim (strip_suffix b'm' (trim s)) [
    | some m ↦ seconds_of m 60
    | none ↦ elim (strip_suffix b's' (trim s)) [ some sec ↦ seconds_of sec 1 | none ↦ err no_unit ]
  ]
]

pub data ProviderError : Type 0 where
  invalid_update_interval invalid_interval invalid_timeout : DurationFault → ProviderError

unfoldable pub check_health : Option HealthCheckConfig → Result ProviderError (Unit {0})
check_health none = ok tt
check_health (some hc) = do
  _ ← map_err invalid_interval (parse_provider_duration hc.interval)
  _ ← map_err invalid_timeout (parse_provider_duration hc.timeout)
  ok tt

unfoldable pub check_provider : ProviderConfig → Result ProviderError (Unit {0})
check_provider (remote tag update_interval health_check) = do
  _ ← map_err invalid_update_interval (parse_provider_duration update_interval)
  check_health health_check
check_provider (local tag health_check) = check_health health_check
