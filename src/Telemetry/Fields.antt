-- ===== src/Telemetry/Fields.antt =====
-- ParsedTegrastats and _field_present of runtime/tegrastats_telemetry.py.
use text.Mathlib.Text.{starts_with}
use Prim.Native.String.{String}
use jetson_dlagreen.Common.Dict.{find}
use jetson_dlagreen.Common.{
  ℕ, ◌∷◌, [], none, some, Bool, true, false, List, ◌||◌, Result, Option, if◌then◌else◌, str_eq, ok,
  err, value_error,
}
use jetson_dlagreen.Telemetry.{Sample}

pub record CpuCore (W : Type 0) : Type 0 where
  pub utilization_pct : Option W
  pub frequency_mhz : Option W
  pub online : Option Bool

pub record RamSample (W : Type 0) : Type 0 where
  pub used_mb : W
  pub total_mb : W
  pub largest_free_block_count : Option ℕ
  pub largest_free_block_mb : Option W

pub record SwapSample (W : Type 0) : Type 0 where
  pub used_mb : W
  pub total_mb : W
  pub cached_mb : Option W

pub record ClockActivity (W : Type 0) : Type 0 where
  pub utilization_pct : Option W
  pub frequencies_mhz : List W

pub record PowerSample (W : Type 0) : Type 0 where
  pub current_mw : W
  pub reported_extra_mw : List W

pub record ParsedTegrastats (W : Type 0) : Type 0 where
  pub ram : Option (RamSample W)
  pub swap : Option (SwapSample W)
  pub cpu : List (CpuCore W)
  pub temperatures_c : List (String × W)
  pub power : List (String × PowerSample W)
  pub emc : Option (ClockActivity W)
  pub gr3d : Option (ClockActivity W)

-- TelemetrySample(0, "", ParsedTegrastats(None, None, (), {}, {}, None, None), None)
abbrev pub empty_sample : {W : Type 0} → Sample (ParsedTegrastats W) W
empty_sample = record {
  monotonic_ns = 0;
  raw = [];
  parsed = record {
    ram = none;
    swap = none;
    cpu = [];
    temperatures_c = [];
    power = [];
    emc = none;
    gr3d = none;
  };
  mem_available_mb = none;
  collection_errors = [];
}

-- str.casefold and str.upper.
pub record Cases : Type 0 where
  pub casefold : String → String
  pub upper : String → String

-- field.partition(":")[2] of a field that starts with the prefix, which ends in the colon.
abbrev pub behind_prefix : String → String → String
behind_prefix String.[] text = text
behind_prefix (String.◌∷◌ p prefix) String.[] = ""
behind_prefix (String.◌∷◌ p prefix) (String.◌∷◌ c text) = behind_prefix prefix text

module _ {ℓ} {A : Type ℓ} where
  abbrev pub is_some : Option A → Bool
  is_some none = false
  is_some (some a) = true

  abbrev pub has_items : List A → Bool
  has_items [] = false
  has_items (x ∷ xs) = true

module _ {W : Type 0} where
  abbrev pub any_utilized : List (CpuCore W) → Bool
  any_utilized [] = false
  any_utilized (core ∷ cores) = is_some core.utilization_pct || any_utilized cores

  abbrev pub clock_utilized : Option (ClockActivity W) → Bool
  clock_utilized none = false
  clock_utilized (some clock) = is_some clock.utilization_pct

  abbrev pub clock_frequencies : Option (ClockActivity W) → Bool
  clock_frequencies none = false
  clock_frequencies (some clock) = has_items clock.frequencies_mhz

  unfoldable pub field_present : Cases → Sample (ParsedTegrastats W) W → String → Result Bool
  field_present cases s field =
      if str_eq field "ram"
      then ok (is_some s.parsed.ram)
      else if str_eq field "mem_available"
      then ok (is_some s.mem_available_mb)
      else if str_eq field "cpu"
      then ok (any_utilized s.parsed.cpu)
      else if str_eq field "temperature"
      then ok (has_items s.parsed.temperatures_c)
      else if starts_with field "temperature:"
      then ok (
          is_some
            (find (cases.casefold (behind_prefix "temperature:" field)) s.parsed.temperatures_c))
      else if str_eq field "power"
      then ok (has_items s.parsed.power)
      else if starts_with field "power:"
      then ok (is_some (find (cases.upper (behind_prefix "power:" field)) s.parsed.power))
      else if str_eq field "emc"
      then ok (is_some s.parsed.emc)
      else if str_eq field "emc_utilization"
      then ok (clock_utilized s.parsed.emc)
      else if str_eq field "emc_frequency"
      then ok (clock_frequencies s.parsed.emc)
      else if str_eq field "gr3d"
      then ok (is_some s.parsed.gr3d)
      else if str_eq field "gr3d_utilization"
      then ok (clock_utilized s.parsed.gr3d)
      else if str_eq field "gr3d_frequency"
      then ok (clock_frequencies s.parsed.gr3d)
      else err (value_error "unknown required telemetry field")
