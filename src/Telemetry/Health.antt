-- ===== src/Telemetry/Health.antt =====
-- The interval, the counts and the health of aggregate_samples in runtime/tegrastats_telemetry.py;
-- `present` is _field_present and `empty` the sample that it is tried on.
use jetson_dlagreen.Telemetry.Fields.{has_items}
use jetson_dlagreen.Common.Dict.{keep}
use jetson_dlagreen.Telemetry.Monitor.{last_item}
use jetson_dlagreen.Dag.{is_in}
use jetson_dlagreen.Common.Sorting.{sort_by}
use jetson_dlagreen.Common.{
  ℕ, suc, ◌∷◌, [], none, some, Bool, true, false, String, List, if◌then◌else◌, Result, Option, map,
  ◌>>=◌, ◌==◌, ok, ltb, err, leb, length, ◌-◌, ◌++◌, value_error, ◌&&◌, not, ◌>>◌, require,
}
use jetson_dlagreen.Common.Int.{ℤ, pos, ltb_ℤ, ◌-ℤ◌}
use jetson_dlagreen.Telemetry.{Sample, validated_monotonic_ns}
use jetson_dlagreen.Telemetry.Window.{Interval, is_in_interval}
use jetson_dlagreen.Governor.Thermal.{maximum_gap_ns}

-- The keyword arguments of aggregate_samples; without a reference, it is the end of the interval.
pub record Rules : Type 0 where
  pub required_fields : List String
  pub minimum_valid_samples : ℤ
  pub require_all_samples_valid : Bool
  pub reference_ns : Option ℤ
  pub stale_after_ns : Option ℤ
  pub maximum_valid_gap_ns : Option ℤ
  pub end_inclusive : Bool

-- The arguments that passed the checks.
pub record Limits : Type 0 where
  pub interval : Interval
  pub required : List String
  pub minimum_valid_samples : ℕ
  pub require_all_samples_valid : Bool
  pub reference_ns : ℕ
  pub stale_after_ns : Option ℕ
  pub maximum_valid_gap_ns : Option ℕ

pub record Health : Type 0 where
  pub healthy : Bool
  pub reasons : List String
  pub total_samples : ℕ
  pub valid_samples : ℕ
  pub missing_counts : List (String × ℕ)
  pub incomplete_samples : ℕ
  pub collection_error_samples : ℕ
  pub last_interval_sample_ns : Option ℕ
  pub last_sample_ns : Option ℕ
  pub last_valid_sample_ns : Option ℕ
  pub stale : Bool
  pub valid_sample_stale : Bool
  pub observed_maximum_valid_gap_ns : Option ℤ
  pub valid_gap_exceeded : Bool

abbrev pub validated_or_none : Option ℤ → Result (Option ℕ)
validated_or_none none = ok none
validated_or_none (some n) = validated_monotonic_ns n >>= (λ v. ok (some v))

abbrev pub is_zero : Option ℕ → Bool
is_zero none = false
is_zero (some n) = n == 0

abbrev pub reference_of : Option ℤ → ℕ → Result ℕ
reference_of none end_ns = ok end_ns
reference_of (some reference) end_ns = validated_monotonic_ns reference

abbrev pub checked_minimum : ℤ → Result ℕ
checked_minimum (pos (suc n)) = ok (suc n)
checked_minimum _ = err (value_error "minimum_valid_samples must be positive")

-- tuple(dict.fromkeys(fields)), behind those seen.
unfoldable pub distinct_from : List String → List String → List String
distinct_from seen [] = []
distinct_from seen (field ∷ fields) =
    let again = distinct_from seen fields in
    let first = field ∷ distinct_from (field ∷ seen) fields in
    if is_in field seen then again else first

abbrev pub flag : Bool → String → List String
flag test reason = if test then reason ∷ [] else []

-- reference - latest > stale_after, or no latest; never without a bound.
abbrev pub is_stale : Option ℕ → ℕ → Option ℕ → Bool
is_stale none reference latest = false
is_stale (some stale_after) reference none = true
is_stale (some stale_after) reference (some latest) = ltb stale_after (reference - latest)

abbrev pub or_whole : Interval → Option ℤ → ℤ
or_whole i none = pos i.end_ns -ℤ pos i.start_ns
or_whole i (some gap) = gap

abbrev pub gap_exceeds : Option ℕ → Option ℤ → Bool
gap_exceeds none observed = false
gap_exceeds (some maximum) none = false
gap_exceeds (some maximum) (some observed) = ltb_ℤ (pos maximum) observed

module _ {P W : Type 0} where
  -- sorted(samples, key=lambda sample: sample.monotonic_ns)
  abbrev pub by_time : List (Sample P W) → List (Sample P W)
  by_time samples = sort_by (λ a b. ltb a.monotonic_ns b.monotonic_ns) samples

  -- samples[-1].monotonic_ns, if there is one.
  abbrev pub last_ns : List (Sample P W) → Option ℕ
  last_ns [] = none
  last_ns (s ∷ samples) = some (last_item s samples).monotonic_ns

  abbrev pub times_of : List (Sample P W) → List ℤ
  times_of samples = map (λ s. pos s.monotonic_ns) samples

  -- The largest gap between valid samples, where a bound is asked for.
  abbrev pub observed_gap : Interval → List (Sample P W) → Option ℕ → Option ℤ
  observed_gap i valid none = none
  observed_gap i valid (some maximum) =
      some (or_whole i (maximum_gap_ns (pos i.start_ns) (pos i.end_ns) (times_of valid)))

module _ {P W : Type 0} (present : Sample P W → String → Result Bool) where
  -- all(_field_present(sample, field) for field in fields)
  unfoldable pub all_present : List String → Sample P W → Result Bool
  all_present [] s = ok true
  all_present (field ∷ fields) s =
      let rest = all_present fields s in present s field >>= (λ p. if p then rest else ok false)

  -- Behind `check_fields` no field is unknown.
  abbrev pub is_valid : List String → Sample P W → Bool
  is_valid fields s = elim (all_present fields s) [ ok valid ↦ valid | err e ↦ false ]

  -- How many samples lack a field; behind `check_fields` it is known.
  abbrev pub missing : String → List (Sample P W) → ℕ
  missing field samples =
      length (keep (λ s. elim (present s field) [ ok p ↦ not p | err e ↦ false ]) samples)

  unfoldable pub check_fields : Sample P W → List String → Result (Unit {0})
  check_fields empty [] = ok tt
  check_fields empty (field ∷ fields) = present empty field >>= (λ p. check_fields empty fields)

  -- The checks of the arguments, in their order.
  unfoldable pub limits_of : Sample P W → ℤ → ℤ → Rules → Result Limits
  limits_of empty start_ns end_ns rules = do
    start ← validated_monotonic_ns start_ns
    end ← validated_monotonic_ns end_ns
    require (ltb start end) (value_error "the telemetry interval must be positive")
    minimum ← checked_minimum rules.minimum_valid_samples
    stale_after ← validated_or_none rules.stale_after_ns
    maximum_gap ← validated_or_none rules.maximum_valid_gap_ns
    require (not (is_zero maximum_gap)) (value_error "maximum_valid_gap_ns must be positive")
    reference ← reference_of rules.reference_ns end
    require (not (ltb reference end))
        (value_error "reference_ns must be at or after the interval end")
    check_fields empty (distinct_from [] rules.required_fields)
    ok (record {
      interval = record { start_ns = start; end_ns = end; end_inclusive = rules.end_inclusive };
      required = distinct_from [] rules.required_fields;
      minimum_valid_samples = minimum;
      require_all_samples_valid = rules.require_all_samples_valid;
      reference_ns = reference;
      stale_after_ns = stale_after;
      maximum_valid_gap_ns = maximum_gap;
    })

  unfoldable pub selected_of : Limits → List (Sample P W) → List (Sample P W)
  selected_of limits samples = by_time (keep (is_in_interval limits.interval) samples)

  unfoldable pub valid_of : Limits → List (Sample P W) → List (Sample P W)
  valid_of limits samples = keep (is_valid limits.required) (selected_of limits samples)

  unfoldable pub observed_of : Limits → List (Sample P W) → List (Sample P W)
  observed_of limits samples = by_time (keep (λ s. leb s.monotonic_ns limits.reference_ns) samples)

  -- The reasons, in their order; `total` and `valid` are counts.
  unfoldable pub reasons_of : Limits → ℕ → ℕ → Bool → Bool → Bool → List String
  reasons_of limits total valid stale valid_stale exceeded =
      flag (total == 0) "no_samples"
      ++ flag (ltb valid limits.minimum_valid_samples) "insufficient_valid_samples"
      ++ flag (limits.require_all_samples_valid && not (valid == total)) "incomplete_samples"
      ++ flag stale "stale_stream"
      ++ flag (valid_stale && not stale) "stale_valid_sample"
      ++ flag exceeded "valid_sample_gap_exceeded"

  unfoldable pub health_of : Limits → List (Sample P W) → Health
  health_of limits samples =
      let selected = selected_of limits samples in
      let valid = valid_of limits samples in
      let observed = observed_of limits samples in
      let latest = last_ns observed in
      let latest_valid = last_ns (keep (is_valid limits.required) observed) in
      let stale = is_stale limits.stale_after_ns limits.reference_ns latest in
      let valid_stale = is_stale limits.stale_after_ns limits.reference_ns latest_valid in
      let gap = observed_gap limits.interval valid limits.maximum_valid_gap_ns in
      let exceeded = gap_exceeds limits.maximum_valid_gap_ns gap in
      let reasons = reasons_of limits (length selected) (length valid) stale valid_stale exceeded in
      record {
        healthy = not (has_items reasons);
        reasons = reasons;
        total_samples = length selected;
        valid_samples = length valid;
        missing_counts = map (λ field. (field, missing field selected)) limits.required;
        incomplete_samples = length selected - length valid;
        collection_error_samples = length (keep (λ s. has_items s.collection_errors) selected);
        last_interval_sample_ns = last_ns selected;
        last_sample_ns = latest;
        last_valid_sample_ns = latest_valid;
        stale = stale;
        valid_sample_stale = valid_stale;
        observed_maximum_valid_gap_ns = gap;
        valid_gap_exceeded = exceeded;
      }

  unfoldable pub aggregate_samples : Sample P W → List (Sample P W) → ℤ → ℤ → Rules → Result Health
  aggregate_samples empty samples start_ns end_ns rules =
      limits_of empty start_ns end_ns rules >>= (λ limits. ok (health_of limits samples))
