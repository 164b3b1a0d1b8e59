-- ===== src/Governor/Thermal.antt =====
-- The telemetry window of the thermal checks of runtime/mig_slack_governor.py: the gaps between
-- samples, the samples required and the stability of a window.
pub mod Gaps
pub mod Monitored
use jetson_dlagreen.Common.Dict.{find, keep}
use jetson_dlagreen.Common.{
  ℕ, zero, suc, ◌∷◌, [], none, some, Bool, true, false, String, List, ◌&&◌, Result, if◌then◌else◌,
  map, Option, ok, ◌>>◌, ◌>>=◌, require, not, value_error,
}
use jetson_dlagreen.Common.Float.{Float, nought, absolute}
use jetson_dlagreen.Common.Int.{ℤ, pos, negsuc, ◌-ℤ◌, ltb_ℤ}
use jetson_dlagreen.Planner.{Builtins}

-- The receipt time of a telemetry sample and its temperatures.
pub record Sample (W : Type 0) : Type 0 where
  pub monotonic_ns : ℤ
  pub temperatures_c : List (String × W)

abbrev pub differences : ℤ → List ℤ → List ℤ
differences previous [] = []
differences previous (current ∷ rest) = (current -ℤ previous) ∷ differences current rest

abbrev pub last_of : ℤ → List ℤ → ℤ
last_of t [] = t
last_of t (u ∷ ts) = last_of u ts

abbrev pub later_of : ℤ → ℤ → ℤ
later_of a b = if ltb_ℤ a b then b else a

-- max(…) of a list that begins with `best`.
unfoldable pub largest_of : ℤ → List ℤ → ℤ
largest_of best [] = best
largest_of best (g ∷ gs) = largest_of (later_of best g) gs

-- The largest gap, if there is a timestamp.
unfoldable pub maximum_gap_ns : ℤ → ℤ → List ℤ → Option ℤ
maximum_gap_ns start_ns reference_ns [] = none
maximum_gap_ns start_ns reference_ns (first ∷ rest) =
    some (
      largest_of (first -ℤ start_ns)
        ((reference_ns -ℤ last_of first rest) ∷ differences first rest))

abbrev pub earliest : ℤ → Option ℤ → ℤ
earliest start none = start
earliest start (some not_before_ns) = later_of start not_before_ns

module _ {W : Type 0} where
  abbrev pub has_sensor : String → Sample W → Bool
  has_sensor sensor sample = elim (find sensor sample.temperatures_c) [
    | some w ↦ true
    | none ↦ false
  ]

  abbrev pub timestamps_of : String → List (Sample W) → List ℤ
  timestamps_of sensor samples = map (λ s. s.monotonic_ns) (keep (has_sensor sensor) samples)

module _ {W : Type 0} ⦃d : Float W⦄ (b : Builtins W) where
  -- max(gaps_ns) / 1_000_000_000.0
  abbrev pub seconds_of : Option ℤ → Result (Option W)
  seconds_of none = ok none
  seconds_of (some gap) = do ns ← b.of_int gap; ok (some (d.div ns (d.decimal 1000000000 0)))

  -- int(window_seconds * 1_000_000_000)
  abbrev pub window_ns : W → Result ℤ
  window_ns window_seconds = b.truncate (d.mul window_seconds (d.decimal 1000000000 0))

  -- `sample_window start end` is monitor.sample_window(start, end, end_inclusive=True).samples.
  unfoldable pub thermal_window_maximum_gap_seconds :
      (ℤ → ℤ → Result (List (Sample W))) → String → W → ℤ → Option ℤ → Result (Option W)
  thermal_window_maximum_gap_seconds sample_window sensor window_seconds reference_ns
        not_before_ns =
      do
        require (not (d.le window_seconds nought)) (value_error "thermal window must be positive")
        window ← window_ns window_seconds
        let start_ns = earliest (reference_ns -ℤ window) not_before_ns in
            sample_window start_ns reference_ns >>= (λ samples.
              seconds_of (maximum_gap_ns start_ns reference_ns (timestamps_of sensor samples)))

  -- thermal_stability_checkpoint_is_timely
  unfoldable pub checkpoint_is_timely : W → W → Bool
  checkpoint_is_timely actual scheduled =
      d.is_finite actual
      && d.is_finite scheduled
      && d.lt nought scheduled
      && d.le scheduled actual
      && d.le (d.sub actual scheduled) (d.decimal 1 0)

-- The summary of a window of temperatures.
pub record Summary (W : Type 0) : Type 0 where
  pub samples : ℤ
  pub observed_span_seconds : W
  pub mean_c : W
  pub latest_c : W
  pub slope_c_per_minute : W
  pub maximum_gap_seconds : Option W

-- target_c, tolerance_c, window_seconds and maximum_slope_c_per_minute.
pub record Stability (W : Type 0) : Type 0 where
  pub target_c : W
  pub tolerance_c : W
  pub window_seconds : W
  pub maximum_slope_c_per_minute : W

module _ {W : Type 0} ⦃d : Float W⦄ (b : Builtins W) (floor : W → Result ℤ) where
  unfoldable pub minimum_telemetry_samples : ℤ → ℤ → W → W → Result ℤ
  minimum_telemetry_samples start_ns end_ns interval_ms required_fraction = do
    let duration_ns = end_ns -ℤ start_ns in
        require (ltb_ℤ (pos 0) duration_ns && not (d.le interval_ms nought))
          (value_error "telemetry interval must be positive")
    duration ← b.of_int (end_ns -ℤ start_ns)
    intervals ← floor (d.div duration (d.mul interval_ms (d.decimal 1000000 0)))
    expected ← b.of_int (later_of (pos 1) intervals)
    required ← floor (d.mul expected required_fraction)
    ok (later_of (pos 1) required)

  abbrev pub gap_is_fresh : Option W → Bool
  gap_is_fresh none = false
  gap_is_fresh (some gap) = d.is_finite gap && d.le gap (d.div (d.decimal 300 0) (d.decimal 1000 0))

  -- The summary meets the requirements and the window has enough samples.
  abbrev pub meets : Stability W → ℤ → Summary W → Bool
  meets c required_samples summary =
      not (ltb_ℤ summary.samples required_samples)
      && d.le (d.mul c.window_seconds (d.decimal 99 2)) summary.observed_span_seconds
      && d.le (absolute (d.sub summary.mean_c c.target_c)) c.tolerance_c
      && d.le (absolute (d.sub summary.latest_c c.target_c)) c.tolerance_c
      && d.le (absolute summary.slope_c_per_minute) c.maximum_slope_c_per_minute
      && gap_is_fresh summary.maximum_gap_seconds

  unfoldable pub thermal_window_is_stable : Option (Summary W) → Stability W → Result Bool
  thermal_window_is_stable none c = ok false
  thermal_window_is_stable (some summary) c = do
    window ← window_ns b c.window_seconds
    required_samples ← minimum_telemetry_samples (pos 0) window (d.decimal 100 0) (d.decimal 8 1)
    ok (meets c required_samples summary)
