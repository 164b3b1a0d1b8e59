-- ===== src/Governor/Thermal/Monitored.antt =====
-- The maximum gap of a thermal window, over the samples of the telemetry monitor.
use jetson_dlagreen.Governor.Thermal.Gaps.{IsBetween, thermal_window_maximum_gap_seconds-IsGap}
use jetson_dlagreen.Telemetry.Runs.{new_monitor-Retains}
use jetson_dlagreen.Telemetry.Complete.{sample_window-among}
use jetson_dlagreen.Telemetry.Runs.{run_calls}
use jetson_dlagreen.Governor.Thermal.{
  Sample, timestamps_of, has_sensor, Float, Builtins, seconds_of,
  thermal_window_maximum_gap_seconds, window_ns, earliest,
}
use jetson_dlagreen.Telemetry as Telemetry
use jetson_dlagreen.Telemetry.{Entry, Writer}
use jetson_dlagreen.Telemetry.Fields.{ParsedTegrastats}
use jetson_dlagreen.Telemetry.Monitor.{Monitor, Call, new_monitor}
use jetson_dlagreen.Telemetry.Window.{sample_window}
use jetson_dlagreen.Common.Dict.{IsAmong}
use jetson_dlagreen.Common.{
  ◌∷◌, [], none, true, false, String, List, Result, ok, ◌≡◌, All, map, refl, Bool-cases, ◌>>=◌, inl,
  inr, ℕ, Bool, Option, some, >>=-eq-ok, ◌++◌, subst, ok_injective,
}
use jetson_dlagreen.Common.Int.{ℤ, pos, ◌≤ℤ◌, ◌-ℤ◌}

module _ {W : Type 0} where
  -- What the window reads of a telemetry sample.
  abbrev pub temperatures : Telemetry.Sample (ParsedTegrastats W) W → Sample W
  temperatures s = record {
    monotonic_ns = pos s.monotonic_ns;
    temperatures_c = s.parsed.temperatures_c;
  }

module _ {M W : Type 0} where
  -- monitor.sample_window(start, reference, end_inclusive=True).samples
  abbrev pub monitor_samples : Monitor (ParsedTegrastats W) M W → ℤ → ℤ → Result (List (Sample W))
  monitor_samples m start reference =
      sample_window m start reference true false none >>= (λ w. ok (map temperatures w.samples))

module _ {W : Type 0} where
  -- A time at which a sample of the history with the sensor was taken.
  pub record IsReading (history : List (Telemetry.Sample (ParsedTegrastats W) W)) (sensor : String)
      (point : ℤ) : Type 0 where
    pub taken : Telemetry.Sample (ParsedTegrastats W) W
    pub recorded : IsAmong taken history
    pub carries : has_sensor sensor (temperatures taken) ≡ true
    pub at : point ≡ pos taken.monotonic_ns

  readings :
      (history : List (Telemetry.Sample (ParsedTegrastats W) W)) (sensor : String)
      (samples : List (Telemetry.Sample (ParsedTegrastats W) W))
      → All (λ s. IsAmong s history) samples
      → All (IsReading history sensor) (timestamps_of sensor (map temperatures samples))
  readings history sensor [] h = tt
  readings history sensor (s ∷ samples) (h, hs) =
      elim (Bool-cases (has_sensor sensor (temperatures s))) [
        | inl e ↦ rw e (
          record { taken = s; recorded = h; carries = e; at = refl },
          readings history sensor samples hs,
        )
        | inr e ↦ rw e (readings history sensor samples hs)
      ]

module _ {W : Type 0} ⦃d : Float W⦄ (b : Builtins W) where
  -- The gap of a window: each instant of it, from its start to the reference, is between two points
  -- that are no further apart, of the readings of the history and the ends of the window.
  pub record IsGapOf (history : List (Telemetry.Sample (ParsedTegrastats W) W)) (sensor : String)
      (window_seconds : W) (reference_ns : ℤ) (not_before_ns : Option ℤ) (seconds : W)
      : Type 0 where
    pub gap : ℤ
    pub window : ℤ
    pub points : List ℤ
    pub in_seconds : seconds_of b (some gap) ≡ ok (some seconds)
    pub in_nanoseconds : window_ns b window_seconds ≡ ok window
    pub are_readings : All (IsReading history sensor) points
    pub bounds :
        (t : ℤ)
        → earliest (reference_ns -ℤ window) not_before_ns ≤ℤ t
        → t ≤ℤ reference_ns
        → IsBetween gap t
            (earliest (reference_ns -ℤ window) not_before_ns ∷ points)
            (points ++ (reference_ns ∷ []))

module _ {M W : Type 0} ⦃d : Float W⦄ (b : Builtins W) (parse : List ℕ → ParsedTegrastats W)
    (encode : Entry (ParsedTegrastats W) M W → Result (List ℕ)) (blank : String → Bool) where
  -- After any calls of a new telemetry monitor, a maximum gap that
  -- thermal_window_maximum_gap_seconds returns for its samples is such that each instant of the
  -- window, from its start to the reference, lies between two points no further apart than it: the
  -- window's ends, and times of samples with the sensor that the calls returned.
  pub run_calls-IsGapOf :
      (writer : Writer) (max_samples : Option ℤ) (m : Monitor (ParsedTegrastats W) M W)
      (calls : List (Call M W)) (sensor : String) (window_seconds : W) (reference_ns : ℤ)
      (not_before_ns : Option ℤ) (seconds : W)
      → new_monitor writer max_samples ≡ ok m
      → thermal_window_maximum_gap_seconds b
          (monitor_samples (run_calls parse encode blank calls ([], m)).1)
          sensor
          window_seconds
          reference_ns
          not_before_ns
        ≡ ok (some seconds)
      → IsGapOf b
          (run_calls parse encode blank calls ([], m)).0
          sensor
          window_seconds
          reference_ns
          not_before_ns
          seconds
  run_calls-IsGapOf writer max_samples m calls sensor window_seconds reference_ns not_before_ns
        seconds h e =
      let state = run_calls parse encode blank calls ([], m) in
      let found =
        thermal_window_maximum_gap_seconds-IsGap b (monitor_samples state.1) sensor window_seconds
          reference_ns not_before_ns seconds e in
      let start = earliest (reference_ns -ℤ found.window) not_before_ns in
      let (w, asked, same) =
        >>=-eq-ok (sample_window state.1 start reference_ns true false none) _ found.are_samples in
      let among =
        sample_window-among state.0 state.1 start reference_ns true w
          (new_monitor-Retains parse encode blank writer max_samples m calls h) asked in
      record {
        gap = found.gap;
        window = found.window;
        points = timestamps_of sensor found.samples;
        in_seconds = found.in_seconds;
        in_nanoseconds = found.in_nanoseconds;
        are_readings =
            subst (λ xs. All (IsReading state.0 sensor) (timestamps_of sensor xs))
              (ok_injective same) (readings state.0 sensor w.samples among);
        bounds = found.bounds;
      }
