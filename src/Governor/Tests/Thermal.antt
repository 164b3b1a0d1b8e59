-- ===== src/Governor/Tests/Thermal.antt =====
-- A window of three samples, one without the sensor.
use jetson_dlagreen.Telemetry.Window.{sample_window, sample_window_locked, scan}
use jetson_dlagreen.Common.{
  ℕ, ◌∷◌, [], none, some, String, List, Result, ◌≡◌, ok, refl, err, value_error, false, true, ◌/◌,
  Bool,
}
use jetson_dlagreen.Common.Float.{Micro, micro_float, shrink}
use jetson_dlagreen.Common.Int.{ℤ, pos, ◌*ℤ◌, ◌-ℤ◌, ◌+ℤ◌, pos_part, negsuc}
use jetson_dlagreen.Planner.{Builtins}
use jetson_dlagreen.Governor.Thermal.{
  thermal_window_maximum_gap_seconds, maximum_gap_ns, largest_of, Sample, Summary,
  minimum_telemetry_samples, Stability, thermal_window_is_stable,
}
use jetson_dlagreen.Governor.Thermal.Monitored.{monitor_samples, IsGapOf, run_calls-IsGapOf}
use jetson_dlagreen.Telemetry as Telemetry
use jetson_dlagreen.Telemetry.{Entry, Writer}
use jetson_dlagreen.Telemetry.Fields.{ParsedTegrastats}
use jetson_dlagreen.Telemetry.Monitor.{
  Monitor, Call, a_line, absent, new_monitor, record_line, sample_of, check_entry, available_of,
  append_sample,
}
use jetson_dlagreen.Telemetry.Runs.{run_calls}

abbrev conversions : Builtins Micro
conversions = record {
  of_int = λ n. ok (n *ℤ pos 1000000);
  truncate = λ x. ok (shrink x);
  parse_int = λ s. err (value_error "invalid literal for int()");
}

abbrev sample : ℕ → String → Sample Micro
sample ns sensor = record { monotonic_ns = pos ns; temperatures_c = (sensor, pos 50000000) ∷ [] }

-- Within a window of one second up to the third.
abbrev window : ℤ → ℤ → Result (List (Sample Micro))
window start end =
    ok (sample 2300000000 "tj" ∷ sample 2500000000 "soc012" ∷ sample 2900000000 "tj" ∷ [])

-- 0.3, 0.6 and 0.1 seconds pass between the samples.
gap_run :
    thermal_window_maximum_gap_seconds conversions window "tj" (pos 1000000) (pos 3000000000) none
    ≡ ok (some (pos 600000))
unfolding thermal_window_maximum_gap_seconds maximum_gap_ns largest_of ◌*ℤ◌ ◌-ℤ◌ ◌+ℤ◌
gap_run = refl

abbrev in_millionths : Micro → Result ℤ
in_millionths x = ok (pos (pos_part x / 1000000))

-- 180 seconds at ten samples a second, of which 80 % are required.
samples_run :
    minimum_telemetry_samples conversions in_millionths
      (pos 0)
      (pos 180000000000)
      (pos 100000000)
      (pos 800000)
    ≡ ok (pos 1440)
unfolding minimum_telemetry_samples ◌*ℤ◌ ◌-ℤ◌
samples_run = refl

abbrev summary : ℕ → Summary Micro
summary n = record {
  samples = pos n;
  observed_span_seconds = pos 179500000;
  mean_c = pos 60200000;
  latest_c = pos 60100000;
  slope_c_per_minute = negsuc 99999;
  maximum_gap_seconds = some (pos 200000);
}

abbrev stability : Stability Micro
stability = record {
  target_c = pos 60000000;
  tolerance_c = pos 500000;
  window_seconds = pos 180000000;
  maximum_slope_c_per_minute = pos 200000;
}

stable_run :
    thermal_window_is_stable conversions in_millionths (some (summary 1440)) stability ≡ ok true
unfolding thermal_window_is_stable minimum_telemetry_samples ◌*ℤ◌ ◌-ℤ◌
stable_run = refl

too_few_run :
    thermal_window_is_stable conversions in_millionths (some (summary 1439)) stability ≡ ok false
unfolding thermal_window_is_stable minimum_telemetry_samples ◌*ℤ◌ ◌-ℤ◌
too_few_run = refl

-- Every line carries the sensor.
abbrev parse : List ℕ → ParsedTegrastats Micro
parse line = record {
  ram = none;
  swap = none;
  cpu = [];
  temperatures_c = ("tj", pos 50000000) ∷ [];
  power = [];
  emc = none;
  gr3d = none;
}

abbrev encode : Entry (ParsedTegrastats Micro) String Micro → Result (List ℕ)
encode e = ok []

abbrev blank : String → Bool
blank name = false

abbrev writer : Writer
writer = record {
  lines = [];
  flushed_lines = 0;
  flush = true;
  flush_every = none;
  records_since_flush = 0;
  closed = false;
  last_monotonic_ns = none;
}

abbrev monitor : Monitor (ParsedTegrastats Micro) String Micro
monitor = record {
  writer = writer;
  max_samples = some 2;
  newest_first = [];
  markers = [];
  closed = false;
  last_monotonic_ns = none;
  dropped_samples = 0;
  last_dropped_sample_ns = none;
}

abbrev line_at : ℕ → Call String Micro
line_at ns =
    a_line [] (pos ns) absent (record { written = ok tt; flushed = ok tt; released = ok tt })

-- The first sample is dropped.
abbrev lines : List (Call String Micro)
lines = line_at 2100000000 ∷ line_at 2300000000 ∷ line_at 2900000000 ∷ []

abbrev state :
    List (Telemetry.Sample (ParsedTegrastats Micro) Micro)
    × Monitor (ParsedTegrastats Micro) String Micro
state = run_calls parse encode blank lines ([], monitor)

monitored_run :
    thermal_window_maximum_gap_seconds conversions
      (monitor_samples state.1)
      "tj"
      (pos 1000000)
      (pos 3000000000)
      none
    ≡ ok (some (pos 600000))
unfolding thermal_window_maximum_gap_seconds maximum_gap_ns largest_of ◌*ℤ◌ ◌-ℤ◌ ◌+ℤ◌ sample_window
    sample_window_locked scan run_calls record_line sample_of check_entry available_of
    Telemetry.write Telemetry.write_line Telemetry.after_line Telemetry.flushes append_sample
monitored_run = refl

run_calls-IsGapOf_example :
    IsGapOf conversions state.0 "tj" (pos 1000000) (pos 3000000000) none (pos 600000)
unfolding new_monitor
run_calls-IsGapOf_example =
    run_calls-IsGapOf conversions parse encode blank writer (some (pos 2)) monitor lines "tj"
      (pos 1000000) (pos 3000000000) none (pos 600000) refl monitored_run
