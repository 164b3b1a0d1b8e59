-- ===== src/Telemetry/Tests.antt =====
-- Runs of a writer and of a monitor that retains two samples, whose lines parse to themselves.
use jetson_dlagreen.Telemetry.Summary.Range.{IsRounding, IsSummarized, numeric_summary-IsSummary}
use jetson_dlagreen.Telemetry.Summary.{
  NumericSummary, Statistics, numeric_summary, summary_of, percentile, interpolated,
}
use jetson_dlagreen.Governor.Thermal.{largest_of, maximum_gap_ns}
use jetson_dlagreen.Telemetry.Aggregated.{run_calls-IsHealthy}
use jetson_dlagreen.Telemetry.Ruled.{IsHealthy}
use jetson_dlagreen.Telemetry.Fields.{has_items}
use jetson_dlagreen.Telemetry.Aggregate.{aggregate, latest_valid, latest_observed}
use jetson_dlagreen.Telemetry.Health.{
  Health, Rules, limits_of, all_present, distinct_from, aggregate_samples, check_fields, health_of,
  observed_of, reasons_of, selected_of, valid_of,
}
use jetson_dlagreen.Common.Text.{codes}
use jetson_dlagreen.Telemetry.Retention.{RetainsAll}
use jetson_dlagreen.Common.{
  ℕ, ◌∷◌, [], none, some, err, ok, Bool, true, false, String, List, os_error, str_eq, Result, ◌≡◌,
  refl, arith, map, if◌then◌else◌, value_error, ◌/◌, ◌+◌, ◌≤◌,
}
use jetson_dlagreen.Common.Float.{Micro, micro_float, Micro-IsIeee, ◌≼◌}
use jetson_dlagreen.Common.Int.{pos, pos_part, ◌*ℤ◌, ◌+ℤ◌, ◌-ℤ◌, negsuc}
use jetson_dlagreen.Telemetry.{
  Sample, Entry, sample, marker, Writer, write, write_line, after_line, flushes, new_writer,
  close_writer, Outcome,
}
use jetson_dlagreen.Telemetry.Monitor.{
  Monitor, record_line, mark, close, append_sample, Call, a_line, a_mark, a_close, from_reader,
  sample_of, check_entry, available_of, new_monitor,
}
use jetson_dlagreen.Telemetry.Window.{sample_window, sample_window_locked, SampleWindow, scan}
use jetson_dlagreen.Telemetry.Runs.{run_calls, new_monitor-Retains}
use jetson_dlagreen.Telemetry.Complete.{run_calls-IsAnswer, IsAnswer}
use jetson_dlagreen.Telemetry.Logged.{HasLogAt, run_calls-HasLog}
use jetson_dlagreen.Telemetry.Durability.{write-Leaves, Leaves}

abbrev fine : Outcome
fine = record { written = ok tt; flushed = ok tt; released = ok tt }

abbrev ParsedLine : Type 0
ParsedLine = List ℕ

abbrev LineEntry : Type 0
LineEntry = Entry ParsedLine String Micro

abbrev encode : LineEntry → Result (List ℕ)
encode (sample s) = ok s.raw
encode (marker k) = ok (codes k.name)

-- Flushes every second line.
abbrev writer : Writer
writer = record {
  lines = [];
  flushed_lines = 0;
  flush = false;
  flush_every = some 2;
  records_since_flush = 0;
  closed = false;
  last_monotonic_ns = none;
}

writer_made : new_writer false (some (pos 2)) ≡ ok writer
unfolding new_writer
writer_made = refl

abbrev monitor : Monitor ParsedLine String Micro
monitor = record {
  writer = writer;
  max_samples = some 2;
  newest_first = [];
  markers = [];
  closed = false;
  last_monotonic_ns = none;
  dropped_samples = 0;
  last_dropped_sample_ns = none;
}

abbrev read_at : ℕ → Call String Micro
read_at ns = a_line (b'x' ∷ 13 ∷ 10 ∷ []) (pos ns) (from_reader (ok (pos 5000000))) fine

-- Three samples, a marker, one that regresses, and one whose memory cannot be read.
abbrev calls : List (Call String Micro)
calls =
    read_at 100
    ∷ read_at 200
    ∷ a_mark "start" "" (pos 250) fine
    ∷ read_at 300
    ∷ read_at 290
    ∷ a_line [] (pos 400) (from_reader (err (os_error "meminfo"))) fine
    ∷ a_close fine
    ∷ read_at 500
    ∷ []

abbrev blank : String → Bool
blank name = str_eq name ""

abbrev state : List (Sample ParsedLine Micro) × Monitor ParsedLine String Micro
state = run_calls (λ line. line) encode blank calls ([], monitor)

timestamps :
    (map (λ s. s.monotonic_ns) state.0 ≡ 400 ∷ 300 ∷ 200 ∷ 100 ∷ [])
    × (map (λ s. s.monotonic_ns) state.1.newest_first ≡ 400 ∷ 300 ∷ [])
    × (state.1.last_dropped_sample_ns ≡ some 200)
unfolding run_calls record_line mark close sample_of check_entry available_of append_sample write
    write_line after_line flushes close_writer
timestamps = (refl, refl, refl)

abbrev answer : SampleWindow ParsedLine Micro
answer =
    sample_window_locked state.1 (record { start_ns = 250; end_ns = 400; end_inclusive = true })
      true (some 1)

asked : sample_window state.1 (pos 250) (pos 400) true true (some (pos 1)) ≡ ok answer
unfolding sample_window
asked = refl

run_calls-IsAnswer_example : IsAnswer state.0 (pos 250) (pos 400) true true (some (pos 1)) answer
unfolding new_monitor
run_calls-IsAnswer_example =
    run_calls-IsAnswer (λ line. line) encode blank writer (some (pos 2)) monitor calls (pos 250)
      (pos 400) true true (some (pos 1)) answer refl asked

new_monitor-Retains_example : RetainsAll state
unfolding new_monitor
new_monitor-Retains_example =
    new_monitor-Retains (λ line. line) encode blank writer (some (pos 2)) monitor calls refl

abbrev started : Entry ParsedLine String Micro
started = marker (record { monotonic_ns = 250; name = "start"; metadata = "" })

write-Leaves_example : Leaves writer true (write encode writer started fine)
write-Leaves_example = write-Leaves encode writer started fine refl (omega arith)

-- A sample has its parsed line if it is not empty; no other field is known.
abbrev present : Sample ParsedLine Micro → String → Result Bool
present s field =
    if str_eq field "parsed" then ok (has_items s.parsed) else err (value_error "unknown field")

abbrev empty : Sample ParsedLine Micro
empty = record {
  monotonic_ns = 0;
  raw = [];
  parsed = [];
  mem_available_mb = none;
  collection_errors = [];
}

-- The last sample has an empty line, and is not valid.
abbrev rules : Rules
rules = record {
  required_fields = "parsed" ∷ [];
  minimum_valid_samples = pos 1;
  require_all_samples_valid = false;
  reference_ns = some (pos 420);
  stale_after_ns = some (pos 120);
  maximum_valid_gap_ns = some (pos 100);
  end_inclusive = true;
}

abbrev health : Health
health = record {
  healthy = true;
  reasons = [];
  total_samples = 2;
  valid_samples = 1;
  missing_counts = ("parsed", 1) ∷ [];
  incomplete_samples = 1;
  collection_error_samples = 1;
  last_interval_sample_ns = some 400;
  last_sample_ns = some 400;
  last_valid_sample_ns = some 300;
  stale = false;
  valid_sample_stale = false;
  observed_maximum_valid_gap_ns = some (pos 100);
  valid_gap_exceeded = false;
}

aggregated : aggregate present empty state.1 (pos 250) (pos 400) rules ≡ ok health
unfolding aggregate latest_valid latest_observed all_present distinct_from aggregate_samples ◌-ℤ◌
    largest_of maximum_gap_ns check_fields health_of limits_of observed_of reasons_of selected_of
    valid_of sample_window_locked scan run_calls record_line mark close sample_of check_entry
    available_of append_sample write write_line after_line flushes close_writer
aggregated = refl

run_calls-IsHealthy_example : IsHealthy present state.0 (pos 250) (pos 400) rules
unfolding new_monitor
run_calls-IsHealthy_example =
    run_calls-IsHealthy (λ line. line) encode blank present empty writer (some (pos 2)) monitor
      calls (pos 250) (pos 400) rules health refl aggregated refl

abbrev statistics : Statistics Micro
statistics = record {
  fmean = λ values. pos 0;
  floor = λ x. pos_part x / 1000000;
  ceil = λ x. (pos_part x + 999999) / 1000000;
  str_lt = λ a b. false;
}

abbrev values : List Micro
values = pos 9000000 ∷ pos 2000000 ∷ pos 1000000 ∷ pos 4000000 ∷ []

abbrev summarized : NumericSummary Micro
summarized = record {
  count = 4;
  mean = pos 0;
  min = pos 1000000;
  p50 = pos 3000000;
  p95 = pos 8250000;
  max = pos 9000000;
}

-- 1, 2, 4 and 9: the median is 2 + 0.5 * 2, and the 95th percentile is 0.85 behind 4.
summary : numeric_summary statistics values ≡ ok (some summarized)
unfolding numeric_summary summary_of percentile interpolated ◌*ℤ◌ ◌+ℤ◌ ◌-ℤ◌
summary = refl

floor_within : (x : Micro) (n : ℕ) → x ≼ micro_float.decimal n 0 → statistics.floor x ≤ n
floor_within (pos a) n k = ground arith
floor_within (negsuc a) n k = ground arith

ceil_within : (x : Micro) (n : ℕ) → x ≼ micro_float.decimal n 0 → statistics.ceil x ≤ n
ceil_within (pos a) n k = ground arith
ceil_within (negsuc a) n k = ground arith

statistics-IsRounding : IsRounding statistics
statistics-IsRounding = record {
  floor_within = λ x n h k. floor_within x n k;
  ceil_within = λ x n h k. ceil_within x n k;
}

numeric_summary-IsSummary_example : IsSummarized values (numeric_summary statistics values)
numeric_summary-IsSummary_example =
    numeric_summary-IsSummary Micro-IsIeee statistics statistics-IsRounding values

run_calls-HasLog_example : HasLogAt encode [] state
run_calls-HasLog_example = run_calls-HasLog (λ line. line) encode blank monitor calls
