-- ===== src/Telemetry/Window.antt =====
-- sample_window of the monitor in runtime/tegrastats_telemetry.py.
use mathlib.Core.List.{reverse}
use jetson_dlagreen.Common.{
  ℕ, suc, ◌∷◌, [], none, some, Bool, true, false, List, ltb, Option, ◌-◌, ◌||◌, ◌==◌, Result, leb,
  if◌then◌else◌, ◌&&◌, ◌>>=◌, ok, not, err, ◌>>◌, value_error, require,
}
use jetson_dlagreen.Common.Int.{ℤ, pos}
use jetson_dlagreen.Telemetry.{Sample, validated_monotonic_ns}
use jetson_dlagreen.Telemetry.Monitor.{Monitor, last_item}

-- start_ns, end_ns and end_inclusive.
pub record Interval : Type 0 where
  pub start_ns : ℕ
  pub end_ns : ℕ
  pub end_inclusive : Bool

pub record SampleWindow (P W : Type 0) : Type 0 where
  pub samples : List (Sample P W)
  pub interval : Interval
  pub reverse : Bool
  pub limit : Option ℕ
  pub limit_reached : Bool
  pub bounded_retention : Bool
  pub max_samples : Option ℕ
  pub dropped_samples : ℕ
  pub last_dropped_sample_ns : Option ℕ
  pub earliest_retained_sample_ns : Option ℕ
  pub interval_complete : Bool

-- timestamp > end_ns or (timestamp == end_ns and not end_inclusive)
abbrev pub is_after : Interval → ℕ → Bool
is_after i timestamp = ltb i.end_ns timestamp || timestamp == i.end_ns && not i.end_inclusive

-- limit is not None and len(selected_reverse) == limit, by the room that is left.
abbrev pub no_room : Option ℕ → Bool
no_room none = false
no_room (some room) = room == 0

abbrev pub one_less : Option ℕ → Option ℕ
one_less none = none
one_less (some room) = some (room - 1)

abbrev pub is_given : Option ℕ → Bool
is_given none = false
is_given (some n) = true

abbrev pub reaches_back : Option ℕ → ℕ → Bool
reaches_back none start_ns = false
reaches_back (some last_dropped_ns) start_ns = leb start_ns last_dropped_ns

abbrev pub checked_limit : Option ℤ → Result (Option ℕ)
checked_limit none = ok none
checked_limit (some (pos (suc n))) = ok (some (suc n))
checked_limit (some _) = err (value_error "sample query limit must be positive")

module _ {P W : Type 0} where
  abbrev pub selected : Sample P W → List (Sample P W) × Bool → List (Sample P W) × Bool
  selected s (samples, limit_reached) = (s ∷ samples, limit_reached)

  -- The loop over the samples, newest first: those selected, and whether the limit ended it.
  unfoldable pub scan : Interval → Option ℕ → List (Sample P W) → List (Sample P W) × Bool
  scan i room [] = ([], false)
  scan i room (s ∷ older) =
      let skipped = scan i room older in
      let taken = selected s (scan i (one_less room) older) in
      if is_after i s.monotonic_ns
      then skipped
      else if ltb s.monotonic_ns i.start_ns
      then ([], false)
      else if no_room room
      then ([], true)
      else taken

  -- start_ns <= timestamp, and before the end or at an inclusive one.
  abbrev pub is_in_interval : Interval → Sample P W → Bool
  is_in_interval i s = leb i.start_ns s.monotonic_ns && not (is_after i s.monotonic_ns)

  -- self._samples[0].monotonic_ns, if there is one.
  abbrev pub oldest_ns : List (Sample P W) → Option ℕ
  oldest_ns [] = none
  oldest_ns (s ∷ older) = some (last_item s older).monotonic_ns

module _ {P M W : Type 0} where
  unfoldable pub sample_window_locked :
      Monitor P M W → Interval → Bool → Option ℕ → SampleWindow P W
  sample_window_locked m i in_reverse limit =
      let found = scan i limit m.newest_first in
      record {
        samples = if in_reverse then found.0 else reverse found.0;
        interval = i;
        reverse = in_reverse;
        limit = limit;
        limit_reached = found.1;
        bounded_retention = is_given m.max_samples;
        max_samples = m.max_samples;
        dropped_samples = m.dropped_samples;
        last_dropped_sample_ns = m.last_dropped_sample_ns;
        earliest_retained_sample_ns = oldest_ns m.newest_first;
        interval_complete = not (reaches_back m.last_dropped_sample_ns i.start_ns);
      }

  unfoldable pub sample_window :
      Monitor P M W → ℤ → ℤ → Bool → Bool → Option ℤ → Result (SampleWindow P W)
  sample_window m start_ns end_ns end_inclusive in_reverse limit = do
    start ← validated_monotonic_ns start_ns
    end ← validated_monotonic_ns end_ns
    require (not (ltb end start)) (value_error "the telemetry query interval must not regress")
    room ← checked_limit limit
    ok (
        sample_window_locked m
          (record { start_ns = start; end_ns = end; end_inclusive = end_inclusive }) in_reverse
          room)
