-- ===== src/Telemetry/Aggregate.antt =====
-- aggregate of the monitor in runtime/tegrastats_telemetry.py: the health of a window of its samples
-- together with the newest ones that bear on freshness.
use jetson_dlagreen.Common.{
  ℕ, suc, ◌∷◌, [], none, some, Bool, false, String, List, Result, Option, if◌then◌else◌, ◌++◌, ok,
  ◌==◌, ltb, ◌>>=◌,
}
use jetson_dlagreen.Common.Int.{ℤ}
use jetson_dlagreen.Telemetry.{Sample, validated_monotonic_ns}
use jetson_dlagreen.Telemetry.Monitor.{Monitor}
use jetson_dlagreen.Telemetry.Window.{Interval, is_in_interval, sample_window_locked}
use jetson_dlagreen.Telemetry.Health.{
  Rules, Health, all_present, reference_of, distinct_from, aggregate_samples,
}

module _ {P W : Type 0} where
  -- The first sample at or before the reference, newest first, with its position.
  unfoldable pub latest_observed : ℕ → ℕ → List (Sample P W) → Option (ℕ × Sample P W)
  latest_observed reference position [] = none
  latest_observed reference position (s ∷ older) =
      let rest = latest_observed reference (suc position) older in
      if ltb reference s.monotonic_ns then rest else some (position, s)

  -- A sample object that the window does not hold, which has those in the interval.
  abbrev pub unless_in_window : Interval → Option (ℕ × Sample P W) → List (Sample P W)
  unless_in_window i none = []
  unless_in_window i (some (position, s)) = if is_in_interval i s then [] else s ∷ []

  abbrev pub is_at : ℕ → Option (ℕ × Sample P W) → Bool
  is_at position none = false
  is_at position (some (other, s)) = position == other

  -- The latest valid sample, unless it is the latest one.
  abbrev pub unless_same :
      Option (ℕ × Sample P W) → Option (ℕ × Sample P W) → Option (ℕ × Sample P W)
  unless_same observed none = none
  unless_same observed (some (position, s)) =
      if is_at position observed then none else some (position, s)

module _ {P W : Type 0} (present : Sample P W → String → Result Bool) where
  unfoldable pub latest_valid :
      List String → ℕ → ℕ → List (Sample P W) → Result (Option (ℕ × Sample P W))
  latest_valid required reference position [] = ok none
  latest_valid required reference position (s ∷ older) =
      let rest = latest_valid required reference (suc position) older in
      let tested =
        all_present present required s
        >>= (λ valid. if valid then ok (some (position, s)) else rest) in
      if ltb reference s.monotonic_ns then rest else tested

abbrev pub interval_of : ℕ → ℕ → Bool → Interval
interval_of start_ns end_ns end_inclusive = record {
  start_ns = start_ns;
  end_ns = end_ns;
  end_inclusive = end_inclusive;
}

-- What a truncated retention does to the health.
abbrev pub with_retention : Bool → Health → Health
with_retention interval_complete health =
    if interval_complete
    then health
    else record health { healthy = false; reasons = health.reasons ++ ("retention_truncated" ∷ []) }

module _ {P M W : Type 0} (present : Sample P W → String → Result Bool) where
  unfoldable pub aggregate : Sample P W → Monitor P M W → ℤ → ℤ → Rules → Result Health
  aggregate empty m start_ns end_ns rules = do
    start ← validated_monotonic_ns start_ns
    end ← validated_monotonic_ns end_ns
    reference ← reference_of rules.reference_ns end
    let interval = interval_of start end rules.end_inclusive
    let window = sample_window_locked m interval false none
    let observed = latest_observed reference 0 m.newest_first
    valid ← latest_valid present (distinct_from [] rules.required_fields) reference 0 m.newest_first
    health ←
        aggregate_samples present empty
          (window.samples
            ++ unless_in_window interval observed
            ++ unless_in_window interval (unless_same observed valid))
          start_ns end_ns rules
    ok (with_retention window.interval_complete health)
