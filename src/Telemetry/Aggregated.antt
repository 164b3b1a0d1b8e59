-- ===== src/Telemetry/Aggregated.antt =====
-- A healthy aggregate of a monitor after any calls, and the samples that the calls returned.
mod Fresh
use jetson_dlagreen.Telemetry.Ruled.{IsHealthy, limits_of-IsHealthy}
use jetson_dlagreen.Telemetry.Aggregated.Fresh.{
  Holds, HoldsIfOk, latest_observed-Holds, latest_valid-Holds, with_fresh, with_fresh-keep,
  with_fresh-All, kept_in_order, IsAmong-retained,
}
use jetson_dlagreen.Telemetry.Runs.{run_calls, new_monitor-Retains}
use jetson_dlagreen.Telemetry.Healthy.{
  MeetsLimits, number, number-reverse, reverse-All, keep_all, health_of-MeetsLimits,
}
use mathlib.Core.List.{reverse}
use jetson_dlagreen.Telemetry.Retention.{Retains}
use jetson_dlagreen.Telemetry.Monitor.{Monitor, Call, new_monitor}
use jetson_dlagreen.Common.Sorting.{IsAmong-All, keep-All}
use jetson_dlagreen.Telemetry.Complete.{keep-append, sample_window_locked-Answers}
use jetson_dlagreen.Common.Dict.{keep, IsAmong}
use jetson_dlagreen.Telemetry.Aggregate.{
  latest_observed, latest_valid, unless_same, unless_in_window, is_at, with_retention, aggregate,
  interval_of,
}
use jetson_dlagreen.Common.{
  ℕ, suc, ◌∷◌, [], none, some, inl, inr, Bool, true, false, String, List, Result, Option, All, err,
  ◌>>=◌, if◌then◌else◌, if_either, ok, ◌≡◌, ltb, Bool-cases, refl, ◌++◌, All-append_split,
  append-nil, All-append, All-map, ap, subst, sym, length, ◌∙◌, >>=-eq-ok, ok_injective, require,
  not,
}
use jetson_dlagreen.Telemetry.{Sample, ℤ, validated_monotonic_ns, Float, Entry, Writer}
use jetson_dlagreen.Telemetry.Window.{Interval, is_in_interval, sample_window_locked}
use jetson_dlagreen.Telemetry.Health.{
  all_present, Health, Limits, health_of, is_valid, limits_of, aggregate_samples, Rules,
  reference_of, distinct_from, checked_minimum, validated_or_none, is_zero, check_fields,
}

-- What holds of a result that is there.
record OkHolds {A : Type 0} (Q : A → Type 0) (result : Result A) : Type 0 where
  pub of_value : (value : A) → result ≡ ok value → Q value

OkHolds-ok : {A : Type 0} (Q : A → Type 0) (a : A) → Q a → OkHolds Q (ok a)
OkHolds-ok Q a h = record { of_value = λ value e. subst Q (ok_injective e) h }

OkHolds-bind :
    {A B : Type 0} (Q : B → Type 0) (first : Result A) (next : A → Result B)
    → ((a : A) → first ≡ ok a → OkHolds Q (next a))
    → OkHolds Q (first >>= next)
OkHolds-bind Q first next h = record {
  of_value = λ value e. let (a, f, k) = >>=-eq-ok first next e in (h a f).of_value value k;
}

-- A healthy result has a complete retention and a healthy assessment.
healthy_retention :
    (complete : Bool) (health : Health)
    → (with_retention complete health).healthy ≡ true
    → (complete ≡ true) × (health.healthy ≡ true)
healthy_retention true health h = (refl, h)
healthy_retention false health h = cc

module _ {P W : Type 0} (present : Sample P W → String → Result Bool) (empty : Sample P W) where
  -- The interval of the limits is the one that was asked for.
  limits_of-interval :
      (start_ns end_ns : ℤ) (start end : ℕ) (rules : Rules)
      → validated_monotonic_ns start_ns ≡ ok start
      → validated_monotonic_ns end_ns ≡ ok end
      → OkHolds
          (λ limits. limits.interval ≡ interval_of start end rules.end_inclusive)
          (limits_of present empty start_ns end_ns rules)
  unfolding limits_of
  limits_of-interval start_ns end_ns start end rules e f =
      let Q = λ (limits : Limits). limits.interval ≡ interval_of start end rules.end_inclusive in
      OkHolds-bind Q (validated_monotonic_ns start_ns) _ (λ start' e'.
        OkHolds-bind Q (validated_monotonic_ns end_ns) _ (λ end' f'.
          OkHolds-bind Q (require (ltb start' end') _) _ (λ u1 h1.
            OkHolds-bind Q (checked_minimum rules.minimum_valid_samples) _ (λ minimum h2.
              OkHolds-bind Q (validated_or_none rules.stale_after_ns) _ (λ stale_after h3.
                OkHolds-bind Q (validated_or_none rules.maximum_valid_gap_ns) _ (λ maximum_gap h4.
                  OkHolds-bind Q (require (not (is_zero maximum_gap)) _) _ (λ u2 h5.
                    OkHolds-bind Q (reference_of rules.reference_ns end') _ (λ reference h6.
                      OkHolds-bind Q (require (not (ltb reference end')) _) _ (λ u3 h7.
                        OkHolds-bind Q
                          (check_fields present empty (distinct_from [] rules.required_fields)) _
                          (λ u4 h8. OkHolds-ok Q _ (
                            ap (λ a. interval_of a end' rules.end_inclusive)
                              (ok_injective (sym e' ∙ e))
                            ∙ ap (λ b. interval_of start b rules.end_inclusive)
                                (ok_injective (sym f' ∙ f)))))))))))))

module _ {P M W : Type 0} (present : Sample P W → String → Result Bool) (empty : Sample P W) where
  assessed-MeetsLimits :
      (history : List (Sample P W)) (m : Monitor P M W) (reference : ℕ) (required : List String)
      (valid : Option (ℕ × Sample P W)) (limits : Limits)
      → Retains history m
      → latest_valid present required reference 0 m.newest_first ≡ ok valid
      → (sample_window_locked m limits.interval false none).interval_complete ≡ true
      → (health_of present limits (
          with_fresh limits.interval
            (sample_window_locked m limits.interval false none).samples
            (latest_observed reference 0 m.newest_first)
            valid)).healthy
        ≡ true
      → MeetsLimits present history limits
  unfolding sample_window_locked
  assessed-MeetsLimits history m reference required valid limits r e complete healthy =
      let i = limits.interval in
      let test = is_valid present limits.required in
      let observed = latest_observed reference 0 m.newest_first in
      let samples = (sample_window_locked m i false none).samples in
      let (in_order, limit) =
        (sample_window_locked-Answers history m i false none r).is_complete complete in
      let (among, same) = kept_in_order history i test in
      let retained =
        subst (λ h. All (λ s. IsAmong s h) m.newest_first) (sym r.is_all)
          (IsAmong-retained m.newest_first r.dropped) in
      health_of-MeetsLimits present history (with_fresh i samples observed valid) limits
        (with_fresh-All (λ s. IsAmong s history) i samples observed valid
          (subst (All (λ s. IsAmong s history)) (sym in_order) among)
          (latest_observed-Holds (λ s. IsAmong s history) reference 0 m.newest_first retained)
          (subst (HoldsIfOk (λ s. IsAmong s history)) e (
            latest_valid-Holds present (λ s. IsAmong s history) required reference 0 m.newest_first
              retained)))
        (ap (λ zs. number test zs)
            (with_fresh-keep i samples observed valid ∙ ap (keep (is_in_interval i)) in_order)
          ∙ same)
        healthy

  -- What the last steps of the aggregate say, from the valid sample on.
  closing-MeetsLimits :
      (history : List (Sample P W)) (m : Monitor P M W) (start_ns end_ns : ℤ)
      (start end reference : ℕ) (rules : Rules) (required : List String)
      (valid : Option (ℕ × Sample P W)) (assessed : Health)
      → Retains history m
      → validated_monotonic_ns start_ns ≡ ok start
      → validated_monotonic_ns end_ns ≡ ok end
      → latest_valid present required reference 0 m.newest_first ≡ ok valid
      → aggregate_samples present empty
          (with_fresh
            (interval_of start end rules.end_inclusive)
            (sample_window_locked m (interval_of start end rules.end_inclusive) false none).samples
            (latest_observed reference 0 m.newest_first)
            valid)
          start_ns
          end_ns
          rules
        ≡ ok assessed
      → (sample_window_locked m
          (interval_of start end rules.end_inclusive)
          false
          none).interval_complete
        ≡ true
      → assessed.healthy ≡ true
      → (limits : Limits) × (limits_of present empty start_ns end_ns rules ≡ ok limits)
        × MeetsLimits present history limits
  unfolding aggregate_samples
  closing-MeetsLimits history m start_ns end_ns start end reference rules required valid assessed r
        e f v h complete healthy =
      let (limits, g, k) = >>=-eq-ok (limits_of present empty start_ns end_ns rules) _ h in
      let same : limits.interval ≡ interval_of start end rules.end_inclusive =
        (limits_of-interval present empty start_ns end_ns start end rules e f).of_value limits g in
      let assess = λ (i : Interval). health_of present limits (
        with_fresh i (sample_window_locked m i false none).samples
          (latest_observed reference 0 m.newest_first) valid) in
      (
        limits,
        g,
        assessed-MeetsLimits history m reference required valid limits r v
            (subst (λ i. (sample_window_locked m i false none).interval_complete ≡ true) (sym same)
              complete)
            (subst (λ i. (assess i).healthy ≡ true) (sym same)
              (subst (λ (x : Health). x.healthy ≡ true) (sym (ok_injective k)) healthy)),
      )

  aggregate-MeetsLimits :
      (history : List (Sample P W)) (m : Monitor P M W) (start_ns end_ns : ℤ) (rules : Rules)
      (health : Health)
      → Retains history m
      → aggregate present empty m start_ns end_ns rules ≡ ok health
      → health.healthy ≡ true
      → (limits : Limits) × (limits_of present empty start_ns end_ns rules ≡ ok limits)
        × MeetsLimits present history limits
  unfolding aggregate
  aggregate-MeetsLimits history m start_ns end_ns rules health r h healthy =
      let (start, e, h1) = >>=-eq-ok (validated_monotonic_ns start_ns) _ h in
      let (end, f, h2) = >>=-eq-ok (validated_monotonic_ns end_ns) _ h1 in
      let (reference, g, h3) = >>=-eq-ok (reference_of rules.reference_ns end) _ h2 in
      let (valid, v, h4) =
        >>=-eq-ok
          (latest_valid present (distinct_from [] rules.required_fields) reference 0 m.newest_first)
          _ h3 in
      let (assessed, k, h5) =
        >>=-eq-ok (aggregate_samples present empty _ start_ns end_ns rules) _ h4 in
      let (complete, fine) =
        healthy_retention _ assessed
          (subst (λ (x : Health). x.healthy ≡ true) (sym (ok_injective h5)) healthy) in
      closing-MeetsLimits history m start_ns end_ns start end reference rules
        (distinct_from [] rules.required_fields) valid assessed r e f v k complete fine

module _ {P M W : Type 0} ⦃d : Float W⦄ (parse : List ℕ → P)
    (encode : Entry P M W → Result (List ℕ)) (blank : String → Bool)
    (present : Sample P W → String → Result Bool) (empty : Sample P W) where
  -- After any calls of a new monitor, an aggregate that returns a healthy result speaks of all the
  -- samples that the calls returned, retained or dropped: at least as many of them as the rules'
  -- minimum lie between the start and the end and have every field that the rules require; and if
  -- the rules bound the gap, each instant from the start to the end lies between two points, each
  -- the time of such a sample or the start or the end, that are at most that bound apart.
  pub run_calls-IsHealthy :
      (writer : Writer) (max_samples : Option ℤ) (m : Monitor P M W) (calls : List (Call M W))
      (start_ns end_ns : ℤ) (rules : Rules) (health : Health)
      → new_monitor writer max_samples ≡ ok m
      → aggregate present empty (run_calls parse encode blank calls ([], m)).1 start_ns end_ns rules
        ≡ ok health
      → health.healthy ≡ true
      → IsHealthy present (run_calls parse encode blank calls ([], m)).0 start_ns end_ns rules
  run_calls-IsHealthy writer max_samples m calls start_ns end_ns rules health h e healthy =
      let state = run_calls parse encode blank calls ([], m) in
      let (limits, l, meets) =
        aggregate-MeetsLimits present empty state.0 state.1 start_ns end_ns rules health
          (new_monitor-Retains parse encode blank writer max_samples m calls h) e healthy in
      limits_of-IsHealthy present empty state.0 start_ns end_ns rules limits l meets
