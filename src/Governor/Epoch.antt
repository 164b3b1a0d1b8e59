-- ===== src/Governor/Epoch.antt =====
-- The epochs of one policy: run_policy of runtime/mig_slack_governor.py. The processes, their clocks
-- and the telemetry are a parameter: for each epoch, the plan and the guard, `measure` returns what
-- the critical benchmark, the workers and the monitor reported, or the error that was raised.
pub mod Safety
pub mod Reports
use jetson_dlagreen.Common.Int.{pos}
use jetson_dlagreen.Governor.Placement.{
  FeedbackState, PlacementPlan, initial_state, resident_1g, borrower_2g, plan_for,
}
use jetson_dlagreen.Governor.Workload.{Modality, offered_for_epoch}
use jetson_dlagreen.Governor.Results.{WorkerResult, completed_by, on_placement}
use jetson_dlagreen.Governor.Guard.{GuardProfile, guard_for}
use jetson_dlagreen.Governor.Feedback.{ControllerAction, fail_closed_feedback, update_feedback}
use jetson_dlagreen.Common.{
  ℕ, String, Bool, List, Option, some, if◌then◌else◌, ◌||◌, false, true, not, ◌∷◌, none, leb,
  str_eq, ◌&&◌, ltb, [], Result, ok, map, suc, length, ◌-◌, ◌>>◌, ◌>>=◌, require, zero,
  runtime_error,
}
use jetson_dlagreen.Common.Float.{Float, nought, min_from}

-- The command-line values that the epochs read.
pub record Settings (W : Type 0) : Type 0 where
  pub scenario : String
  pub borrower_quota : ℕ
  pub guard_override_ms : Option W
  pub period_ms : W
  pub deadline_ms : W
  pub dmr_target : W
  pub thermal_target_c : Option W
  pub thermal_tolerance_c : W
  pub thermal_hard_limit_c : W
  pub profile_guard_ms : GuardProfile W

-- A healthy summary has the maximum of the safety sensor, and perhaps that of the stability sensor.
pub data Telemetry (W : Type 0) : Type 0 where
  unhealthy : Telemetry W
  healthy : (safety_max_c : W) (stability_max_c : Option W) → Telemetry W

-- What an epoch's processes reported; `deadline_miss_rate` may be null.
pub record Measurement (W : Type 0) : Type 0 where
  pub release_ns : ℕ
  pub start_ns : ℕ
  pub end_ns : ℕ
  pub collected_ns : ℕ
  pub cleanup_ns : ℕ
  pub measurement_seconds : W
  pub p99_ms : W
  pub deadline_misses : ℕ
  pub deadline_miss_rate : Option W
  pub drain_max_ms : W
  pub telemetry : Telemetry W
  pub workers : List (WorkerResult W)

pub data EpochAction : Type 0 where
  not_applicable telemetry_fail_closed : EpochAction
  feedback : ControllerAction → EpochAction

pub record EpochReport (W : Type 0) : Type 0 where
  pub offered : List Modality
  pub plan : PlacementPlan
  pub guard_ms : W
  pub state_before : FeedbackState W
  pub state_after : FeedbackState W
  pub controller_action : EpochAction
  pub violated : Bool
  pub drain_near_overrun : Bool
  pub thermal_high : Bool
  pub telemetry_unhealthy : Bool
  pub deadline_misses : ℕ
  pub resident_completed : ℕ
  pub borrower_completed : ℕ
  pub rejected_tenants : ℕ
  pub measurement_seconds : W

-- release <= worker start <= start < end <= worker end <= cleanup, for every worker.
abbrev pub windows_nested : {W : Type 0} → Measurement W → List (WorkerResult W) → Bool
windows_nested m [] = true
windows_nested m (r ∷ rs) =
    (leb m.release_ns r.measurement_start_ns
      && (leb r.measurement_start_ns m.start_ns
          && (ltb m.start_ns m.end_ns
              && (leb m.end_ns r.measurement_end_ns && leb r.measurement_end_ns m.cleanup_ns))))
    && windows_nested m rs

module _ {W : Type 0} ⦃d : Float W⦄ where
  -- float(critical["deadline_miss_rate"] or 0.0)
  abbrev pub miss_rate : Measurement W → W
  miss_rate m = elim m.deadline_miss_rate [ some r ↦ r | none ↦ nought ]

  abbrev pub is_violated : Settings W → Measurement W → Bool
  is_violated c m = d.lt c.deadline_ms m.p99_ms || d.lt c.dmr_target (miss_rate m)

  -- guard_ms > 0.0 and drain_max_ms / guard_ms >= 0.8
  abbrev pub is_near_overrun : W → Measurement W → Bool
  is_near_overrun guard_ms m =
      if d.lt nought guard_ms then d.le (d.decimal 8 1) (d.div m.drain_max_ms guard_ms) else false

  abbrev pub is_unhealthy : Telemetry W → Bool
  is_unhealthy unhealthy = true
  is_unhealthy (healthy safety stability) = false

  abbrev pub is_over_limit : Settings W → Telemetry W → Bool
  is_over_limit c unhealthy = false
  is_over_limit c (healthy safety stability) = d.le c.thermal_hard_limit_c safety

  abbrev pub is_thermal_high : Settings W → Telemetry W → Bool
  is_thermal_high c unhealthy = false
  is_thermal_high c (healthy safety none) = false
  is_thermal_high c (healthy safety (some stability)) = elim c.thermal_target_c [
    | none ↦ false
    | some target ↦ d.lt (d.add target c.thermal_tolerance_c) stability
  ]

  -- The controller at the end of an epoch.
  unfoldable pub control :
      String → Settings W → FeedbackState W → W → Measurement W → FeedbackState W × EpochAction
  control policy c s guard_ms m =
      if not (str_eq policy "mig-governor")
      then (s, not_applicable)
      else if is_unhealthy m.telemetry
      then (fail_closed_feedback s, telemetry_fail_closed)
      else let (t, action) = update_feedback s (record {
        violated = is_violated c m;
        critical_p99_ms = m.p99_ms;
        deadline_ms = c.deadline_ms;
        drain_near_overrun = is_near_overrun guard_ms m;
        residual_pressure = is_thermal_high c m.telemetry;
        maximum_tenants = 6;
      }) in
        (t, feedback action)

  -- min(worker_windows) <= 0.0
  abbrev pub some_window_empty : List (WorkerResult W) → Bool
  some_window_empty [] = true
  some_window_empty (r ∷ rs) =
      d.le (min_from r.elapsed_seconds (map (λ w. w.elapsed_seconds) rs)) nought

  -- The checks on a measurement, in the order in which run_policy makes them.
  unfoldable pub check_measurement : Settings W → Measurement W → Result (Unit {0})
  check_measurement c m = do
    require (leb m.release_ns m.start_ns && ltb m.start_ns m.end_ns)
        (runtime_error "benchmark returned inconsistent measurement clocks")
    require (leb m.end_ns m.collected_ns)
        (runtime_error "benchmark measurement end is in the future")
    require (windows_nested m m.workers)
        (runtime_error "worker returned an inconsistent measurement window")
    require (not (d.le m.measurement_seconds nought))
        (runtime_error "critical benchmark reported an invalid window")
    require (not (is_over_limit c m.telemetry)) (runtime_error "reached the thermal hard limit")
    require (not (some_window_empty m.workers))
        (runtime_error "workers reported an invalid measurement window")

  abbrev pub report :
      Settings W
      → List Modality
      → PlacementPlan
      → W
      → FeedbackState W
      → Measurement W
      → FeedbackState W × EpochAction
      → EpochReport W
  report c offered plan guard_ms s m (t, action) = record {
    offered = offered;
    plan = plan;
    guard_ms = guard_ms;
    state_before = s;
    state_after = t;
    controller_action = action;
    violated = is_violated c m;
    drain_near_overrun = is_near_overrun guard_ms m;
    thermal_high = is_thermal_high c m.telemetry;
    telemetry_unhealthy = is_unhealthy m.telemetry;
    deadline_misses = m.deadline_misses;
    resident_completed = completed_by (on_placement resident_1g) m.workers;
    borrower_completed = completed_by (on_placement borrower_2g) m.workers;
    rejected_tenants = length offered - length plan.residents - length plan.borrowers;
    measurement_seconds = m.measurement_seconds;
  }

  -- One round of the loop.
  unfoldable pub run_epoch :
      String
      → Settings W
      → (ℕ → PlacementPlan → W → Result (Measurement W))
      → FeedbackState W
      → ℕ
      → Result (EpochReport W)
  run_epoch policy c measure s epoch_index = do
    offered ← offered_for_epoch (pos epoch_index) c.scenario
    plan ← plan_for policy offered s c.borrower_quota
    guard_ms ← guard_for policy plan c.profile_guard_ms c.guard_override_ms
    require (not (d.le c.period_ms guard_ms)) (runtime_error "guard does not fit period")
    m ← measure epoch_index plan guard_ms
    check_measurement c m
    ok (report c offered plan guard_ms s m (control policy c s guard_ms m))

  -- `count` rounds from `epoch_index` on.
  unfoldable pub run_epochs :
      String
      → Settings W
      → (ℕ → PlacementPlan → W → Result (Measurement W))
      → FeedbackState W
      → ℕ
      → ℕ
      → Result (List (EpochReport W))
  run_epochs policy c measure s epoch_index zero = ok []
  run_epochs policy c measure s epoch_index (suc count) = do
    r ← run_epoch policy c measure s epoch_index
    rest ← run_epochs policy c measure r.state_after (suc epoch_index) count
    ok (r ∷ rest)

  unfoldable pub run_policy :
      String
      → Settings W
      → (ℕ → PlacementPlan → W → Result (Measurement W))
      → ℕ
      → Result (List (EpochReport W))
  run_policy policy c measure epochs = run_epochs policy c measure initial_state 0 epochs
