-- ===== src/Governor/Tests/Run.antt =====
-- Instances of the theorems on the epochs of a policy.
use jetson_dlagreen.Governor.Tests.Fixtures.{even_profile, full_offer, governor_start, mixed_plan}
use jetson_dlagreen.Governor.Epoch.Reports.{telemetry_lost-one_resident, run_epoch-accounts}
use jetson_dlagreen.Governor.Results.{completed_by}
use jetson_dlagreen.Governor.Results.Totals.{completed, shares_of, resident_share, borrower_share}
use jetson_dlagreen.Governor.Epoch.Safety.{Chain, IsSound, run_policy-IsSound}
use jetson_dlagreen.Governor.Epoch.{
  EpochReport, Measurement, Settings, run_policy, run_epochs, run_epoch, unhealthy, healthy,
  not_applicable, control, check_measurement,
}
use jetson_dlagreen.Governor.Placement.Partition.{resident}
use jetson_dlagreen.Governor.Workload.{offered_for_epoch, audio, language}
use jetson_dlagreen.Governor.Feedback.{update_feedback, fail_closed_feedback}
use jetson_dlagreen.Governor.Guard.{
  guard_for, gated_placements, profiled_guard, placement_loads, add_load, largest_load,
  guard_value_ms,
}
use jetson_dlagreen.Governor.Placement.{PlacementPlan, initial_state, plan_for, resident_1g}
use jetson_dlagreen.Common.{
  ℕ, List, ◌≡◌, none, [], false, err, ok, ◌+◌, All, ◌∷◌, refl, length, Result, if◌then◌else◌,
  String, ◌==◌,
}
use jetson_dlagreen.Common.Int.{◌*ℤ◌, ◌+ℤ◌, pos}
use jetson_dlagreen.Common.Float.{Micro, micro_float, nought, max_from, min_from}

abbrev demo_settings : Settings Micro
demo_settings = record {
  scenario = "dependent";
  borrower_quota = 100;
  guard_override_ms = none;
  period_ms = pos 12000000;
  deadline_ms = pos 10000000;
  dmr_target = pos 500;
  thermal_target_c = none;
  thermal_tolerance_c = pos 1000000;
  thermal_hard_limit_c = pos 95000000;
  profile_guard_ms = even_profile;
}

-- One worker, in a window of two seconds; the telemetry is lost in epoch 1.
abbrev demo_measure : ℕ → PlacementPlan → Micro → Result (Measurement Micro)
demo_measure i plan guard_ms = ok (record {
  release_ns = 10;
  start_ns = 30;
  end_ns = 40;
  collected_ns = 41;
  cleanup_ns = 60;
  measurement_seconds = pos 2000000;
  p99_ms = pos 4000000;
  deadline_misses = 1;
  deadline_miss_rate = none;
  drain_max_ms = pos 100000;
  telemetry = if i == 1 then unhealthy else healthy (pos 50000000) none;
  workers =
      record {
        tenant_id = 0;
        modality = audio;
        placement = resident_1g;
        completed_requests = 7;
        elapsed_seconds = pos 2000000;
        measurement_start_ns = 20;
        measurement_end_ns = 50;
      }
      ∷ [];
})

abbrev demo_run : String → Result (List (EpochReport Micro))
demo_run policy = run_policy policy demo_settings demo_measure 3

abbrev reports_of : Result (List (EpochReport Micro)) → List (EpochReport Micro)
reports_of (ok rs) = rs
reports_of (err e) = []

demo_governor : demo_run "mig-governor" ≡ ok (reports_of (demo_run "mig-governor"))
unfolding run_policy run_epochs run_epoch initial_state offered_for_epoch plan_for guard_for
    gated_placements profiled_guard placement_loads add_load largest_load guard_value_ms max_from
    ◌+ℤ◌ ◌*ℤ◌ control check_measurement update_feedback fail_closed_feedback completed_by min_from
demo_governor = refl

run_policy-IsSound_example :
    let rs = reports_of (demo_run "mig-governor") in
    (length rs ≡ 3)
    × Chain "mig-governor" demo_settings demo_measure initial_state rs
    × All (IsSound "mig-governor" demo_settings demo_measure) rs
run_policy-IsSound_example =
    run_policy-IsSound "mig-governor" demo_settings demo_measure 3
      (reports_of (demo_run "mig-governor")) demo_governor

abbrev report_of : Result (EpochReport Micro) → EpochReport Micro → EpochReport Micro
report_of (ok r) other = r
report_of (err e) other = other

abbrev blank_report : EpochReport Micro
blank_report = record {
  offered = [];
  plan = mixed_plan;
  guard_ms = nought;
  state_before = governor_start;
  state_after = governor_start;
  controller_action = not_applicable;
  violated = false;
  drain_near_overrun = false;
  thermal_high = false;
  telemetry_unhealthy = false;
  deadline_misses = 0;
  resident_completed = 0;
  borrower_completed = 0;
  rejected_tenants = 0;
  measurement_seconds = nought;
}

abbrev first_epoch : Result (EpochReport Micro)
first_epoch = run_epoch "mig-governor" demo_settings demo_measure governor_start 0

first_epoch_ends : first_epoch ≡ ok (report_of first_epoch blank_report)
unfolding run_policy run_epochs run_epoch initial_state offered_for_epoch plan_for guard_for
    gated_placements profiled_guard placement_loads add_load largest_load guard_value_ms max_from
    ◌+ℤ◌ ◌*ℤ◌ control check_measurement update_feedback fail_closed_feedback completed_by min_from
first_epoch_ends = refl

run_epoch-accounts_example :
    let r = report_of first_epoch blank_report in
    (m : Measurement Micro) × (demo_measure 0 r.plan r.guard_ms ≡ ok m)
    × (r.resident_completed ≡ shares_of resident_share m.workers)
    × (r.borrower_completed ≡ shares_of borrower_share m.workers)
    × (r.resident_completed + r.borrower_completed ≡ completed m.workers)
    × (r.deadline_misses ≡ m.deadline_misses)
run_epoch-accounts_example =
    run_epoch-accounts demo_settings "mig-governor" demo_measure governor_start 0
      (report_of first_epoch blank_report) first_epoch_ends

abbrev blind_measurement : Measurement Micro
blind_measurement = record {
  release_ns = 10;
  start_ns = 30;
  end_ns = 40;
  collected_ns = 41;
  cleanup_ns = 60;
  measurement_seconds = pos 2000000;
  p99_ms = pos 4000000;
  deadline_misses = 0;
  deadline_miss_rate = none;
  drain_max_ms = nought;
  telemetry = unhealthy;
  workers = [];
}

telemetry_lost-one_resident_example :
    plan_for "mig-governor" full_offer
      (control "mig-governor" demo_settings governor_start nought blind_measurement).0
      25
    ≡ ok (record { residents = resident 25 0 audio ∷ []; borrowers = [] })
telemetry_lost-one_resident_example =
    telemetry_lost-one_resident demo_settings governor_start nought blind_measurement audio
      (language ∷ audio ∷ language ∷ audio ∷ language ∷ []) 25 refl
