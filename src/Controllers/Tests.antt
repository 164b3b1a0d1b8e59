-- ===== src/Controllers/Tests.antt =====
-- Runs of the policies and of the feedback of the other governors.
use jetson_dlagreen.Controllers.FullGpu.Epochs.{
  Arguments, run_policy, Launch, run_epochs, Report, Measured, Epoch, run_epoch, total, report_of,
  total_ℤ, completed_by,
}
use jetson_dlagreen.Controllers.Multimodal.{after_epochs}
use jetson_dlagreen.Controllers.Multimodal.Recovery.{after_epochs-recovers, safe_run}
use jetson_dlagreen.Cpus as Cpus
use jetson_dlagreen.Controllers.Affinity as Affinity
use jetson_dlagreen.Controllers.Affinity.Same.{expand_cpu_list-same}
use jetson_dlagreen.Common.Text.{codes}
use jetson_dlagreen.Common.Int.{pos, ℤ, ◌*ℤ◌, ◌+ℤ◌}
use jetson_dlagreen.Common.{
  ◌≡◌, refl, Result, ℕ, none, ◌∷◌, List, ok, [], if◌then◌else◌, err, ◌==◌, map, false, ◌≤◌,
}
use jetson_dlagreen.Common.Float.{Micro, micro_float}
use jetson_dlagreen.Controllers.FullGpu.{
  update_feedback, guard_for, profiled_guard, largest_guard, policy_action,
}

-- Epoch 3 misses its deadline; the others are well below it.
abbrev measured : ℕ → Launch Micro → Result (Measured Micro)
measured index launch = ok (record {
  p99_ms = if index == 3 then pos 11000000 else pos 5000000;
  deadline_misses = if index == 3 then pos 4 else pos 0;
  deadline_miss_rate = none;
  pressures = ("language", pos 7) ∷ ("audio", pos 2) ∷ ("language", pos 1) ∷ [];
})

abbrev arguments : Arguments Micro
arguments = record {
  epochs = 5;
  dmr_target = pos 500;
  language_guard_ms = pos 1500000;
  audio_guard_ms = pos 2000000;
  guard_override_ms = none;
}

abbrev reported : Result (Report Micro)
reported = run_policy measured "joint-governor" arguments (pos 10000000)

abbrev counts : {W : Type 0} → Result (Report W) → List ℕ × ℤ
counts (err e) = ([], pos 0)
counts (ok r) = (
  r.rejected_tenants ∷ r.violations ∷ map (λ e. e.admitted_tenants) r.epochs,
  r.pressure_completed,
)

-- Five of six tenants run behind the miss.
counted : counts reported ≡ (1 ∷ 1 ∷ 1 ∷ 1 ∷ 2 ∷ 4 ∷ 5 ∷ [], pos 50)
unfolding run_policy run_epochs run_epoch guard_for profiled_guard largest_guard policy_action
    update_feedback ◌*ℤ◌ report_of total ◌+ℤ◌ total_ℤ completed_by
counted = refl

abbrev one_epoch : Arguments Micro
one_epoch = record arguments { epochs = 1 }

-- The epoch of one language tenant, with a guard of 1.5 + 0.25 ms.
abbrev first_epoch : Epoch Micro
first_epoch = record {
  epoch = 0;
  offered_modalities = "language" ∷ [];
  actions = ("language", 25) ∷ [];
  offered_tenants = 1;
  admitted_tenants = 1;
  rejected_tenants = 0;
  guard_ms = pos 1750000;
  critical_p99_ms = pos 5000000;
  deadline_misses = pos 0;
  deadline_miss_rate = pos 0;
  violated = false;
  completed_language = pos 8;
  completed_audio = pos 2;
}

abbrev only_report : Report Micro
only_report = record {
  deadline_misses = pos 0;
  violations = 0;
  critical_p99_ms_max = pos 5000000;
  pressure_completed = pos 10;
  rejected_tenants = 0;
  epochs = first_epoch ∷ [];
}

expand_cpu_list-same_example :
    Affinity.expand_cpu_list (codes "4,0-2") ≡ Cpus.expand_cpu_list (codes "4,0-2")
expand_cpu_list-same_example = expand_cpu_list-same (codes "4,0-2")

-- A limit of 1 is 4 again after six safe epochs.
after_epochs-recovers_example :
    4
    ≤ (after_epochs
        (record { admission_limit = 1; safe_epochs = 0 })
        (safe_run 3)
        6).admission_limit
after_epochs-recovers_example =
    after_epochs-recovers 3 (record { admission_limit = 1; safe_epochs = 0 }) 6
