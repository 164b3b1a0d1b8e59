-- ===== src/Governor/Tests/Fixtures.antt =====
-- States, profiles and plans that the tests of the governor share.
use jetson_dlagreen.Governor.Placement.Partition.{resident, borrower}
use jetson_dlagreen.Governor.Workload.Pairs.{pairs}
use jetson_dlagreen.Governor.Workload.{Modality, audio, language}
use jetson_dlagreen.Governor.Feedback.Bounds.{IsSafe}
use jetson_dlagreen.Governor.Feedback.{Feedback}
use jetson_dlagreen.Governor.Guard.{GuardProfile}
use jetson_dlagreen.Governor.Placement.{FeedbackState, PlacementPlan, initial_state}
use jetson_dlagreen.Common.{ℕ, List, ◌≡◌, none, true, [], arith, false, suc, some, ◌∷◌, refl, zero}
use jetson_dlagreen.Common.Int.{pos}
use jetson_dlagreen.Common.Float.{Micro, micro_float, nought}

abbrev pub governor_start : FeedbackState Micro
governor_start = record {
  resident_admission_limit = 6;
  resident_quota_index = 2;
  borrower_limit = 6;
  guard_adjustment_ms = nought;
  safe_epochs = 0;
}

governor_starts : initial_state {W = Micro} ≡ governor_start
unfolding initial_state
governor_starts = refl

abbrev pub full_offer : List Modality
full_offer = pairs 3

-- A profile with a guard of one millisecond for every worker.
abbrev pub even_profile : GuardProfile Micro
even_profile = record { flat = λ m. none; quota_aware = λ p q m. some (pos 1000000) }

abbrev pub quiet_epoch : Feedback Micro
quiet_epoch = record {
  violated = false;
  critical_p99_ms = pos 1000000;
  deadline_ms = pos 10000000;
  drain_near_overrun = false;
  residual_pressure = false;
  maximum_tenants = 6;
}

abbrev pub pressed_epoch : Feedback Micro
pressed_epoch = record quiet_epoch { violated = true }

abbrev pub late_drain : Feedback Micro
late_drain = record quiet_epoch { drain_near_overrun = true }

abbrev pub repeat : ℕ → Feedback Micro → List (Feedback Micro)
repeat zero f = []
repeat (suc n) f = f ∷ repeat n f

pub governor_start-IsSafe : IsSafe 6 governor_start
governor_start-IsSafe = ground arith

abbrev pub mixed_plan : PlacementPlan
mixed_plan = record {
  residents = resident 100 0 audio ∷ resident 100 1 language ∷ [];
  borrowers = borrower 100 2 audio ∷ [];
}
