-- ===== src/Governor/Tests/Control.antt =====
-- Instances of the theorems on the feedback controller.
use jetson_dlagreen.Governor.Tests.Fixtures.{
  full_offer, governor_start, quiet_epoch, pressed_epoch, repeat, late_drain, governor_start-IsSafe,
}
use jetson_dlagreen.Governor.Envelope.{pressure_exceeds_envelope}
use jetson_dlagreen.Governor.Feedback.Progress.{
  capacity, run_feedback, calm_recovers, pressure_fails_closed, pressure_lowers, recovery_rate,
  IsCalm,
}
use jetson_dlagreen.Governor.Feedback.Bounds.{IsSafe, update_feedback-IsSafe}
use jetson_dlagreen.Governor.Feedback.{Feedback, update_feedback, fail_closed_feedback}
use jetson_dlagreen.Governor.Placement.{FeedbackState, PlacementPlan, plan_for, resident_1g}
use jetson_dlagreen.Common.{
  ℕ, ◌≡◌, ◌≤◌, arith, ◌<◌, suc, ok, ◌+◌, ◌⊎◌, All, ◌/◌, refl, zero, length, ◌++◌,
}
use jetson_dlagreen.Common.Int.{◌*ℤ◌}
use jetson_dlagreen.Common.Float.{Micro, micro_float}

update_feedback-IsSafe_example : IsSafe 6 (update_feedback governor_start pressed_epoch).0
update_feedback-IsSafe_example =
    update_feedback-IsSafe governor_start pressed_epoch governor_start-IsSafe

pressure_lowers_example :
    let t = (update_feedback governor_start late_drain).0 in
    (t.borrower_limit ≤ 6)
    × (t.resident_admission_limit ≤ 6)
    × (t.resident_quota_index ≤ 2)
    × ((capacity t < 14)
        ⊎ ((governor_start.borrower_limit ≡ 0) × (governor_start.resident_admission_limit ≡ 1)))
pressure_lowers_example = pressure_lowers governor_start late_drain governor_start-IsSafe refl

pressure_fails_closed_example :
    run_feedback governor_start (repeat 7 pressed_epoch) ≡ fail_closed_feedback governor_start
pressure_fails_closed_example =
    pressure_fails_closed 6 governor_start (repeat 7 pressed_epoch) governor_start-IsSafe
      (ground arith) (omega arith)

abbrev closed_state : FeedbackState Micro
closed_state = record governor_start {
  resident_admission_limit = 1;
  resident_quota_index = 0;
  borrower_limit = 0;
}

quiet_epoch-IsCalm : IsCalm 6 quiet_epoch
unfolding ◌*ℤ◌
quiet_epoch-IsCalm = (refl, refl, refl, refl)

All-repeat : (f : Feedback Micro) → IsCalm 6 f → (n : ℕ) → All (IsCalm 6) (repeat n f)
All-repeat f h zero = tt
All-repeat f h (suc n) = (h, All-repeat f h n)

calm_recovers_example :
    let t = run_feedback closed_state (repeat 39 quiet_epoch) in
    (t.resident_quota_index ≡ 2) × (t.resident_admission_limit ≡ 6) × (t.borrower_limit ≡ 6)
calm_recovers_example =
    calm_recovers 6 closed_state (repeat 39 quiet_epoch) (ground arith)
      (All-repeat quiet_epoch quiet_epoch-IsCalm 39) (omega arith)

recovery_rate_example :
    capacity (run_feedback closed_state (repeat 4 quiet_epoch)) ≤ 1 + (0 + 4) / 3
recovery_rate_example =
    recovery_rate 6 closed_state (repeat 4 quiet_epoch) (ground arith) (ground arith)

-- A state that the governor reaches: seven epochs of pressure, then twenty-one calm ones.
regrown :
    run_feedback governor_start (repeat 7 pressed_epoch ++ repeat 21 quiet_epoch)
    ≡ record governor_start { borrower_limit = 0 }
unfolding run_feedback update_feedback ◌*ℤ◌
regrown = refl

pressure_exceeds_envelope_example :
    (p : PlacementPlan) × (plan_for "mig-governor" full_offer
        (update_feedback (record governor_start { borrower_limit = 0 }) pressed_epoch).0
        25
      ≡ ok p)
    × All (λ a. (a.placement ≡ resident_1g) × (a.quota_percent ≡ 50)) p.residents
    × (3 < length p.residents)
pressure_exceeds_envelope_example =
    pressure_exceeds_envelope (record governor_start { borrower_limit = 0 }) pressed_epoch
      full_offer 25 (refl, refl, refl) refl (omega arith) (omega arith) (omega arith)
