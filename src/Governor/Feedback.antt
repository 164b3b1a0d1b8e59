-- ===== src/Governor/Feedback.antt =====
-- The feedback controller: update_feedback and fail_closed_feedback of
-- runtime/mig_slack_governor.py. `max(0, x - 1)` of a number x is `x - 1` on ℕ.
pub mod Bounds
pub mod Progress
use jetson_dlagreen.Common.{ℕ, ◌+◌, ◌-◌, max, Bool, ◌||◌, length, ltb, if◌then◌else◌}
use jetson_dlagreen.Common.Float.{Float}
use jetson_dlagreen.Governor.Placement.{FeedbackState, resident_quotas}

pub data ControllerAction : Type 0 where
  drain_reclaim residual_reclaim hold_near_deadline hold_hysteresis : ControllerAction
  recover_resident_quota recover_admission recover_borrower hold_full_capacity : ControllerAction

-- The arguments of update_feedback.
pub record Feedback (W : Type 0) : Type 0 where
  pub violated : Bool
  pub critical_p99_ms : W
  pub deadline_ms : W
  pub drain_near_overrun : Bool
  pub residual_pressure : Bool
  pub maximum_tenants : ℕ

module _ {W : Type 0} where
  unfoldable pub drain_reclaimed : FeedbackState W → FeedbackState W
  drain_reclaimed s = record s {
    borrower_limit = s.borrower_limit - 1;
    resident_admission_limit = max 1 (s.resident_admission_limit - 1);
    safe_epochs = 0;
  }

  unfoldable pub residual_reclaimed : FeedbackState W → FeedbackState W
  residual_reclaimed s =
      if ltb 0 s.resident_quota_index
      then record s {
        borrower_limit = s.borrower_limit - 1;
        resident_quota_index = s.resident_quota_index - 1;
        safe_epochs = 0;
      }
      else record s {
        borrower_limit = s.borrower_limit - 1;
        resident_admission_limit = max 1 (s.resident_admission_limit - 1);
        safe_epochs = 0;
      }

  -- The branch after three safe epochs, with the counter reset at its end.
  unfoldable pub recovered : FeedbackState W → ℕ → FeedbackState W × ControllerAction
  recovered s maximum_tenants =
      if ltb s.resident_quota_index (length resident_quotas - 1)
      then (
        record s { resident_quota_index = s.resident_quota_index + 1; safe_epochs = 0 },
        recover_resident_quota,
      )
      else if ltb s.resident_admission_limit maximum_tenants
      then (
        record s { resident_admission_limit = s.resident_admission_limit + 1; safe_epochs = 0 },
        recover_admission,
      )
      else if ltb s.borrower_limit maximum_tenants
      then (record s { borrower_limit = s.borrower_limit + 1; safe_epochs = 0 }, recover_borrower)
      else (record s { safe_epochs = 0 }, hold_full_capacity)

  unfoldable pub update_feedback :
      ⦃d : Float W⦄ → FeedbackState W → Feedback W → FeedbackState W × ControllerAction
  unfolding drain_reclaimed residual_reclaimed recovered
  update_feedback ⦃d⦄ s f =
      if f.drain_near_overrun
      then (drain_reclaimed s, drain_reclaim)
      else if f.violated || f.residual_pressure
      then (residual_reclaimed s, residual_reclaim)
      else if d.le (d.mul f.deadline_ms (d.decimal 90 2)) f.critical_p99_ms
      then (record s { safe_epochs = 0 }, hold_near_deadline)
      else if ltb (s.safe_epochs + 1) 3
      then (record s { safe_epochs = s.safe_epochs + 1 }, hold_hysteresis)
      else recovered (record s { safe_epochs = s.safe_epochs + 1 }) f.maximum_tenants

  unfoldable pub fail_closed_feedback : FeedbackState W → FeedbackState W
  fail_closed_feedback s = record s {
    resident_admission_limit = 1;
    resident_quota_index = 0;
    borrower_limit = 0;
    safe_epochs = 0;
  }
