-- ===== src/Governor/Feedback/Bounds.antt =====
-- The limits of the controller's state, under every feedback.
use jetson_dlagreen.Common.{ℕ, ◌≤◌, ◌<◌, arith}
use jetson_dlagreen.Common.Float.{Float}
use jetson_dlagreen.Governor.Placement.{FeedbackState, initial_state}
use jetson_dlagreen.Governor.Feedback.{Feedback, update_feedback, fail_closed_feedback}

-- The state's ranges, for a workload of at most `tenants` tenants.
pub record IsSafe {W : Type 0} (tenants : ℕ) (s : FeedbackState W) : Type 0 where
  pub admits_one : 1 ≤ s.resident_admission_limit
  pub admits_most : s.resident_admission_limit ≤ tenants
  pub quota_in_range : s.resident_quota_index < 3
  pub borrowers_most : s.borrower_limit ≤ tenants
  pub before_recovery : s.safe_epochs < 3

module _ {W : Type 0} ⦃d : Float W⦄ where
  pub initial_state-IsSafe : IsSafe 6 (initial_state {W = W})
  unfolding initial_state
  initial_state-IsSafe = ground arith

  -- Every feedback about a workload of `tenants` tenants keeps the ranges.
  pub update_feedback-IsSafe :
      (s : FeedbackState W) (f : Feedback W)
      → IsSafe f.maximum_tenants s
      → IsSafe f.maximum_tenants (update_feedback s f).0
  unfolding update_feedback
  update_feedback-IsSafe s f h = ground arith

  pub fail_closed_feedback-IsSafe :
      (tenants : ℕ) (s : FeedbackState W)
      → IsSafe tenants s
      → IsSafe tenants (fail_closed_feedback s)
  unfolding fail_closed_feedback
  fail_closed_feedback-IsSafe tenants s h = ground arith
