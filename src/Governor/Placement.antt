-- ===== src/Governor/Placement.antt =====
-- The controller's state and the placement of tenants: WorkerAction, PlacementPlan, FeedbackState
-- and plan_for of runtime/mig_slack_governor.py. Limits and indices are never negative there.
pub mod Partition
use jetson_dlagreen.Common.{
  ℕ, zero, suc, ◌-◌, ◌/◌, min, String, ◌||◌, List, [], ◌∷◌, length, take, value_error, Result, ok,
  err, ◌>>=◌, if◌then◌else◌, str_eq,
}
use jetson_dlagreen.Common.Float.{Float, nought}
use jetson_dlagreen.Governor.Workload.{Modality, item}

pub data Placement : Type 0 where
  resident_1g borrower_2g : Placement

pub record WorkerAction : Type 0 where
  pub tenant_id : ℕ
  pub modality : Modality
  pub placement : Placement
  pub quota_percent : ℕ

pub record PlacementPlan : Type 0 where
  pub residents : List WorkerAction
  pub borrowers : List WorkerAction

abbrev pub resident_quotas : List ℕ
resident_quotas = 25 ∷ 50 ∷ 100 ∷ []

pub record FeedbackState (W : Type 0) : Type 0 where
  pub resident_admission_limit : ℕ
  pub resident_quota_index : ℕ
  pub borrower_limit : ℕ
  pub guard_adjustment_ms : W
  pub safe_epochs : ℕ

-- FeedbackState() with its defaults.
unfoldable pub initial_state : {W : Type 0} ⦃d : Float W⦄ → FeedbackState W
initial_state = record {
  resident_admission_limit = 6;
  resident_quota_index = length resident_quotas - 1;
  borrower_limit = 6;
  guard_adjustment_ms = nought;
  safe_epochs = 0;
}

-- RESIDENT_QUOTAS[self.resident_quota_index]
abbrev pub resident_quota_percent : {W : Type 0} → FeedbackState W → Result ℕ
resident_quota_percent s = item resident_quotas s.resident_quota_index

-- The resident quota and the number of borrowers that a policy sets; an unknown policy is refused.
unfoldable pub quota_and_borrowers : {W : Type 0} → String → FeedbackState W → ℕ → Result (ℕ × ℕ)
quota_and_borrowers policy s admitted =
    if str_eq policy "same-mig"
    then ok (100, admitted)
    else if str_eq policy "uncoordinated-borrow"
        || (str_eq policy "fixed-borrow" || str_eq policy "fixed-full-gate")
    then ok (100, admitted / 2)
    else if str_eq policy "mig-governor"
    then (resident_quota_percent s >>= λ quota. ok (quota, min (admitted / 2) s.borrower_limit))
    else if str_eq policy "static-mig" || str_eq policy "resident-full-gate"
    then ok (100, 0)
    else err (value_error "unknown policy")

-- enumerate(offered[:resident_count]), from tenant `index` on.
unfoldable pub resident_actions : ℕ → ℕ → List Modality → List WorkerAction
resident_actions quota index [] = []
resident_actions quota index (m ∷ ms) =
    record { tenant_id = index; modality = m; placement = resident_1g; quota_percent = quota }
    ∷ resident_actions quota (suc index) ms

-- The borrowers of range(index, index + count); `offered[index]` may raise IndexError.
unfoldable pub borrower_actions : List Modality → ℕ → ℕ → ℕ → Result (List WorkerAction)
borrower_actions offered quota index zero = ok []
borrower_actions offered quota index (suc count) = do
  m ← item offered index
  rest ← borrower_actions offered quota (suc index) count
  ok (
      record { tenant_id = index; modality = m; placement = borrower_2g; quota_percent = quota }
      ∷ rest)

unfoldable pub plan_for :
    {W : Type 0} → String → List Modality → FeedbackState W → ℕ → Result PlacementPlan
unfolding quota_and_borrowers resident_actions borrower_actions
plan_for policy offered s borrower_quota = do
  let admitted = min (length offered) s.resident_admission_limit
  (resident_quota, borrower_count) ← quota_and_borrowers policy s admitted
  let resident_count = admitted - borrower_count
  borrowers ← borrower_actions offered borrower_quota resident_count (admitted - resident_count)
  ok (record {
    residents = resident_actions resident_quota 0 (take resident_count offered);
    borrowers = borrowers;
  })
