-- ===== src/Governor/Envelope.antt =====
-- The envelope of three residents that a comment in update_feedback gives to the quotas 25 and 50.
use jetson_dlagreen.Governor.Placement.Partition.{
  plan_for-actions, All-number, resident, length-number,
}
use jetson_dlagreen.Governor.Workload.{Modality}
use jetson_dlagreen.Governor.Feedback.Progress.{IsPressed}
use jetson_dlagreen.Governor.Feedback.{update_feedback, Feedback}
use jetson_dlagreen.Governor.Placement.{
  plan_for, quota_and_borrowers, FeedbackState, PlacementPlan, resident_1g,
}
use jetson_dlagreen.Common.{
  ℕ, min, length, take, List, ◌≡◌, ◌≤◌, arith, ok, All, ◌<◌, refl, ◌-◌, length-take,
}
use jetson_dlagreen.Common.Float.{Float}

module _ {W : Type 0} ⦃d : Float W⦄ where
  half_quota :
      (t : FeedbackState W) (admitted : ℕ)
      → t.resident_quota_index ≡ 1
      → t.borrower_limit ≡ 0
      → quota_and_borrowers "mig-governor" t admitted ≡ ok (50, 0)
  unfolding quota_and_borrowers
  half_quota t admitted index lent = ground arith

  pressed_quota :
      (s : FeedbackState W) (f : Feedback W)
      → IsPressed f.maximum_tenants f
      → s.resident_quota_index ≡ 2
      → s.borrower_limit ≤ 1
      → let t = (update_feedback s f).0 in
        (t.resident_quota_index ≡ 1)
        × (t.borrower_limit ≡ 0)
        × (t.resident_admission_limit ≡ s.resident_admission_limit)
  unfolding update_feedback
  pressed_quota s f p q b = ground arith

  -- Whenever the governor is at the highest quota with at most one borrower allowed and at least
  -- four residents admitted, one epoch of violation or residual pressure places every admitted tenant
  -- of a workload of four or more as a resident at quota 50: more than three of them.
  pub pressure_exceeds_envelope :
      (s : FeedbackState W) (f : Feedback W) (offered : List Modality) (borrower_quota : ℕ)
      → IsPressed f.maximum_tenants f
      → s.resident_quota_index ≡ 2
      → s.borrower_limit ≤ 1
      → 4 ≤ s.resident_admission_limit
      → 4 ≤ length offered
      → (p : PlacementPlan) × (plan_for "mig-governor" offered
            (update_feedback s f).0
            borrower_quota
          ≡ ok p)
        × All (λ a. (a.placement ≡ resident_1g) × (a.quota_percent ≡ 50)) p.residents
        × (3 < length p.residents)
  pressure_exceeds_envelope s f offered borrower_quota p q b r n =
      let t = (update_feedback s f).0 in
      let (index, lent, admits) = pressed_quota s f p q b in
      let admitted = min (length offered) t.resident_admission_limit in
      let split : quota_and_borrowers "mig-governor" t admitted ≡ ok (50, 0) =
        half_quota t admitted index lent in
      let made = plan_for-actions "mig-governor" offered t borrower_quota 50 0 split in
      (
        _,
        made,
        All-number (resident 50) _ (λ i m. (refl, refl)) 0 (take (admitted - 0) offered),
        omega (
          arith,
          length-number (resident 50) 0 (take (admitted - 0) offered),
          length-take (admitted - 0) offered,
        ),
      )
