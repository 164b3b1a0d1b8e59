-- ===== src/Governor/Epoch/Reports.antt =====
-- What an epoch reports of its workers, and the placement after telemetry was lost.
use jetson_dlagreen.Governor.Epoch.Safety.{run_epoch-Ran}
use jetson_dlagreen.Governor.Results.Totals.{
  completed, completed_by-total, shares_of, resident_share, borrower_share, completed_by-shares,
}
use jetson_dlagreen.Governor.Epoch.{
  Settings, Measurement, plan_for, PlacementPlan, control, fail_closed_feedback, FeedbackState,
  EpochReport, run_epoch, Modality, is_unhealthy, resident_1g,
}
use jetson_dlagreen.Governor.Feedback.{fail_closed_feedback}
use jetson_dlagreen.Governor.Placement.{plan_for}
use jetson_dlagreen.Common.{
  min, length, ℕ, String, List, ◌≡◌, ok, Result, true, ◌∷◌, arith, ◌+◌, [], subst, refl,
}
use jetson_dlagreen.Common.Float.{Float}

module _ {W : Type 0} ⦃d : Float W⦄ (c : Settings W) where
  -- An epoch that ends made one measurement, by the plan and the guard that it reports, and reports
  -- its deadline misses; its resident and its borrower count are the sums of the requests that the
  -- measurement's workers on the one and on the other placement completed, together all of them.
  pub run_epoch-accounts :
      (policy : String) (measure : ℕ → PlacementPlan → W → Result (Measurement W))
      (s : FeedbackState W) (i : ℕ) (r : EpochReport W)
      → run_epoch policy c measure s i ≡ ok r
      → (m : Measurement W) × (measure i r.plan r.guard_ms ≡ ok m)
        × (r.resident_completed ≡ shares_of resident_share m.workers)
        × (r.borrower_completed ≡ shares_of borrower_share m.workers)
        × (r.resident_completed + r.borrower_completed ≡ completed m.workers)
        × (r.deadline_misses ≡ m.deadline_misses)
  run_epoch-accounts policy measure s i r h =
      let t = run_epoch-Ran policy c measure s i r h in
      (
        t.m,
        subst (λ r'. measure i r'.plan r'.guard_ms ≡ ok t.m) t.reports t.measures,
        subst (λ r'. r'.resident_completed ≡ shares_of resident_share t.m.workers) t.reports
            (completed_by-shares t.m.workers).0,
        subst (λ r'. r'.borrower_completed ≡ shares_of borrower_share t.m.workers) t.reports
            (completed_by-shares t.m.workers).1,
        subst (λ r'. r'.resident_completed + r'.borrower_completed ≡ completed t.m.workers)
            t.reports (completed_by-total t.m.workers).0,
        subst (λ r'. r'.deadline_misses ≡ t.m.deadline_misses) t.reports refl,
      )

  -- After an epoch of the governor whose telemetry was not healthy, the next plan runs the first
  -- offered tenant alone, as a resident at the lowest quota.
  pub telemetry_lost-one_resident :
      (s : FeedbackState W) (g : W) (m : Measurement W) (first : Modality) (others : List Modality)
      (borrower_quota : ℕ)
      → is_unhealthy m.telemetry ≡ true
      → plan_for "mig-governor" (first ∷ others) (control "mig-governor" c s g m).0 borrower_quota
        ≡ ok (record {
          residents =
              record {
                tenant_id = 0;
                modality = first;
                placement = resident_1g;
                quota_percent = 25;
              }
              ∷ [];
          borrowers = [];
        })
  unfolding plan_for control fail_closed_feedback
  telemetry_lost-one_resident s g m first others borrower_quota h =
      let one : min (length (first ∷ others)) 1 ≡ 1 = omega arith in rw (h, one) refl
