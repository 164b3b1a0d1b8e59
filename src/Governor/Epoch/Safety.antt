-- ===== src/Governor/Epoch/Safety.antt =====
-- What holds of every epoch that run_policy reports.
use jetson_dlagreen.Governor.Placement.{WorkerAction}
use jetson_dlagreen.Governor.Placement.Partition.{
  IsPartition, expected_quota, is_policy, plan_for-unknown, plan_for-IsPartition,
}
use jetson_dlagreen.Governor.Feedback.Bounds.{
  IsSafe, fail_closed_feedback-IsSafe, update_feedback-IsSafe, initial_state-IsSafe,
}
use jetson_dlagreen.Governor.Epoch.{
  Settings, PlacementPlan, Measurement, FeedbackState, run_epoch, EpochReport, Modality,
  offered_for_epoch, pos, plan_for, guard_for, control, check_measurement, report, run_epochs,
  is_unhealthy, run_policy, initial_state,
}
use jetson_dlagreen.Common.{
  ℕ, String, Result, List, ◌≡◌, ok, >>=-eq-ok, require, false, not, require-not, length, ◌+◌,
  ok_injective, min, Bool-cases, All, str_eq, true, inl, suc, inr, zero, subst, sym, ◌∙◌, arith, ap,
  refl, length-map, ◌++◌, length-append, length-count_up, ◌∷◌, [],
}
use jetson_dlagreen.Common.Float.{Float}

IsPartition-length :
    {offered : List Modality} {limit quota borrower_quota : ℕ} {p : PlacementPlan}
    → IsPartition offered limit quota borrower_quota p
    → length p.residents + length p.borrowers ≡ min (length offered) limit
IsPartition-length {offered} {limit} {p = p} h = omega (
  arith,
  ap length h.numbers,
  length-map (λ (a : WorkerAction). a.tenant_id) (p.residents ++ p.borrowers),
  length-append p.residents p.borrowers,
  length-count_up 0 (min (length offered) limit),
)

module _ {W : Type 0} ⦃d : Float W⦄ (policy : String) (c : Settings W)
    (measure : ℕ → PlacementPlan → W → Result (Measurement W)) where
  -- The steps of an epoch that ended with a report.
  pub record Ran (s : FeedbackState W) (i : ℕ) (r : EpochReport W) : Type 0 where
    pub offered : List Modality
    pub plan : PlacementPlan
    pub guard_ms : W
    pub m : Measurement W
    pub offers : offered_for_epoch (pos i) c.scenario ≡ ok offered
    pub plans : plan_for policy offered s c.borrower_quota ≡ ok plan
    pub guards : guard_for policy plan c.profile_guard_ms c.guard_override_ms ≡ ok guard_ms
    pub fits : d.le c.period_ms guard_ms ≡ false
    pub measures : measure i plan guard_ms ≡ ok m
    pub checks : check_measurement c m ≡ ok tt
    pub reports : report c offered plan guard_ms s m (control policy c s guard_ms m) ≡ r

  pub run_epoch-Ran :
      (s : FeedbackState W) (i : ℕ) (r : EpochReport W)
      → run_epoch policy c measure s i ≡ ok r
      → Ran s i r
  unfolding run_epoch
  run_epoch-Ran s i r h =
      let (offered, offers, h1) = >>=-eq-ok (offered_for_epoch (pos i) c.scenario) _ h in
      let (plan, plans, h2) = >>=-eq-ok (plan_for policy offered s c.borrower_quota) _ h1 in
      let (g, guards, h3) =
        >>=-eq-ok (guard_for policy plan c.profile_guard_ms c.guard_override_ms) _ h2 in
      let (u, fits, h4) = >>=-eq-ok (require (not (d.le c.period_ms g)) _) _ h3 in
      let (m, measures, h5) = >>=-eq-ok (measure i plan g) _ h4 in
      let (v, checks, h6) = >>=-eq-ok (check_measurement c m) _ h5 in
      record {
        offered = offered;
        plan = plan;
        guard_ms = g;
        m = m;
        offers = offers;
        plans = plans;
        guards = guards;
        fits = require-not _ _ fits;
        measures = measures;
        checks = checks;
        reports = ok_injective h6;
      }

  -- What an epoch's report promises.
  pub record IsSound (r : EpochReport W) : Type 0 where
    pub safe_before : IsSafe 6 r.state_before
    pub safe_after : IsSafe 6 r.state_after
    pub placed :
        IsPartition r.offered r.state_before.resident_admission_limit
          (expected_quota policy r.state_before.resident_quota_index)
          c.borrower_quota
          r.plan
    pub guarded : guard_for policy r.plan c.profile_guard_ms c.guard_override_ms ≡ ok r.guard_ms
    pub guard_fits : d.le c.period_ms r.guard_ms ≡ false
    pub counted :
        length r.plan.residents + length r.plan.borrowers + r.rejected_tenants ≡ length r.offered

  control-IsSafe :
      (s : FeedbackState W) (g : W) (m : Measurement W)
      → IsSafe 6 s
      → IsSafe 6 (control policy c s g m).0
  unfolding control
  control-IsSafe s g m h = elim (Bool-cases (str_eq policy "mig-governor")) [
    | inr other ↦ rw (other, control) h
    | inl governor ↦ elim (Bool-cases (is_unhealthy m.telemetry)) [
      | inl blind ↦ rw (governor, blind, control) (fail_closed_feedback-IsSafe 6 s h)
      | inr seen ↦ rw (governor, seen, control) (update_feedback-IsSafe s _ h)
    ]
  ]

  Ran-IsSound :
      (s : FeedbackState W) (i : ℕ) (r : EpochReport W)
      → IsSafe 6 s
      → Ran s i r
      → (r.state_before ≡ s) × IsSound r
  Ran-IsSound s i r h t = subst (λ r'. (r'.state_before ≡ s) × IsSound r') t.reports (refl, sound)
    where
      known : is_policy policy ≡ true
      known = elim (Bool-cases (is_policy policy)) [
        | inl k ↦ k
        | inr k ↦
            cc
              (t.plans, (plan_for-unknown policy t.offered s c.borrower_quota h.quota_in_range).1 k)
      ]

      placed :
          IsPartition t.offered s.resident_admission_limit
            (expected_quota policy s.resident_quota_index)
            c.borrower_quota
            t.plan
      placed =
          let (p, made, part) =
            plan_for-IsPartition policy t.offered s c.borrower_quota known h.quota_in_range in
          subst (IsPartition t.offered s.resident_admission_limit _ c.borrower_quota)
            (ok_injective (sym made ∙ t.plans)) part

      sound :
          IsSound (report c t.offered t.plan t.guard_ms s t.m (control policy c s t.guard_ms t.m))
      sound = record {
        safe_before = h;
        safe_after = control-IsSafe s t.guard_ms t.m h;
        placed = placed;
        guarded = t.guards;
        guard_fits = t.fits;
        counted = omega (arith, IsPartition-length placed);
      }

  -- Each report starts in the state in which the one before it ended.
  abbrev pub Chain : FeedbackState W → List (EpochReport W) → Type 0
  Chain s [] = Unit {0}
  Chain s (r ∷ rs) = (r.state_before ≡ s) × Chain r.state_after rs

  run_epochs-IsSound :
      (s : FeedbackState W) (i count : ℕ) (rs : List (EpochReport W))
      → IsSafe 6 s
      → run_epochs policy c measure s i count ≡ ok rs
      → (length rs ≡ count) × Chain s rs × All IsSound rs
  unfolding run_epochs
  run_epochs-IsSound s i zero rs h e =
      subst (λ l. (length l ≡ 0) × Chain s l × All IsSound l) (ok_injective e) (refl, tt, tt)
  run_epochs-IsSound s i (suc count) rs h e =
      let (r, ran, e1) = >>=-eq-ok (run_epoch policy c measure s i) _ e in
      let (rest, more, e2) =
        >>=-eq-ok (run_epochs policy c measure r.state_after (suc i) count) _ e1 in
      let (before, sound) = Ran-IsSound s i r h (run_epoch-Ran s i r ran) in
      let (n, chain, all) =
        run_epochs-IsSound r.state_after (suc i) count rest sound.safe_after more in
      subst (λ l. (length l ≡ suc count) × Chain s l × All IsSound l) (ok_injective e2)
        (ap suc n, (before, chain), (sound, all))

  -- A run that ends has one report for each epoch, from the initial state on, each in the state in
  -- which the last one ended; in every one the states are within their ranges, the offered tenants
  -- are placed or rejected, and the guard of the plan is known and below the period.
  pub run_policy-IsSound :
      (epochs : ℕ) (rs : List (EpochReport W))
      → run_policy policy c measure epochs ≡ ok rs
      → (length rs ≡ epochs) × Chain initial_state rs × All IsSound rs
  unfolding run_policy
  run_policy-IsSound epochs rs h =
      run_epochs-IsSound initial_state 0 epochs rs initial_state-IsSafe h

  control-static :
      (s : FeedbackState W) (g : W) (m : Measurement W)
      → str_eq policy "mig-governor" ≡ false
      → (control policy c s g m).0 ≡ s
  unfolding control
  control-static s g m h = rw h

  run_epochs-static :
      (s : FeedbackState W) (i count : ℕ) (rs : List (EpochReport W))
      → str_eq policy "mig-governor" ≡ false
      → run_epochs policy c measure s i count ≡ ok rs
      → All (λ r. (r.state_before ≡ s) × (r.state_after ≡ s)) rs
  unfolding run_epochs
  run_epochs-static s i zero rs h e = subst (All _) (ok_injective e) tt
  run_epochs-static s i (suc count) rs h e =
      let (r, ran, e1) = >>=-eq-ok (run_epoch policy c measure s i) _ e in
      let (rest, more, e2) =
        >>=-eq-ok (run_epochs policy c measure r.state_after (suc i) count) _ e1 in
      let t = run_epoch-Ran s i r ran in
      let after : r.state_after ≡ s =
        subst (λ r'. r'.state_after ≡ s) t.reports (control-static s t.guard_ms t.m h) in
      let before : r.state_before ≡ s = subst (λ r'. r'.state_before ≡ s) t.reports refl in
      subst (All _) (ok_injective e2) (
        (before, after),
        run_epochs-static s (suc i) count rest h
            (subst (λ u. run_epochs policy c measure u (suc i) count ≡ ok rest) after more),
      )

  -- Only the governor adapts: under any other policy every epoch starts and ends in the initial
  -- state.
  run_policy-static :
      (epochs : ℕ) (rs : List (EpochReport W))
      → str_eq policy "mig-governor" ≡ false
      → run_policy policy c measure epochs ≡ ok rs
      → All (λ r. (r.state_before ≡ initial_state) × (r.state_after ≡ initial_state)) rs
  unfolding run_policy
  run_policy-static epochs rs h e = run_epochs-static initial_state 0 epochs rs h e
