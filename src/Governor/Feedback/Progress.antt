-- ===== src/Governor/Feedback/Progress.antt =====
-- How feedback moves the capacity: down at once, up by one step after three safe epochs.
use jetson_dlagreen.Governor.Feedback.Bounds.{IsSafe, update_feedback-IsSafe}
use jetson_dlagreen.Governor.Feedback.{update_feedback, Feedback, fail_closed_feedback}
use jetson_dlagreen.Common.{
  refl, ℕ, ◌-◌, List, ◌+◌, ◌∷◌, ◌≡◌, ◌⊎◌, max, ◌||◌, false, ◌*◌, true, arith, ◌≤◌, ◌<◌, [], All,
  length, ◌∙◌, ◌/◌,
}
use jetson_dlagreen.Governor.Placement.{FeedbackState}
use jetson_dlagreen.Common.Float.{Float}

-- The feedback of consecutive epochs.
unfoldable pub run_feedback :
    {W : Type 0} ⦃d : Float W⦄ → FeedbackState W → List (Feedback W) → FeedbackState W
run_feedback s [] = s
run_feedback s (f ∷ fs) = run_feedback (update_feedback s f).0 fs

module _ {W : Type 0} ⦃d : Float W⦄ where
  -- Reclaims quota or tenants because of a violation or of residual pressure.
  abbrev pub IsPressed : ℕ → Feedback W → Type 0
  IsPressed tenants f =
      (f.drain_near_overrun ≡ false)
      × ((f.violated || f.residual_pressure) ≡ true)
      × (f.maximum_tenants ≡ tenants)

  -- No pressure, and the p99 latency below nine tenths of the deadline.
  abbrev pub IsCalm : ℕ → Feedback W → Type 0
  IsCalm tenants f =
      (f.drain_near_overrun ≡ false)
      × ((f.violated || f.residual_pressure) ≡ false)
      × (d.le (d.mul f.deadline_ms (d.decimal 90 2)) f.critical_p99_ms ≡ false)
      × (f.maximum_tenants ≡ tenants)

  abbrev pub capacity : FeedbackState W → ℕ
  capacity s = s.resident_quota_index + s.resident_admission_limit + s.borrower_limit

  -- The recovery steps that are left before the whole capacity is back.
  abbrev pub deficit : ℕ → FeedbackState W → ℕ
  deficit tenants s =
      (2 - s.resident_quota_index)
      + (tenants - s.resident_admission_limit)
      + (tenants - s.borrower_limit)

  -- A drain near its guard, a violation or residual pressure raises no limit, and lowers one unless
  -- all that it may lower is at its floor.
  pub pressure_lowers :
      (s : FeedbackState W) (f : Feedback W)
      → IsSafe f.maximum_tenants s
      → (f.drain_near_overrun || (f.violated || f.residual_pressure)) ≡ true
      → let t = (update_feedback s f).0 in
        (t.borrower_limit ≤ s.borrower_limit)
        × (t.resident_admission_limit ≤ s.resident_admission_limit)
        × (t.resident_quota_index ≤ s.resident_quota_index)
        × ((capacity t < capacity s) ⊎ ((s.borrower_limit ≡ 0) × (s.resident_admission_limit ≡ 1)))
  unfolding update_feedback
  pressure_lowers s f h p = ground arith

  step_rate :
      (s : FeedbackState W) (f : Feedback W)
      → IsSafe f.maximum_tenants s
      → 3 * capacity (update_feedback s f).0 + (update_feedback s f).0.safe_epochs
        ≤ 3 * capacity s + s.safe_epochs + 1
  unfolding update_feedback
  step_rate s f h = ground arith

  step_pressed :
      (tenants : ℕ) (s : FeedbackState W) (f : Feedback W)
      → IsSafe tenants s
      → IsPressed tenants f
      → let t = (update_feedback s f).0 in
        (t.borrower_limit ≡ s.borrower_limit - 1)
        × (t.resident_quota_index + t.resident_admission_limit
            ≡ max 1 (s.resident_quota_index + s.resident_admission_limit - 1))
        × (t.guard_adjustment_ms ≡ s.guard_adjustment_ms)
        × (t.safe_epochs ≡ 0)
  unfolding update_feedback
  step_pressed tenants s f h p = ground arith

  step_calm :
      (tenants : ℕ) (s : FeedbackState W) (f : Feedback W)
      → IsSafe tenants s
      → IsCalm tenants f
      → let t = (update_feedback s f).0 in
        (deficit tenants s ≡ 0) × (deficit tenants t ≡ 0)
        ⊎ (3 * deficit tenants t + s.safe_epochs + 1 ≤ 3 * deficit tenants s + t.safe_epochs)
  unfolding update_feedback
  step_calm tenants s f h p = ground arith

  pressed-IsSafe :
      (tenants : ℕ) (s : FeedbackState W) (f : Feedback W)
      → f.maximum_tenants ≡ tenants
      → IsSafe tenants s
      → IsSafe tenants (update_feedback s f).0
  pressed-IsSafe tenants s f e h = rw (← e) (update_feedback-IsSafe s f (rw (← e) at h))

  -- After n epochs of pressure each limit is n steps lower, or at its floor.
  run_pressed :
      (tenants : ℕ) (s : FeedbackState W) (fs : List (Feedback W))
      → IsSafe tenants s
      → All (IsPressed tenants) fs
      → let t = run_feedback s fs in
        (t.borrower_limit ≡ s.borrower_limit - length fs)
        × (t.resident_quota_index + t.resident_admission_limit
            ≡ max 1 (s.resident_quota_index + s.resident_admission_limit - length fs))
        × (t.guard_adjustment_ms ≡ s.guard_adjustment_ms)
        × (t.safe_epochs ≤ s.safe_epochs)
        × IsSafe tenants t
  unfolding run_feedback
  run_pressed tenants s [] h p = (omega arith, omega arith, refl, omega arith, h)
  run_pressed tenants s (f ∷ fs) h (p, ps) =
      let (bl, ral, ms, se) = step_pressed tenants s f h p in
      let next = pressed-IsSafe tenants s f p.2 h in
      let (bl', ral', ms', se', safe) = run_pressed tenants (update_feedback s f).0 fs next ps in
      (omega arith, omega arith, ms' ∙ ms, omega arith, safe)

  -- More than `tenants` epochs of violation or residual pressure in a row leave the state that
  -- fail_closed_feedback sets: one resident at the lowest quota and no borrower.
  pub pressure_fails_closed :
      (tenants : ℕ) (s : FeedbackState W) (fs : List (Feedback W))
      → IsSafe tenants s
      → All (IsPressed tenants) fs
      → tenants < length fs
      → run_feedback s fs ≡ fail_closed_feedback s
  unfolding fail_closed_feedback run_feedback
  pressure_fails_closed tenants s [] h p n = absurd (omega arith)
  pressure_fails_closed tenants s (f ∷ fs) h (p, ps) n =
      let (bl, ral, ms, se) = step_pressed tenants s f h p in
      let next = pressed-IsSafe tenants s f p.2 h in
      let (bl', ral', ms', se', safe) = run_pressed tenants (update_feedback s f).0 fs next ps in
      ground arith

  run_calm :
      (tenants : ℕ) (s : FeedbackState W) (fs : List (Feedback W))
      → IsSafe tenants s
      → All (IsCalm tenants) fs
      → 3 * deficit tenants s ≤ length fs + s.safe_epochs
      → (deficit tenants (run_feedback s fs) ≡ 0) × IsSafe tenants (run_feedback s fs)
  unfolding run_feedback
  run_calm tenants s [] h p n = (omega arith, h)
  run_calm tenants s (f ∷ fs) h (p, ps) n =
      run_calm tenants (update_feedback s f).0 fs (pressed-IsSafe tenants s f p.3 h) ps
        (omega (arith, step_calm tenants s f h p))

  -- Calm epochs, three for each step that the state is below capacity, bring back the highest quota
  -- and both limits in full.
  pub calm_recovers :
      (tenants : ℕ) (s : FeedbackState W) (fs : List (Feedback W))
      → IsSafe tenants s
      → All (IsCalm tenants) fs
      → 3 * deficit tenants s ≤ length fs
      → let t = run_feedback s fs in
        (t.resident_quota_index ≡ 2)
        × (t.resident_admission_limit ≡ tenants)
        × (t.borrower_limit ≡ tenants)
  calm_recovers tenants s fs h p n =
      let (full, safe) = run_calm tenants s fs h p (omega arith) in
      (omega arith, omega arith, omega arith)

  run_rate :
      (tenants : ℕ) (s : FeedbackState W) (fs : List (Feedback W))
      → IsSafe tenants s
      → All (λ f. f.maximum_tenants ≡ tenants) fs
      → 3 * capacity (run_feedback s fs) + (run_feedback s fs).safe_epochs
        ≤ 3 * capacity s + s.safe_epochs + length fs
  unfolding run_feedback
  run_rate tenants s [] h p = omega arith
  run_rate tenants s (f ∷ fs) h (p, ps) =
      let next = pressed-IsSafe tenants s f p h in
      omega
        (arith, step_rate s f (rw (← p) at h), run_rate tenants (update_feedback s f).0 fs next ps)

  -- Whatever the feedback, n epochs raise the sum of the quota index and of both limits by at most
  -- a third of n, counted with the safe epochs at the start.
  pub recovery_rate :
      (tenants : ℕ) (s : FeedbackState W) (fs : List (Feedback W))
      → IsSafe tenants s
      → All (λ f. f.maximum_tenants ≡ tenants) fs
      → capacity (run_feedback s fs) ≤ capacity s + (s.safe_epochs + length fs) / 3
  recovery_rate tenants s fs h p = omega (arith, run_rate tenants s fs h p)
