-- ===== src/Controllers/Multimodal/Recovery.antt =====
-- The admission limit over a run of epochs: its bounds and its recovery.
use jetson_dlagreen.Common.{ℕ, zero, suc, ◌∷◌, [], Bool, false, List, ◌≤◌, arith, min, ◌+◌}
use jetson_dlagreen.Controllers.Multimodal.{FeedbackState, update_feedback, after_epochs}

-- The epochs of a quiet run.
abbrev pub safe_run : ℕ → List Bool
safe_run zero = []
safe_run (suc n) = false ∷ false ∷ safe_run n

two_safe :
    (state : FeedbackState) (maximum_limit : ℕ)
    → min maximum_limit (state.admission_limit + 1)
      ≤ (update_feedback
          (update_feedback state false maximum_limit)
          false
          maximum_limit).admission_limit
unfolding update_feedback
two_safe state m = ground arith

-- After any `2 * n` epochs without a violation the limit is at least `n` above where it was, or
-- at the maximum.
pub after_epochs-recovers :
    (n : ℕ) (state : FeedbackState) (maximum_limit : ℕ)
    → min maximum_limit (state.admission_limit + n)
      ≤ (after_epochs state (safe_run n) maximum_limit).admission_limit
unfolding after_epochs
after_epochs-recovers zero state m = omega arith
after_epochs-recovers (suc n) state m =
    let next = update_feedback (update_feedback state false m) false m in
    omega (arith, two_safe state m, after_epochs-recovers n next m)
