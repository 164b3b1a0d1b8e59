-- ===== src/Controllers/FullGpu/Runs.antt =====
-- What holds of every epoch of a run of the full-GPU governor.
use jetson_dlagreen.Governor.Workload.{item}
use jetson_dlagreen.Controllers.FullGpu.{FeedbackState, policy_action, guard_for, update_feedback}
use jetson_dlagreen.Controllers.FullGpu.Limits.{IsWithin}
use jetson_dlagreen.Controllers.FullGpu.Epochs.{trace, Arguments, Epoch, profile_of}
use jetson_dlagreen.Common.{
  ◌∷◌, [], ok, ◌≡◌, ◌≤◌, List, String, ◌+◌, length, ◌%◌, str_eq, some, if◌then◌else◌, false,
}
use jetson_dlagreen.Common.Float.{Float}

abbrev Small : List String → Type 0
Small offered = (1 ≤ length offered) × (length offered ≤ 6)

module _ {W : Type 0} ⦃d : Float W⦄ (policy : String) (c : Arguments W) (deadline_ms : W) where
  -- What an epoch's report promises from a state of the feedback, which is within its limits: the
  -- trace's workload, of which the policy runs the first tenants, one at least.
  pub record IsServed (state : FeedbackState W) (e : Epoch W) : Type 0 where
    pub within : IsWithin state
    pub offers : item trace (e.epoch % 6) ≡ ok e.offered_modalities
    pub admits : e.actions ≡ policy_action policy e.offered_modalities state
    pub guards :
        guard_for policy e.actions state (some (profile_of c)) c.guard_override_ms ≡ ok e.guard_ms
    pub some_admitted : 1 ≤ e.admitted_tenants
    pub counted : e.admitted_tenants + e.rejected_tenants ≡ e.offered_tenants
    pub at_most : e.offered_tenants ≤ 6
    pub rejects_none : str_eq policy "joint-governor" ≡ false → e.rejected_tenants ≡ 0

  -- The feedback behind an epoch, by its report.
  abbrev pub state_after : FeedbackState W → Epoch W → FeedbackState W
  state_after s e =
      if str_eq policy "joint-governor"
      then update_feedback s e.violated e.critical_p99_ms deadline_ms
      else s

  -- The epochs of a run from a state on.
  abbrev pub ServedFrom : FeedbackState W → List (Epoch W) → Type 0
  ServedFrom s [] = Unit {0}
  ServedFrom s (e ∷ epochs) = IsServed s e × ServedFrom (state_after s e) epochs
