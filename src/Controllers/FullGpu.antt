-- ===== src/Controllers/FullGpu.antt =====
-- policy_action, guard_for and update_feedback of runtime/full_gpu_governor.py.
pub mod Limits
pub mod Epochs
pub mod Runs
use jetson_dlagreen.Dag.{is_in}
use jetson_dlagreen.Common.Dict.{find}
use jetson_dlagreen.Common.{
  ℕ, ◌∷◌, [], none, some, Bool, String, List, Option, if◌then◌else◌, Result, leb, map, max, str_eq,
  ◌+◌, err, ◌-◌, ok, value_error, min, take, length, ◌||◌, ◌>>=◌, key_error, traverse,
}
use jetson_dlagreen.Common.Float.{Float, float_min, float_max, nought, max_from}

pub record FeedbackState (W : Type 0) : Type 0 where
  pub admission_limit : ℕ
  pub guard_adjustment_ms : W
  pub safe_epochs : ℕ

abbrev pub initial_state : {W : Type 0} ⦃d : Float W⦄ → FeedbackState W
initial_state ⦃d⦄ = record {
  admission_limit = 6;
  guard_adjustment_ms = d.decimal 25 2;
  safe_epochs = 0;
}

abbrev pub default_profile_guard_ms : {W : Type 0} ⦃d : Float W⦄ → List (String × W)
default_profile_guard_ms ⦃d⦄ = ("language", d.decimal 15 1) ∷ ("audio", d.decimal 2 0) ∷ []

abbrev pub overridden_policies : List String
overridden_policies = "conservative-guard" ∷ "profiled-guard" ∷ "joint-governor" ∷ []

module _ {W : Type 0} where
  unfoldable pub policy_action : String → List String → FeedbackState W → List (String × ℕ)
  policy_action policy offered s =
      map (λ modality. (modality, if str_eq policy "static-q5" then 5 else 25))
        (take (if str_eq policy "joint-governor" then s.admission_limit else length offered)
          offered)

  -- profile[modality]
  abbrev pub guard_of : List (String × W) → String → Result W
  guard_of profile modality = elim (find modality profile) [ some w ↦ ok w | none ↦ err key_error ]

  -- `profile_guard_ms or DEFAULT_PROFILE_GUARD_MS`
  abbrev pub profile_or : Option (List (String × W)) → List (String × W) → List (String × W)
  profile_or none default = default
  profile_or (some []) default = default
  profile_or (some (e ∷ profile)) default = e ∷ profile

module _ {W : Type 0} ⦃d : Float W⦄ where
  -- max(…) of the actions' guards.
  unfoldable pub largest_guard : List (String × W) → List (String × ℕ) → Result W
  largest_guard profile [] = err (value_error "max() arg is an empty sequence")
  largest_guard profile (a ∷ actions) = do
    first ← guard_of profile a.0
    rest ← traverse (λ action. guard_of profile action.0) actions
    ok (max_from first rest)

  -- The guard where no override applies.
  unfoldable pub profiled_guard :
      String → List (String × ℕ) → FeedbackState W → List (String × W) → Result W
  profiled_guard policy actions s profile =
      if str_eq policy "conservative-guard"
      then ok (d.decimal 6 0)
      else if str_eq policy "profiled-guard" || str_eq policy "joint-governor"
      then largest_guard profile actions >>= (λ profiled. ok (
          d.add profiled
            (if str_eq policy "joint-governor" then s.guard_adjustment_ms else d.decimal 5 1)))
      else ok nought

  unfoldable pub guard_for :
      String
      → List (String × ℕ)
      → FeedbackState W
      → Option (List (String × W))
      → Option W
      → Result W
  guard_for policy actions s profile_guard_ms none =
      profiled_guard policy actions s (profile_or profile_guard_ms default_profile_guard_ms)
  guard_for policy actions s profile_guard_ms (some override) =
      if is_in policy overridden_policies
      then ok override
      else profiled_guard policy actions s (profile_or profile_guard_ms default_profile_guard_ms)

  -- The branch of an epoch well below its deadline.
  unfoldable pub after_safe_epoch : FeedbackState W → FeedbackState W
  after_safe_epoch s =
      if leb 2 (s.safe_epochs + 1)
      then record {
        admission_limit = min 6 (s.admission_limit + 1);
        guard_adjustment_ms = float_max nought (d.sub s.guard_adjustment_ms (d.decimal 25 2));
        safe_epochs = 0;
      }
      else record s { safe_epochs = s.safe_epochs + 1 }

  -- violated, critical_p99_ms and deadline_ms.
  unfoldable pub update_feedback : FeedbackState W → Bool → W → W → FeedbackState W
  unfolding after_safe_epoch
  update_feedback s violated critical_p99_ms deadline_ms =
      if violated
      then record {
        admission_limit = max 1 (s.admission_limit - 1);
        guard_adjustment_ms =
            float_min (d.decimal 2 0) (d.add s.guard_adjustment_ms (d.decimal 5 1));
        safe_epochs = 0;
      }
      else if d.lt critical_p99_ms (d.mul deadline_ms (d.decimal 95 2))
      then after_safe_epoch s
      else record s { safe_epochs = 0 }
