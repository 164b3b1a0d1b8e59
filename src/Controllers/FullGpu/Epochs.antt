-- ===== src/Controllers/FullGpu/Epochs.antt =====
-- run_policy of runtime/full_gpu_governor.py; `measure` is the workers and the critical task of an
-- epoch. The numbers that are only copied, and the rates by samples, epochs and seconds, are left out.
use jetson_dlagreen.Governor.Workload.{item}
use jetson_dlagreen.Controllers.FullGpu.{
  FeedbackState, initial_state, policy_action, guard_for, update_feedback,
}
use jetson_dlagreen.Common.{
  ℕ, zero, suc, ◌∷◌, [], none, some, Bool, String, List, Option, Result, ok, err, ◌>>=◌, length,
  if◌then◌else◌, ◌||◌, ◌+◌, ◌-◌, ◌%◌, str_eq, zero_division_error, map,
}
use jetson_dlagreen.Common.Float.{Float, nought, max_from}
use jetson_dlagreen.Common.Int.{ℤ, pos, ◌+ℤ◌}

abbrev pub trace : List (List String)
trace =
    ("language" ∷ [])
    ∷ ("audio" ∷ [])
    ∷ ("language" ∷ "audio" ∷ [])
    ∷ ("language" ∷ "audio" ∷ "language" ∷ "audio" ∷ [])
    ∷ ("audio" ∷ "audio" ∷ "audio" ∷ "audio" ∷ "audio" ∷ "audio" ∷ [])
    ∷ ("language" ∷ "language" ∷ "language" ∷ "language" ∷ "language" ∷ "language" ∷ [])
    ∷ []

-- The arguments that the loop reads.
pub record Arguments (W : Type 0) : Type 0 where
  pub epochs : ℕ
  pub dmr_target : W
  pub language_guard_ms : W
  pub audio_guard_ms : W
  pub guard_override_ms : Option W

-- What the critical task and the workers of an epoch return.
pub record Measured (W : Type 0) : Type 0 where
  pub p99_ms : W
  pub deadline_misses : ℤ
  pub deadline_miss_rate : Option W
  pub pressures : List (String × ℤ)

-- How an epoch's workers and its critical task are started; `gated` with the workers as gates.
pub record Launch (W : Type 0) : Type 0 where
  pub actions : List (String × ℕ)
  pub guard_ms : W
  pub gated : Bool
  pub pressure_priority : String
  pub critical_priority : String

pub record Epoch (W : Type 0) : Type 0 where
  pub epoch : ℕ
  pub offered_modalities : List String
  pub actions : List (String × ℕ)
  pub offered_tenants : ℕ
  pub admitted_tenants : ℕ
  pub rejected_tenants : ℕ
  pub guard_ms : W
  pub critical_p99_ms : W
  pub deadline_misses : ℤ
  pub deadline_miss_rate : W
  pub violated : Bool
  pub completed_language : ℤ
  pub completed_audio : ℤ

pub record Report (W : Type 0) : Type 0 where
  pub deadline_misses : ℤ
  pub violations : ℕ
  pub critical_p99_ms_max : W
  pub pressure_completed : ℤ
  pub rejected_tenants : ℕ
  pub epochs : List (Epoch W)

-- The requests that the workers of a modality completed.
unfoldable pub completed_by : String → List (String × ℤ) → ℤ
completed_by modality [] = pos 0
completed_by modality ((name, completed) ∷ pressures) =
    let rest = completed_by modality pressures in
    if str_eq name modality then completed +ℤ rest else rest

module _ {W : Type 0} ⦃d : Float W⦄ where
  abbrev pub miss_rate_of : Option W → W
  miss_rate_of none = nought
  miss_rate_of (some rate) = rate

  abbrev pub is_violated : Arguments W → W → Measured W → Bool
  is_violated c deadline_ms m =
      d.lt deadline_ms m.p99_ms || d.lt c.dmr_target (miss_rate_of m.deadline_miss_rate)

  abbrev pub launch_of : String → List (String × ℕ) → W → Launch W
  launch_of policy actions guard_ms = record {
    actions = actions;
    guard_ms = guard_ms;
    gated = d.lt nought guard_ms;
    pressure_priority = if str_eq policy "priority-q25" then "low" else "default";
    critical_priority = if str_eq policy "priority-q25" then "high" else "default";
  }

  abbrev pub profile_of : Arguments W → List (String × W)
  profile_of c = ("language", c.language_guard_ms) ∷ ("audio", c.audio_guard_ms) ∷ []

  abbrev pub epoch_of :
      Arguments W → W → ℕ → List String → List (String × ℕ) → W → Measured W → Epoch W
  epoch_of c deadline_ms index offered actions guard_ms m = record {
    epoch = index;
    offered_modalities = offered;
    actions = actions;
    offered_tenants = length offered;
    admitted_tenants = length actions;
    rejected_tenants = length offered - length actions;
    guard_ms = guard_ms;
    critical_p99_ms = m.p99_ms;
    deadline_misses = m.deadline_misses;
    deadline_miss_rate = miss_rate_of m.deadline_miss_rate;
    violated = is_violated c deadline_ms m;
    completed_language = completed_by "language" m.pressures;
    completed_audio = completed_by "audio" m.pressures;
  }

  -- The state behind an epoch.
  abbrev pub feedback : String → Arguments W → W → FeedbackState W → Measured W → FeedbackState W
  feedback policy c deadline_ms s m =
      if str_eq policy "joint-governor"
      then update_feedback s (is_violated c deadline_ms m) m.p99_ms deadline_ms
      else s

module _ {W : Type 0} ⦃d : Float W⦄ (measure : ℕ → Launch W → Result (Measured W)) where
  unfoldable pub run_epoch :
      String → Arguments W → W → ℕ → FeedbackState W → Result (Epoch W × FeedbackState W)
  run_epoch policy c deadline_ms index s = do
    offered ← item trace (index % 6)
    let actions = policy_action policy offered s
    guard_ms ← guard_for policy actions s (some (profile_of c)) c.guard_override_ms
    m ← measure index (launch_of policy actions guard_ms)
    ok (epoch_of c deadline_ms index offered actions guard_ms m, feedback policy c deadline_ms s m)

  -- The loop over the epochs from an index on.
  unfoldable pub run_epochs :
      String → Arguments W → W → ℕ → ℕ → FeedbackState W → Result (List (Epoch W))
  run_epochs policy c deadline_ms index zero s = ok []
  run_epochs policy c deadline_ms index (suc n) s = do
    first ← run_epoch policy c deadline_ms index s
    rest ← run_epochs policy c deadline_ms (suc index) n first.1
    ok (first.0 ∷ rest)

module _ {W : Type 0} where
  unfoldable pub total : (Epoch W → ℕ) → List (Epoch W) → ℕ
  total count [] = 0
  total count (e ∷ epochs) = count e + total count epochs

  unfoldable pub total_ℤ : (Epoch W → ℤ) → List (Epoch W) → ℤ
  total_ℤ count [] = pos 0
  total_ℤ count (e ∷ epochs) = count e +ℤ total_ℤ count epochs

module _ {W : Type 0} ⦃d : Float W⦄ where
  -- The sums over the epochs; without one, the division by their number fails first.
  unfoldable pub report_of : List (Epoch W) → Result (Report W)
  report_of [] = err zero_division_error
  report_of (e ∷ epochs) = ok (record {
    deadline_misses = total_ℤ (λ e. e.deadline_misses) (e ∷ epochs);
    violations = total (λ e. if e.violated then 1 else 0) (e ∷ epochs);
    critical_p99_ms_max = max_from e.critical_p99_ms (map (λ e. e.critical_p99_ms) epochs);
    pressure_completed =
        total_ℤ (λ e. e.completed_language) (e ∷ epochs)
        +ℤ total_ℤ (λ e. e.completed_audio) (e ∷ epochs);
    rejected_tenants = total (λ e. e.rejected_tenants) (e ∷ epochs);
    epochs = e ∷ epochs;
  })

  unfoldable pub run_policy :
      (ℕ → Launch W → Result (Measured W)) → String → Arguments W → W → Result (Report W)
  run_policy measure policy c deadline_ms =
      run_epochs measure policy c deadline_ms 0 c.epochs initial_state >>= report_of
