-- ===== src/Governor/Results.antt =====
-- The counts and rates of an epoch's workers: completed_by, worker_rate, rate_by and
-- time_weighted_epoch_rate of runtime/mig_slack_governor.py.
pub mod Totals
use jetson_dlagreen.Governor.Guard.{same_placement, keep_if}
use jetson_dlagreen.Governor.Placement.{Placement}
use jetson_dlagreen.Governor.Workload.{Modality, language, audio}
use jetson_dlagreen.Common.{
  ℕ, Bool, List, Result, map, ◌==◌, traverse, if◌then◌else◌, ◌∷◌, ◌+◌, true, err, [], value_error,
  ◌>>=◌, false, ok,
}
use jetson_dlagreen.Common.Float.{Float, nought}

-- The fields of a worker's JSON result that the governor reads, with the tenant that it ran for.
pub record WorkerResult (W : Type 0) : Type 0 where
  pub tenant_id : ℕ
  pub modality : Modality
  pub placement : Placement
  pub completed_requests : ℕ
  pub elapsed_seconds : W
  pub measurement_start_ns : ℕ
  pub measurement_end_ns : ℕ

-- sum(values), integers.
abbrev pub sum_of : List ℕ → ℕ
sum_of [] = 0
sum_of (n ∷ ns) = n + sum_of ns

abbrev pub same_modality : Modality → Modality → Bool
same_modality language language = true
same_modality audio audio = true
same_modality _ _ = false

module _ {W : Type 0} where
  -- completed_by(results, key, value), with the test for `result[key] == value`.
  unfoldable pub completed_by : (WorkerResult W → Bool) → List (WorkerResult W) → ℕ
  completed_by test results = sum_of (map (λ r. r.completed_requests) (keep_if test results))

  abbrev pub on_placement : Placement → WorkerResult W → Bool
  on_placement p r = same_placement r.placement p

  abbrev pub of_modality : Modality → WorkerResult W → Bool
  of_modality m r = same_modality r.modality m

  abbrev pub of_tenant : ℕ → WorkerResult W → Bool
  of_tenant t r = r.tenant_id == t

  module _ ⦃d : Float W⦄ where
    -- sum(values) of floats, from 0.
    abbrev pub float_sum : W → List W → W
    float_sum total [] = total
    float_sum total (x ∷ xs) = float_sum (d.add total x) xs

    unfoldable pub worker_rate : WorkerResult W → Result W
    worker_rate r =
        if d.le r.elapsed_seconds nought
        then err (value_error "worker reported a non-positive measurement window")
        else ok (d.div (d.decimal r.completed_requests 0) r.elapsed_seconds)

    unfoldable pub rate_by : (WorkerResult W → Bool) → List (WorkerResult W) → Result W
    unfolding worker_rate
    rate_by test results =
        traverse worker_rate (keep_if test results) >>= λ rates. ok (float_sum nought rates)

    -- The epochs as pairs of a rate and its measurement_seconds.
    unfoldable pub time_weighted_epoch_rate : List (W × W) → Result W
    time_weighted_epoch_rate epochs =
        let total_seconds = float_sum nought (map (λ (e : W × W). e.1) epochs) in
        if d.le total_seconds nought
        then err (value_error "epochs reported a non-positive measurement window")
        else ok (d.div (float_sum nought (map (λ (e : W × W). d.mul e.0 e.1) epochs)) total_seconds)
