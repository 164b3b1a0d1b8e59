-- ===== src/Partitioners/Gpulet.antt =====
-- Profile and select_partition of baselines/gpulet/run_thor.py.
pub mod BestFit
use jetson_dlagreen.Common.Dict.{keep}
use jetson_dlagreen.Common.Sorting.{least_by, sort_by}
use jetson_dlagreen.Common.{
  ℕ, zero, suc, ◌∷◌, [], none, some, Bool, true, false, String, List, ltb, Result, ◌&&◌, err,
  value_error, ok, map,
}
use jetson_dlagreen.Common.Float.{Float}

pub record Profile (W : Type 0) : Type 0 where
  pub producer_quota : ℕ
  pub background_quota : ℕ
  pub critical_p50_ms : W
  pub critical_p99_ms : W
  pub background_mean_ms : W
  pub background_rps : W
  pub deadline_misses : ℕ
  pub path : String
  pub sha256 : String

pub record Decision : Type 0 where
  pub producer_quota : ℕ
  pub background_quota : ℕ
  pub latency_ok : Bool
  pub background_rate_ok : Bool
  pub schedulable : Bool

abbrev pub by_quota : {W : Type 0} → Profile W → Profile W → Bool
by_quota a b = ltb a.producer_quota b.producer_quota

-- max(profiles, key=…) keeps the first of equals, as min does.
abbrev pub by_larger_quota : {W : Type 0} → Profile W → Profile W → Bool
by_larger_quota a b = ltb b.producer_quota a.producer_quota

module _ {W : Type 0} ⦃d : Float W⦄ where
  unfoldable pub latency_ok : W → Profile W → Bool
  latency_ok deadline_ms profile = d.le profile.critical_p99_ms deadline_ms

  unfoldable pub rate_ok : W → Profile W → Bool
  rate_ok background_target_rps profile =
      d.le (d.mul (d.decimal 95 2) background_target_rps) profile.background_rps

  abbrev pub is_schedulable : W → W → Profile W → Bool
  is_schedulable deadline_ms target profile =
      latency_ok deadline_ms profile && rate_ok target profile

  unfoldable pub decision_of : W → W → Profile W → Decision
  decision_of deadline_ms target profile = record {
    producer_quota = profile.producer_quota;
    background_quota = profile.background_quota;
    latency_ok = latency_ok deadline_ms profile;
    background_rate_ok = rate_ok target profile;
    schedulable = is_schedulable deadline_ms target profile;
  }

  -- The feasible profiles' least, or the largest of all.
  unfoldable pub fit : Profile W → List (Profile W) → List (Profile W) → Profile W × Bool
  fit first rest [] = (least_by by_larger_quota first rest, false)
  fit first rest (f ∷ fs) = (least_by by_quota f fs, true)

  unfoldable pub select_partition :
      List (Profile W) → W → W → Result (Profile W × Bool × List Decision)
  select_partition [] deadline_ms target =
      err (value_error "gpulet requires at least one partition profile")
  select_partition (first ∷ rest) deadline_ms target =
      let ordered = sort_by by_quota (first ∷ rest) in
      let chosen = fit first rest (keep (is_schedulable deadline_ms target) ordered) in
      ok (chosen.0, chosen.1, map (decision_of deadline_ms target) ordered)
