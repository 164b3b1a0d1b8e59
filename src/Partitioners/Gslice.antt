-- ===== src/Partitioners/Gslice.antt =====
-- compute_demand, max_min_pair, snap_pair and next_allocation of baselines/gslice/run_thor.py.
pub mod Offered
pub mod Nearest
use jetson_dlagreen.Common.Sorting.{least_by}
use jetson_dlagreen.Common.Dict.{keep}
use jetson_dlagreen.Common.{
  ℕ, ◌∷◌, [], none, some, Bool, List, Result, if◌then◌else◌, ◌++◌, map, Option, ◌||◌, ◌&&◌, err,
  ◌>>=◌, value_error, leb, not, ok, ltb, ◌+◌, ◌==◌,
}
use jetson_dlagreen.Common.Float.{absolute, Float, nought, float_min, max_from, float_max}

abbrev pub quotas : List ℕ
quotas = 10 ∷ 25 ∷ 50 ∷ 75 ∷ 90 ∷ []

abbrev pub pairs_with : List ℕ → ℕ → List (ℕ × ℕ)
pairs_with rights left =
    map (λ right. (left, right)) (keep (λ right. leb (left + right) 100) rights)

-- The candidates of snap_pair.
unfoldable pub candidates : List ℕ → List ℕ → List (ℕ × ℕ)
candidates [] rights = []
candidates (left ∷ lefts) rights = pairs_with rights left ++ candidates lefts rights

module _ {W : Type 0} ⦃d : Float W⦄ where
  unfoldable pub finite : W → Result W
  finite value =
      if d.is_finite value && not (d.le value nought)
      then ok value
      else err (value_error "must be finite and positive")

  -- residual / base, if the residual is on the side and its share of `reference` reaches the deadband.
  abbrev pub factor_of : Bool → W → W → W → List W
  factor_of side residual base reference =
      if side
        && d.le (d.decimal 5 0) (d.mul (absolute (d.div residual reference)) (d.decimal 100 0))
      then absolute (d.div residual base) ∷ []
      else []

  -- max(factors), unless there are none.
  abbrev pub largest_factor : List W → Option W
  largest_factor [] = none
  largest_factor (f ∷ fs) = some (max_from f fs)

  unfoldable pub violation_factors : W → W → W → W → List W
  violation_factors slo latency arrival throughput =
      let lateness = d.sub slo latency in
      let shortage = d.sub throughput arrival in
      factor_of (d.lt lateness nought) lateness latency latency
      ++ factor_of (d.lt shortage nought) shortage throughput arrival

  unfoldable pub headroom_factors : W → W → W → W → List W
  headroom_factors slo latency arrival throughput =
      let earliness = d.sub slo latency in
      let surplus = d.sub throughput arrival in
      factor_of (d.lt nought earliness) earliness latency latency
      ++ factor_of (d.lt nought surplus) surplus throughput arrival

  unfoldable pub resized : W → Option W → Option W → W
  resized current (some factor) headroom =
      float_min (d.decimal 100 0) (d.add current (d.mul current factor))
  resized current none (some factor) =
      float_max (d.decimal 1 0) (d.sub current (d.mul current factor))
  resized current none none = current

  unfoldable pub compute_demand : W → W → W → W → W → Result W
  compute_demand current_percent slo_ms average_latency_ms arrival_rps average_throughput_rps = do
    current ← finite current_percent
    slo ← finite slo_ms
    latency ← finite average_latency_ms
    arrival ← finite arrival_rps
    throughput ← finite average_throughput_rps
    ok (
        resized current (largest_factor (violation_factors slo latency arrival throughput))
          (largest_factor (headroom_factors slo latency arrival throughput)))

  -- min(100.0, max(1.0, demand))
  abbrev pub clamp_demand : W → W
  clamp_demand demand = float_min (d.decimal 100 0) (float_max (d.decimal 1 0) demand)

  -- The allocations of the smaller and of the larger demand.
  unfoldable pub share_out : W → W → W × W
  share_out smaller larger =
      if d.le smaller (d.decimal 50 0)
      then (smaller, float_min larger (d.sub (d.decimal 100 0) smaller))
      else (d.decimal 50 0, d.decimal 50 0)

  abbrev pub swapped : W × W → W × W
  swapped (a, b) = (b, a)

  -- The stable sort puts the second demand first only if it is smaller.
  unfoldable pub max_min_pair : W → W → W × W
  max_min_pair first_demand second_demand =
      let first = clamp_demand first_demand in
      let second = clamp_demand second_demand in
      if d.lt second first then swapped (share_out second first) else share_out first second

  abbrev pub square : W → W
  square x = d.mul x x

  -- The squared distance of a pair of quotas from the wanted allocation.
  unfoldable pub distance : W → W → ℕ × ℕ → W
  distance producer background (left, right) =
      d.add (square (d.sub (d.decimal left 0) producer))
        (square (d.sub (d.decimal right 0) background))

  -- The order of the keys: by distance, then by the larger sum, then by the pair.
  unfoldable pub is_closer : W → W → ℕ × ℕ → ℕ × ℕ → Bool
  is_closer producer background a b =
      let x = distance producer background a in
      let y = distance producer background b in
      d.lt x y
      || d.eq x y
        && (ltb (b.0 + b.1) (a.0 + a.1)
            || (a.0 + a.1) == (b.0 + b.1) && (ltb a.0 b.0 || a.0 == b.0 && ltb a.1 b.1))

  -- min(candidates, key=…)
  abbrev pub closest_of : W → W → List (ℕ × ℕ) → Result (ℕ × ℕ)
  closest_of producer background [] = err (value_error "min() arg is an empty sequence")
  closest_of producer background (c ∷ cs) = ok (least_by (is_closer producer background) c cs)

  unfoldable pub snap_pair : W → W → Result (ℕ × ℕ)
  snap_pair producer background = closest_of producer background (candidates quotas quotas)

  unfoldable pub next_allocation : ℕ × ℕ → W → W → W → W → W → Result (ℕ × ℕ)
  next_allocation current deadline_ms pipeline_p50_ms background_period_ms background_mean_ms
        background_throughput_rps =
      do
        deadline ← finite deadline_ms
        pipeline_p50 ← finite pipeline_p50_ms
        period ← finite background_period_ms
        producer_demand ←
            compute_demand (d.decimal current.0 0) deadline_ms pipeline_p50_ms
              (d.div (d.decimal 1000 0) deadline) (d.div (d.decimal 1000 0) pipeline_p50)
        background_demand ←
            compute_demand (d.decimal current.1 0) background_period_ms background_mean_ms
              (d.div (d.decimal 1000 0) period) background_throughput_rps
        let pair = max_min_pair producer_demand background_demand in snap_pair pair.0 pair.1
