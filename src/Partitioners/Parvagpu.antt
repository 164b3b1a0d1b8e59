-- ===== src/Partitioners/Parvagpu.antt =====
-- configure_service, allocate_fixed and run of baselines/parvagpu/thor_adapter.py.
pub mod Placement
pub mod Configuration
use jetson_dlagreen.Common.Dict.{keep}
use jetson_dlagreen.Common.Int.{ℤ, pos_part}
use jetson_dlagreen.Common.Sorting.{sort_by, least_by}
use jetson_dlagreen.Common.{
  ℕ, zero, suc, ◌∷◌, [], none, some, Bool, true, false, String, List, runtime_error, str_eq, Option,
  ltb, Result, Error, if◌then◌else◌, ◌>>=◌, err, ◌&&◌, ◌==◌, ok, leb, ◌++◌, ◌-◌,
}
use jetson_dlagreen.Common.Float.{Float, nought}

pub record ProfilePoint (W : Type 0) : Type 0 where
  pub model : String
  pub segment_gpc : ℕ
  pub batch_size : ℕ
  pub processes : ℕ
  pub throughput : W
  pub latency_ms : W

pub record Service (W : Type 0) : Type 0 where
  pub model : String
  pub request_rate : W
  pub slo_ms : W

pub record SegmentRequest (W : Type 0) : Type 0 where
  pub model : String
  pub point : ProfilePoint W

-- One entry of the allocation: the request and the physical segment that it gets.
pub record Allocated (W : Type 0) : Type 0 where
  pub request : SegmentRequest W
  pub physical_segment_gpc : ℕ

pub record Outcome (W : Type 0) : Type 0 where
  pub feasible : Bool
  pub allocation : List (Allocated W)
  pub reason : Option Error

-- int(math.floor(x)) and math.fmod(x, y).
pub record Rounding (W : Type 0) : Type 0 where
  pub floor : W → Result ℤ
  pub fmod : W → W → W

abbrev pub supported_segments : List ℕ
supported_segments = 1 ∷ 2 ∷ []

module _ {W : Type 0} ⦃d : Float W⦄ where
  -- point.latency_ms < service.slo_ms / 2.0 * SLO_HEADROOM
  unfoldable pub is_eligible : Service W → ProfilePoint W → Bool
  is_eligible service point =
      str_eq point.model service.model
      && d.lt point.latency_ms (d.mul (d.div service.slo_ms (d.decimal 2 0)) (d.decimal 9 1))

  -- point.throughput / size
  abbrev pub per_gpc : ProfilePoint W → ℕ → W
  per_gpc point size = d.div point.throughput (d.decimal size 0)

  -- Of greater throughput per GPC.
  abbrev pub by_density : ProfilePoint W → ProfilePoint W → Bool
  by_density a b = d.lt (per_gpc b b.segment_gpc) (per_gpc a a.segment_gpc)

  -- max(candidates, key=…), unless there are none.
  abbrev pub densest : List (ProfilePoint W) → Option (ProfilePoint W)
  densest [] = none
  densest (p ∷ ps) = some (least_by by_density p ps)

  -- by_size.get(size)
  abbrev pub of_size : List (ProfilePoint W) → ℕ → Option (ProfilePoint W)
  of_size eligible size = densest (keep (λ p. p.segment_gpc == size) eligible)

  abbrev pub if_covers :
      W → Option (ProfilePoint W) → Option (ProfilePoint W) → Option (ProfilePoint W)
  if_covers remainder none otherwise = otherwise
  if_covers remainder (some point) otherwise =
      if d.le remainder point.throughput then some point else otherwise

  -- The first size whose point covers the remainder.
  unfoldable pub last_point : List (ProfilePoint W) → W → List ℕ → Option (ProfilePoint W)
  last_point eligible remainder [] = none
  last_point eligible remainder (size ∷ sizes) =
      if_covers remainder (of_size eligible size) (last_point eligible remainder sizes)

  abbrev pub copies : ℕ → SegmentRequest W → List (SegmentRequest W)
  copies zero r = []
  copies (suc n) r = r ∷ copies n r

  abbrev pub request_for : Service W → ProfilePoint W → SegmentRequest W
  request_for service point = record { model = service.model; point = point }

  module _ (r : Rounding W) where
    -- How many instances of the optimal point are filled.
    unfoldable pub complete_instances : W → W → Result ℕ
    complete_instances rate throughput = do
      whole ← r.floor (d.div rate throughput)
      ok (if d.eq (r.fmod rate throughput) nought then pos_part whole - 1 else pos_part whole)

    abbrev pub remainder_of : Service W → ProfilePoint W → ℕ → W
    remainder_of service optimal complete =
        d.sub service.request_rate (d.mul (d.decimal complete 0) optimal.throughput)

    -- segments + [last], or the demand cannot be covered.
    abbrev pub with_last :
        Service W
        → List (SegmentRequest W)
        → Option (ProfilePoint W)
        → Result (List (SegmentRequest W))
    with_last service segments none =
        err (runtime_error "ParvaGPU cannot cover the remaining demand")
    with_last service segments (some point) = ok (segments ++ (request_for service point ∷ []))

    -- The configuration from the eligible points.
    unfoldable pub configure_from :
        Service W → List (ProfilePoint W) → Result (List (SegmentRequest W))
    configure_from service [] = err (runtime_error "no SLO-feasible ParvaGPU profile")
    configure_from service (p ∷ ps) =
        let optimal = least_by by_density p ps in
        complete_instances service.request_rate optimal.throughput >>= (λ complete.
          with_last service (copies complete (request_for service optimal))
            (last_point (p ∷ ps) (remainder_of service optimal complete) supported_segments))

    unfoldable pub configure_service :
        Service W → List (ProfilePoint W) → Result (List (SegmentRequest W))
    configure_service service profiles =
        configure_from service (keep (is_eligible service) profiles)

abbrev pub behind : ℕ → Option (ℕ × List ℕ) → Option (ℕ × List ℕ)
behind bin none = none
behind bin (some (found, others)) = some (found, bin ∷ others)

-- bins.pop(index) at the first index whose segment is large enough.
unfoldable pub pop_first : ℕ → List ℕ → Option (ℕ × List ℕ)
pop_first size [] = none
pop_first size (bin ∷ bins) =
    let rest = pop_first size bins in if leb size bin then some (bin, bins) else behind bin rest

module _ {W : Type 0} where
  abbrev pub by_larger_segment : SegmentRequest W → SegmentRequest W → Bool
  by_larger_segment a b = ltb b.point.segment_gpc a.point.segment_gpc

  abbrev pub place_at : SegmentRequest W → Option (ℕ × List ℕ) → (List ℕ → Outcome W) → Outcome W
  place_at request none next = record {
    feasible = false;
    allocation = [];
    reason = some (runtime_error "insufficient fixed MIG segments");
  }
  place_at request (some (physical, others)) next =
      let o = next others in
      record o {
        allocation = (record { request = request; physical_segment_gpc = physical }) ∷ o.allocation;
      }

  unfoldable pub place : List (SegmentRequest W) → List ℕ → Outcome W
  place [] bins = record { feasible = true; allocation = []; reason = none }
  place (request ∷ requests) bins =
      place_at request (pop_first request.point.segment_gpc bins) (place requests)

  unfoldable pub allocate_fixed : List (SegmentRequest W) → List ℕ → Outcome W
  allocate_fixed requests available_segments =
      place (sort_by by_larger_segment requests) (sort_by (λ a b. ltb b a) available_segments)

module _ {W : Type 0} ⦃d : Float W⦄ (r : Rounding W) where
  -- A RuntimeError ends the configuration; other errors leave `run`.
  abbrev pub failed :
      List (SegmentRequest W) → Error → Result (List (SegmentRequest W) × Option Error)
  failed requests (runtime_error message) = ok (requests, some (runtime_error message))
  failed requests e = err e

  -- The requests of the services, and the RuntimeError of the first that has none.
  unfoldable pub configure_all :
      List (ProfilePoint W)
      → List (SegmentRequest W)
      → List (Service W)
      → Result (List (SegmentRequest W) × Option Error)
  configure_all profiles requests [] = ok (requests, none)
  configure_all profiles requests (service ∷ services) =
      elim (configure_service r service profiles) [
        | err e ↦ failed requests e
        | ok segments ↦ configure_all profiles (requests ++ segments) services
      ]

  abbrev pub outcome_of :
      List ℕ → List (SegmentRequest W) × Option Error → Outcome W × List (SegmentRequest W)
  outcome_of available (requests, none) = (allocate_fixed requests available, requests)
  outcome_of available (requests, some e) =
      (record { feasible = false; allocation = []; reason = some e }, requests)

  -- The outcome and the segment requests.
  unfoldable pub run :
      List (Service W)
      → List (ProfilePoint W)
      → List ℕ
      → Result (Outcome W × List (SegmentRequest W))
  run services profiles available =
      configure_all profiles [] services >>= (λ c. ok (outcome_of available c))
