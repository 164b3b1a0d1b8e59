-- ===== src/Partitioners/Tests.antt =====
-- Runs of the partitioners.
use jetson_dlagreen.Common.Sorting.{sort_by}
use jetson_dlagreen.Partitioners.Parvagpu.{
  ProfilePoint, Rounding, SegmentRequest, Service, allocate_fixed, configure_service, place,
  configure_from, is_eligible, pop_first, by_larger_segment, complete_instances, last_point,
}
use jetson_dlagreen.Partitioners.Gpulet.{
  Decision, Profile, select_partition, fit, decision_of, latency_ok, rate_ok,
}
use jetson_dlagreen.Common.{ℕ, ◌∷◌, [], Bool, true, false, List, ◌≡◌, ◌*◌, ◌-◌, ok, refl, ◌/◌, ◌%◌}
use jetson_dlagreen.Common.Int.{◌+ℤ◌, ◌*ℤ◌, ◌-ℤ◌}
use jetson_dlagreen.Common.Float.{max_from, Micro-IsIeee}
use jetson_dlagreen.Partitioners.Gslice.{
  compute_demand, candidates, is_closer, distance, max_min_pair, resized, violation_factors,
  headroom_factors, share_out,
}
use jetson_dlagreen.Common.Float.{Micro, micro_float}
use jetson_dlagreen.Common.Int.{pos, pos_part}
use jetson_dlagreen.Partitioners.Gslice.Nearest.{snap_pair-IsNearest, IsNearest, separation}
use jetson_dlagreen.Partitioners.Gslice.{next_allocation, snap_pair, finite}
use jetson_dlagreen.Partitioners.Gpulet.BestFit.{select_partition-IsBestFit, IsBestFit}
use jetson_dlagreen.Partitioners.Parvagpu.Configuration.{
  configure_service-IsConfiguration, IsConfiguration,
}
use jetson_dlagreen.Partitioners.Parvagpu.Placement.{allocate_fixed-IsPlacement, IsPlacement}

abbrev ms : ℕ → Micro
ms n = pos (n * 1000000)

-- The pipeline misses its 10 ms deadline by half: it asks for 75 %, the background for 50 %.
allocation : next_allocation (50, 50) (ms 10) (ms 15) (ms 20) (ms 20) (ms 50) ≡ ok (50, 50)
unfolding next_allocation finite compute_demand snap_pair candidates is_closer distance ◌+ℤ◌ ◌*ℤ◌
    ◌-ℤ◌ max_min_pair resized violation_factors headroom_factors max_from share_out
allocation = refl

-- Of 30 and 60 percent wanted, 25 and 50 are the nearest.
snap_pair-IsNearest_example :
    (pair : ℕ × ℕ) × (snap_pair (ms 30) (ms 60) ≡ ok pair) × IsNearest (ms 30) (ms 60) pair
snap_pair-IsNearest_example =
    snap_pair-IsNearest Micro-IsIeee (ms 30) (ms 60)
      (λ pair o. Micro-IsIeee.number_of_finite (separation (ms 30) (ms 60) pair) refl)

abbrev profile : ℕ → ℕ → ℕ → Profile Micro
profile quota p99 rps = record {
  producer_quota = quota;
  background_quota = 100 - quota;
  critical_p50_ms = ms p99;
  critical_p99_ms = ms p99;
  background_mean_ms = ms 1;
  background_rps = ms rps;
  deadline_misses = 0;
  path = "summary.json";
  sha256 = "";
}

abbrev profiles : List (Profile Micro)
profiles = profile 75 8 40 ∷ profile 25 20 90 ∷ profile 50 9 60 ∷ []

abbrev decision : ℕ → Bool → Decision
decision quota late_free = record {
  producer_quota = quota;
  background_quota = 100 - quota;
  latency_ok = late_free;
  background_rate_ok = true;
  schedulable = late_free;
}

-- 25 % is too slow, and of 50 % and 75 % the smaller is taken.
select_partition-IsBestFit_example : IsBestFit (ms 10) (ms 40) profiles (profile 50 9 60) true
unfolding select_partition fit decision_of latency_ok rate_ok ◌*ℤ◌
select_partition-IsBestFit_example =
    select_partition-IsBestFit (ms 10) (ms 40) profiles (profile 50 9 60) true
      (decision 25 false ∷ decision 50 true ∷ decision 75 true ∷ []) refl

abbrev point : ℕ → ℕ → ProfilePoint Micro
point gpc throughput = record {
  model = "bert";
  segment_gpc = gpc;
  batch_size = 1;
  processes = 1;
  throughput = ms throughput;
  latency_ms = ms 4;
}

abbrev request : ℕ → ℕ → SegmentRequest Micro
request gpc throughput = record { model = "bert"; point = point gpc throughput }

-- Two requests on segments of one and two GPCs: the larger one takes the larger segment.
allocate_fixed-IsPlacement_example :
    IsPlacement
      (sort_by by_larger_segment (request 1 100 ∷ request 2 180 ∷ []))
      (1 ∷ 2 ∷ [])
      (allocate_fixed (request 1 100 ∷ request 2 180 ∷ []) (1 ∷ 2 ∷ []))
allocate_fixed-IsPlacement_example =
    allocate_fixed-IsPlacement (request 1 100 ∷ request 2 180 ∷ []) (1 ∷ 2 ∷ [])

served : (allocate_fixed (request 1 100 ∷ request 2 180 ∷ []) (1 ∷ 2 ∷ [])).feasible ≡ true
unfolding allocate_fixed place pop_first
served = refl

-- The floor of a number of millionths that is not negative, and the remainder.
abbrev rounding : Rounding Micro
rounding = record {
  floor = λ x. ok (pos (pos_part x / 1000000));
  fmod = λ x y. pos (pos_part x % pos_part y);
}

abbrev service : Service Micro
service = record { model = "bert"; request_rate = ms 250; slo_ms = ms 20 }

-- 250 requests a second fill two instances of 100, and one more covers the other 50.
configure_service-IsConfiguration_example :
    IsConfiguration rounding service
      (point 1 100 ∷ point 2 180 ∷ [])
      (request 1 100 ∷ request 1 100 ∷ request 1 100 ∷ [])
unfolding configure_service configure_from is_eligible complete_instances last_point ◌*ℤ◌ ◌-ℤ◌
configure_service-IsConfiguration_example =
    configure_service-IsConfiguration rounding service (point 1 100 ∷ point 2 180 ∷ []) Micro-IsIeee
      (refl, (refl, tt)) (request 1 100 ∷ request 1 100 ∷ request 1 100 ∷ []) refl
