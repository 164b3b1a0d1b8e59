-- ===== src/Governor/Tests/Plans.antt =====
-- Instances of the theorems on the workload, the placement and the guard.
use jetson_dlagreen.Governor.Tests.Fixtures.{even_profile, full_offer, mixed_plan, governor_start}
use jetson_dlagreen.Governor.Guard.Covers.{IsCovered, guard_for-covers}
use jetson_dlagreen.Governor.Guard.Loads.{two_loads, guard_for-two_loads}
use jetson_dlagreen.Governor.Placement.Partition.{
  IsPartition, plan_for-IsPartition, is_policy, plan_for-unknown,
}
use jetson_dlagreen.Governor.Workload.{offered_for_epoch}
use jetson_dlagreen.Governor.Guard.{
  guard_for, gated_placements, profiled_guard, placement_loads, add_load, largest_load,
  guard_value_ms,
}
use jetson_dlagreen.Governor.Placement.{PlacementPlan, plan_for, resident_1g, borrower_2g}
use jetson_dlagreen.Common.{
  ◌≡◌, none, true, [], arith, false, err, ok, value_error, All, ◌↔◌, refl, ◌++◌, if◌then◌else◌,
}
use jetson_dlagreen.Common.Int.{◌+ℤ◌, pos, negsuc}
use jetson_dlagreen.Common.Float.{micro_float, Micro-IsIeee, max_from}

negative_epoch :
    offered_for_epoch (negsuc 0) "dependent" ≡ err (value_error "epoch index must be non-negative")
unfolding offered_for_epoch
negative_epoch = refl

plan_for-IsPartition_example :
    (p : PlacementPlan) × (plan_for "mig-governor" full_offer governor_start 25 ≡ ok p)
    × IsPartition full_offer 6 100 25 p
plan_for-IsPartition_example =
    plan_for-IsPartition "mig-governor" full_offer governor_start 25 refl (omega arith)

plan_for-unknown_example :
    (plan_for "other" full_offer governor_start 25 ≡ err (value_error "unknown policy"))
    ↔ (is_policy "other" ≡ false)
plan_for-unknown_example = plan_for-unknown "other" full_offer governor_start 25 (omega arith)

mixed_guard : guard_for "fixed-full-gate" mixed_plan even_profile none ≡ ok (pos 2000000)
unfolding guard_for gated_placements profiled_guard placement_loads add_load largest_load
    guard_value_ms max_from ◌+ℤ◌
mixed_guard = refl

guard_for-two_loads_example :
    guard_for "fixed-full-gate" mixed_plan even_profile none
    ≡ two_loads even_profile
        (if gated_placements "fixed-full-gate" resident_1g then mixed_plan.residents else [])
        (if gated_placements "fixed-full-gate" borrower_2g then mixed_plan.borrowers else [])
guard_for-two_loads_example =
    guard_for-two_loads even_profile "fixed-full-gate" mixed_plan (refl, (refl, tt)) (refl, tt)

guard_for-covers_example :
    All
      (λ a.
        gated_placements "fixed-full-gate" a.placement ≡ true
        → IsCovered Micro-IsIeee even_profile (pos 2000000) a)
      (mixed_plan.residents ++ mixed_plan.borrowers)
guard_for-covers_example =
    guard_for-covers Micro-IsIeee even_profile "fixed-full-gate" mixed_plan (pos 2000000)
      (refl, (refl, tt)) (refl, tt) mixed_guard
