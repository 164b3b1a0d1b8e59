-- ===== src/Governor/Tests/Pipes.antt =====
-- Instances of the theorems on the dependency pipes.
use jetson_dlagreen.Governor.Tests.Fixtures.{full_offer}
use jetson_dlagreen.Governor.Pipes.Edges.{
  opened, dependency-failure_closes, edge, dependency-handoffs,
}
use jetson_dlagreen.Governor.Pipes.{
  DependencyPipe, dependency_pipes_for_plan, open_pipes, upstream_of,
}
use jetson_dlagreen.Governor.Placement.Partition.{IsPartition, resident, number_from, borrower}
use jetson_dlagreen.Governor.Workload.{audio, language}
use jetson_dlagreen.Governor.Placement.{PlacementPlan}
use jetson_dlagreen.Common.{
  ℕ, List, ◌≡◌, [], err, suc, ok, ◌+◌, ◌∷◌, refl, zero, Result, os_error, ◌*◌, map,
}
use jetson_dlagreen.Common.Float.{micro_float}

-- Call k of os.pipe returns the descriptors 2k and 2k + 1.
abbrev even_pipes : ℕ → Result (ℕ × ℕ)
even_pipes k = ok (2 * k, 2 * k + 1)

-- The second call fails.
abbrev one_pipe : ℕ → Result (ℕ × ℕ)
one_pipe zero = ok (4, 5)
one_pipe (suc k) = err (os_error "too many open files")

abbrev full_plan : PlacementPlan
full_plan = record {
  residents = number_from (resident 100) 0 (audio ∷ language ∷ audio ∷ []);
  borrowers = number_from (borrower 25) 3 (language ∷ audio ∷ language ∷ []);
}

full_plan-IsPartition : IsPartition full_offer 6 100 25 full_plan
full_plan-IsPartition = record {
  admits = refl;
  numbers = refl;
  resides = ((refl, refl), ((refl, refl), ((refl, refl), tt)));
  borrows = ((refl, refl), ((refl, refl), ((refl, refl), tt)));
}

dependency-handoffs_example :
    (pipes : List DependencyPipe) × (dependency_pipes_for_plan even_pipes full_plan "dependent"
      ≡ (ok pipes, []))
    × (map edge pipes ≡ (0, 1) ∷ (2, 3) ∷ (4, 5) ∷ [])
dependency-handoffs_example =
    dependency-handoffs even_pipes (λ k. ((2 * k, 2 * k + 1), refl)) full_offer 6 100 25 full_plan
      full_plan-IsPartition

pipe_fails :
    dependency_pipes_for_plan one_pipe full_plan "dependent"
    ≡ (err (os_error "too many open files"), 4 ∷ 5 ∷ [])
unfolding dependency_pipes_for_plan open_pipes upstream_of
pipe_fails = refl

dependency-failure_closes_example :
    (k : ℕ) × (one_pipe k ≡ err (os_error "too many open files")) × (4 ∷ 5 ∷ [] ≡ opened one_pipe k)
dependency-failure_closes_example =
    dependency-failure_closes one_pipe full_plan "dependent" (os_error "too many open files")
      (4 ∷ 5 ∷ []) pipe_fails
