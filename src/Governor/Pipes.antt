-- ===== src/Governor/Pipes.antt =====
-- The completion pipes of the dependent scenario: dependency_pipes_for_plan and
-- close_dependency_pipes of runtime/mig_slack_governor.py.
pub mod Edges
use jetson_dlagreen.Governor.Workload.{language, audio}
use jetson_dlagreen.Governor.Results.{same_modality}
use jetson_dlagreen.Governor.Placement.{PlacementPlan, WorkerAction}
use jetson_dlagreen.Common.{
  ℕ, List, Result, ◌∷◌, [], Option, String, ok, if◌then◌else◌, none, some, not, str_eq, length,
  ◌==◌, ◌++◌, err, ◌||◌, ◌-◌,
}

pub record DependencyPipe : Type 0 where
  pub upstream_tenant_id : ℕ
  pub downstream_tenant_id : ℕ
  pub read_fd : ℕ
  pub write_fd : ℕ

-- by_tenant.get(tenant): the last action of that tenant, as in a dict comprehension.
unfoldable pub by_tenant : List WorkerAction → ℕ → Option WorkerAction
by_tenant [] tenant = none
by_tenant (a ∷ actions) tenant = elim (by_tenant actions tenant) [
  | some later ↦ some later
  | none ↦ if a.tenant_id == tenant then some a else none
]

-- The upstream action that an action waits for, if any.
unfoldable pub upstream_of : List WorkerAction → WorkerAction → Option WorkerAction
unfolding by_tenant
upstream_of actions a =
    if not (same_modality a.modality language) || a.tenant_id == 0
    then none
    else elim (by_tenant actions (a.tenant_id - 1)) [
      | none ↦ none
      | some upstream ↦ if same_modality upstream.modality audio then some upstream else none
    ]

abbrev pub fds_of : List DependencyPipe → List ℕ
fds_of [] = []
fds_of (p ∷ pipes) = p.read_fd ∷ p.write_fd ∷ fds_of pipes

-- The loop over the actions, with the pipes made so far. `pipe k` is the k-th call of os.pipe. On
-- an error every descriptor made so far is closed: the second component lists the closed ones.
unfoldable pub open_pipes :
    (ℕ → Result (ℕ × ℕ))
    → List WorkerAction
    → List WorkerAction
    → List DependencyPipe
    → Result (List DependencyPipe) × List ℕ
open_pipes pipe actions [] pipes = (ok pipes, [])
open_pipes pipe actions (a ∷ rest) pipes = elim (upstream_of actions a) [
  | none ↦ open_pipes pipe actions rest pipes
  | some upstream ↦ elim (pipe (length pipes)) [
    | err e ↦ (err e, fds_of pipes)
    | ok (read_fd, write_fd) ↦ open_pipes pipe actions rest (
        pipes
        ++ record {
          upstream_tenant_id = upstream.tenant_id;
          downstream_tenant_id = a.tenant_id;
          read_fd = read_fd;
          write_fd = write_fd;
        }
          ∷ [])
  ]
]

unfoldable pub dependency_pipes_for_plan :
    (ℕ → Result (ℕ × ℕ)) → PlacementPlan → String → Result (List DependencyPipe) × List ℕ
dependency_pipes_for_plan pipe plan scenario =
    if not (str_eq scenario "dependent")
    then (ok [], [])
    else open_pipes pipe (plan.residents ++ plan.borrowers) (plan.residents ++ plan.borrowers) []
