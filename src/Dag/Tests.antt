-- ===== src/Dag/Tests.antt =====
-- Concrete stage graphs: the properties applied to them, and runs of validate_dag.
use jetson_dlagreen.Dag.Schedule.{IsSchedule}
use jetson_dlagreen.Dag.Contract.{
  IsContract, validate_dag-IsContract, IsReadAs, validate_dag-decides,
}
use jetson_dlagreen.Common.Float.{Micro}
use jetson_dlagreen.Common.{String, List, ◌≡◌, ◌∷◌, [], ok, refl, true, ◌⊎◌, err, value_error}
use jetson_dlagreen.Common.Json.{Items, Fields, Json, str, arr, obj}
use jetson_dlagreen.Dag.{
  validate_dag, DagContract, read_stages, read_edges, contract_of, fan_out, contract_from,
  contract_after, topological_order, topological_loop, release_targets, topology_of,
}

abbrev stage : String → Json Micro
stage id = obj (Fields.field "id" (str id) Fields.end)

abbrev edge : String → String → Json Micro
edge source target =
    obj (Fields.field "source" (str source) (Fields.field "target" (str target) Fields.end))

abbrev items : List (Json Micro) → Items Micro
items [] = Items.nil
items (x ∷ xs) = Items.cons x (items xs)

abbrev dag : List (Json Micro) → List (Json Micro) → Fields Micro
dag stages edges =
    Fields.field "stages" (arr (items stages)) (Fields.field "edges" (arr (items edges)) Fields.end)

-- A detector between an input and two heads, its stages not in order.
abbrev detector : Fields Micro
detector =
    dag (stage "boxes" ∷ stage "input" ∷ stage "scores" ∷ stage "backbone" ∷ [])
      (edge "backbone" "boxes" ∷ edge "input" "backbone" ∷ edge "backbone" "scores" ∷ [])

abbrev cyclic : Fields Micro
cyclic = dag (stage "a" ∷ stage "b" ∷ []) (edge "a" "b" ∷ edge "b" "a" ∷ [])

abbrev detector_contract : DagContract
detector_contract = record {
  stage_count = 4;
  edge_count = 3;
  stage_ids = "boxes" ∷ "input" ∷ "scores" ∷ "backbone" ∷ [];
  topological = "input" ∷ "backbone" ∷ "boxes" ∷ "scores" ∷ [];
  topology = fan_out;
  multi_stage_validated = true;
  source_count = 2;
  sink_count = 2;
}

detector_run : validate_dag (obj detector) ≡ ok detector_contract
unfolding validate_dag read_stages read_edges contract_of contract_after topological_order
    topological_loop release_targets topology_of
detector_run = refl

cyclic_run : validate_dag (obj cyclic) ≡ err (value_error "dag precedence graph contains a cycle")
unfolding validate_dag read_stages read_edges contract_of contract_after topological_order
    topological_loop release_targets topology_of
cyclic_run = refl

abbrev cyclic_read : IsReadAs cyclic ("a" ∷ "b" ∷ []) (("a", "b") ∷ ("b", "a") ∷ [])
unfolding read_stages read_edges
cyclic_read = record {
  stages = stage "a" ∷ stage "b" ∷ [];
  edges = edge "a" "b" ∷ edge "b" "a" ∷ [];
  has_stages = refl;
  has_edges = refl;
  read_ids = refl;
  unique = refl;
  read_pairs = refl;
}

validate_dag-IsContract_example : IsContract detector detector_contract
validate_dag-IsContract_example = validate_dag-IsContract detector detector_contract detector_run

validate_dag-decides_example :
    ((order : List String) × (validate_dag (obj cyclic)
        ≡ ok (contract_from ("a" ∷ "b" ∷ []) (("a", "b") ∷ ("b", "a") ∷ []) order))
      × IsSchedule ("a" ∷ "b" ∷ []) (("a", "b") ∷ ("b", "a") ∷ []) order)
    ⊎ ((validate_dag (obj cyclic) ≡ err (value_error "dag precedence graph contains a cycle"))
        × ((order : List String)
            → ¬ (IsSchedule ("a" ∷ "b" ∷ []) (("a", "b") ∷ ("b", "a") ∷ []) order)))
validate_dag-decides_example =
    validate_dag-decides cyclic ("a" ∷ "b" ∷ []) (("a", "b") ∷ ("b", "a") ∷ []) cyclic_read
