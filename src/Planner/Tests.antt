-- ===== src/Planner/Tests.antt =====
-- Concrete profiles and candidates: the properties applied to them, and a run of the planner.
use jetson_dlagreen.Planner.Described.{IsParsed}
use jetson_dlagreen.Planner.Parsed.{parse_candidate-IsParsed}
use jetson_dlagreen.Planner.Candidates.{
  parse_candidate, check_keys, get_item, read_placement, read_scope, read_path,
}
use jetson_dlagreen.Planner.Best.{IsChoice}
use jetson_dlagreen.Planner.Choice.{IsEntries, select_from-IsChoice}
use jetson_dlagreen.Planner.Profile.{
  load_pipeline_profile, Evaluation, measured_production_wall_p99, deadline_mode, transport_value,
  transport_p99, read_latencies, add_budget, component_sum, joint_tail_of, budget_bound,
  joint_bound, choose_bound, tail_bound, evaluation_of, evaluate_stage, read_stage,
}
use jetson_dlagreen.Dag.{
  DagContract, two_stage_chain, validate_dag, read_stages, read_edges, contract_of, contract_after,
  topological_order, topological_loop, release_targets, topology_of,
}
use jetson_dlagreen.Common.{
  [], ◌∷◌, some, ok, ℕ, String, List, ◌≡◌, err, Bool, ◌*◌, value_error, true, false, ◌+◌, Result,
  os_error, if◌then◌else◌, refl, str_eq, ◌↔◌,
}
use jetson_dlagreen.Common.Int.{pos, negsuc, ◌*ℤ◌, ◌+ℤ◌, ◌-ℤ◌}
use jetson_dlagreen.Common.Float.{Micro, micro_float, Micro-IsIeee, shrink}
use jetson_dlagreen.Common.Json.{Fields, Json, int, str, obj}
use jetson_dlagreen.Planner.Selection.{
  evaluated, refused, Plan, select_from, evaluate_all, entry_of, feasible_of, select, best_from,
  key_lt,
}
use jetson_dlagreen.Planner.{
  Builtins, Candidate, at_least_two, checked_nonnegative, finite_nonnegative, stage_names,
  check_profile,
}

abbrev builtins : Builtins Micro
builtins = record {
  of_int = λ n. ok (n *ℤ pos 1000000);
  truncate = λ x. ok (shrink x);
  parse_int = λ s. err (value_error "invalid literal for int()");
}

abbrev number : ℕ → Json Micro
number n = int (pos n)

abbrev object : List (String × Json Micro) → Fields Micro
object [] = Fields.end
object ((name, value) ∷ fields) = Fields.field name value (object fields)

-- A profile whose requests took `wall` at the 99th percentile, and its parts 10, 20, 30 and 5.
abbrev profile : ℕ → Fields Micro
profile wall = object (
    ("status", str "ok")
    ∷ ("pipeline", str "resnet50-backbone-to-classification-head")
    ∷ ("checksum_failures", number 0)
    ∷ ("iterations", number 200)
    ∷ ("unique_payload_checksums", number 8)
    ∷ ("unique_policy_output_checksums", number 8)
    ∷ (
      "stage_latency_us",
      obj (
          object (
            ("producer_compute_p99", number 10)
            ∷ ("transport_ready_p99", number 20)
            ∷ ("consumer_compute_p99", number 30)
            ∷ ("output_verification_p99", number 5)
            ∷ [])),
    )
    ∷ ("end_to_end_us", obj (object (("p99", number wall) ∷ [])))
    ∷ ("payload_bytes", number 4096)
    ∷ ("transport", str "registered-direct")
    ∷ [])

abbrev candidate : String → ℕ → Candidate Micro
candidate name goodput = record {
  candidate_id = name;
  profile_path = name;
  placement = Fields.end;
  placement_variant = "fixed-1g-producer-2g-consumer";
  background_goodput_rps = pos (goodput * 1000000);
  pre_release_guard_p99_us = pos 15000000;
  reservation_margin_us = pos 3000000;
  protection_scope = "producer";
}

abbrev deadline : Micro
deadline = pos 100000000

abbrev lookahead : Micro
lookahead = pos 10000000

-- The contract of the two stages.
abbrev chain : DagContract
chain = record {
  stage_count = 2;
  edge_count = 1;
  stage_ids = "backbone" ∷ "classification-head" ∷ [];
  topological = "backbone" ∷ "classification-head" ∷ [];
  topology = two_stage_chain;
  multi_stage_validated = false;
  source_count = 1;
  sink_count = 1;
}

abbrev evaluation : String → ℕ → ℕ → Micro → Bool → Evaluation Micro
evaluation name goodput wall slack feasible = record {
  candidate = candidate name goodput;
  dag_contract = chain;
  transport = str "registered-direct";
  tail_bound_method = measured_production_wall_p99;
  tail_bound_promotable = true;
  response_reservation_us = pos ((wall + 3) * 1000000);
  uncovered_guard_us = pos 5000000;
  arrival_to_completion_reservation_us = pos ((wall + 8) * 1000000);
  observed_end_to_end_p99_us = pos (wall * 1000000);
  payload_validation_excluded = false;
  deadline_us = deadline;
  reserved_slack_us = slack;
  background_goodput_rps = pos (goodput * 1000000);
  feasible = feasible;
}

abbrev read_profile : Candidate Micro → Result (Json Micro)
read_profile c =
    if str_eq c.candidate_id "q50-q25"
    then ok (obj (profile 70))
    else if str_eq c.candidate_id "q75-q25"
    then ok (obj (profile 60))
    else if str_eq c.candidate_id "q90-q100"
    then ok (obj (profile 99))
    else err (os_error "no such file")

abbrev candidates : List (Candidate Micro)
candidates =
    candidate "q50-q25" 40
    ∷ candidate "q75-q25" 40
    ∷ candidate "q90-q100" 80
    ∷ candidate "lost" 90
    ∷ []

abbrev plan : Plan Micro
plan = record {
  selected_plan = some (evaluation "q75-q25" 40 60 (pos 32000000) true);
  candidates =
      evaluated (evaluation "q50-q25" 40 70 (pos 22000000) true)
      ∷ evaluated (evaluation "q75-q25" 40 60 (pos 32000000) true)
      ∷ evaluated (evaluation "q90-q100" 80 99 (negsuc 6999999) false)
      ∷ refused (candidate "lost" 90) (os_error "no such file")
      ∷ [];
}

select_run : select_from builtins read_profile deadline lookahead candidates ≡ ok plan
unfolding at_least_two checked_nonnegative finite_nonnegative stage_names check_profile
    deadline_mode transport_value transport_p99 read_latencies add_budget component_sum
    joint_tail_of budget_bound joint_bound choose_bound tail_bound evaluation_of evaluate_stage
    read_stage load_pipeline_profile validate_dag read_stages read_edges contract_of contract_after
    topological_order topological_loop release_targets topology_of select_from evaluate_all entry_of
    feasible_of select best_from key_lt ◌*ℤ◌ ◌+ℤ◌ ◌-ℤ◌
select_run = refl

select_from-IsChoice_example :
    IsEntries Micro-IsIeee builtins read_profile deadline lookahead candidates plan.candidates
    × IsChoice plan.candidates plan.selected_plan
select_from-IsChoice_example =
    select_from-IsChoice Micro-IsIeee builtins read_profile deadline lookahead candidates plan refl
      ((refl, refl), ((refl, refl), ((refl, refl), ((refl, refl), tt)))) select_run

abbrev raw_candidate : Fields Micro
raw_candidate = object (
    ("candidate_id", str "q50-q25")
    ∷ ("profile_path", str "q50-q25.json")
    ∷ ("placement", obj (object (("producer", str "1g-q50") ∷ ("consumer", str "2g-q100") ∷ [])))
    ∷ ("background_goodput_rps", number 40)
    ∷ ("pre_release_guard_p99_us", number 15)
    ∷ ("reservation_margin_us", number 3)
    ∷ ("workload", str "vision")
    ∷ [])

abbrev parsed_candidate : Candidate Micro
parsed_candidate = record {
  candidate_id = "q50-q25";
  profile_path = "q50-q25.json";
  placement = object (("producer", str "1g-q50") ∷ ("consumer", str "2g-q100") ∷ []);
  placement_variant = "fixed-1g-producer-2g-consumer";
  background_goodput_rps = pos 40000000;
  pre_release_guard_p99_us = pos 15000000;
  reservation_margin_us = pos 3000000;
  protection_scope = "producer";
}

parse_run : parse_candidate builtins (λ path. ok path) raw_candidate ≡ ok parsed_candidate
unfolding parse_candidate check_keys get_item read_placement read_scope read_path finite_nonnegative
    checked_nonnegative ◌*ℤ◌ ◌+ℤ◌ ◌-ℤ◌
parse_run = refl

parse_candidate-IsParsed_example :
    (parse_candidate builtins (λ path. ok path) raw_candidate ≡ ok parsed_candidate)
    ↔ IsParsed builtins (λ path. ok path) raw_candidate parsed_candidate
parse_candidate-IsParsed_example =
    parse_candidate-IsParsed Micro-IsIeee builtins (λ path. ok path) raw_candidate parsed_candidate
