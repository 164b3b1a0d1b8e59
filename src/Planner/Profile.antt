-- ===== src/Planner/Profile.antt =====
-- load_pipeline_profile: the latencies, the tail bound and the reservation of a candidate.
use jetson_dlagreen.Dag.{DagContract, validate_dag}
use jetson_dlagreen.Common.Float.{Float, float_max, nought}
use jetson_dlagreen.Common.{
  ℕ, Bool, Result, if◌then◌else◌, ◌>>=◌, String, ok, false, true, ◌&&◌, err, not, ◌||◌, str_eq,
  value_error, type_error, attribute_error,
}
use jetson_dlagreen.Common.Int.{pos}
use jetson_dlagreen.Common.Json.{Items, Fields, Json, null, int, float, str, arr, obj, get_or_null}
use jetson_dlagreen.Planner.{
  Builtins, Candidate, get_from, is_null, is_str, finite_nonnegative, get_default, check_profile,
  positive_int,
}

pub data TailBound : Type 0 where
  joint_request_p99 measured_production_wall_p99 explicit_risk_budget legacy_component_p99_sum :
      TailBound

abbrev pub is_promotable : TailBound → Bool
is_promotable legacy_component_p99_sum = false
is_promotable _ = true

-- What load_pipeline_profile returns, less the profile's path and digest, the placement and the
-- fields that repeat the candidate's and the profile's.
pub record Evaluation (W : Type 0) : Type 0 where
  pub candidate : Candidate W
  pub dag_contract : DagContract
  pub transport : Json W
  pub tail_bound_method : TailBound
  pub tail_bound_promotable : Bool
  pub response_reservation_us : W
  pub uncovered_guard_us : W
  pub arrival_to_completion_reservation_us : W
  pub observed_end_to_end_p99_us : W
  pub payload_validation_excluded : Bool
  pub deadline_us : W
  pub reserved_slack_us : W
  pub background_goodput_rps : W
  pub feasible : Bool

-- The component p99 values, in the order of the legacy sum.
pub record Latencies (W : Type 0) : Type 0 where
  pub producer_us : W
  pub transport_us : W
  pub consumer_us : W
  pub verification_us : W

-- "validation-excluded" is `true`; the default depends on the presence of such a measurement.
unfoldable pub deadline_mode : {W : Type 0} → Json W → Json W → Result Bool
deadline_mode null validation_excluded = ok (not (is_null validation_excluded))
deadline_mode (str mode) validation_excluded =
    if str_eq mode "validation-excluded"
    then ok true
    else if str_eq mode "wall"
    then ok false
    else err (value_error "profile deadline mode is unsupported")
deadline_mode (arr items) validation_excluded = err type_error
deadline_mode (obj fields) validation_excluded = err type_error
deadline_mode _ validation_excluded = err (value_error "profile deadline mode is unsupported")

-- profile.get("end_to_end_us", {}).get("p99")
abbrev pub end_to_end_p99 : {W : Type 0} → Fields W → Result (Json W)
end_to_end_p99 profile = get_from "p99" (get_default "end_to_end_us" (obj Fields.end) profile)

abbrev pub is_wall_pipeline : {W : Type 0} → Json W → Bool
is_wall_pipeline pipeline =
    is_str "resnet10-backbone-to-learned-detection-head" pipeline
    || is_str "resnet50-backbone-to-classification-head" pipeline

module _ {W : Type 0} ⦃d : Float W⦄ (b : Builtins W) where
  -- The value of the transport's p99, by the absence of transport_notification_p99: the precise one
  -- if it was measured, in whole or in parts.
  unfoldable pub transport_value : Bool → Fields W → Result (Json W)
  transport_value true stage = ok (get_or_null "transport_ready_p99" stage)
  transport_value false stage = do
    producer ← finite_nonnegative b (get_default "producer_handoff_copy_p99" (int (pos 0)) stage)
    notification ← finite_nonnegative b (get_or_null "transport_notification_p99" stage)
    consumer ← finite_nonnegative b (get_default "consumer_handoff_copy_p99" (int (pos 0)) stage)
    let precise =
        get_default "edge_transport_p99" (float (d.add (d.add producer notification) consumer))
          stage
    ok (if is_null precise then get_or_null "transport_ready_p99" stage else precise)

  unfoldable pub transport_p99 : Fields W → Result W
  transport_p99 stage = do
    value ← transport_value (is_null (get_or_null "transport_notification_p99" stage)) stage
    finite_nonnegative b value

  unfoldable pub read_latencies : Fields W → Result (Latencies W)
  read_latencies stage = do
    producer ← finite_nonnegative b (get_or_null "producer_compute_p99" stage)
    transport ← transport_p99 stage
    consumer ← finite_nonnegative b (get_or_null "consumer_compute_p99" stage)
    verification ← finite_nonnegative b (get_or_null "output_verification_p99" stage)
    ok (record {
      producer_us = producer;
      transport_us = transport;
      consumer_us = consumer;
      verification_us = verification;
    })

  -- The loop over risk_budget.items().
  unfoldable pub add_budget : W → Fields W → Result W
  add_budget total Fields.end = ok total
  add_budget total (Fields.field name value fields) = do
    part ← finite_nonnegative b value
    add_budget (d.add total part) fields

  unfoldable pub component_sum : Latencies W → W → W
  component_sum l margin =
      d.add (d.add (d.add (d.add l.producer_us l.transport_us) l.consumer_us) l.verification_us)
        margin

  -- The joint tail that the profile gives, or the wall that it measured.
  unfoldable pub joint_tail_of : Fields W → Bool → Result (Json W)
  joint_tail_of profile validation_excluded =
      if is_null (get_or_null "joint_tail_p99_us" profile)
        && not validation_excluded
        && is_null (get_or_null "risk_budget_us" profile)
        && is_wall_pipeline (get_or_null "pipeline" profile)
      then end_to_end_p99 profile
      else ok (get_or_null "joint_tail_p99_us" profile)

  -- From a risk budget that is given.
  unfoldable pub budget_bound : Json W → W → Result (TailBound × W)
  budget_bound (obj (Fields.field name value fields)) margin = do
    total ← add_budget margin (Fields.field name value fields)
    ok (explicit_risk_budget, total)
  budget_bound _ margin = err (value_error "risk_budget_us must be a nonempty object")

  -- From a joint tail that is given.
  unfoldable pub joint_bound : Bool → Json W → W → Result (TailBound × W)
  joint_bound explicit joint_tail margin = do
    joint ← finite_nonnegative b joint_tail
    ok (if explicit then joint_request_p99 else measured_production_wall_p99, d.add joint margin)

  -- By the absence of the joint tail and of the risk budget.
  unfoldable pub choose_bound :
      Bool → Bool → Bool → Json W → Json W → Latencies W → W → Result (TailBound × W)
  choose_bound false false explicit joint_tail risk_budget l margin =
      err (value_error "profile cannot provide both joint tail and risk budget")
  choose_bound false true explicit joint_tail risk_budget l margin =
      joint_bound explicit joint_tail margin
  choose_bound true false explicit joint_tail risk_budget l margin = budget_bound risk_budget margin
  choose_bound true true explicit joint_tail risk_budget l margin =
      ok (legacy_component_p99_sum, component_sum l margin)

  -- The tail bound's method and response_reservation_us.
  unfoldable pub tail_bound : Bool → Json W → Json W → Latencies W → W → Result (TailBound × W)
  tail_bound explicit joint_tail risk_budget l margin =
      choose_bound (is_null joint_tail) (is_null risk_budget) explicit joint_tail risk_budget l
        margin

  -- The dag that goes into the plan.
  abbrev pub plan_dag : String × String → Latencies W → ℕ → Json W → Json W
  plan_dag (producer, consumer) l payload_bytes transport = obj (
      Fields.field "stages"
        (arr (
          Items.cons
            (obj (
              Fields.field "id" (str producer)
                (Fields.field "p99_us" (float l.producer_us) Fields.end)))
            (Items.cons
              (obj (
                Fields.field "id" (str consumer)
                  (Fields.field "p99_us" (float l.consumer_us) Fields.end)))
              Items.nil)))
        (Fields.field "edges"
          (arr (
            Items.cons
              (obj (
                Fields.field "source" (str producer) (
                  Fields.field "target" (str consumer) (
                    Fields.field "payload_bytes" (int (pos payload_bytes)) (
                      Fields.field "transport" transport
                        (Fields.field "p99_us" (float l.transport_us) Fields.end))))))
              Items.nil))
          (Fields.field "output_verification_p99_us" (float l.verification_us) Fields.end)))

  -- What the candidate and its profile give, less the profile's checks.
  unfoldable pub evaluation_of :
      Candidate W → W → W → DagContract → Json W → TailBound × W → W → Bool → Evaluation W
  evaluation_of c deadline_us critical_lookahead_us contract transport (method, response) observed
        excluded =
      let uncovered = float_max nought (d.sub c.pre_release_guard_p99_us critical_lookahead_us) in
      let arrival = d.add response uncovered in
      record {
        candidate = c;
        dag_contract = contract;
        transport = transport;
        tail_bound_method = method;
        tail_bound_promotable = is_promotable method;
        response_reservation_us = response;
        uncovered_guard_us = uncovered;
        arrival_to_completion_reservation_us = arrival;
        observed_end_to_end_p99_us = observed;
        payload_validation_excluded = excluded;
        deadline_us = deadline_us;
        reserved_slack_us = d.sub deadline_us arrival;
        background_goodput_rps = c.background_goodput_rps;
        feasible = d.le arrival deadline_us && d.le observed deadline_us;
      }

  -- From the stage latencies on.
  unfoldable pub evaluate_stage :
      Candidate W → W → W → Fields W → String × String → Fields W → Result (Evaluation W)
  evaluate_stage c deadline_us critical_lookahead_us profile names stage = do
    l ← read_latencies stage
    let validation_excluded = get_or_null "validation_excluded_end_to_end_p99" stage
    excluded ← deadline_mode (get_or_null "deadline_mode" profile) validation_excluded
    observed_value ← if excluded then ok validation_excluded else end_to_end_p99 profile
    observed ← finite_nonnegative b observed_value
    joint_tail ← joint_tail_of profile excluded
    bound ←
        tail_bound (not (is_null (get_or_null "joint_tail_p99_us" profile))) joint_tail
          (get_or_null "risk_budget_us" profile) l c.reservation_margin_us
    payload_bytes ← positive_int (get_or_null "payload_bytes" profile)
    contract ← validate_dag (plan_dag names l payload_bytes (get_or_null "transport" profile))
    ok (
        evaluation_of c deadline_us critical_lookahead_us contract (get_or_null "transport" profile)
          bound observed excluded)

  unfoldable pub read_stage : Json W → Result (Fields W)
  read_stage (obj stage) = ok stage
  read_stage _ = err (value_error "profile lacks stage_latency_us")

  -- load_pipeline_profile; `profile` is what the profile's file holds.
  unfoldable pub load_pipeline_profile : Candidate W → W → W → Json W → Result (Evaluation W)
  load_pipeline_profile c deadline_us critical_lookahead_us (obj profile) = do
    names ← check_profile b profile
    stage ← read_stage (get_or_null "stage_latency_us" profile)
    evaluate_stage c deadline_us critical_lookahead_us profile names stage
  load_pipeline_profile c deadline_us critical_lookahead_us _ = err attribute_error
