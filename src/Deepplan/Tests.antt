-- ===== src/Deepplan/Tests.antt =====
-- A concrete profile: the properties applied to it, and runs of the planner.
use jetson_dlagreen.Deepplan.Steps.{IsRun}
use jetson_dlagreen.Deepplan.Laws.{MayDynamic, MayStatic}
use jetson_dlagreen.Deepplan.Planned.{IsPlanned, validate_layers-IsPlanned}
use jetson_dlagreen.Deepplan.Validation.{IsConversion}
use jetson_dlagreen.Common.{
  ℕ, ◌∷◌, [], List, ◌*◌, ok, String, err, subst, ◌≡◌, value_error, refl, ok_injective, arith,
  count_up, suc, length,
}
use jetson_dlagreen.Common.Int.{pos, ◌+ℤ◌, ◌-ℤ◌, ◌*ℤ◌}
use jetson_dlagreen.Common.Json.{Items, Fields, Json, int, str, arr, obj}
use jetson_dlagreen.Common.Float.{Micro, micro_float, Micro-IsIeee, shrink, nought, ◌≼◌}
use jetson_dlagreen.Deepplan.{
  Layer, load_then_execute, direct_host_access, ExecType, validate_layers, static_plan,
  PlannedLayer, static_layer, validate_from, naive_plan, validate_layer, execution_trace,
  check_index, size_of, time_of, set_direct, trace_from, next_row, next_row_of, loaded_row,
}
use jetson_dlagreen.Deepplan.Dynamic.{
  dynamic_plan, boundaries, at_boundary, resolve_stall, visit_all, visit_candidate, move_candidate,
  sort_layers, insert_layer,
}
use jetson_dlagreen.Planner.{Builtins}

abbrev us : ℕ → Micro
us n = pos (n * 1000000)

abbrev builtins : Builtins Micro
builtins = record {
  of_int = λ n. ok (n *ℤ pos 1000000);
  truncate = λ x. ok (shrink x);
  parse_int = λ s. err (value_error "invalid literal for int()");
}

builtins-IsConversion : IsConversion builtins
unfolding ◌*ℤ◌
builtins-IsConversion n x h = subst (λ z. nought ≼ z) (ok_injective h) (ground arith)

abbrev layer : ℕ → String → ℕ → ℕ → ℕ → ℕ → Layer Micro
layer i name size load exec host = record {
  index = i;
  layer_type = name;
  size_bytes = size;
  load_time_us = us load;
  cuda_exec_time_us = us exec;
  cuda_host_exec_time_us = us host;
}

abbrev source : ℕ → String → ℕ → ℕ → ℕ → ℕ → Json Micro
source i name size load exec host = obj (
    Fields.field "index" (int (pos i)) (
      Fields.field "layer_type" (str name) (
        Fields.field "size_bytes" (int (pos size)) (
          Fields.field "load_time_us" (int (pos load)) (
            Fields.field "cuda_exec_time_us" (int (pos exec))
              (Fields.field "cuda_host_exec_time_us" (int (pos host)) Fields.end))))))

abbrev layers : List (Layer Micro)
layers = layer 0 "Conv2d" 64 10 4 5 ∷ layer 1 "ReLU" 0 0 1 1 ∷ layer 2 "BatchNorm2d" 8 3 1 9 ∷ []

abbrev profile : Json Micro
profile = arr (
    Items.cons (source 0 "Conv2d" 64 10 4 5) (
      Items.cons (source 1 "ReLU" 0 0 1 1) (Items.cons (source 2 "BatchNorm2d" 8 3 1 9) Items.nil)))

abbrev planned : ExecType → ExecType → ExecType → List (PlannedLayer Micro)
planned x y z =
    record { layer = layer 0 "Conv2d" 64 10 4 5; exec_type = x }
    ∷ record { layer = layer 1 "ReLU" 0 0 1 1; exec_type = y }
    ∷ record { layer = layer 2 "BatchNorm2d" 8 3 1 9; exec_type = z }
    ∷ []

validate_run : validate_layers builtins profile ≡ ok layers
unfolding validate_layers validate_from validate_layer check_index size_of time_of ◌*ℤ◌
validate_run = refl

static_run : static_plan layers ≡ planned direct_host_access direct_host_access direct_host_access
unfolding static_plan static_layer naive_plan ◌+ℤ◌
static_run = refl

dynamic_run :
    dynamic_plan layers ≡ ok (planned direct_host_access direct_host_access load_then_execute)
unfolding dynamic_plan boundaries at_boundary resolve_stall visit_all visit_candidate move_candidate
    set_direct sort_layers insert_layer naive_plan execution_trace trace_from next_row next_row_of
    loaded_row ◌+ℤ◌ ◌-ℤ◌ ◌*ℤ◌
dynamic_run = refl

validate_layers-IsPlanned_example :
    (plan : List (PlannedLayer Micro)) × (dynamic_plan layers ≡ ok plan)
    × IsRun
        (count_up 0 (suc (length (naive_plan layers))))
        (naive_plan layers)
        (execution_trace (naive_plan layers))
        plan
    × IsPlanned MayDynamic layers plan
    × IsPlanned MayStatic layers (static_plan layers)
validate_layers-IsPlanned_example =
    validate_layers-IsPlanned Micro-IsIeee builtins builtins-IsConversion profile layers
      validate_run
