-- ===== src/Deepplan.antt =====
-- The DeepPlan planner, baselines/deepplan/thor_adapter.py: which layers run from host memory.
pub mod Moves
pub mod Trace
pub mod Validation
pub mod Visits
pub mod Steps
pub mod Planned
pub mod Tests
pub mod Laws
pub mod Dynamic
use jetson_dlagreen.Common.Text.{is_part, codes}
use jetson_dlagreen.Common.Dict.{item_at, keep}
use jetson_dlagreen.Dag.{nonempty_text}
use jetson_dlagreen.Planner.Candidates.{all_in}
use jetson_dlagreen.Common.{
  ℕ, ◌∷◌, [], none, some, zero, suc, Option, List, Result, if◌then◌else◌, String, Bool, false, ltb,
  ◌>>◌, ok, ◌>>=◌, require, map, ◌==◌, ◌&&◌, true, err, value_error, not, count_up, ◌||◌, take,
  length,
}
use jetson_dlagreen.Common.Int.{ℤ, pos, negsuc, ltb_ℤ, pos_part}
use jetson_dlagreen.Common.Float.{Float, nought}
use jetson_dlagreen.Common.Json.{
  Items, Fields, Json, null, bool, int, float, str, arr, obj, get_or_null, elements, keys,
}
use jetson_dlagreen.Planner.{Builtins}

pub data ExecType : Type 0 where
  load_then_execute direct_host_access : ExecType

pub record Layer (W : Type 0) : Type 0 where
  pub index : ℕ
  pub layer_type : String
  pub size_bytes : ℕ
  pub load_time_us : W
  pub cuda_exec_time_us : W
  pub cuda_host_exec_time_us : W

-- A layer with its exec_type.
pub record PlannedLayer (W : Type 0) : Type 0 where
  pub layer : Layer W
  pub exec_type : ExecType

abbrev pub is_direct : ExecType → Bool
is_direct load_then_execute = false
is_direct direct_host_access = true

abbrev pub required_keys : List String
required_keys =
    "index" ∷ "layer_type" ∷ "size_bytes" ∷ "load_time_us" ∷ "cuda_exec_time_us"
    ∷ "cuda_host_exec_time_us" ∷ []

-- The value of a field that the schema's check found.
abbrev pub field_of : {W : Type 0} → String → Fields W → Json W
field_of = get_or_null

unfoldable pub size_of : {W : Type 0} → Json W → Result ℕ
size_of (int (pos n)) = ok n
size_of _ = err (value_error "size_bytes must be a nonnegative integer")

unfoldable pub check_index : {W : Type 0} → ℕ → Json W → Result (Unit {0})
check_index expected (int (pos n)) =
    require (n == expected) (value_error "layer indices must be contiguous and ordered")
check_index expected _ = err (value_error "layer indices must be contiguous and ordered")

module _ {W : Type 0} ⦃d : Float W⦄ (b : Builtins W) where
  -- An int or a float (not a bool), finite and not negative, as a float.
  unfoldable pub time_of : Json W → Result W
  time_of (int n) = do
    x ← b.of_int n
    require (d.is_finite x && not (ltb_ℤ n (pos 0))) (value_error "must be finite and nonnegative")
    ok x
  time_of (float x) = do
    require (d.is_finite x && not (d.lt x nought)) (value_error "must be finite and nonnegative")
    ok x
  time_of _ = err (value_error "must be finite and nonnegative")

  -- One source of validate_layers.
  unfoldable pub validate_layer : ℕ → Json W → Result (Layer W)
  validate_layer expected (obj fields) = do
    require (all_in (keys fields) required_keys && all_in required_keys (keys fields))
        (value_error "each layer must have the exact DeepPlan profile schema")
    check_index expected (field_of "index" fields)
    layer_type ← nonempty_text (field_of "layer_type" fields) "layer_type must be nonempty"
    size_bytes ← size_of (field_of "size_bytes" fields)
    load_time ← time_of (field_of "load_time_us" fields)
    exec_time ← time_of (field_of "cuda_exec_time_us" fields)
    host_time ← time_of (field_of "cuda_host_exec_time_us" fields)
    ok (record {
      index = expected;
      layer_type = layer_type;
      size_bytes = size_bytes;
      load_time_us = load_time;
      cuda_exec_time_us = exec_time;
      cuda_host_exec_time_us = host_time;
    })
  validate_layer expected _ =
      err (value_error "each layer must have the exact DeepPlan profile schema")

  unfoldable pub validate_from : ℕ → List (Json W) → Result (List (Layer W))
  validate_from expected [] = ok []
  validate_from expected (source ∷ sources) = do
    layer ← validate_layer expected source
    layers ← validate_from (suc expected) sources
    ok (layer ∷ layers)

  unfoldable pub validate_layers : Json W → Result (List (Layer W))
  validate_layers (arr (Items.cons x xs)) = validate_from 0 (x ∷ elements xs)
  validate_layers _ = err (value_error "layers must be a nonempty list")

module _ {W : Type 0} where
  abbrev pub naive_layer : Layer W → PlannedLayer W
  naive_layer layer = record {
    layer = layer;
    exec_type = if ltb 0 layer.size_bytes then load_then_execute else direct_host_access;
  }

  unfoldable pub naive_plan : List (Layer W) → List (PlannedLayer W)
  naive_plan layers = map naive_layer layers

  -- result[index]["exec_type"] = DIRECT_HOST_ACCESS
  unfoldable pub set_direct : ℕ → List (PlannedLayer W) → List (PlannedLayer W)
  set_direct i [] = []
  set_direct zero (p ∷ plan) = record p { exec_type = direct_host_access } ∷ plan
  set_direct (suc i) (p ∷ plan) = p ∷ set_direct i plan

-- A row of the trace.
pub record Row (W : Type 0) : Type 0 where
  pub ready : W
  pub runtime : W
  pub stall : W

module _ {W : Type 0} ⦃d : Float W⦄ where
  -- -x
  abbrev pub negate : W → W
  negate x = d.sub nought x

  -- The row of a layer that is loaded, from whether that stalls the execution.
  unfoldable pub loaded_row : Bool → W → Layer W → Row W → Row W
  loaded_row true ready l row = record {
    ready = d.add nought l.cuda_exec_time_us;
    runtime = d.add (d.add row.runtime (negate ready)) l.cuda_exec_time_us;
    stall = negate ready;
  }
  loaded_row false ready l row = record {
    ready = d.add ready l.cuda_exec_time_us;
    runtime = d.add row.runtime l.cuda_exec_time_us;
    stall = nought;
  }

  unfoldable pub next_row_of : ExecType → Layer W → Row W → Row W
  next_row_of load_then_execute l row =
      loaded_row (d.lt (d.sub row.ready l.load_time_us) nought) (d.sub row.ready l.load_time_us) l
        row
  next_row_of direct_host_access l row = record {
    ready = d.add row.ready l.cuda_host_exec_time_us;
    runtime = d.add row.runtime l.cuda_host_exec_time_us;
    stall = nought;
  }

  -- The body of the loop of execution_trace.
  unfoldable pub next_row : PlannedLayer W → Row W → Row W
  unfolding next_row_of loaded_row
  next_row p row = next_row_of p.exec_type p.layer row

  -- The rows behind `row`, and the whole trace.
  unfoldable pub trace_from : Row W → List (PlannedLayer W) → List (Row W)
  trace_from row [] = []
  trace_from row (p ∷ plan) = next_row p row ∷ trace_from (next_row p row) plan

  unfoldable pub execution_trace : List (PlannedLayer W) → List (Row W)
  execution_trace plan =
      record { ready = nought; runtime = nought; stall = nought }
      ∷ trace_from (record { ready = nought; runtime = nought; stall = nought }) plan

  -- One layer of static_plan.
  unfoldable pub static_layer : PlannedLayer W → PlannedLayer W
  static_layer p =
      if is_direct p.exec_type
      then p
      else if is_part (codes "BatchNorm") (codes p.layer.layer_type)
          || is_part (codes "Embedding") (codes p.layer.layer_type)
      then record p { exec_type = direct_host_access }
      else if d.lt p.layer.cuda_host_exec_time_us
          (d.add p.layer.cuda_exec_time_us p.layer.load_time_us)
      then record p { exec_type = direct_host_access }
      else p

  unfoldable pub static_plan : List (Layer W) → List (PlannedLayer W)
  static_plan layers = map static_layer (naive_plan layers)

-- What summarize returns.
pub record Summary (W : Type 0) : Type 0 where
  pub direct_host_layers : List ℕ
  pub load_then_execute_layers : List ℕ
  pub predicted_runtime_us : W
  pub total_stall_us : W

module _ {W : Type 0} ⦃d : Float W⦄ where
  -- trace[-1] of a trace, from its first row.
  unfoldable pub last_row : Row W → List (Row W) → Row W
  last_row row [] = row
  last_row row (r ∷ rows) = last_row r rows

  -- sum(…) of the stalls.
  unfoldable pub sum_stalls : W → List (Row W) → W
  sum_stalls total [] = total
  sum_stalls total (r ∷ rows) = sum_stalls (d.add total r.stall) rows

  abbrev pub first_row : Row W
  first_row = record { ready = nought; runtime = nought; stall = nought }

  unfoldable pub summarize : List (PlannedLayer W) → Summary W
  summarize plan = record {
    direct_host_layers = map (λ p. p.layer.index) (keep (λ p. is_direct p.exec_type) plan);
    load_then_execute_layers =
        map (λ p. p.layer.index) (keep (λ p. not (is_direct p.exec_type)) plan);
    predicted_runtime_us = (last_row first_row (trace_from first_row plan)).runtime;
    total_stall_us = sum_stalls nought (execution_trace plan);
  }
