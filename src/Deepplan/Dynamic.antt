-- ===== src/Deepplan/Dynamic.antt =====
-- dynamic_plan of baselines/deepplan/thor_adapter.py: the layers that a stall moves to host memory.
use jetson_dlagreen.Common.{
  ℕ, ◌∷◌, [], List, Bool, if◌then◌else◌, Result, ◌>>=◌, ◌||◌, take, ok, count_up, false, true,
  length,
}
use jetson_dlagreen.Deepplan.{
  PlannedLayer, Layer, Float, Row, set_direct, nought, negate, is_direct, item_at, execution_trace,
  naive_plan,
}

module _ {W : Type 0} ⦃d : Float W⦄ where
  abbrev pub performance_gap : Layer W → W
  performance_gap l = d.sub l.cuda_host_exec_time_us l.cuda_exec_time_us

  -- The sort key of `x` is below that of `y`.
  abbrev pub gap_lt : PlannedLayer W → PlannedLayer W → Bool
  gap_lt x y =
      if d.eq (performance_gap x.layer) (performance_gap y.layer)
      then d.lt (negate x.layer.load_time_us) (negate y.layer.load_time_us)
      else d.lt (performance_gap x.layer) (performance_gap y.layer)

  -- sorted(…): stable, so a layer stands before the later ones of an equal key.
  unfoldable pub insert_layer : PlannedLayer W → List (PlannedLayer W) → List (PlannedLayer W)
  insert_layer x [] = x ∷ []
  insert_layer x (y ∷ ys) = if gap_lt y x then y ∷ insert_layer x ys else x ∷ y ∷ ys

  unfoldable pub sort_layers : List (PlannedLayer W) → List (PlannedLayer W)
  sort_layers [] = []
  sort_layers (x ∷ xs) = insert_layer x (sort_layers xs)

-- The loop over the candidates: `ended` after a break, `resolved` if the trace is made again.
pub record Visit (W : Type 0) : Type 0 where
  pub stall : W
  pub plan : List (PlannedLayer W)
  pub ended : Bool
  pub resolved : Bool

module _ {W : Type 0} ⦃d : Float W⦄ where
  abbrev pub is_overloaded : Layer W → Bool
  is_overloaded l =
      d.lt (d.add l.cuda_exec_time_us (d.mul (d.decimal 15 1) l.load_time_us))
        l.cuda_host_exec_time_us

  -- A candidate that is moved to host memory.
  unfoldable pub move_candidate : Layer W → Visit W → Visit W
  move_candidate l v =
      let stall = d.sub v.stall (d.add l.load_time_us (performance_gap l)) in
      record {
        stall = stall;
        plan = set_direct l.index v.plan;
        ended = d.le stall nought;
        resolved = d.le stall nought;
      }

  -- One candidate. A candidate is visited once, so its exec_type is that at the sort.
  unfoldable pub visit_candidate : PlannedLayer W → Visit W → Visit W
  visit_candidate c v =
      if v.ended || is_direct c.exec_type
      then v
      else if is_overloaded c.layer || d.lt v.stall (performance_gap c.layer)
      then record v { ended = true }
      else move_candidate c.layer v

  unfoldable pub visit_all : List (PlannedLayer W) → Visit W → Visit W
  visit_all [] v = v
  visit_all (c ∷ cs) v = visit_all cs (visit_candidate c v)

  -- The body of the loop behind the test of the stall.
  unfoldable pub resolve_stall :
      ℕ → W → List (PlannedLayer W) → List (Row W) → List (PlannedLayer W) × List (Row W)
  resolve_stall boundary stall plan trace =
      let v =
        visit_all (sort_layers (take boundary plan))
          (record { stall = stall; plan = plan; ended = false; resolved = false }) in
      (v.plan, if v.resolved then execution_trace v.plan else trace)

  unfoldable pub at_boundary :
      ℕ → List (PlannedLayer W) × List (Row W) → Result (List (PlannedLayer W) × List (Row W))
  at_boundary boundary (plan, trace) = do
    row ← item_at trace boundary
    ok (
        if d.le row.stall nought
        then (plan, trace)
        else resolve_stall boundary row.stall plan trace)

  unfoldable pub boundaries :
      List ℕ → List (PlannedLayer W) × List (Row W) → Result (List (PlannedLayer W) × List (Row W))
  boundaries [] state = ok state
  boundaries (i ∷ is) state = at_boundary i state >>= boundaries is

  unfoldable pub dynamic_plan : List (Layer W) → Result (List (PlannedLayer W))
  dynamic_plan layers = do
    state ←
        boundaries (count_up 0 (length (execution_trace (naive_plan layers))))
          (naive_plan layers, execution_trace (naive_plan layers))
    ok (state.0)
