-- ===== src/Deepplan/Planned.antt =====
-- From an accepted profile to its plans and their traces.
use jetson_dlagreen.Deepplan.Steps.{IsRun, dynamic_plan-IsRun}
use jetson_dlagreen.Deepplan.{
  Layer, PlannedLayer, Row, naive_plan, static_plan, execution_trace, first_row, validate_layers,
}
use jetson_dlagreen.Deepplan.Dynamic.{dynamic_plan}
use jetson_dlagreen.Deepplan.Moves.{MovesTo, MovesTo-All, naive_plan-All}
use jetson_dlagreen.Deepplan.Laws.{MayStatic, MayDynamic, static_plan-MovesTo, dynamic_plan-MovesTo}
use jetson_dlagreen.Deepplan.Trace.{HasTimes, IsTrace, execution_trace-IsTrace}
use jetson_dlagreen.Deepplan.Validation.{IsConversion, validate_layers-IsIndexed}
use jetson_dlagreen.Common.{◌∷◌, List, ok, All, ◌≡◌, count_up, suc, length}
use jetson_dlagreen.Common.Json.{Json}
use jetson_dlagreen.Common.Float.{Float, IsIeee}
use jetson_dlagreen.Planner.{Builtins}

module _ {W : Type 0} ⦃d : Float W⦄ where
  -- A plan of the layers, moved where it may be, whose trace begins at zero with times that grow.
  pub record IsPlanned (May : Layer W → Type 0) (layers : List (Layer W))
      (plan : List (PlannedLayer W)) : Type 0 where
    pub moved : MovesTo May (naive_plan layers) plan
    pub rows : List (Row W)
    pub traced : execution_trace plan ≡ first_row ∷ rows
    pub trace : IsTrace first_row rows

  moved-IsPlanned :
      (laws : IsIeee W) (May : Layer W → Type 0) (layers : List (Layer W))
      (plan : List (PlannedLayer W))
      → All HasTimes layers
      → MovesTo May (naive_plan layers) plan
      → IsPlanned May layers plan
  moved-IsPlanned laws May layers plan t m =
      let (rows, traced, trace) =
        execution_trace-IsTrace laws plan (
          MovesTo-All HasTimes May (naive_plan layers) plan m (naive_plan-All HasTimes layers t)) in
      record { moved = m; rows = rows; traced = traced; trace = trace }

  -- Under the float laws, with a float() that keeps numbers that are not negative so, a profile that
  -- validate_layers accepts has both plans. dynamic_plan ends, with the end of a run from the naive
  -- plan over the boundaries of its trace: where a boundary's row has a stall, the layers before it
  -- are visited by what running them from host memory costs more, then by the larger load, and each
  -- that is not there yet is moved, until one is overloaded, costs more than the stall that is left, or
  -- resolves it. static_plan moves layers only by their name or where host memory is faster. Each plan
  -- has the layers of the profile, and a trace that begins at zero, without a negative time, in which
  -- from row to row the run time does not fall and covers the row's stall.
  pub validate_layers-IsPlanned :
      (laws : IsIeee W) (b : Builtins W) (conversion : IsConversion b) (value : Json W)
      (layers : List (Layer W))
      → validate_layers b value ≡ ok layers
      → (plan : List (PlannedLayer W)) × (dynamic_plan layers ≡ ok plan)
        × IsRun
            (count_up 0 (suc (length (naive_plan layers))))
            (naive_plan layers)
            (execution_trace (naive_plan layers))
            plan
        × IsPlanned MayDynamic layers plan
        × IsPlanned MayStatic layers (static_plan layers)
  validate_layers-IsPlanned laws b conversion value layers h =
      let (indexed, times) = validate_layers-IsIndexed laws b conversion value layers h in
      let (plan, e, m) = dynamic_plan-MovesTo layers indexed in
      (
        plan,
        e,
        dynamic_plan-IsRun laws layers indexed times plan e,
        moved-IsPlanned laws MayDynamic layers plan times m,
        moved-IsPlanned laws MayStatic layers (static_plan layers) times
            (static_plan-MovesTo layers),
      )
