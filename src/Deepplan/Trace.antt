-- ===== src/Deepplan/Trace.antt =====
-- The trace of a plan's execution: no time in it is negative, and the run time grows.
use jetson_dlagreen.Common.{◌∷◌, [], ◌≡◌, true, List, All, Bool, refl, arith, false}
use jetson_dlagreen.Common.Float.{Float, IsIeee, nought, ◌≼◌}
use jetson_dlagreen.Deepplan.{
  Layer, load_then_execute, direct_host_access, Row, next_row, PlannedLayer, loaded_row,
  next_row_of, execution_trace, trace_from, ExecType, negate, first_row,
}

module _ {W : Type 0} ⦃d : Float W⦄ where
  -- Finite and not negative.
  abbrev pub IsTime : W → Type 0
  IsTime x = (d.is_finite x ≡ true) × (nought ≼ x)

  abbrev pub HasTimes : Layer W → Type 0
  HasTimes l = IsTime l.load_time_us × IsTime l.cuda_exec_time_us × IsTime l.cuda_host_exec_time_us

  abbrev pub IsRow : Row W → Type 0
  IsRow r = (nought ≼ r.ready) × (nought ≼ r.runtime) × (nought ≼ r.stall)

  -- Each row comes after one with no more run time; what is stalled is part of the run time.
  abbrev pub IsTrace : Row W → List (Row W) → Type 0
  IsTrace row [] = Unit {0}
  IsTrace row (r ∷ rows) =
      IsRow r × (row.runtime ≼ r.runtime) × (r.stall ≼ r.runtime) × IsTrace r rows

module _ {W : Type 0} ⦃d : Float W⦄ (laws : IsIeee W) where
  -- A row's parts after one that is followed.
  abbrev Follows : Row W → Row W → Type 0
  Follows row r = IsRow r × (row.runtime ≼ r.runtime) × (r.stall ≼ r.runtime)

  loaded_row-Follows :
      (b : Bool) (l : Layer W) (row : Row W)
      → d.lt (d.sub row.ready l.load_time_us) nought ≡ b
      → HasTimes l
      → IsRow row
      → Follows row (loaded_row b (d.sub row.ready l.load_time_us) l row)
  unfolding loaded_row
  loaded_row-Follows true l row e (load, (ef, exec), host) (ready, runtime, stall) =
      let ahead = laws.negate_nonneg (d.sub row.ready l.load_time_us) e in
      let zero_in = laws.decimal_number 0 0 in
      let (a, a') =
        laws.add_nonneg row.runtime (negate (d.sub row.ready l.load_time_us)) runtime ahead in
      let (b, b') =
        laws.add_nonneg (d.add row.runtime (negate (d.sub row.ready l.load_time_us)))
          l.cuda_exec_time_us (laws.le_trans _ _ _ runtime a) exec in
      (
        (
          (laws.add_nonneg nought l.cuda_exec_time_us zero_in exec).0,
          laws.le_trans _ _ _ exec b',
          ahead,
        ),
        laws.le_trans _ _ _ a b,
        laws.le_trans _ _ _ a' b,
      )
  loaded_row-Follows false l row e ((lf, load), (ef, exec), host) (ready, runtime, stall) =
      let number = laws.sub_finite row.ready l.load_time_us (laws.number_of_le _ _ ready).1 lf in
      let kept : nought ≼ d.sub row.ready l.load_time_us = ground (
        arith,
        laws.lt-eq-not-le (d.sub row.ready l.load_time_us) nought number (laws.decimal_number 0 0),
      ) in
      let (a, a') = laws.add_nonneg row.runtime l.cuda_exec_time_us runtime exec in
      (
        (
          laws.le_trans _ _ _ exec
              (laws.add_nonneg (d.sub row.ready l.load_time_us) l.cuda_exec_time_us kept exec).1,
          laws.le_trans _ _ _ exec a',
          laws.decimal_number 0 0,
        ),
        a,
        laws.le_trans _ _ _ runtime a,
      )

  next_row_of-Follows :
      (x : ExecType) (l : Layer W) (row : Row W)
      → HasTimes l
      → IsRow row
      → Follows row (next_row_of x l row)
  unfolding next_row_of
  next_row_of-Follows load_then_execute l row t r = loaded_row-Follows _ l row refl t r
  next_row_of-Follows direct_host_access l row (load, exec, (hf, host)) (ready, runtime, stall) =
      let (a, a') = laws.add_nonneg row.runtime l.cuda_host_exec_time_us runtime host in
      let (b, b') = laws.add_nonneg row.ready l.cuda_host_exec_time_us ready host in
      (
        (laws.le_trans _ _ _ ready b, laws.le_trans _ _ _ runtime a, laws.decimal_number 0 0),
        a,
        laws.le_trans _ _ _ runtime a,
      )

  trace_from-IsTrace :
      (row : Row W) (plan : List (PlannedLayer W))
      → All (λ p. HasTimes p.layer) plan
      → IsRow row
      → IsTrace row (trace_from row plan)
  unfolding trace_from next_row
  trace_from-IsTrace row [] t r = tt
  trace_from-IsTrace row (p ∷ plan) (t, ts) r =
      let (x, up, part) = next_row_of-Follows p.exec_type p.layer row t r in
      (x, up, part, trace_from-IsTrace (next_row p row) plan ts x)

  -- Under the float laws, for finite times that are not negative, the trace of a plan begins at
  -- zero; from row to row the run time does not fall and covers the row's stall, and no time is
  -- negative.
  pub execution_trace-IsTrace :
      (plan : List (PlannedLayer W))
      → All (λ p. HasTimes p.layer) plan
      → (rows : List (Row W)) × (execution_trace plan ≡ first_row ∷ rows) × IsTrace first_row rows
  unfolding execution_trace
  execution_trace-IsTrace plan t =
      let z = laws.decimal_number 0 0 in
      (trace_from first_row plan, refl, trace_from-IsTrace first_row plan t (z, z, z))
