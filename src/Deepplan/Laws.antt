-- ===== src/Deepplan/Laws.antt =====
-- static_plan and dynamic_plan end with a plan of the same layers, moved where the rule allows it.
use jetson_dlagreen.Common.Dict.{item_at_lt}
use jetson_dlagreen.Deepplan.Moves.{
  MovesTo, IsAt, IsIndexed, MovesTo-IsAt, MovesTo-refl, MovesTo-length, set_direct-MovesTo,
}
use jetson_dlagreen.Common.{
  ℕ, ◌∷◌, [], zero, suc, inl, inr, List, ◌≡◌, All, ◌⊎◌, false, Bool-cases, take, true, arith, map,
  if_either, Bool, length, ◌||◌, ap, ok, count_up, ◌∙◌, ◌<◌, refl, if◌then◌else◌, ◌+◌, subst,
  All-count_up,
}
use jetson_dlagreen.Common.Float.{Float, nought}
use jetson_dlagreen.Deepplan.{
  Layer, direct_host_access, is_part, static_layer, codes, PlannedLayer, trace_from,
  execution_trace, static_plan, Row, naive_plan, is_direct, next_row,
}
use jetson_dlagreen.Deepplan.Dynamic.{
  is_overloaded, sort_layers, insert_layer, visit_all, visit_candidate, gap_lt, Visit,
  move_candidate, dynamic_plan, boundaries, resolve_stall, at_boundary, performance_gap,
}

pub take-All {ℓ κ} :
    {A : Type ℓ} (P : A → Type κ) (n : ℕ) (xs : List A) → All P xs → All P (take n xs)
take-All P zero xs h = tt
take-All P (suc n) [] h = tt
take-All P (suc n) (x ∷ xs) (h, hs) = (h, take-All P n xs hs)

zero_add : (n : ℕ) → 0 + n ≡ n
zero_add n = omega arith

left_false : (x y : Bool) → (x || y) ≡ false → x ≡ false
left_false x y h = ground arith

module _ {W : Type 0} ⦃d : Float W⦄ where
  -- Where static_plan moves a layer: by its name, or because running from host memory is faster
  -- than loading it.
  abbrev pub MayStatic : Layer W → Type 0
  MayStatic l =
      (is_part (codes "BatchNorm") (codes l.layer_type) ≡ true)
      ⊎ (is_part (codes "Embedding") (codes l.layer_type) ≡ true)
      ⊎ (d.lt l.cuda_host_exec_time_us (d.add l.cuda_exec_time_us l.load_time_us) ≡ true)

  -- dynamic_plan moves no layer whose host time exceeds its own time and 1.5 times its load.
  abbrev pub MayDynamic : Layer W → Type 0
  MayDynamic l =
      d.lt (d.add l.cuda_exec_time_us (d.mul (d.decimal 15 1) l.load_time_us))
        l.cuda_host_exec_time_us
      ≡ false

  static_layer-moves :
      (p : PlannedLayer W)
      → ((static_layer p).layer ≡ p.layer)
        × (((static_layer p).exec_type ≡ p.exec_type)
            ⊎ (((static_layer p).exec_type ≡ direct_host_access) × MayStatic p.layer))
  unfolding static_layer
  static_layer-moves p = ground arith

  map_static-MovesTo : (ps : List (PlannedLayer W)) → MovesTo MayStatic ps (map static_layer ps)
  map_static-MovesTo [] = tt
  map_static-MovesTo (p ∷ ps) = let (e, m) = static_layer-moves p in (e, m, map_static-MovesTo ps)

  insert_layer-All {κ} :
      (P : PlannedLayer W → Type κ) (x : PlannedLayer W) (ys : List (PlannedLayer W))
      → P x
      → All P ys
      → All P (insert_layer x ys)
  unfolding insert_layer
  insert_layer-All P x [] h hs = (h, tt)
  insert_layer-All P x (y ∷ ys) h (k, ks) = elim (Bool-cases (gap_lt y x)) [
    | inl below ↦ rw below (k, insert_layer-All P x ys h ks)
    | inr above ↦ rw above (h, (k, ks))
  ]

  sort_layers-All {κ} :
      (P : PlannedLayer W → Type κ) (xs : List (PlannedLayer W)) → All P xs → All P (sort_layers xs)
  unfolding sort_layers
  sort_layers-All P [] h = tt
  sort_layers-All P (x ∷ xs) (h, hs) =
      insert_layer-All P x (sort_layers xs) h (sort_layers-All P xs hs)

  module _ (base : List (PlannedLayer W)) where
    visit_candidate-MovesTo :
        (c : PlannedLayer W) (v : Visit W)
        → IsAt MayDynamic base c.layer.index c.layer
        → MovesTo MayDynamic base v.plan
        → MovesTo MayDynamic base (visit_candidate c v).plan
    unfolding visit_candidate move_candidate
    visit_candidate-MovesTo c v a m =
        if_either (λ z. MovesTo MayDynamic base z.plan) (v.ended || is_direct c.exec_type) v _
          (λ e. m)
          (λ e.
            if_either (λ z. MovesTo MayDynamic base z.plan)
              (is_overloaded c.layer || d.lt v.stall (performance_gap c.layer))
              (record v { ended = true }) (move_candidate c.layer v) (λ f. m)
              (λ f.
                set_direct-MovesTo MayDynamic c.layer.index c.layer base v.plan a (left_false _ _ f)
                  m))

    visit_all-MovesTo :
        (cs : List (PlannedLayer W)) (v : Visit W)
        → All (λ c. IsAt MayDynamic base c.layer.index c.layer) cs
        → MovesTo MayDynamic base v.plan
        → MovesTo MayDynamic base (visit_all cs v).plan
    unfolding visit_all
    visit_all-MovesTo [] v h m = m
    visit_all-MovesTo (c ∷ cs) v (h, hs) m =
        visit_all-MovesTo cs (visit_candidate c v) hs (visit_candidate-MovesTo c v h m)

  trace_from-length :
      (row : Row W) (plan : List (PlannedLayer W)) → length (trace_from row plan) ≡ length plan
  unfolding trace_from
  trace_from-length row [] = refl
  trace_from-length row (p ∷ plan) = ap suc (trace_from-length (next_row p row) plan)

  pub execution_trace-length :
      (plan : List (PlannedLayer W)) → length (execution_trace plan) ≡ suc (length plan)
  unfolding execution_trace
  execution_trace-length plan = ap suc (trace_from-length _ plan)

  module _ (layers : List (Layer W)) (indexed : IsIndexed 0 layers) where
    -- The plan and the trace that the loop over the boundaries has.
    abbrev pub IsState : List (PlannedLayer W) × List (Row W) → Type 0
    IsState state =
        MovesTo MayDynamic (naive_plan layers) state.0
        × (length state.1 ≡ suc (length (naive_plan layers)))

    pub resolve_stall-IsState :
        (boundary : ℕ) (stall : W) (plan : List (PlannedLayer W)) (trace : List (Row W))
        → IsState (plan, trace)
        → IsState (resolve_stall boundary stall plan trace)
    unfolding resolve_stall
    resolve_stall-IsState boundary stall plan trace (m, n) =
        let v =
          visit_all (sort_layers (take boundary plan))
            (record { stall = stall; plan = plan; ended = false; resolved = false }) in
        let moved =
          visit_all-MovesTo (naive_plan layers) (sort_layers (take boundary plan))
            (record { stall = stall; plan = plan; ended = false; resolved = false })
            (sort_layers-All _ (take boundary plan)
              (take-All _ boundary plan (MovesTo-IsAt MayDynamic layers plan indexed m)))
            m in
        (
          moved,
          if_either (λ z. length z ≡ suc (length (naive_plan layers))) v.resolved
              (execution_trace v.plan) trace
              (λ e.
                execution_trace-length v.plan
                ∙ ap suc (MovesTo-length MayDynamic (naive_plan layers) v.plan moved))
              (λ e. n),
        )

    boundaries-IsState :
        (is : List ℕ) (state : List (PlannedLayer W) × List (Row W))
        → All (λ i. i < suc (length (naive_plan layers))) is
        → IsState state
        → (end : List (PlannedLayer W) × List (Row W)) × (boundaries is state ≡ ok end)
          × IsState end
    unfolding boundaries at_boundary
    boundaries-IsState [] state h s = (state, refl, s)
    boundaries-IsState (i ∷ is) (plan, trace) (h, hs) s =
        let (row, r) = item_at_lt trace i (rw (s.1) h) in
        let (end, e, k) =
          boundaries-IsState is
            (if d.le row.stall nought then (plan, trace) else resolve_stall i row.stall plan trace)
            hs
            (if_either IsState (d.le row.stall nought) (plan, trace)
              (resolve_stall i row.stall plan trace) (λ f. s)
              (λ f. resolve_stall-IsState i row.stall plan trace s)) in
        (end, rw (r) e, k)

    -- For layers at their indices dynamic_plan ends, with the layers of the profile, of which some
    -- that are not overloaded are moved to host memory.
    pub dynamic_plan-MovesTo :
        (plan : List (PlannedLayer W)) × (dynamic_plan layers ≡ ok plan)
        × MovesTo MayDynamic (naive_plan layers) plan
    unfolding dynamic_plan
    dynamic_plan-MovesTo =
        let (end, e, k) =
          boundaries-IsState (count_up 0 (length (execution_trace (naive_plan layers))))
            (naive_plan layers, execution_trace (naive_plan layers))
            (subst
              (λ m. All (λ i. i < m) (count_up 0 (length (execution_trace (naive_plan layers)))))
              (zero_add _ ∙ execution_trace-length (naive_plan layers))
              (All-count_up 0 (length (execution_trace (naive_plan layers)))))
            (
              MovesTo-refl MayDynamic (naive_plan layers),
              execution_trace-length (naive_plan layers),
            ) in
        (end.0, rw e refl, k.0)

  -- static_plan keeps the layers, and moves to host memory only those that its rule names.
  pub static_plan-MovesTo :
      (layers : List (Layer W)) → MovesTo MayStatic (naive_plan layers) (static_plan layers)
  unfolding static_plan
  static_plan-MovesTo layers = map_static-MovesTo (naive_plan layers)
