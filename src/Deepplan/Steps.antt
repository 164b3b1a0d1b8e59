-- ===== src/Deepplan/Steps.antt =====
-- dynamic_plan of baselines/deepplan/thor_adapter.py as a run of steps, one for each boundary.
use jetson_dlagreen.Deepplan.Visits.{Visits, visit_all-Visits, host_gap}
use jetson_dlagreen.Deepplan.Laws.{
  MayDynamic, IsState, execution_trace-length, take-All, resolve_stall-IsState,
}
use jetson_dlagreen.Deepplan.Moves.{IsIndexed, MovesTo, MovesTo-All, naive_plan-All, MovesTo-refl}
use jetson_dlagreen.Common.Sorting.{insert_by, sort_by, sort_by-All, IsAmong-All}
use jetson_dlagreen.Common.Dict.{IsAmong}
use jetson_dlagreen.Deepplan.Trace.{HasTimes}
use jetson_dlagreen.Common.Sorting.Ordered.{IsOrdered, sort_by-IsOrdered, length-sort_by}
use jetson_dlagreen.Deepplan.Dynamic.{
  insert_layer, sort_layers, gap_lt, dynamic_plan, boundaries, at_boundary, resolve_stall,
}
use jetson_dlagreen.Common.{
  List, ℕ, ◌≡◌, All, take, [], false, true, ◌∷◌, arith, ok, subst, length, count_up, Bool, ap, sym,
  ◌∙◌, if◌then◌else◌, refl, suc, All-map, >>=-eq-ok, ok_injective, if_either,
}
use jetson_dlagreen.Deepplan.{PlannedLayer, Layer, Row, item_at, naive_plan, execution_trace}
use jetson_dlagreen.Common.Float.{Float, IsIeee, IsNumber, ◌≼◌, nought}

module _ {W : Type 0} ⦃d : Float W⦄ where
  -- The order of the candidates: by what running from host memory costs more, then by the larger load.
  abbrev pub IsBefore : PlannedLayer W → PlannedLayer W → Type 0
  IsBefore p q =
      (host_gap p ≼ host_gap q)
      × (host_gap q ≼ host_gap p
          → d.sub nought p.layer.load_time_us ≼ d.sub nought q.layer.load_time_us)

  -- The candidates of a plan in order: the layers before the boundary.
  pub record AreCandidates (boundary : ℕ) (plan cs : List (PlannedLayer W)) : Type 0 where
    pub in_order : IsOrdered IsBefore cs
    pub from_plan : All (λ c. IsAmong c (take boundary plan)) cs
    pub all_of_plan : All (λ c. IsAmong c cs) (take boundary plan)
    pub as_many : length cs ≡ length (take boundary plan)

  -- One boundary, from a plan and a trace to the next ones: nothing if the boundary's row has no
  -- stall, and otherwise the visits of the candidates from that stall on; the trace is made again
  -- only if they resolve it.
  pub data IsStep (boundary : ℕ) (plan : List (PlannedLayer W)) (trace : List (Row W))
      : List (PlannedLayer W) → List (Row W) → Type 0 where
    no_stall :
        (row : Row W)
        → item_at trace boundary ≡ ok row
        → row.stall ≼ nought
        → IsStep boundary plan trace plan trace
    visited :
        (row : Row W) (cs after : List (PlannedLayer W)) (resolved : Bool)
        → item_at trace boundary ≡ ok row
        → d.le row.stall nought ≡ false
        → AreCandidates boundary plan cs
        → Visits row.stall cs plan after resolved
        → IsStep boundary plan trace after (if resolved then execution_trace after else trace)

  pub data IsRun
      : List ℕ → List (PlannedLayer W) → List (Row W) → List (PlannedLayer W) → Type 0 where
    no_boundary : (plan : List (PlannedLayer W)) (trace : List (Row W)) → IsRun [] plan trace plan
    step :
        (boundary : ℕ) (boundaries : List ℕ) (plan next end : List (PlannedLayer W))
        (trace next_trace : List (Row W))
        → IsStep boundary plan trace next next_trace
        → IsRun boundaries next next_trace end
        → IsRun (boundary ∷ boundaries) plan trace end

  insert_layer-by :
      (p : PlannedLayer W) (ps : List (PlannedLayer W)) → insert_layer p ps ≡ insert_by gap_lt p ps
  unfolding insert_layer
  insert_layer-by p [] = refl
  insert_layer-by p (q ∷ ps) =
      ap (λ zs. if gap_lt q p then q ∷ zs else p ∷ q ∷ ps) (insert_layer-by p ps)

  sort_layers-by : (ps : List (PlannedLayer W)) → sort_layers ps ≡ sort_by gap_lt ps
  unfolding sort_layers
  sort_layers-by [] = refl
  sort_layers-by (p ∷ ps) =
      insert_layer-by p (sort_layers ps) ∙ ap (insert_by gap_lt p) (sort_layers-by ps)

module _ {W : Type 0} ⦃d : Float W⦄ (laws : IsIeee W) where
  HasKeys : PlannedLayer W → Type 0
  HasKeys p = IsNumber (host_gap p) × IsNumber (d.sub nought p.layer.load_time_us)

  times-HasKeys : (p : PlannedLayer W) → HasTimes p.layer → HasKeys p
  unfolding HasKeys
  times-HasKeys p (load, exec, host) = (
    laws.sub_finite p.layer.cuda_host_exec_time_us p.layer.cuda_exec_time_us
        (laws.number_of_finite _ host.0) exec.0,
    laws.sub_finite nought p.layer.load_time_us (laws.decimal_number 0 0) load.0,
  )

  IsBefore-trans : (p q r : PlannedLayer W) → IsBefore p q → IsBefore q r → IsBefore p r
  IsBefore-trans p q r (h, hs) (k, ks) = (
    laws.le_trans _ _ _ h k,
    λ e. laws.le_trans _ _ _ (hs (laws.le_trans _ _ _ k e)) (ks (laws.le_trans _ _ _ e h)),
  )

  gap_lt-IsBefore : (p q : PlannedLayer W) → gap_lt p q ≡ true → IsBefore p q
  gap_lt-IsBefore p q h =
      let x = host_gap p in
      let y = host_gap q in
      ground (
        arith,
        h,
        laws.le_of_lt x y,
        laws.eq_le x y,
        laws.number_of_le x y,
        laws.lt-eq-not-le x y,
        laws.le_of_lt (d.sub nought p.layer.load_time_us) (d.sub nought q.layer.load_time_us),
      )

  not_less :
      (x y v w : W)
      → IsNumber x
      → IsNumber y
      → IsNumber v
      → IsNumber w
      → (if d.eq x y then d.lt v w else d.lt x y) ≡ false
      → (y ≼ x) × (x ≼ y → w ≼ v)
  not_less x y v w hx hy hv hw h = ground (
    arith,
    h,
    laws.eq_of_le x y,
    laws.eq_le x y,
    laws.lt-eq-not-le x y hx hy,
    laws.lt-eq-not-le v w hv hw,
  )

  not_gap_lt-IsBefore :
      (p q : PlannedLayer W) → HasKeys p → HasKeys q → gap_lt q p ≡ false → IsBefore p q
  unfolding HasKeys
  not_gap_lt-IsBefore p q (m, m') (n, n') h =
      not_less (host_gap q) (host_gap p) (d.sub nought q.layer.load_time_us)
        (d.sub nought p.layer.load_time_us) n m n' m' h

  sort_layers-AreCandidates :
      (boundary : ℕ) (plan : List (PlannedLayer W))
      → All (λ p. HasTimes p.layer) (take boundary plan)
      → AreCandidates boundary plan (sort_layers (take boundary plan))
  sort_layers-AreCandidates boundary plan h =
      let chosen = take boundary plan in
      subst (AreCandidates boundary plan) (sym (sort_layers-by chosen)) (record {
        in_order =
            sort_by-IsOrdered gap_lt IsBefore HasKeys IsBefore-trans gap_lt-IsBefore
              not_gap_lt-IsBefore chosen
              (All-map (λ p. HasTimes p.layer) HasKeys chosen times-HasKeys h);
        from_plan = (sort_by-All gap_lt (λ c. IsAmong c chosen) chosen).0 (IsAmong-All chosen);
        all_of_plan =
            (sort_by-All gap_lt (λ c. IsAmong c (sort_by gap_lt chosen)) chosen).1
              (IsAmong-All (sort_by gap_lt chosen));
        as_many = length-sort_by gap_lt chosen;
      })

  module _ (layers : List (Layer W)) (indexed : IsIndexed 0 layers)
      (times : All HasTimes layers) where
    plan-times :
        (plan : List (PlannedLayer W))
        → MovesTo MayDynamic (naive_plan layers) plan
        → All (λ p. HasTimes p.layer) plan
    plan-times plan m =
        MovesTo-All HasTimes MayDynamic (naive_plan layers) plan m
          (naive_plan-All HasTimes layers times)

    boundaries-IsRun :
        (is : List ℕ) (plan : List (PlannedLayer W)) (trace : List (Row W))
        (end : List (PlannedLayer W) × List (Row W))
        → IsState layers indexed (plan, trace)
        → boundaries is (plan, trace) ≡ ok end
        → IsRun is plan trace end.0
    unfolding boundaries at_boundary resolve_stall
    boundaries-IsRun [] plan trace end s h =
        subst {A = List (PlannedLayer W) × List (Row W)} (λ e. IsRun [] plan trace e.0)
          (ok_injective h) (no_boundary plan trace)
    boundaries-IsRun (i ∷ is) plan trace end s h =
        let (next, e, h1) = >>=-eq-ok (at_boundary i (plan, trace)) (boundaries is) h in
        let (row, r, e1) = >>=-eq-ok (item_at trace i) _ e in
        let chosen =
          if d.le row.stall nought then (plan, trace) else resolve_stall i row.stall plan trace in
        let cs = sort_layers (take i plan) in
        let one =
          if_either {A = List (PlannedLayer W) × List (Row W)}
            (λ z. IsStep i plan trace z.0 z.1 × IsState layers indexed z) (d.le row.stall nought)
            (plan, trace) (resolve_stall i row.stall plan trace) (λ f. (no_stall row r f, s))
            (λ f. (
              visited row cs _ _ r f
                  (sort_layers-AreCandidates i plan (take-All _ i plan (plan-times plan s.0)))
                  (visit_all-Visits cs row.stall plan),
              resolve_stall-IsState layers indexed i row.stall plan trace s,
            )) in
        let (taken, state) =
          subst {A = List (PlannedLayer W) × List (Row W)}
            (λ z. IsStep i plan trace z.0 z.1 × IsState layers indexed z) (ok_injective e1) one in
        step i is plan next.0 end.0 trace next.1 taken
          (boundaries-IsRun is next.0 next.1 end state h1)

    -- The plan of dynamic_plan ends a run over the boundaries of the naive plan's trace.
    pub dynamic_plan-IsRun :
        (plan : List (PlannedLayer W))
        → dynamic_plan layers ≡ ok plan
        → IsRun
            (count_up 0 (suc (length (naive_plan layers))))
            (naive_plan layers)
            (execution_trace (naive_plan layers))
            plan
    unfolding dynamic_plan
    dynamic_plan-IsRun plan h =
        let (end, e, k) =
          >>=-eq-ok
            (boundaries (count_up 0 (length (execution_trace (naive_plan layers))))
              (naive_plan layers, execution_trace (naive_plan layers)))
            _ h in
        subst
          (λ z.
            IsRun (count_up 0 (suc (length (naive_plan layers)))) (naive_plan layers)
              (execution_trace (naive_plan layers)) z)
          (ok_injective k)
          (subst
            (λ n.
              IsRun (count_up 0 n) (naive_plan layers) (execution_trace (naive_plan layers)) end.0)
            (execution_trace-length (naive_plan layers))
            (boundaries-IsRun (count_up 0 (length (execution_trace (naive_plan layers))))
              (naive_plan layers) (execution_trace (naive_plan layers)) end
              (
                MovesTo-refl MayDynamic (naive_plan layers),
                execution_trace-length (naive_plan layers),
              )
              e))
