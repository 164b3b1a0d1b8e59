-- ===== src/Deepplan/Visits.antt =====
-- The run of dynamic_plan of baselines/deepplan/thor_adapter.py as steps, one for each boundary.
use jetson_dlagreen.Deepplan.Dynamic.{
  visit_all, Visit, visit_candidate, move_candidate, is_overloaded, performance_gap,
}
use jetson_dlagreen.Common.{
  Bool, List, ℕ, ◌||◌, ◌∷◌, ◌≡◌, [], suc, false, true, ap, ◌⊎◌, zero, arith, refl, subst, sym,
  if_either, ◌∙◌,
}
use jetson_dlagreen.Deepplan.{PlannedLayer, set_direct, direct_host_access, is_direct}
use jetson_dlagreen.Common.Float.{Float, nought, ◌≼◌}

either_true : (x y : Bool) → (x || y) ≡ true → (x ≡ true) ⊎ (y ≡ true)
either_true x y h = ground arith

both_false : (x y : Bool) → (x || y) ≡ false → (x ≡ false) × (y ≡ false)
both_false x y h = ground arith

open_conflict : (x y : Bool) → x ≡ true → ¬ ((x || y) ≡ false)
open_conflict x y h k = ground (arith, h, k)

module _ {W : Type 0} ⦃d : Float W⦄ where
  -- What running from host memory costs more.
  abbrev pub host_gap : PlannedLayer W → W
  host_gap p = d.sub p.layer.cuda_host_exec_time_us p.layer.cuda_exec_time_us

  -- A candidate that ends the loop: its host time exceeds its own time and 1.5 times its load, or the
  -- stall is less than its host_gap.
  abbrev pub Ends : W → PlannedLayer W → Type 0
  Ends stall p =
      (d.lt (d.add p.layer.cuda_exec_time_us (d.mul (d.decimal 15 1) p.layer.load_time_us))
          p.layer.cuda_host_exec_time_us
        ≡ true)
      ⊎ (d.lt stall (host_gap p) ≡ true)

  abbrev pub MayMove : W → PlannedLayer W → Type 0
  MayMove stall p =
      (d.lt (d.add p.layer.cuda_exec_time_us (d.mul (d.decimal 15 1) p.layer.load_time_us))
          p.layer.cuda_host_exec_time_us
        ≡ false)
      × (d.lt stall (host_gap p) ≡ false)

  -- The stall that is left when a candidate is moved.
  abbrev pub left_stall : W → PlannedLayer W → W
  left_stall stall p = d.sub stall (d.add p.layer.load_time_us (host_gap p))

  -- The plan with the layer at an index in host memory.
  abbrev pub with_direct : ℕ → List (PlannedLayer W) → List (PlannedLayer W)
  with_direct i [] = []
  with_direct zero (p ∷ plan) = record p { exec_type = direct_host_access } ∷ plan
  with_direct (suc i) (p ∷ plan) = p ∷ with_direct i plan

  -- The candidates in order, from a stall and a plan to a plan: those in host memory are passed over,
  -- the others are moved until one ends the loop, or the stall is resolved, which is the Boolean.
  pub data Visits
      : W
        → List (PlannedLayer W)
        → List (PlannedLayer W)
        → List (PlannedLayer W)
        → Bool
        → Type 0 where
    exhausted : {stall : W} {plan : List (PlannedLayer W)} → Visits stall [] plan plan false
    passed :
        {stall : W} {plan after : List (PlannedLayer W)} {resolved : Bool} (c : PlannedLayer W)
        (cs : List (PlannedLayer W))
        → is_direct c.exec_type ≡ true
        → Visits stall cs plan after resolved
        → Visits stall (c ∷ cs) plan after resolved
    ended :
        {stall : W} {plan : List (PlannedLayer W)} (c : PlannedLayer W) (cs : List (PlannedLayer W))
        → is_direct c.exec_type ≡ false
        → Ends stall c
        → Visits stall (c ∷ cs) plan plan false
    resolved :
        {stall : W} {plan : List (PlannedLayer W)} (c : PlannedLayer W) (cs : List (PlannedLayer W))
        → is_direct c.exec_type ≡ false
        → MayMove stall c
        → left_stall stall c ≼ nought
        → Visits stall (c ∷ cs) plan (with_direct c.layer.index plan) true
    moved :
        {stall : W} {plan after : List (PlannedLayer W)} {resolved : Bool} (c : PlannedLayer W)
        (cs : List (PlannedLayer W))
        → is_direct c.exec_type ≡ false
        → MayMove stall c
        → d.le (left_stall stall c) nought ≡ false
        → Visits (left_stall stall c) cs (with_direct c.layer.index plan) after resolved
        → Visits stall (c ∷ cs) plan after resolved

  set_direct-with : (i : ℕ) (plan : List (PlannedLayer W)) → set_direct i plan ≡ with_direct i plan
  unfolding set_direct
  set_direct-with i [] = refl
  set_direct-with zero (p ∷ plan) = refl
  set_direct-with (suc i) (p ∷ plan) = ap (λ z. p ∷ z) (set_direct-with i plan)

  visit_all-ended : (cs : List (PlannedLayer W)) (v : Visit W) → v.ended ≡ true → visit_all cs v ≡ v
  unfolding visit_all visit_candidate
  visit_all-ended [] v h = refl
  visit_all-ended (c ∷ cs) v h =
      let same : visit_candidate c v ≡ v =
        if_either (λ z. z ≡ v) (v.ended || is_direct c.exec_type) v _ (λ e. refl)
          (λ e. absurd (open_conflict v.ended (is_direct c.exec_type) h e)) in
      ap (visit_all cs) same ∙ visit_all-ended cs v h

  abbrev start : W → List (PlannedLayer W) → Visit W
  start stall plan = record { stall = stall; plan = plan; ended = false; resolved = false }

  pub visit_all-Visits :
      (cs : List (PlannedLayer W)) (stall : W) (plan : List (PlannedLayer W))
      → Visits stall cs plan
          (visit_all cs (start stall plan)).plan
          (visit_all cs (start stall plan)).resolved
  unfolding visit_all visit_candidate move_candidate
  visit_all-Visits [] stall plan = exhausted
  visit_all-Visits (c ∷ cs) stall plan =
      if_either Result_of (is_direct c.exec_type) (start stall plan) _
        (λ e. passed c cs e (visit_all-Visits cs stall plan))
        (λ e.
          if_either Result_of (is_overloaded c.layer || d.lt stall (performance_gap c.layer))
            (record (start stall plan) { ended = true }) _
            (λ f.
              subst Ended
                (sym (visit_all-ended cs (record (start stall plan) { ended = true }) refl))
                (ended c cs e (either_true _ _ f)))
            (λ f.
              after_move e (both_false _ _ f) (d.le (left_stall stall c) nought) refl
                (visit_all-Visits cs (left_stall stall c) (set_direct c.layer.index plan))))
    where
      Ended : Visit W → Type 0
      Ended v = Visits stall (c ∷ cs) plan v.plan v.resolved

      Result_of : Visit W → Type 0
      Result_of v = Ended (visit_all cs v)

      after_move :
          is_direct c.exec_type ≡ false
          → MayMove stall c
          → (over : Bool) → d.le (left_stall stall c) nought ≡ over
          → Visits
              (left_stall stall c)
              cs
              (set_direct c.layer.index plan)
              (visit_all cs (start (left_stall stall c) (set_direct c.layer.index plan))).plan
              (visit_all cs (start (left_stall stall c) (set_direct c.layer.index plan))).resolved
          → Ended (
              visit_all cs (record {
                stall = left_stall stall c;
                plan = set_direct c.layer.index plan;
                ended = over;
                resolved = over;
              }))
      after_move e m true f rest = subst Ended (sym (visit_all-ended cs _ refl)) (
          subst (λ z. Visits stall (c ∷ cs) plan z true) (sym (set_direct-with c.layer.index plan))
            (resolved c cs e m f))
      after_move e m false f rest = moved c cs e m f (
          subst
            (λ z.
              Visits (left_stall stall c) cs z
                (visit_all cs (start (left_stall stall c) (set_direct c.layer.index plan))).plan
                (visit_all cs
                  (start (left_stall stall c) (set_direct c.layer.index plan))).resolved)
            (set_direct-with c.layer.index plan) rest)
