-- ===== src/Controllers/FullGpu/Limits.antt =====
-- The limits that the feedback keeps.
use jetson_dlagreen.Common.{◌≤◌, Bool, if_either, arith, leb, ◌+◌}
use jetson_dlagreen.Common.Float.{Float, IsIeee, nought, ◌≼◌, float_min, float_max}
use jetson_dlagreen.Controllers.FullGpu.{FeedbackState, update_feedback, after_safe_epoch}

module _ {W : Type 0} ⦃d : Float W⦄ where
  -- One to six tenants, and an adjustment between zero and two milliseconds.
  pub record IsWithin (s : FeedbackState W) : Type 0 where
    pub admits : 1 ≤ s.admission_limit
    pub at_most : s.admission_limit ≤ 6
    pub adjusts : nought ≼ s.guard_adjustment_ms
    pub up_to : s.guard_adjustment_ms ≼ d.decimal 2 0
    pub counts : s.safe_epochs ≤ 1

module _ {W : Type 0} ⦃d : Float W⦄ (laws : IsIeee W) where
  raised :
      (x : W)
      → nought ≼ x
      → (nought ≼ float_min (d.decimal 2 0) (d.add x (d.decimal 5 1)))
        × (float_min (d.decimal 2 0) (d.add x (d.decimal 5 1)) ≼ d.decimal 2 0)
  raised x h =
      let two = d.decimal 2 0 in
      let half = d.decimal 5 1 in
      let grown =
        laws.le_trans nought x _ h (laws.add_nonneg x half h (laws.decimal_nonneg 5 1)).0 in
      if_either (λ v. (nought ≼ v) × (v ≼ two)) (d.lt (d.add x half) two) _ _
        (λ e. (grown, laws.le_of_lt _ two e))
        (λ e. (laws.decimal_nonneg 2 0, laws.decimal_number 2 0))

  lowered :
      (x : W)
      → nought ≼ x
      → x ≼ d.decimal 2 0
      → (nought ≼ float_max nought (d.sub x (d.decimal 25 2)))
        × (float_max nought (d.sub x (d.decimal 25 2)) ≼ d.decimal 2 0)
  lowered x h k =
      let step = d.decimal 25 2 in
      let two = d.decimal 2 0 in
      let less = laws.sub_le x step h (laws.decimal_nonneg 25 2) (laws.decimal_finite 25 2) in
      if_either (λ v. (nought ≼ v) × (v ≼ two)) (d.lt nought (d.sub x step)) _ _
        (λ e. (laws.le_of_lt nought _ e, laws.le_trans _ x two less k))
        (λ e. (laws.decimal_number 0 0, laws.decimal_nonneg 2 0))

  -- Under the float laws every epoch's feedback keeps the admission limit between one and six, the
  -- guard adjustment between zero and two milliseconds and at most one safe epoch counted.
  pub update_feedback-IsWithin :
      (s : FeedbackState W) (violated : Bool) (critical_p99_ms deadline_ms : W)
      → IsWithin s
      → IsWithin (update_feedback s violated critical_p99_ms deadline_ms)
  unfolding update_feedback after_safe_epoch
  update_feedback-IsWithin s violated p deadline h =
      if_either IsWithin violated _ _
        (λ e. record {
          admits = omega arith;
          at_most = omega (arith, h.at_most);
          adjusts = (raised s.guard_adjustment_ms h.adjusts).0;
          up_to = (raised s.guard_adjustment_ms h.adjusts).1;
          counts = omega arith;
        })
        (λ e.
          if_either IsWithin (d.lt p (d.mul deadline (d.decimal 95 2))) _ _
            (λ f.
              if_either IsWithin (leb 2 (s.safe_epochs + 1)) _ _
                (λ g. record {
                  admits = omega (arith, h.admits);
                  at_most = omega arith;
                  adjusts = (lowered s.guard_adjustment_ms h.adjusts h.up_to).0;
                  up_to = (lowered s.guard_adjustment_ms h.adjusts h.up_to).1;
                  counts = omega arith;
                })
                (λ g. record {
                  admits = h.admits;
                  at_most = h.at_most;
                  adjusts = h.adjusts;
                  up_to = h.up_to;
                  counts = ground arith;
                }))
            (λ f. record {
              admits = h.admits;
              at_most = h.at_most;
              adjusts = h.adjusts;
              up_to = h.up_to;
              counts = omega arith;
            }))
