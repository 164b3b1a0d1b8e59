-- ===== src/Planner/Reservation.antt =====
-- A profile that load_pipeline_profile accepts: its reservation, and what its feasibility means.
use jetson_dlagreen.Common.Json.{null}
use jetson_dlagreen.Planner.Bound.{
  CoversTail, IsNonnegative, finite_nonnegative-value, tail_bound-CoversTail,
}
use jetson_dlagreen.Dag.{DagContract, validate_dag}
use jetson_dlagreen.Planner.Profile.{
  read_latencies, transport_p99, Evaluation, Latencies, load_pipeline_profile, evaluation_of,
  evaluate_stage, joint_tail_of, TailBound, is_promotable, transport_value, read_stage,
  deadline_mode, end_to_end_p99, tail_bound, plan_dag, is_wall_pipeline,
}
use jetson_dlagreen.Common.Float.{IsIeee, nought, ◌≼◌, float_max, IsNumber, float_max_bounds}
use jetson_dlagreen.Common.{
  ◌≡◌, ok, true, Bool, >>=-eq-ok, refl, subst, if◌then◌else◌, ok_injective, not, arith, false, ap,
  String, sym, some, none, ◌∙◌, ◌⊎◌, ◌&&◌, if_either,
}
use jetson_dlagreen.Planner.{
  Builtins, Float, Candidate, Fields, Json, get_or_null, finite_nonnegative, obj, check_profile,
  is_null, positive_int, checked_nonnegative, get_field, bool, int, get_default, float, str, arr,
  pos, get_from,
}

module _ {W : Type 0} ⦃d : Float W⦄ (laws : IsIeee W) (b : Builtins W) where
  uncovered_nonnegative : (x : W) → nought ≼ float_max nought x
  uncovered_nonnegative x = ground (arith, laws.le_of_lt nought x, laws.decimal_number 0 0)

  -- What the transport's latency is of the stage's values: the ready p99 without a notification, or
  -- if the precise value is given as null; the precise one if it is given; and otherwise a sum that
  -- covers the notification and the two copies.
  pub record IsTransport (stage : Fields W) (t : W) : Type 0 where
    pub without_notification :
        is_null (get_or_null "transport_notification_p99" stage) ≡ true
        → finite_nonnegative b (get_or_null "transport_ready_p99" stage) ≡ ok t
    pub given :
        (value : Json W)
        → is_null (get_or_null "transport_notification_p99" stage) ≡ false
        → get_field "edge_transport_p99" stage ≡ some value
        → finite_nonnegative b
            (if is_null value then get_or_null "transport_ready_p99" stage else value)
          ≡ ok t
    pub in_parts :
        is_null (get_or_null "transport_notification_p99" stage) ≡ false
        → get_field "edge_transport_p99" stage ≡ none
        → ((x : W)
            → finite_nonnegative b (get_or_null "transport_notification_p99" stage) ≡ ok x
            → x ≼ t)
          × ((value : Json W) (x : W)
              → get_field "producer_handoff_copy_p99" stage ≡ some value
              → finite_nonnegative b value ≡ ok x
              → x ≼ t)
          × ((value : Json W) (x : W)
              → get_field "consumer_handoff_copy_p99" stage ≡ some value
              → finite_nonnegative b value ≡ ok x
              → x ≼ t)

  -- The latencies are those of the stage.
  pub record AreLatencies (stage : Fields W) (l : Latencies W) : Type 0 where
    pub producer :
        finite_nonnegative b (get_or_null "producer_compute_p99" stage) ≡ ok l.producer_us
    pub transport : IsTransport stage l.transport_us
    pub consumer :
        finite_nonnegative b (get_or_null "consumer_compute_p99" stage) ≡ ok l.consumer_us
    pub verification :
        finite_nonnegative b (get_or_null "output_verification_p99" stage) ≡ ok l.verification_us

  pub checked_same : (x y : W) → checked_nonnegative x ≡ ok y → x ≡ y
  unfolding checked_nonnegative
  checked_same x y h = ground (arith, ok_injective {x = x} {y = y})

  same_default :
      (name : String) (default value : Json W) (stage : Fields W)
      → get_field name stage ≡ some value
      → get_default name default stage ≡ value
  same_default name default value stage h = rw (h, get_default) refl

  no_default :
      (name : String) (default : Json W) (stage : Fields W)
      → get_field name stage ≡ none
      → get_default name default stage ≡ default
  no_default name default stage h = rw (h, get_default) refl

  conflict : ¬ (true ≡ false)
  conflict h = cc

  transport_p99-IsTransport :
      (stage : Fields W) (t : W) → transport_p99 b stage ≡ ok t → IsTransport stage t
  unfolding transport_p99 transport_value finite_nonnegative
  transport_p99-IsTransport stage t h =
      let (value, v, k) =
        >>=-eq-ok
          (transport_value b (is_null (get_or_null "transport_notification_p99" stage)) stage) _
          h in
      of_value value (is_null (get_or_null "transport_notification_p99" stage)) refl v k
    where
      of_value :
          (value : Json W) (missing : Bool)
          → is_null (get_or_null "transport_notification_p99" stage) ≡ missing
          → transport_value b missing stage ≡ ok value
          → finite_nonnegative b value ≡ ok t
          → IsTransport stage t
      of_value value true m v k = record {
        without_notification =
            λ e. subst (λ z. finite_nonnegative b z ≡ ok t) (sym (ok_injective v)) k;
        given = λ other e. absurd (conflict (sym m ∙ e));
        in_parts = λ e. absurd (conflict (sym m ∙ e));
      }
      of_value value false m v k =
          let (producer, p, v1) =
            >>=-eq-ok
              (finite_nonnegative b (get_default "producer_handoff_copy_p99" (int (pos 0)) stage)) _
              v in
          let (notification, n, v2) =
            >>=-eq-ok (finite_nonnegative b (get_or_null "transport_notification_p99" stage)) _
              v1 in
          let (consumer, c, v3) =
            >>=-eq-ok
              (finite_nonnegative b (get_default "consumer_handoff_copy_p99" (int (pos 0)) stage)) _
              v2 in
          let sum = d.add (d.add producer notification) consumer in
          let chosen = subst (λ z. finite_nonnegative b z ≡ ok t) (sym (ok_injective v3)) k in
          let low =
            laws.add_nonneg producer notification (finite_nonnegative-value laws b _ producer p).1
              (finite_nonnegative-value laws b _ notification n).1 in
          let high =
            laws.add_nonneg (d.add producer notification) consumer
              (laws.le_trans _ _ _ (finite_nonnegative-value laws b _ producer p).1 low.0)
              (finite_nonnegative-value laws b _ consumer c).1 in
          record {
            without_notification = λ e. absurd (conflict (sym e ∙ m));
            given = λ other e f.
                subst
                  (λ q.
                    finite_nonnegative b
                      (if is_null q then get_or_null "transport_ready_p99" stage else q)
                    ≡ ok t)
                  (same_default "edge_transport_p99" (float sum) other stage f) chosen;
            in_parts = λ e f.
                let summed = checked_same sum t (
                  subst
                    (λ q.
                      finite_nonnegative b
                        (if is_null q then get_or_null "transport_ready_p99" stage else q)
                      ≡ ok t)
                    (no_default "edge_transport_p99" (float sum) stage f) chosen) in
                (
                  λ x q.
                      subst (λ z. x ≼ z) summed
                        (subst (λ y. y ≼ sum) (ok_injective (sym n ∙ q))
                          (laws.le_trans _ _ _ low.1 high.0)),
                  λ other x g q.
                      subst (λ z. x ≼ z) summed
                        (subst (λ y. y ≼ sum)
                          (ok_injective (
                            sym p
                            ∙ ap (finite_nonnegative b) (
                                same_default "producer_handoff_copy_p99" (int (pos 0)) other stage
                                  g)
                            ∙ q))
                          (laws.le_trans _ _ _ low.0 high.0)),
                  λ other x g q.
                      subst (λ z. x ≼ z) summed
                        (subst (λ y. y ≼ sum)
                          (ok_injective (
                            sym c
                            ∙ ap (finite_nonnegative b) (
                                same_default "consumer_handoff_copy_p99" (int (pos 0)) other stage
                                  g)
                            ∙ q))
                          high.1),
                );
          }

  read_latencies-AreLatencies :
      (stage : Fields W) (l : Latencies W) → read_latencies b stage ≡ ok l → AreLatencies stage l
  unfolding read_latencies
  read_latencies-AreLatencies stage l e =
      let (producer, p, e1) =
        >>=-eq-ok (finite_nonnegative b (get_or_null "producer_compute_p99" stage)) _ e in
      let (transport, t, e2) = >>=-eq-ok (transport_p99 b stage) _ e1 in
      let (consumer, c, e3) =
        >>=-eq-ok (finite_nonnegative b (get_or_null "consumer_compute_p99" stage)) _ e2 in
      let (verification, o, e4) =
        >>=-eq-ok (finite_nonnegative b (get_or_null "output_verification_p99" stage)) _ e3 in
      subst (AreLatencies stage) (ok_injective e4) (record {
        producer = p;
        transport = transport_p99-IsTransport stage transport t;
        consumer = c;
        verification = o;
      })

  read_latencies-IsNonnegative :
      (stage : Fields W) (l : Latencies W) → read_latencies b stage ≡ ok l → IsNonnegative laws b l
  unfolding read_latencies transport_p99
  read_latencies-IsNonnegative stage l e =
      let (producer, p, e1) =
        >>=-eq-ok (finite_nonnegative b (get_or_null "producer_compute_p99" stage)) _ e in
      let (transport, t, e2) = >>=-eq-ok (transport_p99 b stage) _ e1 in
      let (value, v, t1) =
        >>=-eq-ok
          (transport_value b (is_null (get_or_null "transport_notification_p99" stage)) stage) _
          t in
      let (consumer, c, e3) =
        >>=-eq-ok (finite_nonnegative b (get_or_null "consumer_compute_p99" stage)) _ e2 in
      let (verification, o, e4) =
        >>=-eq-ok (finite_nonnegative b (get_or_null "output_verification_p99" stage)) _ e3 in
      subst (λ z. IsNonnegative laws b z) (ok_injective e4)
        (record {
          producer = (finite_nonnegative-value laws b _ producer p).1;
          transport = (finite_nonnegative-value laws b value transport t1).1;
          consumer = (finite_nonnegative-value laws b _ consumer c).1;
          verification = (finite_nonnegative-value laws b _ verification o).1;
        })

  joint_tail_of-given :
      (profile : Fields W) (excluded : Bool) (joint : Json W)
      → joint_tail_of b profile excluded ≡ ok joint
      → is_null (get_or_null "joint_tail_p99_us" profile) ≡ false
      → joint ≡ get_or_null "joint_tail_p99_us" profile
  unfolding joint_tail_of
  joint_tail_of-given profile excluded joint h e = sym (ok_injective (rw e at h))

  joint_tail_of-wall :
      (profile : Fields W) (excluded : Bool) (joint : Json W)
      → joint_tail_of b profile excluded ≡ ok joint
      → (times : Fields W) → is_null (get_or_null "joint_tail_p99_us" profile) ≡ true
      → is_null (get_or_null "risk_budget_us" profile) ≡ true
      → excluded ≡ false
      → is_wall_pipeline (get_or_null "pipeline" profile) ≡ true
      → get_field "end_to_end_us" profile ≡ some (obj times)
      → joint ≡ get_or_null "p99" times
  unfolding joint_tail_of
  joint_tail_of-wall profile excluded joint h times e f g w t =
      let wall : end_to_end_p99 profile ≡ ok joint = rw (e, f, g, w) at h in
      ok_injective (
        sym wall
        ∙ ap (get_from "p99") (same_default "end_to_end_us" (obj Fields.end) (obj times) profile t))

  joint_tail_of-none :
      (profile : Fields W) (excluded : Bool) (joint : Json W)
      → joint_tail_of b profile excluded ≡ ok joint
      → is_null (get_or_null "joint_tail_p99_us" profile) ≡ true
      → (excluded ≡ true) ⊎ (is_wall_pipeline (get_or_null "pipeline" profile) ≡ false)
      → is_null joint ≡ true
  unfolding joint_tail_of
  joint_tail_of-none profile excluded joint h e apart =
      if_either (λ v. v ≡ ok joint → is_null joint ≡ true)
        (is_null (get_or_null "joint_tail_p99_us" profile)
          && not excluded
          && is_null (get_or_null "risk_budget_us" profile)
          && is_wall_pipeline (get_or_null "pipeline" profile))
        (end_to_end_p99 profile) (ok (get_or_null "joint_tail_p99_us" profile))
        (λ t k. absurd (no_wall excluded _ _ _ apart t))
        (λ f k. subst (λ v. is_null v ≡ true) (ok_injective k) e) h
    where
      no_wall :
          (out a c w : Bool) → (out ≡ true) ⊎ (w ≡ false) → ¬ ((a && not out && c && w) ≡ true)
      no_wall out a c w k h = ground (arith, k, h)

  read_stage-obj :
      (value : Json W) (stage : Fields W) → read_stage b value ≡ ok stage → value ≡ obj stage
  unfolding read_stage
  read_stage-obj (obj fields) stage h = ap obj (ok_injective h)
  read_stage-obj null stage h = cc
  read_stage-obj (bool v) stage h = cc
  read_stage-obj (int n) stage h = cc
  read_stage-obj (float x) stage h = cc
  read_stage-obj (str s) stage h = cc
  read_stage-obj (arr xs) stage h = cc

  module _ (c : Candidate W) (deadline_us critical_lookahead_us : W) (profile : Fields W) where
    -- The evaluation reserves what its tail bound is made of and the guard that the lookahead leaves
    -- uncovered; a feasible one fits the deadline, observed as well as reserved.
    pub record IsReservation (e : Evaluation W) : Type 0 where
      pub l : Latencies W
      pub stage : Fields W
      pub stage_read : get_or_null "stage_latency_us" profile ≡ obj stage
      pub latencies : AreLatencies stage l
      pub joint_tail : Json W
      pub joint_tail_given :
          is_null (get_or_null "joint_tail_p99_us" profile) ≡ false
          → joint_tail ≡ get_or_null "joint_tail_p99_us" profile
      pub wall_given :
          (times : Fields W)
          → is_null (get_or_null "joint_tail_p99_us" profile) ≡ true
          → is_null (get_or_null "risk_budget_us" profile) ≡ true
          → e.payload_validation_excluded ≡ false
          → is_wall_pipeline (get_or_null "pipeline" profile) ≡ true
          → get_field "end_to_end_us" profile ≡ some (obj times)
          → joint_tail ≡ get_or_null "p99" times
      pub no_joint_tail :
          is_null (get_or_null "joint_tail_p99_us" profile) ≡ true
          → (e.payload_validation_excluded ≡ true)
            ⊎ (is_wall_pipeline (get_or_null "pipeline" profile) ≡ false)
          → is_null joint_tail ≡ true
      pub tail :
          CoversTail laws b joint_tail
            (get_or_null "risk_budget_us" profile)
            l
            c.reservation_margin_us
            e.tail_bound_method
            e.response_reservation_us
      pub promotable : e.tail_bound_promotable ≡ is_promotable e.tail_bound_method
      pub response_covered : e.response_reservation_us ≼ e.arrival_to_completion_reservation_us
      pub guard_covered :
          IsNumber (d.sub c.pre_release_guard_p99_us critical_lookahead_us)
          → d.sub c.pre_release_guard_p99_us critical_lookahead_us
            ≼ e.arrival_to_completion_reservation_us
      pub goodput : e.background_goodput_rps ≡ c.background_goodput_rps
      pub is_feasible :
          e.arrival_to_completion_reservation_us ≼ deadline_us
          → e.observed_end_to_end_p99_us ≼ deadline_us
          → e.feasible ≡ true
      pub fits :
          e.feasible ≡ true
          → (e.arrival_to_completion_reservation_us ≼ deadline_us)
            × (e.observed_end_to_end_p99_us ≼ deadline_us)
            × IsNumber e.reserved_slack_us

    evaluation_of-IsReservation :
        (l : Latencies W) (stage : Fields W) (joint_tail : Json W) (contract : DagContract)
        (transport : Json W) (method : TailBound) (response observed : W) (excluded : Bool)
        → d.is_finite deadline_us ≡ true
        → nought ≼ c.reservation_margin_us
        → get_or_null "stage_latency_us" profile ≡ obj stage
        → AreLatencies stage l
        → joint_tail_of b profile excluded ≡ ok joint_tail
        → CoversTail laws b joint_tail
            (get_or_null "risk_budget_us" profile)
            l
            c.reservation_margin_us
            method
            response
        → IsReservation (
            evaluation_of b c deadline_us critical_lookahead_us contract transport
              (method, response)
              observed
              excluded)
    unfolding evaluation_of
    evaluation_of-IsReservation l stage joint contract transport method response observed excluded
          finite m s r j t =
        let uncovered = float_max nought (d.sub c.pre_release_guard_p99_us critical_lookahead_us) in
        let (low, high) =
          laws.add_nonneg response uncovered (laws.le_trans _ _ _ m t.margin_covered)
            (uncovered_nonnegative (d.sub c.pre_release_guard_p99_us critical_lookahead_us)) in
        record {
          l = l;
          stage = stage;
          stage_read = s;
          latencies = r;
          joint_tail = joint;
          joint_tail_given = joint_tail_of-given profile excluded joint j;
          wall_given = joint_tail_of-wall profile excluded joint j;
          no_joint_tail = joint_tail_of-none profile excluded joint j;
          tail = t;
          promotable = refl;
          response_covered = low;
          guard_covered = λ n.
              laws.le_trans _ _ _
                (float_max_bounds laws nought
                  (d.sub c.pre_release_guard_p99_us critical_lookahead_us) (laws.decimal_number 0 0)
                  n).1
                high;
          goodput = refl;
          is_feasible = λ h k. ground (arith, h, k);
          fits = λ f. (
            ground arith,
            ground arith,
            laws.sub_number deadline_us (d.add response uncovered) finite
                (laws.le_trans _ _ _ (laws.le_trans _ _ _ m t.margin_covered) low) (ground arith),
          );
        }

    pub load_pipeline_profile-IsReservation :
        (e : Evaluation W)
        → d.is_finite deadline_us ≡ true
        → nought ≼ c.reservation_margin_us
        → load_pipeline_profile b c deadline_us critical_lookahead_us (obj profile) ≡ ok e
        → IsReservation e
    unfolding load_pipeline_profile evaluate_stage
    load_pipeline_profile-IsReservation e finite m h =
        let (names, n, h1) = >>=-eq-ok (check_profile b profile) _ h in
        let (stage, s, h2) =
          >>=-eq-ok (read_stage b (get_or_null "stage_latency_us" profile)) _ h1 in
        let (l, r, h3) = >>=-eq-ok (read_latencies b stage) _ h2 in
        let excluding = get_or_null "validation_excluded_end_to_end_p99" stage in
        let (excluded, x, h4) =
          >>=-eq-ok (deadline_mode (get_or_null "deadline_mode" profile) excluding) _ h3 in
        let (value, v, h5) =
          >>=-eq-ok (if excluded then ok excluding else end_to_end_p99 profile) _ h4 in
        let (observed, o, h6) = >>=-eq-ok (finite_nonnegative b value) _ h5 in
        let (joint, j, h7) = >>=-eq-ok (joint_tail_of b profile excluded) _ h6 in
        let explicit = not (is_null (get_or_null "joint_tail_p99_us" profile)) in
        let (bound, t, h8) =
          >>=-eq-ok
            (tail_bound b explicit joint (get_or_null "risk_budget_us" profile) l
              c.reservation_margin_us)
            _ h7 in
        let (bytes, p, h9) = >>=-eq-ok (positive_int (get_or_null "payload_bytes" profile)) _ h8 in
        let (contract, q, h10) =
          >>=-eq-ok (validate_dag (plan_dag b names l bytes (get_or_null "transport" profile))) _
            h9 in
        subst IsReservation (ok_injective h10) (
          evaluation_of-IsReservation l stage joint contract (get_or_null "transport" profile)
            bound.0 bound.1 observed excluded finite m (read_stage-obj _ stage s)
            (read_latencies-AreLatencies stage l r) j
            (tail_bound-CoversTail laws b explicit joint (get_or_null "risk_budget_us" profile) l
              c.reservation_margin_us bound.0 bound.1 (read_latencies-IsNonnegative stage l r) m t))
