-- ===== src/Planner/Bound.antt =====
-- What a candidate's reservation covers, and what its feasibility means.
use jetson_dlagreen.Common.Json.{null}
use jetson_dlagreen.Planner.Profile.{
  add_budget, Latencies, tail_bound, component_sum, TailBound, budget_bound, choose_bound,
  joint_bound, explicit_risk_budget,
}
use jetson_dlagreen.Common.Float.{IsIeee, nought, ◌≼◌}
use jetson_dlagreen.Common.{
  some, ◌≡◌, ok, true, String, Bool-cases, inl, >>=-eq-ok, inr, arith, ok_injective, Bool, false,
  subst, refl, str_eq, sym, ◌∙◌, ap,
}
use jetson_dlagreen.Planner.{
  Builtins, Float, checked_nonnegative, finite_nonnegative, Fields, Json, int, get_field, float,
  bool, str, arr, obj, is_null,
}

some_value : {W : Type 0} {x y : Json W} → some x ≡ some y → x ≡ y
some_value h = cc

checked_nonnegative-value :
    {W : Type 0} ⦃d : Float W⦄ (laws : IsIeee W) (x y : W)
    → checked_nonnegative x ≡ ok y
    → (d.is_finite y ≡ true) × (nought ≼ y)
unfolding checked_nonnegative
checked_nonnegative-value ⦃d⦄ laws x y h = ground (
  arith,
  ok_injective {x = x} {y = y},
  laws.number_of_finite x,
  laws.decimal_number 0 0,
  laws.lt-eq-not-le x nought,
)

module _ {W : Type 0} ⦃d : Float W⦄ (laws : IsIeee W) (b : Builtins W) where
  pub finite_nonnegative-value :
      (value : Json W) (y : W)
      → finite_nonnegative b value ≡ ok y
      → (d.is_finite y ≡ true) × (nought ≼ y)
  unfolding finite_nonnegative
  finite_nonnegative-value (int n) y h =
      let (x, e, k) = >>=-eq-ok (b.of_int n) checked_nonnegative h in
      checked_nonnegative-value laws x y k
  finite_nonnegative-value (float x) y h = checked_nonnegative-value laws x y h
  finite_nonnegative-value null y h = cc
  finite_nonnegative-value (bool v) y h = cc
  finite_nonnegative-value (str s) y h = cc
  finite_nonnegative-value (arr xs) y h = cc
  finite_nonnegative-value (obj fs) y h = cc

  -- The budget's total is no less than where it starts, nor than any of its parts.
  add_budget-covers :
      (total : W) (fields : Fields W) (r : W)
      → nought ≼ total
      → add_budget b total fields ≡ ok r
      → (total ≼ r)
        × ((name : String) (value : Json W) (x : W)
            → get_field name fields ≡ some value
            → finite_nonnegative b value ≡ ok x
            → x ≼ r)
  unfolding add_budget
  add_budget-covers total Fields.end r h e = (
    subst (λ m. total ≼ m) (ok_injective e) (laws.number_of_le _ _ h).1,
    λ name value x found k. absurd cc,
  )
  add_budget-covers total (Fields.field name value fields) r h e =
      let (part, p, rest) = >>=-eq-ok (finite_nonnegative b value) _ e in
      let (t, q) = laws.add_nonneg total part h (finite_nonnegative-value value part p).1 in
      let (low, parts) =
        add_budget-covers (d.add total part) fields r (laws.le_trans _ _ _ h t) rest in
      (
        laws.le_trans _ _ _ t low,
        λ other v x found k. elim (Bool-cases (str_eq name other)) [
          | inl same ↦
              laws.le_trans _ _ _
                (subst (λ m. m ≼ d.add total part)
                  (ok_injective
                    (sym p ∙ ap (finite_nonnegative b) (some_value (rw same at found)) ∙ k))
                  q)
                low
          | inr apart ↦ parts other v x (rw apart at found) k
        ],
      )

  -- The response reservation covers the margin and all that it was made of.
  pub record CoversTail (joint_tail risk_budget : Json W) (l : Latencies W) (margin : W)
      (method : TailBound) (r : W) : Type 0 where
    pub margin_covered : margin ≼ r
    pub joint_covered : (x : W) → finite_nonnegative b joint_tail ≡ ok x → x ≼ r
    pub budget_covered :
        (fields : Fields W) (name : String) (value : Json W) (x : W)
        → risk_budget ≡ obj fields
        → get_field name fields ≡ some value
        → finite_nonnegative b value ≡ ok x
        → x ≼ r
    pub components_covered :
        is_null joint_tail ≡ true
        → is_null risk_budget ≡ true
        → (l.producer_us ≼ r) × (l.transport_us ≼ r) × (l.consumer_us ≼ r) × (l.verification_us ≼ r)

  -- No latency is negative.
  pub record IsNonnegative (l : Latencies W) : Type 0 where
    pub producer : nought ≼ l.producer_us
    pub transport : nought ≼ l.transport_us
    pub consumer : nought ≼ l.consumer_us
    pub verification : nought ≼ l.verification_us

  component_sum-covers :
      (l : Latencies W) (margin : W)
      → IsNonnegative l
      → nought ≼ margin
      → (l.producer_us ≼ component_sum b l margin)
        × (l.transport_us ≼ component_sum b l margin)
        × (l.consumer_us ≼ component_sum b l margin)
        × (l.verification_us ≼ component_sum b l margin)
        × (margin ≼ component_sum b l margin)
  unfolding component_sum
  component_sum-covers l margin n h =
      let (a1, a2) = laws.add_nonneg l.producer_us l.transport_us n.producer n.transport in
      let (b1, b2) =
        laws.add_nonneg _ l.consumer_us (laws.le_trans _ _ _ n.producer a1) n.consumer in
      let (c1, c2) =
        laws.add_nonneg _ l.verification_us (laws.le_trans _ _ _ n.consumer b2) n.verification in
      let (d1, d2) = laws.add_nonneg _ margin (laws.le_trans _ _ _ n.verification c2) h in
      let through_c = laws.le_trans _ _ _ c1 d1 in
      let through_b = laws.le_trans _ _ _ b1 through_c in
      (
        laws.le_trans _ _ _ a1 through_b,
        laws.le_trans _ _ _ a2 through_b,
        laws.le_trans _ _ _ b2 through_c,
        laws.le_trans _ _ _ c2 d1,
        d2,
      )

  is_null-refused :
      (value : Json W) (x : W) → is_null value ≡ true → ¬ (finite_nonnegative b value ≡ ok x)
  unfolding finite_nonnegative
  is_null-refused null x h e = cc
  is_null-refused (bool v) x h e = cc
  is_null-refused (int n) x h e = cc
  is_null-refused (float y) x h e = cc
  is_null-refused (str s) x h e = cc
  is_null-refused (arr xs) x h e = cc
  is_null-refused (obj fs) x h e = cc

  is_null-not_obj :
      (value : Json W) (fields : Fields W) → is_null value ≡ true → ¬ (value ≡ obj fields)
  is_null-not_obj null fields h e = cc
  is_null-not_obj (bool v) fields h e = cc
  is_null-not_obj (int n) fields h e = cc
  is_null-not_obj (float y) fields h e = cc
  is_null-not_obj (str s) fields h e = cc
  is_null-not_obj (arr xs) fields h e = cc
  is_null-not_obj (obj fs) fields h e = cc

  null_conflict : ¬ (true ≡ false)
  null_conflict h = cc

  -- A budget that gives a bound is an object, whose parts are covered.
  budget_bound-covers :
      (risk : Json W) (margin : W) (method : TailBound) (r : W)
      → nought ≼ margin
      → budget_bound b risk margin ≡ ok (method, r)
      → (explicit_risk_budget ≡ method)
        × (margin ≼ r)
        × ((fields : Fields W) (name : String) (value : Json W) (x : W)
            → risk ≡ obj fields
            → get_field name fields ≡ some value
            → finite_nonnegative b value ≡ ok x
            → x ≼ r)
  unfolding budget_bound
  budget_bound-covers (obj (Fields.field name value fields)) margin method r h e =
      let (total, t, f) = >>=-eq-ok (add_budget b margin (Fields.field name value fields)) _ e in
      let (low, parts) = add_budget-covers margin (Fields.field name value fields) total h t in
      let same = ap (λ z. z.1) (ok_injective f) in
      (
        ap (λ z. z.0) (ok_injective f),
        subst (λ z. margin ≼ z) same low,
        λ others other v x risk found k.
            subst (λ z. x ≼ z) same
              (parts other v x (ap (get_field other) (fields_of risk) ∙ found) k),
      )
    where
      fields_of : {f g : Fields W} → obj f ≡ obj g → f ≡ g
      fields_of h = cc
  budget_bound-covers (obj Fields.end) margin method r h e = cc
  budget_bound-covers null margin method r h e = cc
  budget_bound-covers (bool v) margin method r h e = cc
  budget_bound-covers (int n) margin method r h e = cc
  budget_bound-covers (float y) margin method r h e = cc
  budget_bound-covers (str s) margin method r h e = cc
  budget_bound-covers (arr xs) margin method r h e = cc

  choose_bound-CoversTail :
      (no_joint no_budget explicit : Bool) (joint_tail risk_budget : Json W) (l : Latencies W)
      (margin : W) (method : TailBound) (r : W)
      → is_null joint_tail ≡ no_joint
      → is_null risk_budget ≡ no_budget
      → IsNonnegative l
      → nought ≼ margin
      → choose_bound b no_joint no_budget explicit joint_tail risk_budget l margin ≡ ok (method, r)
      → CoversTail joint_tail risk_budget l margin method r
  unfolding choose_bound joint_bound
  choose_bound-CoversTail false false explicit joint risk l margin method r j k n h e = cc
  choose_bound-CoversTail false true explicit joint risk l margin method r j k n h e =
      let (x, f, g) = >>=-eq-ok (finite_nonnegative b joint) _ e in
      let (low, high) = laws.add_nonneg x margin (finite_nonnegative-value joint x f).1 h in
      subst (λ z. CoversTail joint risk l margin z.0 z.1) (ok_injective g)
        (record {
          margin_covered = high;
          joint_covered = λ y q. subst (λ z. z ≼ d.add x margin) (ok_injective (sym f ∙ q)) low;
          budget_covered =
              λ fields name value y p found q. absurd (is_null-not_obj risk fields k p);
          components_covered = λ p q. absurd (null_conflict (sym p ∙ j));
        })
  choose_bound-CoversTail true false explicit joint risk l margin method r j k n h e =
      let (m, low, parts) = budget_bound-covers risk margin method r h e in
      record {
        margin_covered = low;
        joint_covered = λ x f. absurd (is_null-refused joint x j f);
        budget_covered = parts;
        components_covered = λ p q. absurd (null_conflict (sym q ∙ k));
      }
  choose_bound-CoversTail true true explicit joint risk l margin method r j k n h e =
      let (p, t, c, v, m) = component_sum-covers l margin n h in
      subst (λ z. CoversTail joint risk l margin z.0 z.1) (ok_injective e)
        (record {
          margin_covered = m;
          joint_covered = λ x f. absurd (is_null-refused joint x j f);
          budget_covered =
              λ fields name value x f found q. absurd (is_null-not_obj risk fields k f);
          components_covered = λ f g. (p, t, c, v);
        })

  -- A tail bound covers what it is made of.
  pub tail_bound-CoversTail :
      (explicit : Bool) (joint_tail risk_budget : Json W) (l : Latencies W) (margin : W)
      (method : TailBound) (r : W)
      → IsNonnegative l
      → nought ≼ margin
      → tail_bound b explicit joint_tail risk_budget l margin ≡ ok (method, r)
      → CoversTail joint_tail risk_budget l margin method r
  unfolding tail_bound
  tail_bound-CoversTail explicit joint risk l margin method r n h e =
      choose_bound-CoversTail (is_null joint) (is_null risk) explicit joint risk l margin method r
        refl refl n h e
