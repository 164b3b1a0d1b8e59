-- ===== src/Telemetry/Ruled.antt =====
-- What the rules of an aggregate ask for, and the limits that limits_of of
-- runtime/tegrastats_telemetry.py makes of them.
use jetson_dlagreen.Governor.Thermal.Gaps.{IsBetween}
use jetson_dlagreen.Telemetry.Window.{is_in_interval}
use jetson_dlagreen.Telemetry.Healthy.{MeetsLimits, IsPoint}
use jetson_dlagreen.Telemetry.Complete.{lies_in, keep_same, is_in_interval-lies_in}
use jetson_dlagreen.Common.Dict.{IsAmong, keep}
use jetson_dlagreen.Common.{
  ◌≡◌, ◌∷◌, [], false, ◌>>=◌, Bool-cases, >>=-eq-ok, All, some, ◌&&◌, ◌∙◌, str_eq, if◌then◌else◌,
  require, ap, suc, inl, sym, refl, ok_injective, ltb, All-map, subst, inr, str_eq_iff,
  some_injective, not, arith, zero, none, length, ◌++◌,
}
use jetson_dlagreen.Dag.{is_in}
use jetson_dlagreen.Common.Int.{◌≤ℤ◌}
use jetson_dlagreen.Telemetry.Health.{
  all_present, distinct_from, limits_of, is_valid, Rules, Limits, validated_or_none,
  checked_minimum, reference_of, check_fields, is_zero,
}
use jetson_dlagreen.Telemetry.{
  Sample, String, Result, Bool, ok, Option, List, ℤ, ℕ, true, err, validated_monotonic_ns, pos,
  negsuc,
}

module _ {P W : Type 0} (present : Sample P W → String → Result Bool) where
  abbrev is_there : Result Bool → Bool
  is_there (ok there) = there
  is_there (err e) = false

  -- Every field is present.
  abbrev pub has_fields : List String → Sample P W → Bool
  has_fields [] s = true
  has_fields (field ∷ fields) s = is_there (present s field) && has_fields fields s

  -- A point of time at which a sample of the history was taken that has the fields and lies between
  -- the start and the end.
  pub record IsTimeOf (history : List (Sample P W)) (start_ns end_ns : ℤ) (rules : Rules)
      (point : ℤ) : Type 0 where
    pub taken : Sample P W
    pub recorded : IsAmong taken history
    pub inside : lies_in start_ns end_ns rules.end_inclusive taken ≡ true
    pub valid : has_fields rules.required_fields taken ≡ true
    pub at : point ≡ pos taken.monotonic_ns

  -- As many samples of the history as the rules ask for lie between the start and the end and have
  -- the fields; and each instant there is covered by such samples as closely as the rules ask for.
  pub record IsHealthy (history : List (Sample P W)) (start_ns end_ns : ℤ) (rules : Rules)
      : Type 0 where
    pub enough :
        rules.minimum_valid_samples
        ≤ℤ pos (
            length (
              keep
                (has_fields rules.required_fields)
                (keep (lies_in start_ns end_ns rules.end_inclusive) history)))
    pub covered :
        (maximum : ℤ)
        → rules.maximum_valid_gap_ns ≡ some maximum
        → (points : List ℤ) × All (IsTimeOf history start_ns end_ns rules) points
          × ((t : ℤ)
              → start_ns ≤ℤ t
              → t ≤ℤ end_ns
              → IsBetween maximum t (start_ns ∷ points) (points ++ (end_ns ∷ [])))

  is_valid-has_fields :
      (fields : List String) (s : Sample P W) → is_valid present fields s ≡ has_fields fields s
  unfolding all_present
  is_valid-has_fields [] s = refl
  is_valid-has_fields (field ∷ fields) s =
      of_presence (present s field) (is_valid-has_fields fields s)
    where
      of_presence :
          (p : Result Bool)
          → is_valid present fields s ≡ has_fields fields s
          → (elim (p >>= (λ q. if q then all_present present fields s else ok false)) [
            | ok valid ↦ valid
            | err e ↦ false
          ])
            ≡ (is_there p && has_fields fields s)
      of_presence (ok true) h = h
      of_presence (ok false) h = refl
      of_presence (err e) h = refl

  has_field :
      (field : String) (seen : List String) (s : Sample P W)
      → is_in field seen ≡ true
      → has_fields seen s ≡ true
      → is_there (present s field) ≡ true
  has_field field [] s h k = cc
  has_field field (x ∷ seen) s h k = elim (Bool-cases (str_eq x field)) [
    | inl same ↦
        subst (λ f. is_there (present s f) ≡ true) ((str_eq_iff x field).0 same) (ground arith)
    | inr apart ↦ has_field field seen s (ground arith) (ground arith)
  ]

  -- Without its repetitions a list of fields asks for the same.
  distinct_from-has_fields :
      (seen fields : List String) (s : Sample P W)
      → has_fields seen s ≡ true
      → has_fields (distinct_from seen fields) s ≡ has_fields fields s
  unfolding distinct_from
  distinct_from-has_fields seen [] s h = refl
  distinct_from-has_fields seen (field ∷ fields) s h = elim (Bool-cases (is_in field seen)) [
    | inl again ↦
        let there = has_field field seen s again h in
        rw (again, there) (distinct_from-has_fields seen fields s h)
    | inr first ↦ elim (Bool-cases (is_there (present s field))) [
      | inl there ↦
          rw (first, there) (distinct_from-has_fields (field ∷ seen) fields s (rw there h))
      | inr missing ↦ rw (first, missing) refl
    ]
  ]

  is_valid-distinct :
      (fields : List String) (s : Sample P W)
      → is_valid present (distinct_from [] fields) s ≡ has_fields fields s
  is_valid-distinct fields s =
      is_valid-has_fields (distinct_from [] fields) s ∙ distinct_from-has_fields [] fields s refl

  time_of_number : (n : ℤ) (v : ℕ) → validated_monotonic_ns n ≡ ok v → pos v ≡ n
  time_of_number (pos k) v h = sym (ap pos (ok_injective h))
  time_of_number (negsuc k) v h = cc

  minimum_of : (minimum : ℤ) (n : ℕ) → checked_minimum minimum ≡ ok n → pos n ≡ minimum
  minimum_of (pos (suc k)) n h = sym (ap pos (ok_injective h))
  minimum_of (pos zero) n h = cc
  minimum_of (negsuc k) n h = cc

  maximum_of :
      (given : Option ℤ) (checked : Option ℕ) (maximum : ℤ)
      → validated_or_none given ≡ ok checked
      → given ≡ some maximum
      → (n : ℕ) × (checked ≡ some n) × (pos n ≡ maximum)
  maximum_of none checked maximum h e = cc
  maximum_of (some m) checked maximum h e =
      let (v, f, k) = >>=-eq-ok (validated_monotonic_ns m) _ h in
      (v, sym (ok_injective k), time_of_number m v f ∙ some_injective e)

  -- What the limits say of the rules that they are made of.
  record IsLimitsOf (start_ns end_ns : ℤ) (rules : Rules) (limits : Limits) : Type 0 where
    pub start : pos limits.interval.start_ns ≡ start_ns
    pub end : pos limits.interval.end_ns ≡ end_ns
    pub inside :
        (s : Sample P W)
        → is_in_interval limits.interval s ≡ lies_in start_ns end_ns rules.end_inclusive s
    pub fields :
        (s : Sample P W) → is_valid present limits.required s ≡ has_fields rules.required_fields s
    pub minimum : pos limits.minimum_valid_samples ≡ rules.minimum_valid_samples
    pub maximum :
        (m : ℤ)
        → rules.maximum_valid_gap_ns ≡ some m
        → (n : ℕ) × (limits.maximum_valid_gap_ns ≡ some n) × (pos n ≡ m)

  limits_of-IsLimitsOf :
      (empty : Sample P W) (start_ns end_ns : ℤ) (rules : Rules) (limits : Limits)
      → limits_of present empty start_ns end_ns rules ≡ ok limits
      → IsLimitsOf start_ns end_ns rules limits
  unfolding limits_of
  limits_of-IsLimitsOf empty start_ns end_ns rules limits h =
      let (start, e, h1) = >>=-eq-ok (validated_monotonic_ns start_ns) _ h in
      let (end, f, h2) = >>=-eq-ok (validated_monotonic_ns end_ns) _ h1 in
      let (u1, o, h3) = >>=-eq-ok (require (ltb start end) _) _ h2 in
      let (minimum, m, h4) = >>=-eq-ok (checked_minimum rules.minimum_valid_samples) _ h3 in
      let (stale_after, s, h5) = >>=-eq-ok (validated_or_none rules.stale_after_ns) _ h4 in
      let (maximum_gap, g, h6) = >>=-eq-ok (validated_or_none rules.maximum_valid_gap_ns) _ h5 in
      let (u2, z, h7) = >>=-eq-ok (require (not (is_zero maximum_gap)) _) _ h6 in
      let (reference, r, h8) = >>=-eq-ok (reference_of rules.reference_ns end) _ h7 in
      let (u3, a, h9) = >>=-eq-ok (require (not (ltb reference end)) _) _ h8 in
      let (u4, c, h10) =
        >>=-eq-ok (check_fields present empty (distinct_from [] rules.required_fields)) _ h9 in
      subst (IsLimitsOf start_ns end_ns rules) (ok_injective h10) (record {
        start = time_of_number start_ns start e;
        end = time_of_number end_ns end f;
        inside = is_in_interval-lies_in start_ns end_ns rules.end_inclusive start end e f;
        fields = is_valid-distinct rules.required_fields;
        minimum = minimum_of rules.minimum_valid_samples minimum m;
        maximum = λ n k. maximum_of rules.maximum_valid_gap_ns maximum_gap n g k;
      })

  points-IsTimeOf :
      (history : List (Sample P W)) (start_ns end_ns : ℤ) (rules : Rules) (limits : Limits)
      → IsLimitsOf start_ns end_ns rules limits
      → (points : List ℤ) → All (IsPoint present history limits) points
      → All (IsTimeOf history start_ns end_ns rules) points
  points-IsTimeOf history start_ns end_ns rules limits l points = All-map _ _ points (λ t p.
      record {
        taken = p.taken;
        recorded = p.recorded;
        inside = sym (l.inside p.taken) ∙ p.in_interval;
        valid = sym (l.fields p.taken) ∙ p.valid;
        at = p.at;
      })

  -- What meets the limits is healthy by the rules.
  pub limits_of-IsHealthy :
      (empty : Sample P W) (history : List (Sample P W)) (start_ns end_ns : ℤ) (rules : Rules)
      (limits : Limits)
      → limits_of present empty start_ns end_ns rules ≡ ok limits
      → MeetsLimits present history limits
      → IsHealthy history start_ns end_ns rules
  limits_of-IsHealthy empty history start_ns end_ns rules limits h meets =
      let l = limits_of-IsLimitsOf empty start_ns end_ns rules limits h in
      let same =
        ap (keep (is_valid present limits.required)) (
          keep_same (is_in_interval limits.interval) (lies_in start_ns end_ns rules.end_inclusive)
            history l.inside)
        ∙ keep_same (is_valid present limits.required) (has_fields rules.required_fields)
            (keep (lies_in start_ns end_ns rules.end_inclusive) history) l.fields in
      record {
        enough =
            subst
              (λ (m : ℤ).
                m
                ≤ℤ pos (
                    length (
                      keep (has_fields rules.required_fields)
                        (keep (lies_in start_ns end_ns rules.end_inclusive) history))))
              l.minimum
              (subst (λ kept. pos limits.minimum_valid_samples ≤ℤ pos (length kept)) same
                (omega (arith, meets.enough)));
        covered = λ maximum e.
            let (n, found, bound) = l.maximum maximum e in
            let (points, times, between) = meets.covered n found in
            (
              points,
              points-IsTimeOf history start_ns end_ns rules limits l points times,
              subst
                  (λ (m : ℤ).
                    (t : ℤ)
                    → start_ns ≤ℤ t
                    → t ≤ℤ end_ns
                    → IsBetween m t (start_ns ∷ points) (points ++ (end_ns ∷ [])))
                  bound
                  (subst
                    (λ (z : ℤ).
                      (t : ℤ)
                      → start_ns ≤ℤ t
                      → t ≤ℤ z
                      → IsBetween (pos n) t (start_ns ∷ points) (points ++ (z ∷ [])))
                    l.end
                    (subst
                      (λ (a : ℤ).
                        (t : ℤ)
                        → a ≤ℤ t
                        → t ≤ℤ pos limits.interval.end_ns
                        → IsBetween (pos n) t (a ∷ points)
                            (points ++ (pos limits.interval.end_ns ∷ [])))
                      l.start between)),
            );
      }
