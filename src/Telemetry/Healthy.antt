-- ===== src/Telemetry/Healthy.antt =====
-- What a healthy aggregate of the monitor says of the whole history.
use jetson_dlagreen.Governor.Thermal.{maximum_gap_ns}
use jetson_dlagreen.Common.Dict.{IsAmong, keep}
use jetson_dlagreen.Telemetry.Fields.{has_items}
use jetson_dlagreen.Common.Sorting.{sort_by, insert_by, keep-All, sort_by-All}
use mathlib.Core.List.{reverse, reverse-cons}
use jetson_dlagreen.Common.{
  ℕ, ◌∷◌, [], some, inl, inr, Bool, true, false, String, List, if◌then◌else◌, Result, ◌≡◌, length,
  ◌++◌, All, refl, All-append, ◌+◌, arith, ◌≤◌, Bool-cases, if_either, ap, ◌&&◌, not, ◌==◌, ltb,
  subst,
}
use jetson_dlagreen.Common.Int.{ℤ, pos, ◌≤ℤ◌}
use jetson_dlagreen.Telemetry.{Sample}
use jetson_dlagreen.Telemetry.Window.{Interval, is_in_interval}
use jetson_dlagreen.Telemetry.Health.{
  Limits, flag, is_valid, reasons_of, gap_exceeds, observed_gap, times_of, health_of, valid_of,
  selected_of, by_time,
}
use jetson_dlagreen.Governor.Thermal.Gaps.{IsBetween, maximum_gap_ns-IsBetween}

module _ {A : Type 0} where
  pub reverse-All : (P : A → Type 0) (xs : List A) → All P xs → All P (reverse xs)
  reverse-All P [] h = tt
  reverse-All P (x ∷ xs) (h, hs) =
      rw (reverse-cons x xs) (All-append P (reverse xs) (x ∷ []) (reverse-All P xs hs) (h, tt))

  -- How many pass a test.
  abbrev pub number : (A → Bool) → List A → ℕ
  number test xs = length (keep test xs)

  number_nil : (test : A → Bool) → number test [] ≡ 0
  number_nil test = refl

  number-cons :
      (test : A → Bool) (x : A) (xs : List A)
      → number test (x ∷ xs) ≡ (if test x then 1 else 0) + number test xs
  number-cons test x xs = elim (Bool-cases (test x)) [
    | inl e ↦ rw e (omega arith)
    | inr e ↦ rw e (omega arith)
  ]

  number-append :
      (test : A → Bool) (xs ys : List A) → number test (xs ++ ys) ≡ number test xs + number test ys
  number-append test [] ys = omega (arith, number_nil test)
  number-append test (x ∷ xs) ys =
      omega (arith, number-cons test x (xs ++ ys), number-cons test x xs, number-append test xs ys)

  pub number-reverse : (test : A → Bool) (xs : List A) → number test (reverse xs) ≡ number test xs
  number-reverse test [] = refl
  number-reverse test (x ∷ xs) = rw (reverse-cons x xs) (
      omega (
        arith,
        number-append test (reverse xs) (x ∷ []),
        number-reverse test xs,
        number-cons test x xs,
        number-cons test x [],
        number_nil test,
      ))

  number-insert_by :
      (lt : A → A → Bool) (test : A → Bool) (x : A) (ys : List A)
      → number test (insert_by lt x ys) ≡ number test (x ∷ ys)
  number-insert_by lt test x [] = refl
  number-insert_by lt test x (y ∷ ys) =
      if_either (λ zs. number test zs ≡ number test (x ∷ y ∷ ys)) (lt y x) _ _
        (λ e. omega (
          arith,
          number-cons test y (insert_by lt x ys),
          number-insert_by lt test x ys,
          number-cons test x ys,
          number-cons test x (y ∷ ys),
          number-cons test y ys,
        ))
        (λ e. refl)

  number-sort_by :
      (lt : A → A → Bool) (test : A → Bool) (xs : List A)
      → number test (sort_by lt xs) ≡ number test xs
  number-sort_by lt test [] = refl
  number-sort_by lt test (x ∷ xs) = omega (
    arith,
    number-insert_by lt test x (sort_by lt xs),
    number-sort_by lt test xs,
    number-cons test x (sort_by lt xs),
    number-cons test x xs,
  )

  pub keep_all : (test : A → Bool) (xs : List A) → All (λ x. test x ≡ true) xs → keep test xs ≡ xs
  keep_all test [] h = refl
  keep_all test (x ∷ xs) (h, hs) = rw h (ap (λ zs. x ∷ zs) (keep_all test xs hs))

none_of_both :
    (xs ys : List String)
    → has_items (xs ++ ys) ≡ false
    → (has_items xs ≡ false) × (has_items ys ≡ false)
none_of_both [] ys h = (refl, h)
none_of_both (x ∷ xs) ys h = cc

unflagged : (test : Bool) (reason : String) → has_items (flag test reason) ≡ false → test ≡ false
unflagged true reason h = cc
unflagged false reason h = refl

module _ {P W : Type 0} (present : Sample P W → String → Result Bool) where
  -- A point of time at which a valid sample of the history was taken in the interval.
  pub record IsPoint (history : List (Sample P W)) (limits : Limits) (point : ℤ) : Type 0 where
    pub taken : Sample P W
    pub recorded : IsAmong taken history
    pub in_interval : is_in_interval limits.interval taken ≡ true
    pub valid : is_valid present limits.required taken ≡ true
    pub at : point ≡ pos taken.monotonic_ns

  -- Enough valid samples of the history are in the interval, and with a bound on the gap each of its
  -- instants lies between two points of valid samples and its ends that are no further apart.
  pub record MeetsLimits (history : List (Sample P W)) (limits : Limits) : Type 0 where
    pub enough :
        limits.minimum_valid_samples
        ≤ length (
            keep (is_valid present limits.required) (keep (is_in_interval limits.interval) history))
    pub covered :
        (maximum : ℕ)
        → limits.maximum_valid_gap_ns ≡ some maximum
        → (points : List ℤ) × All (IsPoint history limits) points
          × ((t : ℤ)
              → pos limits.interval.start_ns ≤ℤ t
              → t ≤ℤ pos limits.interval.end_ns
              → IsBetween
                  (pos maximum)
                  t
                  (pos limits.interval.start_ns ∷ points)
                  (points ++ (pos limits.interval.end_ns ∷ [])))

  widen :
      (small big t : ℤ) (before after : List ℤ)
      → small ≤ℤ big
      → IsBetween small t before after
      → IsBetween big t before after
  widen small big t before after h b = record {
    from = b.from;
    to = b.to;
    from_among = b.from_among;
    to_among = b.to_among;
    from_le = b.from_le;
    le_to = b.le_to;
    apart = omega (arith, b.apart, h);
  }

  gap_covers :
      (i : Interval) (valid : List (Sample P W)) (maximum : ℕ) (t : ℤ)
      → gap_exceeds (some maximum) (observed_gap i valid (some maximum)) ≡ false
      → pos i.start_ns ≤ℤ t
      → t ≤ℤ pos i.end_ns
      → IsBetween
          (pos maximum)
          t
          (pos i.start_ns ∷ times_of valid)
          (times_of valid ++ (pos i.end_ns ∷ []))
  unfolding maximum_gap_ns
  gap_covers i [] maximum t e h k = record {
    from = pos i.start_ns;
    to = pos i.end_ns;
    from_among = inl refl;
    to_among = inl refl;
    from_le = h;
    le_to = k;
    apart = ground (arith, e);
  }
  gap_covers i (s ∷ valid) maximum t e h k =
      widen _ (pos maximum) t _ _ (ground (arith, e)) (
        maximum_gap_ns-IsBetween (pos i.start_ns) (pos i.end_ns) (times_of (s ∷ valid)) _ t refl h
          k)

  -- What the absence of every reason says.
  no_reason :
      (limits : Limits) (total valid : ℕ) (stale valid_stale exceeded : Bool)
      → has_items (reasons_of present limits total valid stale valid_stale exceeded) ≡ false
      → (limits.minimum_valid_samples ≤ valid) × (stale ≡ false) × (exceeded ≡ false)
  unfolding reasons_of
  no_reason limits total valid stale valid_stale exceeded h =
      let (h5, f6) = none_of_both _ (flag exceeded "valid_sample_gap_exceeded") h in
      let (h4, f5) = none_of_both _ (flag (valid_stale && not stale) "stale_valid_sample") h5 in
      let (h3, f4) = none_of_both _ (flag stale "stale_stream") h4 in
      let (h2, f3) =
        none_of_both _
          (flag (limits.require_all_samples_valid && not (valid == total)) "incomplete_samples")
          h3 in
      let (h1, f2) =
        none_of_both (flag (total == 0) "no_samples")
          (flag (ltb valid limits.minimum_valid_samples) "insufficient_valid_samples") h2 in
      let enough =
        unflagged (ltb valid limits.minimum_valid_samples) "insufficient_valid_samples" f2 in
      (
        ground (arith, enough),
        unflagged stale "stale_stream" f4,
        unflagged exceeded "valid_sample_gap_exceeded" f6,
      )

  -- What makes a sample's time a point.
  abbrev IsTaken : List (Sample P W) → Limits → Sample P W → Type 0
  IsTaken history limits s =
      (IsAmong s history × (is_in_interval limits.interval s ≡ true))
      × (is_valid present limits.required s ≡ true)

  points :
      (history : List (Sample P W)) (limits : Limits) (valid : List (Sample P W))
      → All (IsTaken history limits) valid
      → All (IsPoint history limits) (times_of valid)
  points history limits [] h = tt
  points history limits (s ∷ valid) (h, hs) = (
    record { taken = s; recorded = h.0.0; in_interval = h.0.1; valid = h.1; at = refl },
    points history limits valid hs,
  )

  valid_of-All :
      (history samples : List (Sample P W)) (limits : Limits)
      → All (λ s. IsAmong s history) samples
      → All (IsTaken history limits) (valid_of present limits samples)
  unfolding valid_of selected_of
  valid_of-All history samples limits among =
      let inside =
        λ (s : Sample P W). IsAmong s history × (is_in_interval limits.interval s ≡ true) in
      let chosen = keep (is_in_interval limits.interval) samples in
      keep-All (is_valid present limits.required) inside (by_time chosen) (
        (sort_by-All (λ a b. ltb a.monotonic_ns b.monotonic_ns) inside chosen).0
          (keep-All (is_in_interval limits.interval) (λ s. IsAmong s history) samples among))

  -- A healthy assessment of samples of the history of which those in the interval are as many valid
  -- ones as the history has there.
  pub health_of-MeetsLimits :
      (history samples : List (Sample P W)) (limits : Limits)
      → All (λ s. IsAmong s history) samples
      → number (is_valid present limits.required) (keep (is_in_interval limits.interval) samples)
        ≡ number (is_valid present limits.required) (keep (is_in_interval limits.interval) history)
      → (health_of present limits samples).healthy ≡ true
      → MeetsLimits history limits
  unfolding health_of valid_of selected_of
  health_of-MeetsLimits history samples limits among same h =
      let test = is_valid present limits.required in
      let chosen = keep (is_in_interval limits.interval) samples in
      let nothing : has_items (health_of present limits samples).reasons ≡ false =
        ground (arith, h) in
      let (enough, fresh, apart) = no_reason limits _ _ _ _ _ nothing in
      record {
        enough = omega (
          arith,
          enough,
          number-sort_by (λ a b. ltb a.monotonic_ns b.monotonic_ns) test chosen,
          same,
        );
        covered = λ maximum e. (
          times_of (valid_of present limits samples),
          points history limits (valid_of present limits samples)
              (valid_of-All history samples limits among),
          λ t from to.
              gap_covers limits.interval (valid_of present limits samples) maximum t
                (subst
                  (λ m.
                    gap_exceeds m (observed_gap limits.interval (valid_of present limits samples) m)
                    ≡ false)
                  e apart)
                from to,
        );
      }
