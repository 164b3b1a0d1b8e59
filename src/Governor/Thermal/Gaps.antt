-- ===== src/Governor/Thermal/Gaps.antt =====
-- The maximum gap bounds the time from every instant of the window to the samples around it.
use jetson_dlagreen.Common.Dict.{IsAmong}
use jetson_dlagreen.Common.{
  ◌∷◌, [], some, inl, inr, String, List, ◌≡◌, ◌++◌, All, arith, Result, Bool-cases, subst,
  some_injective, refl, Option, ok, >>=-eq-ok, require, not, value_error, Option-cases,
}
use jetson_dlagreen.Common.Int.{◌-ℤ◌, ltb_ℤ}
use jetson_dlagreen.Common.Float.{Float, nought}
use jetson_dlagreen.Common.Int.{ℤ, ◌≤ℤ◌}
use jetson_dlagreen.Governor.Thermal.{
  maximum_gap_ns, largest_of, thermal_window_maximum_gap_seconds, differences, later_of, Builtins,
  last_of, Sample, seconds_of, window_ns, earliest, timestamps_of,
}

largest_of-bounds :
    (best : ℤ) (gs : List ℤ) → (best ≤ℤ largest_of best gs) × All (λ g. g ≤ℤ largest_of best gs) gs
unfolding largest_of
largest_of-bounds best [] = (omega arith, tt)
largest_of-bounds best (g ∷ gs) =
    let (h, hs) = largest_of-bounds (later_of best g) gs in
    (ground (arith, h), (ground (arith, h), hs))

-- An instant between two points that are no further apart than the gap.
pub record IsBetween (gap t : ℤ) (before after : List ℤ) : Type 0 where
  pub from : ℤ
  pub to : ℤ
  pub from_among : IsAmong from before
  pub to_among : IsAmong to after
  pub from_le : from ≤ℤ t
  pub le_to : t ≤ℤ to
  pub apart : (to -ℤ from) ≤ℤ gap

differences-IsBetween :
    (gap t reference a : ℤ) (ts : List ℤ)
    → a ≤ℤ t
    → t ≤ℤ reference
    → All (λ g. g ≤ℤ gap) (differences a ts)
    → (reference -ℤ last_of a ts) ≤ℤ gap
    → IsBetween gap t (a ∷ ts) (ts ++ (reference ∷ []))
differences-IsBetween gap t reference a [] h k gs last = record {
  from = a;
  to = reference;
  from_among = inl refl;
  to_among = inl refl;
  from_le = h;
  le_to = k;
  apart = last;
}
differences-IsBetween gap t reference a (u ∷ ts) h k (g, gs) last = elim (Bool-cases (ltb_ℤ t u)) [
  | inl e ↦ record {
    from = a;
    to = u;
    from_among = inl refl;
    to_among = inl refl;
    from_le = h;
    le_to = ground (arith, e);
    apart = g;
  }
  | inr e ↦
      let next = differences-IsBetween gap t reference u ts (ground (arith, e)) k gs last in
      record {
        from = next.from;
        to = next.to;
        from_among = inr next.from_among;
        to_among = inr next.to_among;
        from_le = next.from_le;
        le_to = next.le_to;
        apart = next.apart;
      }
]

pub maximum_gap_ns-IsBetween :
    (start reference : ℤ) (ts : List ℤ) (gap t : ℤ)
    → maximum_gap_ns start reference ts ≡ some gap
    → start ≤ℤ t
    → t ≤ℤ reference
    → IsBetween gap t (start ∷ ts) (ts ++ (reference ∷ []))
unfolding maximum_gap_ns
maximum_gap_ns-IsBetween start reference [] gap t e h k = cc
maximum_gap_ns-IsBetween start reference (u ∷ ts) gap t e h k =
    let (first, (last, gs)) =
      largest_of-bounds (u -ℤ start) ((reference -ℤ last_of u ts) ∷ differences u ts) in
    subst (λ g. IsBetween g t (start ∷ u ∷ ts) ((u ∷ ts) ++ (reference ∷ []))) (some_injective e)
      (elim (Bool-cases (ltb_ℤ t u)) [
        | inl f ↦ record {
          from = start;
          to = u;
          from_among = inl refl;
          to_among = inl refl;
          from_le = h;
          le_to = ground (arith, f);
          apart = first;
        }
        | inr f ↦
            let next = differences-IsBetween _ t reference u ts (ground (arith, f)) k gs last in
            record {
              from = next.from;
              to = next.to;
              from_among = inr next.from_among;
              to_among = inr next.to_among;
              from_le = next.from_le;
              le_to = next.le_to;
              apart = next.apart;
            }
      ])

module _ {W : Type 0} ⦃d : Float W⦄ (b : Builtins W)
    (sample_window : ℤ → ℤ → Result (List (Sample W))) where
  -- The gap of a window: each instant of it, from its start to the reference, is between two of the
  -- samples and the ends of the window that are no further apart.
  pub record IsGap (sensor : String) (window_seconds : W) (reference_ns : ℤ)
      (not_before_ns : Option ℤ) (seconds : W) : Type 0 where
    pub gap : ℤ
    pub window : ℤ
    pub samples : List (Sample W)
    pub in_seconds : seconds_of b (some gap) ≡ ok (some seconds)
    pub in_nanoseconds : window_ns b window_seconds ≡ ok window
    pub are_samples :
        sample_window (earliest (reference_ns -ℤ window) not_before_ns) reference_ns ≡ ok samples
    pub bounds :
        (t : ℤ)
        → earliest (reference_ns -ℤ window) not_before_ns ≤ℤ t
        → t ≤ℤ reference_ns
        → IsBetween gap t
            (earliest (reference_ns -ℤ window) not_before_ns ∷ timestamps_of sensor samples)
            (timestamps_of sensor samples ++ (reference_ns ∷ []))

  -- A maximum gap that is returned is such that each instant of the window, from its start to the
  -- reference, lies between two points no further apart than it, of the samples that carry the
  -- sensor and the window's ends.
  pub thermal_window_maximum_gap_seconds-IsGap :
      (sensor : String) (window_seconds : W) (reference_ns : ℤ) (not_before_ns : Option ℤ)
      (seconds : W)
      → thermal_window_maximum_gap_seconds b sample_window sensor window_seconds reference_ns
          not_before_ns
        ≡ ok (some seconds)
      → IsGap sensor window_seconds reference_ns not_before_ns seconds
  unfolding thermal_window_maximum_gap_seconds
  thermal_window_maximum_gap_seconds-IsGap sensor window_seconds reference_ns not_before_ns seconds
        h =
      let (u, positive, h1) =
        >>=-eq-ok
          (require (not (d.le window_seconds nought))
            (value_error "thermal window must be positive"))
          _ h in
      let (window, in_ns, h2) = >>=-eq-ok (window_ns b window_seconds) _ h1 in
      let start = earliest (reference_ns -ℤ window) not_before_ns in
      let (samples, are, h3) = >>=-eq-ok (sample_window start reference_ns) _ h2 in
      elim (Option-cases (maximum_gap_ns start reference_ns (timestamps_of sensor samples))) [
        | inl e ↦ let failing = subst (λ g. seconds_of b g ≡ ok (some seconds)) e h3 in cc
        | inr (gap, e) ↦ record {
          gap = gap;
          window = window;
          samples = samples;
          in_seconds = subst (λ g. seconds_of b g ≡ ok (some seconds)) e h3;
          in_nanoseconds = in_ns;
          are_samples = are;
          bounds = λ t.
              maximum_gap_ns-IsBetween start reference_ns (timestamps_of sensor samples) gap t e;
        }
      ]
