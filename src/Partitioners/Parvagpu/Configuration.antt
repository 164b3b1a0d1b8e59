-- ===== src/Partitioners/Parvagpu/Configuration.antt =====
-- The segments that configure_service requests.
use jetson_dlagreen.Common.Sorting.{
  keep-All, least_by-All, IsAmong-All, IsAmong-keep, least_by-least_on,
}
use jetson_dlagreen.Common.Dict.{IsAmong, keep, All_among}
use jetson_dlagreen.Common.{
  ℕ, ◌∷◌, [], none, some, inl, inr, true, List, Option, All, ◌≡◌, subst, ◌==◌, ok, some_injective,
  arith, ◌⊎◌, if_either, ◌++◌, >>=-eq-ok, Option-cases, sym, ok_injective, str_eq, false, Bool,
  All-map, ◌&&◌, refl, ◌-◌, ◌∙◌, Bool-cases, ap, suc, zero, if◌then◌else◌,
}
use jetson_dlagreen.Common.Float.{Float, ◌≼◌, nought, IsIeee, IsNumber}
use jetson_dlagreen.Partitioners.Parvagpu.{
  configure_service, configure_from, Rounding, Service, ProfilePoint, SegmentRequest, last_point,
  densest, is_eligible, of_size, if_covers, copies, least_by, request_for, by_density,
  supported_segments, complete_instances, remainder_of, with_last, ℤ, pos_part,
}

abbrev pub repeated : {A : Type 0} → ℕ → A → List A
repeated zero a = []
repeated (suc n) a = a ∷ repeated n a

copies-repeated :
    {W : Type 0} ⦃d : Float W⦄ (n : ℕ) (s : SegmentRequest W) → copies n s ≡ repeated n s
copies-repeated zero s = refl
copies-repeated (suc n) s = ap (λ ss. s ∷ ss) (copies-repeated n s)

module _ {W : Type 0} ⦃d : Float W⦄ (r : Rounding W) (service : Service W)
    (profiles : List (ProfilePoint W)) where
  -- A profiled point that the service may use: of its model, below its share of the SLO.
  abbrev pub IsUsable : ProfilePoint W → Type 0
  IsUsable p =
      IsAmong p profiles
      × (str_eq p.model service.model ≡ true)
      × (d.lt p.latency_ms (d.mul (d.div service.slo_ms (d.decimal 2 0)) (d.decimal 9 1)) ≡ true)

  -- Throughput per GPC.
  abbrev pub density : ProfilePoint W → W
  density p = d.div p.throughput (d.decimal p.segment_gpc 0)

  -- Of the usable points of a size, one of greatest density.
  abbrev pub IsDensestOf : ℕ → ProfilePoint W → Type 0
  IsDensestOf size p =
      IsUsable p
      × ((p.segment_gpc == size) ≡ true)
      × ((q : ProfilePoint W) → IsUsable q → (q.segment_gpc == size) ≡ true → density q ≼ density p)

  abbrev Refuses : W → Option (ProfilePoint W) → Type 0
  Refuses rate none = Unit {0}
  Refuses rate (some q) = d.le rate q.throughput ≡ false

  -- Either no point of the size is usable, or a densest one does not cover the rate.
  abbrev pub IsTooSmall : W → ℕ → Type 0
  IsTooSmall rate size =
      ((q : ProfilePoint W) → IsUsable q → (q.segment_gpc == size) ≡ false)
      ⊎ ((q : ProfilePoint W) × IsDensestOf size q × (d.le rate q.throughput ≡ false))

  -- The last segment is of one GPC, or of two if that is too small.
  pub data IsFirstSize (rate : W) (p : ProfilePoint W) : Type 0 where
    one_gpc : IsDensestOf 1 p → IsFirstSize rate p
    two_gpc : IsTooSmall rate 1 → IsDensestOf 2 p → IsFirstSize rate p

  -- Copies of a usable point of greatest density, for the whole part of what the request rate is of
  -- its throughput, one less where that is exact; then a densest usable point of the first size
  -- that covers the rest of the rate.
  pub record IsConfiguration (segments : List (SegmentRequest W)) : Type 0 where
    pub complete : ℕ
    pub whole : ℤ
    pub optimal : ProfilePoint W
    pub last : ProfilePoint W
    pub is_requested :
        segments
        ≡ repeated complete (record { model = service.model; point = optimal })
          ++ (record { model = service.model; point = last } ∷ [])
    pub optimal_usable : IsUsable optimal
    pub optimal_densest : (q : ProfilePoint W) → IsUsable q → density q ≼ density optimal
    pub floored : r.floor (d.div service.request_rate optimal.throughput) ≡ ok whole
    pub exact :
        d.eq (r.fmod service.request_rate optimal.throughput) nought ≡ true
        → complete ≡ pos_part whole - 1
    pub inexact :
        d.eq (r.fmod service.request_rate optimal.throughput) nought ≡ false
        → complete ≡ pos_part whole
    pub first_size :
        IsFirstSize
          (d.sub service.request_rate (d.mul (d.decimal complete 0) optimal.throughput))
          last
    pub covers :
        d.sub service.request_rate (d.mul (d.decimal complete 0) optimal.throughput)
        ≼ last.throughput

  complete_instances-value :
      (rate throughput : W) (complete : ℕ)
      → complete_instances r rate throughput ≡ ok complete
      → (whole : ℤ) × (r.floor (d.div rate throughput) ≡ ok whole)
        × (d.eq (r.fmod rate throughput) nought ≡ true → complete ≡ pos_part whole - 1)
        × (d.eq (r.fmod rate throughput) nought ≡ false → complete ≡ pos_part whole)
  unfolding complete_instances
  complete_instances-value rate throughput complete h =
      let (whole, f, k) = >>=-eq-ok (r.floor (d.div rate throughput)) _ h in
      (
        whole,
        f,
        λ e. sym (ok_injective k) ∙ ap (λ v. if v then pos_part whole - 1 else pos_part whole) e,
        λ e. sym (ok_injective k) ∙ ap (λ v. if v then pos_part whole - 1 else pos_part whole) e,
      )

  eligible : List (ProfilePoint W)
  eligible = keep (is_eligible service) profiles

  split : (x y : Bool) → (x && y) ≡ true → (x ≡ true) × (y ≡ true)
  split x y h = ground arith

  -- The eligible points are the usable ones.
  eligible-IsUsable : All IsUsable eligible
  unfolding eligible is_eligible
  eligible-IsUsable =
      All-map _ IsUsable (keep (is_eligible service) profiles)
        (λ p h.
          let (same, early) = split (str_eq p.model service.model) _ h.1 in (h.0, same, early))
        (keep-All (is_eligible service) (λ p. IsAmong p profiles) profiles (IsAmong-All profiles))

  usable-IsAmong : (p : ProfilePoint W) → IsUsable p → IsAmong p eligible
  unfolding eligible is_eligible
  usable-IsAmong p (m, same, early) =
      IsAmong-keep (is_eligible service) profiles p m (rw (same, early) refl)

  if_covers-some :
      (rate : W) (first otherwise : Option (ProfilePoint W)) (p : ProfilePoint W)
      → if_covers rate first otherwise ≡ some p
      → ((first ≡ some p) × (rate ≼ p.throughput)) ⊎ (Refuses rate first × (otherwise ≡ some p))
  if_covers-some rate none otherwise p = λ h. inr (tt, h)
  if_covers-some rate (some q) otherwise p =
      if_either
        (λ v.
          v ≡ some p
          → ((some q ≡ some p) × (rate ≼ p.throughput))
            ⊎ (Refuses rate (some q) × (otherwise ≡ some p)))
        (d.le rate q.throughput) _ _
        (λ e h. inl (h, subst (λ (x : ProfilePoint W). rate ≼ x.throughput) (some_injective h) e))
        (λ e h. inr (e, h))

  module _ (laws : IsIeee W) (numbers : All (λ p. IsNumber (density p)) profiles) where
    usable-IsNumber : (p : ProfilePoint W) → IsUsable p → IsNumber (density p)
    usable-IsNumber p (m, same, early) = All_among (λ q. IsNumber (density q)) profiles p numbers m

    -- The first of greatest density.
    densest-least :
        (p : ProfilePoint W) (ps : List (ProfilePoint W))
        → IsUsable p
        → All IsUsable ps
        → All (λ q. density q ≼ density (least_by by_density p ps)) (p ∷ ps)
    densest-least p ps h hs =
        least_by-least_on by_density (λ a b. density b ≼ density a) IsUsable
          (λ a u. usable-IsNumber a u) (λ a b c x y. laws.le_trans _ _ _ y x)
          (λ a b e. laws.le_of_lt _ _ e)
          (λ a b u v e. ground (
            arith,
            e,
            laws.lt-eq-not-le (density b) (density a) (usable-IsNumber b v) (usable-IsNumber a u),
          ))
          p ps h hs

    -- What of_size finds among the usable points.
    OfSize : ℕ → Option (ProfilePoint W) → Type 0
    OfSize size none = (q : ProfilePoint W) → IsUsable q → (q.segment_gpc == size) ≡ false
    OfSize size (some p) = IsDensestOf size p

    of_size-OfSize : (size : ℕ) → OfSize size (of_size eligible size)
    unfolding OfSize
    of_size-OfSize size =
        go (keep (λ q. q.segment_gpc == size) eligible)
          (keep-All (λ q. q.segment_gpc == size) IsUsable eligible eligible-IsUsable)
          (λ q u e. IsAmong-keep (λ x. x.segment_gpc == size) eligible q (usable-IsAmong q u) e)
      where
        go :
            (kept : List (ProfilePoint W))
            → All (λ q. IsUsable q × ((q.segment_gpc == size) ≡ true)) kept
            → ((q : ProfilePoint W) → IsUsable q → (q.segment_gpc == size) ≡ true → IsAmong q kept)
            → OfSize size (densest kept)
        go [] all among = λ q u. elim (Bool-cases (q.segment_gpc == size)) [
          | inl e ↦ absurd (among q u e)
          | inr e ↦ e
        ]
        go (k ∷ ks) (h, hs) among =
            let (usable, sized) =
              least_by-All by_density (λ q. IsUsable q × ((q.segment_gpc == size) ≡ true)) k ks h
                hs in
            (
              usable,
              sized,
              λ q u e.
                  All_among (λ x. density x ≼ density (least_by by_density k ks)) (k ∷ ks) q
                    (densest-least k ks h.0 (All-map _ IsUsable ks (λ x y. y.0) hs)) (among q u e),
            )

    IsTooSmall-of :
        (rate : W) (size : ℕ) (o : Option (ProfilePoint W))
        → OfSize size o
        → Refuses rate o
        → IsTooSmall rate size
    unfolding OfSize
    IsTooSmall-of rate size none h k = inl h
    IsTooSmall-of rate size (some q) h k = inr (q, h, k)

    first_size :
        (rate : W) (p : ProfilePoint W)
        → last_point eligible rate supported_segments ≡ some p
        → IsFirstSize rate p × (rate ≼ p.throughput)
    unfolding last_point OfSize
    first_size rate p h = elim (if_covers-some rate (of_size eligible 1) _ p h) [
      | inl (found, covers) ↦ (one_gpc (subst (OfSize 1) found (of_size-OfSize 1)), covers)
      | inr (small, later) ↦ elim (if_covers-some rate (of_size eligible 2) none p later) [
        | inl (found, covers) ↦ (
          two_gpc (IsTooSmall-of rate 1 (of_size eligible 1) (of_size-OfSize 1) small)
              (subst (OfSize 2) found (of_size-OfSize 2)),
          covers,
        )
        | inr (small2, none_left) ↦ cc
      ]
    ]

    configure_from-IsConfiguration :
        (es : List (ProfilePoint W)) (segments : List (SegmentRequest W))
        → eligible ≡ es
        → configure_from r service es ≡ ok segments
        → IsConfiguration segments
    unfolding configure_from
    configure_from-IsConfiguration [] segments same h = cc
    configure_from-IsConfiguration (p ∷ ps) segments same h =
        let optimal = least_by by_density p ps in
        let usable : All IsUsable (p ∷ ps) = subst (All IsUsable) same eligible-IsUsable in
        let (complete, counted, h2) =
          >>=-eq-ok (complete_instances r service.request_rate optimal.throughput) _ h in
        let (whole, floored, exact, inexact) =
          complete_instances-value service.request_rate optimal.throughput complete counted in
        let segments_of = with_last r service (copies complete (request_for service optimal)) in
        elim (Option-cases
          (last_point (p ∷ ps) (remainder_of r service optimal complete) supported_segments)) [
            | inl e ↦ let failing = subst (λ c. segments_of c ≡ ok segments) e h2 in cc
            | inr (last, e) ↦
                let (first, covers) = first_size (remainder_of r service optimal complete) last (
                  subst
                    (λ es.
                      last_point es (remainder_of r service optimal complete) supported_segments
                      ≡ some last)
                    (sym same) e) in
                record {
                  complete = complete;
                  whole = whole;
                  optimal = optimal;
                  last = last;
                  is_requested =
                      sym (ok_injective (subst (λ c. segments_of c ≡ ok segments) e h2))
                      ∙ ap (λ ss. ss ++ (request_for service last ∷ []))
                          (copies-repeated complete (request_for service optimal));
                  optimal_usable = least_by-All by_density IsUsable p ps usable.0 usable.1;
                  optimal_densest = λ q u.
                      All_among (λ x. density x ≼ density optimal) (p ∷ ps) q
                        (densest-least p ps usable.0 usable.1)
                        (subst (IsAmong q) same (usable-IsAmong q u));
                  floored = floored;
                  exact = exact;
                  inexact = inexact;
                  first_size = first;
                  covers = covers;
                }
          ]

    -- Under the float laws, where each profiled point has a number for its throughput per GPC, a
    -- configured service requests segments of a usable point of greatest throughput per GPC, as many
    -- as the whole part of what the rate is of its throughput, one less where that is exact, and then
    -- one that covers the rest of the rate: of one GPC, or of two if there is no such usable point or a
    -- densest one does not cover it, and densest of its size.
    pub configure_service-IsConfiguration :
        (segments : List (SegmentRequest W))
        → configure_service r service profiles ≡ ok segments
        → IsConfiguration segments
    unfolding configure_service eligible
    configure_service-IsConfiguration segments h =
        configure_from-IsConfiguration (keep (is_eligible service) profiles) segments refl h
