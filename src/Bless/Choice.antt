-- ===== src/Bless/Choice.antt =====
-- The configuration that choose_configuration returns is of least predicted time.
use jetson_dlagreen.Bless.Times.{
  IsPrediction, IsTimed, IsPredicted, interference_free-nonneg, workload_equivalence-nonneg,
}
use jetson_dlagreen.Bless.Partitions.{IsAssignment, strict_share_configurations-exact}
use jetson_dlagreen.Common.Dict.{IsAmong}
use jetson_dlagreen.Bless.Shares.{
  interference_free_duration_us, SquadConfiguration, workload_equivalence_duration_us, best_of,
  configuration_lt, choose_configuration, predict_all, choose_among, first_seen, total_share,
  strict_share_configurations,
}
use jetson_dlagreen.Bless.{ScheduledKernel, String, ok, Bool, true, false, Option, pos}
use jetson_dlagreen.Common.{
  ◌∷◌, [], none, some, inl, inr, List, All, ◌≡◌, Bool-cases, subst, >>=-eq-ok, ok_injective,
  All-append, if◌then◌else◌, ap, sym, arith, ◌++◌, All-append_split, ◌∙◌, All-map,
}
use jetson_dlagreen.Common.Int.{ℤ}
use jetson_dlagreen.Common.Float.{Float, IsIeee, ◌≼◌, IsNumber}

module _ {W : Type 0} ⦃d : Float W⦄ where
  -- Predicted as its kind is, no later than the unrestricted configuration and than each
  -- assignment of allowed shares that sums to the whole device.
  abbrev pub IsBestChoice : List (ScheduledKernel W) → List ℤ → SquadConfiguration W → Type 0
  IsBestChoice squad allowed c =
      IsPrediction squad (first_seen [] squad) c
      × ((w : W)
          → workload_equivalence_duration_us squad (first_seen [] squad) ≡ ok w
          → c.predicted_us ≼ w)
      × ((x : List (String × ℤ)) (w : W)
          → IsAssignment (first_seen [] squad) allowed x
          → total_share x ≡ pos 100
          → interference_free_duration_us squad x ≡ ok w
          → c.predicted_us ≼ w)

module _ {W : Type 0} ⦃d : Float W⦄ (laws : IsIeee W) where
  configuration_lt-le :
      (x y : SquadConfiguration W)
      → IsNumber x.predicted_us
      → IsNumber y.predicted_us
      → (configuration_lt x y ≡ true → x.predicted_us ≼ y.predicted_us)
        × (configuration_lt x y ≡ false → y.predicted_us ≼ x.predicted_us)
  configuration_lt-le x y h k = ground (
    arith,
    laws.eq_le x.predicted_us y.predicted_us,
    laws.lt-eq-not-le x.predicted_us y.predicted_us h k,
    laws.le_of_lt x.predicted_us y.predicted_us,
  )

  abbrev IsLeastOf :
      SquadConfiguration W → SquadConfiguration W → List (SquadConfiguration W) → Type 0
  IsLeastOf m best cs =
      (m.predicted_us ≼ best.predicted_us) × All (λ c. m.predicted_us ≼ c.predicted_us) cs

  best_of-least :
      (best : SquadConfiguration W) (cs : List (SquadConfiguration W))
      → IsNumber best.predicted_us
      → All (λ c. IsNumber c.predicted_us) cs
      → ((best_of best cs).predicted_us ≼ best.predicted_us)
        × All (λ c. (best_of best cs).predicted_us ≼ c.predicted_us) cs
  unfolding best_of
  best_of-least best [] h hs = (h, tt)
  best_of-least best (c ∷ cs) h (k, ks) = elim (Bool-cases (configuration_lt c best)) [
    | inl lower ↦
        let (a, rest) = best_of-least c cs k ks in
        subst (λ next. IsLeastOf (best_of next cs) best (c ∷ cs)) (sym (if_of lower))
          (laws.le_trans _ _ _ a ((configuration_lt-le c best k h).0 lower), (a, rest))
    | inr higher ↦
        let (a, rest) = best_of-least best cs h ks in
        subst (λ next. IsLeastOf (best_of next cs) best (c ∷ cs)) (sym (if_of higher))
          (a, (laws.le_trans _ _ _ a ((configuration_lt-le c best k h).1 higher), rest))
  ]
    where
      if_of :
          {v : Bool}
          → configuration_lt c best ≡ v
          → (if configuration_lt c best then c else best) ≡ (if v then c else best)
      if_of e = ap (λ v. if v then c else best) e

  choose_among-least :
      (cs : List (SquadConfiguration W)) (u : SquadConfiguration W)
      → All (λ c. IsNumber c.predicted_us) cs
      → IsNumber u.predicted_us
      → IsLeastOf (choose_among cs u) u cs
  unfolding choose_among
  choose_among-least [] u h k = (k, tt)
  choose_among-least (c ∷ cs) u (h, hs) k =
      let (a, rest) = best_of-least c (cs ++ u ∷ []) h (All-append _ cs (u ∷ []) hs (k, tt)) in
      let (others, (last, end)) = All-append_split _ cs (u ∷ []) rest in (last, (a, others))

  best_of-All {κ} :
      (P : SquadConfiguration W → Type κ) (best : SquadConfiguration W)
      (cs : List (SquadConfiguration W))
      → P best
      → All P cs
      → P (best_of best cs)
  unfolding best_of
  best_of-All P best [] h hs = h
  best_of-All P best (c ∷ cs) h (k, ks) =
      best_of-All P (if configuration_lt c best then c else best) cs
        (elim (Bool-cases (configuration_lt c best)) [
          | inl lower ↦ rw lower k
          | inr higher ↦ rw higher h
        ])
        ks

  choose_among-All {κ} :
      (P : SquadConfiguration W → Type κ) (cs : List (SquadConfiguration W))
      (u : SquadConfiguration W)
      → All P cs
      → P u
      → P (choose_among cs u)
  unfolding choose_among
  choose_among-All P [] u hs k = k
  choose_among-All P (c ∷ cs) u (h, hs) k =
      best_of-All P c (cs ++ u ∷ []) h (All-append P cs (u ∷ []) hs (k, tt))

  module _ (squad : List (ScheduledKernel W)) where
    predict_all-IsPrediction :
        (ids : List String) (xs : List (List (String × ℤ))) (cs : List (SquadConfiguration W))
        → predict_all squad xs ≡ ok cs
        → All (λ c. IsPrediction squad ids c) cs
    unfolding predict_all
    predict_all-IsPrediction ids [] cs h =
        subst (λ z. All (λ c. IsPrediction squad ids c) z) (ok_injective h) tt
    predict_all-IsPrediction ids (x ∷ xs) cs h =
        let (w, e, h1) = >>=-eq-ok (interference_free_duration_us squad x) _ h in
        let (rest, r, h2) = >>=-eq-ok (predict_all squad xs) _ h1 in
        subst (λ z. All (λ c. IsPrediction squad ids c) z) (ok_injective h2)
          (e, predict_all-IsPrediction ids xs rest r)

    -- What is predicted for a listed configuration is among the candidates.
    predict_all-All :
        (P : W → Type 0) (xs : List (List (String × ℤ))) (cs : List (SquadConfiguration W))
        (x : List (String × ℤ)) (w : W)
        → predict_all squad xs ≡ ok cs
        → IsAmong x xs
        → interference_free_duration_us squad x ≡ ok w
        → All (λ c. P c.predicted_us) cs
        → P w
    unfolding predict_all
    predict_all-All P [] cs x w h m e a = absurd m
    predict_all-All P (y ∷ ys) cs x w h m e a =
        let (v, f, h1) = >>=-eq-ok (interference_free_duration_us squad y) _ h in
        let (rest, r, h2) = >>=-eq-ok (predict_all squad ys) _ h1 in
        let (here, there) = subst (λ z. All (λ c. P c.predicted_us) z) (sym (ok_injective h2)) a in
        elim m [
          | inl same ↦
              subst P
                (ok_injective (sym f ∙ ap (interference_free_duration_us squad) (sym same) ∙ e))
                here
          | inr k ↦ predict_all-All P ys rest x w r k e there
        ]

    IsPredicted-number :
        (ids : List String) (shares : Option (List (String × ℤ))) (w : W)
        → IsTimed squad
        → IsPredicted squad ids shares w
        → IsNumber w
    IsPredicted-number ids (some x) w t h =
        (laws.number_of_le _ _ (interference_free-nonneg laws squad x w t h)).1
    IsPredicted-number ids none w t h =
        (laws.number_of_le _ _ (workload_equivalence-nonneg laws squad ids w t h)).1

  -- Under the float laws, for a squad without negative times, the configuration that is returned is predicted as its kind
  -- is, no later than the unrestricted one and than each assignment of allowed shares that sums to
  -- the whole device.
  pub choose_configuration-IsBestChoice :
      (squad : List (ScheduledKernel W)) (allowed : List ℤ) (c : SquadConfiguration W)
      → IsTimed squad
      → choose_configuration squad allowed ≡ ok c
      → IsBestChoice squad allowed c
  unfolding choose_configuration
  choose_configuration-IsBestChoice [] allowed c t h = cc
  choose_configuration-IsBestChoice (item ∷ squad) allowed c t h =
      let items = item ∷ squad in
      let ids = first_seen [] items in
      let (xs, s, h1) = >>=-eq-ok (strict_share_configurations ids allowed) _ h in
      let (cs, p, h2) = >>=-eq-ok (predict_all items xs) _ h1 in
      let (u, e, h3) = >>=-eq-ok (workload_equivalence_duration_us items ids) _ h2 in
      let unrestricted : SquadConfiguration W = record { shares = none; predicted_us = u } in
      let predicted = predict_all-IsPrediction items ids xs cs p in
      let (last, below) =
        choose_among-least cs unrestricted
          (All-map _ _ cs (λ y k. IsPredicted-number items ids y.shares y.predicted_us t k)
            predicted)
          (IsPredicted-number items ids none u t e) in
      subst (λ z. IsBestChoice items allowed z) (ok_injective h3)
        (
          choose_among-All (λ y. IsPrediction items ids y) cs unrestricted predicted e,
          λ w f.
              subst (λ v. (choose_among cs unrestricted).predicted_us ≼ v)
                (ok_injective (sym e ∙ f)) last,
          λ x w a total f.
              predict_all-All items (λ v. (choose_among cs unrestricted).predicted_us ≼ v) xs cs x w
                p ((strict_share_configurations-exact ids allowed xs x s).1 (a, total)) f below,
        )
