-- ===== src/Partitioners/Gpulet/BestFit.antt =====
-- The chosen partition is the smallest schedulable one.
use jetson_dlagreen.Common.Sorting.{
  least_by, sort_by, least_by-All, sort_by-All, keep-All, IsAmong-All, All-keep, least_by-least,
}
use jetson_dlagreen.Common.Dict.{IsAmong, keep}
use jetson_dlagreen.Common.{
  ◌∷◌, [], Bool, true, false, List, ◌≡◌, ◌≤◌, All, arith, ok, ok_injective, subst, All-map, ap,
  Bool-cases, refl, inl, inr, sym,
}
use jetson_dlagreen.Common.Float.{Float}
use jetson_dlagreen.Partitioners.Gpulet.{
  Profile, fit, select_partition, is_schedulable, Decision, by_quota, by_larger_quota,
}

module _ {W : Type 0} ⦃d : Float W⦄ where
  -- Of the profiles: schedulable and of least producer quota among those that are, or none is and
  -- it has the largest producer quota.
  abbrev pub IsBestFit : W → W → List (Profile W) → Profile W → Bool → Type 0
  IsBestFit deadline_ms target profiles p true =
      IsAmong p profiles
      × (is_schedulable deadline_ms target p ≡ true)
      × All (λ q. is_schedulable deadline_ms target q ≡ true → p.producer_quota ≤ q.producer_quota)
          profiles
  IsBestFit deadline_ms target profiles p false =
      IsAmong p profiles
      × All (λ q. is_schedulable deadline_ms target q ≡ false) profiles
      × All (λ q. q.producer_quota ≤ p.producer_quota) profiles

module _ {W : Type 0} ⦃d : Float W⦄ (deadline_ms target : W) where
  module _ (first : Profile W) (rest : List (Profile W)) where
    -- A statement of what is schedulable among the profiles, from the same of what was kept.
    of_kept :
        (P : Profile W → Type 0)
        → All P (keep (is_schedulable deadline_ms target) (sort_by by_quota (first ∷ rest)))
        → All (λ q. is_schedulable deadline_ms target q ≡ true → P q) (first ∷ rest)
    of_kept P h =
        (sort_by-All by_quota (λ q. is_schedulable deadline_ms target q ≡ true → P q)
            (first ∷ rest)).1
          (All-keep (is_schedulable deadline_ms target) P (sort_by by_quota (first ∷ rest)) h)

    kept-IsAmong :
        All
          (λ q. IsAmong q (first ∷ rest) × (is_schedulable deadline_ms target q ≡ true))
          (keep (is_schedulable deadline_ms target) (sort_by by_quota (first ∷ rest)))
    kept-IsAmong =
        keep-All (is_schedulable deadline_ms target) (λ q. IsAmong q (first ∷ rest))
          (sort_by by_quota (first ∷ rest))
          ((sort_by-All by_quota (λ q. IsAmong q (first ∷ rest)) (first ∷ rest)).0
            (IsAmong-All (first ∷ rest)))

    fit-IsBestFit :
        (kept : List (Profile W))
        → keep (is_schedulable deadline_ms target) (sort_by by_quota (first ∷ rest)) ≡ kept
        → IsBestFit deadline_ms target
            (first ∷ rest)
            (fit first rest kept).0
            (fit first rest kept).1
    unfolding fit
    fit-IsBestFit [] e = (
      least_by-All by_larger_quota (λ q. IsAmong q (first ∷ rest)) first rest
          (IsAmong-All (first ∷ rest)).0 (IsAmong-All (first ∷ rest)).1,
      All-map _ _ (first ∷ rest)
          (λ q h. elim (Bool-cases (is_schedulable deadline_ms target q)) [
            | inl t ↦ absurd (h t)
            | inr f ↦ f
          ])
          (of_kept (λ q. ⊥) (subst (All (λ q. ⊥)) (sym e) tt)),
      least_by-least by_larger_quota (λ a b. b.producer_quota ≤ a.producer_quota) (λ a. omega arith)
          (λ a b c h k. omega (arith, h, k)) (λ a b h. ground arith) (λ a b h. ground arith) first
          rest,
    )
    fit-IsBestFit (f ∷ fs) e =
        let among =
          subst (All (λ q. IsAmong q (first ∷ rest) × (is_schedulable deadline_ms target q ≡ true)))
            e kept-IsAmong in
        let (member, passes) = least_by-All by_quota _ f fs among.0 among.1 in
        (
          member,
          passes,
          of_kept (λ q. (least_by by_quota f fs).producer_quota ≤ q.producer_quota)
              (subst (All (λ q. (least_by by_quota f fs).producer_quota ≤ q.producer_quota)) (sym e)
                (least_by-least by_quota (λ a b. a.producer_quota ≤ b.producer_quota)
                  (λ a. omega arith) (λ a b c h k. omega (arith, h, k)) (λ a b h. ground arith)
                  (λ a b h. ground arith) f fs)),
        )

  -- What select_partition returns as feasible is a schedulable profile of least producer quota; what
  -- it returns as infeasible is one of largest quota, and no profile is schedulable.
  pub select_partition-IsBestFit :
      (profiles : List (Profile W)) (p : Profile W) (feasible : Bool) (decisions : List Decision)
      → select_partition profiles deadline_ms target ≡ ok (p, feasible, decisions)
      → IsBestFit deadline_ms target profiles p feasible
  unfolding select_partition fit
  select_partition-IsBestFit [] p feasible decisions h = cc
  select_partition-IsBestFit (first ∷ rest) p feasible decisions h =
      let kept = keep (is_schedulable deadline_ms target) (sort_by by_quota (first ∷ rest)) in
      let best = fit-IsBestFit first rest kept refl in
      subst {A = Profile W × Bool} (λ c. IsBestFit deadline_ms target (first ∷ rest) c.0 c.1)
        (ap (λ (c : Profile W × Bool × List Decision). (c.0, c.1)) (ok_injective h)) best
