-- ===== src/Governor/Guard/Loads.antt =====
-- The guard of a plan, written as the sums of its two instances.
use mathlib.Core.List.{append-nil}
use jetson_dlagreen.Governor.Guard.{
  GuardProfile, placement_loads, WorkerAction, add_load, guard_value_ms, profiled_guard,
  borrower_2g, same_placement, keep_if, largest_load, resident_1g, gated_placements, guard_for,
  PlacementPlan,
}
use jetson_dlagreen.Governor.Placement.{Placement}
use jetson_dlagreen.Common.{
  List, ◌∷◌, ◌++◌, Result, All, ok, ◌≡◌, [], String, ◌>>=◌, Bool, true, Result-cases, inr, arith,
  if◌then◌else◌, inl, refl, none, err, false,
}
use jetson_dlagreen.Common.Float.{Float, nought, float_max, max_from}

abbrev pub AllOn : Placement → List WorkerAction → Type 0
AllOn p = All (λ a. a.placement ≡ p)

same_refl : (p : Placement) → same_placement p p ≡ true
same_refl resident_1g = refl
same_refl borrower_2g = refl

keep_if-AllOn :
    (policy : String) (p : Placement) (actions : List WorkerAction)
    → AllOn p actions
    → keep_if (λ a. gated_placements policy a.placement) actions
      ≡ (if gated_placements policy p then actions else [])
keep_if-AllOn policy p [] h = ground arith
keep_if-AllOn policy p (a ∷ actions) (h, hs) =
    rw (h, keep_if-AllOn policy p actions hs) (ground arith)

if-AllOn :
    (b : Bool) (p : Placement) (actions : List WorkerAction)
    → AllOn p actions
    → AllOn p (if b then actions else [])
if-AllOn true p actions h = h
if-AllOn false p actions h = tt

keep_if-append {ℓ} :
    {A : Type ℓ} (test : A → Bool) (xs ys : List A)
    → keep_if test (xs ++ ys) ≡ keep_if test xs ++ keep_if test ys
keep_if-append test [] ys = refl
keep_if-append test (x ∷ xs) ys = rw (keep_if-append test xs ys) (ground arith)

module _ {W : Type 0} ⦃d : Float W⦄ (profile : GuardProfile W) where
  -- The guards of one instance, summed in order from `load`.
  unfoldable pub load_sum : W → List WorkerAction → Result W
  load_sum load [] = ok load
  load_sum load (a ∷ actions) =
      guard_value_ms profile a >>= λ value. load_sum (d.add load value) actions

  -- The larger of the two sums; an instance without a gated worker has none.
  unfoldable pub two_loads : List WorkerAction → List WorkerAction → Result W
  two_loads [] [] = ok nought
  two_loads (r ∷ rs) [] = load_sum nought (r ∷ rs)
  two_loads [] (b ∷ bs) = load_sum nought (b ∷ bs)
  two_loads (r ∷ rs) (b ∷ bs) =
      load_sum nought (r ∷ rs) >>= λ x. load_sum nought (b ∷ bs) >>= λ y. ok (float_max x y)

  placement_loads-append :
      (xs ys : List WorkerAction) (loads : List (Placement × W))
      → placement_loads profile (xs ++ ys) loads
        ≡ (placement_loads profile xs loads >>= placement_loads profile ys)
  unfolding placement_loads
  placement_loads-append [] ys loads = refl
  placement_loads-append (a ∷ xs) ys loads = elim (Result-cases (guard_value_ms profile a)) [
    | inr (e, r) ↦ rw r
    | inl (v, r) ↦ rw r (placement_loads-append xs ys (add_load a.placement v loads))
  ]

  loads_first :
      (p : Placement) (actions : List WorkerAction) (load : W) (loads : List (Placement × W))
      → AllOn p actions
      → placement_loads profile actions ((p, load) ∷ loads)
        ≡ (load_sum load actions >>= λ l. ok ((p, l) ∷ loads))
  unfolding placement_loads load_sum add_load
  loads_first p [] load loads h = refl
  loads_first p (a ∷ actions) load loads (h, hs) = elim (Result-cases (guard_value_ms profile a)) [
    | inr (e, r) ↦ rw r
    | inl (v, r) ↦ rw (r, h, same_refl p) (loads_first p actions (d.add load v) loads hs)
  ]

  -- With the residents' load first, the borrowers' load is summed behind it.
  loads_second :
      (actions : List WorkerAction) (x load : W)
      → AllOn borrower_2g actions
      → placement_loads profile actions ((resident_1g, x) ∷ (borrower_2g, load) ∷ [])
        ≡ (load_sum load actions >>= λ y. ok ((resident_1g, x) ∷ (borrower_2g, y) ∷ []))
  unfolding placement_loads load_sum add_load
  loads_second [] x load h = refl
  loads_second (a ∷ actions) x load (h, hs) = elim (Result-cases (guard_value_ms profile a)) [
    | inr (e, r) ↦ rw r
    | inl (v, r) ↦ rw (r, h) (loads_second actions x (d.add load v) hs)
  ]

  loads_both :
      (b : WorkerAction) (bs : List WorkerAction) (x : W)
      → AllOn borrower_2g (b ∷ bs)
      → placement_loads profile (b ∷ bs) ((resident_1g, x) ∷ [])
        ≡ (load_sum nought (b ∷ bs) >>= λ y. ok ((resident_1g, x) ∷ (borrower_2g, y) ∷ []))
  unfolding placement_loads load_sum add_load
  loads_both b bs x (h, hs) = elim (Result-cases (guard_value_ms profile b)) [
    | inr (e, r) ↦ rw r
    | inl (v, r) ↦ rw (r, h) (loads_second bs x (d.add nought v) hs)
  ]

  loads_only :
      (p : Placement) (a : WorkerAction) (actions : List WorkerAction)
      → AllOn p (a ∷ actions)
      → placement_loads profile (a ∷ actions) []
        ≡ (load_sum nought (a ∷ actions) >>= λ l. ok ((p, l) ∷ []))
  unfolding placement_loads load_sum add_load
  loads_only p a actions (h, hs) = elim (Result-cases (guard_value_ms profile a)) [
    | inr (e, r) ↦ rw r
    | inl (v, r) ↦ rw (r, h) (loads_first p actions (d.add nought v) [] hs)
  ]

  sum_alone : (p : Placement) (m : Result W) → ((m >>= λ l. ok ((p, l) ∷ [])) >>= largest_load) ≡ m
  unfolding largest_load max_from
  sum_alone p (ok l) = refl
  sum_alone p (err e) = refl

  profiled_guard-two_loads :
      (rs bs : List WorkerAction)
      → AllOn resident_1g rs
      → AllOn borrower_2g bs
      → profiled_guard profile none (rs ++ bs) ≡ two_loads rs bs
  unfolding profiled_guard two_loads largest_load max_from
  profiled_guard-two_loads [] [] h k = refl
  profiled_guard-two_loads (r ∷ rs) [] h k =
      rw (append-nil rs, loads_only resident_1g r rs h)
        (sum_alone resident_1g (load_sum nought (r ∷ rs)))
  profiled_guard-two_loads [] (b ∷ bs) h k =
      rw (loads_only borrower_2g b bs k) (sum_alone borrower_2g (load_sum nought (b ∷ bs)))
  profiled_guard-two_loads (r ∷ rs) (b ∷ bs) h k =
      rw (placement_loads-append (r ∷ rs) (b ∷ bs) [], loads_only resident_1g r rs h)
        (elim (Result-cases (load_sum nought (r ∷ rs))) [
          | inr (e, first) ↦ rw first
          | inl (x, first) ↦
              rw (first, loads_both b bs x k)
                (elim (Result-cases (load_sum nought (b ∷ bs))) [
                  | inr (e, second) ↦ rw second
                  | inl (y, second) ↦ rw second
                ])
        ])

  -- Without an override, and with the residents on 1g and the borrowers on 2g, the guard is the
  -- larger of the sums of the two instances' gated guards, each summed in tenant order from 0.0; it
  -- fails where a gated action's guard is missing, not finite or not positive, and is 0.0 where no
  -- worker is gated.
  pub guard_for-two_loads :
      (policy : String) (plan : PlacementPlan)
      → AllOn resident_1g plan.residents
      → AllOn borrower_2g plan.borrowers
      → guard_for policy plan profile none
        ≡ two_loads
            (if gated_placements policy resident_1g then plan.residents else [])
            (if gated_placements policy borrower_2g then plan.borrowers else [])
  unfolding guard_for
  guard_for-two_loads policy plan h k =
      rw
        (
          keep_if-append,
          keep_if-AllOn policy resident_1g plan.residents h,
          keep_if-AllOn policy borrower_2g plan.borrowers k,
        )
        (profiled_guard-two_loads _ _ (if-AllOn _ resident_1g plan.residents h)
          (if-AllOn _ borrower_2g plan.borrowers k))
