-- ===== src/Governor/Guard.antt =====
-- The temporal guard before a critical release: gated_placements, guard_value_ms and guard_for of
-- runtime/mig_slack_governor.py.
pub mod Loads
pub mod Covers
use jetson_dlagreen.Governor.Placement.{
  Placement, WorkerAction, PlacementPlan, borrower_2g, resident_1g,
}
use jetson_dlagreen.Governor.Workload.{Modality}
use jetson_dlagreen.Common.{
  ℕ, List, String, Result, Bool, Option, some, ok, if◌then◌else◌, ◌∷◌, err, value_error, str_eq,
  ◌++◌, not, [], ◌||◌, map, ◌>>=◌, true, false, none,
}
use jetson_dlagreen.Common.Float.{Float, nought, max_from}

-- A guard profile. `flat` is the number at the modality's own key, `none` if there is no number;
-- `quota_aware` is profile[placement][quota][modality], `none` if a key is missing.
pub record GuardProfile (W : Type 0) : Type 0 where
  pub flat : Modality → Option W
  pub quota_aware : Placement → ℕ → Modality → Option W

abbrev pub same_placement : Placement → Placement → Bool
same_placement resident_1g resident_1g = true
same_placement borrower_2g borrower_2g = true
same_placement _ _ = false

-- Membership in the set that gated_placements returns.
unfoldable pub gated_placements : String → Placement → Bool
gated_placements policy p =
    if str_eq policy "fixed-borrow"
    then same_placement p borrower_2g
    else if str_eq policy "resident-full-gate"
    then same_placement p resident_1g
    else str_eq policy "fixed-full-gate" || str_eq policy "mig-governor"

-- The members that satisfy a test, in order.
abbrev pub keep_if {ℓ} : {A : Type ℓ} → (A → Bool) → List A → List A
keep_if test [] = []
keep_if test (x ∷ xs) = if test x then x ∷ keep_if test xs else keep_if test xs

module _ {W : Type 0} ⦃d : Float W⦄ where
  abbrev pub checked_guard : W → Result W
  checked_guard value =
      if not (d.is_finite value) || d.le value nought
      then err (value_error "guard profile values must be finite and positive")
      else ok value

  unfoldable pub guard_value_ms : GuardProfile W → WorkerAction → Result W
  guard_value_ms profile a = elim (profile.flat a.modality) [
    | some value ↦ checked_guard value
    | none ↦ elim (profile.quota_aware a.placement a.quota_percent a.modality) [
      | some value ↦ checked_guard value
      | none ↦ err (value_error "guard profile does not cover the action")
    ]
  ]

  -- per_placement[p] = per_placement.get(p, 0.0) + value, with the keys in order of insertion.
  unfoldable pub add_load : Placement → W → List (Placement × W) → List (Placement × W)
  add_load p value [] = (p, d.add nought value) ∷ []
  add_load p value ((q, load) ∷ loads) =
      if same_placement p q
      then (q, d.add load value) ∷ loads
      else (q, load) ∷ add_load p value loads

  -- The loop over the gated actions.
  unfoldable pub placement_loads :
      GuardProfile W → List WorkerAction → List (Placement × W) → Result (List (Placement × W))
  placement_loads profile [] loads = ok loads
  placement_loads profile (a ∷ actions) loads = do
    value ← guard_value_ms profile a
    placement_loads profile actions (add_load a.placement value loads)

  -- max(per_placement.values()); the values of an empty dict are refused.
  unfoldable pub largest_load : List (Placement × W) → Result W
  largest_load [] = err (value_error "max() of an empty sequence")
  largest_load ((p, load) ∷ loads) = ok (max_from load (map (λ l. l.1) loads))

  unfoldable pub profiled_guard : GuardProfile W → Option W → List WorkerAction → Result W
  profiled_guard profile override_ms [] = ok nought
  profiled_guard profile (some override) (a ∷ actions) = ok override
  profiled_guard profile none (a ∷ actions) =
      placement_loads profile (a ∷ actions) [] >>= largest_load

  unfoldable pub guard_for : String → PlacementPlan → GuardProfile W → Option W → Result W
  guard_for policy plan profile override_ms =
      profiled_guard profile override_ms
        (keep_if (λ a. gated_placements policy a.placement) (plan.residents ++ plan.borrowers))
