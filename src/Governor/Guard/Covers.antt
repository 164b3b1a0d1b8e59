-- ===== src/Governor/Guard/Covers.antt =====
-- The guard is at least the drain time that the profile gives any gated worker.
use jetson_dlagreen.Governor.Guard.Loads.{load_sum, two_loads, AllOn, guard_for-two_loads}
use jetson_dlagreen.Governor.Guard.{
  GuardProfile, guard_value_ms, WorkerAction, checked_guard, PlacementPlan, Placement,
  gated_placements, resident_1g, borrower_2g, guard_for,
}
use jetson_dlagreen.Common.{
  List, ◌≡◌, All, ok, ◌∷◌, [], Option-cases, arith, inr, inl, ◌++◌, String, ok_injective, >>=-eq-ok,
  append-nil, All-append, true, none, sym, ◌∙◌, All-append_split, if◌then◌else◌, subst,
}
use jetson_dlagreen.Common.Float.{Float, IsIeee, ◌≼◌, nought, float_max_bounds}

module _ {W : Type 0} ⦃d : Float W⦄ (laws : IsIeee W) (profile : GuardProfile W) where
  checked_guard-nonneg : (x v : W) → checked_guard x ≡ ok v → nought ≼ v
  checked_guard-nonneg x v h = ground (
    arith,
    laws.number_of_finite x,
    laws.decimal_number 0 0,
    laws.lt-eq-not-le nought x,
    laws.le_of_lt nought x,
  )

  guard_value_ms-nonneg : (a : WorkerAction) (v : W) → guard_value_ms profile a ≡ ok v → nought ≼ v
  unfolding guard_value_ms
  guard_value_ms-nonneg a v h = elim (Option-cases (profile.flat a.modality)) [
    | inr (x, e) ↦ checked_guard-nonneg x v (rw (e, guard_value_ms) at h)
    | inl e ↦ elim (Option-cases (profile.quota_aware a.placement a.quota_percent a.modality)) [
      | inr (x, f) ↦ checked_guard-nonneg x v (rw (e, f, guard_value_ms) at h)
      | inl f ↦ cc (rw (e, f, guard_value_ms) at h)
    ]
  ]

  -- The worker's own guard is known and at most `g`.
  abbrev pub IsCovered : W → WorkerAction → Type 0
  IsCovered g a = (v : W) × (guard_value_ms profile a ≡ ok v) × (v ≼ g)

  IsCovered-mono :
      (x y : W) (actions : List WorkerAction)
      → x ≼ y
      → All (IsCovered x) actions
      → All (IsCovered y) actions
  IsCovered-mono x y [] h c = tt
  IsCovered-mono x y (a ∷ actions) h ((v, e, le), cs) =
      ((v, e, laws.le_trans v x y le h), IsCovered-mono x y actions h cs)

  load_sum-covers :
      (load l : W) (actions : List WorkerAction)
      → nought ≼ load
      → load_sum profile load actions ≡ ok l
      → (load ≼ l) × All (IsCovered l) actions
  unfolding load_sum
  load_sum-covers load l [] n h =
      (rw (← (ok_injective h)) ((laws.number_of_le nought load n).1), tt)
  load_sum-covers load l (a ∷ actions) n h =
      let (v, e, rest) = >>=-eq-ok (guard_value_ms profile a) _ h in
      let (left, right) = laws.add_nonneg load v n (guard_value_ms-nonneg a v e) in
      let (up, covered) =
        load_sum-covers (d.add load v) l actions (laws.le_trans nought load _ n left) rest in
      (laws.le_trans load _ l left up, ((v, e, laws.le_trans v _ l right up), covered))

  two_loads-covers :
      (rs bs : List WorkerAction) (g : W)
      → two_loads profile rs bs ≡ ok g
      → All (IsCovered g) (rs ++ bs)
  unfolding two_loads
  two_loads-covers [] [] g h = tt
  two_loads-covers (r ∷ rs) [] g h =
      rw (append-nil rs) ((load_sum-covers nought g (r ∷ rs) (laws.decimal_number 0 0) h).1)
  two_loads-covers [] (b ∷ bs) g h =
      (load_sum-covers nought g (b ∷ bs) (laws.decimal_number 0 0) h).1
  two_loads-covers (r ∷ rs) (b ∷ bs) g h =
      let (x, first, more) = >>=-eq-ok (load_sum profile nought (r ∷ rs)) _ h in
      let (y, second, last) = >>=-eq-ok (load_sum profile nought (b ∷ bs)) _ more in
      let (lx, cx) = load_sum-covers nought x (r ∷ rs) (laws.decimal_number 0 0) first in
      let (ly, cy) = load_sum-covers nought y (b ∷ bs) (laws.decimal_number 0 0) second in
      let (px, py, _) =
        float_max_bounds laws x y (laws.number_of_le nought x lx).1
          (laws.number_of_le nought y ly).1 in
      All-append (IsCovered g) (r ∷ rs) (b ∷ bs)
        (IsCovered-mono x g (r ∷ rs) (subst (λ z. x ≼ z) (ok_injective last) px) cx)
        (IsCovered-mono y g (b ∷ bs) (subst (λ z. y ≼ z) (ok_injective last) py) cy)

  gated-IsCovered :
      (policy : String) (p : Placement) (g : W) (actions : List WorkerAction)
      → AllOn p actions
      → (gated_placements policy p ≡ true → All (IsCovered g) actions)
      → All (λ a. gated_placements policy a.placement ≡ true → IsCovered g a) actions
  gated-IsCovered policy p g [] h c = tt
  gated-IsCovered policy p g (a ∷ actions) (h, hs) c =
      (λ t. (c (rw h at t)).0, gated-IsCovered policy p g actions hs (λ t. (c t).1))

  -- Under the laws of floats: where guard_for returns a guard with no override, every worker that
  -- the policy gates has a guard in the profile, and it is at most the guard returned.
  pub guard_for-covers :
      (policy : String) (plan : PlacementPlan) (g : W)
      → AllOn resident_1g plan.residents
      → AllOn borrower_2g plan.borrowers
      → guard_for policy plan profile none ≡ ok g
      → All
          (λ a. gated_placements policy a.placement ≡ true → IsCovered g a)
          (plan.residents ++ plan.borrowers)
  guard_for-covers policy plan g h k e =
      let loads = sym (guard_for-two_loads profile policy plan h k) ∙ e in
      let (rs, bs) =
        All-append_split (IsCovered g)
          (if gated_placements policy resident_1g then plan.residents else [])
          (if gated_placements policy borrower_2g then plan.borrowers else [])
          (two_loads-covers _ _ g loads) in
      All-append _ plan.residents plan.borrowers
        (gated-IsCovered policy resident_1g g plan.residents h (λ t. rw t at rs))
        (gated-IsCovered policy borrower_2g g plan.borrowers k (λ t. rw t at bs))
