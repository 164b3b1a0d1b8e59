-- ===== src/Bless/Times.antt =====
-- Estimates of times that are not negative are numbers that are not negative.
use jetson_dlagreen.Common.Dict.{find, keep, if-All}
use jetson_dlagreen.Bless.Shares.{
  add_stack, interference_free_duration_us, profiled_duration, stack_all, SquadConfiguration,
  largest_stack, workload_equivalence_duration_us, share_of, at_depth, breadth_first, add_native,
  option_list, all_ordered, queue_of, longest,
}
use jetson_dlagreen.Bless.{
  ScheduledKernel, nought, value_at, KernelProfile, String, ok, map, str_eq, has_key, Bool, require,
  err, value_error, Option,
}
use jetson_dlagreen.Common.{
  ℕ, ◌∷◌, [], none, some, zero, suc, inl, inr, List, All, ◌≡◌, Bool-cases, subst, >>=-eq-ok,
  ok_injective, Error, All-append, get_elem?,
}
use jetson_dlagreen.Common.Int.{ℤ}
use jetson_dlagreen.Common.Float.{Float, IsIeee, max_from, ◌≼◌, float_max, eq_ℤ, float_max_bounds}

value_at-All {ℓ} :
    {V : Type 0} (P : V → Type ℓ) (k : ℤ) (dict : List (ℤ × V)) (v : V)
    → All (λ e. P e.1) dict
    → value_at k dict ≡ ok v
    → P v
value_at-All P k [] v h e = cc
value_at-All P k ((j, w) ∷ dict) v (h, hs) e = elim (Bool-cases (eq_ℤ j k)) [
  | inl same ↦ subst P (ok_injective (rw same at e)) h
  | inr apart ↦ value_at-All P k dict v hs (rw apart at e)
]

refused_value {ℓ} : {A : Type ℓ} {e : Error} {w : A} → ¬ (err e ≡ ok w)
refused_value h = cc

keep-All {ℓ κ} :
    {A : Type ℓ} (P : A → Type κ) (test : A → Bool) (xs : List A) → All P xs → All P (keep test xs)
keep-All P test [] h = tt
keep-All P test (x ∷ xs) (h, hs) =
    if-All P (test x) x (keep test xs) (λ e. h) (keep-All P test xs hs)

option_list-All {κ} :
    {A : Type 0} (P : A → Type κ) (xs : List A) (i : ℕ)
    → All P xs
    → All P (option_list (get_elem? xs i))
option_list-All P [] i h = tt
option_list-All P (x ∷ xs) zero (h, hs) = (h, tt)
option_list-All P (x ∷ xs) (suc i) (h, hs) = option_list-All P xs i hs

module _ {W : Type 0} ⦃d : Float W⦄ where
  -- No time of the kernels is negative.
  abbrev pub IsTimed : List (ScheduledKernel W) → Type 0
  IsTimed squad = All (λ item. All (λ e. nought ≼ e.1) item.profile.duration_us) squad

  -- A prediction for a partition, or for none, is the estimate of its kind.
  abbrev pub IsPredicted :
      List (ScheduledKernel W) → List String → Option (List (String × ℤ)) → W → Type 0
  IsPredicted squad ids (some x) w = interference_free_duration_us squad x ≡ ok w
  IsPredicted squad ids none w = workload_equivalence_duration_us squad ids ≡ ok w

  abbrev pub IsPrediction : List (ScheduledKernel W) → List String → SquadConfiguration W → Type 0
  IsPrediction squad ids c = IsPredicted squad ids c.shares c.predicted_us

module _ {W : Type 0} ⦃d : Float W⦄ (laws : IsIeee W) where
  add_stack-All :
      (id : String) (own : W) (stacks : List (String × W))
      → nought ≼ own
      → All (λ e. nought ≼ e.1) stacks
      → All (λ e. nought ≼ e.1) (add_stack id own stacks)
  unfolding add_stack
  add_stack-All id own [] h hs =
      (laws.le_trans _ _ _ h (laws.add_nonneg nought own (laws.decimal_number 0 0) h).1, tt)
  add_stack-All id own ((j, w) ∷ stacks) h (k, ks) = elim (Bool-cases (str_eq j id)) [
    | inl same ↦ rw same (laws.le_trans _ _ _ h (laws.add_nonneg w own k h).1, ks)
    | inr apart ↦ rw apart (k, add_stack-All id own stacks h ks)
  ]

  profiled_duration-value :
      (profile : KernelProfile W) (share : ℤ) (w : W)
      → profiled_duration profile share ≡ ok w
      → value_at share profile.duration_us ≡ ok w
  unfolding profiled_duration
  profiled_duration-value profile share w h =
      elim (Bool-cases (has_key share profile.duration_us)) [
        | inl held ↦ rw held at h
        | inr missing ↦ absurd (refused_value (rw missing at h))
      ]

  stack_all-All :
      (squad : List (ScheduledKernel W)) (shares : List (String × ℤ))
      (stacks result : List (String × W))
      → IsTimed squad
      → All (λ e. nought ≼ e.1) stacks
      → stack_all stacks squad shares ≡ ok result
      → All (λ e. nought ≼ e.1) result
  unfolding stack_all
  stack_all-All [] shares stacks result t h e =
      subst (λ z. All (λ s. nought ≼ s.1) z) (ok_injective e) h
  stack_all-All (item ∷ squad) shares stacks result (t, ts) h e =
      let (share, s, e1) = >>=-eq-ok (share_of (find item.request_id shares)) _ e in
      let (own, o, e2) = >>=-eq-ok (profiled_duration item.profile share) _ e1 in
      stack_all-All squad shares (add_stack item.request_id own stacks) result ts
        (add_stack-All item.request_id own stacks
          (value_at-All (λ v. nought ≼ v) share item.profile.duration_us own t
            (profiled_duration-value item.profile share own o))
          h)
        e2

  max_from-nonneg :
      (a : W) (xs : List (String × W))
      → nought ≼ a
      → All (λ e. nought ≼ e.1) xs
      → nought ≼ max_from a (map (λ e. e.1) xs)
  unfolding max_from
  max_from-nonneg a [] h hs = h
  max_from-nonneg a ((j, w) ∷ xs) h (k, ks) =
      max_from-nonneg (float_max a w) xs
        (laws.le_trans _ _ _ h
          (float_max_bounds laws a w (laws.number_of_le _ _ h).1 (laws.number_of_le _ _ k).1).0)
        ks

  pub interference_free-nonneg :
      (squad : List (ScheduledKernel W)) (shares : List (String × ℤ)) (w : W)
      → IsTimed squad
      → interference_free_duration_us squad shares ≡ ok w
      → nought ≼ w
  unfolding interference_free_duration_us
  interference_free-nonneg squad shares w t h =
      let (stacks, s, h1) = >>=-eq-ok (stack_all [] squad shares) _ h in
      subst (λ z. nought ≼ z) (ok_injective h1)
        (largest stacks (stack_all-All squad shares [] stacks t tt s))
    where
      largest :
          (stacks : List (String × W))
          → All (λ e. nought ≼ e.1) stacks
          → nought ≼ largest_stack stacks
      largest [] h = laws.decimal_number 0 0
      largest ((id, x) ∷ stacks) (h, hs) = max_from-nonneg x stacks h hs

  add_native-nonneg :
      (items : List (ScheduledKernel W)) (duration w : W)
      → IsTimed items
      → nought ≼ duration
      → add_native duration items ≡ ok w
      → nought ≼ w
  unfolding add_native
  add_native-nonneg [] duration w t h e = subst (λ z. nought ≼ z) (ok_injective e) h
  add_native-nonneg (item ∷ items) duration w (t, ts) h e =
      let (own, o, e1) =
        >>=-eq-ok (value_at item.profile.native_share item.profile.duration_us) _ e in
      add_native-nonneg items (d.add duration own) w ts
        (laws.le_trans _ _ _ h
          (laws.add_nonneg duration own h (
            value_at-All (λ v. nought ≼ v) item.profile.native_share item.profile.duration_us own t
              o)).0)
        e1

  at_depth-IsTimed :
      (squad : List (ScheduledKernel W)) (depth : ℕ) (ids : List String)
      → IsTimed squad
      → IsTimed (at_depth squad depth ids)
  unfolding at_depth
  at_depth-IsTimed squad depth [] t = tt
  at_depth-IsTimed squad depth (id ∷ ids) t =
      All-append _ (option_list (get_elem? (queue_of squad id) depth)) _
        (option_list-All _ (queue_of squad id) depth (keep-All _ _ squad t))
        (at_depth-IsTimed squad depth ids t)

  breadth_first-IsTimed :
      (squad : List (ScheduledKernel W)) (ids : List String) (depth n : ℕ)
      → IsTimed squad
      → IsTimed (breadth_first squad ids depth n)
  unfolding breadth_first
  breadth_first-IsTimed squad ids depth zero t = tt
  breadth_first-IsTimed squad ids depth (suc n) t =
      All-append _ (at_depth squad depth ids) _ (at_depth-IsTimed squad depth ids t)
        (breadth_first-IsTimed squad ids (suc depth) n t)

  pub workload_equivalence-nonneg :
      (squad : List (ScheduledKernel W)) (ids : List String) (w : W)
      → IsTimed squad
      → workload_equivalence_duration_us squad ids ≡ ok w
      → nought ≼ w
  unfolding workload_equivalence_duration_us
  workload_equivalence-nonneg squad ids w t h =
      let (v, r, h1) =
        >>=-eq-ok
          (require (all_ordered squad ids) (value_error "request order omits an active request")) _
          h in
      add_native-nonneg (breadth_first squad ids 0 (longest squad ids)) nought w
        (breadth_first-IsTimed squad ids 0 (longest squad ids) t) (laws.decimal_number 0 0) h1
