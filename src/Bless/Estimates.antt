-- ===== src/Bless/Estimates.antt =====
-- The two estimates of a squad's duration, and the configuration that is chosen by them.
use jetson_dlagreen.Dag.{is_in}
use jetson_dlagreen.Bless.Shares.{
  at_depth, breadth_first, option_list, queue_of, longest, workload_equivalence_duration_us,
  add_native, all_ordered,
}
use jetson_dlagreen.Bless.{
  ScheduledKernel, String, has_duplicate, true, false, length, str_eq, ok, nought, require,
  value_error, value_at,
}
use jetson_dlagreen.Common.Dict.{keep}
use jetson_dlagreen.Common.{
  ℕ, ◌∷◌, [], some, zero, suc, inl, inr, List, Bool, ◌++◌, get_elem?, ◌≡◌, arith, take, refl, drop,
  ◌≤◌, ◌∙◌, Bool-cases, str_eq_iff, if◌then◌else◌, ap, Option-cases, sym, subst, append-nil,
  >>=-eq-ok, require-true, ok_injective,
}
use jetson_dlagreen.Common.Float.{Float}

keep-append {ℓ} :
    {A : Type ℓ} (test : A → Bool) (xs ys : List A)
    → keep test (xs ++ ys) ≡ keep test xs ++ keep test ys
keep-append test [] ys = refl
keep-append test (x ∷ xs) ys = rw (keep-append test xs ys) (ground arith)

take_nil {ℓ} : {A : Type ℓ} (n : ℕ) → take {A = A} n [] ≡ []
take_nil zero = refl
take_nil (suc n) = refl

option_list-drop :
    {A : Type 0} (xs : List A) (i n : ℕ)
    → option_list (get_elem? xs i) ++ take n (drop (suc i) xs) ≡ take (suc n) (drop i xs)
option_list-drop [] zero n = take_nil n
option_list-drop [] (suc i) n = take_nil n
option_list-drop (x ∷ xs) zero n = refl
option_list-drop (x ∷ xs) (suc i) n = option_list-drop xs i n

some_value {ℓ} : {A : Type ℓ} {x y : A} → some x ≡ some y → x ≡ y
some_value h = cc

take_all {ℓ} : {A : Type ℓ} (xs : List A) (n : ℕ) → length xs ≤ n → take n xs ≡ xs
take_all [] n h = take_nil n
take_all (x ∷ xs) zero h = absurd (omega arith)
take_all (x ∷ xs) (suc n) h = ap (◌∷◌ x) (take_all xs n (omega arith))

module _ {W : Type 0} ⦃d : Float W⦄ where
  -- `total` is `start` and the kernels' native times, added in order.
  pub data IsSum : W → List (ScheduledKernel W) → W → Type 0 where
    summed : {total : W} → IsSum total [] total
    added :
        {start total : W} (item : ScheduledKernel W) (items : List (ScheduledKernel W)) (own : W)
        → value_at item.profile.native_share item.profile.duration_us ≡ ok own
        → IsSum (d.add start own) items total
        → IsSum start (item ∷ items) total

  -- The kernels of a request, in order.
  abbrev pub kernels_of : String → List (ScheduledKernel W) → List (ScheduledKernel W)
  kernels_of id kernels = keep (λ k. str_eq k.request_id id) kernels

module _ {W : Type 0} ⦃d : Float W⦄ (squad : List (ScheduledKernel W)) where
  -- A queue's kernel belongs to its request.
  get_elem-queue_of :
      (items : List (ScheduledKernel W)) (id : String) (depth : ℕ) (item : ScheduledKernel W)
      → get_elem? (queue_of items id) depth ≡ some item
      → item.request_id ≡ id
  get_elem-queue_of [] id depth item h = cc
  get_elem-queue_of (x ∷ items) id zero item h = elim (Bool-cases (str_eq x.request_id id)) [
    | inl same ↦ ap (λ z. z.request_id) (sym (some_value (rw same at h))) ∙ (str_eq_iff _ _).0 same
    | inr apart ↦ get_elem-queue_of items id zero item (rw apart at h)
  ]
  get_elem-queue_of (x ∷ items) id (suc depth) item h = elim (Bool-cases (str_eq x.request_id id)) [
    | inl same ↦ get_elem-queue_of items id depth item (rw same at h)
    | inr apart ↦ get_elem-queue_of items id (suc depth) item (rw apart at h)
  ]

  -- Of one queue's kernel at a depth, the part that belongs to a request.
  keep-option_list :
      (j id : String) (depth : ℕ)
      → queue_of (option_list (get_elem? (queue_of squad j) depth)) id
        ≡ (if str_eq j id then option_list (get_elem? (queue_of squad j) depth) else [])
  keep-option_list j id depth = elim (Option-cases (get_elem? (queue_of squad j) depth)) [
    | inl e ↦ rw e (ground arith)
    | inr (item, e) ↦ rw (e, get_elem-queue_of squad j depth item e) refl
  ]

  at_depth-other :
      (depth : ℕ) (ids : List String) (id : String)
      → is_in id ids ≡ false
      → queue_of (at_depth squad depth ids) id ≡ []
  unfolding at_depth
  at_depth-other depth [] id h = refl
  at_depth-other depth (j ∷ ids) id h =
      rw
        (
          keep-append _ (option_list (get_elem? (queue_of squad j) depth))
              (at_depth squad depth ids),
          keep-option_list j id depth,
          at_depth-other depth ids id (ground arith),
        )
        (let e : str_eq j id ≡ false = ground arith in rw e refl)

  at_depth-own :
      (depth : ℕ) (ids : List String) (id : String)
      → has_duplicate ids ≡ false
      → is_in id ids ≡ true
      → queue_of (at_depth squad depth ids) id ≡ option_list (get_elem? (queue_of squad id) depth)
  unfolding at_depth
  at_depth-own depth [] id u h = cc
  at_depth-own depth (j ∷ ids) id u h =
      rw
        (
          keep-append _ (option_list (get_elem? (queue_of squad j) depth))
              (at_depth squad depth ids),
          keep-option_list j id depth,
        )
        (elim (Bool-cases (str_eq j id)) [
          | inl same ↦
              let name = (str_eq_iff j id).0 same in
              rw
                (
                  same,
                  at_depth-other depth ids id
                      (subst (λ n. is_in n ids ≡ false) name (ground arith)),
                  append-nil,
                )
                (ap (λ n. option_list (get_elem? (queue_of squad n) depth)) name)
          | inr apart ↦ rw apart (at_depth-own depth ids id (ground arith) (ground arith))
        ])

  breadth_first-queue :
      (ids : List String) (id : String) (depth n : ℕ)
      → has_duplicate ids ≡ false
      → is_in id ids ≡ true
      → queue_of (breadth_first squad ids depth n) id ≡ take n (drop depth (queue_of squad id))
  unfolding breadth_first
  breadth_first-queue ids id depth zero u h = refl
  breadth_first-queue ids id depth (suc n) u h =
      rw
        (
          keep-append _ (at_depth squad depth ids) (breadth_first squad ids (suc depth) n),
          at_depth-own depth ids id u h,
          breadth_first-queue ids id (suc depth) n u h,
        )
        (option_list-drop (queue_of squad id) depth n)

  longest-le :
      (ids : List String) (id : String)
      → is_in id ids ≡ true
      → length (queue_of squad id) ≤ longest squad ids
  longest-le [] id h = cc
  longest-le (j ∷ ids) id h = elim (Bool-cases (str_eq j id)) [
    | inl same ↦ rw (← (str_eq_iff _ _).0 same) (omega arith)
    | inr apart ↦ omega (arith, longest-le ids id (ground arith))
  ]

  -- The breadth-first order keeps each request's kernels, all of them and in their order.
  pub breadth_first-keeps :
      (ids : List String) (id : String)
      → has_duplicate ids ≡ false
      → is_in id ids ≡ true
      → queue_of (breadth_first squad ids 0 (longest squad ids)) id ≡ queue_of squad id
  breadth_first-keeps ids id u h =
      breadth_first-queue ids id 0 (longest squad ids) u h
      ∙ take_all (queue_of squad id) (longest squad ids) (longest-le ids id h)

  breadth_first-other :
      (ids : List String) (id : String) (depth n : ℕ)
      → is_in id ids ≡ false
      → queue_of (breadth_first squad ids depth n) id ≡ []
  unfolding breadth_first
  breadth_first-other ids id depth zero h = refl
  breadth_first-other ids id depth (suc n) h =
      rw
        (
          keep-append _ (at_depth squad depth ids) (breadth_first squad ids (suc depth) n),
          at_depth-other depth ids id h,
          breadth_first-other ids id (suc depth) n h,
        )
        refl

  -- A request outside the order has no kernel in a squad whose requests are all in it.
  ordered-other :
      (items : List (ScheduledKernel W)) (ids : List String) (id : String)
      → all_ordered items ids ≡ true
      → is_in id ids ≡ false
      → queue_of items id ≡ []
  ordered-other [] ids id a h = refl
  ordered-other (x ∷ items) ids id a h = elim (Bool-cases (str_eq x.request_id id)) [
    | inl same ↦
        let known : is_in x.request_id ids ≡ true = ground arith in
        let conflict = subst (λ n. is_in n ids ≡ true) ((str_eq_iff _ _).0 same) known in cc
    | inr apart ↦ rw apart (ordered-other items ids id (ground arith) h)
  ]

  add_native-IsSum :
      (items : List (ScheduledKernel W)) (start t : W)
      → add_native start items ≡ ok t
      → IsSum start items t
  unfolding add_native
  add_native-IsSum [] start t h = subst (λ z. IsSum start [] z) (ok_injective h) summed
  add_native-IsSum (item ∷ items) start t h =
      let (own, e, h1) =
        >>=-eq-ok (value_at item.profile.native_share item.profile.duration_us) _ h in
      added item items own e (add_native-IsSum items (d.add start own) t h1)

  -- For distinct requests the unrestricted estimate sums the native times of the squad's kernels:
  -- those of a list that has, for each request, the same kernels as the squad, in their order.
  pub workload_equivalence-reorders :
      (ids : List String) (t : W)
      → has_duplicate ids ≡ false
      → workload_equivalence_duration_us squad ids ≡ ok t
      → (order : List (ScheduledKernel W)) × IsSum nought order t
        × ((id : String) → kernels_of id order ≡ kernels_of id squad)
  unfolding workload_equivalence_duration_us
  workload_equivalence-reorders ids t u h =
      let (v, r, h1) =
        >>=-eq-ok
          (require (all_ordered squad ids) (value_error "request order omits an active request")) _
          h in
      (
        breadth_first squad ids 0 (longest squad ids),
        add_native-IsSum _ nought t h1,
        λ id. elim (Bool-cases (is_in id ids)) [
          | inl known ↦ breadth_first-keeps ids id u known
          | inr unknown ↦
              breadth_first-other ids id 0 (longest squad ids) unknown
              ∙ sym (ordered-other squad ids id (require-true (all_ordered squad ids) _ r) unknown)
        ],
      )
