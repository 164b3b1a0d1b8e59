-- ===== src/Governor/Placement/Partition.antt =====
-- What a placement plan consists of.
use mathlib.Core.List.{map-append}
use jetson_dlagreen.Common.{
  ℕ, zero, suc, ◌+◌, ◌≤◌, ◌<◌, ◌≡◌, refl, ap, List, [], ◌∷◌, length, take, drop, ok, arith, All,
  map, String, Bool, ◌++◌, count_up, str_eq, min, ◌||◌, true, ◌-◌, err, Error, Result-cases, inr,
  ◌≢◌, inl, length-take, length-drop, take-append-take, take-min-length, count_up-append_zero, ◌∙◌,
  value_error, ◌↔◌, false, if◌then◌else◌, ◌==◌, str_eq_iff, Bool-cases,
}
use jetson_dlagreen.Governor.Workload.{Modality, item}
use jetson_dlagreen.Governor.Placement.{
  WorkerAction, resident_1g, borrower_2g, resident_actions, borrower_actions, PlacementPlan,
  quota_and_borrowers, FeedbackState, plan_for,
}

-- The workers of consecutive tenants from `index` on.
abbrev pub resident : ℕ → ℕ → Modality → WorkerAction
resident quota index m = record {
  tenant_id = index;
  modality = m;
  placement = resident_1g;
  quota_percent = quota;
}

abbrev pub borrower : ℕ → ℕ → Modality → WorkerAction
borrower quota index m = record {
  tenant_id = index;
  modality = m;
  placement = borrower_2g;
  quota_percent = quota;
}

-- `make index m` for each modality in order, with the tenants numbered from `index`.
abbrev pub number_from {ℓ} : {A : Type ℓ} → (ℕ → Modality → A) → ℕ → List Modality → List A
number_from make index [] = []
number_from make index (m ∷ ms) = make index m ∷ number_from make (suc index) ms

resident_actions-number :
    (quota index : ℕ) (ms : List Modality)
    → resident_actions quota index ms ≡ number_from (resident quota) index ms
unfolding resident_actions
resident_actions-number quota index [] = refl
resident_actions-number quota index (m ∷ ms) = rw (resident_actions-number quota (suc index) ms)

item-drop :
    (xs : List Modality) (i : ℕ)
    → i < length xs
    → (m : Modality) × (item xs i ≡ ok m) × (drop i xs ≡ m ∷ drop (suc i) xs)
item-drop [] i h = absurd (omega arith)
item-drop (x ∷ xs) zero h = (x, refl, refl)
item-drop (x ∷ xs) (suc i) h = item-drop xs i (omega arith)

borrower_actions-number :
    (offered : List Modality) (quota index count : ℕ)
    → index + count ≤ length offered
    → borrower_actions offered quota index count
      ≡ ok (number_from (borrower quota) index (take count (drop index offered)))
unfolding borrower_actions
borrower_actions-number offered quota index zero h = refl
borrower_actions-number offered quota index (suc count) h =
    let (m, found, split) = item-drop offered index (omega arith) in
    rw (found, split, borrower_actions-number offered quota (suc index) count (omega arith)) refl

module _ (make : ℕ → Modality → WorkerAction) where
  modalities-number :
      ((i : ℕ) (m : Modality) → (make i m).modality ≡ m)
      → (i : ℕ) (ms : List Modality) → map (λ a. a.modality) (number_from make i ms) ≡ ms
  modalities-number h i [] = refl
  modalities-number h i (m ∷ ms) = rw (h i m, modalities-number h (suc i) ms)

  tenants-number :
      ((i : ℕ) (m : Modality) → (make i m).tenant_id ≡ i)
      → (i : ℕ) (ms : List Modality)
      → map (λ a. a.tenant_id) (number_from make i ms) ≡ count_up i (length ms)
  tenants-number h i [] = refl
  tenants-number h i (m ∷ ms) = rw (h i m, tenants-number h (suc i) ms)

  pub length-number : (i : ℕ) (ms : List Modality) → length (number_from make i ms) ≡ length ms
  length-number i [] = refl
  length-number i (m ∷ ms) = ap suc (length-number (suc i) ms)

  pub All-number :
      (P : WorkerAction → Type 0)
      → ((i : ℕ) (m : Modality) → P (make i m))
      → (i : ℕ) (ms : List Modality) → All P (number_from make i ms)
  All-number P h i [] = tt
  All-number P h i (m ∷ ms) = (h i m, All-number P h (suc i) ms)

-- The policies that plan_for knows.
abbrev pub is_policy : String → Bool
is_policy policy =
    str_eq policy "static-mig"
    || (str_eq policy "resident-full-gate"
        || (str_eq policy "same-mig"
            || (str_eq policy "uncoordinated-borrow"
                || (str_eq policy "fixed-borrow"
                    || (str_eq policy "fixed-full-gate" || str_eq policy "mig-governor")))))

-- Every offered tenant up to the limit runs once, in order, with its own number.
pub record IsPartition (offered : List Modality) (limit quota borrower_quota : ℕ)
    (p : PlacementPlan) : Type 0 where
  pub admits : map (λ a. a.modality) (p.residents ++ p.borrowers) ≡ take limit offered
  pub numbers :
      map (λ a. a.tenant_id) (p.residents ++ p.borrowers) ≡ count_up 0 (min (length offered) limit)
  pub resides : All (λ a. (a.placement ≡ resident_1g) × (a.quota_percent ≡ quota)) p.residents
  pub borrows :
      All (λ a. (a.placement ≡ borrower_2g) × (a.quota_percent ≡ borrower_quota)) p.borrowers

-- The actions of `count` borrowers after the residents form a partition.
number_from-IsPartition :
    (offered : List Modality) (limit quota borrower_quota count : ℕ)
    → count ≤ min (length offered) limit
    → let residents = min (length offered) limit - count in
      IsPartition offered limit quota borrower_quota (record {
        residents = number_from (resident quota) 0 (take residents offered);
        borrowers =
            number_from (borrower borrower_quota) residents (take count (drop residents offered));
      })
number_from-IsPartition offered limit quota borrower_quota count h =
    let n = min (length offered) limit - count in
    let all : n + count ≡ min (length offered) limit = omega arith in
    let first : length (take n offered) ≡ n = omega (arith, length-take n offered) in
    let last : length (take count (drop n offered)) ≡ count =
      omega (arith, length-take count (drop n offered), length-drop n offered) in
    record {
      admits =
          rw
            (
              map-append,
              modalities-number (resident quota) (λ i m. refl) 0 (take n offered),
              modalities-number (borrower borrower_quota) (λ i m. refl) n
                  (take count (drop n offered)),
              take-append-take n count offered,
              all,
            )
            (take-min-length limit offered);
      numbers =
          rw
            (
              map-append,
              tenants-number (resident quota) (λ i m. refl) 0 (take n offered),
              tenants-number (borrower borrower_quota) (λ i m. refl) n
                  (take count (drop n offered)),
              first,
              last,
            )
            (count_up-append_zero n count ∙ ap (count_up 0) all);
      resides = All-number (resident quota) _ (λ i m. (refl, refl)) 0 (take n offered);
      borrows =
          All-number (borrower borrower_quota) _ (λ i m. (refl, refl)) n
            (take count (drop n offered));
    }

-- The governor's residents run at the quota of its index, all others at the whole instance.
abbrev pub expected_quota : String → ℕ → ℕ
expected_quota policy index =
    if str_eq policy "mig-governor"
    then (if index == 0 then 25 else if index == 1 then 50 else 100)
    else 100

module _ {W : Type 0} where
  quota_and_borrowers-le :
      (policy : String) (s : FeedbackState W) (admitted quota count : ℕ)
      → quota_and_borrowers policy s admitted ≡ ok (quota, count)
      → count ≤ admitted
  unfolding quota_and_borrowers
  quota_and_borrowers-le policy s admitted quota count h = ground arith

  quota_and_borrowers-ne-err :
      (policy : String) (s : FeedbackState W) (admitted : ℕ)
      → is_policy policy ≡ true
      → s.resident_quota_index < 3
      → (e : Error) → quota_and_borrowers policy s admitted ≢ err e
  unfolding quota_and_borrowers
  quota_and_borrowers-ne-err policy s admitted h k e r = ground arith

  pub plan_for-actions :
      (policy : String) (offered : List Modality) (s : FeedbackState W)
      (borrower_quota quota count : ℕ)
      → quota_and_borrowers policy s (min (length offered) s.resident_admission_limit)
        ≡ ok (quota, count)
      → let residents = min (length offered) s.resident_admission_limit - count in
        plan_for policy offered s borrower_quota
        ≡ ok (record {
          residents = number_from (resident quota) 0 (take residents offered);
          borrowers =
              number_from (borrower borrower_quota) residents (take count (drop residents offered));
        })
  unfolding plan_for
  plan_for-actions policy offered s borrower_quota quota count h =
      let admitted = min (length offered) s.resident_admission_limit in
      let small = quota_and_borrowers-le policy s admitted quota count h in
      let rest : admitted - (admitted - count) ≡ count = omega arith in
      let made =
        borrower_actions-number offered borrower_quota (admitted - count) count (omega arith) in
      rw (h, rest, made, resident_actions-number quota 0 (take (admitted - count) offered)) refl

  governor_quota :
      (s : FeedbackState W) (admitted quota count : ℕ)
      → quota_and_borrowers "mig-governor" s admitted ≡ ok (quota, count)
      → quota ≡ expected_quota "mig-governor" s.resident_quota_index
  unfolding quota_and_borrowers
  governor_quota s admitted quota count h = ground arith

  other_quota :
      (policy : String) (s : FeedbackState W) (admitted quota count : ℕ)
      → str_eq policy "mig-governor" ≡ false
      → quota_and_borrowers policy s admitted ≡ ok (quota, count)
      → quota ≡ expected_quota policy s.resident_quota_index
  unfolding quota_and_borrowers
  other_quota policy s admitted quota count e h = ground arith

  quota_and_borrowers-quota :
      (policy : String) (s : FeedbackState W) (admitted quota count : ℕ)
      → quota_and_borrowers policy s admitted ≡ ok (quota, count)
      → quota ≡ expected_quota policy s.resident_quota_index
  quota_and_borrowers-quota policy s admitted quota count h =
      elim (Bool-cases (str_eq policy "mig-governor")) [
        | inr e ↦ other_quota policy s admitted quota count e h
        | inl e ↦
            let same = (str_eq_iff policy "mig-governor").0 e in
            rw same (governor_quota s admitted quota count (rw same at h))
      ]

  quota_and_borrowers-unknown :
      (policy : String) (s : FeedbackState W) (admitted : ℕ)
      → is_policy policy ≡ false
      → quota_and_borrowers policy s admitted ≡ err (value_error "unknown policy")
  unfolding quota_and_borrowers
  quota_and_borrowers-unknown policy s admitted h = ground arith

  -- With a known policy and a quota index in range, plan_for returns a plan in which the offered
  -- tenants up to the admission limit run once each, in order and numbered from 0, the residents
  -- on 1g at one quota and the borrowers on 2g at the borrower quota.
  pub plan_for-IsPartition :
      (policy : String) (offered : List Modality) (s : FeedbackState W) (borrower_quota : ℕ)
      → is_policy policy ≡ true
      → s.resident_quota_index < 3
      → (p : PlacementPlan) × (plan_for policy offered s borrower_quota ≡ ok p)
        × IsPartition offered s.resident_admission_limit
            (expected_quota policy s.resident_quota_index)
            borrower_quota
            p
  plan_for-IsPartition policy offered s borrower_quota h k =
      elim (Result-cases (quota_and_borrowers policy s admitted)) [
        | inr (e, r) ↦ absurd (quota_and_borrowers-ne-err policy s admitted h k e r)
        | inl ((quota, count), r) ↦ (
          _,
          plan_for-actions policy offered s borrower_quota quota count r,
          rw (← quota_and_borrowers-quota policy s admitted quota count r) (
              number_from-IsPartition offered s.resident_admission_limit quota borrower_quota count
                (quota_and_borrowers-le policy s admitted quota count r)),
        )
      ]
    where
      admitted : ℕ
      admitted = min (length offered) s.resident_admission_limit

  -- With a quota index in range, plan_for raises ValueError exactly on the policies that it does
  -- not know.
  pub plan_for-unknown :
      (policy : String) (offered : List Modality) (s : FeedbackState W) (borrower_quota : ℕ)
      → s.resident_quota_index < 3
      → (plan_for policy offered s borrower_quota ≡ err (value_error "unknown policy"))
        ↔ (is_policy policy ≡ false)
  unfolding plan_for
  plan_for-unknown policy offered s borrower_quota k = (only, always)
    where
      admitted : ℕ
      admitted = min (length offered) s.resident_admission_limit

      only :
          plan_for policy offered s borrower_quota ≡ err (value_error "unknown policy")
          → is_policy policy ≡ false
      only refused = elim (Bool-cases (is_policy policy)) [
        | inr h ↦ h
        | inl h ↦ cc (plan_for-IsPartition policy offered s borrower_quota h k).1
      ]

      always :
          is_policy policy ≡ false
          → plan_for policy offered s borrower_quota ≡ err (value_error "unknown policy")
      always h = rw (quota_and_borrowers-unknown policy s admitted h)
