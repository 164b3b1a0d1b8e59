-- ===== src/Controllers/MigProfile.antt =====
-- profiled_action of runtime/mig_governor.py.
pub mod Shares
use jetson_dlagreen.Common.{
  ℕ, zero, suc, ◌∷◌, [], none, some, Bool, true, false, String, List, Option, Result, if◌then◌else◌,
  err, ok, max, str_eq, zero_division_error, value_error, leb, min, ◌/◌, ◌>>=◌,
}

abbrev pub quotas : List ℕ
quotas = 25 ∷ 50 ∷ 75 ∷ 100 ∷ []

abbrev pub or_larger : ℕ → Option ℕ → Option ℕ
or_larger candidate none = some candidate
or_larger candidate (some best) = some (max candidate best)

-- max(candidate for candidate in QUOTAS if candidate <= fair_share)
unfoldable pub largest_within : ℕ → List ℕ → Option ℕ
largest_within fair_share [] = none
largest_within fair_share (candidate ∷ rest) =
    let best = largest_within fair_share rest in
    if leb candidate fair_share then or_larger candidate best else best

-- 100 // offered_tenants
unfoldable pub equal_share : ℕ → Result ℕ
equal_share zero = err zero_division_error
equal_share (suc n) = ok (100 / suc n)

-- The quota and the number of admitted tenants.
-- The largest offered quota within the fair share, as a result.
unfoldable pub quota_for : ℕ → Result ℕ
quota_for fair_share = elim (largest_within fair_share quotas) [
  | some quota ↦ ok quota
  | none ↦ err (value_error "max() arg is an empty sequence")
]

-- The quota and the number of admitted tenants.
unfoldable pub profiled_action : String → ℕ → ℕ → Result (ℕ × ℕ)
profiled_action mode offered_tenants memory_admission_limit =
    if str_eq mode "memory"
    then ok (25, min offered_tenants memory_admission_limit)
    else equal_share offered_tenants
      >>= (λ share. quota_for (max 25 share) >>= (λ quota. ok (quota, offered_tenants)))
