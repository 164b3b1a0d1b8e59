-- ===== src/Controllers/MigProfile/Shares.antt =====
-- The quota of the compute mode is the fair share rounded down to an offered quota.
use jetson_dlagreen.Common.{
  ℕ, zero, suc, false, String, inl, inr, ◌≤◌, ◌<◌, max, ◌+◌, ◌/◌, ◌≡◌, ◌⊎◌, ok, ◌*◌, ◌%◌,
  Bool-cases, arith, leb, str_eq,
}
use jetson_dlagreen.Controllers.MigProfile.{profiled_action, quota_for, largest_within, equal_share}

-- The largest of the quotas 25, 50, 75 and 100 that is within the share.
abbrev IsRoundedDown : ℕ → ℕ → Type 0
IsRoundedDown quota share =
    (25 ≤ quota)
    × (quota ≤ share)
    × (quota ≤ 100)
    × ((share < quota + 25) ⊎ (quota ≡ 100))
    × (quota % 25 ≡ 0)

rounded_down :
    (share : ℕ)
    → 25 ≤ share
    → (quota : ℕ) × (quota_for share ≡ ok quota) × IsRoundedDown quota share
unfolding quota_for largest_within
rounded_down share h = elim (Bool-cases (leb 100 share)) [
  | inl e ↦ (100, ground arith, ground arith)
  | inr e ↦ elim (Bool-cases (leb 75 share)) [
    | inl f ↦ (75, ground arith, ground arith)
    | inr f ↦ elim (Bool-cases (leb 50 share)) [
      | inl g ↦ (50, ground arith, ground arith)
      | inr g ↦ (25, ground arith, ground arith)
    ]
  ]
]

fits_device : (n quota : ℕ) → suc n ≤ 4 → quota ≤ max 25 (100 / suc n) → quota * suc n ≤ 100
fits_device zero quota k e = omega (arith, e)
fits_device (suc zero) quota k e = omega (arith, e)
fits_device (suc (suc zero)) quota k e = omega (arith, e)
fits_device (suc (suc (suc zero))) quota k e = omega (arith, e)
fits_device (suc (suc (suc (suc n)))) quota k e = absurd (omega (arith, k))

-- In a mode other than memory every offered tenant is admitted, with the equal share
-- (at least 25) rounded down to an offered quota, and up to four tenants fit the device.
profiled_action-rounds :
    (mode : String) (n limit : ℕ)
    → str_eq mode "memory" ≡ false
    → (quota : ℕ) × (profiled_action mode (suc n) limit ≡ ok (quota, suc n))
      × IsRoundedDown quota (max 25 (100 / suc n))
      × (suc n ≤ 4 → quota * suc n ≤ 100)
unfolding profiled_action equal_share
profiled_action-rounds mode n limit h =
    let (quota, found, rounds) = rounded_down (max 25 (100 / suc n)) (omega arith) in
    (quota, simp (h, found), rounds, λ k. fits_device n quota k (omega (arith, rounds)))
