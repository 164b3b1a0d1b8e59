-- ===== src/Partitioners/Gslice/Offered.antt =====
-- The pair of quotas that the controller takes next.
use jetson_dlagreen.Common.Sorting.{IsAmong-All, least_by, least_by-All}
use jetson_dlagreen.Common.Dict.{IsAmong}
use jetson_dlagreen.Common.{
  ℕ, ◌∷◌, [], List, ◌≤◌, ◌≡◌, ◌+◌, length, ok, All, All-append, arith, if_either, map, leb, refl,
}
use jetson_dlagreen.Common.Float.{Float}
use jetson_dlagreen.Partitioners.Gslice.{
  next_allocation, closest_of, finite, compute_demand, candidates, snap_pair, resized, pairs_with,
  quotas, max_min_pair, largest_factor, violation_factors, is_closer, headroom_factors,
}

-- Two of the offered quotas that fit the device together.
abbrev pub IsOffered : List ℕ → List ℕ → ℕ × ℕ → Type 0
IsOffered lefts rights pair = IsAmong pair.0 lefts × IsAmong pair.1 rights × (pair.0 + pair.1 ≤ 100)

pairs_with-IsOffered :
    (lefts rights : List ℕ) (left : ℕ)
    → IsAmong left lefts
    → (rs : List ℕ) → All (λ r. IsAmong r rights) rs
    → All (IsOffered lefts rights) (pairs_with rs left)
pairs_with-IsOffered lefts rights left h [] hs = tt
pairs_with-IsOffered lefts rights left h (r ∷ rs) (k, ks) =
    if_either (λ zs. All (IsOffered lefts rights) (map (λ right. (left, right)) zs))
      (leb (left + r) 100) _ _
      (λ e. ((h, k, ground arith), pairs_with-IsOffered lefts rights left h rs ks))
      (λ e. pairs_with-IsOffered lefts rights left h rs ks)

pub candidates-IsOffered :
    (all_lefts lefts rights : List ℕ)
    → All (λ l. IsAmong l all_lefts) lefts
    → All (IsOffered all_lefts rights) (candidates lefts rights)
unfolding candidates
candidates-IsOffered lefts [] rights h = tt
candidates-IsOffered lefts (l ∷ ls) rights (h, hs) =
    All-append (IsOffered lefts rights) (pairs_with rights l) (candidates ls rights)
      (pairs_with-IsOffered lefts rights l h rights (IsAmong-All rights))
      (candidates-IsOffered lefts ls rights hs)

module _ {W : Type 0} ⦃d : Float W⦄ where
  closest_of-IsOffered :
      (x y : W) (cs : List (ℕ × ℕ))
      → 1 ≤ length cs
      → All (IsOffered quotas quotas) cs
      → (pair : ℕ × ℕ) × (closest_of x y cs ≡ ok pair) × IsOffered quotas quotas pair
  closest_of-IsOffered x y [] long h = absurd (omega (arith, long))
  closest_of-IsOffered x y (c ∷ cs) long (h, hs) = (
    least_by (is_closer x y) c cs,
    refl,
    least_by-All (is_closer x y) (IsOffered quotas quotas) c cs h hs,
  )

  -- Whatever the demands, NaN included, there is a pair, of the offered quotas and within the device.
  pub snap_pair-IsOffered :
      (producer background : W)
      → (pair : ℕ × ℕ) × (snap_pair producer background ≡ ok pair) × IsOffered quotas quotas pair
  unfolding snap_pair candidates
  snap_pair-IsOffered producer background =
      closest_of-IsOffered producer background (candidates quotas quotas) (omega arith)
        (candidates-IsOffered quotas quotas quotas (IsAmong-All quotas))

  abbrev pub IsPositive : W → Type 0
  IsPositive x = finite x ≡ ok x

  -- The five measures are finite and positive, and so are the rates that the controller takes from
  -- three of them.
  abbrev pub AreMeasures : W → W → W → W → W → Type 0
  AreMeasures deadline p50 period mean rate =
      IsPositive deadline
      × IsPositive p50
      × IsPositive period
      × IsPositive mean
      × IsPositive rate
      × IsPositive (d.div (d.decimal 1000 0) deadline)
      × IsPositive (d.div (d.decimal 1000 0) p50)
      × IsPositive (d.div (d.decimal 1000 0) period)

  compute_demand-total :
      (current slo latency arrival throughput : W)
      → IsPositive current
      → IsPositive slo
      → IsPositive latency
      → IsPositive arrival
      → IsPositive throughput
      → (w : W) × (compute_demand current slo latency arrival throughput ≡ ok w)
  unfolding compute_demand
  compute_demand-total current slo latency arrival throughput h s l a t = (
    resized current (largest_factor (violation_factors slo latency arrival throughput))
        (largest_factor (headroom_factors slo latency arrival throughput)),
    simp (h, s, l, a, t),
  )

  -- For measures, and rates taken from them, that are finite and above zero, and current quotas that
  -- are such floats, the controller ends with a pair of the offered quotas within the device.
  pub next_allocation-IsOffered :
      (current : ℕ × ℕ) (deadline p50 period mean rate : W)
      → AreMeasures deadline p50 period mean rate
      → IsPositive (d.decimal current.0 0)
      → IsPositive (d.decimal current.1 0)
      → (pair : ℕ × ℕ) × (next_allocation current deadline p50 period mean rate ≡ ok pair)
        × IsOffered quotas quotas pair
  unfolding next_allocation
  next_allocation-IsOffered current deadline p50 period mean rate (a, b, c, m, r, x, y, z) h k =
      let (first, one) = compute_demand-total _ deadline p50 _ _ h a b x y in
      let (second, two) = compute_demand-total _ period mean _ rate k c m z r in
      let shares = max_min_pair first second in
      let (pair, found, offered) = snap_pair-IsOffered shares.0 shares.1 in
      (pair, simp (a, b, c, one, two, found), offered)
