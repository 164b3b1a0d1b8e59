-- ===== src/Partitioners/Gslice/Nearest.antt =====
-- The pair of quotas that snap_pair of baselines/gslice/run_thor.py takes for a wanted allocation.
use jetson_dlagreen.Common.Sorting.{
  IsAmong-append, least_by, least_by-All, IsAmong-All, IsAmong-keep, least_by-least_on,
}
use jetson_dlagreen.Partitioners.Gslice.Offered.{IsOffered, candidates-IsOffered}
use jetson_dlagreen.Common.Dict.{IsAmong, keep, All_among}
use jetson_dlagreen.Common.Float.{Float, IsIeee, ◌≼◌, IsNumber}
use jetson_dlagreen.Partitioners.Gslice.{
  candidates, is_closer, snap_pair, distance, quotas, closest_of, pairs_with,
}
use jetson_dlagreen.Common.{
  List, ℕ, ◌∷◌, ◌++◌, ◌+◌, inl, map, [], arith, ◌≤◌, ap, inr, ◌≡◌, length, subst, All, ok, true,
  sym, false, All-map, leb, refl,
}

abbrev pub offered_quotas : List ℕ
offered_quotas = 10 ∷ 25 ∷ 50 ∷ 75 ∷ 90 ∷ []

IsAmong-front : {A : Type 0} (xs ys : List A) (x : A) → IsAmong x xs → IsAmong x (xs ++ ys)
IsAmong-front [] ys x h = absurd h
IsAmong-front (y ∷ xs) ys x (inl e) = inl e
IsAmong-front (y ∷ xs) ys x (inr h) = inr (IsAmong-front xs ys x h)

with_left :
    (left right : ℕ) (rights : List ℕ)
    → IsAmong right rights
    → IsAmong {A = ℕ × ℕ} (left, right) (map (λ r. (left, r)) rights)
with_left left right [] h = absurd h
with_left left right (r ∷ rights) (inl e) = inl (ap (λ z. (left, z)) e)
with_left left right (r ∷ rights) (inr h) = inr (with_left left right rights h)

-- Every offered pair is a candidate.
IsOffered-candidates :
    (lefts rights : List ℕ) (pair : ℕ × ℕ)
    → IsOffered lefts rights pair
    → IsAmong pair (candidates lefts rights)
unfolding candidates
IsOffered-candidates [] rights pair (l, r, fits) = absurd l
IsOffered-candidates (left ∷ lefts) rights (a, b) (inl e, r, fits) =
    subst (λ z. IsAmong {A = ℕ × ℕ} (z, b) (candidates (left ∷ lefts) rights)) (sym e)
      (IsAmong-front (pairs_with rights left) (candidates lefts rights) (left, b)
        (with_left left b (keep (λ right. leb (left + right) 100) rights) (
          IsAmong-keep (λ right. leb (left + right) 100) rights b r
            (subst (λ z. leb (z + b) 100 ≡ true) e (ground (arith, fits))))))
IsOffered-candidates (left ∷ lefts) rights pair (inr m, r, fits) =
    IsAmong-append (pairs_with rights left) (candidates lefts rights) pair
      (IsOffered-candidates lefts rights pair (m, r, fits))

module _ {W : Type 0} ⦃d : Float W⦄ where
  -- The squared distance between a pair of quotas and a wanted allocation.
  abbrev pub separation : W → W → ℕ × ℕ → W
  separation producer background (left, right) =
      d.add (d.mul (d.sub (d.decimal left 0) producer) (d.sub (d.decimal left 0) producer))
        (d.mul (d.sub (d.decimal right 0) background) (d.sub (d.decimal right 0) background))

  -- No further from the allocation, and at the same distance of no smaller sum.
  abbrev pub IsNearer : W → W → ℕ × ℕ → ℕ × ℕ → Type 0
  IsNearer producer background a b =
      (separation producer background a ≼ separation producer background b)
      × (separation producer background b ≼ separation producer background a
          → b.0 + b.1 ≤ a.0 + a.1)

  -- An offered pair, and nearer than all the others.
  abbrev pub IsNearest : W → W → ℕ × ℕ → Type 0
  IsNearest producer background pair =
      IsOffered offered_quotas offered_quotas pair
      × ((other : ℕ × ℕ)
          → IsOffered offered_quotas offered_quotas other
          → IsNearer producer background pair other)

module _ {W : Type 0} ⦃d : Float W⦄ (laws : IsIeee W) (producer background : W) where
  abbrev HasDistance : ℕ × ℕ → Type 0
  HasDistance pair = IsNumber (separation producer background pair)

  IsNearer-trans :
      (a b c : ℕ × ℕ)
      → IsNearer producer background a b
      → IsNearer producer background b c
      → IsNearer producer background a c
  IsNearer-trans a b c (h, hs) (k, ks) = (
    laws.le_trans _ _ _ h k,
    λ e.
        let first = hs (laws.le_trans _ _ _ k e) in
        let second = ks (laws.le_trans _ _ _ e h) in omega (arith, first, second),
  )

  is_closer-IsNearer :
      (a b : ℕ × ℕ) → is_closer producer background a b ≡ true → IsNearer producer background a b
  unfolding is_closer distance
  is_closer-IsNearer a b h =
      let x = separation producer background a in
      let y = separation producer background b in
      ground
        (arith, h, laws.le_of_lt x y, laws.eq_le x y, laws.number_of_le x y, laws.lt-eq-not-le x y)

  not_closer-IsNearer :
      (a b : ℕ × ℕ)
      → HasDistance a
      → HasDistance b
      → is_closer producer background a b ≡ false
      → IsNearer producer background b a
  unfolding is_closer distance
  not_closer-IsNearer a b m n h =
      let x = separation producer background a in
      let y = separation producer background b in
      ground (arith, h, laws.eq_of_le x y, laws.lt-eq-not-le x y m n)

  closest_of-IsNearest :
      (cs : List (ℕ × ℕ))
      → 1 ≤ length cs
      → All (λ c. IsOffered quotas quotas c × HasDistance c) cs
      → ((c : ℕ × ℕ) → IsOffered quotas quotas c → IsAmong c cs)
      → (pair : ℕ × ℕ) × (closest_of producer background cs ≡ ok pair)
        × IsNearest producer background pair
  closest_of-IsNearest [] long h among = absurd (omega (arith, long))
  closest_of-IsNearest (c ∷ cs) long (h, hs) among =
      let least = least_by (is_closer producer background) c cs in
      (
        least,
        refl,
        (
          least_by-All (is_closer producer background) (IsOffered quotas quotas) c cs h.0
              (All-map _ _ cs (λ x k. k.0) hs),
          λ other o.
              All_among (IsNearer producer background least) (c ∷ cs) other
                (least_by-least_on (is_closer producer background) (IsNearer producer background)
                  HasDistance (λ a n. (n, λ e. omega arith)) IsNearer-trans is_closer-IsNearer
                  not_closer-IsNearer c cs h.1 (All-map _ _ cs (λ x k. k.1) hs))
                (among other o),
        ),
      )

  candidates_some : 1 ≤ length (candidates quotas quotas)
  unfolding candidates
  candidates_some = omega arith

  -- Under the float laws, where the offered pairs of quotas that fit the device have a number for
  -- their squared distance from the wanted allocation, snap_pair returns one of them that none is
  -- nearer than, nor at the same distance has a larger sum.
  pub snap_pair-IsNearest :
      ((pair : ℕ × ℕ) → IsOffered offered_quotas offered_quotas pair → HasDistance pair)
      → (pair : ℕ × ℕ) × (snap_pair producer background ≡ ok pair)
        × IsNearest producer background pair
  unfolding snap_pair
  snap_pair-IsNearest numbers =
      closest_of-IsNearest (candidates quotas quotas) candidates_some
        (All-map _ _ (candidates quotas quotas) (λ c o. (o, numbers c o))
          (candidates-IsOffered quotas quotas quotas (IsAmong-All quotas)))
        (IsOffered-candidates quotas quotas)
