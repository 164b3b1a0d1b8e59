-- ===== src/Partitioners/Parvagpu/Placement.antt =====
-- The segments that a service requests and those that the requests get.
use jetson_dlagreen.Common.Sorting.{sort_by, count-sort_by, count}
use jetson_dlagreen.Common.{
  ℕ, ◌∷◌, [], none, some, inl, inr, true, List, ◌≡◌, ◌≤◌, refl, if_either, arith, leb, Option,
  Option-cases, map, subst, All, ltb, some_injective, sym, ap,
}
use jetson_dlagreen.Partitioners.Parvagpu.{
  allocate_fixed, place, pop_first, Outcome, Allocated, SegmentRequest, by_larger_segment, behind,
  place_at,
}

count-behind :
    (size k bin : ℕ) (bins : List ℕ) (rest : Option (ℕ × List ℕ))
    → ((found : ℕ) (others : List ℕ)
        → rest ≡ some (found, others)
        → (size ≤ found) × (count k bins ≡ count k (found ∷ others)))
    → (found : ℕ) (others : List ℕ) → behind bin rest ≡ some (found, others)
    → (size ≤ found) × (count k (bin ∷ bins) ≡ count k (found ∷ others))
count-behind size k bin bins none ih found others h = cc
count-behind size k bin bins (some (f, os)) ih found others h =
    let same = some_injective h in
    let (fits, counted) = ih f os refl in
    subst (λ (p : ℕ × List ℕ). (size ≤ p.0) × (count k (bin ∷ bins) ≡ count k (p.0 ∷ p.1))) same
      (fits, omega (arith, counted))

count-pop_first :
    (size k : ℕ) (bins : List ℕ) (found : ℕ) (others : List ℕ)
    → pop_first size bins ≡ some (found, others)
    → (size ≤ found) × (count k bins ≡ count k (found ∷ others))
unfolding pop_first
count-pop_first size k [] found others = λ h. cc
count-pop_first size k (bin ∷ bins) found others =
    if_either
      (λ v.
        v ≡ some (found, others)
        → (size ≤ found) × (count k (bin ∷ bins) ≡ count k (found ∷ others)))
      (leb size bin) _ _
      (λ e h.
        subst (λ (p : ℕ × List ℕ). (size ≤ p.0) × (count k (bin ∷ bins) ≡ count k (p.0 ∷ p.1)))
          (some_injective h) (ground arith, refl))
      (λ e h.
        count-behind size k bin bins (pop_first size bins) (count-pop_first size k bins) found
          others h)

module _ {W : Type 0} where
  abbrev pub physical_segments : List (Allocated W) → List ℕ
  physical_segments allocation = map (λ a. a.physical_segment_gpc) allocation

  -- No physical segment is used more often than there are, each is large enough for its request, and
  -- a feasible outcome serves every request, in order.
  pub record IsPlacement (requests : List (SegmentRequest W)) (bins : List ℕ) (o : Outcome W)
      : Type 0 where
    pub uses : (k : ℕ) → count k (physical_segments o.allocation) ≤ count k bins
    pub fits : All (λ a. a.request.point.segment_gpc ≤ a.physical_segment_gpc) o.allocation
    pub serves : o.feasible ≡ true → map (λ a. a.request) o.allocation ≡ requests

  place-IsPlacement :
      (requests : List (SegmentRequest W)) (bins : List ℕ)
      → IsPlacement requests bins (place requests bins)
  unfolding place
  place-IsPlacement [] bins = record { uses = λ k. omega arith; fits = tt; serves = λ e. refl }
  place-IsPlacement (r ∷ rs) bins = elim (Option-cases (pop_first r.point.segment_gpc bins)) [
    | inl e ↦
        subst (λ c. IsPlacement (r ∷ rs) bins (place_at r c (place rs))) (sym e)
          (record { uses = λ k. omega arith; fits = tt; serves = λ h. cc })
    | inr ((found, others), e) ↦
        let rest = place-IsPlacement rs others in
        subst (λ c. IsPlacement (r ∷ rs) bins (place_at r c (place rs))) (sym e)
          (record {
            uses = λ k.
                omega (
                  arith,
                  (count-pop_first r.point.segment_gpc k bins found others e).1,
                  rest.uses k,
                );
            fits = ((count-pop_first r.point.segment_gpc 0 bins found others e).0, rest.fits);
            serves = λ h. ap (λ q. r ∷ q) (rest.serves h);
          })
  ]

  -- An allocation uses no physical segment more often than it is available, each is large enough for
  -- its request, and if it is feasible it serves all requests, in decreasing order of segment.
  pub allocate_fixed-IsPlacement :
      (requests : List (SegmentRequest W)) (available : List ℕ)
      → IsPlacement
          (sort_by by_larger_segment requests)
          available
          (allocate_fixed requests available)
  unfolding allocate_fixed
  allocate_fixed-IsPlacement requests available =
      let sorted = sort_by (λ a b. ltb b a) available in
      let placed = place-IsPlacement (sort_by by_larger_segment requests) sorted in
      record {
        uses = λ k. omega (arith, placed.uses k, count-sort_by (λ a b. ltb b a) k available);
        fits = placed.fits;
        serves = placed.serves;
      }
