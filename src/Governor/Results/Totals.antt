-- ===== src/Governor/Results/Totals.antt =====
-- The groups of workers that an epoch reports add up to all its workers.
use jetson_dlagreen.Governor.Placement.{resident_1g, borrower_2g, Placement}
use jetson_dlagreen.Governor.Results.{
  completed_by, WorkerResult, sum_of, on_placement, of_modality, language, audio, same_placement,
}
use jetson_dlagreen.Common.{ℕ, List, map, ◌+◌, ◌≡◌, arith, ◌∷◌, [], if◌then◌else◌, refl}

-- The requests of a worker that count for the residents, and for the borrowers.
abbrev pub resident_share : Placement → ℕ → ℕ
resident_share resident_1g n = n
resident_share borrower_2g n = 0

abbrev pub borrower_share : Placement → ℕ → ℕ
borrower_share resident_1g n = 0
borrower_share borrower_2g n = n

resident_share-if :
    (p : Placement) (n : ℕ) → (if same_placement p resident_1g then n else 0) ≡ resident_share p n
resident_share-if resident_1g n = refl
resident_share-if borrower_2g n = refl

borrower_share-if :
    (p : Placement) (n : ℕ) → (if same_placement p borrower_2g then n else 0) ≡ borrower_share p n
borrower_share-if resident_1g n = refl
borrower_share-if borrower_2g n = refl

module _ {W : Type 0} where
  abbrev pub completed : List (WorkerResult W) → ℕ
  completed results = sum_of (map (λ r. r.completed_requests) results)

  -- The sum over the workers of what counts of their requests.
  abbrev pub shares_of : (Placement → ℕ → ℕ) → List (WorkerResult W) → ℕ
  shares_of share [] = 0
  shares_of share (r ∷ results) = share r.placement r.completed_requests + shares_of share results

  completed_by-cons :
      (p : Placement) (r : WorkerResult W) (results : List (WorkerResult W))
      → completed_by (on_placement p) (r ∷ results)
        ≡ (if same_placement r.placement p then r.completed_requests else 0)
          + completed_by (on_placement p) results
  unfolding completed_by
  completed_by-cons p r results = ground arith

  -- The requests counted by placement are those of the workers placed there.
  pub completed_by-shares :
      (results : List (WorkerResult W))
      → (completed_by (on_placement resident_1g) results ≡ shares_of resident_share results)
        × (completed_by (on_placement borrower_2g) results ≡ shares_of borrower_share results)
  unfolding completed_by
  completed_by-shares [] = (refl, refl)
  completed_by-shares (r ∷ results) = (
    omega (
      arith,
      completed_by-cons resident_1g r results,
      resident_share-if r.placement r.completed_requests,
      (completed_by-shares results).0,
    ),
    omega (
      arith,
      completed_by-cons borrower_2g r results,
      borrower_share-if r.placement r.completed_requests,
      (completed_by-shares results).1,
    ),
  )

  -- The requests counted by placement, and those counted by modality, are all the requests.
  pub completed_by-total :
      (results : List (WorkerResult W))
      → (completed_by (on_placement resident_1g) results
            + completed_by (on_placement borrower_2g) results
          ≡ completed results)
        × (completed_by (of_modality language) results + completed_by (of_modality audio) results
            ≡ completed results)
  unfolding completed_by
  completed_by-total [] = (omega arith, omega arith)
  completed_by-total (r ∷ results) = ground (arith, completed_by-total results)
