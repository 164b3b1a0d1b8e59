-- ===== src/Dag/Order.antt =====
-- What the loop that orders the stages ends with, and that it ends.
use jetson_dlagreen.Dag.Counts.{
  unresolved, count_outside-zero, length-le_of_All, is_in-append, str_eq_refl,
}
use jetson_dlagreen.Dag.Kahn.{Inv, left-nil, release_targets-Inv, place-Inv}
use jetson_dlagreen.Dag.{topological_loop, has_duplicate, is_in, incoming, outgoing}
use jetson_dlagreen.Common.Int.{ℤ}
use jetson_dlagreen.Common.{
  ℕ, List, String, [], All, ◌∷◌, ◌≡◌, append-nil, ◌++◌, true, false, length, ◌∙◌, append_assoc,
  Bool-cases, ◌+◌, str_eq, sym, some, suc, arith, inl, inr, length-append, zero, refl,
}

module _ (ids : List String) (pairs : List (String × String)) where
  -- Every stage has all sources of its incoming edges before it.
  abbrev pub Ordered : List String → List String → Type 0
  Ordered before [] = Unit {0}
  Ordered before (x ∷ xs) =
      All (λ u. is_in u before ≡ true) (incoming pairs x) × Ordered (before ++ x ∷ []) xs

  Ordered-snoc :
      (before xs : List String) (s : String)
      → Ordered before xs
      → All (λ u. is_in u (before ++ xs) ≡ true) (incoming pairs s)
      → Ordered before (xs ++ s ∷ [])
  Ordered-snoc before [] s o a = (rw (append-nil before) at a, tt)
  Ordered-snoc before (x ∷ xs) s (o, os) a =
      (o, Ordered-snoc (before ++ x ∷ []) xs s os (rw (append_assoc before (x ∷ []) xs) a))

  -- The targets of known edges are known.
  outgoing-known :
      (s : String) (edges : List (String × String))
      → All (λ e. (is_in e.0 ids ≡ true) × (is_in e.1 ids ≡ true)) edges
      → All (λ t. is_in t ids ≡ true) (outgoing edges s)
  outgoing-known s [] h = tt
  outgoing-known s ((a, b) ∷ edges) ((ha, hb), hs) = elim (Bool-cases (str_eq a s)) [
    | inl e ↦ rw e (hb, outgoing-known s edges hs)
    | inr e ↦ rw e (outgoing-known s edges hs)
  ]

  -- What the loop ends with: an order of distinct known stages, that holds each stage whose sources
  -- it holds.
  pub record IsMaximalOrder (order : List String) : Type 0 where
    pub ordered : Ordered [] order
    pub distinct : has_duplicate order ≡ false
    pub known : All (λ v. is_in v ids ≡ true) order
    pub maximal :
        (v : String) → is_in v ids ≡ true → unresolved pairs order v ≡ 0 → is_in v order ≡ true

  ended :
      (placed : List String) (indegree : String → ℤ)
      → Inv ids pairs placed [] indegree []
      → Ordered [] placed
      → IsMaximalOrder placed
  ended placed indegree h o = record {
    ordered = o;
    distinct = rw (append-nil placed) at h.distinct;
    known = rw (append-nil placed) at h.known;
    maximal = λ v e f. rw (append-nil placed) at h.complete v e (left-nil ids pairs placed v ∙ f);
  }

  -- The sources of a ready stage are placed.
  sources_placed :
      (placed ready : List String) (indegree : String → ℤ) (s : String)
      → Inv ids pairs placed [] indegree (s ∷ ready)
      → All (λ u. is_in u placed ≡ true) (incoming pairs s)
  sources_placed placed ready indegree s h = count_outside-zero placed (incoming pairs s) (
      sym (left-nil ids pairs placed s)
      ∙ h.settled s (ground (arith, is_in-append s placed (s ∷ ready), str_eq_refl s)))

  -- With fuel for the stages that are not placed the loop ends, in a maximal order.
  pub loop-IsMaximalOrder :
      (fuel : ℕ) (indegree : String → ℤ) (ready placed : List String)
      → All (λ e. (is_in e.0 ids ≡ true) × (is_in e.1 ids ≡ true)) pairs
      → length placed + fuel ≡ length ids
      → Inv ids pairs placed [] indegree ready
      → Ordered [] placed
      → (order : List String) × (topological_loop fuel pairs indegree ready placed ≡ some order)
        × IsMaximalOrder order
  unfolding topological_loop
  loop-IsMaximalOrder zero indegree [] placed ends n h o = (placed, refl, ended placed indegree h o)
  loop-IsMaximalOrder (suc fuel) indegree [] placed ends n h o =
      (placed, refl, ended placed indegree h o)
  loop-IsMaximalOrder zero indegree (s ∷ ready) placed ends n h o = absurd (
      omega (
        arith,
        length-le_of_All (placed ++ s ∷ ready) ids h.distinct h.known,
        length-append placed (s ∷ ready),
      ))
  loop-IsMaximalOrder (suc fuel) indegree (s ∷ ready) placed ends n h o =
      loop-IsMaximalOrder fuel _ _ (placed ++ s ∷ []) ends
        (omega (arith, length-append placed (s ∷ [])))
        (release_targets-Inv ids pairs (placed ++ s ∷ []) (outgoing pairs s) ready indegree
          (outgoing-known s pairs ends) (place-Inv ids pairs placed ready indegree s h))
        (Ordered-snoc [] placed s o (sources_placed placed ready indegree s h))
