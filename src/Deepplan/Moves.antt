-- ===== src/Deepplan/Moves.antt =====
-- The plans move layers to host memory and change nothing else.
use jetson_dlagreen.Common.{
  ℕ, ◌∷◌, [], some, zero, suc, inl, inr, List, ◌≡◌, subst, map, ◌⊎◌, length, get_elem?, ap, refl,
  sym, ◌∙◌, ◌+◌, All, arith, some_injective,
}
use jetson_dlagreen.Deepplan.{
  Layer, direct_host_access, set_direct, PlannedLayer, naive_layer, naive_plan,
}

module _ {W : Type 0} (May : Layer W → Type 0) where
  -- The same layers in the same order, each run as before or moved, where it may be.
  abbrev pub MovesTo : List (PlannedLayer W) → List (PlannedLayer W) → Type 0
  MovesTo [] [] = Unit {0}
  MovesTo [] (q ∷ qs) = ⊥
  MovesTo (p ∷ ps) [] = ⊥
  MovesTo (p ∷ ps) (q ∷ qs) =
      (q.layer ≡ p.layer)
      × ((q.exec_type ≡ p.exec_type) ⊎ ((q.exec_type ≡ direct_host_access) × May p.layer))
      × MovesTo ps qs

  pub MovesTo-refl : (ps : List (PlannedLayer W)) → MovesTo ps ps
  MovesTo-refl [] = tt
  MovesTo-refl (p ∷ ps) = (refl, inl refl, MovesTo-refl ps)

  pub MovesTo-length : (ps qs : List (PlannedLayer W)) → MovesTo ps qs → length qs ≡ length ps
  MovesTo-length [] [] h = refl
  MovesTo-length [] (q ∷ qs) h = absurd h
  MovesTo-length (p ∷ ps) [] h = absurd h
  MovesTo-length (p ∷ ps) (q ∷ qs) (e, m, h) = ap suc (MovesTo-length ps qs h)

  -- The layer at an index.
  abbrev pub IsAt : List (PlannedLayer W) → ℕ → Layer W → Type 0
  IsAt ps i l = (p : PlannedLayer W) × (get_elem? ps i ≡ some p) × (p.layer ≡ l)

  pub set_direct-MovesTo :
      (i : ℕ) (l : Layer W) (ps qs : List (PlannedLayer W))
      → IsAt ps i l
      → May l
      → MovesTo ps qs
      → MovesTo ps (set_direct i qs)
  unfolding set_direct
  set_direct-MovesTo i l [] [] a m h = h
  set_direct-MovesTo i l [] (q ∷ qs) a m h = absurd h
  set_direct-MovesTo i l (p ∷ ps) [] a m h = absurd h
  set_direct-MovesTo zero l (p ∷ ps) (q ∷ qs) (r, e, same) m (s, x, h) =
      (s, inr (refl, subst May (sym same ∙ ap (λ z. z.layer) (sym (some_injective e))) m), h)
  set_direct-MovesTo (suc i) l (p ∷ ps) (q ∷ qs) a m (s, x, h) =
      (s, x, set_direct-MovesTo i l ps qs a m h)

-- The layers' indices are their positions, from `i` on.
abbrev pub IsIndexed : {W : Type 0} → ℕ → List (Layer W) → Type 0
IsIndexed i [] = Unit {0}
IsIndexed i (l ∷ layers) = (l.index ≡ i) × IsIndexed (suc i) layers

shift : (j k : ℕ) → suc j + k ≡ j + suc k
shift j k = omega arith

add_zero : (j : ℕ) → j + 0 ≡ j
add_zero j = omega arith

unshift : (k : ℕ) → 0 + k ≡ k
unshift k = omega arith

module _ {W : Type 0} (May : Layer W → Type 0) where
  located_from :
      (k : ℕ) (layers : List (Layer W)) (qs base : List (PlannedLayer W))
      → IsIndexed k layers
      → MovesTo May (map naive_layer layers) qs
      → ((j : ℕ) (p : PlannedLayer W)
          → get_elem? (map naive_layer layers) j ≡ some p
          → get_elem? base (j + k) ≡ some p)
      → All (λ q. IsAt May base q.layer.index q.layer) qs
  located_from k [] [] base x m f = tt
  located_from k [] (q ∷ qs) base x m f = absurd m
  located_from k (l ∷ layers) [] base x m f = absurd m
  located_from k (l ∷ layers) (q ∷ qs) base (x, xs) (e, o, m) f = (
    (
      naive_layer l,
      subst (λ i. get_elem? base i ≡ some (naive_layer l))
          (unshift k ∙ sym (ap (λ z. z.index) e ∙ x)) (f 0 (naive_layer l) refl),
      sym e,
    ),
    located_from (suc k) layers qs base xs m
        (λ j p h. subst (λ i. get_elem? base i ≡ some p) (shift j k) (f (suc j) p h)),
  )

  -- Every layer of a plan stands at its own index.
  pub MovesTo-IsAt :
      (layers : List (Layer W)) (qs : List (PlannedLayer W))
      → IsIndexed 0 layers
      → MovesTo May (naive_plan layers) qs
      → All (λ q. IsAt May (naive_plan layers) q.layer.index q.layer) qs
  unfolding naive_plan
  MovesTo-IsAt layers qs x m =
      located_from 0 layers qs (map naive_layer layers) x m
        (λ j p h. subst (λ i. get_elem? (map naive_layer layers) i ≡ some p) (sym (add_zero j)) h)

module _ {W : Type 0} (P : Layer W → Type 0) where
  pub naive_plan-All :
      (layers : List (Layer W)) → All P layers → All (λ p. P p.layer) (naive_plan layers)
  unfolding naive_plan
  naive_plan-All [] h = tt
  naive_plan-All (l ∷ layers) (h, hs) = (h, naive_plan-All layers hs)

  pub MovesTo-All :
      (May : Layer W → Type 0) (ps qs : List (PlannedLayer W))
      → MovesTo May ps qs
      → All (λ p. P p.layer) ps
      → All (λ p. P p.layer) qs
  MovesTo-All May [] [] m h = tt
  MovesTo-All May [] (q ∷ qs) m h = absurd m
  MovesTo-All May (p ∷ ps) [] m h = absurd m
  MovesTo-All May (p ∷ ps) (q ∷ qs) (e, o, m) (h, hs) =
      (subst P (sym e) h, MovesTo-All May ps qs m hs)
