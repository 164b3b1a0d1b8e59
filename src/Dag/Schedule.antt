-- ===== src/Dag/Schedule.antt =====
-- From the edges and the stages to the contract: the order is a schedule, or there is none.
use jetson_dlagreen.Dag.Counts.{All-count_outside, length-le_of_All, str_eq_refl, count_outside-nil}
use jetson_dlagreen.Dag.Kahn.{Inv}
use jetson_dlagreen.Dag.Order.{IsMaximalOrder, Ordered, loop-IsMaximalOrder}
use jetson_dlagreen.Common.Int.{ℤ, pos}
use jetson_dlagreen.Dag.{
  has_duplicate, is_in, topological_order, ready_stages, is_zero, initial_indegree, incoming,
}
use jetson_dlagreen.Common.{
  String, List, All, ◌≡◌, [], ◌&&◌, false, true, ◌∷◌, some, length, arith, Bool-cases, str_eq_iff,
  ap, refl, str_eq, inl, ◌++◌, All-append, subst, inr,
}

pub All-is_in {ℓ} :
    {P : String → Type ℓ} (xs : List String) → ((v : String) → is_in v xs ≡ true → P v) → All P xs
All-is_in [] f = tt
All-is_in (x ∷ xs) f =
    (f x (ground (arith, str_eq_refl x)), All-is_in xs (λ v e. f v (ground arith)))

pub All_at {ℓ} :
    (P : String → Type ℓ) (xs : List String) (v : String) → All P xs → is_in v xs ≡ true → P v
All_at P [] v a e = cc
All_at P (x ∷ xs) v (a, rest) e = elim (Bool-cases (str_eq x v)) [
  | inl same ↦ subst P ((str_eq_iff x v).0 same) a
  | inr apart ↦ All_at P xs v rest (rw apart at e)
]

is_in-ready_stages :
    (indegree : String → ℤ) (v : String) (ids : List String)
    → is_in v (ready_stages indegree ids) ≡ (is_in v ids && is_zero (indegree v))
is_in-ready_stages indegree v [] = refl
is_in-ready_stages indegree v (id ∷ ids) =
    ground (arith, is_in-ready_stages indegree v ids, str_eq_iff id v)

has_duplicate-ready_stages :
    (indegree : String → ℤ) (ids : List String)
    → has_duplicate ids ≡ false
    → has_duplicate (ready_stages indegree ids) ≡ false
has_duplicate-ready_stages indegree [] h = refl
has_duplicate-ready_stages indegree (id ∷ ids) h =
    ground (arith, has_duplicate-ready_stages indegree ids, is_in-ready_stages indegree id ids)

-- A schedule of the stages: each of them once, behind the sources of its incoming edges.
pub record IsSchedule (ids : List String) (pairs : List (String × String)) (order : List String)
    : Type 0 where
  pub ordered : Ordered ids pairs [] order
  pub distinct : has_duplicate order ≡ false
  pub known : All (λ v. is_in v ids ≡ true) order
  pub whole : All (λ v. is_in v order ≡ true) ids

-- Both ends of each edge are stages.
abbrev pub IsEdges : List String → List (String × String) → Type 0
IsEdges ids pairs = All (λ e. (is_in e.0 ids ≡ true) × (is_in e.1 ids ≡ true)) pairs

module _ (ids : List String) (pairs : List (String × String)) where
  initial-Inv :
      has_duplicate ids ≡ false
      → Inv ids pairs [] [] (initial_indegree pairs) (ready_stages (initial_indegree pairs) ids)
  initial-Inv unique = record {
    counts = λ v. ap pos (omega (arith, count_outside-nil (incoming pairs v)));
    distinct = has_duplicate-ready_stages (initial_indegree pairs) ids unique;
    settled = λ v e. ground (
      arith,
      is_in-ready_stages (initial_indegree pairs) v ids,
      count_outside-nil (incoming pairs v),
    );
    known = All-is_in _ (λ v e. ground (arith, is_in-ready_stages (initial_indegree pairs) v ids));
    complete = λ v e f. ground (
      arith,
      is_in-ready_stages (initial_indegree pairs) v ids,
      count_outside-nil (incoming pairs v),
    );
  }

  -- The order that the loop leaves: with a round for each stage it ends.
  pub topological_order-IsMaximalOrder :
      has_duplicate ids ≡ false
      → IsEdges ids pairs
      → (order : List String) × (topological_order ids pairs ≡ some order)
        × IsMaximalOrder ids pairs order
  unfolding topological_order
  topological_order-IsMaximalOrder unique ends =
      loop-IsMaximalOrder ids pairs (length ids) _ _ [] ends (omega arith) (initial-Inv unique) tt

  -- Every order that respects the edges is within a maximal one.
  within_maximal :
      (m before order : List String)
      → IsMaximalOrder ids pairs m
      → Ordered ids pairs before order
      → All (λ v. is_in v ids ≡ true) order
      → All (λ v. is_in v m ≡ true) before
      → All (λ v. is_in v m ≡ true) order
  within_maximal m before [] h o k a = tt
  within_maximal m before (x ∷ xs) h (o, os) (k, ks) a =
      (here, within_maximal m (before ++ x ∷ []) xs h os ks (All-append _ before _ a (here, tt)))
    where
      here : is_in x m ≡ true
      here = h.maximal x k (
          All-count_outside m (incoming pairs x)
            (All-is_in _ (λ u e. All_at _ before u a (All_at _ (incoming pairs x) u o e))))

  -- A maximal order as long as the stages is a schedule of them.
  pub whole_of_length :
      (m : List String)
      → has_duplicate ids ≡ false
      → IsMaximalOrder ids pairs m
      → length m ≡ length ids
      → IsSchedule ids pairs m
  whole_of_length m unique h n = record {
    ordered = h.ordered;
    distinct = h.distinct;
    known = h.known;
    whole = All-is_in ids (λ v e. elim (Bool-cases (is_in v m)) [
      | inl here ↦ here
      | inr out ↦ absurd (omega (arith, length-le_of_All (v ∷ m) ids (ground arith) (e, h.known)))
    ]);
  }

  -- With a schedule a maximal order has all stages.
  pub length_of_schedule :
      (m order : List String)
      → has_duplicate ids ≡ false
      → IsMaximalOrder ids pairs m
      → IsSchedule ids pairs order
      → length m ≡ length ids
  length_of_schedule m order unique h s = omega (
    arith,
    length-le_of_All m ids h.distinct h.known,
    length-le_of_All ids m unique (
        All-is_in ids (λ v e.
          All_at _ order v (within_maximal m [] order h s.ordered s.known tt)
            (All_at _ ids v s.whole e))),
  )
