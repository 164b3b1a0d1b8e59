-- ===== src/Dag/Kahn.antt =====
-- The invariant of the loop that orders the stages, kept while the targets of a stage are released.
use jetson_dlagreen.Dag.Counts.{
  unresolved, count_of, str_eq_refl, str_eq_sym, has_duplicate-snoc, is_in-append,
  count_outside-snoc, is_in-prefix, count_of-incoming,
}
use jetson_dlagreen.Dag.{
  decrement, has_duplicate, is_in, set_at, is_zero, release_targets, incoming, outgoing,
}
use jetson_dlagreen.Common.{
  ℕ, ◌≡◌, List, suc, String, true, ◌+◌, ◌++◌, ◌∷◌, false, All, if◌then◌else◌, [], ◌∙◌, ap, arith,
  ℕ-cases, inl, inr, str_eq, str_eq_iff, append_assoc, All-append, sym,
}
use jetson_dlagreen.Common.Int.{ℤ, pos}

decrement-suc : {z : ℤ} (n : ℕ) → z ≡ pos (suc n) → decrement z ≡ pos n
decrement-suc n e = rw e

module _ (ids : List String) (pairs : List (String × String)) where
  -- `v` has so many edges left while the targets of the stage just placed are released.
  abbrev pub left : List String → List String → String → ℕ
  left placed targets v = unresolved pairs placed v + count_of v targets

  -- The stages in `placed ++ ready` are known, distinct, and exactly those without an edge left.
  pub record Inv (placed targets : List String) (indegree : String → ℤ) (ready : List String)
      : Type 0 where
    pub counts : (v : String) → indegree v ≡ pos (left placed targets v)
    pub distinct : has_duplicate (placed ++ ready) ≡ false
    pub settled : (v : String) → is_in v (placed ++ ready) ≡ true → left placed targets v ≡ 0
    pub known : All (λ v. is_in v ids ≡ true) (placed ++ ready)
    pub complete :
        (v : String)
        → is_in v ids ≡ true
        → left placed targets v ≡ 0
        → is_in v (placed ++ ready) ≡ true

  left-cons :
      (placed targets : List String) (t v : String)
      → left placed (t ∷ targets) v
        ≡ (if str_eq v t then suc (left placed targets v) else left placed targets v)
  left-cons placed targets t v = ground arith

  -- A target that has an edge left is neither placed nor ready.
  not_in :
      {placed targets ready : List String} {indegree : String → ℤ} {t : String}
      → Inv placed (t ∷ targets) indegree ready
      → is_in t (placed ++ ready) ≡ false
  not_in {placed} {targets} {ready} {t = t} h =
      ground (arith, h.settled t, left-cons placed targets t t, str_eq_refl t)

  -- The last edge into `t` is gone: `t` becomes ready.
  release_last :
      (placed targets ready : List String) (indegree : String → ℤ) (t : String)
      → is_in t ids ≡ true
      → Inv placed (t ∷ targets) indegree ready
      → left placed targets t ≡ 0
      → Inv placed targets (set_at indegree t (pos 0)) (ready ++ t ∷ [])
  release_last placed targets ready indegree t k h z = record {
    counts = λ v.
        ground (arith, h.counts v, left-cons placed targets t v, str_eq_iff t v, str_eq_sym t v);
    distinct =
        rw (← append_assoc placed ready (t ∷ []))
          (has_duplicate-snoc (placed ++ ready) t h.distinct (not_in h));
    settled = λ v e. ground (
      arith,
      h.settled v,
      left-cons placed targets t v,
      rw (← append_assoc placed ready (t ∷ []), is_in-append v (placed ++ ready) (t ∷ [])) at e,
      str_eq_iff t v,
      str_eq_sym t v,
    );
    known =
        rw (← append_assoc placed ready (t ∷ []))
          (All-append _ (placed ++ ready) (t ∷ []) h.known (k, tt));
    complete = λ v e f.
        rw (← append_assoc placed ready (t ∷ []), is_in-append v (placed ++ ready) (t ∷ []))
          (ground (arith, h.complete v e, left-cons placed targets t v, str_eq_sym t v));
  }

  -- `t` keeps an edge: only its count changes.
  release_kept :
      (placed targets ready : List String) (indegree : String → ℤ) (t : String) (n : ℕ)
      → Inv placed (t ∷ targets) indegree ready
      → left placed targets t ≡ suc n
      → Inv placed targets (set_at indegree t (pos (suc n))) ready
  release_kept placed targets ready indegree t n h z = record {
    counts = λ v.
        ground (arith, h.counts v, left-cons placed targets t v, str_eq_iff t v, str_eq_sym t v);
    distinct = h.distinct;
    settled = λ v e. ground (arith, h.settled v, left-cons placed targets t v);
    known = h.known;
    complete =
        λ v e f. ground (arith, h.complete v e, left-cons placed targets t v, str_eq_iff v t);
  }

  release_target-Inv :
      (placed targets ready : List String) (indegree : String → ℤ) (t : String)
      → is_in t ids ≡ true
      → Inv placed (t ∷ targets) indegree ready
      → let lower = decrement (indegree t) in
        Inv placed targets
          (set_at indegree t lower)
          (if is_zero lower then ready ++ t ∷ [] else ready)
  release_target-Inv placed targets ready indegree t k h = elim (ℕ-cases (left placed targets t)) [
    | inl none_left ↦
        rw (lower ∙ ap pos none_left) (release_last placed targets ready indegree t k h none_left)
    | inr (n, more) ↦
        rw (lower ∙ ap pos more) (release_kept placed targets ready indegree t n h more)
  ]
    where
      lower : decrement (indegree t) ≡ pos (left placed targets t)
      lower =
          decrement-suc (left placed targets t)
            (h.counts t ∙ ap pos (ground (arith, left-cons placed targets t t, str_eq_refl t)))

  pub release_targets-Inv :
      (placed targets ready : List String) (indegree : String → ℤ)
      → All (λ t. is_in t ids ≡ true) targets
      → Inv placed targets indegree ready
      → let (indegree', ready') = release_targets targets indegree ready in
        Inv placed [] indegree' ready'
  unfolding release_targets
  release_targets-Inv placed [] ready indegree k h = h
  release_targets-Inv placed (t ∷ targets) ready indegree (k, ks) h =
      release_targets-Inv placed targets _ _ ks
        (release_target-Inv placed targets ready indegree t k h)

  pub left-nil : (placed : List String) (v : String) → left placed [] v ≡ unresolved pairs placed v
  left-nil placed v = omega arith

  -- Taking the first ready stage as placed leaves its outgoing edges to release.
  pub place-Inv :
      (placed ready : List String) (indegree : String → ℤ) (s : String)
      → Inv placed [] indegree (s ∷ ready)
      → Inv (placed ++ s ∷ []) (outgoing pairs s) indegree ready
  place-Inv placed ready indegree s h = record {
    counts = λ v. h.counts v ∙ ap pos (same v);
    distinct = rw (append_assoc placed (s ∷ []) ready) h.distinct;
    settled = λ v e. sym (same v) ∙ h.settled v (rw (append_assoc placed (s ∷ []) ready) at e);
    known = rw (append_assoc placed (s ∷ []) ready) h.known;
    complete = λ v e f. rw (append_assoc placed (s ∷ []) ready) (h.complete v e (same v ∙ f));
  }
    where
      same : (v : String) → left placed [] v ≡ left (placed ++ s ∷ []) (outgoing pairs s) v
      same v = omega (
        arith,
        count_outside-snoc placed (incoming pairs v) s (is_in-prefix placed ready s h.distinct),
        count_of-incoming pairs s v,
      )
