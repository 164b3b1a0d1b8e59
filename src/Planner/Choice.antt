-- ===== src/Planner/Choice.antt =====
-- select_plan's result: an entry for each candidate, and the choice among them.
use jetson_dlagreen.Common.Dict.{if-All}
use jetson_dlagreen.Common.Json.{null}
use jetson_dlagreen.Planner.Reservation.{load_pipeline_profile-IsReservation}
use jetson_dlagreen.Planner.Best.{HasKey, IsChoice, select-IsChoice}
use jetson_dlagreen.Planner.Profile.{Evaluation, load_pipeline_profile}
use jetson_dlagreen.Common.Float.{IsIeee, IsNumber, nought, ◌≼◌}
use jetson_dlagreen.Common.{
  [], ◌∷◌, Result, List, ◌>>=◌, ◌≡◌, ok, true, subst, All, Error, >>=-eq-ok, err, ok_injective,
  Bool-cases, sym, inl, inr, refl,
}
use jetson_dlagreen.Planner.Selection.{
  evaluated, refused, feasible_of, evaluate_all, select_from, Entry, entry_of, Plan, is_caught,
}
use jetson_dlagreen.Planner.{Builtins, Float, Candidate, Json, obj, bool, int, float, str, arr}

module _ {W : Type 0} ⦃d : Float W⦄ (laws : IsIeee W) (b : Builtins W)
    (read_profile : Candidate W → Result (Json W)) (deadline_us critical_lookahead_us : W) where
  -- What reading and loading a candidate's profile gives.
  abbrev pub outcome : Candidate W → Result (Evaluation W)
  outcome c = read_profile c >>= load_pipeline_profile b c deadline_us critical_lookahead_us

  -- The entries are the candidates' outcomes, in order; an error is one that is caught.
  pub data IsEntries : List (Candidate W) → List (Entry W) → Type 0 where
    no_entry : IsEntries [] []
    accepted :
        (c : Candidate W) (e : Evaluation W) (cs : List (Candidate W)) (entries : List (Entry W))
        → outcome c ≡ ok e
        → IsEntries cs entries
        → IsEntries (c ∷ cs) (evaluated e ∷ entries)
    failed :
        (c : Candidate W) (e : Error) (cs : List (Candidate W)) (entries : List (Entry W))
        → outcome c ≡ err e
        → is_caught e ≡ true
        → IsEntries cs entries
        → IsEntries (c ∷ cs) (refused c e ∷ entries)

  conflict : {e : Error} {entry : Entry W} → ¬ (err e ≡ ok entry)
  conflict h = cc

  evaluate_all-IsEntries :
      (cs : List (Candidate W)) (entries : List (Entry W))
      → evaluate_all b read_profile deadline_us critical_lookahead_us cs ≡ ok entries
      → IsEntries cs entries
  unfolding evaluate_all entry_of
  evaluate_all-IsEntries [] entries h = subst (λ z. IsEntries [] z) (ok_injective h) no_entry
  evaluate_all-IsEntries (c ∷ cs) entries h =
      let (entry, e, h1) = >>=-eq-ok (entry_of c (outcome c)) _ h in
      let (rest, r, h2) =
        >>=-eq-ok (evaluate_all b read_profile deadline_us critical_lookahead_us cs) _ h1 in
      subst (λ z. IsEntries (c ∷ cs) z) (ok_injective h2)
        (of_entry rest entry (evaluate_all-IsEntries cs rest r) (outcome c) refl e)
    where
      of_entry :
          (rest : List (Entry W)) (entry : Entry W)
          → IsEntries cs rest
          → (m : Result (Evaluation W)) → outcome c ≡ m
          → entry_of c m ≡ ok entry
          → IsEntries (c ∷ cs) (entry ∷ rest)
      of_entry rest entry k (ok x) o e =
          subst (λ z. IsEntries (c ∷ cs) (z ∷ rest)) (ok_injective e) (accepted c x cs rest o k)
      of_entry rest entry k (err x) o e = elim (Bool-cases (is_caught x)) [
        | inl caught ↦
            subst (λ z. IsEntries (c ∷ cs) (z ∷ rest)) (ok_injective (rw caught at e))
              (failed c x cs rest o caught k)
        | inr uncaught ↦ absurd (conflict (rw uncaught at e))
      ]

  -- A candidate as it is parsed: its goodput and its margin are numbers and not negative.
  abbrev pub IsCandidate : Candidate W → Type 0
  IsCandidate c = IsNumber c.background_goodput_rps × (nought ≼ c.reservation_margin_us)

  load-HasKey :
      (c : Candidate W) (profile : Json W) (e : Evaluation W)
      → d.is_finite deadline_us ≡ true
      → IsCandidate c
      → load_pipeline_profile b c deadline_us critical_lookahead_us profile ≡ ok e
      → e.feasible ≡ true
      → HasKey e
  unfolding load_pipeline_profile
  load-HasKey c (obj profile) e finite (g, m) h f =
      let r =
        load_pipeline_profile-IsReservation laws b c deadline_us critical_lookahead_us profile e
          finite m h in
      (subst (λ z. IsNumber z) (sym r.goodput) g, (r.fits f).2)
  load-HasKey c null e finite k h f = cc
  load-HasKey c (bool v) e finite k h f = cc
  load-HasKey c (int n) e finite k h f = cc
  load-HasKey c (float x) e finite k h f = cc
  load-HasKey c (str s) e finite k h f = cc
  load-HasKey c (arr xs) e finite k h f = cc

  entries-HasKey :
      (cs : List (Candidate W)) (entries : List (Entry W))
      → d.is_finite deadline_us ≡ true
      → IsEntries cs entries
      → All IsCandidate cs
      → All HasKey (feasible_of entries)
  unfolding feasible_of
  entries-HasKey _ _ finite no_entry k = tt
  entries-HasKey _ _ finite (failed c e cs entries o u h) (k, ks) =
      entries-HasKey cs entries finite h ks
  entries-HasKey _ _ finite (accepted c e cs entries o h) (k, ks) =
      let (profile, p, l) = >>=-eq-ok (read_profile c) _ o in
      if-All HasKey e.feasible e (feasible_of entries) (load-HasKey c profile e finite k l)
        (entries-HasKey cs entries finite h ks)

  -- A result of select_plan holds each candidate's outcome in order; it selects nothing only if no
  -- candidate's evaluation is feasible, and otherwise a candidate's feasible evaluation that no
  -- feasible one exceeds in goodput, nor at equal goodput in slack.
  pub select_from-IsChoice :
      (cs : List (Candidate W)) (plan : Plan W)
      → d.is_finite deadline_us ≡ true
      → All IsCandidate cs
      → select_from b read_profile deadline_us critical_lookahead_us cs ≡ ok plan
      → IsEntries cs plan.candidates × IsChoice plan.candidates plan.selected_plan
  unfolding select_from
  select_from-IsChoice cs plan finite k h =
      let (entries, e, h1) =
        >>=-eq-ok (evaluate_all b read_profile deadline_us critical_lookahead_us cs) _ h in
      let all = evaluate_all-IsEntries cs entries e in
      subst (λ z. IsEntries cs z.candidates × IsChoice z.candidates z.selected_plan)
        (ok_injective h1)
        (all, select-IsChoice laws entries (entries-HasKey cs entries finite all k))
