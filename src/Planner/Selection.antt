-- ===== src/Planner/Selection.antt =====
-- select_plan from the parsed candidates on: the evaluation of each, and the choice.
use jetson_dlagreen.Planner.Profile.{Evaluation, load_pipeline_profile}
use jetson_dlagreen.Common.{
  Error, Option, Bool, List, none, value_error, if◌then◌else◌, Result, ◌∷◌, true, [], some, ok,
  ◌>>=◌, os_error, err, false,
}
use jetson_dlagreen.Planner.{Builtins, Float, Candidate, Json}

-- A row of "candidates": an evaluation, or the error of a profile that was refused.
pub data Entry (W : Type 0) : Type 0 where
  evaluated : Evaluation W → Entry W
  refused : Candidate W → Error → Entry W

-- except (OSError, ValueError, json.JSONDecodeError)
abbrev pub is_caught : Error → Bool
is_caught (value_error message) = true
is_caught (os_error message) = true
is_caught _ = false

module _ {W : Type 0} ⦃d : Float W⦄ where
  unfoldable pub entry_of : Candidate W → Result (Evaluation W) → Result (Entry W)
  entry_of c (ok e) = ok (evaluated e)
  entry_of c (err e) = if is_caught e then ok (refused c e) else err e

  -- [item for item in evaluated if item["feasible"]]
  unfoldable pub feasible_of : List (Entry W) → List (Evaluation W)
  feasible_of [] = []
  feasible_of (refused c e ∷ entries) = feasible_of entries
  feasible_of (evaluated e ∷ entries) =
      if e.feasible then e ∷ feasible_of entries else feasible_of entries

  -- (x.goodput, x.slack) < (y.goodput, y.slack), as tuples compare.
  unfoldable pub key_lt : Evaluation W → Evaluation W → Bool
  key_lt x y =
      if d.eq x.background_goodput_rps y.background_goodput_rps
      then d.lt x.reserved_slack_us y.reserved_slack_us
      else d.lt x.background_goodput_rps y.background_goodput_rps

  -- max(…, key=…): the first of equal keys.
  unfoldable pub best_from : Evaluation W → List (Evaluation W) → Evaluation W
  best_from e [] = e
  best_from e (x ∷ xs) = best_from (if key_lt e x then x else e) xs

  unfoldable pub select : List (Evaluation W) → Option (Evaluation W)
  select [] = none
  select (e ∷ es) = some (best_from e es)

  -- The candidates' entries, in order; `read_profile` reads a candidate's profile file.
  unfoldable pub evaluate_all :
      Builtins W
      → (Candidate W → Result (Json W))
      → W
      → W
      → List (Candidate W)
      → Result (List (Entry W))
  evaluate_all b read_profile deadline_us critical_lookahead_us [] = ok []
  evaluate_all b read_profile deadline_us critical_lookahead_us (c ∷ cs) = do
    entry ←
        entry_of c (read_profile c >>= load_pipeline_profile b c deadline_us critical_lookahead_us)
    entries ← evaluate_all b read_profile deadline_us critical_lookahead_us cs
    ok (entry ∷ entries)

-- "status", "selected_plan" and "candidates" of the result.
pub record Plan (W : Type 0) : Type 0 where
  pub selected_plan : Option (Evaluation W)
  pub candidates : List (Entry W)

module _ {W : Type 0} ⦃d : Float W⦄ where
  unfoldable pub select_from :
      Builtins W → (Candidate W → Result (Json W)) → W → W → List (Candidate W) → Result (Plan W)
  select_from b read_profile deadline_us critical_lookahead_us candidates = do
    entries ← evaluate_all b read_profile deadline_us critical_lookahead_us candidates
    ok (record { selected_plan = select (feasible_of entries); candidates = entries })
