-- ===== src/Governor/Workload/Pairs.antt =====
-- The shape of the offered workload.
use jetson_dlagreen.Governor.Workload.{
  offered_for_epoch, Modality, item, multimodal_scenario_trace, audio, language,
}
use jetson_dlagreen.Common.{
  ℕ, String, List, ◌<◌, Bool, ◌≡◌, [], true, str_eq, ok, ◌||◌, suc, ◌%◌, ◌+◌, ◌∷◌, arith, zero,
  Bool-cases, refl, inl, inr,
}
use jetson_dlagreen.Common.Int.{pos}

-- `n` audio requests, each with a language request behind it.
abbrev pub pairs : ℕ → List Modality
pairs zero = []
pairs (suc n) = audio ∷ language ∷ pairs n

trace_pairs : (r : ℕ) → r < 6 → item multimodal_scenario_trace r ≡ ok (pairs (r % 3 + 1))
trace_pairs zero h = refl
trace_pairs (suc zero) h = refl
trace_pairs (suc (suc zero)) h = refl
trace_pairs (suc (suc (suc zero))) h = refl
trace_pairs (suc (suc (suc (suc zero)))) h = refl
trace_pairs (suc (suc (suc (suc (suc zero))))) h = refl
trace_pairs (suc (suc (suc (suc (suc (suc r)))))) h = absurd (omega arith)

abbrev pub is_scenario : String → Bool
is_scenario scenario = str_eq scenario "independent" || str_eq scenario "dependent"

-- In either scenario epoch n offers one, two or three audio and language pairs in turn, and never
-- fails.
offered_for_epoch-pairs :
    (n : ℕ) (scenario : String)
    → is_scenario scenario ≡ true
    → offered_for_epoch (pos n) scenario ≡ ok (pairs (n % 3 + 1))
unfolding offered_for_epoch
offered_for_epoch-pairs n scenario h =
    let e : n % 6 % 3 ≡ n % 3 = omega arith in
    let found : item multimodal_scenario_trace (n % 6) ≡ ok (pairs (n % 3 + 1)) =
      rw e at (trace_pairs (n % 6) (omega arith)) in
    elim (Bool-cases (str_eq scenario "independent")) [
      | inl yes_it ↦ rw (yes_it, offered_for_epoch) found
      | inr not_it ↦
          let other : str_eq scenario "dependent" ≡ true = ground arith in
          rw (not_it, other, offered_for_epoch) found
    ]
