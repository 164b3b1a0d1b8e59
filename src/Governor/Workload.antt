-- ===== src/Governor/Workload.antt =====
-- The offered workload of an epoch: MODEL_BY_MODALITY, SCENARIO_TRACES and offered_for_epoch of
-- runtime/mig_slack_governor.py.
pub mod Pairs
use jetson_dlagreen.Common.{
  ℕ, ◌%◌, String, List, [], ◌∷◌, length, get_elem?, Option, none, some, value_error, index_error,
  Result, ok, err, if◌then◌else◌, str_eq,
}
use jetson_dlagreen.Common.Int.{ℤ, pos, negsuc}

pub data Modality : Type 0 where
  language audio : Modality

abbrev pub model_by_modality : Modality → String
model_by_modality language = "distilbert-sst2"
model_by_modality audio = "whisper-tiny-encoder"

abbrev pub multimodal_scenario_trace : List (List Modality)
multimodal_scenario_trace =
    (audio ∷ language ∷ [])
    ∷ (audio ∷ language ∷ audio ∷ language ∷ [])
    ∷ (audio ∷ language ∷ audio ∷ language ∷ audio ∷ language ∷ [])
    ∷ (audio ∷ language ∷ [])
    ∷ (audio ∷ language ∷ audio ∷ language ∷ [])
    ∷ (audio ∷ language ∷ audio ∷ language ∷ audio ∷ language ∷ [])
    ∷ []

-- SCENARIO_TRACES[scenario]; `none` is the KeyError.
abbrev pub scenario_traces : String → Option (List (List Modality))
scenario_traces scenario =
    if str_eq scenario "independent"
    then some multimodal_scenario_trace
    else if str_eq scenario "dependent"
    then some multimodal_scenario_trace
    else none

-- A sequence's element at a non-negative index, or IndexError.
abbrev pub item {ℓ} : {A : Type ℓ} → List A → ℕ → Result A
item xs i = elim (get_elem? xs i) [ some x ↦ ok x | none ↦ err index_error ]

unfoldable pub offered_for_epoch : ℤ → String → Result (List Modality)
offered_for_epoch (negsuc n) scenario = err (value_error "epoch index must be non-negative")
offered_for_epoch (pos epoch_index) scenario = elim (scenario_traces scenario) [
  | none ↦ err (value_error "unknown workload scenario")
  | some trace ↦ item trace (epoch_index % length trace)
]
