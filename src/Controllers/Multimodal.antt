-- ===== src/Controllers/Multimodal.antt =====
-- policy_action and update_feedback of runtime/multimodal_governor.py.
pub mod Recovery
use jetson_dlagreen.Common.Dict.{find}
use jetson_dlagreen.Common.{
  ℕ, ◌∷◌, [], none, some, Bool, true, false, String, List, Result, if◌then◌else◌, ◌-◌, str_eq, ok,
  leb, ◌+◌, err, map, ◌||◌, key_error, ◌&&◌, ltb, traverse, take, value_error,
}

pub record FeedbackState : Type 0 where
  pub admission_limit : ℕ
  pub safe_epochs : ℕ

abbrev pub initial_state : FeedbackState
initial_state = record { admission_limit = 4; safe_epochs = 0 }

abbrev pub profiled_quota : List (String × ℕ)
profiled_quota = ("language", 50) ∷ ("audio", 100) ∷ []

-- (modality, PROFILED_QUOTA[modality])
abbrev pub quota_action : String → Result (String × ℕ)
quota_action modality = elim (find modality profiled_quota) [
  | some q ↦ ok (modality, q)
  | none ↦ err key_error
]

unfoldable pub policy_action : String → List String → FeedbackState → Result (List (String × ℕ))
policy_action policy offered state =
    if str_eq policy "static-q25"
    then ok (map (λ modality. (modality, 25)) offered)
    else if str_eq policy "static-q100" || str_eq policy "time-division"
    then ok (map (λ modality. (modality, 100)) offered)
    else if str_eq policy "profiled"
    then traverse quota_action (take 2 offered)
    else if str_eq policy "joint-governor"
    then traverse quota_action (take state.admission_limit offered)
    else err (value_error "unknown policy")

unfoldable pub update_feedback : FeedbackState → Bool → ℕ → FeedbackState
update_feedback state violated maximum_limit =
    if violated
    then record { admission_limit = state.admission_limit - 1; safe_epochs = 0 }
    else if leb 2 (state.safe_epochs + 1) && ltb state.admission_limit maximum_limit
    then record { admission_limit = state.admission_limit + 1; safe_epochs = 0 }
    else record { admission_limit = state.admission_limit; safe_epochs = state.safe_epochs + 1 }

-- A run of epochs, by whether each was violated.
unfoldable pub after_epochs : FeedbackState → List Bool → ℕ → FeedbackState
after_epochs state [] maximum_limit = state
after_epochs state (v ∷ vs) maximum_limit =
    after_epochs (update_feedback state v maximum_limit) vs maximum_limit
