-- ===== src/Planner.antt =====
-- The QUIET planner, runtime/quiet_stage_dag.py: the values that it reads and the profile checks
-- of load_pipeline_profile.
pub mod Profile
pub mod Selection
pub mod Bound
pub mod Reservation
pub mod Best
pub mod Choice
pub mod Candidates
pub mod Described
pub mod Parsed
pub mod Tests
use jetson_dlagreen.Common.Float.{Float, nought}
use jetson_dlagreen.Common.{
  zero, suc, ℕ, Bool, String, Result, str_eq, true, if◌then◌else◌, err, ◌>>=◌, some, ◌>>◌, ok, suc,
  type_error, value_error, require, none, attribute_error, not, false, ltb, ◌||◌,
}
use jetson_dlagreen.Common.Int.{ℤ, pos, negsuc}
use jetson_dlagreen.Common.Json.{
  Fields, Json, null, bool, int, float, str, arr, obj, get_field, get_or_null,
}

-- Python's float(int), int(float) and int(str).
pub record Builtins (W : Type 0) : Type 0 where
  pub of_int : ℤ → Result W
  pub truncate : W → Result ℤ
  pub parse_int : String → Result ℤ

-- The runtime's Candidate.
pub record Candidate (W : Type 0) : Type 0 where
  pub candidate_id : String
  pub profile_path : String
  pub placement : Fields W
  pub placement_variant : String
  pub background_goodput_rps : W
  pub pre_release_guard_p99_us : W
  pub reservation_margin_us : W
  pub protection_scope : String

-- value.get(name): only objects have fields.
abbrev pub get_from : {W : Type 0} → String → Json W → Result (Json W)
get_from name (obj fields) = ok (get_or_null name fields)
get_from name _ = err attribute_error

abbrev pub is_null : {W : Type 0} → Json W → Bool
is_null null = true
is_null _ = false

-- fields.get(name, default)
abbrev pub get_default : {W : Type 0} → String → Json W → Fields W → Json W
get_default name default fields = elim (get_field name fields) [ some v ↦ v | none ↦ default ]

abbrev pub positive_int : {W : Type 0} → Json W → Result ℕ
positive_int (int (pos (suc n))) = ok (suc n)
positive_int _ = err (value_error "must be a positive integer")

-- A positive_int that is less than 2 is refused.
unfoldable pub at_least_two : {W : Type 0} → Json W → String → Result (Unit {0})
at_least_two value refusal = do
  n ← positive_int value
  require (not (ltb n 2)) (value_error refusal)

-- int(value) of a JSON value.
abbrev pub int_of : {W : Type 0} → Builtins W → Json W → Result ℤ
int_of b (int n) = ok n
int_of b (bool true) = ok (pos 1)
int_of b (bool false) = ok (pos 0)
int_of b (float x) = b.truncate x
int_of b (str s) = b.parse_int s
int_of b _ = err type_error

abbrev pub int_is_zero : ℤ → Bool
int_is_zero (pos zero) = true
int_is_zero _ = false

module _ {W : Type 0} ⦃d : Float W⦄ where
  unfoldable pub checked_nonnegative : W → Result W
  checked_nonnegative result =
      if not (d.is_finite result) || d.lt result nought
      then err (value_error "must be finite and nonnegative")
      else ok result

  unfoldable pub finite_nonnegative : Builtins W → Json W → Result W
  finite_nonnegative b (int n) = b.of_int n >>= checked_nonnegative
  finite_nonnegative b (float x) = checked_nonnegative x
  finite_nonnegative b _ = err (value_error "must be numeric")

abbrev pub name_of_pipeline : String → Result (String × String)
name_of_pipeline pipeline =
    if str_eq pipeline "resnet10-layer7-cov-to-control-mlp"
    then ok ("perception", "control")
    else if str_eq pipeline "resnet10-backbone-to-learned-detection-head"
    then ok ("backbone", "detection-head")
    else if str_eq pipeline "resnet50-backbone-to-classification-head"
    then ok ("backbone", "classification-head")
    else if str_eq pipeline "whisper-last-hidden-state-to-projection-mlp"
    then ok ("audio-encoder", "projection")
    else err (value_error "unexpected pipeline workload")

-- The stages' names of profile["pipeline"]; a list or an object is unhashable.
unfoldable pub stage_names : {W : Type 0} → Json W → Result (String × String)
stage_names (str pipeline) = name_of_pipeline pipeline
stage_names (arr items) = err type_error
stage_names (obj fields) = err type_error
stage_names _ = err (value_error "unexpected pipeline workload")

abbrev pub is_str : {W : Type 0} → String → Json W → Bool
is_str expected (str s) = str_eq s expected
is_str expected _ = false

-- The checks before the stage latencies are read; the stages' names.
unfoldable pub check_profile : {W : Type 0} → Builtins W → Fields W → Result (String × String)
check_profile b profile = do
  require (is_str "ok" (get_or_null "status" profile)) (value_error "profile is not successful")
  names ← stage_names (get_or_null "pipeline" profile)
  failures ← int_of b (get_default "checksum_failures" (int (negsuc 0)) profile)
  require (int_is_zero failures) (value_error "payload checksum failure in profile")
  at_least_two (get_or_null "iterations" profile) "profile needs at least two measured requests"
  at_least_two (get_or_null "unique_payload_checksums" profile)
      "profile does not prove changing payloads"
  at_least_two (get_or_null "unique_policy_output_checksums" profile)
      "profile does not prove payload-dependent outputs"
  ok names
