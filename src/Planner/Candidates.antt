-- ===== src/Planner/Candidates.antt =====
-- parse_candidate: a candidate of the planner's specification.
use jetson_dlagreen.Dag.{is_in, nonempty_text}
use jetson_dlagreen.Common.{
  [], ◌∷◌, none, some, List, String, Result, Bool, if◌then◌else◌, true, require, err, ◌&&◌, ok,
  type_error, ◌>>◌, ◌++◌, not, value_error, key_error, ◌>>=◌, str_eq, false,
}
use jetson_dlagreen.Common.Json.{Fields, Json, str, arr, obj, keys, get_field}
use jetson_dlagreen.Planner.{Builtins, Float, Candidate, get_default, finite_nonnegative}

-- The keys that a candidate must have; two more may be left out.
abbrev pub required_keys : List String
required_keys =
    "candidate_id" ∷ "profile_path" ∷ "placement" ∷ "background_goodput_rps"
    ∷ "pre_release_guard_p99_us" ∷ "reservation_margin_us" ∷ []

abbrev pub optional_keys : List String
optional_keys = "placement_variant" ∷ "protection_scope" ∷ []

abbrev pub metadata : List String
metadata =
    "summary" ∷ "profile_sha256" ∷ "background_quota_percent" ∷ "pipeline_requests"
    ∷ "deadline_misses" ∷ "observed_p99_us" ∷ "slo_qualified" ∷ "workload" ∷ "background_period_ms"
    ∷ "background_offered_rps" ∷ "deadline_mode" ∷ "deadline_us" ∷ "deadline_lock_sha256"
    ∷ "checksum_mode" ∷ "correctness_validated" ∷ "unique_payload_checksums"
    ∷ "unique_policy_output_checksums" ∷ []

abbrev pub all_in : List String → List String → Bool
all_in [] names = true
all_in (x ∷ xs) names = is_in x names && all_in xs names

unfoldable pub check_keys : List String → Result (Unit {0})
check_keys names =
    require
      (all_in names (required_keys ++ optional_keys ++ metadata) && all_in required_keys names)
      (value_error "candidate keys differ")

-- raw[name] behind the check of the keys.
unfoldable pub get_item : {W : Type 0} → String → Fields W → Result (Json W)
get_item name fields = elim (get_field name fields) [ some v ↦ ok v | none ↦ err key_error ]

abbrev pub all_text : {W : Type 0} → Fields W → Bool
all_text Fields.end = true
all_text (Fields.field name (str s) fields) = not (str_eq s "") && all_text fields
all_text (Fields.field name _ fields) = false

abbrev pub placement_keys : List String
placement_keys = "producer" ∷ "consumer" ∷ []

unfoldable pub read_placement : {W : Type 0} → Json W → Result (Fields W)
read_placement (obj fields) =
    if all_in (keys fields) placement_keys && all_in placement_keys (keys fields) && all_text fields
    then ok fields
    else err (value_error "placement must map producer and consumer to instances")
read_placement _ = err (value_error "placement must map producer and consumer to instances")

abbrev pub scopes : List String
scopes = "producer" ∷ "consumer" ∷ "pipeline" ∷ []

-- A list or an object is unhashable.
unfoldable pub read_scope : {W : Type 0} → Json W → Result String
read_scope (str s) =
    if is_in s scopes
    then ok s
    else err (value_error "protection_scope must be producer, consumer, or pipeline")
read_scope (arr items) = err type_error
read_scope (obj fields) = err type_error
read_scope _ = err (value_error "protection_scope must be producer, consumer, or pipeline")

-- Path(value), resolved below the specification's directory.
unfoldable pub read_path : {W : Type 0} → (String → Result String) → Json W → Result String
read_path resolve (str path) = resolve path
read_path resolve _ = err type_error

-- parse_candidate(raw, root) for an object; `resolve` makes a path absolute.
module _ {W : Type 0} ⦃d : Float W⦄ (b : Builtins W) (resolve : String → Result String) where
  unfoldable pub parse_candidate : Fields W → Result (Candidate W)
  parse_candidate raw = do
    check_keys (keys raw)
    id ← get_item "candidate_id" raw
    candidate_id ← nonempty_text id "candidate_id must be a nonempty internal identifier"
    placed ← get_item "placement" raw
    placement ← read_placement placed
    variant ←
        nonempty_text (get_default "placement_variant" (str "fixed-1g-producer-2g-consumer") raw)
          "placement_variant must be a nonempty string"
    scope ← read_scope (get_default "protection_scope" (str "producer") raw)
    path ← get_item "profile_path" raw
    profile_path ← read_path resolve path
    goodput_value ← get_item "background_goodput_rps" raw
    goodput ← finite_nonnegative b goodput_value
    guard_value ← get_item "pre_release_guard_p99_us" raw
    guard ← finite_nonnegative b guard_value
    margin_value ← get_item "reservation_margin_us" raw
    margin ← finite_nonnegative b margin_value
    ok (record {
      candidate_id = candidate_id;
      profile_path = profile_path;
      placement = placement;
      placement_variant = variant;
      background_goodput_rps = goodput;
      pre_release_guard_p99_us = guard;
      reservation_margin_us = margin;
      protection_scope = scope;
    })
