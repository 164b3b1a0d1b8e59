-- ===== src/Dag.antt =====
-- The structural contract of a stage graph: validate_dag of runtime/quiet_dag_contract.py.
pub mod Counts
pub mod Kahn
pub mod Order
pub mod Schedule
pub mod Reads
pub mod Contract
pub mod Tests
use jetson_dlagreen.Common.{
  ℕ, List, suc, Result, Bool, String, str_eq, ◌∷◌, true, false, Option, zero, length, ok,
  if◌then◌else◌, ◌||◌, ◌>>=◌, ◌++◌, some, [], err, ◌&&◌, none, ◌>>◌, value_error, require, not,
  ◌==◌, ◌+◌, map, runtime_error, ltb, leb,
}
use jetson_dlagreen.Common.Int.{ℤ, pos, negsuc}
use jetson_dlagreen.Common.Json.{Items, Json, str, obj, get_or_null, arr, elements}

-- _text(value, label). The labels are without the index of the stage or the edge.
abbrev pub nonempty_text : {W : Type 0} → Json W → String → Result String
nonempty_text (str s) label = if str_eq s "" then err (value_error label) else ok s
nonempty_text _ label = err (value_error label)

abbrev pub is_in : String → List String → Bool
is_in s [] = false
is_in s (x ∷ xs) = str_eq x s || is_in s xs

abbrev pub has_duplicate : List String → Bool
has_duplicate [] = false
has_duplicate (x ∷ xs) = is_in x xs || has_duplicate xs

abbrev pub same_pair : String × String → String × String → Bool
same_pair (a, b) (c, d) = str_eq a c && str_eq b d

abbrev pub pair_in : String × String → List (String × String) → Bool
pair_in p [] = false
pair_in p (q ∷ qs) = same_pair q p || pair_in p qs

-- The stage ids, in order.
unfoldable pub read_stages : {W : Type 0} → List (Json W) → Result (List String)
read_stages [] = ok []
read_stages (obj fields ∷ stages) = do
  id ← nonempty_text (get_or_null "id" fields) "dag stage id must be a nonempty string"
  ids ← read_stages stages
  ok (id ∷ ids)
read_stages (_ ∷ stages) = err (value_error "dag stage must be an object")

-- The edges, behind those read before; each is checked against all before it.
unfoldable pub read_edges :
    {W : Type 0}
    → List String
    → List (String × String)
    → List (Json W)
    → Result (List (String × String))
read_edges known pairs [] = ok pairs
read_edges known pairs (obj fields ∷ edges) = do
  source ← nonempty_text (get_or_null "source" fields) "dag edge source must be a nonempty string"
  target ← nonempty_text (get_or_null "target" fields) "dag edge target must be a nonempty string"
  require (is_in source known && is_in target known)
      (value_error "dag edge references an unknown stage")
  require (not (str_eq source target)) (value_error "dag cannot contain self-edges")
  require (not (pair_in (source, target) pairs)) (value_error "dag edges must be unique")
  read_edges known (pairs ++ (source, target) ∷ []) edges
read_edges known pairs (_ ∷ edges) = err (value_error "dag edge must be an object")

-- outgoing[stage], in the order of the edges.
abbrev pub outgoing : List (String × String) → String → List String
outgoing [] stage = []
outgoing ((source, target) ∷ pairs) stage =
    if str_eq source stage then target ∷ outgoing pairs stage else outgoing pairs stage

abbrev pub incoming : List (String × String) → String → List String
incoming [] stage = []
incoming ((source, target) ∷ pairs) stage =
    if str_eq target stage then source ∷ incoming pairs stage else incoming pairs stage

-- The Counter after the edges: one for each edge into the stage.
abbrev pub initial_indegree : List (String × String) → String → ℤ
initial_indegree pairs stage = pos (length (incoming pairs stage))

abbrev pub decrement : ℤ → ℤ
decrement (pos zero) = negsuc 0
decrement (pos (suc n)) = pos n
decrement (negsuc n) = negsuc (suc n)

abbrev pub is_zero : ℤ → Bool
is_zero (pos zero) = true
is_zero (pos (suc n)) = false
is_zero (negsuc n) = false

abbrev pub set_at : (String → ℤ) → String → ℤ → String → ℤ
set_at indegree stage value other = if str_eq stage other then value else indegree other

-- for target in outgoing[stage_id]: …
unfoldable pub release_targets :
    List String → (String → ℤ) → List String → (String → ℤ) × List String
release_targets [] indegree ready = (indegree, ready)
release_targets (target ∷ targets) indegree ready =
    let lower = decrement (indegree target) in
    release_targets targets (set_at indegree target lower)
      (if is_zero lower then ready ++ target ∷ [] else ready)

-- `while ready`, on fuel; `none` means that the fuel ran out.
unfoldable pub topological_loop :
    ℕ → List (String × String) → (String → ℤ) → List String → List String → Option (List String)
topological_loop fuel pairs indegree [] topological = some topological
topological_loop zero pairs indegree (stage ∷ ready) topological = none
topological_loop (suc fuel) pairs indegree (stage ∷ ready) topological =
    let (indegree', ready') = release_targets (outgoing pairs stage) indegree ready in
    topological_loop fuel pairs indegree' ready' (topological ++ stage ∷ [])

-- The stages that start ready: those without an incoming edge, in order.
abbrev pub ready_stages : (String → ℤ) → List String → List String
ready_stages indegree [] = []
ready_stages indegree (id ∷ ids) =
    if is_zero (indegree id) then id ∷ ready_stages indegree ids else ready_stages indegree ids

-- The topological prefix of the stages. Every stage is popped once at most, so as many rounds as
-- there are stages are enough.
unfoldable pub topological_order : List String → List (String × String) → Option (List String)
topological_order ids pairs =
    topological_loop (length ids) pairs (initial_indegree pairs)
      (ready_stages (initial_indegree pairs) ids) []

pub data Topology : Type 0 where
  fan_out_fan_in fan_out fan_in two_stage_chain three_or_more_stage_chain general_dag : Topology

abbrev pub any_above : ℕ → List ℕ → Bool
any_above n [] = false
any_above n (x ∷ xs) = ltb n x || any_above n xs

abbrev pub count_if : (ℕ → Bool) → List ℕ → ℕ
count_if test [] = 0
count_if test (x ∷ xs) = (if test x then 1 else 0) + count_if test xs

abbrev pub out_degrees : List (String × String) → List String → List ℕ
out_degrees pairs ids = map (λ id. length (outgoing pairs id)) ids

abbrev pub in_degrees : List (String × String) → List String → List ℕ
in_degrees pairs ids = map (λ id. length (incoming pairs id)) ids

unfoldable pub topology_of : List (String × String) → List String → Topology
topology_of pairs ids =
    let has_fan_out = any_above 1 (out_degrees pairs ids) in
    let has_fan_in = any_above 1 (in_degrees pairs ids) in
    let is_chain = not has_fan_out && not has_fan_in in
    if has_fan_out && has_fan_in
    then fan_out_fan_in
    else if has_fan_out
    then fan_out
    else if has_fan_in
    then fan_in
    else if is_chain && length ids == 2
    then two_stage_chain
    else if is_chain && leb 3 (length ids)
    then three_or_more_stage_chain
    else general_dag

abbrev pub is_multi_stage : Topology → Bool
is_multi_stage two_stage_chain = false
is_multi_stage general_dag = false
is_multi_stage fan_out_fan_in = true
is_multi_stage fan_out = true
is_multi_stage fan_in = true
is_multi_stage three_or_more_stage_chain = true

-- What validate_dag returns, less the constant fields.
pub record DagContract : Type 0 where
  pub stage_count : ℕ
  pub edge_count : ℕ
  pub stage_ids : List String
  pub topological : List String
  pub topology : Topology
  pub multi_stage_validated : Bool
  pub source_count : ℕ
  pub sink_count : ℕ

abbrev pub nonempty_list : {W : Type 0} → Json W → String → Result (List (Json W))
nonempty_list (arr (Items.cons x xs)) label = ok (elements (Items.cons x xs))
nonempty_list _ label = err (value_error label)

-- The returned dict.
abbrev pub contract_from : List String → List (String × String) → List String → DagContract
contract_from ids pairs order = record {
  stage_count = length ids;
  edge_count = length pairs;
  stage_ids = ids;
  topological = order;
  topology = topology_of pairs ids;
  multi_stage_validated = leb 3 (length ids) && is_multi_stage (topology_of pairs ids);
  source_count = count_if (ltb 0) (out_degrees pairs ids);
  sink_count = count_if (λ n. n == 0) (out_degrees pairs ids);
}

-- From the end of the loop on.
unfoldable pub contract_after :
    List String → List (String × String) → Option (List String) → Result DagContract
contract_after ids pairs none = err (runtime_error "out of fuel")
contract_after ids pairs (some order) =
    if not (length order == length ids)
    then err (value_error "dag precedence graph contains a cycle")
    else ok (contract_from ids pairs order)

-- From the stage ids and the edges on.
unfoldable pub contract_of : List String → List (String × String) → Result DagContract
contract_of ids pairs = contract_after ids pairs (topological_order ids pairs)

unfoldable pub validate_dag : {W : Type 0} → Json W → Result DagContract
validate_dag (obj fields) = do
  stages ← nonempty_list (get_or_null "stages" fields) "dag stages must be a nonempty list"
  edges ← nonempty_list (get_or_null "edges" fields) "dag edges must be a nonempty list"
  ids ← read_stages stages
  require (not (has_duplicate ids)) (value_error "dag stage ids must be unique")
  pairs ← read_edges ids [] edges
  contract_of ids pairs
validate_dag _ = err (value_error "dag must be an object")
