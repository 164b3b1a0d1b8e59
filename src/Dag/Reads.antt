-- ===== src/Dag/Reads.antt =====
-- What is read from a dag: known edges between distinct stages, and what they make of its topology.
use jetson_dlagreen.Dag.Counts.{length-le_of_All, str_eq_sym}
use jetson_dlagreen.Dag.Schedule.{IsEdges}
use jetson_dlagreen.Dag.{
  read_edges, topology_of, nonempty_list, is_multi_stage, nonempty_text, is_in, pair_in,
}
use jetson_dlagreen.Common.Json.{Items, null, bool, int, float, str, arr, obj, Json, get_or_null}
use jetson_dlagreen.Common.{
  ◌∷◌, [], List, String, ◌≤◌, ◌≡◌, All, length, ok, str_eq, false, arith, ok_injective, leb, ◌+◌,
  ◌&&◌, >>=-eq-ok, require, value_error, not, require-true, ◌++◌, [], All-append, require-not,
  length-append,
}

-- No edge joins a stage to itself.
abbrev pub IsProper : List (String × String) → Type 0
IsProper pairs = All (λ e. str_eq e.0 e.1 ≡ false) pairs

pub read_edges-IsEdges :
    {W : Type 0} (known : List String) (pairs : List (String × String)) (edges : List (Json W))
    (r : List (String × String))
    → read_edges known pairs edges ≡ ok r
    → IsEdges known pairs
    → IsProper pairs
    → IsEdges known r × IsProper r × (length r ≡ length pairs + length edges)
unfolding read_edges
read_edges-IsEdges known pairs [] r e h p = rw (← ok_injective e) (h, p, omega arith)
read_edges-IsEdges known pairs (obj fields ∷ edges) r e h p =
    let (source, a, e1) =
      >>=-eq-ok
        (nonempty_text (get_or_null "source" fields) "dag edge source must be a nonempty string") _
        e in
    let (target, b, e2) =
      >>=-eq-ok
        (nonempty_text (get_or_null "target" fields) "dag edge target must be a nonempty string") _
        e1 in
    let (u, ends, e3) =
      >>=-eq-ok
        (require (is_in source known && is_in target known)
          (value_error "dag edge references an unknown stage"))
        _ e2 in
    let (v, proper, e4) =
      >>=-eq-ok (require (not (str_eq source target)) (value_error "dag cannot contain self-edges"))
        _ e3 in
    let (w, fresh, e5) =
      >>=-eq-ok
        (require (not (pair_in (source, target) pairs)) (value_error "dag edges must be unique")) _
        e4 in
    let known_ends = require-true (is_in source known && is_in target known) _ ends in
    let (hs, ps, n) =
      read_edges-IsEdges known (pairs ++ (source, target) ∷ []) edges r e5
        (All-append _ pairs _ h ((ground arith, ground arith), tt))
        (All-append _ pairs _ p (require-not (str_eq source target) _ proper, tt)) in
    (hs, ps, omega (arith, length-append pairs ((source, target) ∷ [])))
read_edges-IsEdges known pairs (null ∷ edges) r e h p = cc
read_edges-IsEdges known pairs (bool b ∷ edges) r e h p = cc
read_edges-IsEdges known pairs (int n ∷ edges) r e h p = cc
read_edges-IsEdges known pairs (float x ∷ edges) r e h p = cc
read_edges-IsEdges known pairs (str s ∷ edges) r e h p = cc
read_edges-IsEdges known pairs (arr xs ∷ edges) r e h p = cc

-- Among distinct stages, an edge between two of them makes two stages at least, and then the
-- topology is never the general one.
pub stages_of_edge :
    (ids : List String) (pairs : List (String × String))
    → IsEdges ids pairs
    → IsProper pairs
    → 1 ≤ length pairs
    → 2 ≤ length ids
stages_of_edge ids [] h p n = omega arith
stages_of_edge ids ((a, b) ∷ pairs) ((ha, hb), hs) (p, ps) n =
    length-le_of_All (a ∷ b ∷ []) ids (ground (arith, str_eq_sym a b)) (ha, (hb, tt))

pub topology_of-is_multi_stage :
    (ids : List String) (pairs : List (String × String))
    → 2 ≤ length ids
    → (leb 3 (length ids) && is_multi_stage (topology_of pairs ids)) ≡ leb 3 (length ids)
unfolding topology_of
topology_of-is_multi_stage ids pairs n = ground arith

pub nonempty_list-length :
    {W : Type 0} (value : Json W) (label : String) (xs : List (Json W))
    → nonempty_list value label ≡ ok xs
    → 1 ≤ length xs
nonempty_list-length (arr (Items.cons y ys)) label xs h = rw (← ok_injective h) (omega arith)
nonempty_list-length (arr Items.nil) label xs h = cc
nonempty_list-length null label xs h = cc
nonempty_list-length (bool b) label xs h = cc
nonempty_list-length (int n) label xs h = cc
nonempty_list-length (float x) label xs h = cc
nonempty_list-length (str s) label xs h = cc
nonempty_list-length (obj fs) label xs h = cc
