-- ===== src/Dag/Contract.antt =====
-- What validate_dag accepts: the contract of a graph whose stages have a schedule.
use jetson_dlagreen.Dag.Reads.{
  read_edges-IsEdges, stages_of_edge, nonempty_list-length, topology_of-is_multi_stage,
}
use jetson_dlagreen.Dag.Schedule.{
  IsEdges, IsSchedule, topological_order-IsMaximalOrder, whole_of_length, length_of_schedule,
}
use jetson_dlagreen.Common.Json.{obj, Fields}
use jetson_dlagreen.Dag.{
  contract_of, contract_after, read_edges, has_duplicate, Json, DagContract, get_or_null,
  contract_from, validate_dag, nonempty_list, read_stages,
}
use jetson_dlagreen.Common.{
  List, String, ◌≡◌, ok, false, length, ok_injective, ◌⊎◌, err, arith, value_error, >>=-eq-ok,
  Bool-cases, ◌==◌, inl, require, inr, not, refl, [], require-not, ◌≤◌, leb, subst, sym, ◌∙◌,
}

-- For distinct stages and edges between them the contract is that of a schedule, or the graph
-- has none and the cycle is reported.
contract_of-decides :
    (ids : List String) (pairs : List (String × String))
    → has_duplicate ids ≡ false
    → IsEdges ids pairs
    → ((order : List String) × (contract_of ids pairs ≡ ok (contract_from ids pairs order))
        × IsSchedule ids pairs order)
      ⊎ ((contract_of ids pairs ≡ err (value_error "dag precedence graph contains a cycle"))
          × ((order : List String) → ¬ (IsSchedule ids pairs order)))
unfolding contract_of contract_after
contract_of-decides ids pairs unique ends =
    let (order, found, h) = topological_order-IsMaximalOrder ids pairs unique ends in
    elim (Bool-cases (length order == length ids)) [
      | inl whole ↦
          inl
            (order, rw (found, whole) refl, whole_of_length ids pairs order unique h (ground arith))
      | inr short ↦ inr (
        rw (found, short) refl,
        λ other s. ground (arith, length_of_schedule ids pairs order other unique h s),
      )
    ]

module _ {W : Type 0} (fields : Fields W) where
  -- The dag's stages and edges as they are read, the stages distinct.
  pub record IsReadAs (ids : List String) (pairs : List (String × String)) : Type 0 where
    pub stages : List (Json W)
    pub edges : List (Json W)
    pub has_stages :
        nonempty_list (get_or_null "stages" fields) "dag stages must be a nonempty list" ≡ ok stages
    pub has_edges :
        nonempty_list (get_or_null "edges" fields) "dag edges must be a nonempty list" ≡ ok edges
    pub read_ids : read_stages stages ≡ ok ids
    pub unique : has_duplicate ids ≡ false
    pub read_pairs : read_edges ids [] edges ≡ ok pairs

  -- The contract of a schedule of the stages. It has two stages at least, and counts as validated
  -- for many stages exactly when there are three or more.
  pub record IsContract (c : DagContract) : Type 0 where
    pub pairs : List (String × String)
    pub read : IsReadAs c.stage_ids pairs
    pub returned : c ≡ contract_from c.stage_ids pairs c.topological
    pub schedule : IsSchedule c.stage_ids pairs c.topological
    pub two_stages : 2 ≤ c.stage_count
    pub multi_stage : c.multi_stage_validated ≡ leb 3 c.stage_count

  of_schedule :
      (ids : List String) (pairs : List (String × String)) (order : List String)
      → IsReadAs ids pairs
      → IsSchedule ids pairs order
      → IsContract (contract_from ids pairs order)
  of_schedule ids pairs order r s =
      let (ends, proper, n) = read_edges-IsEdges ids [] r.edges pairs r.read_pairs tt tt in
      let two =
        stages_of_edge ids pairs ends proper
          (omega (arith, n, nonempty_list-length _ _ _ r.has_edges)) in
      record {
        pairs = pairs;
        read = r;
        returned = refl;
        schedule = s;
        two_stages = two;
        multi_stage = topology_of-is_multi_stage ids pairs two;
      }

  -- A dag whose stages and edges are read has the contract of a schedule of its stages, or no
  -- schedule exists and the cycle is reported.
  pub validate_dag-decides :
      (ids : List String) (pairs : List (String × String))
      → IsReadAs ids pairs
      → ((order : List String) × (validate_dag (obj fields) ≡ ok (contract_from ids pairs order))
          × IsSchedule ids pairs order)
        ⊎ ((validate_dag (obj fields) ≡ err (value_error "dag precedence graph contains a cycle"))
            × ((order : List String) → ¬ (IsSchedule ids pairs order)))
  unfolding validate_dag
  validate_dag-decides ids pairs h =
      rw (h.has_stages, h.has_edges, h.read_ids, h.unique, h.read_pairs)
        (contract_of-decides ids pairs h.unique
          (read_edges-IsEdges ids [] h.edges pairs h.read_pairs tt tt).0)

  -- Nothing is accepted but stages and edges that are read.
  accepted-IsReadAs :
      (c : DagContract)
      → validate_dag (obj fields) ≡ ok c
      → (ids : List String) × (pairs : List (String × String)) × IsReadAs ids pairs
  unfolding validate_dag
  accepted-IsReadAs c h =
      let (stages, s, h1) =
        >>=-eq-ok (nonempty_list (get_or_null "stages" fields) "dag stages must be a nonempty list")
          _ h in
      let (edges, e, h2) =
        >>=-eq-ok (nonempty_list (get_or_null "edges" fields) "dag edges must be a nonempty list") _
          h1 in
      let (ids, i, h3) = >>=-eq-ok (read_stages stages) _ h2 in
      let (u, unique, h4) =
        >>=-eq-ok (require (not (has_duplicate ids)) (value_error "dag stage ids must be unique")) _
          h3 in
      let (pairs, p, h5) = >>=-eq-ok (read_edges ids [] edges) _ h4 in
      (
        ids,
        pairs,
        record {
          stages = stages;
          edges = edges;
          has_stages = s;
          has_edges = e;
          read_ids = i;
          unique = require-not (has_duplicate ids) _ unique;
          read_pairs = p;
        },
      )

  -- What validate_dag accepts is the contract of a schedule of the stages that it read, which are
  -- two at least; it counts as validated for many stages exactly when there are three or more.
  pub validate_dag-IsContract : (c : DagContract) → validate_dag (obj fields) ≡ ok c → IsContract c
  validate_dag-IsContract c h =
      let (ids, pairs, r) = accepted-IsReadAs c h in
      elim (validate_dag-decides ids pairs r) [
        | inl (order, e, s) ↦
            subst IsContract (ok_injective (sym e ∙ h)) (of_schedule ids pairs order r s)
        | inr (cyclic, none) ↦ cc
      ]
